-- ===== src/Channel/Sending.antt =====
-- What `ChannelWriter::send` and `ChannelReader::recv` do to the queue that the ring holds.
use mathlib.Core.Option
use mathlib.Core.Bool.{false≢true}
use antenna.Base.{
  ℕ, zero, suc, ◌+◌, ◌-◌, ◌≤◌, ◌<◌, ◌≡◌, refl, sym, ap, subst, ◌∙◌, Bool, true, false, [], ◌∷◌,
  ◌++◌, some, arith, leb, inl, inr, Bool-cases, drop, length,
}
use antenna.Base.Text.{Text}
use antenna.Base.Utf8.{as_bytes, from_utf8_lossy, AllScalar, from_utf8_lossy-as_bytes}
use antenna.Channel.{Bytes, u32_mod, RingBuffer, push, pop}
use antenna.Channel.Queue.{Queue, occupied, enqueue, dequeue}
use antenna.Channel.Refine.{Holds, push_refines, pop_refines, pop_nil, push_lem, capacity-pop}
use antenna.Channel.Endpoint.{Descriptor, InternalChannel, pops, signal, send_loop, send, recv}

drop-nil : (n : ℕ) → drop {A = Bytes} n [] ≡ []
drop-nil zero = refl
drop-nil (suc n) = refl

pub drop-drop : (m n : ℕ) (q : Queue) → drop n (drop m q) ≡ drop (m + n) q
drop-drop zero n q = ap (λ k. drop k q) (omega arith)
drop-drop (suc m) n [] = drop-nil n ∙ sym (ap (λ k. drop k []) e)
  where
    e : suc m + n ≡ suc (m + n)
    e = omega arith
drop-drop (suc m) n (x ∷ q) = drop-drop m n q ∙ ap (λ k. drop k (x ∷ q)) e
  where
    e : suc (m + n) ≡ suc m + n
    e = omega arith

length-drop : (n : ℕ) (q : Queue) → length (drop n q) ≡ length q - n
length-drop zero q = omega arith
length-drop (suc n) [] = omega arith
length-drop (suc n) (x ∷ q) = omega (arith, length-drop n q)

capacity-pops : (n : ℕ) (r : RingBuffer) → (pops n r).capacity ≡ r.capacity
unfolding pops
capacity-pops zero r = refl
capacity-pops (suc n) r = capacity-pops n (pop r).1 ∙ capacity-pop r

-- Taking messages removes the oldest ones.
pops-Holds : (n : ℕ) (r : RingBuffer) (q : Queue) → Holds r q → Holds (pops n r) (drop n q)
unfolding pops dequeue
pops-Holds zero r q v = v
pops-Holds (suc n) r [] v =
    rw (pop_nil r v) (subst (Holds (pops n r)) (drop-nil n) (pops-Holds n r [] v))
pops-Holds (suc n) r (m ∷ q) v = pops-Holds n (pop r).1 q (pop_refines r (m ∷ q) v).1

-- What the reader takes during `n` pauses from the `i`-th on
abbrev pub taken : (ℕ → ℕ) → ℕ → ℕ → ℕ
taken idle i zero = 0
taken idle i (suc n) = idle i + taken idle (i + 1) n

-- Before each of these pauses a frame of `size` bytes does not fit behind what is left of the queue.
abbrev pub AllFull : (ℕ → ℕ) → (capacity size i n : ℕ) → Queue → Type 0
AllFull idle capacity size i zero q = Unit
AllFull idle capacity size i (suc n) q =
    (capacity < occupied q + size) × AllFull idle capacity size (i + 1) n (drop (idle i) q)

-- How `send` ends behind `n` pauses of at most `attempts`, `left` being what the reader has left of the
-- queue: the message fits and stands once behind that, with one signal; or none of the attempts is left,
-- the message is not queued and the clock is as it was.
abbrev pub Ended :
    {F : Type 0}
    → Descriptor F
    → (capacity attempts n : ℕ) → Bytes
    → Queue
    → F
    → Bool
    → InternalChannel F
    → Type 0
Ended fd capacity attempts n d left clock true ch =
    (n < attempts)
    × (occupied left + (4 + length d) ≤ capacity)
    × Holds ch.ring (left ++ d ∷ [])
    × (ch.clock ≡ signal fd clock)
Ended fd capacity attempts n d left clock false ch =
    (n ≡ attempts) × Holds ch.ring left × (ch.clock ≡ clock)

-- How `send` leaves a channel that held `q`: there is a pause for each attempt at which the ring is
-- full, and only what the reader takes in these pauses is gone.
abbrev pub Outcome :
    {F : Type 0}
    → Descriptor F
    → (ℕ → ℕ)
    → (capacity attempts i : ℕ) → Bytes
    → Queue
    → F
    → Bool × InternalChannel F
    → Type 0
Outcome fd idle capacity attempts i d q clock (b, ch) =
    (n : ℕ) × AllFull idle capacity (4 + length d) i n q
    × Ended fd capacity attempts n d (drop (taken idle i n) q) clock b ch

push_sent :
    (r : RingBuffer) (q : Queue) (d : Bytes)
    → Holds r q
    → 4 + length d < u32_mod
    → (push r d).0 ≡ true
    → Holds (push r d).1 (q ++ d ∷ [])
unfolding enqueue
push_sent r q d v h e =
    let (same, holds) = push_refines r q d v h in
    subst (Holds (push r d).1) (stored (sym same ∙ e)) holds
  where
    stored : (enqueue r.capacity q d).0 ≡ true → (enqueue r.capacity q d).1 ≡ q ++ d ∷ []
    stored = ground arith

push_fits :
    (r : RingBuffer) (q : Queue) (d : Bytes)
    → Holds r q
    → 4 + length d < u32_mod
    → (push r d).0 ≡ true
    → occupied q + (4 + length d) ≤ r.capacity
push_fits r q d v h e = elim (Bool-cases (leb (occupied q + (4 + length d)) r.capacity)) [
  | inl fits ↦ ground (arith, fits)
  | inr full ↦ absurd (false≢true (sym (rw (push_lem r q d v h, full)) ∙ e))
]

push_refused :
    (r : RingBuffer) (q : Queue) (d : Bytes)
    → Holds r q
    → 4 + length d < u32_mod
    → (push r d).0 ≡ false
    → ((push r d).1 ≡ r) × (r.capacity < occupied q + (4 + length d))
push_refused r q d v h e = elim (Bool-cases (leb (occupied q + (4 + length d)) r.capacity)) [
  | inl fits ↦ absurd (false≢true (sym e ∙ rw (push_lem r q d v h, fits)))
  | inr full ↦ (rw (push_lem r q d v h, full), ground (arith, full))
]

module _ {F : Type 0} (fd : Descriptor F) (idle : ℕ → ℕ) (d : Bytes)
    (small : 4 + length d < u32_mod) where
  -- An attempt that succeeds ends the loop.
  send_loop_sent :
      (attempts i : ℕ) (ch : InternalChannel F)
      → (push ch.ring d).0 ≡ true
      → send_loop fd (suc attempts) i idle d ch
        ≡ (true, record ch { ring = (push ch.ring d).1; clock = signal fd ch.clock })
  unfolding send_loop
  send_loop_sent attempts i ch e = rw e

  -- One that fails leaves the ring to the reader and goes on.
  send_loop_refused :
      (attempts i : ℕ) (ch : InternalChannel F) (q : Queue)
      → Holds ch.ring q
      → (push ch.ring d).0 ≡ false
      → send_loop fd (suc attempts) i idle d ch
        ≡ send_loop fd attempts (i + 1) idle d (record ch { ring = pops (idle i) ch.ring })
  unfolding send_loop
  send_loop_refused attempts i ch q v e = rw (e, (push_refused ch.ring q d v small e).0)

  send_loop-Outcome :
      (attempts i : ℕ) (ch : InternalChannel F) (q : Queue)
      → Holds ch.ring q
      → Outcome fd idle ch.ring.capacity attempts i d q ch.clock (send_loop fd attempts i idle d ch)
  send_loop-Outcome zero i ch q v = unfold send_loop in (0, tt, (refl, v, refl))
  send_loop-Outcome (suc attempts) i ch q v = elim (Bool-cases (push ch.ring d).0) [
    | inl e ↦ rw (send_loop_sent attempts i ch e) (
      0,
      tt,
      (omega arith, push_fits ch.ring q d v small e, push_sent ch.ring q d v small e, refl),
    )
    | inr e ↦ rw (send_loop_refused attempts i ch q v e) (
        later (send_loop fd attempts (i + 1) idle d (record ch { ring = pops (idle i) ch.ring }))
          (push_refused ch.ring q d v small e).1
          (subst
            (λ c.
              Outcome fd idle c attempts (i + 1) d (drop (idle i) q) ch.clock
                (send_loop fd attempts (i + 1) idle d (record ch { ring = pops (idle i) ch.ring })))
            (capacity-pops (idle i) ch.ring)
            (send_loop-Outcome attempts (i + 1) (record ch { ring = pops (idle i) ch.ring })
              (drop (idle i) q) (pops-Holds (idle i) ch.ring q v))))
  ]
    where
      later :
          (out : Bool × InternalChannel F)
          → ch.ring.capacity < occupied q + (4 + length d)
          → Outcome fd idle ch.ring.capacity attempts (i + 1) d (drop (idle i) q) ch.clock out
          → Outcome fd idle ch.ring.capacity (suc attempts) i d q ch.clock out
      later (true, c) full (n, fulls, (few, fits, holds, clock)) = (
        suc n,
        (full, fulls),
        (
          omega arith,
          rw (sym (drop-drop (idle i) (taken idle (i + 1) n) q)) fits,
          rw (sym (drop-drop (idle i) (taken idle (i + 1) n) q)) holds,
          clock,
        ),
      )
      later (false, c) full (n, fulls, (all, holds, clock)) = (
        suc n,
        (full, fulls),
        (ap suc all, rw (sym (drop-drop (idle i) (taken idle (i + 1) n) q)) holds, clock),
      )

  -- A reader that takes a message in each pause makes room in time.
  send_loop_total :
      (attempts i : ℕ) (ch : InternalChannel F) (q : Queue)
      → Holds ch.ring q
      → ((j : ℕ) → 0 < idle j)
      → 4 + length d ≤ ch.ring.capacity
      → length q < attempts
      → (send_loop fd attempts i idle d ch).0 ≡ true
  send_loop_total zero i ch q v busy fits few = absurd (omega arith)
  send_loop_total (suc attempts) i ch q v busy fits few = elim (Bool-cases (push ch.ring d).0) [
    | inl e ↦ rw (send_loop_sent attempts i ch e)
    | inr e ↦ rw (send_loop_refused attempts i ch q v e) (
        send_loop_total attempts (i + 1) (record ch { ring = pops (idle i) ch.ring })
          (drop (idle i) q) (pops-Holds (idle i) ch.ring q v) busy
          (omega (arith, capacity-pops (idle i) ch.ring))
          (omega (
            arith,
            length-drop (idle i) q,
            busy i,
            not_empty q (push_refused ch.ring q d v small e).1,
          )))
  ]
    where
      not_empty : (p : Queue) → ch.ring.capacity < occupied p + (4 + length d) → 0 < length p
      not_empty [] h = absurd (omega arith)
      not_empty (m ∷ p) h = omega arith

capacity-push : (r : RingBuffer) (d : Bytes) → (push r d).1.capacity ≡ r.capacity
unfolding push
capacity-push r d = ground arith

capacity-send_loop :
    {F : Type 0} (fd : Descriptor F) (idle : ℕ → ℕ) (d : Bytes) (attempts i : ℕ)
    (ch : InternalChannel F)
    → (send_loop fd attempts i idle d ch).1.ring.capacity ≡ ch.ring.capacity
unfolding send_loop
capacity-send_loop fd idle d zero i ch = refl
capacity-send_loop fd idle d (suc attempts) i ch = elim (Bool-cases (push ch.ring d).0) [
  | inl e ↦ rw (e, send_loop) (capacity-push ch.ring d)
  | inr e ↦
      rw (e, send_loop)
        (capacity-send_loop fd idle d attempts (i + 1)
            (record ch { ring = pops (idle i) (push ch.ring d).1 })
          ∙ capacity-pops (idle i) (push ch.ring d).1
          ∙ capacity-push ch.ring d)
]

pub capacity-send :
    {F : Type 0} (fd : Descriptor F) (idle : ℕ → ℕ) (s : Text) (ch : InternalChannel F)
    → (send fd idle s ch).1.ring.capacity ≡ ch.ring.capacity
unfolding send
capacity-send fd idle s ch = capacity-send_loop fd idle (as_bytes s) 20 0 ch

-- `send` on a channel that holds `q`, whatever the reader takes during the pauses: it pauses once for
-- each of its 20 attempts at which the message does not fit behind what is left of `q`, and nothing but
-- what the reader takes in these pauses is gone. True means that the message came to fit and stands once
-- behind what is left, with one signal; false that it never fitted, and that it is not queued and there
-- is no signal. The message is shorter than 2 ^ 32 - 4 bytes.
pub send_lem :
    {F : Type 0} (fd : Descriptor F) (idle : ℕ → ℕ) (s : Text) (ch : InternalChannel F) (q : Queue)
    → Holds ch.ring q
    → 4 + length (as_bytes s) < u32_mod
    → Outcome fd idle ch.ring.capacity 20 0 (as_bytes s) q ch.clock (send fd idle s ch)
unfolding send
send_lem fd idle s ch q v small = send_loop-Outcome fd idle (as_bytes s) small 20 0 ch q v

-- `send` succeeds if the frame fits the buffer, fewer than 20 messages wait and the reader takes at
-- least one in each pause.
pub send_delivers :
    {F : Type 0} (fd : Descriptor F) (idle : ℕ → ℕ) (s : Text) (ch : InternalChannel F) (q : Queue)
    → Holds ch.ring q
    → 4 + length (as_bytes s) < u32_mod
    → 4 + length (as_bytes s) ≤ ch.ring.capacity
    → length q < 20
    → ((j : ℕ) → 0 < idle j)
    → (send fd idle s ch).0 ≡ true
unfolding send
send_delivers fd idle s ch q v small fits few busy =
    send_loop_total fd idle (as_bytes s) small 20 0 ch q v busy fits few

-- What a writer sent as text the reader receives as the same text.
pub recv_lem :
    {F : Type 0} (ch : InternalChannel F) (s : Text) (q : Queue)
    → Holds ch.ring (as_bytes s ∷ q)
    → AllScalar s
    → ((recv ch).0 ≡ some s) × Holds (recv ch).1.ring q
unfolding recv dequeue
recv_lem ch s q v scalar =
    let (first, rest) = pop_refines ch.ring (as_bytes s ∷ q) v in
    (ap (Option.map from_utf8_lossy) first ∙ ap some (from_utf8_lossy-as_bytes s scalar), rest)

-- Where a write of fewer than eight bytes does nothing, as to an `eventfd`, `Clock::signal` never makes
-- the clock readable: a clock that is not stays so through every send.
pub send_silent :
    {F : Type 0} (fd : Descriptor F) (idle : ℕ → ℕ) (s : Text) (ch : InternalChannel F) (q : Queue)
    → Holds ch.ring q
    → 4 + length (as_bytes s) < u32_mod
    → ((n : ℕ) (f : F) → n < 8 → fd.write n f ≡ f)
    → (send fd idle s ch).1.clock ≡ ch.clock
unfolding signal
send_silent {F = F} fd idle s ch q v small short =
    same (send fd idle s ch) (send_lem fd idle s ch q v small)
  where
    same :
        (out : Bool × InternalChannel F)
        → Outcome fd idle ch.ring.capacity 20 0 (as_bytes s) q ch.clock out
        → out.1.clock ≡ ch.clock
    same (true, c) (n, fulls, (few, fits, holds, clock)) = clock ∙ short 1 ch.clock (omega arith)
    same (false, c) (n, fulls, (all, holds, clock)) = clock
