-- ===== src/Channel/Refine/Push.antt =====
-- `RingBuffer::push` of src/channel.rs on a ring that holds a queue.
use antenna.Base.{
  ℕ, zero, ◌+◌, ◌-◌, ◌%◌, ◌≤◌, ◌<◌, ◌≡◌, refl, sym, ap, ap₂, ◌∙◌, true, false, [], ◌∷◌, ◌++◌, arith,
  leb, if◌then◌else◌, inl, inr, Bool-cases, length, length-append, leb→le, length-replicate,
}
use antenna.Channel.{Bytes, u32_mod, to_le_bytes, RingBuffer, read, write, new, push}
use antenna.Channel.Memory.{
  length-write, read-write_ne, read-write_self, read-add, write_mod, write-append,
}
use antenna.Channel.Queue.{Queue, frame, frames, occupied, enqueue, frames-snoc, length-frame}

-- The ring holds the messages of the queue, oldest first. The capacity divides 2 ^ 32, as 65536 does.
pub record Holds (r : RingBuffer) (q : Queue) : Type 0 where
  pub positive : 0 < r.capacity
  pub bounded : r.capacity < u32_mod
  pub divides : u32_mod % r.capacity ≡ 0
  pub room : r.capacity ≤ length r.buf
  pub tail_u32 : r.tail < u32_mod
  pub head_at : r.head ≡ (r.tail + occupied q) % u32_mod
  pub fits : occupied q ≤ r.capacity
  pub bytes : read r.capacity r.buf r.tail (occupied q) ≡ frames q

pub new-Holds :
    (capacity : ℕ)
    → 0 < capacity
    → capacity < u32_mod
    → u32_mod % capacity ≡ 0
    → Holds (new capacity) []
unfolding new read
new-Holds capacity pos small divides = record {
  positive = omega arith;
  bounded = omega arith;
  divides = ap (λ k. u32_mod % k) same ∙ divides;
  room = omega (arith, length-replicate capacity zero);
  tail_u32 = omega arith;
  head_at = refl;
  fits = omega arith;
  bytes = refl;
}
  where
    same : capacity % u32_mod ≡ capacity
    same = omega arith

used-eq-occupied :
    (r : RingBuffer) (q : Queue) → Holds r q → (r.head + u32_mod - r.tail) % u32_mod ≡ occupied q
used-eq-occupied r q v = omega arith

-- The buffer after the two writing loops of `push`.
abbrev pub pushed : RingBuffer → Bytes → Bytes
pushed r m =
    write r.capacity (write r.capacity r.buf r.head (to_le_bytes (length m))) (r.head + 4) m

pushed-eq-write :
    (r : RingBuffer) (q : Queue) (m : Bytes)
    → Holds r q
    → pushed r m ≡ write r.capacity r.buf (r.tail + occupied q) (frame m)
pushed-eq-write r q m v =
    sym (write-append r.capacity r.buf r.head (to_le_bytes (length m)) m)
    ∙ write_mod r.capacity r.buf r.head (r.tail + occupied q) (frame m) (omega arith)

read-pushed :
    (r : RingBuffer) (q : Queue) (m : Bytes)
    → Holds r q
    → occupied q + (4 + length m) ≤ r.capacity
    → read r.capacity (pushed r m) r.tail (occupied q + (4 + length m)) ≡ frames q ++ frame m
read-pushed r q m v h =
    ap (λ b. read c b r.tail (occupied q + (4 + length m))) (pushed-eq-write r q m v)
    ∙ read-add c _ r.tail (occupied q) (4 + length m)
    ∙ ap₂ ◌++◌ (old ∙ v.bytes) (ap (read c _ p) same ∙ new_bytes)
  where
    c : ℕ
    c = r.capacity

    p : ℕ
    p = r.tail + occupied q

    same : 4 + length m ≡ length (frame m)
    same = omega arith

    old : read c (write c r.buf p (frame m)) r.tail (occupied q) ≡ read c r.buf r.tail (occupied q)
    old =
        read-write_ne c v.divides r.buf p r.tail (occupied q) (frame m) (omega arith) (omega arith)

    new_bytes : read c (write c r.buf p (frame m)) p (length (frame m)) ≡ frame m
    new_bytes = read-write_self c v.divides r.buf p (frame m) v.positive v.room (omega arith)

-- `push` without the wrapping arithmetic, on a ring that holds `q`.
pub push_lem :
    (r : RingBuffer) (q : Queue) (m : Bytes)
    → Holds r q
    → 4 + length m < u32_mod
    → push r m ≡ (
        if leb (occupied q + (4 + length m)) r.capacity
        then (true, record r { head = (r.head + (4 + length m)) % u32_mod; buf = pushed r m })
        else (false, r))
unfolding push
push_lem r q m v h = rw (len, total, used-eq-occupied r q v, free) (ground arith)
  where
    len : length m % u32_mod ≡ length m
    len = omega arith

    total : (4 + length m) % u32_mod ≡ 4 + length m
    total = omega arith

    free : (r.capacity + u32_mod - occupied q) % u32_mod ≡ r.capacity - occupied q
    free = omega arith

occupied-snoc : (q : Queue) (m : Bytes) → occupied (q ++ m ∷ []) ≡ occupied q + (4 + length m)
occupied-snoc q m =
    ap length (frames-snoc q m)
    ∙ length-append (frames q) (frame m)
    ∙ ap (λ k. occupied q + k) (length-frame m)

pub pushed-Holds :
    (r : RingBuffer) (q : Queue) (m : Bytes)
    → Holds r q
    → occupied q + (4 + length m) ≤ r.capacity
    → Holds
        (record r { head = (r.head + (4 + length m)) % u32_mod; buf = pushed r m })
        (q ++ m ∷ [])
pushed-Holds r q m v h = record {
  positive = v.positive;
  bounded = v.bounded;
  divides = v.divides;
  room = omega (
    arith,
    length-write r.capacity v.divides (write r.capacity r.buf r.head (to_le_bytes (length m)))
        (r.head + 4) m,
    length-write r.capacity v.divides r.buf r.head (to_le_bytes (length m)),
  );
  tail_u32 = v.tail_u32;
  head_at = rw (occupied-snoc q m) (omega arith);
  fits = omega (arith, occupied-snoc q m);
  bytes = rw (occupied-snoc q m, frames-snoc) (read-pushed r q m v h);
}

-- `push` on a ring that holds `q` returns what `enqueue` returns, and the ring then holds the queue
-- that `enqueue` leaves. The message is shorter than 2 ^ 32 - 4 bytes.
pub push_refines :
    (r : RingBuffer) (q : Queue) (m : Bytes)
    → Holds r q
    → 4 + length m < u32_mod
    → ((push r m).0 ≡ (enqueue r.capacity q m).0) × Holds (push r m).1 (enqueue r.capacity q m).1
unfolding enqueue
push_refines r q m v h = elim (Bool-cases (leb (occupied q + (4 + length m)) r.capacity)) [
  | inl e ↦ rw (push_lem r q m v h, e) (refl, pushed-Holds r q m v (leb→le _ _ e))
  | inr e ↦ rw (push_lem r q m v h, e) (refl, v)
]
