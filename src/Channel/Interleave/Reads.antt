-- ===== src/Channel/Interleave/Reads.antt =====
-- Each step of the consumer on a ring of src/channel.rs keeps the invariant.
use antenna.Base.{
  ℕ, zero, suc, ◌+◌, ◌%◌, ◌≤◌, ◌<◌, ◌≡◌, ◌≢◌, refl, sym, ap, subst, ◌∙◌, [], ◌∷◌, ◌++◌, length,
  length-append, append_assoc, append-nil, arith, get_or, Bool-cases, ◌⊎◌, inl, inr, ltb, true,
  false, ltb→lt, drop,
}
use antenna.Channel.{Bytes, u32_mod, read, index}
use antenna.Channel.Memory.{length-read, read-add, read_mod, from_le_bytes-to_le_bytes}
use antenna.Channel.Queue.{Queue, frame, frames, occupied, length-frame}
use antenna.Channel.Refine.{append-injective}
use antenna.Channel.Interleave.{Consumer, reading, System, wanted}
use antenna.Channel.Interleave.Invariant.{Shared, IsConsuming, written_of}

pub consumer_facts :
    (s : System) (q : Queue) (c : Consumer) → Shared s q → s.consumer ≡ c → IsConsuming c q
consumer_facts s q c v e = subst (λ x. IsConsuming x q) e v.consuming

pub look-Shared :
    (s : System) (q : Queue)
    → Shared s q
    → s.ring.tail ≢ s.ring.head
    → Shared (record s { consumer = reading [] }) q
look-Shared s q v ne = record {
  positive = v.positive;
  bounded = v.bounded;
  divides = v.divides;
  room = v.room;
  tail_u32 = v.tail_u32;
  head_at = v.head_at;
  fits = v.fits;
  bytes = v.bytes;
  producing = v.producing;
  consuming = started q v.head_at;
  history = v.history;
}
  where
    started :
        (p : Queue)
        → s.ring.head ≡ (s.ring.tail + occupied p) % u32_mod
        → IsConsuming (reading []) p
    started [] h = absurd (ne (omega arith))
    started (m ∷ p) h = (frame m, refl)

get_or-append : (xs ys : Bytes) (i : ℕ) → i < length xs → get_or (xs ++ ys) i 0 ≡ get_or xs i 0
get_or-append [] ys i h = absurd (omega arith)
get_or-append (x ∷ xs) ys zero h = refl
get_or-append (x ∷ xs) ys (suc i) h = get_or-append xs ys i (omega arith)

get_or-append_at : (xs : Bytes) (x : ℕ) (ys : Bytes) → get_or (xs ++ x ∷ ys) (length xs) 0 ≡ x
get_or-append_at [] x ys = refl
get_or-append_at (y ∷ xs) x ys = get_or-append_at xs x ys

get_or-read :
    (cap : ℕ) (buf : Bytes) (p n i : ℕ)
    → i < n
    → get_or (read cap buf p n) i 0 ≡ get_or buf (index cap (p + i)) 0
unfolding read
get_or-read cap buf p zero i h = absurd (omega arith)
get_or-read cap buf p (suc n) zero h = ap (λ k. get_or buf (index cap k) 0) (omega arith)
get_or-read cap buf p (suc n) (suc i) h =
    get_or-read cap buf (p + 1) n i (omega arith)
    ∙ ap (λ k. get_or buf (index cap k) 0) (omega arith)

-- Four bytes of a frame or more tell its length.
wanted_lem :
    (got rest m : Bytes)
    → got ++ rest ≡ frame m
    → length m < u32_mod
    → (length got < 4) × (wanted got ≡ 4) ⊎ (4 ≤ length got) × (wanted got ≡ 4 + length m)
wanted_lem got rest m e small = go (Bool-cases (ltb (length got) 4))
  where
    at : (i : ℕ) → i < length got → get_or got i 0 ≡ get_or (frame m) i 0
    at i h = sym (get_or-append got rest i h) ∙ ap (λ t. get_or t i 0) e

    go :
        (ltb (length got) 4 ≡ true) ⊎ (ltb (length got) 4 ≡ false)
        → (length got < 4) × (wanted got ≡ 4) ⊎ (4 ≤ length got) × (wanted got ≡ 4 + length m)
    go (inl f) = inl (ltb→lt _ _ f, rw f refl)
    go (inr f) =
        let far : 4 ≤ length got = ground arith in
        inr (
          far,
          rw f (
              omega (
                arith,
                at 0 (omega arith),
                at 1 (omega arith),
                at 2 (omega arith),
                at 3 (omega arith),
                from_le_bytes-to_le_bytes (length m) small,
              )),
        )

-- The byte at the reading position is the next one of the frame.
next_byte :
    (s : System) (m : Bytes) (q : Queue) (got : Bytes) (x : ℕ) (rest : Bytes)
    → Shared s (m ∷ q)
    → got ++ x ∷ rest ≡ frame m
    → get_or s.ring.buf (index s.ring.capacity (s.ring.tail + length got)) 0 ≡ x
next_byte s m q got x rest v e =
    sym (get_or-read s.ring.capacity s.ring.buf s.ring.tail n (length got) inside)
    ∙ ap (λ t. get_or t (length got) 0) (v.bytes ∙ stands)
    ∙ get_or-append_at got x (rest ++ frames q ++ w)
  where
    w : Bytes
    w = written_of s.producer

    n : ℕ
    n = occupied (m ∷ q) + length w

    stands : frames (m ∷ q) ++ w ≡ got ++ x ∷ (rest ++ frames q ++ w)
    stands =
        ap (λ t. t ++ frames q ++ w) (sym e)
        ∙ append_assoc (got ++ x ∷ rest) (frames q) w
        ∙ append_assoc got (x ∷ rest) (frames q ++ w)
        ∙ ap (λ t. got ++ x ∷ t) (sym (append_assoc rest (frames q) w))

    inside : length got < n
    inside = omega (
      arith,
      ap length e,
      length-append got (x ∷ rest),
      length-append (frame m) (frames q),
      length-frame m,
    )

-- The first message of a ring is small.
small_first : (s : System) (m : Bytes) (q : Queue) → Shared s (m ∷ q) → length m < u32_mod
small_first s m q v = omega (arith, length-append (frame m) (frames q), length-frame m)

pub read_byte-Shared :
    (s : System) (q : Queue) (got : Bytes)
    → Shared s q
    → s.consumer ≡ reading got
    → length got < wanted got
    → Shared
        (record s {
          consumer =
              reading (
                got ++ get_or s.ring.buf (index s.ring.capacity (s.ring.tail + length got)) 0 ∷ []);
        })
        q
read_byte-Shared s q got v e more = record {
  positive = v.positive;
  bounded = v.bounded;
  divides = v.divides;
  room = v.room;
  tail_u32 = v.tail_u32;
  head_at = v.head_at;
  fits = v.fits;
  bytes = v.bytes;
  producing = v.producing;
  consuming = grown q v (consumer_facts s q (reading got) v e);
  history = v.history;
}
  where
    b : ℕ
    b = get_or s.ring.buf (index s.ring.capacity (s.ring.tail + length got)) 0

    longer :
        (m : Bytes) (p : Queue) (rest : Bytes)
        → Shared s (m ∷ p)
        → got ++ rest ≡ frame m
        → (rest' : Bytes) × (got ++ b ∷ [] ++ rest' ≡ frame m)
    longer m p [] u h = absurd (whole (wanted_lem got [] m h (small_first s m p u)) (ap length h))
      where
        whole :
            (length got < 4) × (wanted got ≡ 4) ⊎ (4 ≤ length got) × (wanted got ≡ 4 + length m)
            → length (got ++ []) ≡ length (frame m)
            → ⊥
        whole (inl (lo, w)) size = omega (arith, length-append got [], length-frame m)
        whole (inr (hi, w)) size = omega (arith, length-append got [], length-frame m)
    longer m p (x ∷ rest) u h = (
      rest,
      append_assoc got (b ∷ []) rest
          ∙ ap (λ y. got ++ y ∷ rest) (next_byte s m p got x rest u h)
          ∙ h,
    )

    grown :
        (p : Queue)
        → Shared s p
        → IsConsuming (reading got) p
        → IsConsuming (reading (got ++ b ∷ [])) p
    grown [] u h = elim h [ ]
    grown (m ∷ p) u (rest, h) = longer m p rest u h

-- A consumer that has read as much as it wants has read the oldest frame.
read_frame :
    (s : System) (m : Bytes) (q : Queue) (got rest : Bytes)
    → Shared s (m ∷ q)
    → got ++ rest ≡ frame m
    → length got ≡ wanted got
    → (got ≡ frame m) × (wanted got ≡ 4 + length m)
read_frame s m q got rest v e done =
    go (wanted_lem got rest m e (small_first s m q v)) (ap length e)
  where
    none_left : (t : Bytes) → length t ≡ 0 → t ≡ []
    none_left [] h = refl
    none_left (x ∷ t) h = absurd (omega arith)

    go :
        (length got < 4) × (wanted got ≡ 4) ⊎ (4 ≤ length got) × (wanted got ≡ 4 + length m)
        → length (got ++ rest) ≡ length (frame m)
        → (got ≡ frame m) × (wanted got ≡ 4 + length m)
    go (inl (lo, w)) size = absurd (omega arith)
    go (inr (hi, w)) size =
        let empty = none_left rest (omega (arith, length-append got rest, length-frame m)) in
        (sym (append-nil got) ∙ ap (λ t. got ++ t) (sym empty) ∙ e, w)

pub take_out-Shared :
    (s : System) (m : Bytes) (q : Queue) (got rest : Bytes)
    → Shared s (m ∷ q)
    → got ++ rest ≡ frame m
    → length got ≡ wanted got
    → Shared
        (record s {
          ring = record (s.ring) { tail = (s.ring.tail + wanted got) % u32_mod };
          consumer = Consumer.out;
          received = s.received ++ drop 4 got ∷ [];
        })
        q
take_out-Shared s m q got rest v e done =
    let (whole, size) = read_frame s m q got rest v e done in
    let total : occupied (m ∷ q) ≡ 4 + length m + occupied q =
      length-append (frame m) (frames q) ∙ ap (λ k. k + occupied q) (length-frame m) in
    record {
      positive = v.positive;
      bounded = v.bounded;
      divides = v.divides;
      room = v.room;
      tail_u32 = omega arith;
      head_at = omega arith;
      fits = omega arith;
      bytes = rw size (rest_bytes total);
      producing = v.producing;
      consuming = tt;
      history =
          v.history
          ∙ sym (append_assoc s.received (m ∷ []) q)
          ∙ ap (λ t. s.received ++ t ∷ [] ++ q) (ap (drop 4) (sym whole));
    }
  where
    c : ℕ
    c = s.ring.capacity

    w : Bytes
    w = written_of s.producer

    rest_bytes :
        occupied (m ∷ q) ≡ 4 + length m + occupied q
        → read c s.ring.buf ((s.ring.tail + (4 + length m)) % u32_mod) (occupied q + length w)
          ≡ frames q ++ w
    rest_bytes total =
        read_mod c s.ring.buf _ (s.ring.tail + (4 + length m)) (occupied q + length w) (omega arith)
        ∙ (append-injective (read c s.ring.buf s.ring.tail (4 + length m)) (frame m)
            (length-read c s.ring.buf s.ring.tail (4 + length m) ∙ sym (length-frame m))
            (sym (read-add c s.ring.buf s.ring.tail (4 + length m) (occupied q + length w))
              ∙ ap (read c s.ring.buf s.ring.tail) (omega arith)
              ∙ v.bytes
              ∙ append_assoc (frame m) (frames q) w)).1
