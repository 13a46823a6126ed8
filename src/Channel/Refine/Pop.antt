-- ===== src/Channel/Refine/Pop.antt =====
-- `RingBuffer::pop` of src/channel.rs on a ring that holds a queue.
use antenna.Base.{
  ◌+◌, ◌%◌, ◌≡◌, refl, sym, ap, ◌∙◌, List, [], ◌∷◌, ◌++◌, none, some, arith, length, length-append,
  drop, take, drop-append, take-append, append_assoc,
}
use antenna.Channel.{Bytes, u32_mod, to_le_bytes, from_le_bytes, RingBuffer, read, pop}
use antenna.Channel.Memory.{length-read, read-add, read_mod, from_le_bytes-to_le_bytes}
use antenna.Channel.Queue.{Queue, frame, frames, occupied, dequeue}
use antenna.Channel.Refine.Push.{Holds}

-- The first message of a ring that is not empty.
head_bytes :
    (r : RingBuffer) (m : Bytes) (q : Queue)
    → Holds r (m ∷ q)
    → read r.capacity r.buf r.tail 4 ++ read r.capacity r.buf (r.tail + 4) (length m + occupied q)
      ≡ to_le_bytes (length m) ++ (m ++ frames q)
head_bytes r m q v =
    sym (read-add r.capacity r.buf r.tail 4 (length m + occupied q))
    ∙ ap (read r.capacity r.buf r.tail) size
    ∙ v.bytes
    ∙ append_assoc (to_le_bytes (length m)) m (frames q)
  where
    size : 4 + (length m + occupied q) ≡ occupied (m ∷ q)
    size = omega (arith, length-append (frame m) (frames q))

pub append-injective :
    {A : Type 0} (xs ys : List A) {us vs : List A}
    → length xs ≡ length ys
    → xs ++ us ≡ ys ++ vs
    → (xs ≡ ys) × (us ≡ vs)
append-injective xs ys {us} {vs} n e = (
  sym (take-append xs us)
      ∙ ap (take (length xs)) e
      ∙ ap (λ k. take k (ys ++ vs)) n
      ∙ take-append ys vs,
  sym (drop-append xs us)
      ∙ ap (drop (length xs)) e
      ∙ ap (λ k. drop k (ys ++ vs)) n
      ∙ drop-append ys vs,
)

length_bytes :
    (r : RingBuffer) (m : Bytes) (q : Queue)
    → Holds r (m ∷ q)
    → (read r.capacity r.buf r.tail 4 ≡ to_le_bytes (length m))
      × (read r.capacity r.buf (r.tail + 4) (length m + occupied q) ≡ m ++ frames q)
length_bytes r m q v =
    append-injective (read r.capacity r.buf r.tail 4) (to_le_bytes (length m))
      (length-read r.capacity r.buf r.tail 4) (head_bytes r m q v)

data_bytes :
    (r : RingBuffer) (m : Bytes) (q : Queue)
    → Holds r (m ∷ q)
    → (read r.capacity r.buf (r.tail + 4) (length m) ≡ m)
      × (read r.capacity r.buf (r.tail + 4 + length m) (occupied q) ≡ frames q)
data_bytes r m q v =
    append-injective (read r.capacity r.buf (r.tail + 4) (length m)) m
      (length-read r.capacity r.buf (r.tail + 4) (length m))
      (sym (read-add r.capacity r.buf (r.tail + 4) (length m) (occupied q))
        ∙ (length_bytes r m q v).1)

pub occupied-cons : (m : Bytes) (q : Queue) → occupied (m ∷ q) ≡ 4 + length m + occupied q
occupied-cons m q = omega (arith, length-append (frame m) (frames q))

pop_cons :
    (r : RingBuffer) (m : Bytes) (q : Queue)
    → Holds r (m ∷ q)
    → pop r ≡ (some m, record r { tail = (r.tail + (4 + length m)) % u32_mod })
unfolding pop
pop_cons r m q v =
    rw ((length_bytes r m q v).0, len, (data_bytes r m q v).0) (ground (arith, occupied-cons m q))
  where
    len : from_le_bytes (to_le_bytes (length m)) ≡ length m
    len = from_le_bytes-to_le_bytes (length m) (omega (arith, occupied-cons m q))

popped-Holds :
    (r : RingBuffer) (m : Bytes) (q : Queue)
    → Holds r (m ∷ q)
    → Holds (record r { tail = (r.tail + (4 + length m)) % u32_mod }) q
popped-Holds r m q v = record {
  positive = v.positive;
  bounded = v.bounded;
  divides = v.divides;
  room = v.room;
  tail_u32 = omega arith;
  head_at = omega (arith, occupied-cons m q);
  fits = omega (arith, occupied-cons m q);
  bytes =
      read_mod r.capacity r.buf _ (r.tail + 4 + length m) (occupied q) (omega arith)
      ∙ (data_bytes r m q v).1;
}

pub pop_nil : (r : RingBuffer) → Holds r [] → pop r ≡ (none, r)
unfolding pop
pop_nil r v = ground arith

-- `pop` on a ring that holds `q` returns what `dequeue` returns: nothing when `q` is empty, else its
-- oldest message, byte for byte. The ring then holds the queue that `dequeue` leaves.
pub pop_refines :
    (r : RingBuffer) (q : Queue)
    → Holds r q
    → ((pop r).0 ≡ (dequeue q).0) × Holds (pop r).1 (dequeue q).1
unfolding dequeue
pop_refines r [] v = rw (pop_nil r v) (refl, v)
pop_refines r (m ∷ q) v = rw (pop_cons r m q v) (refl, popped-Holds r m q v)
