-- ===== src/Channel/Interleave/Delivery.antt =====
-- Two threads on a ring of src/channel.rs: every message arrives whole, once and in order, however
-- their accesses are interleaved.
use antenna.Base.{
  ℕ, ◌+◌, ◌%◌, ◌<◌, ◌≤◌, ◌≡◌, refl, sym, ap, ap₂, subst, ◌∙◌, [], ◌∷◌, ◌++◌, true, length,
  length-append, set, drop, arith, leb, le→leb, append_assoc, append-nil,
}
use antenna.Channel.{Bytes, u32_mod, RingBuffer, new, push, write, index, to_le_bytes}
use antenna.Channel.Memory.{write-append}
use antenna.Channel.Queue.{Queue, frame, occupied}
use antenna.Channel.Refine.{Holds, new-Holds, push_lem, pushed}
use antenna.Channel.Interleave.{
  Producer, writing, Consumer, reading, System, Step, refuse, begin, write_byte, publish, look,
  miss, read_byte, take_out, start, Reach, here, next, free, wanted,
}
use antenna.Channel.Interleave.Invariant.{Shared, IsConsuming}
use antenna.Channel.Interleave.Moves.{begin-Shared, write_byte-Shared, publish-Shared}
use antenna.Channel.Interleave.Reads.{
  consumer_facts, look-Shared, read_byte-Shared, take_out-Shared,
}

start-Shared : (r : RingBuffer) → Holds r [] → Shared (start r) []
start-Shared r v = record {
  positive = v.positive;
  bounded = v.bounded;
  divides = v.divides;
  room = v.room;
  tail_u32 = v.tail_u32;
  head_at = v.head_at;
  fits = v.fits;
  bytes = v.bytes;
  producing = tt;
  consuming = tt;
  history = refl;
}

step-Shared : (s t : System) (q : Queue) → Step s t → Shared s q → (p : Queue) × Shared t p
step-Shared s t q (refuse m e small full) v = (q, v)
step-Shared s t q (begin m e small fit) v = (q, begin-Shared s q m v e small fit)
step-Shared s t q (write_byte m written b todo e) v =
    (q, write_byte-Shared s q m written b todo v e)
step-Shared s t q (publish m written e) v = (q ++ m ∷ [], publish-Shared s q m written v e)
step-Shared s t q (look e ne) v = (q, look-Shared s q v ne)
step-Shared s t q (miss e same) v = (q, v)
step-Shared s t q (read_byte got e more) v = (q, read_byte-Shared s q got v e more)
step-Shared s t q (take_out got e done) v = taken q v (consumer_facts s q (reading got) v e)
  where
    taken :
        (p : Queue)
        → Shared s p
        → IsConsuming (reading got) p
        → (p' : Queue) × Shared
            (record s {
              ring = record (s.ring) { tail = (s.ring.tail + wanted got) % u32_mod };
              consumer = Consumer.out;
              received = s.received ++ drop 4 got ∷ [];
            })
            p'
    taken [] u h = elim h [ ]
    taken (m ∷ p) u (rest, h) = (p, take_out-Shared s m p got rest u h done)

Reach-Shared : (r : RingBuffer) (s : System) → Holds r [] → Reach r s → (q : Queue) × Shared s q
Reach-Shared r s v here = ([], start-Shared r v)
Reach-Shared r s v (next {s = t} before step) =
    let (q, u) = Reach-Shared r t v before in step-Shared t s q step u

-- However the accesses of the two threads to a new ring are interleaved, what is popped is, message by
-- message, the front of what is pushed, and what is not popped yet fits the capacity. The capacity
-- divides 2 ^ 32, and messages are shorter than 2 ^ 32 - 4 bytes.
pub Reach-delivers :
    (capacity : ℕ) (s : System)
    → 0 < capacity
    → capacity < u32_mod
    → u32_mod % capacity ≡ 0
    → Reach (new capacity) s
    → (q : Queue) × (s.sent ≡ s.received ++ q) × (occupied q ≤ s.ring.capacity)
Reach-delivers capacity s pos small divides reach =
    let (q, v) = Reach-Shared (new capacity) s (new-Holds capacity pos small divides) reach in
    (q, v.history, omega arith)

-- Several steps
pub data Steps (s : System) : System → Type 0 where
  none : Steps s s
  more : {t u : System} → Steps s t → Step t u → Steps s u

Steps-trans : {s t u : System} → Steps s t → Steps t u → Steps s u
Steps-trans a none = a
Steps-trans a (more b step) = more (Steps-trans a b) step

-- The loop of the producer, uninterrupted
abbrev loop_end : System → Bytes → Bytes → Bytes → System
loop_end s m written todo = record s {
  ring = record (s.ring) {
    buf = write s.ring.capacity s.ring.buf (s.ring.head + length written) todo;
  };
  producer = writing m (written ++ todo) [];
}

write_loop :
    (s : System) (m written todo : Bytes)
    → s.producer ≡ writing m written todo
    → Steps s (loop_end s m written todo)
unfolding write
write_loop s m written [] e =
    subst (Steps s)
      (ap (λ p. record s { producer = p })
        (e ∙ ap (λ t. writing m t []) (sym (append-nil written))))
      none
write_loop s m written (b ∷ todo) e =
    subst (Steps s)
      (ap₂
        (λ k t. record s {
          ring = record (s.ring) { buf = write s.ring.capacity set_buf k todo };
          producer = writing m t [];
        })
        position (append_assoc written (b ∷ []) todo))
      (Steps-trans (more none (write_byte m written b todo e)) (
        write_loop
          (record s {
            ring = record (s.ring) { buf = set_buf };
            producer = writing m (written ++ b ∷ []) todo;
          })
          m (written ++ b ∷ []) todo refl))
  where
    set_buf : Bytes
    set_buf = set s.ring.buf (index s.ring.capacity (s.ring.head + length written)) b

    position : s.ring.head + length (written ++ b ∷ []) ≡ s.ring.head + length written + 1
    position = omega (arith, length-append written (b ∷ []))

-- What one thread does without the other is the whole `push`: with room for the frame, its steps lead
-- to the ring that `push` leaves, and the message counts as sent.
pub push-Steps :
    (s : System) (q : Queue) (m : Bytes)
    → Holds s.ring q
    → s.producer ≡ Producer.out
    → 4 + length m < u32_mod
    → 4 + length m ≤ free s.ring
    → Steps s (record s { ring = (push s.ring m).1; sent = s.sent ++ m ∷ [] })
push-Steps s q m v e small fit =
    subst (Steps s)
      (ap₂ (λ r p. record s { ring = r; producer = p; sent = s.sent ++ m ∷ [] }) whole (sym e))
      (more
        (Steps-trans (more none (begin m e small fit))
          (write_loop (record s { producer = writing m [] (frame m) }) m [] (frame m) refl))
        (publish m (frame m) refl))
  where
    written : write s.ring.capacity s.ring.buf (s.ring.head + 0) (frame m) ≡ pushed s.ring m
    written =
        ap (λ k. write s.ring.capacity s.ring.buf k (frame m)) (omega arith)
        ∙ write-append s.ring.capacity s.ring.buf s.ring.head (to_le_bytes (length m)) m

    enough : leb (occupied q + (4 + length m)) s.ring.capacity ≡ true
    enough = le→leb _ _ (omega arith)

    after : Bytes → RingBuffer
    after b = record (s.ring) { head = (s.ring.head + (4 + length m)) % u32_mod; buf = b }

    whole : after (write s.ring.capacity s.ring.buf (s.ring.head + 0) (frame m)) ≡ (push s.ring m).1
    whole = ap after written ∙ rw (push_lem s.ring q m v small, enough) refl
