-- ===== src/Channel/Interleave/Moves.antt =====
-- Each step of the producer on a ring of src/channel.rs keeps the invariant.
use antenna.Base.{
  ℕ, suc, ◌+◌, ◌%◌, ◌≤◌, ◌<◌, ◌≡◌, refl, sym, ap, ap₂, subst, ◌∙◌, [], ◌∷◌, ◌++◌, length,
  length-append, append_assoc, append-nil, arith, set,
}
use antenna.Channel.{Bytes, u32_mod, read, write, index}
use antenna.Channel.Memory.{read-write_ne, read-write_self, length-write, read-add, write_mod}
use antenna.Channel.Queue.{Queue, frame, frames, occupied, frames-snoc, length-frame}
use antenna.Channel.Interleave.{Producer, writing, Consumer, reading, System, free}
use antenna.Channel.Interleave.Invariant.{Shared, IsProducing, IsConsuming, written_of, reserved}

-- What the invariant says of a producer at `p`.
ProducerFacts : System → Queue → Producer → Type 0
ProducerFacts s q p =
    (occupied q + reserved p ≤ s.ring.capacity)
    × (read s.ring.capacity s.ring.buf s.ring.tail (occupied q + length (written_of p))
        ≡ frames q ++ written_of p)
    × IsProducing p

producer_facts :
    (s : System) (q : Queue) (p : Producer) → Shared s q → s.producer ≡ p → ProducerFacts s q p
unfolding ProducerFacts
producer_facts s q p v e = subst (ProducerFacts s q) e (v.fits, v.bytes, v.producing)

pub begin-Shared :
    (s : System) (q : Queue) (m : Bytes)
    → Shared s q
    → s.producer ≡ Producer.out
    → 4 + length m < u32_mod
    → 4 + length m ≤ free s.ring
    → Shared (record s { producer = writing m [] (frame m) }) q
unfolding ProducerFacts
begin-Shared s q m v e small fit =
    let (room_left, stands, _) = producer_facts s q Producer.out v e in
    record {
      positive = v.positive;
      bounded = v.bounded;
      divides = v.divides;
      room = v.room;
      tail_u32 = v.tail_u32;
      head_at = v.head_at;
      fits = omega arith;
      bytes = stands;
      producing = (small, refl);
      consuming = v.consuming;
      history = v.history;
    }

pub write_byte-Shared :
    (s : System) (q : Queue) (m written : Bytes) (b : ℕ) (todo : Bytes)
    → Shared s q
    → s.producer ≡ writing m written (b ∷ todo)
    → Shared
        (record s {
          ring = record (s.ring) {
            buf = set s.ring.buf (index s.ring.capacity (s.ring.head + length written)) b;
          };
          producer = writing m (written ++ b ∷ []) todo;
        })
        q
unfolding ProducerFacts write
write_byte-Shared s q m written b todo v e =
    let (room_left, stands, (small, parts)) =
      producer_facts s q (writing m written (b ∷ todo)) v e in
    let size : length written + suc (length todo) ≡ 4 + length m =
      sym (length-append written (b ∷ todo)) ∙ ap length parts ∙ length-frame m in
    record {
      positive = v.positive;
      bounded = v.bounded;
      divides = v.divides;
      room =
          omega
            (arith, length-write c v.divides s.ring.buf (s.ring.head + length written) (b ∷ []));
      tail_u32 = v.tail_u32;
      head_at = v.head_at;
      fits = room_left;
      bytes = appended stands (omega arith);
      producing = (small, append_assoc written (b ∷ []) todo ∙ parts);
      consuming = v.consuming;
      history = v.history;
    }
  where
    c : ℕ
    c = s.ring.capacity

    n : ℕ
    n = occupied q + length written

    at : ℕ
    at = s.ring.tail + n

    appended :
        read c s.ring.buf s.ring.tail n ≡ frames q ++ written
        → n + 1 ≤ c
        → read c
            (write c s.ring.buf (s.ring.head + length written) (b ∷ []))
            s.ring.tail
            (occupied q + length (written ++ b ∷ []))
          ≡ frames q ++ (written ++ b ∷ [])
    appended stands fit =
        ap₂ (λ x k. read c x s.ring.tail k)
          (write_mod c s.ring.buf (s.ring.head + length written) at (b ∷ []) (omega arith))
          (ap (λ k. occupied q + k) (length-append written (b ∷ [])) ∙ omega arith)
        ∙ read-add c (write c s.ring.buf at (b ∷ [])) s.ring.tail n 1
        ∙ ap₂ ◌++◌
            (read-write_ne c v.divides s.ring.buf at s.ring.tail n (b ∷ []) (omega arith)
                (omega arith)
              ∙ stands)
            (read-write_self c v.divides s.ring.buf at (b ∷ []) v.positive v.room (omega arith))
        ∙ append_assoc (frames q) written (b ∷ [])

-- A frame behind the others does not matter to the consumer.
IsConsuming-snoc :
    (c : Consumer) (q : Queue) (m : Bytes) → IsConsuming c q → IsConsuming c (q ++ m ∷ [])
IsConsuming-snoc Consumer.out q m h = tt
IsConsuming-snoc (reading got) [] m h = elim h [ ]
IsConsuming-snoc (reading got) (x ∷ q) m h = h

pub publish-Shared :
    (s : System) (q : Queue) (m written : Bytes)
    → Shared s q
    → s.producer ≡ writing m written []
    → Shared
        (record s {
          ring = record (s.ring) { head = (s.ring.head + (4 + length m)) % u32_mod };
          producer = Producer.out;
          sent = s.sent ++ m ∷ [];
        })
        (q ++ m ∷ [])
unfolding ProducerFacts
publish-Shared s q m written v e =
    let (room_left, stands, (small, parts)) = producer_facts s q (writing m written []) v e in
    let whole : written ≡ frame m = sym (append-nil written) ∙ parts in
    let size : occupied (q ++ m ∷ []) ≡ occupied q + (4 + length m) =
      ap length (frames-snoc q m)
      ∙ length-append (frames q) (frame m)
      ∙ ap (λ k. occupied q + k) (length-frame m) in
    record {
      positive = v.positive;
      bounded = v.bounded;
      divides = v.divides;
      room = v.room;
      tail_u32 = v.tail_u32;
      head_at = rw size (omega arith);
      fits = omega arith;
      bytes =
          ap (read s.ring.capacity s.ring.buf s.ring.tail)
            (omega (arith, ap length whole, length-frame m))
          ∙ stands
          ∙ ap (λ t. frames q ++ t) whole
          ∙ sym (frames-snoc q m)
          ∙ sym (append-nil (frames (q ++ m ∷ [])));
      producing = tt;
      consuming = IsConsuming-snoc s.consumer q m v.consuming;
      history = ap (λ t. t ++ m ∷ []) v.history ∙ append_assoc s.received q (m ∷ []);
    }
