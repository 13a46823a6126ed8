-- ===== src/Channel/Interleave/Invariant.antt =====
-- What holds between any two steps of the two threads on a ring of src/channel.rs.
use antenna.Base.{ℕ, ◌+◌, ◌%◌, ◌≤◌, ◌<◌, ◌≡◌, [], ◌∷◌, ◌++◌, length}
use antenna.Channel.{Bytes, u32_mod, read}
use antenna.Channel.Queue.{Queue, frame, frames, occupied}
use antenna.Channel.Interleave.{Producer, writing, Consumer, reading, System}

-- The bytes of the frame that the producer is writing: those that stand in the buffer.
abbrev pub written_of : Producer → Bytes
written_of Producer.out = []
written_of (writing m written todo) = written

-- The room that the producer has found.
abbrev pub reserved : Producer → ℕ
reserved Producer.out = 0
reserved (writing m written todo) = 4 + length m

-- The producer writes a frame, from its front.
abbrev pub IsProducing : Producer → Type 0
IsProducing Producer.out = Unit
IsProducing (writing m written todo) = (4 + length m < u32_mod) × (written ++ todo ≡ frame m)

-- The consumer reads the oldest frame, from its front.
abbrev pub IsConsuming : Consumer → Queue → Type 0
IsConsuming Consumer.out q = Unit
IsConsuming (reading got) [] = ⊥
IsConsuming (reading got) (m ∷ q) = (rest : Bytes) × (got ++ rest ≡ frame m)

-- The queue of the messages that are pushed and not popped yet stands in the ring, with what is
-- written of the next frame behind it.
pub record Shared (s : System) (q : Queue) : Type 0 where
  pub positive : 0 < s.ring.capacity
  pub bounded : s.ring.capacity < u32_mod
  pub divides : u32_mod % s.ring.capacity ≡ 0
  pub room : s.ring.capacity ≤ length s.ring.buf
  pub tail_u32 : s.ring.tail < u32_mod
  pub head_at : s.ring.head ≡ (s.ring.tail + occupied q) % u32_mod
  pub fits : occupied q + reserved s.producer ≤ s.ring.capacity
  pub bytes :
      read s.ring.capacity s.ring.buf s.ring.tail (occupied q + length (written_of s.producer))
      ≡ frames q ++ written_of s.producer
  pub producing : IsProducing s.producer
  pub consuming : IsConsuming s.consumer q
  pub history : s.sent ≡ s.received ++ q
