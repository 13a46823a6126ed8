-- ===== src/Channel/Interleave.antt =====
-- `push` and `pop` of src/channel.rs, run by two threads at once: each access of a byte of the buffer
-- is a step of its own, and so is each store to `head` or `tail`. A load with `Acquire` sees the last
-- store with `Release`, and all that was written before it.
use antenna.Base.{
  ℕ, ◌+◌, ◌-◌, ◌%◌, ◌<◌, ◌≤◌, ◌≡◌, ◌≢◌, List, [], ◌∷◌, ◌++◌, ltb, if◌then◌else◌, length, get_or,
  set, drop,
}
use antenna.Channel.{Bytes, u32_mod, RingBuffer, index, to_le_bytes, from_le_bytes}
pub mod Invariant
pub mod Moves
pub mod Reads
pub mod Delivery

-- Where the one producer is in `push`: the bytes of the frame that are written, and those that are not.
pub data Producer : Type 0 where
  out : Producer
  writing : Bytes → Bytes → Bytes → Producer

-- Where the one consumer is in `pop`: the bytes that are read.
pub data Consumer : Type 0 where
  out : Consumer
  reading : Bytes → Consumer

-- The ring, the two threads, and the messages that were pushed and popped so far.
pub record System : Type 0 where
  pub ring : RingBuffer
  pub producer : Producer
  pub consumer : Consumer
  pub sent : List Bytes
  pub received : List Bytes

-- `capacity - used`, as `push` computes it
abbrev pub free : RingBuffer → ℕ
free r = (r.capacity + u32_mod - (r.head + u32_mod - r.tail) % u32_mod) % u32_mod

-- How many bytes `pop` reads, as far as the bytes read tell.
abbrev pub wanted : Bytes → ℕ
wanted got = if ltb (length got) 4 then 4 else 4 + from_le_bytes got

-- One step of one thread. The messages are shorter than 2 ^ 32 - 4 bytes.
pub data Step (s : System) : System → Type 0 where
  refuse :
      (m : Bytes)
      → s.producer ≡ Producer.out
      → 4 + length m < u32_mod
      → free s.ring < 4 + length m
      → Step s s
  begin :
      (m : Bytes)
      → s.producer ≡ Producer.out
      → 4 + length m < u32_mod
      → 4 + length m ≤ free s.ring
      → Step s (record s { producer = writing m [] (to_le_bytes (length m) ++ m) })
  write_byte :
      (m written : Bytes) (b : ℕ) (todo : Bytes)
      → s.producer ≡ writing m written (b ∷ todo)
      → Step s (record s {
        ring = record (s.ring) {
          buf = set s.ring.buf (index s.ring.capacity (s.ring.head + length written)) b;
        };
        producer = writing m (written ++ b ∷ []) todo;
      })
  publish :
      (m written : Bytes)
      → s.producer ≡ writing m written []
      → Step s (record s {
        ring = record (s.ring) { head = (s.ring.head + (4 + length m)) % u32_mod };
        producer = Producer.out;
        sent = s.sent ++ m ∷ [];
      })
  look :
      s.consumer ≡ Consumer.out
      → s.ring.tail ≢ s.ring.head
      → Step s (record s { consumer = reading [] })
  miss : s.consumer ≡ Consumer.out → s.ring.tail ≡ s.ring.head → Step s s
  read_byte :
      (got : Bytes)
      → s.consumer ≡ reading got
      → length got < wanted got
      → Step s (record s {
        consumer =
            reading
              (got ++ get_or s.ring.buf (index s.ring.capacity (s.ring.tail + length got)) 0 ∷ []);
      })
  take_out :
      (got : Bytes)
      → s.consumer ≡ reading got
      → length got ≡ wanted got
      → Step s (record s {
        ring = record (s.ring) { tail = (s.ring.tail + wanted got) % u32_mod };
        consumer = Consumer.out;
        received = s.received ++ drop 4 got ∷ [];
      })

-- Two threads on a new ring
abbrev pub start : RingBuffer → System
start ring = record {
  ring = ring;
  producer = Producer.out;
  consumer = Consumer.out;
  sent = [];
  received = [];
}

pub data Reach (ring : RingBuffer) : System → Type 0 where
  here : Reach ring (start ring)
  next : {s t : System} → Reach ring s → Step s t → Reach ring t
