-- ===== src/Channel/Tests.antt =====
-- The channel of src/channel.rs on concrete inputs.
use antenna.Base.{
  ℕ, ◌+◌, ◌≤◌, ◌≡◌, ◌++◌, refl, inl, true, false, List, [], ◌∷◌, some, none, arith, ltb,
  if◌then◌else◌,
}
use antenna.Base.Text.{codes}
use antenna.Base.Utf8.{as_bytes, from_utf8_lossy, from_utf8_lossy-as_bytes, AllScalar, encode_char}
use antenna.Channel.{new, push, pop, write, read}
use antenna.Channel.Endpoint.{Descriptor, InternalChannel, send, recv}
use antenna.Channel.Queue as Spec
use antenna.Channel.Queue.{Queue, occupied, Op, put, get, Reply, sent, received, enqueue, dequeue}
use antenna.Channel.Refine.{Holds, new-Holds, run, run_refines, push_refines}
use antenna.Channel.Interleave.{System, writing, start, free, begin, Reach, here, next}
use antenna.Channel.Interleave.Delivery.{Reach-delivers}
use antenna.Channel.Sending.{Outcome, send_lem, send_delivers, recv_lem, send_silent}

-- The buffer of 16 bytes takes two messages, refuses a third, and wraps behind the first.
abbrev ops : List Op
ops =
    put (1 ∷ 2 ∷ 3 ∷ [])
    ∷ put (4 ∷ 5 ∷ [])
    ∷ put (6 ∷ [])
    ∷ get
    ∷ put (7 ∷ 8 ∷ 9 ∷ [])
    ∷ get
    ∷ get
    ∷ get
    ∷ []

run-ops :
    run (new 16) ops
    ≡ sent true
      ∷ sent true
      ∷ sent false
      ∷ received (some (1 ∷ 2 ∷ 3 ∷ []))
      ∷ sent true
      ∷ received (some (4 ∷ 5 ∷ []))
      ∷ received (some (7 ∷ 8 ∷ 9 ∷ []))
      ∷ received none
      ∷ []
unfolding run new push pop write read
run-ops = refl

run_refines_example : run (new 16) ops ≡ Spec.run 16 [] ops
run_refines_example =
    run_refines 16 ops (omega arith) (omega arith) refl
      (omega arith, (omega arith, (omega arith, (omega arith, tt))))

empty-Holds : Holds (new 16) []
empty-Holds = new-Holds 16 (omega arith) (omega arith) refl

one-Holds : Holds (push (new 16) (0x68 ∷ 0x69 ∷ [])).1 ((0x68 ∷ 0x69 ∷ []) ∷ [])
unfolding enqueue new
one-Holds = (push_refines (new 16) [] (0x68 ∷ 0x69 ∷ []) empty-Holds (omega arith)).1

-- An `eventfd`: a counter, which a write of fewer than eight bytes does not reach.
abbrev eventfd : Descriptor ℕ
eventfd = record {
  fresh = 0;
  write = λ n c. if ltb n 8 then c else c + 1;
  read = λ n c. if ltb n 8 then c else 0;
  readable = λ c. ltb 0 c;
}

abbrev channel : InternalChannel ℕ
channel = record { ring = new 16; clock = 0 }

abbrev one_each : ℕ → ℕ
one_each i = 1

send_lem_example :
    Outcome eventfd one_each channel.ring.capacity 20 0
      (as_bytes (codes "hi"))
      []
      0
      (send eventfd one_each (codes "hi") channel)
send_lem_example =
    send_lem eventfd one_each (codes "hi") channel [] empty-Holds
      (unfold as_bytes encode_char in omega arith)

send_delivers_example : (send eventfd one_each (codes "hi") channel).0 ≡ true
send_delivers_example =
    send_delivers eventfd one_each (codes "hi") channel [] empty-Holds
      (unfold as_bytes encode_char in omega arith) (unfold as_bytes encode_char new in omega arith)
      (omega arith) (λ j. omega arith)

send_silent_example : (send eventfd one_each (codes "hi") channel).1.clock ≡ 0
send_silent_example =
    send_silent eventfd one_each (codes "hi") channel [] empty-Holds
      (unfold as_bytes encode_char in omega arith) (λ n f h. ground (arith, h))

abbrev waiting : InternalChannel ℕ
waiting = record { ring = (push (new 16) (0x68 ∷ 0x69 ∷ [])).1; clock = 0 }

hi-Holds : Holds (push (new 16) (0x68 ∷ 0x69 ∷ [])).1 (as_bytes (codes "hi") ∷ [])
unfolding as_bytes encode_char
hi-Holds = one-Holds

hi-AllScalar : AllScalar (codes "hi")
hi-AllScalar = (inl (omega arith), (inl (omega arith), tt))

recv_lem_example : ((recv waiting).0 ≡ some (codes "hi")) × Holds (recv waiting).1.ring []
recv_lem_example = recv_lem waiting (codes "hi") [] hi-Holds hi-AllScalar

from_utf8_lossy-as_bytes_example : from_utf8_lossy (as_bytes (codes "hi")) ≡ codes "hi"
from_utf8_lossy-as_bytes_example = from_utf8_lossy-as_bytes (codes "hi") hi-AllScalar

ring_free : free (new 16) ≡ 16
unfolding new
ring_free = refl

-- The producer has written one byte of a frame when the consumer finds the ring empty.
abbrev first_move : System
first_move = record (start (new 16)) {
  producer = writing (7 ∷ 8 ∷ []) [] (2 ∷ 0 ∷ 0 ∷ 0 ∷ 7 ∷ 8 ∷ []);
}

reached : Reach (new 16) first_move
reached = next here (begin (7 ∷ 8 ∷ []) refl (omega arith) (omega (arith, ring_free)))

Reach-delivers_example :
    (q : Queue) × (first_move.sent ≡ first_move.received ++ q)
    × (occupied q ≤ first_move.ring.capacity)
Reach-delivers_example = Reach-delivers 16 first_move (omega arith) (omega arith) refl reached
