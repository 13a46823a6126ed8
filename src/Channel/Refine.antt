-- ===== src/Channel/Refine.antt =====
-- `RingBuffer::push` and `RingBuffer::pop` implement the bounded queue of Channel/Queue, across the
-- wrap of the positions at 2 ^ 32 and of the buffer at its capacity.
pub mod Push
pub mod Pop
pub use Push.*
pub use Pop.*
use antenna.Base.{
  ℕ, zero, ◌+◌, ◌-◌, ◌%◌, ◌≤◌, ◌<◌, ◌≡◌, refl, sym, ap, ap₂, ◌∙◌, true, false, List, [], ◌∷◌, ◌++◌,
  none, some, arith, leb, if◌then◌else◌, inl, inr, Bool-cases, length, length-append, drop, take,
  drop-append, take-append, append_assoc, leb→le, length-replicate,
}
use antenna.Channel.{
  Bytes, u32_mod, to_le_bytes, from_le_bytes, RingBuffer, read, write, new, push, pop,
}
use antenna.Channel.Memory.{
  length-write, read-write_ne, read-write_self, length-read, read-add, read_mod, write_mod,
  write-append, from_le_bytes-to_le_bytes,
}
use antenna.Channel.Queue
use antenna.Channel.Queue.{
  Queue, frame, frames, occupied, enqueue, dequeue, Op, put, get, Reply, sent, received,
  frames-snoc, length-frame,
}

-- A client's calls on the ring, and what each returns.
unfoldable pub run : RingBuffer → List Op → List Reply
run r [] = []
run r (put m ∷ ops) = let (b, r') = push r m in sent b ∷ run r' ops
run r (get ∷ ops) = let (o, r') = pop r in received o ∷ run r' ops

-- Every message that a client sends is shorter than 2 ^ 32 - 4 bytes.
abbrev pub AllSmall : List Op → Type 0
AllSmall [] = Unit
AllSmall (put m ∷ ops) = (4 + length m < u32_mod) × AllSmall ops
AllSmall (get ∷ ops) = AllSmall ops

pub capacity-push : (r : RingBuffer) (m : Bytes) → (push r m).1.capacity ≡ r.capacity
unfolding push
capacity-push r m = ground arith

pub capacity-pop : (r : RingBuffer) → (pop r).1.capacity ≡ r.capacity
unfolding pop
capacity-pop r = ground arith

run-Holds :
    (ops : List Op) (r : RingBuffer) (q : Queue)
    → Holds r q
    → AllSmall ops
    → run r ops ≡ Queue.run r.capacity q ops
unfolding run Queue.run
run-Holds [] r q v s = refl
run-Holds (put m ∷ ops) r q v s =
    let (b, h) = push_refines r q m v s.0 in
    ap₂ (λ x y. sent x ∷ y) b
      (run-Holds ops (push r m).1 (enqueue r.capacity q m).1 h s.1
        ∙ ap (λ c. Queue.run c (enqueue r.capacity q m).1 ops) (capacity-push r m))
run-Holds (get ∷ ops) r q v s =
    let (o, h) = pop_refines r q v in
    ap₂ (λ x y. received x ∷ y) o
      (run-Holds ops (pop r).1 (dequeue q).1 h s
        ∙ ap (λ c. Queue.run c (dequeue q).1 ops) (capacity-pop r))

-- A new ring whose capacity divides 2 ^ 32 answers every sequence of pushes and pops as the bounded
-- queue does, however often the positions wrap: messages arrive whole, once and in order, and one is
-- refused exactly when its frame does not fit. Messages are shorter than 2 ^ 32 - 4 bytes.
pub run_refines :
    (capacity : ℕ) (ops : List Op)
    → 0 < capacity
    → capacity < u32_mod
    → u32_mod % capacity ≡ 0
    → AllSmall ops
    → run (new capacity) ops ≡ Queue.run capacity [] ops
run_refines capacity ops pos small divides s =
    run-Holds ops (new capacity) [] (new-Holds capacity pos small divides) s
    ∙ ap (λ c. Queue.run c [] ops) (unfold new in omega arith)
