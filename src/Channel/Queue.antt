-- ===== src/Channel/Queue.antt =====
-- The abstract channel: a queue of messages whose framed sizes (four bytes of length and the data)
-- add up to at most the capacity. This is what a client of the ring buffer may rely on.
use antenna.Base.{
  ℕ, ◌+◌, ◌≡◌, Bool, true, false, List, [], ◌∷◌, ◌++◌, Option, none, some, arith, leb,
  if◌then◌else◌, length, append-nil, append_assoc,
}
use antenna.Channel.{Bytes, to_le_bytes}

abbrev pub Queue : Type 0
Queue = List Bytes

abbrev pub frame : Bytes → Bytes
frame m = to_le_bytes (length m) ++ m

abbrev pub frames : Queue → Bytes
frames [] = []
frames (m ∷ q) = frame m ++ frames q

-- Bytes that the queue occupies.
abbrev pub occupied : Queue → ℕ
occupied q = length (frames q)

unfoldable pub enqueue : ℕ → Queue → Bytes → Bool × Queue
enqueue capacity q m =
    if leb (occupied q + (4 + length m)) capacity then (true, q ++ m ∷ []) else (false, q)

unfoldable pub dequeue : Queue → Option Bytes × Queue
dequeue [] = (none, [])
dequeue (m ∷ q) = (some m, q)

-- A client's calls, and what each returns.
pub data Op : Type 0 where
  put : Bytes → Op
  get : Op

pub data Reply : Type 0 where
  sent : Bool → Reply
  received : Option Bytes → Reply

unfoldable pub run : ℕ → Queue → List Op → List Reply
run capacity q [] = []
run capacity q (put m ∷ ops) = let (b, q') = enqueue capacity q m in sent b ∷ run capacity q' ops
run capacity q (get ∷ ops) = let (o, q') = dequeue q in received o ∷ run capacity q' ops

pub frames-snoc : (q : Queue) (m : Bytes) → frames (q ++ m ∷ []) ≡ frames q ++ frame m
frames-snoc [] m = append-nil (frame m)
frames-snoc (x ∷ q) m = rw (frames-snoc q m, append_assoc)

pub length-frame : (m : Bytes) → length (frame m) ≡ 4 + length m
length-frame m = omega arith
