-- ===== src/Ffi/Batch.antt =====
-- `push_turtle_lines` and `escape_turtle_string` of src/ffi.rs.
use antenna.Base.{
  ℕ, ◌+◌, ◌<◌, ◌≤◌, ◌≡◌, refl, sym, subst, ◌∙◌, arith, Bool, true, false, List, [], ◌∷◌, ◌++◌,
  if◌then◌else◌, length, drop,
}
use antenna.Base.Numbers.{ℤ, pos, negsuc}
use antenna.Base.Text.{Text, is_empty, trim, lines}
use antenna.Base.Utf8.{as_bytes}
use antenna.Channel.{u32_mod}
use antenna.Channel.Endpoint.{Descriptor, InternalChannel, send}
use antenna.Channel.Queue.{Queue, occupied}
use antenna.Channel.Refine.{Holds}
use antenna.Channel.Sending.{taken, AllFull, Outcome, send_lem, capacity-send}
use antenna.Ffi.{push_lines, push_turtle_lines, escape_turtle_string}
use antenna.Turtle.{turtle_escape}
use antenna.Turtle.Escape.{turtle_escape-cons, turtle_escape-nil, escape_char}

-- The interface's escape is the dispatcher's.
pub escape_turtle_string_lem : (s : Text) → escape_turtle_string s ≡ turtle_escape s
unfolding escape_turtle_string escape_char
escape_turtle_string_lem [] = sym turtle_escape-nil
escape_turtle_string_lem (c ∷ s) =
    rw (turtle_escape-cons c s, escape_turtle_string_lem s) (ground arith)

-- The statements of a batch: its lines, trimmed, without the blank ones.
abbrev pub statements_of : List Text → List Text
statements_of [] = []
statements_of (l ∷ ls) =
    let rest = statements_of ls in if is_empty (trim l) then rest else trim l ∷ rest

abbrev pub AllSmall : List Text → Type 0
AllSmall [] = Unit
AllSmall (s ∷ ss) = (4 + length (as_bytes s) < u32_mod) × AllSmall ss

module _ {F : Type 0} (fd : Descriptor F) (idle : ℕ → ℕ) where
  -- What a ring that held `q` holds behind a batch of statements. Each statement waited `n` times for
  -- room and came to fit behind what the reader then had left; it stands there, and the next one follows.
  -- Nothing but what the reader took in these pauses is gone.
  abbrev pub Queued : (capacity : ℕ) → InternalChannel F → Queue → List Text → Type 0
  Queued capacity ch q [] = Holds ch.ring q
  Queued capacity ch q (s ∷ ss) =
      (n : ℕ) × (n < 20)
      × AllFull idle capacity (4 + length (as_bytes s)) 0 n q
      × (occupied (drop (taken idle 0 n) q) + (4 + length (as_bytes s)) ≤ capacity)
      × Queued capacity ch (drop (taken idle 0 n) q ++ as_bytes s ∷ []) ss

  -- One line: it is blank, or pushed, or refused.
  line_cases :
      (blank pushed : Bool) (s : Text) (rest : List Text) (skip on refused : ℤ × InternalChannel F)
      (capacity : ℕ) (q : Queue)
      → (AllSmall rest → skip.0 ≡ pos 0 → Queued capacity skip.1 q rest)
      → (pushed ≡ true → AllSmall (s ∷ rest) → on.0 ≡ pos 0 → Queued capacity on.1 q (s ∷ rest))
      → refused.0 ≡ negsuc 2
      → AllSmall (if blank then rest else s ∷ rest)
      → (if blank then skip else if pushed then on else refused).0 ≡ pos 0
      → Queued capacity
          (if blank then skip else if pushed then on else refused).1
          q
          (if blank then rest else s ∷ rest)
  line_cases true pushed s rest skip on refused capacity q f g r small h = f small h
  line_cases false true s rest skip on refused capacity q f g r small h = g refl small h
  line_cases false false s rest skip on refused capacity q f g r small h = cc

  -- A statement that was sent, and what is queued behind it
  sent_Queued :
      (capacity : ℕ) (s : Text) (ss : List Text) (q : Queue) (clock : F)
      (out : Bool × InternalChannel F) (ch : InternalChannel F)
      → Outcome fd idle capacity 20 0 (as_bytes s) q clock out
      → out.0 ≡ true
      → ((p : Queue) → Holds out.1.ring p → Queued capacity ch p ss)
      → Queued capacity ch q (s ∷ ss)
  sent_Queued capacity s ss q clock (true, c) ch (n, fulls, (few, fits, holds, same)) e f =
      (n, few, fulls, fits, f (drop (taken idle 0 n) q ++ as_bytes s ∷ []) holds)
  sent_Queued capacity s ss q clock (false, c) ch out e f = cc

  push_lines-Queued :
      (capacity : ℕ) (ls : List Text) (ch : InternalChannel F) (q : Queue)
      → ch.ring.capacity ≡ capacity
      → Holds ch.ring q
      → AllSmall (statements_of ls)
      → (push_lines (send fd idle) ls ch).0 ≡ pos 0
      → Queued capacity (push_lines (send fd idle) ls ch).1 q (statements_of ls)
  unfolding push_lines
  push_lines-Queued capacity [] ch q c v small h = v
  push_lines-Queued capacity (l ∷ ls) ch q c v small h =
      line_cases _ _ (trim l) (statements_of ls) _ _ _ capacity q
        (λ s k. push_lines-Queued capacity ls ch q c v s k)
        (λ e s k.
          sent_Queued capacity (trim l) (statements_of ls) q ch.clock (send fd idle (trim l) ch)
            (push_lines (send fd idle) ls (send fd idle (trim l) ch).1).1
            (subst
              (λ m.
                Outcome fd idle m 20 0 (as_bytes (trim l)) q ch.clock (send fd idle (trim l) ch))
              c (send_lem fd idle (trim l) ch q v s.0))
            e
            (λ p w.
              push_lines-Queued capacity ls (send fd idle (trim l) ch).1 p
                (capacity-send fd idle (trim l) ch ∙ c) w s.1 k))
        refl small h

  -- When a batch returns zero on a ring that holds `q`, its statements were queued one by one, in the
  -- order of the batch: each behind what the reader had left by then, once it fitted, and nothing but
  -- what the reader took in the pauses for room is gone. A statement is a line without the white space at
  -- its ends, unless that is empty, and is shorter than 2 ^ 32 - 4 bytes.
  pub push_turtle_lines_lem :
      (input : Text) (ch : InternalChannel F) (q : Queue)
      → Holds ch.ring q
      → AllSmall (statements_of (lines input))
      → (push_turtle_lines input (send fd idle) ch).0 ≡ pos 0
      → Queued ch.ring.capacity
          (push_turtle_lines input (send fd idle) ch).1
          q
          (statements_of (lines input))
  unfolding push_turtle_lines
  push_turtle_lines_lem input ch q v small h =
      push_lines-Queued ch.ring.capacity (lines input) ch q refl v small h
