-- ===== src/Dag/Synthesis.antt =====
-- The thread of a semantic router, which `Dag::load` of src/dag.rs starts: it keeps the last text of
-- each of its two inputs and, once it has both, emits what the model makes of them.
pub mod Checked
use antenna.Base.{
  ℕ, ◌≡◌, refl, Bool, true, false, List, [], ◌∷◌, ◌++◌, Option, none, some, if◌then◌else◌, ◌⊎◌, inl,
  inr, arith,
}
use antenna.Base.Text.{Text, codes, is_empty, replace_char}
use antenna.Base.Result.{Result, ok, err, Result-cases}
use antenna.Llm.{build_prompt}
use antenna.Dag.Scripts.{turtle_prefixes, validate_turtle}

pub record Slots : Type 0 where
  pub slot_a : Option Text
  pub slot_b : Option Text

-- A wake-up from `poll` without an error: for each input `none` if it is not readable, or all that
-- `recv` gives until it is empty.
pub record Wake : Type 0 where
  pub rx_a : Option (List Text)
  pub rx_b : Option (List Text)

-- The last text that is not empty is latched.
unfoldable pub latch : List Text → Option Text → Option Text
latch [] slot = slot
latch (turtle ∷ rx) slot = latch rx (if is_empty turtle then slot else some turtle)

unfoldable pub latch_ready : Option (List Text) → Option Text → Option Text
unfolding latch
latch_ready none slot = slot
latch_ready (some rx) slot = latch rx slot

unfoldable pub router_system : Text → Text
router_system system_prompt =
    codes "You are an RDF synthesis engine. Given two Turtle RDF graphs, "
    ++ codes "produce a third that captures the semantic relationship between them. "
    ++ codes "Output ONLY valid Turtle triples using the provided prefixes. "
    ++ codes "No explanation.\n"
    ++ system_prompt

unfoldable pub retry_prompt : Text → Text → Text
retry_prompt user_prompt err1 =
    user_prompt
    ++ codes "\n\nYour previous output had a parse error: "
    ++ err1
    ++ codes "\nPlease fix and output valid Turtle only."

unfoldable pub error_turtle : Text → Text
unfolding replace_char
error_turtle err2 =
    codes "@prefix antenna: <http://resonator.network/v2/antenna#> .\n"
    ++ codes "[] a antenna:Error ; antenna:message \""
    ++ replace_char b'"' (codes "'") err2
    ++ codes "\" .\n"

-- `complete` is the backend's over a state `B` of its own, `parse` Oxigraph's parser.
module _ {B : Type 0} (complete : Text → Text → ℕ → B → Result Text × B)
    (parse : Text → List (Result (Unit {0}))) (system_prompt : Text) (max_tokens : ℕ) where
  -- What is emitted once the model has answered for the second time
  unfoldable pub after_retry : Result Text × B → Option Text × B
  unfolding error_turtle
  after_retry (ok raw2, st) = (
    elim (validate_turtle parse raw2) [
      | ok valid ↦ some valid
      | err err2 ↦ some (error_turtle err2)
    ],
    st,
  )
  after_retry (err e, st) = (none, st)

  unfoldable pub after_first : Text → Result Text × B → Option Text × B
  unfolding after_retry retry_prompt router_system
  after_first user_prompt (ok raw, st) = elim (validate_turtle parse raw) [
    | ok valid ↦ (some valid, st)
    | err err1 ↦
        after_retry
          (complete (router_system system_prompt) (retry_prompt user_prompt err1) max_tokens st)
  ]
  after_first user_prompt (err e, st) = (none, st)

  unfoldable pub fire : Text → Text → B → Option Text × B
  unfolding after_first build_prompt
  fire a b st =
      let user_prompt = build_prompt a b turtle_prefixes in
      after_first user_prompt (complete (router_system system_prompt) user_prompt max_tokens st)

  abbrev pub no_slots : Slots
  no_slots = record { slot_a = none; slot_b = none }

  -- Both slots are cleared once both are filled.
  unfoldable pub fire_ready : Option Text → Option Text → B → Option Text × Slots × B
  unfolding fire
  fire_ready (some a) (some b) st = let (emitted, st') = fire a b st in (emitted, no_slots, st')
  fire_ready none slot_b st = (none, record { slot_a = none; slot_b = slot_b }, st)
  fire_ready (some a) none st = (none, record { slot_a = some a; slot_b = none }, st)

  -- A round of the loop
  unfoldable pub wake_up : Wake → Slots → B → Option Text × Slots × B
  unfolding latch_ready fire_ready
  wake_up w s st = fire_ready (latch_ready w.rx_a s.slot_a) (latch_ready w.rx_b s.slot_b) st

  abbrev pub emit : Option Text → List Text → List Text
  emit none rest = rest
  emit (some turtle) rest = turtle ∷ rest

  -- What is emitted in a number of rounds
  unfoldable pub rounds : List Wake → Slots → B → List Text
  unfolding wake_up
  rounds [] s st = []
  rounds (w ∷ ws) s st = let (emitted, s', st') = wake_up w s st in emit emitted (rounds ws s' st')
