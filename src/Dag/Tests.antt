-- ===== src/Dag/Tests.antt =====
-- src/dag.rs on a DAG with two subscribers and one route.
use antenna.Base.{ℕ, List, some, none, ◌+◌, ◌≡◌, refl, arith, true, false, [], ◌∷◌}
use antenna.Base.Text.{Text, codes, text_eq}
use antenna.Base.Utf8.{as_bytes, encode_char}
use antenna.Channel.{new}
use antenna.Channel.Endpoint.{Descriptor, InternalChannel}
use antenna.Channel.Refine.{Holds, new-Holds}
use antenna.Dag.{Dag, broadcast, pump_emits, health_check, health_loop}
use antenna.Base.Result.{Result, ok, err}
use antenna.Dag.Scripts.{short_uri, validate_turtle}
use antenna.Dag.Synthesis.{Wake, error_turtle, rounds}
use antenna.Dag.Synthesis.Checked.{Run, rounds-Run}
use antenna.Dag.Broadcast.{writers_in, AllHold, AllSent, broadcast_lem}
use antenna.Dag.Pump.{broadcasts, deliveries, waiting, pump_emits_lem}
use antenna.Theme.{member}

-- A pipe that counts the signals
abbrev pipe : Descriptor ℕ
pipe = record { fresh = 0; write = λ n c. c + 1; read = λ n c. 0; readable = λ c. true }

abbrev none_taken : ℕ → ℕ
none_taken i = 0

abbrev channel : InternalChannel ℕ
channel = record { ring = new 16; clock = 0 }

abbrev dag : Dag ℕ
dag = record {
  channel_writers = (codes "in", channel ∷ channel ∷ []) ∷ (codes "out", channel ∷ []) ∷ [];
  emit_routes =
      record { rx = codes "m" ∷ codes "n" ∷ []; out_uris = codes "in" ∷ codes "out" ∷ [] } ∷ [];
  threads = (codes "node:a", true) ∷ (codes "node:b", false) ∷ (codes "node:a", true) ∷ [];
  reported_dead = [];
}

dead_once : (health_check dag).0 ≡ codes "node:a" ∷ []
unfolding health_check health_loop member text_eq
dead_once = refl

pump_emits_lem_example :
    ((pump_emits pipe none_taken dag).0 ≡ waiting dag.emit_routes)
    × ((pump_emits pipe none_taken dag).1.channel_writers
        ≡ (broadcasts pipe none_taken (deliveries dag.emit_routes) dag).channel_writers)
    × (waiting (pump_emits pipe none_taken dag).1.emit_routes ≡ [])
pump_emits_lem_example = pump_emits_lem pipe none_taken dag

empty-Holds : Holds (new 16) []
empty-Holds = new-Holds 16 (omega arith) (omega arith) refl

subscribers-AllHold : AllHold (writers_in (codes "in") dag.channel_writers) ([] ∷ [] ∷ [])
unfolding text_eq
subscribers-AllHold = (empty-Holds, (empty-Holds, tt))

broadcast_lem_example :
    AllSent pipe none_taken
      (as_bytes (codes "m"))
      (writers_in (codes "in") dag.channel_writers)
      ([] ∷ [] ∷ [])
      (writers_in
        (codes "in")
        (broadcast pipe none_taken (codes "in") (codes "m") dag).channel_writers)
    × ((k : Text)
        → text_eq (codes "in") k ≡ false
        → writers_in k (broadcast pipe none_taken (codes "in") (codes "m") dag).channel_writers
          ≡ writers_in k dag.channel_writers)
broadcast_lem_example =
    broadcast_lem pipe none_taken (codes "in") (codes "m") dag ([] ∷ [] ∷ [])
      (unfold as_bytes encode_char in omega arith) subscribers-AllHold

node_name : short_uri (codes "http://resonator.network/v2/antenna#echo") ≡ codes "echo"
unfolding short_uri
node_name = refl

path_name : short_uri (codes "http://resonator.network/echo") ≡ codes "echo"
unfolding short_uri
path_name = refl

-- A model whose answers never parse: the router asks it twice and reports the error.
abbrev complete_badly : Text → Text → ℕ → ℕ → Result Text × ℕ
complete_badly system user max_tokens asked = (ok (codes "???"), asked + 1)

abbrev parse_error : Text → List (Result (Unit {0}))
parse_error text = err (codes "no \"term\"") ∷ []

abbrev wakes : List Wake
wakes =
    record { rx_a = some (codes "a" ∷ codes "a2" ∷ []); rx_b = none }
    ∷ record { rx_a = none; rx_b = some (codes "b" ∷ [] ∷ []) }
    ∷ []

reported :
    rounds complete_badly parse_error
      (codes "")
      512
      wakes
      (record { slot_a = none; slot_b = none })
      0
    ≡ codes
        "@prefix antenna: <http://resonator.network/v2/antenna#> .\n[] a antenna:Error ; antenna:message \"Turtle parse error: no 'term'\" .\n"
      ∷ []
unfolding rounds validate_turtle error_turtle
reported = refl

rounds-Run_example : Run complete_badly parse_error (codes "") 512 wakes none none 0 (
    rounds complete_badly parse_error
      (codes "")
      512
      wakes
      (record { slot_a = none; slot_b = none })
      0)
rounds-Run_example = rounds-Run complete_badly parse_error (codes "") 512 wakes none none 0
