-- ===== src/Dispatch/World.antt =====
-- What the handlers of src/dispatch.rs work on, and `insert_with_dag`.
use antenna.Base.{ℕ, List, [], ◌∷◌, ◌++◌}
use antenna.Base.Text.{Text, codes}
use antenna.Base.Result.{ok, err}
use antenna.Blocklist.{Crypto}
use antenna.Carrier.{CarrierApi, CarrierClient}
use antenna.Store.{Oxigraph, insert_turtle}
use antenna.Turtle.{antenna_ns}

-- The components that the handlers call: Oxigraph, libcarrier, the signature check, and
-- `Dag::broadcast` over the state of the script DAG. `theme_fuel` bounds the walk of the themes.
pub record Env (S T D K : Type 0) : Type 0 where
  pub oxigraph : Oxigraph S T
  pub api : CarrierApi K
  pub crypto : Crypto
  pub broadcast : Text → Text → D → D
  pub theme_fuel : ℕ

-- The store, the DAG, the carrier's client, and the messages sent to `out`, oldest first.
pub record World (S D K : Type 0) : Type 0 where
  pub store : S
  pub dag : D
  pub carrier : CarrierClient K
  pub out : List Text

module _ {S D K : Type 0} where
  -- `out.send(turtle)`
  unfoldable pub send : Text → World S D K → World S D K
  send turtle w = record w { out = w.out ++ turtle ∷ [] }

  unfoldable pub send_all : List Text → World S D K → World S D K
  send_all turtles w = record w { out = w.out ++ turtles }

module _ {S T D K : Type 0} (env : Env S T D K) where
  -- `Dag::before_insert` and `Dag::after_insert`
  unfoldable pub before_insert : Text → D → D
  before_insert turtle d = env.broadcast (antenna_ns ++ codes "beforeInsert") turtle d

  unfoldable pub after_insert : Text → D → D
  after_insert turtle d = env.broadcast (antenna_ns ++ codes "afterInsert") turtle d

  unfoldable pub insert_with_dag : Text → World S D K → World S D K
  unfolding before_insert after_insert send
  insert_with_dag line w =
      let d = before_insert line w.dag in
      elim (insert_turtle env.oxigraph line w.store) [
        | err e ↦ record w { dag = d }
        | ok s ↦ send line (record w { dag = after_insert line d; store = s })
      ]
