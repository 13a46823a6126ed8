-- ===== src/Dag.antt =====
-- src/dag.rs: the running DAG. Each subscriber of a channel has a ring of its own (Channel).
pub mod Broadcast
pub mod Pump
pub mod Scripts
pub mod Nodes
pub mod Synthesis
mod Tests
pub mod Health
use antenna.Base.{
  ℕ, Bool, true, false, not, ◌&&◌, List, [], ◌∷◌, ◌++◌, Option, none, some, if◌then◌else◌,
}
use antenna.Base.Text.{Text, codes, text_eq}
use antenna.Channel.Endpoint.{Descriptor, InternalChannel, send}
use antenna.Theme.{member}
use antenna.Turtle.{antenna_ns}

-- `rx` holds the messages of a node that wait.
pub record EmitRoute : Type 0 where
  pub rx : List Text
  pub out_uris : List Text

-- The map of writers has each URI once. A thread is its name and whether it is finished.
pub record Dag (F : Type 0) : Type 0 where
  pub channel_writers : List (Text × List (InternalChannel F))
  pub emit_routes : List EmitRoute
  pub threads : List (Text × Bool)
  pub reported_dead : List Text

module _ {F : Type 0} (fd : Descriptor F) (idle : ℕ → ℕ) where
  -- The `for` over the writers of a channel; a message that a full ring refuses is dropped.
  unfoldable pub send_each : Text → List (InternalChannel F) → List (InternalChannel F)
  send_each turtle [] = []
  send_each turtle (w ∷ ws) = (send fd idle turtle w).1 ∷ send_each turtle ws

  unfoldable pub broadcast_to :
      Text → Text → List (Text × List (InternalChannel F)) → List (Text × List (InternalChannel F))
  unfolding send_each
  broadcast_to uri turtle [] = []
  broadcast_to uri turtle ((k, ws) ∷ map) =
      let rest = broadcast_to uri turtle map in
      if text_eq k uri then (k, send_each turtle ws) ∷ map else (k, ws) ∷ rest

  unfoldable pub broadcast : Text → Text → Dag F → Dag F
  unfolding broadcast_to
  broadcast uri turtle dag = record dag {
    channel_writers = broadcast_to uri turtle dag.channel_writers;
  }

  unfoldable pub before_insert : Text → Dag F → Dag F
  before_insert turtle dag = broadcast (antenna_ns ++ codes "beforeInsert") turtle dag

  unfoldable pub after_insert : Text → Dag F → Dag F
  after_insert turtle dag = broadcast (antenna_ns ++ codes "afterInsert") turtle dag

  -- The loops of `pump_emits`, from the innermost
  unfoldable pub to_outs : List Text → Text → Dag F → Dag F
  to_outs [] turtle dag = dag
  to_outs (uri ∷ uris) turtle dag = to_outs uris turtle (broadcast uri turtle dag)

  unfoldable pub drain_route : List Text → List Text → Dag F → Dag F
  unfolding to_outs
  drain_route out_uris [] dag = dag
  drain_route out_uris (turtle ∷ rx) dag = drain_route out_uris rx (to_outs out_uris turtle dag)

  unfoldable pub drain_routes : List EmitRoute → List Text → Dag F → List Text × Dag F
  unfolding drain_route
  drain_routes [] collected dag = (collected, dag)
  drain_routes (r ∷ routes) collected dag =
      drain_routes routes (collected ++ r.rx) (drain_route r.out_uris r.rx dag)

  unfoldable pub emptied : List EmitRoute → List EmitRoute
  emptied [] = []
  emptied (r ∷ routes) = record r { rx = [] } ∷ emptied routes

  unfoldable pub pump_emits : Dag F → List Text × Dag F
  unfolding drain_routes emptied
  pump_emits dag =
      let (collected, d) = drain_routes dag.emit_routes [] dag in
      (collected, record d { emit_routes = emptied dag.emit_routes })

-- The loop of `health_check`: what is newly dead, and what is reported by then.
unfoldable pub health_loop : List (Text × Bool) → List Text → List Text × List Text
health_loop [] reported = ([], reported)
health_loop ((name, finished) ∷ threads) reported =
    let fresh = health_loop threads (name ∷ reported) in
    let rest = health_loop threads reported in
    if finished && not (member name reported) then (name ∷ fresh.0, fresh.1) else rest

unfoldable pub health_check : {F : Type 0} → Dag F → List Text × Dag F
unfolding health_loop
health_check dag =
    let (dead, reported) = health_loop dag.threads dag.reported_dead in
    (dead, record dag { reported_dead = reported })
