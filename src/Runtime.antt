-- ===== src/Runtime.antt =====
-- `AntennaContext` of src/lib.rs: one tick of the worker.
pub mod Phases
pub mod Grows
pub mod Startup
pub mod Events
pub mod Boot
pub mod Trusted
pub mod Accounts
pub mod Graphs
mod Tests
use antenna.Base.{
  ℕ, Bool, true, false, List, [], ◌∷◌, ◌++◌, Option, none, some, if◌then◌else◌, map, leb, ltb,
}
use antenna.Base.Text.{Text, codes, is_empty, contains}
use antenna.Base.Result.{Result, ok, err}
use antenna.Base.Numbers.{ℤ, pos, negsuc, is_negative, decimal_ℤ}
use antenna.Carrier.{CarrierClient}
use antenna.Carrier.Account.{take_pending_auto_export, load_account, export_account}
use antenna.Carrier.Event.{CarrierEvent}
use antenna.Carrier.Event.Turtle.{event_to_turtle}
use antenna.Dispatch.Router.{dispatch}
use antenna.Dispatch.World.{Env, World, send, before_insert, after_insert}
use antenna.Store.{insert_turtle}
use antenna.Turtle.{extract_property}

-- What a tick calls besides the dispatcher: `carrier_iterate` with its return code and the events it
-- hands to the callback, and the operations of the script DAG.
pub record Host (S T D K : Type 0) : Type 0 where
  pub env : Env S T D K
  pub carrier_iterate : K → ℤ × List CarrierEvent × K
  pub pump_queries : S → D → D
  pub pump_emits : D → List Text × D
  pub health_check : D → List Text × D

-- `AntennaContext`; the world holds the store, the DAG, the carrier and the messages on `output`.
pub record AntennaContext (S D K : Type 0) : Type 0 where
  pub world : World S D K
  pub account_id : Text
  pub carrier_event_rx : List Text
  pub bootstrap_emit : Option Text
  pub pending_account_load : Option Text
  pub startup_emitted : Bool

abbrev pub clock_channel : Text
clock_channel = codes "http://resonator.network/v2/antenna#clock"

abbrev pub clock_tick : Text
clock_tick = codes "[] a <http://resonator.network/v2/antenna#ClockTick> ."

module _ {S T D K : Type 0} (host : Host S T D K) where
  -- The deferred load; an error of it is only logged.
  unfoldable pub load_pending : AntennaContext S D K → AntennaContext S D K
  load_pending ctx = elim ctx.pending_account_load [
    | none ↦ ctx
    | some id ↦
        let (result, client) = load_account host.env.api id ctx.world.carrier in
        record ctx { pending_account_load = none; world = record (ctx.world) { carrier = client } }
  ]

  -- The one-shot of the first tick
  unfoldable pub startup : AntennaContext S D K → AntennaContext S D K
  unfolding load_pending
  startup ctx =
      if ctx.startup_emitted
      then ctx
      else load_pending (record ctx {
        startup_emitted = true;
        world =
            dispatch host.env true (codes "[] a design:ResolveActiveTheme .") ctx.account_id
              ctx.world;
      })

  -- An event goes out first, then through the DAG into the store; an error of the store is logged.
  unfoldable pub publish : Text → World S D K → World S D K
  unfolding send before_insert after_insert
  publish turtle w =
      let sent = send turtle w in
      let d = before_insert host.env turtle sent.dag in
      let s : S = elim (insert_turtle host.env.oxigraph turtle sent.store) [
        | ok s' ↦ s'
        | err e ↦ sent.store
      ] in
      record sent { store = s; dag = after_insert host.env turtle d }

  unfoldable pub announce : AntennaContext S D K → AntennaContext S D K
  unfolding publish
  announce ctx = elim ctx.bootstrap_emit [
    | none ↦ ctx
    | some turtle ↦ record ctx { bootstrap_emit = none; world = publish turtle ctx.world }
  ]

  unfoldable pub clock : AntennaContext S D K → AntennaContext S D K
  clock ctx = record ctx {
    world = record (ctx.world) { dag = host.env.broadcast clock_channel clock_tick ctx.world.dag };
  }

  -- `CarrierClient::iterate`, with the callback that queues the line of each event
  unfoldable pub iterate : AntennaContext S D K → Result (Unit {0}) × AntennaContext S D K
  iterate ctx =
      let (rc, events, lib) = host.carrier_iterate ctx.world.carrier.lib in
      let after : AntennaContext S D K = record ctx {
        carrier_event_rx = ctx.carrier_event_rx ++ map event_to_turtle events;
        world = record (ctx.world) { carrier = record (ctx.world.carrier) { lib = lib } };
      } in
      if is_negative rc
      then (err (codes "carrier_iterate returned " ++ decimal_ℤ rc), after)
      else (ok tt, after)

  -- The account that an event names, where none is known
  unfoldable pub learn_account : Text → Text → Text
  learn_account turtle account_id =
      if is_empty account_id
      then (elim (extract_property turtle (codes "carrier:account")) [
        | none ↦ account_id
        | some id ↦ if is_empty id then account_id else id
      ])
      else account_id

  unfoldable pub export_pending : Option Text → Text → CarrierClient K → CarrierClient K
  export_pending none acct client = client
  export_pending (some path) acct client =
      if is_empty acct then client else (export_account host.env.api acct path none client).1

  unfoldable pub account_ready : Text → AntennaContext S D K → AntennaContext S D K
  unfolding learn_account export_pending take_pending_auto_export
  account_ready turtle ctx =
      let acct = learn_account turtle ctx.account_id in
      let (pending_export, client) = take_pending_auto_export ctx.world.carrier in
      record ctx {
        account_id = acct;
        world = record (ctx.world) { carrier = export_pending pending_export acct client };
      }

  unfoldable pub on_event : Text → AntennaContext S D K → AntennaContext S D K
  unfolding account_ready publish
  on_event turtle ctx =
      let ready = account_ready turtle ctx in
      let ctx' = if contains turtle (codes "carrier:AccountReady") then ready else ctx in
      record ctx' { world = publish turtle ctx'.world }

  unfoldable pub event_loop : List Text → AntennaContext S D K → AntennaContext S D K
  unfolding on_event
  event_loop [] ctx = ctx
  event_loop (turtle ∷ rx) ctx = event_loop rx (on_event turtle ctx)

  unfoldable pub drain_events : AntennaContext S D K → AntennaContext S D K
  unfolding event_loop
  drain_events ctx = event_loop ctx.carrier_event_rx (record ctx { carrier_event_rx = [] })

  -- The loop over the lines of the client
  unfoldable pub input_loop : Text → List Text → World S D K → World S D K
  input_loop acct [] w = w
  input_loop acct (line ∷ input) w =
      let next = if is_empty line then w else dispatch host.env true line acct w in
      input_loop acct input next

  unfoldable pub emit_loop : Text → List Text → World S D K → World S D K
  emit_loop acct [] w = w
  emit_loop acct (turtle ∷ emits) w = emit_loop acct emits (dispatch host.env true turtle acct w)

  -- What follows the events: the client's lines, and the work of the scripts
  unfoldable pub serve : Text → List Text → World S D K → World S D K
  unfolding input_loop emit_loop
  serve acct input w0 =
      let w = input_loop acct input w0 in
      let (emits, d) = host.pump_emits (host.pump_queries w.store w.dag) in
      let w' = emit_loop acct emits (record w { dag = d }) in
      record w' { dag = (host.health_check w'.dag).1 }

  -- An error of `iterate` ends the tick.
  unfoldable pub after_iterate :
      List Text
      → Result (Unit {0}) × AntennaContext S D K
      → Result (Unit {0}) × AntennaContext S D K
  unfolding drain_events serve
  after_iterate input (err e, ctx) = (err e, ctx)
  after_iterate input (ok _, ctx) =
      let ctx' = drain_events ctx in
      (ok tt, record ctx' { world = serve ctx'.account_id input ctx'.world })

  unfoldable pub tick : List Text → AntennaContext S D K → Result (Unit {0}) × AntennaContext S D K
  unfolding startup announce clock iterate after_iterate
  tick input ctx = after_iterate input (iterate (clock (announce (startup ctx))))

  -- The `?` of `run`: an error ends it, and else `rest` is what follows.
  abbrev pub go_on :
      Result (Unit {0}) × AntennaContext S D K
      → Result (Unit {0}) × AntennaContext S D K
      → Result (Unit {0}) × AntennaContext S D K
  go_on (err e, ctx) rest = (err e, ctx)
  go_on (ok _, ctx) rest = rest

  -- `run` for the lines that the client has for each tick
  unfoldable pub run :
      List (List Text) → AntennaContext S D K → Result (Unit {0}) × AntennaContext S D K
  unfolding tick
  run [] ctx = (ok tt, ctx)
  run (input ∷ inputs) ctx = go_on (tick input ctx) (run inputs (tick input ctx).1)

-- The time that `run` waits: at least 1 and at most 25 milliseconds.
unfoldable pub timeout_ms : ℤ → ℕ
timeout_ms (negsuc n) = 1
timeout_ms (pos n) = if ltb n 1 then 1 else if ltb 25 n then 25 else n
