-- ===== src/Runtime/Events.antt =====
-- What a tick of src/lib.rs does with the events of libcarrier.
use antenna.Base.{
  true, false, List, [], ◌∷◌, ◌++◌, some, ◌≡◌, ◌≢◌, ◌⊎◌, refl, sym, ap, ◌∙◌, inl, inr, Bool-cases,
  arith, map, append-nil, append_assoc,
}
use antenna.Base.Text.{Text, codes, is_empty, contains, find, starts_with}
use antenna.Carrier.{cstr_from_buf}
use antenna.Carrier.Event.{CarrierEvent, CarrierEventData, AccountReadyData}
use antenna.Carrier.Event.Turtle.{event_to_turtle, class_of}
use antenna.Carrier.Event.Shape.{typed_line, event_to_turtle-typed_line}
use antenna.Carrier.Event.Read.{extract_property-event_to_turtle}
use antenna.Dispatch.World.{World, send}
use antenna.Runtime.{
  Host, AntennaContext, load_pending, startup, publish, announce, clock, on_event, learn_account,
  account_ready, event_loop, drain_events, input_loop, emit_loop, serve, tick,
}
use antenna.Runtime.Grows.{Grows, if_Grows, Grows-refl, Grows-trans, dispatch-Grows}
use antenna.Runtime.Phases.{opened, events_of, is_failed, received, tick-failed, tick-passed}
use antenna.Turtle.{turtle_escape, extract_property}
use antenna.Turtle.Escape.{escape_char, turtle_escape-cons}

account_ready_line :
    (rest : Text)
    → contains (typed_line (codes "AccountReady") rest) (codes "carrier:AccountReady") ≡ true
unfolding find starts_with
account_ready_line rest = refl

account_ready-contains :
    (ev : CarrierEvent) (d : AccountReadyData)
    → ev.event ≡ CarrierEventData.account_ready d
    → contains (event_to_turtle ev) (codes "carrier:AccountReady") ≡ true
unfolding class_of
account_ready-contains ev d e =
    let (rest, shape) = event_to_turtle-typed_line ev in
    ap (λ t. contains t (codes "carrier:AccountReady"))
      (shape ∙ ap (λ x. typed_line (class_of x) rest) e)
    ∙ account_ready_line rest

turtle_escape_not_empty : (s : Text) → s ≢ [] → is_empty (turtle_escape s) ≡ false
unfolding escape_char
turtle_escape_not_empty [] h = absurd (h refl)
turtle_escape_not_empty (c ∷ s) h = rw (turtle_escape-cons c s) (ground arith)

module _ {S T D K : Type 0} (host : Host S T D K) where
  on_event-out :
      (turtle : Text) (ctx : AntennaContext S D K)
      → (on_event host turtle ctx).world.out ≡ ctx.world.out ++ turtle ∷ []
  unfolding on_event publish send account_ready
  on_event-out turtle ctx = ground arith

  event_loop-out :
      (rx : List Text) (ctx : AntennaContext S D K)
      → (event_loop host rx ctx).world.out ≡ ctx.world.out ++ rx
  unfolding event_loop
  event_loop-out [] ctx = sym (append-nil ctx.world.out)
  event_loop-out (turtle ∷ rx) ctx =
      event_loop-out rx (on_event host turtle ctx)
      ∙ ap (λ t. t ++ rx) (on_event-out turtle ctx)
      ∙ append_assoc ctx.world.out (turtle ∷ []) rx

  on_event-rx :
      (turtle : Text) (ctx : AntennaContext S D K)
      → (on_event host turtle ctx).carrier_event_rx ≡ ctx.carrier_event_rx
  unfolding on_event account_ready
  on_event-rx turtle ctx = ground arith

  event_loop-rx :
      (rx : List Text) (ctx : AntennaContext S D K)
      → (event_loop host rx ctx).carrier_event_rx ≡ ctx.carrier_event_rx
  unfolding event_loop
  event_loop-rx [] ctx = refl
  event_loop-rx (turtle ∷ rx) ctx =
      event_loop-rx rx (on_event host turtle ctx) ∙ on_event-rx turtle ctx

  opened-rx :
      (ctx : AntennaContext S D K) → (opened host ctx).carrier_event_rx ≡ ctx.carrier_event_rx
  unfolding announce startup load_pending clock
  opened-rx ctx = ground arith

  input_loop-Grows :
      (acct : Text) (input : List Text) (w : World S D K) → Grows w (input_loop host acct input w)
  unfolding input_loop
  input_loop-Grows acct [] w = Grows-refl w
  input_loop-Grows acct (line ∷ input) w =
      Grows-trans
        (if_Grows host.env (is_empty line) (Grows-refl w)
          (dispatch-Grows host.env true line acct w))
        (input_loop-Grows acct input _)

  emit_loop-Grows :
      (acct : Text) (emits : List Text) (w : World S D K) → Grows w (emit_loop host acct emits w)
  unfolding emit_loop
  emit_loop-Grows acct [] w = Grows-refl w
  emit_loop-Grows acct (turtle ∷ emits) w =
      Grows-trans (dispatch-Grows host.env true turtle acct w) (emit_loop-Grows acct emits _)

  serve-Grows :
      (acct : Text) (input : List Text) (w : World S D K) → Grows w (serve host acct input w)
  unfolding serve
  serve-Grows acct input w =
      let g = input_loop-Grows acct input w in
      let h = emit_loop-Grows acct emits (record served { dag = emitted.1 }) in
      record {
        more = g.more ++ h.more;
        grows = h.grows ∙ ap (λ t. t ++ h.more) g.grows ∙ append_assoc w.out g.more h.more;
      }
    where
      served : World S D K
      served = input_loop host acct input w

      emitted : List Text × D
      emitted = host.pump_emits (host.pump_queries served.store served.dag)

      emits : List Text
      emits = emitted.0

  drain_events-out :
      (ctx : AntennaContext S D K)
      → (drain_events host ctx).world.out ≡ ctx.world.out ++ ctx.carrier_event_rx
  unfolding drain_events
  drain_events-out ctx = event_loop-out ctx.carrier_event_rx (record ctx { carrier_event_rx = [] })

  drain_events-rx : (ctx : AntennaContext S D K) → (drain_events host ctx).carrier_event_rx ≡ []
  unfolding drain_events
  drain_events-rx ctx = event_loop-rx ctx.carrier_event_rx (record ctx { carrier_event_rx = [] })

  -- The lines of the events that wait when `iterate` has returned
  abbrev pub waiting_events : AntennaContext S D K → List Text
  waiting_events ctx =
      ctx.carrier_event_rx ++ map event_to_turtle (events_of host (opened host ctx))

  -- If `iterate` fails, every event waits for the next tick and nothing is sent; if not, every event is
  -- sent once, in order and ahead of all that the client's lines and the scripts call for.
  pub tick-events :
      (input : List Text) (ctx : AntennaContext S D K)
      → ((is_failed host (opened host ctx) ≡ true)
          × ((tick host input ctx).1.world.out ≡ (opened host ctx).world.out)
          × ((tick host input ctx).1.carrier_event_rx ≡ waiting_events ctx))
        ⊎ ((is_failed host (opened host ctx) ≡ false)
            × ((more : List Text) × ((tick host input ctx).1.world.out
                  ≡ (opened host ctx).world.out ++ waiting_events ctx ++ more))
            × ((tick host input ctx).1.carrier_event_rx ≡ []))
  tick-events input ctx = elim (Bool-cases (is_failed host (opened host ctx))) [
    | inl e ↦ inl (
      e,
      rw (tick-failed host input ctx e) refl,
      rw (tick-failed host input ctx e) (ap (λ t. t ++ lines) (opened-rx ctx)),
    )
    | inr e ↦
        let drained = drain_events host (received host (opened host ctx)) in
        let g = serve-Grows drained.account_id input drained.world in
        inr (
          e,
          (
            g.more,
            rw (tick-passed host input ctx e) (
                g.grows
                ∙ ap (λ t. t ++ g.more) (drain_events-out (received host (opened host ctx)))
                ∙ ap (λ t. (opened host ctx).world.out ++ (t ++ lines) ++ g.more) (opened-rx ctx)),
          ),
          rw (tick-passed host input ctx e) (drain_events-rx (received host (opened host ctx))),
        )
  ]
    where
      lines : List Text
      lines = map event_to_turtle (events_of host (opened host ctx))

  on_event-learns :
      (turtle id : Text) (ctx : AntennaContext S D K)
      → contains turtle (codes "carrier:AccountReady") ≡ true
      → ctx.account_id ≡ []
      → extract_property turtle (codes "carrier:account") ≡ some id
      → is_empty id ≡ false
      → (on_event host turtle ctx).account_id ≡ id
  unfolding on_event account_ready learn_account
  on_event-learns turtle id ctx c a p n = rw (c, a, p, n) refl

  -- The event of a ready account tells the account to a runtime that has none.
  pub on_event-account_ready :
      (ev : CarrierEvent) (d : AccountReadyData) (ctx : AntennaContext S D K)
      → ev.event ≡ CarrierEventData.account_ready d
      → cstr_from_buf ev.account_id ≢ []
      → ctx.account_id ≡ []
      → (on_event host (event_to_turtle ev) ctx).account_id
        ≡ turtle_escape (cstr_from_buf ev.account_id)
  on_event-account_ready ev d ctx e h acct =
      on_event-learns (event_to_turtle ev) (turtle_escape (cstr_from_buf ev.account_id)) ctx
        (account_ready-contains ev d e) acct (extract_property-event_to_turtle ev h)
        (turtle_escape_not_empty (cstr_from_buf ev.account_id) h)
