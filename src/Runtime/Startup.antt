-- ===== src/Runtime/Startup.antt =====
-- The one-shots of the first tick of src/lib.rs happen once, and the account does not change any more
-- once it is known.
use antenna.Base.{
  true, false, Option, some, ap, List, [], ◌∷◌, none, ◌≡◌, ◌≢◌, refl, sym, ◌∙◌, inl, inr,
  Bool-cases, arith,
}
use antenna.Base.Text.{Text, codes}
use antenna.Base.Result.{Result, ok, err}
use antenna.Carrier.Account.{load_account}
use antenna.Dispatch.Router.{dispatch}
use antenna.Dispatch.World.{World}
use antenna.Runtime.{
  Host, AntennaContext, load_pending, startup, publish, iterate, after_iterate, announce, clock,
  learn_account, account_ready, on_event, event_loop, drain_events, tick, go_on, run,
}
use antenna.Runtime.Phases.{opened, is_failed, received, tick-failed, tick-passed}

module _ {S D K : Type 0} where
  -- Nothing of the first tick is left to do.
  abbrev pub IsStarted : AntennaContext S D K → Type 0
  IsStarted ctx =
      (ctx.startup_emitted ≡ true) × (ctx.bootstrap_emit ≡ none) × (ctx.pending_account_load ≡ none)

module _ {S T D K : Type 0} (host : Host S T D K) where
  load_pending-none :
      (ctx : AntennaContext S D K) → (load_pending host ctx).pending_account_load ≡ none
  unfolding load_pending
  load_pending-none ctx = ground arith

  -- Nothing that a tick does later changes the flags.
  abbrev SameFlags : AntennaContext S D K → AntennaContext S D K → Type 0
  SameFlags a b =
      (b.startup_emitted ≡ a.startup_emitted)
      × (b.bootstrap_emit ≡ a.bootstrap_emit)
      × (b.pending_account_load ≡ a.pending_account_load)

  announced :
      (ctx : AntennaContext S D K)
      → ctx.startup_emitted ≡ false
      → IsStarted (announce host (startup host ctx))
  unfolding announce startup load_pending
  announced ctx h = ground arith

  SameFlags-trans : (a b c : AntennaContext S D K) → SameFlags a b → SameFlags b c → SameFlags a c
  SameFlags-trans a b c (s, e, p) (s', e', p') = (s' ∙ s, e' ∙ e, p' ∙ p)

  on_event-SameFlags :
      (turtle : Text) (ctx : AntennaContext S D K) → SameFlags ctx (on_event host turtle ctx)
  unfolding on_event account_ready
  on_event-SameFlags turtle ctx = ground arith

  event_loop-SameFlags :
      (rx : List Text) (ctx : AntennaContext S D K) → SameFlags ctx (event_loop host rx ctx)
  unfolding event_loop
  event_loop-SameFlags [] ctx = (refl, refl, refl)
  event_loop-SameFlags (turtle ∷ rx) ctx =
      SameFlags-trans ctx (on_event host turtle ctx) (event_loop host rx (on_event host turtle ctx))
        (on_event-SameFlags turtle ctx) (event_loop-SameFlags rx (on_event host turtle ctx))

  drain_events-SameFlags : (ctx : AntennaContext S D K) → SameFlags ctx (drain_events host ctx)
  unfolding drain_events
  drain_events-SameFlags ctx =
      event_loop-SameFlags ctx.carrier_event_rx (record ctx { carrier_event_rx = [] })

  tick-SameFlags :
      (input : List Text) (ctx : AntennaContext S D K)
      → SameFlags (announce host (startup host ctx)) (tick host input ctx).1
  unfolding clock
  tick-SameFlags input ctx = elim (Bool-cases (is_failed host (opened host ctx))) [
    | inl e ↦ rw (tick-failed host input ctx e) (refl, refl, refl)
    | inr e ↦
        rw (tick-passed host input ctx e) (drain_events-SameFlags (received host (opened host ctx)))
  ]

  -- Once nothing of the first tick is left, a tick begins with the clock.
  steady : (ctx : AntennaContext S D K) → IsStarted ctx → announce host (startup host ctx) ≡ ctx
  unfolding announce startup
  steady ctx (s, b, p) = ground arith

  -- The theme is resolved for the account; then the account that waits, if any, is loaded; and then the
  -- message that waits, if any, is published.
  abbrev loaded : Option Text → World S D K → World S D K
  loaded none w = w
  loaded (some id) w = record w { carrier = (load_account host.env.api id w.carrier).1 }

  abbrev published : Option Text → World S D K → World S D K
  published none w = w
  published (some turtle) w = publish host turtle w

  -- A runtime for which all this is done
  abbrev pub started : AntennaContext S D K → AntennaContext S D K
  started ctx = record ctx {
    startup_emitted = true;
    pending_account_load = none;
    bootstrap_emit = none;
    world = published ctx.bootstrap_emit (
        loaded ctx.pending_account_load (
          dispatch host.env true (codes "[] a design:ResolveActiveTheme .") ctx.account_id
            ctx.world));
  }

  startup-started :
      (ctx : AntennaContext S D K)
      → ctx.startup_emitted ≡ false
      → announce host (startup host ctx) ≡ started ctx
  unfolding announce startup load_pending
  startup-started ctx h = ground arith

  -- The first tick is an ordinary tick of a runtime for which the theme is resolved, the account that
  -- waited is loaded and the message that waited is published, in this order; an ordinary tick repeats
  -- none of it, and every tick behind the first is one, whatever the first returns.
  pub tick-IsStarted :
      (input : List Text) (ctx : AntennaContext S D K)
      → ctx.startup_emitted ≡ false
      → (tick host input ctx ≡ tick host input (started ctx))
        × (announce host (startup host (started ctx)) ≡ started ctx)
        × IsStarted (tick host input ctx).1
        × (announce host (startup host (tick host input ctx).1) ≡ (tick host input ctx).1)
  unfolding tick
  tick-IsStarted input ctx f =
      let (s, b, p) = tick-SameFlags input ctx in
      let (s', b', p') = announced ctx f in
      let done : IsStarted (tick host input ctx).1 = (s ∙ s', b ∙ b', p ∙ p') in
      let same = steady (started ctx) (refl, refl, refl) in
      (
        ap (λ c. after_iterate host input (iterate host (clock host c)))
            (startup-started ctx f ∙ sym same),
        same,
        done,
        steady (tick host input ctx).1 done,
      )

  -- What may change of the account: an empty one may be learnt.
  abbrev SameAccount : AntennaContext S D K → AntennaContext S D K → Type 0
  SameAccount a b = a.account_id ≢ [] → b.account_id ≡ a.account_id

  on_event-SameAccount :
      (turtle : Text) (ctx : AntennaContext S D K) → SameAccount ctx (on_event host turtle ctx)
  unfolding on_event account_ready learn_account
  on_event-SameAccount turtle ctx h = ground arith

  event_loop-SameAccount :
      (rx : List Text) (ctx : AntennaContext S D K) → SameAccount ctx (event_loop host rx ctx)
  unfolding event_loop
  event_loop-SameAccount [] ctx h = refl
  event_loop-SameAccount (turtle ∷ rx) ctx h =
      let e = on_event-SameAccount turtle ctx h in
      event_loop-SameAccount rx (on_event host turtle ctx) (λ e'. h (sym e ∙ e')) ∙ e

  opened-account : (ctx : AntennaContext S D K) → (opened host ctx).account_id ≡ ctx.account_id
  unfolding announce startup load_pending clock
  opened-account ctx = ground arith

  drain_events-SameAccount : (ctx : AntennaContext S D K) → SameAccount ctx (drain_events host ctx)
  unfolding drain_events
  drain_events-SameAccount ctx =
      event_loop-SameAccount ctx.carrier_event_rx (record ctx { carrier_event_rx = [] })

  tick-SameAccount :
      (input : List Text) (ctx : AntennaContext S D K) → SameAccount ctx (tick host input ctx).1
  tick-SameAccount input ctx h = elim (Bool-cases (is_failed host (opened host ctx))) [
    | inl e ↦ rw (tick-failed host input ctx e) (opened-account ctx)
    | inr e ↦ rw (tick-passed host input ctx e) (
        drain_events-SameAccount (received host (opened host ctx))
          (λ e'. h (sym (opened-account ctx) ∙ e'))
        ∙ opened-account ctx)
  ]

  -- Once the account is known, no sequence of ticks changes it.
  pub run-account_id :
      (inputs : List (List Text)) (ctx : AntennaContext S D K)
      → ctx.account_id ≢ []
      → (run host inputs ctx).1.account_id ≡ ctx.account_id
  unfolding run
  run-account_id [] ctx h = refl
  run-account_id (input ∷ inputs) ctx h =
      let e = tick-SameAccount input ctx h in
      ends (tick host input ctx) _ e
        (run-account_id inputs (tick host input ctx).1 (λ e'. h (sym e ∙ e')) ∙ e)
    where
      ends :
          (t rest : Result (Unit {0}) × AntennaContext S D K)
          → t.1.account_id ≡ ctx.account_id
          → rest.1.account_id ≡ ctx.account_id
          → (go_on host t rest).1.account_id ≡ ctx.account_id
      ends (err m, c) rest e f = e
      ends (ok _, c) rest e f = f
