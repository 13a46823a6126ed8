-- ===== src/Runtime/Phases.antt =====
-- The phases of a tick of src/lib.rs, and the two ways it can end.
use antenna.Base.{Bool, true, false, List, ◌++◌, ◌≡◌, refl, ap, map}
use antenna.Base.Text.{Text, codes}
use antenna.Base.Result.{ok, err}
use antenna.Base.Numbers.{is_negative, decimal_ℤ}
use antenna.Carrier.Event.{CarrierEvent}
use antenna.Carrier.Event.Turtle.{event_to_turtle}
use antenna.Runtime.{
  Host, AntennaContext, startup, announce, clock, iterate, drain_events, serve, after_iterate, tick,
}

module _ {S T D K : Type 0} (host : Host S T D K) where
  -- Behind the one-shots and the clock
  abbrev pub opened : AntennaContext S D K → AntennaContext S D K
  opened ctx = clock host (announce host (startup host ctx))

  abbrev pub events_of : AntennaContext S D K → List CarrierEvent
  events_of ctx = (host.carrier_iterate ctx.world.carrier.lib).1

  abbrev pub is_failed : AntennaContext S D K → Bool
  is_failed ctx = is_negative (host.carrier_iterate ctx.world.carrier.lib).0

  -- Behind `iterate`
  abbrev pub received : AntennaContext S D K → AntennaContext S D K
  received ctx = record ctx {
    carrier_event_rx = ctx.carrier_event_rx ++ map event_to_turtle (events_of ctx);
    world = record (ctx.world) {
      carrier = record (ctx.world.carrier) { lib = (host.carrier_iterate ctx.world.carrier.lib).2 };
    };
  }

  -- Behind the events, the client's lines and the scripts
  abbrev pub served : List Text → AntennaContext S D K → AntennaContext S D K
  served input ctx = record ctx { world = serve host ctx.account_id input ctx.world }

  abbrev iterate_error : AntennaContext S D K → Text
  iterate_error ctx =
      codes "carrier_iterate returned " ++ decimal_ℤ (host.carrier_iterate ctx.world.carrier.lib).0

  iterate-failed :
      (ctx : AntennaContext S D K)
      → is_failed ctx ≡ true
      → iterate host ctx ≡ (err (iterate_error ctx), received ctx)
  unfolding iterate decimal_ℤ
  iterate-failed ctx h = rw (iterate, h) refl

  iterate-passed :
      (ctx : AntennaContext S D K)
      → is_failed ctx ≡ false
      → iterate host ctx ≡ (ok tt, received ctx)
  unfolding iterate
  iterate-passed ctx h = rw (iterate, h) refl

  pub tick-failed :
      (input : List Text) (ctx : AntennaContext S D K)
      → is_failed (opened ctx) ≡ true
      → tick host input ctx ≡ (err (iterate_error (opened ctx)), received (opened ctx))
  unfolding tick after_iterate
  tick-failed input ctx h = ap (after_iterate host input) (iterate-failed (opened ctx) h)

  pub tick-passed :
      (input : List Text) (ctx : AntennaContext S D K)
      → is_failed (opened ctx) ≡ false
      → tick host input ctx ≡ (ok tt, served input (drain_events host (received (opened ctx))))
  unfolding tick after_iterate
  tick-passed input ctx h = ap (after_iterate host input) (iterate-passed (opened ctx) h)
