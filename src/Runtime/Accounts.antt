-- ===== src/Runtime/Accounts.antt =====
-- The creation of an `AntennaContext` in src/lib.rs, and the account that its runs use.
use antenna.Base.{true, false, List, [], ◌∷◌, Option, none, some, ◌≡◌, ◌≢◌, refl, sym, ◌∙◌, arith}
use antenna.Base.Text.{Text, codes}
use antenna.Base.Result.{Result, ok, err, ◌>>=◌}
use antenna.Carrier.{CarrierApi, CarrierClient}
use antenna.Carrier.Account.{load_account}
use antenna.Dispatch.Router.{dispatch}
use antenna.Dispatch.World.{World}
use antenna.Runtime.{Host, AntennaContext, run, tick}
use antenna.Runtime.Boot.{Setup, load_store, client_new, bootstrap, new_with_ttl}
use antenna.Runtime.Startup.{IsStarted, started, tick-IsStarted, run-account_id}
use antenna.Store.{Oxigraph}

bind_ok {ℓ κ} :
    {A : Type ℓ} {B : Type κ} (r : Result A) (f : A → Result B) (b : B)
    → (r >>= f) ≡ ok b
    → (a : A) × (r ≡ ok a) × (f a ≡ ok b)
bind_ok (ok a) f b h = (a, refl, h)
bind_ok (err e) f b h = cc

module _ {S T D K : Type 0} (host : Host S T D K) where
  -- The world behind the theme and the load of the account `id`
  abbrev pub first_world : Text → World S D K → World S D K
  first_world id w =
      let resolved = dispatch host.env true (codes "[] a design:ResolveActiveTheme .") id w in
      record resolved { carrier = (load_account host.env.api id resolved.carrier).1 }

  started-world :
      (id : Text) (ctx : AntennaContext S D K)
      → ctx.account_id ≡ id
      → (ctx.pending_account_load ≡ some id) × (ctx.bootstrap_emit ≡ none)
      → (started host ctx).world ≡ first_world id ctx.world
  started-world id ctx e (p, b) = rw (p, b, e) refl

module _ {S T D K : Type 0} (ox : Oxigraph S T) (api : CarrierApi K) (setup : Setup S D K) where
  bootstrap-fresh :
      (account_id : Option Text) (s : S) (d : D) (client : CarrierClient K)
      (ctx : AntennaContext S D K)
      → bootstrap ox api setup account_id s d client ≡ ok ctx
      → ctx.startup_emitted ≡ false
  unfolding bootstrap
  bootstrap-fresh none s d client ctx h = ground arith
  bootstrap-fresh (some id) s d client ctx h = ground arith

  -- The load of a given account waits, and no message does.
  bootstrap-waits :
      (id : Text) (s : S) (d : D) (client : CarrierClient K) (ctx : AntennaContext S D K)
      → id ≢ []
      → bootstrap ox api setup (some id) s d client ≡ ok ctx
      → (ctx.pending_account_load ≡ some id) × (ctx.bootstrap_emit ≡ none)
  unfolding bootstrap
  bootstrap-waits [] s d client ctx ne h = absurd (ne refl)
  bootstrap-waits (c ∷ id) s d client ctx ne h = ground arith

  bootstrap-account_id :
      (id : Text) (s : S) (d : D) (client : CarrierClient K) (ctx : AntennaContext S D K)
      → id ≢ []
      → bootstrap ox api setup (some id) s d client ≡ ok ctx
      → ctx.account_id ≡ id
  unfolding bootstrap
  bootstrap-account_id [] s d client ctx ne h = absurd (ne refl)
  bootstrap-account_id (c ∷ id) s d client ctx ne h = ground arith

  -- A runtime that is made for an account that is not empty loads that account in its first tick, behind
  -- the theme: that tick is an ordinary tick of the runtime for which both are done. And the account
  -- stays the same through all ticks.
  pub new_with_ttl-account :
      (host : Host S T D K) (data_dir id : Text) (store_path pipeline_ttl seed_ttl : Option Text)
      (ctx : AntennaContext S D K) (input : List Text) (inputs : List (List Text))
      → id ≢ []
      → new_with_ttl ox api setup data_dir (some id) store_path pipeline_ttl seed_ttl ≡ ok ctx
      → (tick host input ctx ≡ tick host input (started host ctx))
        × ((started host ctx).world ≡ first_world host id ctx.world)
        × IsStarted (started host ctx)
        × ((run host inputs ctx).1.account_id ≡ id)
  unfolding new_with_ttl
  new_with_ttl-account host data_dir id store_path pipeline_ttl seed_ttl ctx input inputs ne h =
      let (s, _, h') = bind_ok (load_store ox api setup store_path pipeline_ttl seed_ttl) _ ctx h in
      let (d, _, h'') = bind_ok (setup.load_dag s) _ ctx h' in
      let (client, _, b) = bind_ok (client_new ox api setup data_dir) _ ctx h'' in
      let e = bootstrap-account_id id s d client ctx ne b in
      (
        (tick-IsStarted host input ctx (bootstrap-fresh (some id) s d client ctx b)).0,
        started-world host id ctx e (bootstrap-waits id s d client ctx ne b),
        (refl, refl, refl),
        run-account_id host inputs ctx (λ e'. ne (sym e ∙ e')) ∙ e,
      )
