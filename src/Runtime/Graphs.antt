-- ===== src/Runtime/Graphs.antt =====
-- Peers and clients do not reach the named graphs: neither the events of src/lib.rs nor the lines that
-- src/dispatch.rs inserts change them, the trusted pipeline among them.
use antenna.Base.{
  Bool, true, false, List, [], ◌∷◌, ◌++◌, Option, none, some, ◌≡◌, refl, ap, ◌∙◌, inl, inr,
  if◌then◌else◌, Bool-cases,
}
use antenna.Base.Text.{Text, codes, starts_with, contains, text_eq}
use antenna.Base.Result.{Result, ok, err, Result-cases}
use antenna.Dispatch.Design.{send_theme, handle_design}
use antenna.Dispatch.Effect.{Effect, idle, called}
use antenna.Dispatch.Requests.{handle_carrier-Effect}
use antenna.Dispatch.Router.{route, dispatch_stripped, dispatch}
use antenna.Dispatch.Subscribe.{
  apply_message, apply_entries, apply_verified, subscribe, handle_subscribe_blocklist,
  rejected_message, missing_field,
}
use antenna.Dispatch.World.{Env, World, send, send_all, insert_with_dag}
use antenna.Runtime.{
  Host, AntennaContext, publish, on_event, event_loop, drain_events, account_ready,
}
use antenna.Runtime.Trusted.{GraphLaws}
use antenna.Store.{insert_turtle}
use antenna.Theme.{resolve_active_theme}
use antenna.Turtle.{
  sp_ns, carrier_ns, design_ns, antenna_ns, strip_leading_directives, extract_type,
  extract_property,
}

-- The line is a SPIN query or update.
unfoldable pub is_spin_line : Text → Bool
is_spin_line line = elim (extract_type (strip_leading_directives line)) [
  | none ↦ false
  | some rdf_type ↦ starts_with rdf_type sp_ns
]

module _ {S T D K G : Type 0} (env : Env S T D K) (laws : GraphLaws env.oxigraph G)
    (name : Text) where
  -- The graph looks the same in both worlds.
  record SameGraph (w w' : World S D K) : Type 0 where
    same : laws.view name w'.store ≡ laws.view name w.store

  SameGraph-refl : (w : World S D K) → SameGraph w w
  SameGraph-refl w = record { same = refl }

  SameGraph-trans : {u v w : World S D K} → SameGraph u v → SameGraph v w → SameGraph u w
  SameGraph-trans f g = record { same = g.same ∙ f.same }

  if_SameGraph :
      (b : Bool) {w x y : World S D K}
      → SameGraph w x
      → SameGraph w y
      → SameGraph w (if b then x else y)
  if_SameGraph true f g = f
  if_SameGraph false f g = g

  stored : {w w' : World S D K} → w'.store ≡ w.store → SameGraph w w'
  stored e = record { same = ap (laws.view name) e }

  insert_turtle-same :
      (turtle : Text) (s s' : S)
      → insert_turtle env.oxigraph turtle s ≡ ok s'
      → laws.view name s' ≡ laws.view name s
  unfolding insert_turtle
  insert_turtle-same turtle s s' h = laws.default name _ s s' h

  insert_with_dag-SameGraph :
      (line : Text) (w : World S D K) → SameGraph w (insert_with_dag env line w)
  unfolding insert_with_dag send
  insert_with_dag-SameGraph line w = elim (Result-cases (insert_turtle env.oxigraph line w.store)) [
    | inl (s, e) ↦ rw (e, insert_with_dag) (record { same = insert_turtle-same line w.store s e })
    | inr (m, e) ↦ rw (e, insert_with_dag) (record { same = refl })
  ]

  apply_entries-SameGraph :
      (uris : List Text) (w : World S D K) → SameGraph w (apply_entries env uris w)
  unfolding apply_entries
  apply_entries-SameGraph [] w = SameGraph-refl w
  apply_entries-SameGraph (uri ∷ uris) w =
      SameGraph-trans (insert_with_dag-SameGraph (apply_message uri) w)
        (apply_entries-SameGraph uris _)

  apply_verified-SameGraph :
      (r : Result (List Text)) (w : World S D K) → SameGraph w (apply_verified env r w)
  unfolding apply_verified
  apply_verified-SameGraph (ok entries) w = apply_entries-SameGraph entries w
  apply_verified-SameGraph (err e) w = insert_with_dag-SameGraph (rejected_message e) w

  sent : (m : Text) (w : World S D K) → SameGraph w (send m w)
  unfolding send
  sent m w = record { same = refl }

  subscribe-SameGraph :
      (payload sig : Option Text) (w : World S D K) → SameGraph w (subscribe env payload sig w)
  unfolding missing_field
  subscribe-SameGraph (some payload) (some sig) w = apply_verified-SameGraph _ w
  subscribe-SameGraph none sig w = sent _ w
  subscribe-SameGraph (some payload) none w = sent _ w

  send_theme-SameGraph : (w : World S D K) → SameGraph w (send_theme env w)
  unfolding send_theme send send_all
  send_theme-SameGraph w =
      elim (Result-cases (resolve_active_theme env.oxigraph env.theme_fuel w.store)) [
        | inl (ts, e) ↦ rw (e, send_theme) (record { same = refl })
        | inr (m, e) ↦ rw (e, send_theme) (record { same = refl })
      ]

  handle_design-SameGraph :
      (rdf_type : Text) (w : World S D K) → SameGraph w (handle_design env rdf_type w)
  unfolding handle_design
  handle_design-SameGraph rdf_type w = if_SameGraph _ (send_theme-SameGraph w) (sent _ w)

  handle_subscribe_blocklist-SameGraph :
      (line : Text) (w : World S D K) → SameGraph w (handle_subscribe_blocklist env line w)
  unfolding handle_subscribe_blocklist
  handle_subscribe_blocklist-SameGraph line w =
      subscribe-SameGraph (extract_property line (codes "antenna:blocklistPayload"))
        (extract_property line (codes "antenna:blocklistSig")) w

  route-SameGraph :
      (has_carrier : Bool) (line rdf_type account : Text) (w : World S D K)
      → starts_with rdf_type sp_ns ≡ false
      → SameGraph w (route env has_carrier line rdf_type account w)
  unfolding route
  route-SameGraph has_carrier line rdf_type account w h =
      rw (h, route)
        (if_SameGraph (starts_with rdf_type carrier_ns)
          (if_SameGraph has_carrier (commanded (handle_carrier-Effect env line rdf_type account w))
            (SameGraph-refl w))
          (if_SameGraph (starts_with rdf_type design_ns) (handle_design-SameGraph rdf_type w) (
            if_SameGraph (text_eq rdf_type (antenna_ns ++ codes "SubscribeBlocklist"))
              (handle_subscribe_blocklist-SameGraph line w) (insert_with_dag-SameGraph line w))))
    where
      commanded : {w' : World S D K} → Effect env w w' → SameGraph w w'
      commanded (idle s d c ms e one) = stored s
      commanded (called request m s d c e) = stored s

  -- A line that is no SPIN query or update changes no named graph.
  pub dispatch-SameGraph :
      (has_carrier : Bool) (line account : Text) (w : World S D K)
      → is_spin_line line ≡ false
      → laws.view name (dispatch env has_carrier line account w).store ≡ laws.view name w.store
  unfolding dispatch dispatch_stripped is_spin_line
  dispatch-SameGraph has_carrier line account w h =
      (if_SameGraph _ (SameGraph-refl w)
        (if_SameGraph _ (SameGraph-refl w) (typed (extract_type stripped) h))).same
    where
      stripped : Text
      stripped = strip_leading_directives line

      typed :
          (t : Option Text)
          → elim t [ none ↦ false | some rdf_type ↦ starts_with rdf_type sp_ns ] ≡ false
          → SameGraph w (elim t [
            | none ↦ insert_with_dag env stripped w
            | some rdf_type ↦ route env has_carrier stripped rdf_type account w
          ])
      typed none e = insert_with_dag-SameGraph stripped w
      typed (some rdf_type) e = route-SameGraph has_carrier stripped rdf_type account w e

module _ {S T D K G : Type 0} (host : Host S T D K) (laws : GraphLaws host.env.oxigraph G)
    (name : Text) where
  publish-same :
      (turtle : Text) (w : World S D K)
      → laws.view name (publish host turtle w).store ≡ laws.view name w.store
  unfolding publish send
  publish-same turtle w = elim (Result-cases (insert_turtle host.env.oxigraph turtle w.store)) [
    | inl (s, e) ↦ rw (publish, e) (insert_turtle-same host.env laws name turtle w.store s e)
    | inr (m, e) ↦ rw (publish, e) refl
  ]

  on_event-same :
      (turtle : Text) (ctx : AntennaContext S D K)
      → laws.view name (on_event host turtle ctx).world.store ≡ laws.view name ctx.world.store
  unfolding on_event account_ready
  on_event-same turtle ctx = elim (Bool-cases (contains turtle (codes "carrier:AccountReady"))) [
    | inl e ↦ rw (on_event, e) (publish-same turtle (account_ready host turtle ctx).world)
    | inr e ↦ rw (on_event, e) (publish-same turtle ctx.world)
  ]

  event_loop-same :
      (rx : List Text) (ctx : AntennaContext S D K)
      → laws.view name (event_loop host rx ctx).world.store ≡ laws.view name ctx.world.store
  unfolding event_loop
  event_loop-same [] ctx = refl
  event_loop-same (turtle ∷ rx) ctx =
      event_loop-same rx (on_event host turtle ctx) ∙ on_event-same turtle ctx

  -- No event of libcarrier changes a named graph.
  pub drain_events-SameGraph :
      (ctx : AntennaContext S D K)
      → laws.view name (drain_events host ctx).world.store ≡ laws.view name ctx.world.store
  unfolding drain_events
  drain_events-SameGraph ctx =
      event_loop-same ctx.carrier_event_rx (record ctx { carrier_event_rx = [] })
