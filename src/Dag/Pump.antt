-- ===== src/Dag/Pump.antt =====
-- `pump_emits` and `broadcast` of src/dag.rs: what is delivered, and in which order.
use antenna.Base.{ℕ, ◌≡◌, refl, sym, ap, ap₂, ◌∙◌, List, [], ◌∷◌, ◌++◌, append_assoc, append-nil}
use antenna.Base.Text.{Text}
use antenna.Channel.Endpoint.{Descriptor}
use antenna.Dag.{EmitRoute, Dag, broadcast, to_outs, drain_route, drain_routes, emptied, pump_emits}

-- The broadcasts that waiting messages call for: route by route, message by message, channel by channel.
abbrev pub outs_of : Text → List Text → List (Text × Text)
outs_of turtle [] = []
outs_of turtle (uri ∷ uris) = (uri, turtle) ∷ outs_of turtle uris

abbrev pub deliveries_of : List Text → List Text → List (Text × Text)
deliveries_of out_uris [] = []
deliveries_of out_uris (turtle ∷ rx) = outs_of turtle out_uris ++ deliveries_of out_uris rx

abbrev pub deliveries : List EmitRoute → List (Text × Text)
deliveries [] = []
deliveries (r ∷ routes) = deliveries_of r.out_uris r.rx ++ deliveries routes

abbrev pub waiting : List EmitRoute → List Text
waiting [] = []
waiting (r ∷ routes) = r.rx ++ waiting routes

module _ {F : Type 0} (fd : Descriptor F) (idle : ℕ → ℕ) where
  abbrev pub broadcasts : List (Text × Text) → Dag F → Dag F
  broadcasts [] dag = dag
  broadcasts ((uri, turtle) ∷ ds) dag = broadcasts ds (broadcast fd idle uri turtle dag)

  broadcasts-append :
      (ds es : List (Text × Text)) (dag : Dag F)
      → broadcasts (ds ++ es) dag ≡ broadcasts es (broadcasts ds dag)
  broadcasts-append [] es dag = refl
  broadcasts-append ((uri, turtle) ∷ ds) es dag =
      broadcasts-append ds es (broadcast fd idle uri turtle dag)

  to_outs_lem :
      (uris : List Text) (turtle : Text) (dag : Dag F)
      → to_outs fd idle uris turtle dag ≡ broadcasts (outs_of turtle uris) dag
  unfolding to_outs
  to_outs_lem [] turtle dag = refl
  to_outs_lem (uri ∷ uris) turtle dag = to_outs_lem uris turtle (broadcast fd idle uri turtle dag)

  drain_route_lem :
      (uris rx : List Text) (dag : Dag F)
      → drain_route fd idle uris rx dag ≡ broadcasts (deliveries_of uris rx) dag
  unfolding drain_route
  drain_route_lem uris [] dag = refl
  drain_route_lem uris (turtle ∷ rx) dag =
      ap (drain_route fd idle uris rx) (to_outs_lem uris turtle dag)
      ∙ drain_route_lem uris rx (broadcasts (outs_of turtle uris) dag)
      ∙ sym (broadcasts-append (outs_of turtle uris) (deliveries_of uris rx) dag)

  drain_routes_lem :
      (routes : List EmitRoute) (collected : List Text) (dag : Dag F)
      → drain_routes fd idle routes collected dag
        ≡ (collected ++ waiting routes, broadcasts (deliveries routes) dag)
  unfolding drain_routes
  drain_routes_lem [] collected dag = ap (λ t. (t, dag)) (sym (append-nil collected))
  drain_routes_lem (r ∷ routes) collected dag =
      drain_routes_lem routes (collected ++ r.rx) (drain_route fd idle r.out_uris r.rx dag)
      ∙ ap₂ (λ t d. (t, d)) (append_assoc collected r.rx (waiting routes))
          (ap (broadcasts (deliveries routes)) (drain_route_lem r.out_uris r.rx dag)
            ∙ sym (broadcasts-append (deliveries_of r.out_uris r.rx) (deliveries routes) dag))

  -- A pump returns every message that waits, in the order of the routes, each once; it broadcasts each
  -- of them on each channel of its route, in that order; and then no message waits.
  pub pump_emits_lem :
      (dag : Dag F)
      → ((pump_emits fd idle dag).0 ≡ waiting dag.emit_routes)
        × ((pump_emits fd idle dag).1.channel_writers
            ≡ (broadcasts (deliveries dag.emit_routes) dag).channel_writers)
        × (waiting (pump_emits fd idle dag).1.emit_routes ≡ [])
  unfolding pump_emits
  pump_emits_lem dag = (
    ap (λ p. p.0) (drain_routes_lem dag.emit_routes [] dag),
    ap (λ p. p.1.channel_writers) (drain_routes_lem dag.emit_routes [] dag),
    none_wait dag.emit_routes,
  )
    where
      none_wait : (routes : List EmitRoute) → waiting (emptied fd idle routes) ≡ []
      none_wait [] = refl
      none_wait (r ∷ routes) = none_wait routes
