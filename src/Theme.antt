-- ===== src/Theme.antt =====
-- src/theme.rs: the resolver of the active theme, over the store's queries.
pub mod Distinct
pub mod Walk
mod Tests
use antenna.Base.{
  ℕ, zero, suc, ◌+◌, Bool, true, false, ◌||◌, List, [], ◌∷◌, ◌++◌, Option, none, some,
  if◌then◌else◌,
}
use antenna.Base.Text.{Text, codes, text_eq, replace, join}
use antenna.Base.Result.{Result, ok, err, ◌>>=◌}
use antenna.Base.Numbers.{decimal}
use antenna.Store.{Oxigraph, QueryResults, solutions, boolean, graph, query, insert_turtle_to_graph}

unfoldable pub theme_graph : Text
theme_graph = codes "urn:design:theme"

unfoldable pub design_iri : Text
design_iri = codes "http://resonator.network/v2/design#"

unfoldable pub resolver_queries : List Text
resolver_queries =
    codes "urn:resolver:theme/role-bindings"
    ∷ codes "urn:resolver:theme/has-token"
    ∷ codes "urn:resolver:theme/stroke-width"
    ∷ []

-- `sol.get(var)`
unfoldable pub binding {ℓ} : {T : Type ℓ} → List (Text × T) → Text → Option T
binding [] var = none
binding ((v, t) ∷ row) var = let rest = binding row var in if text_eq v var then some t else rest

unfoldable pub member : Text → List Text → Bool
member x [] = false
member x (y ∷ ys) = text_eq x y || member x ys

abbrev pub Triple : Type 0 → Type 0
Triple T = T × T × T

module _ {S T : Type 0} (ox : Oxigraph S T) where
  -- The first item of an iterator, read with `?`.
  abbrev first_row : QueryResults T → Result (Option (List (Text × T)))
  first_row (solutions []) = ok none
  first_row (solutions (none ∷ rows)) = err ox.read_error
  first_row (solutions (some row ∷ rows)) = ok (some row)
  first_row (boolean b) = ok none
  first_row (graph triples) = ok none

  abbrev show_binding : Text → Option (List (Text × T)) → Option Text
  show_binding var none = none
  show_binding var (some row) = elim (binding row var) [ none ↦ none | some t ↦ some (ox.show t) ]

  unfoldable pub first_binding : Text → Text → S → Result (Option Text)
  first_binding sparql var s = do
    results ← query ox sparql s
    row ← first_row results
    ok (show_binding var row)

  unfoldable pub radio_query : Text
  radio_query =
      codes
        "PREFIX radio: <http://resonator.network/v2/radio#> SELECT ?t WHERE { ?_r radio:hasTheme ?t } LIMIT 1"

  unfoldable pub active_query : Text
  active_query =
      codes "PREFIX design: <"
      ++ design_iri
      ++ codes "> SELECT ?t WHERE { GRAPH <"
      ++ theme_graph
      ++ codes "> { ?t a design:Theme ; design:active true } } LIMIT 1"

  unfoldable pub active_theme_iri : S → Result (Option Text)
  active_theme_iri s = do
    radio ← first_binding radio_query (codes "t") s
    elim radio [ some iri ↦ ok (some iri) | none ↦ first_binding active_query (codes "t") s ]

  unfoldable pub parent_query : Text → Text
  parent_query cur =
      codes "PREFIX design: <"
      ++ design_iri
      ++ codes "> SELECT ?p WHERE { GRAPH <"
      ++ theme_graph
      ++ codes "> { "
      ++ cur
      ++ codes " design:extends ?p } } LIMIT 1"

  -- The one-hop lookup of the chain walk.
  unfoldable pub parent_of : Text → S → Result (Option Text)
  parent_of cur s = first_binding (parent_query cur) (codes "p") s

  -- The walk along `design:extends`; `cur` is the last of `chain`. Each round adds a theme that the
  -- chain lacks, so the number of themes bounds the rounds.
  unfoldable pub chain_loop : ℕ → List Text → Text → S → Result (List Text)
  chain_loop zero chain cur s = ok chain
  chain_loop (suc fuel) chain cur s = elim (parent_of cur s) [
    | err e ↦ err e
    | ok none ↦ ok chain
    | ok (some parent) ↦
        let rest = chain_loop fuel (chain ++ parent ∷ []) parent s in
        if member parent chain then ok chain else rest
  ]

-- `.enumerate().map(|(depth, iri)| format!("({iri} {depth})"))`
unfoldable pub rows_from : ℕ → List Text → List Text
rows_from depth [] = []
rows_from depth (iri ∷ iris) =
    (codes "(" ++ iri ++ codes " " ++ decimal depth ++ codes ")") ∷ rows_from (depth + 1) iris

unfoldable pub bind_query : Text → Text → Text → Text
bind_query sparql active chain =
    replace (replace sparql (codes "@@ACTIVE@@") active) (codes "@@CHAIN@@") chain

module _ {S T : Type 0} (ox : Oxigraph S T) where
  unfoldable pub load_resolver_str : Text → S → Result S
  load_resolver_str ttl s = insert_turtle_to_graph ox ttl theme_graph s

  -- `load_resolver`: `read` is the text of the file, or the error of reading it.
  unfoldable pub load_resolver : (Text → Result Text) → Text → S → Result S
  load_resolver read path s = do ttl ← read path; insert_turtle_to_graph ox ttl theme_graph s

module _ {S T : Type 0} (ox : Oxigraph S T) (fuel : ℕ) where
  unfoldable pub ancestor_chain_values : Text → S → Result Text
  unfolding rows_from
  ancestor_chain_values active s = do
    chain ← chain_loop ox fuel (active ∷ []) active s
    ok (join (codes " ") (rows_from 0 chain))

  abbrev text_of : T → Text
  text_of t = elim (ox.literal t) [ none ↦ ox.show t | some v ↦ v ]

  unfoldable pub fetch_query_text : Text → S → Result Text
  fetch_query_text iri s = do
    results ←
        query ox
          (codes "PREFIX sp: <http://spinrdf.org/sp#> SELECT ?text WHERE { GRAPH <"
            ++ theme_graph
            ++ codes "> { <"
            ++ iri
            ++ codes "> sp:text ?text } }")
          s
    row ← first_row ox results
    elim row [
      | none ↦ err (codes "resolver query not found: " ++ iri)
      | some r ↦ elim (binding r (codes "text")) [
        | none ↦ err (codes "?text unbound for " ++ iri)
        | some t ↦ ok (text_of t)
      ]
    ]

  -- `out.push(t?)` for each triple
  abbrev collect : List (Option (Triple T)) → List (Triple T) → Result (List (Triple T))
  collect [] out = ok out
  collect (none ∷ ts) out = err ox.read_error
  collect (some t ∷ ts) out = collect ts (out ++ t ∷ [])

  abbrev triples_of : List (Triple T) → QueryResults T → Result (List (Triple T))
  triples_of out (graph ts) = collect ts out
  triples_of out (solutions rows) = err (codes "resolver query did not return a CONSTRUCT result")
  triples_of out (boolean b) = err (codes "resolver query did not return a CONSTRUCT result")

  unfoldable pub run_construct : Text → S → List (Triple T) → Result (List (Triple T))
  run_construct sparql s out = query ox sparql s >>= triples_of out

  -- The `for` over the resolver queries
  unfoldable pub run_queries :
      List Text → Text → Text → S → List (Triple T) → Result (List (Triple T))
  unfolding fetch_query_text run_construct
  run_queries [] active chain s out = ok out
  run_queries (iri ∷ iris) active chain s out = do
    sparql ← fetch_query_text iri s
    more ← run_construct (bind_query sparql active chain) s out
    run_queries iris active chain s more

  unfoldable pub resolve_active_theme : S → Result (List (Triple T))
  unfolding ancestor_chain_values run_queries
  resolve_active_theme s = do
    active ← active_theme_iri ox s
    elim active [
      | none ↦ ok []
      | some iri ↦
          (ancestor_chain_values iri s >>= λ chain. run_queries resolver_queries iri chain s [])
    ]
