-- ===== src/Runtime/Trusted.antt =====
-- The trusted graph of src/lib.rs holds the reviewed pipeline and nothing else.
use antenna.Base.{◌++◌, none, some, ◌≡◌, refl, ap, ◌∙◌, arith}
use antenna.Base.Text.{Text, codes}
use antenna.Base.Result.{Result, ok, err, ◌>>=◌}
use antenna.Runtime.Boot.{
  replace_pipeline, settle, then_do, trusted_pipeline_graph, pipeline_reset_nodes,
  pipeline_reset_sources,
}
use antenna.Store.{
  Oxigraph, insert_turtle, insert_turtle_to_graph, clear_graph, update, turtle_prefixes,
}

-- What Oxigraph documents of named graphs: a graph that is cleared is empty, Turtle that is loaded into
-- a graph is added to it, and a load into the default graph leaves the named graphs as they are.
pub record GraphLaws {S T : Type 0} (ox : Oxigraph S T) (G : Type 0) : Type 1 where
  pub view : Text → S → G
  pub empty : G
  pub add : Text → G → G
  pub cleared : (name : Text) (s s' : S) → ox.clear_graph name s ≡ ok s' → view name s' ≡ empty
  pub loaded :
      (name ttl : Text) (s s' : S)
      → ox.load_from_reader (some name) ttl s ≡ ok s'
      → view name s' ≡ add ttl (view name s)
  pub default :
      (name ttl : Text) (s s' : S)
      → ox.load_from_reader none ttl s ≡ ok s'
      → view name s' ≡ view name s

module _ {S T G : Type 0} (ox : Oxigraph S T) (laws : GraphLaws ox G) where
  -- A call that ends well was made behind calls that ended well.
  then_do-ok :
      (f : S → Result S) (r : Result (Unit {0}) × S)
      → (then_do f r).0 ≡ ok tt
      → (r.0 ≡ ok tt) × (f r.1 ≡ ok (then_do f r).1)
  then_do-ok f (err e, s) h = cc
  then_do-ok f (ok tt, s) h = (refl, settled (f s) h)
    where
      settled : (r : Result S) → (settle s r).0 ≡ ok tt → r ≡ ok (settle s r).1
      settled (ok s') k = refl
      settled (err m) k = cc

  checked :
      (name : Text) (f : Result S) (s' : S) → (ox.check_iri name >>= λ _. f) ≡ ok s' → f ≡ ok s'
  checked name f s' h = ground arith

  -- A pipeline that is replaced without an error is all that the trusted graph holds, whatever the store
  -- held before.
  pub replace_pipeline-trusted :
      (ttl : Text) (s : S)
      → (replace_pipeline ox ttl s).0 ≡ ok tt
      → laws.view trusted_pipeline_graph (replace_pipeline ox ttl s).1
        ≡ laws.add (turtle_prefixes ++ ttl ++ codes "\n") laws.empty
  unfolding replace_pipeline insert_turtle_to_graph clear_graph
  replace_pipeline-trusted ttl s h =
      let inserted =
        then_do-ok (insert_turtle_to_graph ox ttl trusted_pipeline_graph) cleared_store h in
      let cleared = then_do-ok (clear_graph ox trusted_pipeline_graph) loaded_store inserted.0 in
      laws.loaded trusted_pipeline_graph (turtle_prefixes ++ ttl ++ codes "\n") cleared_store.1 _
        (checked trusted_pipeline_graph _ _ inserted.1)
      ∙ ap (laws.add (turtle_prefixes ++ ttl ++ codes "\n")) (
          laws.cleared trusted_pipeline_graph loaded_store.1 _
            (checked trusted_pipeline_graph _ _ cleared.1))
    where
      loaded_store : Result (Unit {0}) × S
      loaded_store = then_do (insert_turtle ox ttl) (
          then_do (update ox pipeline_reset_sources)
            (then_do (update ox pipeline_reset_nodes) (ok tt, s)))

      cleared_store : Result (Unit {0}) × S
      cleared_store = then_do (clear_graph ox trusted_pipeline_graph) loaded_store
