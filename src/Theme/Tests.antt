-- ===== src/Theme/Tests.antt =====
-- The walk of src/theme.rs on a cyclic store.
use antenna.Base.{true, List, [], ◌∷◌, none, some, ◌≡◌, refl, arith, subst}
use antenna.Base.Text.{Text, codes, text_eq}
use antenna.Base.Result.{ok}
use antenna.Store.{Oxigraph, solutions, query}
use antenna.Theme.{member, parent_of, chain_loop, first_binding, binding}
use antenna.Theme.Walk.{Outcome, chain_loop_lem}

-- Every theme extends `<urn:b>`, `<urn:b>` too.
abbrev cyclic : Oxigraph (Unit {0}) Text
cyclic = record {
  check_iri = λ i. ok tt;
  load_from_reader = λ g t s. ok s;
  clear_graph = λ g s. ok s;
  query = λ q s. ok (solutions (some ((codes "p", codes "<urn:b>") ∷ []) ∷ []));
  update = λ q s. ok s;
  show = λ t. t;
  literal = λ t. none;
  read_error = codes "row";
}

abbrev themes : List Text
themes = codes "<urn:a>" ∷ codes "<urn:b>" ∷ []

walks : chain_loop cyclic 2 (codes "<urn:a>" ∷ []) (codes "<urn:a>") tt ≡ ok themes
unfolding chain_loop parent_of first_binding query binding text_eq member
walks = refl

closed : (cur p : Text) → parent_of cyclic cur tt ≡ ok (some p) → member p themes ≡ true
unfolding parent_of first_binding query binding text_eq member
closed cur p h = subst (λ x. member x themes ≡ true) same refl
  where
    same : codes "<urn:b>" ≡ p
    same = cc

known : member (codes "<urn:a>") themes ≡ true
unfolding member text_eq
known = refl

chain_loop_lem_example :
    Outcome cyclic tt
      (codes "<urn:a>")
      (chain_loop cyclic 2 (codes "<urn:a>" ∷ []) (codes "<urn:a>") tt)
chain_loop_lem_example =
    chain_loop_lem cyclic tt themes (codes "<urn:a>") closed 2 (omega arith) known
