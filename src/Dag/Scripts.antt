-- ===== src/Dag/Scripts.antt =====
-- What src/dag.rs does for its scripts: the answers to their queries (`pump_queries`), the check of
-- the Turtle that a semantic router's model writes (`validate_turtle`), and the names of nodes.
use antenna.Base.{
  ℕ, ◌+◌, ◌≡◌, ◌≢◌, refl, List, [], ◌∷◌, ◌++◌, Option, none, some, length, ◌==◌, if◌then◌else◌,
  arith, inl, inr,
}
use antenna.Base.Text.{Text, codes, trim}
use antenna.Base.Result.{Result, ok, err, Result-cases}
use antenna.Store.{Oxigraph, solutions, boolean, graph, query}

-- The constant of this file, which is not that of the store
abbrev pub turtle_prefixes : Text
turtle_prefixes =
    codes "@prefix res: <https://resonator.network/> .\n"
    ++ codes "@prefix antenna: <http://resonator.network/v2/antenna#> .\n"
    ++ codes "@prefix rdfs: <http://www.w3.org/2000/01/rdf-schema#> .\n"
    ++ codes "@prefix xsd: <http://www.w3.org/2001/XMLSchema#> .\n"
    ++ codes "@prefix rdf: <http://www.w3.org/1999/02/22-rdf-syntax-ns#> .\n"

-- The items that the parser gives, one for each triple, up to the first error; `count` are behind.
unfoldable pub count_triples : List (Result (Unit {0})) → ℕ → Result ℕ
count_triples [] count = ok count
count_triples (ok u ∷ items) count = count_triples items (count + 1)
count_triples (err e ∷ items) count = err (codes "Turtle parse error: " ++ e)

unfoldable pub full_turtle : Text → Text
full_turtle raw = turtle_prefixes ++ codes "\n" ++ trim raw

-- `parse` is Oxigraph's parser.
unfoldable pub validate_turtle : (Text → List (Result (Unit {0}))) → Text → Result Text
unfolding count_triples full_turtle
validate_turtle parse raw = elim (count_triples (parse (full_turtle raw)) 0) [
  | ok count ↦ if count == 0 then err (codes "LLM produced no triples") else ok (full_turtle raw)
  | err e ↦ err e
]

module _ {S T : Type 0} (ox : Oxigraph S T) (named_node : T → Option Text) where
  -- The typed wrappers of a literal are stripped.
  unfoldable pub value_of : T → Text
  value_of term = elim (ox.literal term) [
    | some value ↦ value
    | none ↦ elim (named_node term) [ some iri ↦ iri | none ↦ ox.show term ]
  ]

  unfoldable pub row : List (Text × T) → List (Text × Text)
  unfolding value_of
  row [] = []
  row ((var, term) ∷ solution) = (var, value_of term) ∷ row solution

  -- A solution that cannot be read is passed over.
  unfoldable pub rows : List (Option (List (Text × T))) → List (List (Text × Text))
  unfolding row
  rows [] = []
  rows (none ∷ ss) = rows ss
  rows (some solution ∷ ss) = row solution ∷ rows ss

  unfoldable pub answer : S → Text → List (List (Text × Text))
  unfolding query rows
  answer store sparql = elim (query ox sparql store) [
    | ok results ↦ elim results [ solutions ss ↦ rows ss | boolean b ↦ [] | graph triples ↦ [] ]
    | err e ↦ []
  ]

  -- The requests that wait, each with where its answer goes (an `R`), and the answers sent.
  unfoldable pub pump_queries :
      {R : Type 0} → S → List (Text × R) → List (R × List (List (Text × Text)))
  unfolding answer
  pump_queries store [] = []
  pump_queries store ((sparql, resp_tx) ∷ requests) =
      (resp_tx, answer store sparql) ∷ pump_queries store requests

-- `s.rsplit_once(c)`: the texts round the last `c`
unfoldable pub rsplit_once : ℕ → Text → Option (Text × Text)
rsplit_once c [] = none
rsplit_once c (d ∷ s) = elim (rsplit_once c s) [
  | some p ↦ some (d ∷ p.0, p.1)
  | none ↦ if d == c then some ([], s) else none
]

unfoldable pub short_uri : Text → Text
unfolding rsplit_once
short_uri uri = elim (rsplit_once b'#' uri) [
  | some p ↦ p.1
  | none ↦ elim (rsplit_once b'/' uri) [
    | some p ↦ p.1
    | none ↦ elim (rsplit_once b':' uri) [ some p ↦ p.1 | none ↦ uri ]
  ]
]

-- A text is split at a `c` behind which there is none.
rsplit_once-append :
    (c : ℕ) (s name : Text)
    → rsplit_once c name ≡ none
    → rsplit_once c (s ++ c ∷ name) ≡ some (s, name)
unfolding rsplit_once
rsplit_once-append c [] name h = rw h (ground arith)
rsplit_once-append c (d ∷ s) name h = rw (rsplit_once-append c s name h) refl

-- The name of a node is what stands behind the last number sign of its URI, whatever the namespace is.
pub short_uri-append :
    (namespace name : Text)
    → rsplit_once b'#' name ≡ none
    → short_uri (namespace ++ b'#' ∷ name) ≡ name
unfolding short_uri
short_uri-append namespace name h = rw (short_uri, rsplit_once-append b'#' namespace name h) refl

pub AllOk : List (Result (Unit {0})) → Type 0
AllOk [] = Unit
AllOk (ok u ∷ items) = AllOk items
AllOk (err e ∷ items) = ⊥

count_triples_ok :
    (items : List (Result (Unit {0}))) (count n : ℕ)
    → count_triples items count ≡ ok n
    → AllOk items × (n ≡ count + length items)
unfolding count_triples AllOk
count_triples_ok [] count n h = (tt, ground arith)
count_triples_ok (ok u ∷ items) count n h =
    let (all, e) = count_triples_ok items (count + 1) n h in (all, omega (arith, e))
count_triples_ok (err e ∷ items) count n h = ground arith

-- What passes the check is the model's text behind the prefixes, of which the parser reads every
-- triple, and there is one at least.
pub validate_turtle_ok :
    (parse : Text → List (Result (Unit {0}))) (raw text : Text)
    → validate_turtle parse raw ≡ ok text
    → (text ≡ full_turtle raw)
      × AllOk (parse (full_turtle raw))
      × (length (parse (full_turtle raw)) ≢ 0)
unfolding validate_turtle
validate_turtle_ok parse raw text h =
    elim (Result-cases (count_triples (parse (full_turtle raw)) 0)) [
      | inl (n, e) ↦
          let (all, k) = count_triples_ok (parse (full_turtle raw)) 0 n e in
          (ground (arith, e, h), all, ground (arith, e, h, k))
      | inr (e, k) ↦ absurd (ground (arith, h, k))
    ]
