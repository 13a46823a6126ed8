-- ===== src/Store.antt =====
-- src/store.rs: `RdfStore`, the wrapper round an Oxigraph store. Oxigraph itself is a parameter.
use antenna.Base.{Bool, false, List, ◌++◌, Option, none, some}
use antenna.Base.Text.{Text, codes}
use antenna.Base.Result.{Result, ok, ◌>>=◌}

-- `oxigraph::sparql::QueryResults`, with the results that its iterators give: an item is `none` where
-- reading it fails. A solution lists the variables that are bound.
pub data QueryResults (T : Type 0) : Type 0 where
  solutions : List (Option (List (Text × T))) → QueryResults T
  boolean : Bool → QueryResults T
  graph : List (Option (T × T × T)) → QueryResults T

-- Oxigraph over its own states and terms. What fails leaves the store as it was: an update and a load
-- are transactions.
pub record Oxigraph (S T : Type 0) : Type 0 where
  pub check_iri : Text → Result (Unit {0})
  pub load_from_reader : Option Text → Text → S → Result S
  pub clear_graph : Text → S → Result S
  pub query : Text → S → Result (QueryResults T)
  pub update : Text → S → Result S
  pub show : T → Text
  pub literal : T → Option Text
  pub read_error : Text

-- src/carrier.rs
unfoldable pub turtle_prefixes : Text
turtle_prefixes =
    codes "@prefix carrier: <http://resonator.network/v2/carrier#> .\n"
    ++ codes "@prefix antenna: <http://resonator.network/v2/antenna#> .\n"
    ++ codes "@prefix design: <http://resonator.network/v2/design#> .\n"
    ++ codes "@prefix sp: <http://spinrdf.org/sp#> .\n"
    ++ codes "@prefix spin: <http://spinrdf.org/spin#> .\n"
    ++ codes "@prefix xsd: <http://www.w3.org/2001/XMLSchema#> ."

module _ {S T : Type 0} (ox : Oxigraph S T) where
  unfoldable pub insert_turtle : Text → S → Result S
  insert_turtle turtle s = ox.load_from_reader none (turtle_prefixes ++ turtle ++ codes "\n") s

  unfoldable pub insert_turtle_to_graph : Text → Text → S → Result S
  insert_turtle_to_graph turtle name s = do
    _ ← ox.check_iri name
    ox.load_from_reader (some name) (turtle_prefixes ++ turtle ++ codes "\n") s

  unfoldable pub clear_graph : Text → S → Result S
  clear_graph name s = do _ ← ox.check_iri name; ox.clear_graph name s

  unfoldable pub query : Text → S → Result (QueryResults T)
  query sparql s = ox.query sparql s

  abbrev boolean_of : QueryResults T → Result Bool
  boolean_of (boolean b) = ok b
  boolean_of (solutions rows) = ok false
  boolean_of (graph triples) = ok false

  unfoldable pub ask : Text → S → Result Bool
  unfolding query
  ask sparql s = query sparql s >>= boolean_of

  unfoldable pub update : Text → S → Result S
  update sparql s = ox.update sparql s
