-- ===== src/Dag/Nodes.antt =====
-- `query_script_nodes` of src/dag.rs: the script nodes that the store defines.
pub mod Channels
use antenna.Base.{Bool, List, [], ◌∷◌, ◌++◌, Option, none, some, if◌then◌else◌}
use antenna.Base.Text.{Text, codes, text_eq}
use antenna.Base.Result.{Result, ok, err}
use antenna.Turtle.{antenna_ns}
use antenna.Theme.{member}
use antenna.Store.{Oxigraph, solutions, boolean, graph, query}

pub record ScriptNodeDef : Type 0 where
  pub uri : Text
  pub body : Text
  pub language : Text
  pub ins : List Text
  pub outs : List Text
  pub where_clause : Option Text

unfoldable pub script_nodes_pattern : Text
script_nodes_pattern =
    codes "?node a antenna:ScriptNode ;\n"
    ++ codes "antenna:scriptSource ?src .\n"
    ++ codes "?src antenna:body ?body .\n"
    ++ codes "OPTIONAL { ?src antenna:language ?language }\n"
    ++ codes "OPTIONAL { ?node antenna:in ?in }\n"
    ++ codes "OPTIONAL { ?node antenna:out ?out }\n"
    ++ codes "OPTIONAL { ?node antenna:where ?where }"

-- `peer_scripting` is the feature that the crate is built with.
unfoldable pub script_nodes_query : Bool → Text
unfolding script_nodes_pattern
script_nodes_query peer_scripting =
    let head =
      codes "PREFIX antenna: <"
      ++ antenna_ns
      ++ codes ">\nSELECT ?node ?body ?language ?in ?out ?where WHERE {\n" in
    if peer_scripting
    then head ++ script_nodes_pattern ++ codes "\n}"
    else head
      ++ codes "GRAPH <urn:resonator:trusted-pipeline> {\n"
      ++ script_nodes_pattern
      ++ codes "\n}\n}"

-- A channel is listed once.
unfoldable pub push_new : Option Text → List Text → List Text
unfolding member
push_new none chs = chs
push_new (some ch) chs = if member ch chs then chs else chs ++ ch ∷ []

-- `solution.get(var)`
unfoldable pub get {ℓ} : {T : Type ℓ} → Text → List (Text × T) → Option T
get var [] = none
get var ((v, t) ∷ solution) = let rest = get var solution in if text_eq v var then some t else rest

unfoldable pub or_else : Option Text → Text → Text
or_else none default = default
or_else (some t) default = t

-- `lexical` gives the text of a literal, a named node or a blank node, and `none` for other terms.
module _ {S T : Type 0} (ox : Oxigraph S T) (lexical : T → Option Text) where
  unfoldable pub optional_term : Option T → Option Text
  optional_term none = none
  optional_term (some t) = lexical t

  unfoldable pub term_to_string : Option T → Text
  unfolding optional_term or_else
  term_to_string t = or_else (optional_term t) []

  unfoldable pub new_node : Text → List (Text × T) → ScriptNodeDef
  unfolding term_to_string get
  new_node uri solution = record {
    uri = uri;
    body = term_to_string (get (codes "body") solution);
    language = or_else (optional_term (get (codes "language") solution)) (codes "javascript");
    ins = [];
    outs = [];
    where_clause = optional_term (get (codes "where") solution);
  }

  unfoldable pub extend : List (Text × T) → ScriptNodeDef → ScriptNodeDef
  unfolding optional_term push_new get
  extend solution node = record node {
    ins = push_new (optional_term (get (codes "in") solution)) node.ins;
    outs = push_new (optional_term (get (codes "out") solution)) node.outs;
  }

  -- The map of nodes by URI, of which the order means nothing: a node that is there is extended, and
  -- one that is not is entered first.
  unfoldable pub enter : Text → List (Text × T) → List ScriptNodeDef → List ScriptNodeDef
  unfolding extend new_node
  enter uri solution [] = extend solution (new_node uri solution) ∷ []
  enter uri solution (node ∷ nodes) =
      let rest = enter uri solution nodes in
      if text_eq node.uri uri then extend solution node ∷ nodes else node ∷ rest

  unfoldable pub node_loop :
      List (Option (List (Text × T))) → List ScriptNodeDef → Result (List ScriptNodeDef)
  unfolding enter
  node_loop [] node_map = ok node_map
  node_loop (none ∷ ss) node_map = err ox.read_error
  node_loop (some solution ∷ ss) node_map =
      node_loop ss (enter (term_to_string (get (codes "node") solution)) solution node_map)

  unfoldable pub query_script_nodes : Bool → S → Result (List ScriptNodeDef)
  unfolding node_loop query script_nodes_query
  query_script_nodes peer_scripting store =
      elim (query ox (script_nodes_query peer_scripting) store) [
        | ok results ↦ elim results [
          | solutions ss ↦ node_loop ss []
          | boolean b ↦ ok []
          | graph triples ↦ ok []
        ]
        | err e ↦ err e
      ]
