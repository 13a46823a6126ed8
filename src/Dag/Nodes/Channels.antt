-- ===== src/Dag/Nodes/Channels.antt =====
-- The script nodes that `query_script_nodes` of src/dag.rs collects from the rows of its query.
use antenna.Base.{◌≡◌, subst, Bool, List, [], ◌∷◌, Option, none, some, Bool-cases, inl, inr, arith}
use antenna.Base.Text.{Text, codes, text_eq}
use antenna.Base.Result.{Result, ok, err}
use antenna.Theme.{member}
use antenna.Theme.Distinct.{IsDistinct, snoc-IsDistinct}
use antenna.Store.{Oxigraph, QueryResults, solutions, boolean, graph, query}
use antenna.Dag.Nodes.{
  ScriptNodeDef, push_new, get, term_to_string, optional_term, new_node, extend, enter, node_loop,
  query_script_nodes, script_nodes_query,
}

push_new-IsDistinct :
    (o : Option Text) (chs : List Text) → IsDistinct chs → IsDistinct (push_new o chs)
unfolding push_new
push_new-IsDistinct none chs h = h
push_new-IsDistinct (some ch) chs h = elim (Bool-cases (member ch chs)) [
  | inl e ↦ rw e h
  | inr e ↦ rw e (snoc-IsDistinct chs ch h e)
]

-- No node lists a channel twice.
pub AllDistinct : List ScriptNodeDef → Type 0
AllDistinct [] = Unit
AllDistinct (node ∷ nodes) = IsDistinct node.ins × IsDistinct node.outs × AllDistinct nodes

module _ {S T : Type 0} (ox : Oxigraph S T) (lexical : T → Option Text) where
  extend_ins :
      (solution : List (Text × T)) (node : ScriptNodeDef)
      → IsDistinct node.ins
      → IsDistinct (extend ox lexical solution node).ins
  unfolding extend
  extend_ins solution node h =
      push_new-IsDistinct (optional_term ox lexical (get (codes "in") solution)) node.ins h

  extend_outs :
      (solution : List (Text × T)) (node : ScriptNodeDef)
      → IsDistinct node.outs
      → IsDistinct (extend ox lexical solution node).outs
  unfolding extend
  extend_outs solution node h =
      push_new-IsDistinct (optional_term ox lexical (get (codes "out") solution)) node.outs h

  enter-AllDistinct :
      (uri : Text) (solution : List (Text × T)) (nodes : List ScriptNodeDef)
      → AllDistinct nodes
      → AllDistinct (enter ox lexical uri solution nodes)
  unfolding enter AllDistinct
  enter-AllDistinct uri solution [] h = (
    extend_ins solution (new_node ox lexical uri solution) (unfold new_node in tt),
    extend_outs solution (new_node ox lexical uri solution) (unfold new_node in tt),
    tt,
  )
  enter-AllDistinct uri solution (node ∷ nodes) (hi, ho, h) =
      elim (Bool-cases (text_eq node.uri uri)) [
        | inl e ↦ rw (AllDistinct, e) (extend_ins solution node hi, extend_outs solution node ho, h)
        | inr e ↦ rw (AllDistinct, e) (hi, ho, enter-AllDistinct uri solution nodes h)
      ]

  node_loop-AllDistinct :
      (ss : List (Option (List (Text × T)))) (nodes found : List ScriptNodeDef)
      → AllDistinct nodes
      → node_loop ox lexical ss nodes ≡ ok found
      → AllDistinct found
  unfolding node_loop
  node_loop-AllDistinct [] nodes found h e = subst AllDistinct (ok-inj e) h
    where
      ok-inj :
          {a b : List ScriptNodeDef} → ◌≡◌ {A = Result (List ScriptNodeDef)} (ok a) (ok b) → a ≡ b
      ok-inj k = cc
  node_loop-AllDistinct (none ∷ ss) nodes found h e = ground arith
  node_loop-AllDistinct (some solution ∷ ss) nodes found h e =
      let uri = term_to_string ox lexical (get (codes "node") solution) in
      node_loop-AllDistinct ss (enter ox lexical uri solution nodes) found
        (enter-AllDistinct uri solution nodes h) e

  -- No script node that is loaded lists a channel twice, in either direction.
  pub query_script_nodes-AllDistinct :
      (peer_scripting : Bool) (store : S) (found : List ScriptNodeDef)
      → query_script_nodes ox lexical peer_scripting store ≡ ok found
      → AllDistinct found
  unfolding query_script_nodes
  query_script_nodes-AllDistinct peer_scripting store found h =
      go (query ox (script_nodes_query peer_scripting) store) h
    where
      go :
          (r : Result (QueryResults T))
          → (elim r [
            | ok results ↦ elim results [
              | solutions ss ↦ node_loop ox lexical ss []
              | boolean b ↦ ok []
              | graph triples ↦ ok []
            ]
            | err e ↦ err e
          ])
            ≡ ok found
          → AllDistinct found
      go (ok (solutions ss)) e = node_loop-AllDistinct ss [] found (unfold AllDistinct in tt) e
      go (ok (boolean b)) e =
          node_loop-AllDistinct [] [] found (unfold AllDistinct in tt) (unfold node_loop in e)
      go (ok (graph triples)) e =
          node_loop-AllDistinct [] [] found (unfold AllDistinct in tt) (unfold node_loop in e)
      go (err t) e = ground arith
