-- ===== src/Dispatch/Spin.antt =====
-- `handle_spin` of src/dispatch.rs.
use antenna.Base.{
  Bool, true, false, ◌||◌, List, [], ◌∷◌, ◌++◌, Option, none, some, if◌then◌else◌, length, drop,
}
use antenna.Base.Text.{Text, codes, text_eq, join}
use antenna.Base.Result.{ok, err}
use antenna.Dispatch.World.{Env, World, send, send_all}
use antenna.Store.{solutions, boolean, graph, query, ask, update, insert_turtle}
use antenna.Turtle.{sp_ns, extract_property, turtle_escape}

abbrev pub error_message : Text → Text
error_message m = codes "[] a antenna:Error ; antenna:message \"" ++ m ++ codes "\" ."

abbrev pub or_else {ℓ} : {A : Type ℓ} → Option A → Option A → Option A
or_else none b = b
or_else (some a) b = some a

-- The query of the line: `sp:text`, by its prefixed or its full name.
unfoldable pub sp_text : Text → Option Text
sp_text line =
    or_else (extract_property line (codes "sp:text"))
      (extract_property line (codes "<" ++ sp_ns ++ codes "text>"))

module _ {S T D K : Type 0} (env : Env S T D K) where
  -- `antenna:var_<name> "<term>"` for each variable that is bound
  unfoldable pub row_parts : List (Text × T) → List Text
  row_parts [] = []
  row_parts ((var, t) ∷ row) =
      (codes "antenna:var_"
        ++ var
        ++ codes " \""
        ++ turtle_escape (env.oxigraph.show t)
        ++ codes "\"")
      ∷ row_parts row

  unfoldable pub row_message : List (Text × T) → List Text
  unfolding row_parts
  row_message [] = []
  row_message (b ∷ row) =
      (codes "[] a antenna:Result ; " ++ join (codes " ; ") (row_parts (b ∷ row)) ++ codes " .")
      ∷ []

  -- `solutions.flatten()`: rows that cannot be read are passed over.
  unfoldable pub row_messages : List (Option (List (Text × T))) → List Text
  unfolding row_message
  row_messages [] = []
  row_messages (none ∷ rows) = row_messages rows
  row_messages (some row ∷ rows) = row_message row ++ row_messages rows

  unfoldable pub triple_text : T × T × T → Text
  triple_text (s, p, o) =
      env.oxigraph.show s
      ++ codes " "
      ++ env.oxigraph.show p
      ++ codes " "
      ++ env.oxigraph.show o
      ++ codes " ."

  -- A constructed triple is sent and stored; an error of the insert is dropped.
  unfoldable pub emit_triple : T × T × T → World S D K → World S D K
  unfolding send triple_text
  emit_triple t w =
      let w' = send (triple_text t) w in
      elim (insert_turtle env.oxigraph (triple_text t) w'.store) [
        | ok s ↦ record w' { store = s }
        | err e ↦ w'
      ]

  unfoldable pub emit_triples : List (Option (T × T × T)) → World S D K → World S D K
  unfolding emit_triple
  emit_triples [] w = w
  emit_triples (none ∷ ts) w = emit_triples ts w
  emit_triples (some t ∷ ts) w = emit_triples ts (emit_triple t w)

  unfoldable pub select : Text → World S D K → World S D K
  unfolding row_messages send send_all
  select sparql w = elim (query env.oxigraph sparql w.store) [
    | ok (solutions rows) ↦ send_all (row_messages rows) w
    | ok (boolean b) ↦ w
    | ok (graph ts) ↦ w
    | err e ↦ send (error_message (turtle_escape e)) w
  ]

  unfoldable pub show_bool : Bool → Text
  show_bool true = codes "true"
  show_bool false = codes "false"

  unfoldable pub ask_query : Text → World S D K → World S D K
  unfolding send show_bool
  ask_query sparql w = elim (ask env.oxigraph sparql w.store) [
    | ok b ↦ send (codes "[] a sp:AskResult ; sp:boolean " ++ show_bool b ++ codes " .") w
    | err e ↦ send (error_message (turtle_escape e)) w
  ]

  unfoldable pub construct : Text → World S D K → World S D K
  unfolding emit_triples send
  construct sparql w = elim (query env.oxigraph sparql w.store) [
    | ok (graph ts) ↦ emit_triples ts w
    | ok (boolean b) ↦ w
    | ok (solutions rows) ↦ w
    | err e ↦ send (error_message (turtle_escape e)) w
  ]

  unfoldable pub run_update : Text → World S D K → World S D K
  unfolding send
  run_update sparql w = elim (update env.oxigraph sparql w.store) [
    | ok s ↦ record w { store = s }
    | err e ↦ send (error_message (turtle_escape e)) w
  ]

  -- The `match local` of `handle_spin`
  unfoldable pub run_spin : Text → Text → World S D K → World S D K
  unfolding select ask_query construct run_update send
  run_spin local sparql w =
      if text_eq local (codes "Select")
      then select sparql w
      else if text_eq local (codes "Ask")
      then ask_query sparql w
      else if text_eq local (codes "Construct")
      then construct sparql w
      else if text_eq local (codes "InsertData")
          || text_eq local (codes "DeleteData")
          || text_eq local (codes "Modify")
      then run_update sparql w
      else send (error_message (codes "Unknown SPIN type: " ++ local)) w

  unfoldable pub handle_spin : Text → Text → World S D K → World S D K
  unfolding run_spin send
  handle_spin line rdf_type w =
      let local = drop (length sp_ns) rdf_type in
      elim (sp_text line) [
        | none ↦ send (error_message (codes "Missing sp:text in " ++ local)) w
        | some sparql ↦ run_spin local sparql w
      ]
