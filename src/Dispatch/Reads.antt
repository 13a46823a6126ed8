-- ===== src/Dispatch/Reads.antt =====
-- Which lines `dispatch` of src/dispatch.rs answers without changing anything, and how it treats the
-- directives in front of a line.
use antenna.Base.{
  Bool, true, false, List, ◌∷◌, ◌++◌, if◌then◌else◌, ◌≡◌, refl, ap, Option-cases, inl, inr,
  drop-append,
}
use antenna.Base.Text.{Text, codes, starts_with, text_eq, trim_start}
use antenna.Base.Result.{Result, ok, err, Result-cases}
use antenna.Dispatch.Design.{send_theme, handle_design}
use antenna.Dispatch.Router.{route, dispatch_stripped, dispatch}
use antenna.Dispatch.Spin.{select, ask_query, run_spin, handle_spin, sp_text}
use antenna.Dispatch.World.{Env, World, send, send_all}
use antenna.Store.{QueryResults, solutions, boolean, graph, query, ask}
use antenna.Theme.{resolve_active_theme}
use antenna.Turtle.{sp_ns, carrier_ns, design_ns}
use antenna.Turtle.Directives.{AllBodies, directives, strip_leading_directives_lem}

-- The types of the queries that read.
pub data IsRead : Text → Type 0 where
  a_select : IsRead (sp_ns ++ codes "Select")
  an_ask : IsRead (sp_ns ++ codes "Ask")
  a_design : (local : Text) → IsRead (design_ns ++ local)

-- Nothing but the messages differs.
pub record Unchanged {S D K : Type 0} (w w' : World S D K) : Type 0 where
  pub store : w'.store ≡ w.store
  pub dag : w'.dag ≡ w.dag
  pub carrier : w'.carrier ≡ w.carrier

module _ {S D K : Type 0} where
  same : (w : World S D K) → Unchanged w w
  same w = record { store = refl; dag = refl; carrier = refl }

  sent : (m : Text) (w : World S D K) → Unchanged w (send m w)
  unfolding send
  sent m w = record { store = refl; dag = refl; carrier = refl }

  sent_both : (ms : List Text) (m : Text) (w : World S D K) → Unchanged w (send m (send_all ms w))
  unfolding send send_all
  sent_both ms m w = record { store = refl; dag = refl; carrier = refl }

  sent_all : (ms : List Text) (w : World S D K) → Unchanged w (send_all ms w)
  unfolding send_all
  sent_all ms w = record { store = refl; dag = refl; carrier = refl }

  if_Unchanged :
      (b : Bool) {w x y : World S D K}
      → Unchanged w x
      → Unchanged w y
      → Unchanged w (if b then x else y)
  if_Unchanged true f g = f
  if_Unchanged false f g = g

module _ {S T D K : Type 0} (env : Env S T D K) where
  select-Unchanged : (sparql : Text) (w : World S D K) → Unchanged w (select env sparql w)
  unfolding select
  select-Unchanged sparql w = go (query env.oxigraph sparql w.store) refl
    where
      go :
          (r : Result (QueryResults T))
          → query env.oxigraph sparql w.store ≡ r
          → Unchanged w (select env sparql w)
      go (ok (solutions rows)) e = rw (e, select) (sent_all _ w)
      go (ok (boolean b)) e = rw (e, select) (same w)
      go (ok (graph ts)) e = rw (e, select) (same w)
      go (err m) e = rw (e, select) (sent _ w)

  ask_query-Unchanged : (sparql : Text) (w : World S D K) → Unchanged w (ask_query env sparql w)
  unfolding ask_query
  ask_query-Unchanged sparql w = elim (Result-cases (ask env.oxigraph sparql w.store)) [
    | inl (b, e) ↦ rw (e, ask_query) (sent _ w)
    | inr (m, e) ↦ rw (e, ask_query) (sent _ w)
  ]

  spin-Unchanged :
      (local line : Text) (w : World S D K)
      → ((sparql : Text) → Unchanged w (run_spin env local sparql w))
      → Unchanged w (handle_spin env line (sp_ns ++ local) w)
  unfolding handle_spin
  spin-Unchanged local line w h = elim (Option-cases (sp_text line)) [
    | inl e ↦ rw (e, handle_spin) (sent _ w)
    | inr (sparql, e) ↦ rw (e, handle_spin, drop-append sp_ns local) (h sparql)
  ]

  send_theme-Unchanged : (w : World S D K) → Unchanged w (send_theme env w)
  unfolding send_theme
  send_theme-Unchanged w =
      elim (Result-cases (resolve_active_theme env.oxigraph env.theme_fuel w.store)) [
        | inl (ts, e) ↦ rw (e, send_theme) (sent_both _ _ w)
        | inr (m, e) ↦ rw (e, send_theme) (sent _ w)
      ]

  handle_design-Unchanged :
      (rdf_type : Text) (w : World S D K) → Unchanged w (handle_design env rdf_type w)
  unfolding handle_design
  handle_design-Unchanged rdf_type w = if_Unchanged _ (send_theme-Unchanged w) (sent _ w)

  -- A SELECT, an ASK and any theme request leave the store, the DAG and the carrier as they are.
  pub route-Unchanged :
      (has_carrier : Bool) (line rdf_type account : Text) (w : World S D K)
      → IsRead rdf_type
      → Unchanged w (route env has_carrier line rdf_type account w)
  unfolding route run_spin starts_with text_eq sp_ns design_ns carrier_ns
  route-Unchanged has_carrier line rdf_type account w (a_design local) =
      handle_design-Unchanged (design_ns ++ local) w
  route-Unchanged has_carrier line rdf_type account w an_ask =
      spin-Unchanged (codes "Ask") line w (λ q. ask_query-Unchanged q w)
  route-Unchanged has_carrier line rdf_type account w a_select =
      spin-Unchanged (codes "Select") line w (λ q. select-Unchanged q w)

  -- Directives in front of a line do not matter: the line is routed as what stands behind them.
  pub dispatch-directives :
      (has_carrier : Bool) (d : Text) (ds : List Text) (rest account : Text) (w : World S D K)
      → AllBodies (d ∷ ds)
      → starts_with (trim_start rest) (codes "@") ≡ false
      → dispatch env has_carrier (directives (d ∷ ds) ++ rest) account w
        ≡ dispatch_stripped env has_carrier (trim_start rest) account w
  unfolding dispatch starts_with
  dispatch-directives has_carrier d ds rest account w h e =
      ap (λ l. dispatch_stripped env has_carrier l account w)
        (strip_leading_directives_lem (d ∷ ds) rest h e)
