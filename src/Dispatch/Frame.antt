-- ===== src/Dispatch/Frame.antt =====
-- What the handlers that are not about the carrier leave alone: libcarrier, and what was sent before.
use antenna.Base.{
  Bool, true, false, List, [], ◌∷◌, ◌++◌, Option, none, some, ◌≡◌, refl, sym, ap, ◌∙◌,
  if◌then◌else◌, append-nil, append_assoc, inl, inr, Option-cases, map,
}
use antenna.Base.Text.{Text, codes}
use antenna.Base.Result.{Result, ok, err, Result-cases}
use antenna.Blocklist.{verify_signed_blocklist, blocklist_pubkey}
use antenna.Dispatch.Design.{send_theme, handle_design}
use antenna.Dispatch.Spin.{
  emit_triple, emit_triples, select, ask_query, construct, run_update, run_spin, handle_spin,
  triple_text, sp_text,
}
use antenna.Dispatch.Subscribe.{
  apply_message, apply_entries, apply_verified, subscribe, handle_subscribe_blocklist,
}
use antenna.Dispatch.World.{Env, World, send, send_all, insert_with_dag}
use antenna.Store.{QueryResults, solutions, boolean, graph, query, ask, update, insert_turtle}
use antenna.Theme.{resolve_active_theme}
use antenna.Turtle.{extract_property}

pub record Frame {S D K : Type 0} (w w' : World S D K) : Type 0 where
  pub carrier : w'.carrier ≡ w.carrier
  pub more : List Text
  pub grows : w'.out ≡ w.out ++ more

module _ {S D K : Type 0} where
  pub Frame-refl : (w : World S D K) → Frame w w
  Frame-refl w = record { carrier = refl; more = []; grows = sym (append-nil w.out) }

  pub Frame-trans : {u v w : World S D K} → Frame u v → Frame v w → Frame u w
  Frame-trans {u} {v} {w} f g = record {
    carrier = g.carrier ∙ f.carrier;
    more = f.more ++ g.more;
    grows = g.grows ∙ ap (λ t. t ++ g.more) f.grows ∙ append_assoc u.out f.more g.more;
  }

  pub send-Frame : (m : Text) (w : World S D K) → Frame w (send m w)
  unfolding send
  send-Frame m w = record { carrier = refl; more = m ∷ []; grows = refl }

  pub send_all-Frame : (ms : List Text) (w : World S D K) → Frame w (send_all ms w)
  unfolding send_all
  send_all-Frame ms w = record { carrier = refl; more = ms; grows = refl }

module _ {S T D K : Type 0} (env : Env S T D K) where
  pub insert_with_dag-Frame : (line : Text) (w : World S D K) → Frame w (insert_with_dag env line w)
  unfolding insert_with_dag
  insert_with_dag-Frame line w = elim (Result-cases (insert_turtle env.oxigraph line w.store)) [
    | inl (s, e) ↦
        rw (e, insert_with_dag) (record { carrier = refl; more = line ∷ []; grows = refl })
    | inr (m, e) ↦
        rw (e, insert_with_dag)
          (record { carrier = refl; more = []; grows = sym (append-nil w.out) })
  ]

  emit_triple-Frame : (t : T × T × T) (w : World S D K) → Frame w (emit_triple env t w)
  unfolding emit_triple
  emit_triple-Frame t w =
      elim (Result-cases (insert_turtle env.oxigraph (triple_text env t) w.store)) [
        | inl (s, e) ↦
            rw (e, emit_triple)
              (record { carrier = refl; more = triple_text env t ∷ []; grows = refl })
        | inr (m, e) ↦
            rw (e, emit_triple)
              (record { carrier = refl; more = triple_text env t ∷ []; grows = refl })
      ]

  emit_triples-Frame :
      (ts : List (Option (T × T × T))) (w : World S D K) → Frame w (emit_triples env ts w)
  unfolding emit_triples
  emit_triples-Frame [] w = Frame-refl w
  emit_triples-Frame (none ∷ ts) w = emit_triples-Frame ts w
  emit_triples-Frame (some t ∷ ts) w =
      Frame-trans (emit_triple-Frame t w) (emit_triples-Frame ts (emit_triple env t w))

  select-Frame : (sparql : Text) (w : World S D K) → Frame w (select env sparql w)
  unfolding select
  select-Frame sparql w = go (query env.oxigraph sparql w.store) refl
    where
      go :
          (r : Result (QueryResults T))
          → query env.oxigraph sparql w.store ≡ r
          → Frame w (select env sparql w)
      go (ok (solutions rows)) e = rw (e, select) (send_all-Frame _ w)
      go (ok (boolean b)) e = rw (e, select) (Frame-refl w)
      go (ok (graph ts)) e = rw (e, select) (Frame-refl w)
      go (err m) e = rw (e, select) (send-Frame _ w)

  ask_query-Frame : (sparql : Text) (w : World S D K) → Frame w (ask_query env sparql w)
  unfolding ask_query
  ask_query-Frame sparql w = elim (Result-cases (ask env.oxigraph sparql w.store)) [
    | inl (b, e) ↦ rw (e, ask_query) (send-Frame _ w)
    | inr (m, e) ↦ rw (e, ask_query) (send-Frame _ w)
  ]

  construct-Frame : (sparql : Text) (w : World S D K) → Frame w (construct env sparql w)
  unfolding construct
  construct-Frame sparql w = go (query env.oxigraph sparql w.store) refl
    where
      go :
          (r : Result (QueryResults T))
          → query env.oxigraph sparql w.store ≡ r
          → Frame w (construct env sparql w)
      go (ok (solutions rows)) e = rw (e, construct) (Frame-refl w)
      go (ok (boolean b)) e = rw (e, construct) (Frame-refl w)
      go (ok (graph ts)) e = rw (e, construct) (emit_triples-Frame ts w)
      go (err m) e = rw (e, construct) (send-Frame _ w)

  run_update-Frame : (sparql : Text) (w : World S D K) → Frame w (run_update env sparql w)
  unfolding run_update
  run_update-Frame sparql w = elim (Result-cases (update env.oxigraph sparql w.store)) [
    | inl (s, e) ↦
        rw (e, run_update) (record { carrier = refl; more = []; grows = sym (append-nil w.out) })
    | inr (m, e) ↦ rw (e, run_update) (send-Frame _ w)
  ]

  pub if_Frame :
      (b : Bool) {w x y : World S D K} → Frame w x → Frame w y → Frame w (if b then x else y)
  if_Frame true f g = f
  if_Frame false f g = g

  run_spin-Frame : (local sparql : Text) (w : World S D K) → Frame w (run_spin env local sparql w)
  unfolding run_spin
  run_spin-Frame local sparql w = if_Frame _ (select-Frame sparql w) (
      if_Frame _ (ask_query-Frame sparql w) (
        if_Frame _ (construct-Frame sparql w)
          (if_Frame _ (run_update-Frame sparql w) (send-Frame _ w))))

  pub handle_spin-Frame :
      (line rdf_type : Text) (w : World S D K) → Frame w (handle_spin env line rdf_type w)
  unfolding handle_spin
  handle_spin-Frame line rdf_type w = elim (Option-cases (sp_text line)) [
    | inl e ↦ rw (e, handle_spin) (send-Frame _ w)
    | inr (sparql, e) ↦ rw (e, handle_spin) (run_spin-Frame _ sparql w)
  ]

  send_theme-Frame : (w : World S D K) → Frame w (send_theme env w)
  unfolding send_theme
  send_theme-Frame w =
      elim (Result-cases (resolve_active_theme env.oxigraph env.theme_fuel w.store)) [
        | inl (ts, e) ↦
            rw (e, send_theme)
              (Frame-trans (send_all-Frame (map (triple_text env) ts) w) (send-Frame _ _))
        | inr (m, e) ↦ rw (e, send_theme) (send-Frame _ w)
      ]

  pub handle_design-Frame :
      (rdf_type : Text) (w : World S D K) → Frame w (handle_design env rdf_type w)
  unfolding handle_design
  handle_design-Frame rdf_type w = if_Frame _ (send_theme-Frame w) (send-Frame _ w)

  apply_entries-Frame : (uris : List Text) (w : World S D K) → Frame w (apply_entries env uris w)
  unfolding apply_entries
  apply_entries-Frame [] w = Frame-refl w
  apply_entries-Frame (uri ∷ uris) w =
      Frame-trans (insert_with_dag-Frame (apply_message uri) w)
        (apply_entries-Frame uris (insert_with_dag env (apply_message uri) w))

  apply_verified-Frame :
      (r : Result (List Text)) (w : World S D K) → Frame w (apply_verified env r w)
  unfolding apply_verified
  apply_verified-Frame (ok uris) w = apply_entries-Frame uris w
  apply_verified-Frame (err e) w = insert_with_dag-Frame _ w

  pub handle_subscribe_blocklist-Frame :
      (line : Text) (w : World S D K) → Frame w (handle_subscribe_blocklist env line w)
  unfolding handle_subscribe_blocklist
  handle_subscribe_blocklist-Frame line w =
      go (extract_property line (codes "antenna:blocklistPayload"))
        (extract_property line (codes "antenna:blocklistSig"))
    where
      go : (payload sig : Option Text) → Frame w (subscribe env payload sig w)
      go none sig = send-Frame _ w
      go (some p) none = send-Frame _ w
      go (some p) (some s) =
          apply_verified-Frame (verify_signed_blocklist env.crypto p s blocklist_pubkey) w
