-- ===== src/Dispatch/Subscription.antt =====
-- `handle_subscribe_blocklist` of src/dispatch.rs: what a signed and an unsigned list do.
use antenna.Base.{
  ℕ, ◌+◌, ◌<◌, true, false, List, [], ◌∷◌, ◌++◌, some, ◌≡◌, ◌≢◌, refl, ap, ◌∙◌, arith, Bool-cases,
  inl, inr, length, sym, map, append-nil, append_assoc, subst,
}
use antenna.Base.Text.{Text, codes, keep, find, starts_with, trim, trim_end}
use antenna.Base.TextLaws.{trim_between}
use antenna.Base.Result.{ok, err, Result-cases}
use antenna.Blocklist.{verify_signed_blocklist, blocklist_pubkey}
use antenna.Blocklist.Verify.{IsSigned, verify_signed_blocklist_iff}
use antenna.Dispatch.Subscribe.{
  is_plain, apply_message, apply_entries, apply_verified, handle_subscribe_blocklist,
}
use antenna.Dispatch.World.{Env, World, insert_with_dag}
use antenna.Store.{insert_turtle}
use antenna.Turtle.{quoted_end, value_at, extract_property, quote, antenna_ns}
use antenna.Turtle.Escape.{extract_property_at, value_at-quoted, quote_not_white}

abbrev AllPlain : Text → Type 0
AllPlain [] = Unit
AllPlain (c ∷ s) = (is_plain c ≡ true) × AllPlain s

keep-AllPlain : (s : Text) → AllPlain (keep is_plain s)
unfolding keep
keep-AllPlain [] = tt
keep-AllPlain (c ∷ s) = elim (Bool-cases (is_plain c)) [
  | inl e ↦ rw (e, keep) (e, keep-AllPlain s)
  | inr e ↦ rw (e, keep) (keep-AllPlain s)
]

quoted_end-plain :
    (i : ℕ) (v rest : Text) → AllPlain v → quoted_end i false (v ++ quote ∷ rest) ≡ i + length v
unfolding quoted_end is_plain
quoted_end-plain i [] rest h = omega arith
quoted_end-plain i (c ∷ v) rest (p, h) = ground (arith, p, quoted_end-plain (i + 1) v rest h)

not_empty : (s : Text) → s ≢ [] → 0 < length s
not_empty [] h = absurd (h refl)
not_empty (c ∷ s) h = omega arith

-- A value without quotes and backslashes that ends a statement is read back.
plain_value :
    (v : Text) → v ≢ [] → AllPlain v → value_at (trim (quote ∷ (v ++ quote ∷ codes " ."))) ≡ some v
plain_value v ne h =
    ap value_at (trim_between quote v quote (codes " .") quote_not_white quote_not_white)
    ∙ value_at-quoted v (trim_end (codes " .")) (quoted_end-plain 0 v _ h ∙ omega arith)
        (not_empty v ne)

-- In the message that applies an entry, the entry without its quotes and backslashes is the value of
-- `antenna:contactUri`: whatever the entry holds, it does not leave its literal.
pub apply_message-contact_uri :
    (uri : Text)
    → keep is_plain uri ≢ []
    → extract_property (apply_message uri) (codes "antenna:contactUri") ≡ some (keep is_plain uri)
unfolding apply_message find starts_with
apply_message-contact_uri uri ne =
    extract_property_at (codes "[] a antenna:BlocklistApply ; ") (codes "antenna:contactUri")
      (quote ∷ (keep is_plain uri ++ quote ∷ codes " .")) refl
    ∙ plain_value (keep is_plain uri) ne (keep-AllPlain uri)

-- What messages do to a store, one after the other: the store behind them, those that it took, and what
-- is broadcast to which channel. A message that the store refuses is skipped.
pub record Trace (S : Type 0) : Type 0 where
  pub store : S
  pub sent : List Text
  pub calls : List (Text × Text)

abbrev before_channel : Text
before_channel = codes "http://resonator.network/v2/antenna#beforeInsert"

abbrev after_channel : Text
after_channel = codes "http://resonator.network/v2/antenna#afterInsert"

module _ {S T D K : Type 0} (env : Env S T D K) where
  abbrev pub trace : List Text → S → Trace S
  trace [] s = record { store = s; sent = []; calls = [] }
  trace (m ∷ ms) s = elim (insert_turtle env.oxigraph m s) [
    | ok s' ↦
        let rest = trace ms s' in
        record {
          store = rest.store;
          sent = m ∷ rest.sent;
          calls = (before_channel, m) ∷ (after_channel, m) ∷ rest.calls;
        }
    | err e ↦
        let rest = trace ms s in
        record { store = rest.store; sent = rest.sent; calls = (before_channel, m) ∷ rest.calls }
  ]

  abbrev pub broadcasts : List (Text × Text) → D → D
  broadcasts [] d = d
  broadcasts ((channel, m) ∷ calls) d = broadcasts calls (env.broadcast channel m d)

  -- `v` is `w` behind these messages.
  abbrev pub HasTrace : World S D K → World S D K → Trace S → Type 0
  HasTrace v w t =
      (v.store ≡ t.store)
      × (v.out ≡ w.out ++ t.sent)
      × (v.dag ≡ broadcasts t.calls w.dag)
      × (v.carrier ≡ w.carrier)

  -- The world behind a message that the store takes, and behind one that it refuses
  abbrev taken_by : Text → S → World S D K → World S D K
  taken_by m s w = record w {
    store = s;
    dag = env.broadcast after_channel m (env.broadcast before_channel m w.dag);
    out = w.out ++ m ∷ [];
  }

  abbrev refused_by : Text → World S D K → World S D K
  refused_by m w = record w { dag = env.broadcast before_channel m w.dag }

  insert_taken :
      (m : Text) (s : S) (w : World S D K)
      → insert_turtle env.oxigraph m w.store ≡ ok s
      → insert_with_dag env m w ≡ taken_by m s w
  unfolding insert_with_dag antenna_ns
  insert_taken m s w e = rw (insert_with_dag, e) refl

  insert_refused :
      (m t : Text) (w : World S D K)
      → insert_turtle env.oxigraph m w.store ≡ err t
      → insert_with_dag env m w ≡ refused_by m w
  unfolding insert_with_dag antenna_ns
  insert_refused m t w e = rw (insert_with_dag, e) refl

  insert-trace :
      (m : Text) (ms : List Text) (w v : World S D K)
      → HasTrace v (insert_with_dag env m w) (trace ms (insert_with_dag env m w).store)
      → HasTrace v w (trace (m ∷ ms) w.store)
  insert-trace m ms w v h = elim (Result-cases (insert_turtle env.oxigraph m w.store)) [
    | inl (s, e) ↦
        let (a, b, c, d) = subst (λ u. HasTrace v u (trace ms u.store)) (insert_taken m s w e) h in
        rw (trace, e) (a, b ∙ append_assoc w.out (m ∷ []) (trace ms s).sent, c, d)
    | inr (t, e) ↦
        let (a, b, c, d) =
          subst (λ u. HasTrace v u (trace ms u.store)) (insert_refused m t w e) h in
        rw (trace, e) (a, b, c, d)
  ]

  apply_entries-trace :
      (uris : List Text) (w : World S D K)
      → HasTrace (apply_entries env uris w) w (trace (map apply_message uris) w.store)
  unfolding apply_entries
  apply_entries-trace [] w = (refl, sym (append-nil w.out), refl, refl)
  apply_entries-trace (uri ∷ uris) w =
      insert-trace (apply_message uri) (map apply_message uris) w (apply_entries env (uri ∷ uris) w)
        (apply_entries-trace uris (insert_with_dag env (apply_message uri) w))

module _ {S T D K : Type 0} (env : Env S T D K) (line payload sig : Text) (w : World S D K) where
  module _ (payload_given : extract_property line (codes "antenna:blocklistPayload") ≡ some payload)
      (sig_given : extract_property line (codes "antenna:blocklistSig") ≡ some sig) where
    handled :
        handle_subscribe_blocklist env line w
        ≡ apply_verified env (verify_signed_blocklist env.crypto payload sig blocklist_pubkey) w
    unfolding handle_subscribe_blocklist
    handled = rw (payload_given, sig_given) refl

    -- A list that the pinned key signs is applied: a message for each of its entries, in the order of
    -- the payload, is announced to the scripts and loaded into the store, and where the store takes it,
    -- announced again and sent. Nothing else happens.
    pub handle_subscribe_blocklist-signed :
        (uris : List Text)
        → IsSigned env.crypto payload sig blocklist_pubkey uris
        → HasTrace env
            (handle_subscribe_blocklist env line w)
            w
            (trace env (map apply_message uris) w.store)
    unfolding apply_verified
    handle_subscribe_blocklist-signed uris h =
        rw
          (handled
            ∙ ap (λ r. apply_verified env r w)
                ((verify_signed_blocklist_iff env.crypto payload sig blocklist_pubkey uris).1 h))
          (apply_entries-trace env uris w)
