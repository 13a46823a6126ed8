-- ===== src/Dag/Broadcast.antt =====
-- `broadcast` of src/dag.rs: which channels a message reaches, and what becomes of it there.
use antenna.Base.{
  ℕ, ◌+◌, ◌<◌, ◌≡◌, refl, sym, ap, subst, ◌∙◌, arith, Bool, true, false, List, [], ◌∷◌,
  if◌then◌else◌, Bool-cases, inl, inr, length,
}
use antenna.Base.Text.{Text, text_eq}
use antenna.Base.TextLaws.{text_eq_sound, text_eq_refl, text_eq_sym}
use antenna.Base.Utf8.{as_bytes}
use antenna.Channel.{u32_mod, Bytes}
use antenna.Channel.Endpoint.{Descriptor, InternalChannel, send}
use antenna.Channel.Queue.{Queue}
use antenna.Channel.Refine.{Holds}
use antenna.Channel.Sending.{Outcome, send_lem}
use antenna.Dag.{Dag, send_each, broadcast_to, broadcast}

module _ {F : Type 0} where
  -- `channel_writers.get(uri)`, an absent URI having no writers
  abbrev pub writers_in : Text → List (Text × List (InternalChannel F)) → List (InternalChannel F)
  writers_in uri [] = []
  writers_in uri ((k, ws) ∷ map) =
      let rest = writers_in uri map in if text_eq k uri then ws else rest

  -- The rings of the writers hold these queues.
  abbrev pub AllHold : List (InternalChannel F) → List Queue → Type 0
  AllHold [] [] = Unit
  AllHold [] (q ∷ qs) = ⊥
  AllHold (w ∷ ws) [] = ⊥
  AllHold (w ∷ ws) (q ∷ qs) = Holds w.ring q × AllHold ws qs

  -- Each writer is left as a send leaves it, so that one whose ring has room has the message.
  abbrev pub AllSent :
      Descriptor F
      → (ℕ → ℕ)
      → Bytes
      → List (InternalChannel F)
      → List Queue
      → List (InternalChannel F)
      → Type 0
  AllSent fd idle d (w ∷ ws) (q ∷ qs) (v ∷ vs) =
      ((b : Bool) × Outcome fd idle w.ring.capacity 20 0 d q w.clock (b, v))
      × AllSent fd idle d ws qs vs
  AllSent fd idle d [] [] [] = Unit
  AllSent fd idle d [] [] (v ∷ vs) = ⊥
  AllSent fd idle d [] (q ∷ qs) vs = ⊥
  AllSent fd idle d (w ∷ ws) [] vs = ⊥
  AllSent fd idle d (w ∷ ws) (q ∷ qs) [] = ⊥

module _ {F : Type 0} (fd : Descriptor F) (idle : ℕ → ℕ) (uri turtle : Text) where
  writers_in-broadcast_to :
      (k : Text) (map : List (Text × List (InternalChannel F)))
      → writers_in k (broadcast_to fd idle uri turtle map)
        ≡ (if text_eq uri k then send_each fd idle turtle (writers_in k map) else writers_in k map)
  unfolding broadcast_to send_each
  writers_in-broadcast_to k [] = ground arith
  writers_in-broadcast_to k ((j, ws) ∷ map) = elim (Bool-cases (text_eq j uri)) [
    | inl e ↦ rw (e, ap (λ t. text_eq t k) (text_eq_sound j uri e)) (ground arith)
    | inr e ↦ elim (Bool-cases (text_eq j k)) [
      | inl f ↦ rw (e, f, apart j k e f) refl
      | inr f ↦ rw (e, f) (writers_in-broadcast_to k map)
    ]
  ]
    where
      apart : (j k : Text) → text_eq j uri ≡ false → text_eq j k ≡ true → text_eq uri k ≡ false
      apart j k e f = text_eq_sym uri k ∙ sym (ap (λ t. text_eq t uri) (text_eq_sound j k f)) ∙ e

  send_each-AllSent :
      (ws : List (InternalChannel F)) (qs : List Queue)
      → 4 + length (as_bytes turtle) < u32_mod
      → AllHold ws qs
      → AllSent fd idle (as_bytes turtle) ws qs (send_each fd idle turtle ws)
  unfolding send_each
  send_each-AllSent [] [] small h = tt
  send_each-AllSent [] (q ∷ qs) small h = elim h [ ]
  send_each-AllSent (w ∷ ws) [] small h = elim h [ ]
  send_each-AllSent (w ∷ ws) (q ∷ qs) small (h, hs) = (
    ((send fd idle turtle w).0, send_lem fd idle turtle w q h small),
    send_each-AllSent ws qs small hs,
  )

  -- A broadcast offers the message to every subscriber of the channel, each of which is left as one
  -- send leaves it: the message stands once behind what the reader has left, or it did not fit at any of
  -- the 20 attempts and is dropped there. The subscribers of every other channel are as they were. The
  -- message is shorter than 2 ^ 32 - 4 bytes.
  pub broadcast_lem :
      (dag : Dag F) (qs : List Queue)
      → 4 + length (as_bytes turtle) < u32_mod
      → AllHold (writers_in uri dag.channel_writers) qs
      → AllSent fd idle
          (as_bytes turtle)
          (writers_in uri dag.channel_writers)
          qs
          (writers_in uri (broadcast fd idle uri turtle dag).channel_writers)
        × ((k : Text)
            → text_eq uri k ≡ false
            → writers_in k (broadcast fd idle uri turtle dag).channel_writers
              ≡ writers_in k dag.channel_writers)
  unfolding broadcast
  broadcast_lem dag qs small h = (
    subst (λ vs. AllSent fd idle (as_bytes turtle) (writers_in uri dag.channel_writers) qs vs)
        (sym reached) (send_each-AllSent (writers_in uri dag.channel_writers) qs small h),
    (λ k e. writers_in-broadcast_to k dag.channel_writers ∙ rw e refl),
  )
    where
      reached :
          writers_in uri (broadcast_to fd idle uri turtle dag.channel_writers)
          ≡ send_each fd idle turtle (writers_in uri dag.channel_writers)
      reached = writers_in-broadcast_to uri dag.channel_writers ∙ rw (text_eq_refl uri) refl
