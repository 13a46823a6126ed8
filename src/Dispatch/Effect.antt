-- ===== src/Dispatch/Effect.antt =====
-- What one carrier command does, whichever it is: at most one call of libcarrier.
pub mod Account
pub mod Contact
pub mod Conversation
use antenna.Base.{
  ℕ, Bool, true, false, List, [], ◌∷◌, ◌++◌, Option, none, some, ◌≡◌, refl, sym, ap, ◌∙◌,
  if◌then◌else◌, append-nil, inl, inr, Bool-cases, Option-cases,
}
use antenna.Base.Text.{Text, codes, text_eq}
use antenna.Base.Result.{Result, ok, err, Result-cases}
use antenna.Base.Numbers.{ℤ, is_negative, decimal_ℤ}
use antenna.Carrier.{Call, CarrierApi, CarrierClient, invoke}
use antenna.Dispatch.Command.{carrier_error, report, require}
use antenna.Dispatch.World.{Env, World, send}
use antenna.Turtle.{extract_property}

abbrev pub AtMostOne : List Text → Type 0
AtMostOne [] = Unit
AtMostOne (m ∷ []) = Unit
AtMostOne (m ∷ n ∷ ms) = ⊥

-- Nothing but the carrier and the messages changes. Either libcarrier is not called, and at most one
-- message is sent; or it gets one request, and one message is sent if and only if its return code is
-- negative.
pub data Effect {S T D K : Type 0} (env : Env S T D K) (w w' : World S D K) : Type 0 where
  idle :
      w'.store ≡ w.store
      → w'.dag ≡ w.dag
      → w'.carrier.lib ≡ w.carrier.lib
      → (ms : List Text) → w'.out ≡ w.out ++ ms
      → AtMostOne ms
      → Effect env w w'
  called :
      (request : Call) (m : Text)
      → w'.store ≡ w.store
      → w'.dag ≡ w.dag
      → w'.carrier.lib ≡ (env.api.call request w.carrier.lib).2
      → w'.out
        ≡ w.out ++ (if is_negative (env.api.call request w.carrier.lib).0 then m ∷ [] else [])
      → Effect env w w'

module _ {S T D K : Type 0} (env : Env S T D K) where
  pub send-Effect : (m : Text) (w : World S D K) → Effect env w (send m w)
  unfolding send
  send-Effect m w = idle refl refl refl (m ∷ []) refl tt

  pub Effect-refl : (w : World S D K) → Effect env w w
  Effect-refl w = idle refl refl refl [] (sym (append-nil w.out)) tt

  -- A method that ends in `invoke`, reported by its arm
  pub invoke-Effect {ℓ} :
      {A : Type ℓ} (f : List ℕ → A) (command name : Text) (request : Result Call) (w : World S D K)
      → Effect env w (report command (invoke env.api f name request w.carrier) w)
  unfolding report invoke
  invoke-Effect f command name (err e) w = idle refl refl refl (_ ∷ []) refl tt
  invoke-Effect f command name (ok request) w =
      let failure = λ (rc : ℤ). carrier_error command (name ++ codes " failed: " ++ decimal_ℤ rc) in
      elim (Bool-cases (is_negative (env.api.call request w.carrier.lib).0)) [
        | inl e ↦
            rw e (
              called request (failure (env.api.call request w.carrier.lib).0) refl refl refl (rw e))
        | inr e ↦ rw e (called request [] refl refl refl (rw e (sym (append-nil w.out))))
      ]

  pub require-Effect :
      (line prop command : Text) (k : Text → World S D K → World S D K) (w : World S D K)
      → ((v : Text) → Effect env w (k v w))
      → Effect env w (require line prop command k w)
  unfolding require
  require-Effect line prop command k w h = elim (Option-cases (extract_property line prop)) [
    | inl e ↦ rw (e, require) (send-Effect _ w)
    | inr (v, e) ↦ rw (e, require) (h v)
  ]
