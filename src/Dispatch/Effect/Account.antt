-- ===== src/Dispatch/Effect/Account.antt =====
-- Each arm of `handle_carrier` in Dispatch/Command/Account makes at most one call of libcarrier.
use antenna.Base.{Bool, true, false, Option, none, some, if◌then◌else◌, inl, inr, Option-cases}
use antenna.Base.Text.{Text, codes}
use antenna.Carrier.Account as Methods
use antenna.Dispatch.Command.Account as Arms
use antenna.Dispatch.Command.{non_empty}
use antenna.Dispatch.Effect.{Effect, idle, called, send-Effect, invoke-Effect, require-Effect}
use antenna.Dispatch.Spin.{or_else}
use antenna.Dispatch.World.{Env, World}
use antenna.Turtle.{extract_property}

module _ {S T D K : Type 0} (env : Env S T D K) where
  pub export_account-Effect :
      (line default_account : Text) (w : World S D K)
      → Effect env w (Arms.export_account env line default_account w)
  unfolding Arms.export_account Methods.export_account
  export_account-Effect line default_account w =
      require-Effect env line _ _ _ w (λ _. invoke-Effect env _ _ _ _ w)

  pub get_id-Effect :
      (line default_account : Text) (w : World S D K)
      → Effect env w (Arms.get_id env line default_account w)
  unfolding Arms.get_id Methods.get_id
  get_id-Effect line default_account w = invoke-Effect env _ _ _ _ w

  pub link_device-Effect : (w : World S D K) → Effect env w (Arms.link_device env w)
  unfolding Arms.link_device Methods.create_linking_account
  link_device-Effect w = invoke-Effect env _ _ _ _ w

  pub authorize_device-Effect :
      (line default_account : Text) (w : World S D K)
      → Effect env w (Arms.authorize_device env line default_account w)
  unfolding Arms.authorize_device Methods.authorize_device
  authorize_device-Effect line default_account w =
      require-Effect env line _ _ _ w (λ _. invoke-Effect env _ _ _ _ w)

  pub revoke_device-Effect :
      (line default_account : Text) (w : World S D K)
      → Effect env w (Arms.revoke_device env line default_account w)
  unfolding Arms.revoke_device Methods.revoke_device
  revoke_device-Effect line default_account w =
      require-Effect env line _ _ _ w (λ _. invoke-Effect env _ _ _ _ w)

  pub load_account-Effect :
      (line : Text) (w : World S D K) → Effect env w (Arms.load_account env line w)
  unfolding Arms.load_account Methods.load_account
  load_account-Effect line w =
      elim (Option-cases (non_empty (extract_property line (codes "carrier:account")))) [
        | inl e ↦ rw (e, Arms.load_account) (send-Effect env _ w)
        | inr (account, e) ↦ rw (e, Arms.load_account) (invoke-Effect env _ _ _ _ w)
      ]

  pub set_nick-Effect :
      (line default_account : Text) (w : World S D K)
      → Effect env w (Arms.set_nick env line default_account w)
  unfolding Arms.set_nick Methods.set_nick
  set_nick-Effect line default_account w =
      elim (Option-cases (
        or_else (extract_property line (codes "carrier:displayName"))
          (extract_property line (codes "carrier:nick")))) [
            | inl e ↦ rw (e, Arms.set_nick) (send-Effect env _ w)
            | inr (nick, e) ↦ rw (e, Arms.set_nick) (invoke-Effect env _ _ _ _ w)
          ]

  if_Effect :
      (b : Bool) {w x y : World S D K}
      → Effect env w x
      → Effect env w y
      → Effect env w (if b then x else y)
  if_Effect true f g = f
  if_Effect false f g = g

  pub set_account_config-Effect :
      (line default_account : Text) (w : World S D K)
      → Effect env w (Arms.set_account_config env line default_account w)
  unfolding Arms.set_account_config Methods.set_account_config Methods.apply_dht_preset
  set_account_config-Effect line default_account w =
      if_Effect _ (invoke-Effect env _ _ _ _ w) (invoke-Effect env _ _ _ _ w)

  -- The stashed path is not libcarrier's.
  stash_export-Effect :
      (p : Option Text) {w w' : World S D K}
      → Effect env (Arms.stash_export env p w) w'
      → Effect env w w'
  unfolding Arms.stash_export Methods.set_pending_auto_export
  stash_export-Effect none f = f
  stash_export-Effect (some p) (idle s d l ms o a) = idle s d l ms o a
  stash_export-Effect (some p) (called request m s d l o) = called request m s d l o

  pub create_account-Effect :
      (local line : Text) (w : World S D K) → Effect env w (Arms.create_account env local line w)
  unfolding Arms.create_account Methods.create_account
  create_account-Effect local line w = stash_export-Effect _ (invoke-Effect env _ _ _ _ _)
