-- ===== src/Dispatch/Effect/Contact.antt =====
-- Each arm of `handle_carrier` in Dispatch/Command/Contact makes at most one call of libcarrier.
use antenna.Base.Text.{Text}
use antenna.Carrier.Contact as Methods
use antenna.Dispatch.Command.Contact as Arms
use antenna.Dispatch.Effect.{Effect, invoke-Effect, require-Effect}
use antenna.Dispatch.World.{Env, World}

module _ {S T D K : Type 0} (env : Env S T D K) where
  pub send_trust_request-Effect :
      (line default_account : Text) (w : World S D K)
      → Effect env w (Arms.send_trust_request env line default_account w)
  unfolding Arms.send_trust_request Methods.send_trust_request
  send_trust_request-Effect line default_account w =
      require-Effect env line _ _ _ w (λ _. invoke-Effect env _ _ _ _ w)

  pub accept_trust_request-Effect :
      (line default_account : Text) (w : World S D K)
      → Effect env w (Arms.accept_trust_request env line default_account w)
  unfolding Arms.accept_trust_request Methods.accept_trust_request
  accept_trust_request-Effect line default_account w =
      require-Effect env line _ _ _ w (λ _. invoke-Effect env _ _ _ _ w)

  pub discard_trust_request-Effect :
      (line default_account : Text) (w : World S D K)
      → Effect env w (Arms.discard_trust_request env line default_account w)
  unfolding Arms.discard_trust_request Methods.discard_trust_request
  discard_trust_request-Effect line default_account w =
      require-Effect env line _ _ _ w (λ _. invoke-Effect env _ _ _ _ w)

  pub remove_contact-Effect :
      (line default_account : Text) (w : World S D K)
      → Effect env w (Arms.remove_contact env line default_account w)
  unfolding Arms.remove_contact Methods.remove_contact
  remove_contact-Effect line default_account w =
      require-Effect env line _ _ _ w (λ _. invoke-Effect env _ _ _ _ w)

  pub block_contact-Effect :
      (line default_account : Text) (w : World S D K)
      → Effect env w (Arms.block_contact env line default_account w)
  unfolding Arms.block_contact Methods.block_peer
  block_contact-Effect line default_account w =
      require-Effect env line _ _ _ w (λ _. invoke-Effect env _ _ _ _ w)

  pub unblock_contact-Effect :
      (line default_account : Text) (w : World S D K)
      → Effect env w (Arms.unblock_contact env line default_account w)
  unfolding Arms.unblock_contact Methods.unblock_peer
  unblock_contact-Effect line default_account w =
      require-Effect env line _ _ _ w (λ _. invoke-Effect env _ _ _ _ w)

  pub send_msg-Effect :
      (line default_account : Text) (w : World S D K)
      → Effect env w (Arms.send_msg env line default_account w)
  unfolding Arms.send_msg Methods.send_message
  send_msg-Effect line default_account w =
      require-Effect env line _ _ _ w
        (λ _. require-Effect env line _ _ _ w (λ _. invoke-Effect env _ _ _ _ w))

  pub subscribe_presence-Effect :
      (local line default_account : Text) (w : World S D K)
      → Effect env w (Arms.subscribe_presence env local line default_account w)
  unfolding Arms.subscribe_presence Methods.subscribe_presence
  subscribe_presence-Effect local line default_account w =
      require-Effect env line _ _ _ w (λ _. invoke-Effect env _ _ _ _ w)
