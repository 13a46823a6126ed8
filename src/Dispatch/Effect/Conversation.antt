-- ===== src/Dispatch/Effect/Conversation.antt =====
-- Each arm of `handle_carrier` in Dispatch/Command/Conversation makes at most one call of libcarrier.
use antenna.Base.Text.{Text}
use antenna.Carrier.Conversation as Methods
use antenna.Dispatch.Command.Conversation as Arms
use antenna.Dispatch.Effect.{Effect, invoke-Effect, require-Effect}
use antenna.Dispatch.World.{Env, World}

module _ {S T D K : Type 0} (env : Env S T D K) where
  pub create_conversation-Effect :
      (local line default_account : Text) (w : World S D K)
      → Effect env w (Arms.create_conversation env local line default_account w)
  unfolding Arms.create_conversation Methods.create_conversation
  create_conversation-Effect local line default_account w = invoke-Effect env _ _ _ _ w

  pub get_saved_conversation-Effect :
      (line default_account : Text) (w : World S D K)
      → Effect env w (Arms.get_saved_conversation env line default_account w)
  unfolding Arms.get_saved_conversation Methods.get_saved_conversation
  get_saved_conversation-Effect line default_account w = invoke-Effect env _ _ _ _ w

  pub send_conversation_msg-Effect :
      (line default_account : Text) (w : World S D K)
      → Effect env w (Arms.send_conversation_msg env line default_account w)
  unfolding Arms.send_conversation_msg Methods.send_conversation_message
  send_conversation_msg-Effect line default_account w =
      require-Effect env line _ _ _ w
        (λ _. require-Effect env line _ _ _ w (λ _. invoke-Effect env _ _ _ _ w))

  pub load_conversation_messages-Effect :
      (line default_account : Text) (w : World S D K)
      → Effect env w (Arms.load_conversation_messages env line default_account w)
  unfolding Arms.load_conversation_messages Methods.load_conversation_messages
  load_conversation_messages-Effect line default_account w =
      require-Effect env line _ _ _ w (λ _. invoke-Effect env _ _ _ _ w)

  pub clear_conversation_cache-Effect :
      (line default_account : Text) (w : World S D K)
      → Effect env w (Arms.clear_conversation_cache env line default_account w)
  unfolding Arms.clear_conversation_cache Methods.clear_conversation_cache
  clear_conversation_cache-Effect line default_account w =
      require-Effect env line _ _ _ w (λ _. invoke-Effect env _ _ _ _ w)

  pub accept_conversation_request-Effect :
      (line default_account : Text) (w : World S D K)
      → Effect env w (Arms.accept_conversation_request env line default_account w)
  unfolding Arms.accept_conversation_request Methods.accept_conversation_request
  accept_conversation_request-Effect line default_account w =
      require-Effect env line _ _ _ w (λ _. invoke-Effect env _ _ _ _ w)

  pub decline_conversation_request-Effect :
      (line default_account : Text) (w : World S D K)
      → Effect env w (Arms.decline_conversation_request env line default_account w)
  unfolding Arms.decline_conversation_request Methods.decline_conversation_request
  decline_conversation_request-Effect line default_account w =
      require-Effect env line _ _ _ w (λ _. invoke-Effect env _ _ _ _ w)

  pub invite_contact-Effect :
      (line default_account : Text) (w : World S D K)
      → Effect env w (Arms.invite_contact env line default_account w)
  unfolding Arms.invite_contact Methods.invite_to_conversation
  invite_contact-Effect line default_account w =
      require-Effect env line _ _ _ w
        (λ _. require-Effect env line _ _ _ w (λ _. invoke-Effect env _ _ _ _ w))

  pub remove_conversation-Effect :
      (line default_account : Text) (w : World S D K)
      → Effect env w (Arms.remove_conversation env line default_account w)
  unfolding Arms.remove_conversation Methods.remove_conversation
  remove_conversation-Effect line default_account w =
      require-Effect env line _ _ _ w (λ _. invoke-Effect env _ _ _ _ w)

  pub send_reaction-Effect :
      (line default_account : Text) (w : World S D K)
      → Effect env w (Arms.send_reaction env line default_account w)
  unfolding Arms.send_reaction Methods.send_reaction
  send_reaction-Effect line default_account w = require-Effect env line _ _ _ w (λ _.
      require-Effect env line _ _ _ w
        (λ _. require-Effect env line _ _ _ w (λ _. invoke-Effect env _ _ _ _ w)))

  pub send_file-Effect :
      (line default_account : Text) (w : World S D K)
      → Effect env w (Arms.send_file env line default_account w)
  unfolding Arms.send_file Methods.send_file
  send_file-Effect line default_account w =
      require-Effect env line _ _ _ w
        (λ _. require-Effect env line _ _ _ w (λ _. invoke-Effect env _ _ _ _ w))

  pub accept_file-Effect :
      (line default_account : Text) (w : World S D K)
      → Effect env w (Arms.accept_file env line default_account w)
  unfolding Arms.accept_file Methods.accept_file
  accept_file-Effect line default_account w = require-Effect env line _ _ _ w (λ _.
      require-Effect env line _ _ _ w (λ _.
        require-Effect env line _ _ _ w
          (λ _. require-Effect env line _ _ _ w (λ _. invoke-Effect env _ _ _ _ w))))

  pub cancel_file-Effect :
      (line default_account : Text) (w : World S D K)
      → Effect env w (Arms.cancel_file env line default_account w)
  unfolding Arms.cancel_file Methods.cancel_file
  cancel_file-Effect line default_account w =
      require-Effect env line _ _ _ w
        (λ _. require-Effect env line _ _ _ w (λ _. invoke-Effect env _ _ _ _ w))
