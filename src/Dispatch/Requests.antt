-- ===== src/Dispatch/Requests.antt =====
-- `handle_carrier` of src/dispatch.rs as a whole: what one carrier command does.
use antenna.Base.{inl, inr, Option-cases, length, drop}
use antenna.Base.Text.{Text}
use antenna.Dispatch.Effect.{Effect, Effect-refl}
use antenna.Dispatch.Effect.Account
use antenna.Dispatch.Effect.Contact
use antenna.Dispatch.Effect.Conversation
use antenna.Dispatch.Router.{
  Command, create_account, export_account, load_account, get_id, set_nick, set_account_config,
  send_trust_request, accept_trust_request, discard_trust_request, remove_contact, block_contact,
  unblock_contact, send_msg, create_conversation, get_saved_conversation, send_conversation_msg,
  load_conversation_messages, clear_conversation_cache, accept_conversation_request,
  decline_conversation_request, invite_contact, remove_conversation, send_reaction,
  subscribe_presence, send_file, accept_file, cancel_file, link_device, authorize_device,
  revoke_device, command_names, lookup_command, run_command, handle_carrier,
}
use antenna.Dispatch.World.{Env, World}
use antenna.Turtle.{carrier_ns}

module _ {S T D K : Type 0} (env : Env S T D K) where
  run_command-Effect :
      (c : Command) (local line account : Text) (w : World S D K)
      → Effect env w (run_command env c local line account w)
  unfolding run_command
  run_command-Effect create_account local line account w =
      Account.create_account-Effect env local line w
  run_command-Effect export_account local line account w =
      Account.export_account-Effect env line account w
  run_command-Effect load_account local line account w = Account.load_account-Effect env line w
  run_command-Effect get_id local line account w = Account.get_id-Effect env line account w
  run_command-Effect set_nick local line account w = Account.set_nick-Effect env line account w
  run_command-Effect set_account_config local line account w =
      Account.set_account_config-Effect env line account w
  run_command-Effect send_trust_request local line account w =
      Contact.send_trust_request-Effect env line account w
  run_command-Effect accept_trust_request local line account w =
      Contact.accept_trust_request-Effect env line account w
  run_command-Effect discard_trust_request local line account w =
      Contact.discard_trust_request-Effect env line account w
  run_command-Effect remove_contact local line account w =
      Contact.remove_contact-Effect env line account w
  run_command-Effect block_contact local line account w =
      Contact.block_contact-Effect env line account w
  run_command-Effect unblock_contact local line account w =
      Contact.unblock_contact-Effect env line account w
  run_command-Effect send_msg local line account w = Contact.send_msg-Effect env line account w
  run_command-Effect create_conversation local line account w =
      Conversation.create_conversation-Effect env local line account w
  run_command-Effect get_saved_conversation local line account w =
      Conversation.get_saved_conversation-Effect env line account w
  run_command-Effect send_conversation_msg local line account w =
      Conversation.send_conversation_msg-Effect env line account w
  run_command-Effect load_conversation_messages local line account w =
      Conversation.load_conversation_messages-Effect env line account w
  run_command-Effect clear_conversation_cache local line account w =
      Conversation.clear_conversation_cache-Effect env line account w
  run_command-Effect accept_conversation_request local line account w =
      Conversation.accept_conversation_request-Effect env line account w
  run_command-Effect decline_conversation_request local line account w =
      Conversation.decline_conversation_request-Effect env line account w
  run_command-Effect invite_contact local line account w =
      Conversation.invite_contact-Effect env line account w
  run_command-Effect remove_conversation local line account w =
      Conversation.remove_conversation-Effect env line account w
  run_command-Effect send_reaction local line account w =
      Conversation.send_reaction-Effect env line account w
  run_command-Effect subscribe_presence local line account w =
      Contact.subscribe_presence-Effect env local line account w
  run_command-Effect send_file local line account w =
      Conversation.send_file-Effect env line account w
  run_command-Effect accept_file local line account w =
      Conversation.accept_file-Effect env line account w
  run_command-Effect cancel_file local line account w =
      Conversation.cancel_file-Effect env line account w
  run_command-Effect link_device local line account w = Account.link_device-Effect env w
  run_command-Effect authorize_device local line account w =
      Account.authorize_device-Effect env line account w
  run_command-Effect revoke_device local line account w =
      Account.revoke_device-Effect env line account w

  -- A carrier command changes neither the store nor the DAG. It calls libcarrier at most once: without a
  -- call it sends at most one message, and with a call it sends one message if and only if the return
  -- code is negative, whichever command it is.
  pub handle_carrier-Effect :
      (line rdf_type account : Text) (w : World S D K)
      → Effect env w (handle_carrier env line rdf_type account w)
  unfolding handle_carrier
  handle_carrier-Effect line rdf_type account w =
      elim (Option-cases (lookup_command command_names (drop (length carrier_ns) rdf_type))) [
        | inl e ↦ rw (e, handle_carrier) (Effect-refl env w)
        | inr (c, e) ↦ rw (e, handle_carrier) (run_command-Effect c _ line account w)
      ]
