-- ===== src/Dispatch/Router.antt =====
-- `dispatch` and `handle_carrier` of src/dispatch.rs: which handler gets a line.
use antenna.Base.{Bool, ◌||◌, List, [], ◌∷◌, ◌++◌, Option, none, some, if◌then◌else◌, length, drop}
use antenna.Base.Text.{Text, codes, text_eq, is_empty, starts_with}
use antenna.Dispatch.Command.Account
use antenna.Dispatch.Command.Contact
use antenna.Dispatch.Command.Conversation
use antenna.Dispatch.Design.{handle_design}
use antenna.Dispatch.Spin.{handle_spin}
use antenna.Dispatch.Subscribe.{handle_subscribe_blocklist}
use antenna.Dispatch.World.{Env, World, insert_with_dag}
use antenna.Turtle.{
  sp_ns, carrier_ns, design_ns, antenna_ns, strip_leading_directives, extract_type,
}

-- The arms of `handle_carrier`.
pub data Command : Type 0 where
  create_account export_account load_account get_id : Command
  set_nick set_account_config send_trust_request accept_trust_request : Command
  discard_trust_request remove_contact block_contact unblock_contact : Command
  send_msg create_conversation get_saved_conversation send_conversation_msg : Command
  load_conversation_messages clear_conversation_cache accept_conversation_request
        decline_conversation_request :
      Command
  invite_contact remove_conversation send_reaction subscribe_presence : Command
  send_file accept_file cancel_file link_device : Command
  authorize_device revoke_device : Command

-- The names of the arms; three arms have two names.
unfoldable pub command_names : List (Text × Command)
command_names =
    (codes "CreateAccount", create_account)
    ∷ (codes "ImportAccount", create_account)
    ∷ (codes "ExportAccount", export_account)
    ∷ (codes "LoadAccount", load_account)
    ∷ (codes "GetId", get_id)
    ∷ (codes "SetNick", set_nick)
    ∷ (codes "SetAccountConfig", set_account_config)
    ∷ (codes "SendTrustRequest", send_trust_request)
    ∷ (codes "AcceptTrustRequest", accept_trust_request)
    ∷ (codes "DiscardTrustRequest", discard_trust_request)
    ∷ (codes "RemoveContact", remove_contact)
    ∷ (codes "BlockContact", block_contact)
    ∷ (codes "UnblockContact", unblock_contact)
    ∷ (codes "SendMsg", send_msg)
    ∷ (codes "CreateConversation", create_conversation)
    ∷ (codes "CreateGroup", create_conversation)
    ∷ (codes "GetSavedConversation", get_saved_conversation)
    ∷ (codes "SendConversationMsg", send_conversation_msg)
    ∷ (codes "LoadConversationMessages", load_conversation_messages)
    ∷ (codes "ClearConversationCache", clear_conversation_cache)
    ∷ (codes "AcceptConversationRequest", accept_conversation_request)
    ∷ (codes "DeclineConversationRequest", decline_conversation_request)
    ∷ (codes "InviteContact", invite_contact)
    ∷ (codes "RemoveConversation", remove_conversation)
    ∷ (codes "SendReaction", send_reaction)
    ∷ (codes "SubscribePresence", subscribe_presence)
    ∷ (codes "UnsubscribePresence", subscribe_presence)
    ∷ (codes "SendFile", send_file)
    ∷ (codes "AcceptFile", accept_file)
    ∷ (codes "CancelFile", cancel_file)
    ∷ (codes "LinkDevice", link_device)
    ∷ (codes "AuthorizeDevice", authorize_device)
    ∷ (codes "RevokeDevice", revoke_device)
    ∷ []

unfoldable pub lookup_command : List (Text × Command) → Text → Option Command
lookup_command [] local = none
lookup_command ((name, c) ∷ names) local =
    let rest = lookup_command names local in if text_eq local name then some c else rest

module _ {S T D K : Type 0} (env : Env S T D K) where
  unfoldable pub run_command : Command → Text → Text → Text → World S D K → World S D K
  run_command create_account local line default_account = Account.create_account env local line
  run_command export_account local line default_account =
      Account.export_account env line default_account
  run_command load_account local line default_account = Account.load_account env line
  run_command get_id local line default_account = Account.get_id env line default_account
  run_command set_nick local line default_account = Account.set_nick env line default_account
  run_command set_account_config local line default_account =
      Account.set_account_config env line default_account
  run_command send_trust_request local line default_account =
      Contact.send_trust_request env line default_account
  run_command accept_trust_request local line default_account =
      Contact.accept_trust_request env line default_account
  run_command discard_trust_request local line default_account =
      Contact.discard_trust_request env line default_account
  run_command remove_contact local line default_account =
      Contact.remove_contact env line default_account
  run_command block_contact local line default_account =
      Contact.block_contact env line default_account
  run_command unblock_contact local line default_account =
      Contact.unblock_contact env line default_account
  run_command send_msg local line default_account = Contact.send_msg env line default_account
  run_command create_conversation local line default_account =
      Conversation.create_conversation env local line default_account
  run_command get_saved_conversation local line default_account =
      Conversation.get_saved_conversation env line default_account
  run_command send_conversation_msg local line default_account =
      Conversation.send_conversation_msg env line default_account
  run_command load_conversation_messages local line default_account =
      Conversation.load_conversation_messages env line default_account
  run_command clear_conversation_cache local line default_account =
      Conversation.clear_conversation_cache env line default_account
  run_command accept_conversation_request local line default_account =
      Conversation.accept_conversation_request env line default_account
  run_command decline_conversation_request local line default_account =
      Conversation.decline_conversation_request env line default_account
  run_command invite_contact local line default_account =
      Conversation.invite_contact env line default_account
  run_command remove_conversation local line default_account =
      Conversation.remove_conversation env line default_account
  run_command send_reaction local line default_account =
      Conversation.send_reaction env line default_account
  run_command subscribe_presence local line default_account =
      Contact.subscribe_presence env local line default_account
  run_command send_file local line default_account = Conversation.send_file env line default_account
  run_command accept_file local line default_account =
      Conversation.accept_file env line default_account
  run_command cancel_file local line default_account =
      Conversation.cancel_file env line default_account
  run_command link_device local line default_account = Account.link_device env
  run_command authorize_device local line default_account =
      Account.authorize_device env line default_account
  run_command revoke_device local line default_account =
      Account.revoke_device env line default_account

  -- `handle_carrier`: an unknown command is logged and dropped.
  unfoldable pub handle_carrier : Text → Text → Text → World S D K → World S D K
  unfolding run_command
  handle_carrier line rdf_type default_account w =
      let local = drop (length carrier_ns) rdf_type in
      elim (lookup_command command_names local) [
        | none ↦ w
        | some c ↦ run_command c local line default_account w
      ]

  -- The choice by type; the flag says that there is a carrier handle.
  unfoldable pub route : Bool → Text → Text → Text → World S D K → World S D K
  route has_carrier line rdf_type default_account w =
      if starts_with rdf_type sp_ns
      then handle_spin env line rdf_type w
      else if starts_with rdf_type carrier_ns
      then (if has_carrier then handle_carrier line rdf_type default_account w else w)
      else if starts_with rdf_type design_ns
      then handle_design env rdf_type w
      else if text_eq rdf_type (antenna_ns ++ codes "SubscribeBlocklist")
      then handle_subscribe_blocklist env line w
      else insert_with_dag env line w

  -- `dispatch` behind the stripping of directives
  unfoldable pub dispatch_stripped : Bool → Text → Text → World S D K → World S D K
  unfolding route
  dispatch_stripped has_carrier line default_account w =
      if is_empty line then w else elim (extract_type line) [
        | none ↦ insert_with_dag env line w
        | some rdf_type ↦ route has_carrier line rdf_type default_account w
      ]

  unfoldable pub dispatch : Bool → Text → Text → World S D K → World S D K
  unfolding dispatch_stripped
  dispatch has_carrier line default_account w =
      if is_empty line || starts_with line (codes "#")
      then w
      else dispatch_stripped has_carrier (strip_leading_directives line) default_account w
