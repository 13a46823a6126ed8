-- ===== src/Dispatch/Command/Conversation.antt =====
-- The arms of `handle_carrier` in src/dispatch.rs about conversations and files.
use antenna.Base.{ℕ, [], Option, none, some}
use antenna.Base.Text.{Text, codes}
use antenna.Carrier.Conversation
use antenna.Dispatch.Command.{account_or_default, unwrap_or, parse_usize, report, require}
use antenna.Dispatch.Spin.{or_else}
use antenna.Dispatch.World.{Env, World}
use antenna.Turtle.{extract_property}

-- `.and_then(|s| s.parse::<usize>().ok())`
abbrev parse_limit : Option Text → Option ℕ
parse_limit none = none
parse_limit (some s) = parse_usize s

module _ {S T D K : Type 0} (env : Env S T D K) where
  -- `CreateConversation` and `CreateGroup`
  unfoldable pub create_conversation : Text → Text → Text → World S D K → World S D K
  unfolding account_or_default
  create_conversation local line default_account =
      let account = account_or_default line default_account in
      λ w.
        report local
          (Conversation.create_conversation env.api account
            (extract_property line (codes "carrier:privacy")) w.carrier)
          w

  unfoldable pub get_saved_conversation : Text → Text → World S D K → World S D K
  unfolding account_or_default
  get_saved_conversation line default_account =
      let account = account_or_default line default_account in
      λ w.
        report (codes "GetSavedConversation")
          (Conversation.get_saved_conversation env.api account w.carrier) w

  unfoldable pub send_conversation_msg : Text → Text → World S D K → World S D K
  unfolding account_or_default
  send_conversation_msg line default_account =
      let account = account_or_default line default_account in
      require line (codes "carrier:conversationId") (codes "SendConversationMsg") λ conv.
        require line (codes "carrier:text") (codes "SendConversationMsg") λ text. λ w.
          report (codes "SendConversationMsg")
            (Conversation.send_conversation_message env.api account conv text w.carrier) w

  unfoldable pub load_conversation_messages : Text → Text → World S D K → World S D K
  unfolding account_or_default
  load_conversation_messages line default_account =
      let account = account_or_default line default_account in
      let from = unwrap_or (extract_property line (codes "carrier:fromMessage")) [] in
      let n : ℕ = unwrap_or (parse_limit (extract_property line (codes "carrier:limit"))) 0 in
      require line (codes "carrier:conversationId") (codes "LoadConversationMessages") λ conv. λ w.
        report (codes "LoadConversationMessages")
          (Conversation.load_conversation_messages env.api account conv from n w.carrier) w

  unfoldable pub clear_conversation_cache : Text → Text → World S D K → World S D K
  unfolding account_or_default
  clear_conversation_cache line default_account =
      let account = account_or_default line default_account in
      require line (codes "carrier:conversationId") (codes "ClearConversationCache") λ conv. λ w.
        report (codes "ClearConversationCache")
          (Conversation.clear_conversation_cache env.api account conv w.carrier) w

  unfoldable pub accept_conversation_request : Text → Text → World S D K → World S D K
  unfolding account_or_default
  accept_conversation_request line default_account =
      let account = account_or_default line default_account in
      require line (codes "carrier:conversationId") (codes "AcceptConversationRequest") λ conv. λ w.
        report (codes "AcceptConversationRequest")
          (Conversation.accept_conversation_request env.api account conv w.carrier) w

  unfoldable pub decline_conversation_request : Text → Text → World S D K → World S D K
  unfolding account_or_default
  decline_conversation_request line default_account =
      let account = account_or_default line default_account in
      require line (codes "carrier:conversationId") (codes "DeclineConversationRequest") λ conv.
        λ w.
          report (codes "DeclineConversationRequest")
            (Conversation.decline_conversation_request env.api account conv w.carrier) w

  unfoldable pub invite_contact : Text → Text → World S D K → World S D K
  unfolding account_or_default
  invite_contact line default_account =
      let account = account_or_default line default_account in
      require line (codes "carrier:conversationId") (codes "InviteContact") λ conv.
        require line (codes "carrier:contactUri") (codes "InviteContact") λ uri. λ w.
          report (codes "InviteContact")
            (Conversation.invite_to_conversation env.api account conv uri w.carrier) w

  unfoldable pub remove_conversation : Text → Text → World S D K → World S D K
  unfolding account_or_default
  remove_conversation line default_account =
      let account = account_or_default line default_account in
      require line (codes "carrier:conversationId") (codes "RemoveConversation") λ conv. λ w.
        report (codes "RemoveConversation")
          (Conversation.remove_conversation env.api account conv w.carrier) w

  unfoldable pub send_reaction : Text → Text → World S D K → World S D K
  unfolding account_or_default
  send_reaction line default_account =
      let account = account_or_default line default_account in
      require line (codes "carrier:conversationId") (codes "SendReaction") λ conv.
        require line (codes "carrier:messageId") (codes "SendReaction") λ msg.
          require line (codes "carrier:reaction") (codes "SendReaction") λ react. λ w.
            report (codes "SendReaction")
              (Conversation.send_reaction env.api account conv msg react w.carrier) w

  unfoldable pub send_file : Text → Text → World S D K → World S D K
  unfolding account_or_default
  send_file line default_account =
      let account = account_or_default line default_account in
      let display =
        or_else (extract_property line (codes "carrier:filename"))
          (extract_property line (codes "carrier:displayName")) in
      require line (codes "carrier:conversationId") (codes "SendFile") λ conv.
        require line (codes "carrier:path") (codes "SendFile") λ path. λ w.
          report (codes "SendFile")
            (Conversation.send_file env.api account conv path display w.carrier) w

  unfoldable pub accept_file : Text → Text → World S D K → World S D K
  unfolding account_or_default
  accept_file line default_account =
      let account = account_or_default line default_account in
      require line (codes "carrier:conversationId") (codes "AcceptFile") λ conv.
        require line (codes "carrier:messageId") (codes "AcceptFile") λ msg.
          require line (codes "carrier:fileId") (codes "AcceptFile") λ fid.
            require line (codes "carrier:path") (codes "AcceptFile") λ path. λ w.
              report (codes "AcceptFile")
                (Conversation.accept_file env.api account conv msg fid path w.carrier) w

  unfoldable pub cancel_file : Text → Text → World S D K → World S D K
  unfolding account_or_default
  cancel_file line default_account =
      let account = account_or_default line default_account in
      require line (codes "carrier:conversationId") (codes "CancelFile") λ conv.
        require line (codes "carrier:fileId") (codes "CancelFile") λ fid. λ w.
          report (codes "CancelFile") (Conversation.cancel_file env.api account conv fid w.carrier)
            w
