-- ===== src/Dispatch/Command/Contact.antt =====
-- The arms of `handle_carrier` in src/dispatch.rs about contacts.
use antenna.Base.Text.{Text, codes, text_eq}
use antenna.Carrier.Contact
use antenna.Dispatch.Command.{account_or_default, report, require}
use antenna.Dispatch.Spin.{or_else}
use antenna.Dispatch.World.{Env, World}
use antenna.Turtle.{extract_property}

module _ {S T D K : Type 0} (env : Env S T D K) where
  unfoldable pub send_trust_request : Text → Text → World S D K → World S D K
  unfolding account_or_default
  send_trust_request line default_account =
      let account = account_or_default line default_account in
      let payload =
        or_else (extract_property line (codes "carrier:payload"))
          (extract_property line (codes "carrier:message")) in
      require line (codes "carrier:contactUri") (codes "SendTrustRequest") λ uri. λ w.
        report (codes "SendTrustRequest")
          (Contact.send_trust_request env.api account uri payload w.carrier) w

  unfoldable pub accept_trust_request : Text → Text → World S D K → World S D K
  unfolding account_or_default
  accept_trust_request line default_account =
      let account = account_or_default line default_account in
      require line (codes "carrier:contactUri") (codes "AcceptTrustRequest") λ uri. λ w.
        report (codes "AcceptTrustRequest")
          (Contact.accept_trust_request env.api account uri w.carrier) w

  unfoldable pub discard_trust_request : Text → Text → World S D K → World S D K
  unfolding account_or_default
  discard_trust_request line default_account =
      let account = account_or_default line default_account in
      require line (codes "carrier:contactUri") (codes "DiscardTrustRequest") λ uri. λ w.
        report (codes "DiscardTrustRequest")
          (Contact.discard_trust_request env.api account uri w.carrier) w

  unfoldable pub remove_contact : Text → Text → World S D K → World S D K
  unfolding account_or_default
  remove_contact line default_account =
      let account = account_or_default line default_account in
      require line (codes "carrier:contactUri") (codes "RemoveContact") λ uri.
        λ w. report (codes "RemoveContact") (Contact.remove_contact env.api account uri w.carrier) w

  unfoldable pub block_contact : Text → Text → World S D K → World S D K
  unfolding account_or_default
  block_contact line default_account =
      let account = account_or_default line default_account in
      require line (codes "carrier:contactUri") (codes "BlockContact") λ uri.
        λ w. report (codes "BlockContact") (Contact.block_peer env.api account uri w.carrier) w

  unfoldable pub unblock_contact : Text → Text → World S D K → World S D K
  unfolding account_or_default
  unblock_contact line default_account =
      let account = account_or_default line default_account in
      require line (codes "carrier:contactUri") (codes "UnblockContact") λ uri.
        λ w. report (codes "UnblockContact") (Contact.unblock_peer env.api account uri w.carrier) w

  unfoldable pub send_msg : Text → Text → World S D K → World S D K
  unfolding account_or_default
  send_msg line default_account =
      let account = account_or_default line default_account in
      require line (codes "carrier:contactUri") (codes "SendMsg") λ uri.
        require line (codes "carrier:text") (codes "SendMsg") λ text.
          λ w. report (codes "SendMsg") (Contact.send_message env.api account uri text w.carrier) w

  -- `SubscribePresence` and `UnsubscribePresence`
  unfoldable pub subscribe_presence : Text → Text → Text → World S D K → World S D K
  unfolding account_or_default
  subscribe_presence local line default_account =
      let account = account_or_default line default_account in
      require line (codes "carrier:contactUri") local λ uri. λ w.
        report local
          (Contact.subscribe_presence env.api account uri
            (text_eq local (codes "SubscribePresence")) w.carrier)
          w
