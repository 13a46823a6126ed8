-- ===== src/Dispatch/Command/Account.antt =====
-- The arms of `handle_carrier` in src/dispatch.rs about accounts and devices.
use mathlib.Core.Option
use antenna.Base.{Bool, false, Option, none, some, if◌then◌else◌}
use antenna.Base.Text.{Text, codes, text_eq}
use antenna.Carrier.Account
use antenna.Carrier.Account.{AccountNetworkConfig, set_pending_auto_export}
use antenna.Dispatch.Command.{non_empty, account_or_default, report, require}
use antenna.Dispatch.Spin.{or_else, error_message}
use antenna.Dispatch.World.{Env, World, send}
use antenna.Turtle.{extract_property}

-- `… .as_deref() == Some("resonator")`
abbrev is_preset : Option Text → Bool
is_preset none = false
is_preset (some p) = text_eq p (codes "resonator")

module _ {S T D K : Type 0} (env : Env S T D K) where
  -- `carrier.set_pending_auto_export(p)`, if the line has a path
  unfoldable pub stash_export : Option Text → World S D K → World S D K
  stash_export none w = w
  stash_export (some p) w = record w { carrier = set_pending_auto_export p w.carrier }

  -- `CreateAccount` and `ImportAccount`
  unfoldable pub create_account : Text → Text → World S D K → World S D K
  unfolding non_empty stash_export
  create_account local line w0 =
      let display_name = extract_property line (codes "carrier:displayName") in
      let archive_path = non_empty (extract_property line (codes "carrier:archivePath")) in
      let archive_password = non_empty (extract_property line (codes "carrier:archivePassword")) in
      let w =
        stash_export (non_empty (extract_property line (codes "carrier:autoExportPath"))) w0 in
      report local
        (Account.create_account env.api display_name archive_path archive_password w.carrier) w

  unfoldable pub export_account : Text → Text → World S D K → World S D K
  unfolding account_or_default
  export_account line default_account =
      let account = account_or_default line default_account in
      let password = non_empty (extract_property line (codes "carrier:archivePassword")) in
      require line (codes "carrier:path") (codes "ExportAccount") λ path. λ w.
        report (codes "ExportAccount")
          (Account.export_account env.api account path password w.carrier) w

  unfoldable pub load_account : Text → World S D K → World S D K
  unfolding non_empty send
  load_account line w = elim (non_empty (extract_property line (codes "carrier:account"))) [
    | none ↦ send (error_message (codes "LoadAccount missing carrier:account")) w
    | some account ↦ report (codes "LoadAccount") (Account.load_account env.api account w.carrier) w
  ]

  unfoldable pub get_id : Text → Text → World S D K → World S D K
  unfolding account_or_default
  get_id line default_account =
      let account = account_or_default line default_account in
      λ w. report (codes "GetId") (Account.get_id env.api account w.carrier) w

  unfoldable pub set_nick : Text → Text → World S D K → World S D K
  unfolding account_or_default send
  set_nick line default_account w =
      let account = account_or_default line default_account in
      elim (or_else (extract_property line (codes "carrier:displayName"))
        (extract_property line (codes "carrier:nick"))) [
          | none ↦ send (error_message (codes "SetNick missing carrier:displayName")) w
          | some nick ↦ report (codes "SetNick") (Account.set_nick env.api account nick w.carrier) w
        ]

  unfoldable pub network_config : Text → AccountNetworkConfig
  network_config line = record {
    proxy_enabled =
        Option.map (λ v. text_eq v (codes "true"))
          (extract_property line (codes "carrier:proxyEnabled"));
    dht_proxy_list_url = extract_property line (codes "carrier:dhtProxyListUrl");
    proxy_server = extract_property line (codes "carrier:proxyServer");
    bootstrap = extract_property line (codes "carrier:bootstrap");
    turn_server = extract_property line (codes "carrier:turnServer");
    turn_username = extract_property line (codes "carrier:turnUsername");
    turn_password = extract_property line (codes "carrier:turnPassword");
  }

  -- `carrier:preset "resonator"` makes the preset call and nothing else.
  unfoldable pub set_account_config : Text → Text → World S D K → World S D K
  unfolding account_or_default network_config
  set_account_config line default_account w =
      let account = account_or_default line default_account in
      if is_preset (extract_property line (codes "carrier:preset"))
      then report (codes "SetAccountConfig") (Account.apply_dht_preset env.api account w.carrier) w
      else report (codes "SetAccountConfig")
          (Account.set_account_config env.api account (network_config line) w.carrier) w

  unfoldable pub link_device : World S D K → World S D K
  link_device w = report (codes "LinkDevice") (Account.create_linking_account env.api w.carrier) w

  unfoldable pub authorize_device : Text → Text → World S D K → World S D K
  unfolding account_or_default
  authorize_device line default_account =
      let account = account_or_default line default_account in
      require line (codes "carrier:pin") (codes "AuthorizeDevice") λ pin. λ w.
        report (codes "AuthorizeDevice") (Account.authorize_device env.api account pin w.carrier) w

  unfoldable pub revoke_device : Text → Text → World S D K → World S D K
  unfolding account_or_default
  revoke_device line default_account =
      let account = account_or_default line default_account in
      require line (codes "carrier:contactUri") (codes "RevokeDevice") λ device_id. λ w.
        report (codes "RevokeDevice") (Account.revoke_device env.api account device_id w.carrier) w
