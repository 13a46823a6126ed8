-- ===== src/Carrier/Account.antt =====
-- The methods of `CarrierClient` in src/carrier.rs about accounts and devices: each converts its texts
-- to C strings in order, calls, and turns a negative return code into an error.
use antenna.Base.{Bool, true, false, Option, none, some, if◌then◌else◌}
use antenna.Base.Text.{Text, codes, is_empty}
use antenna.Base.Result.{Result, ok, ◌>>=◌}
use antenna.Base.Numbers.{ℤ, pos, negsuc}
use antenna.Carrier.{
  Call, CarrierApi, CarrierClient, Method, unit, cstr_from_buf, c_string, c_string_opt, invoke,
}

-- `AccountNetworkConfig`
pub record AccountNetworkConfig : Type 0 where
  pub proxy_enabled : Option Bool
  pub dht_proxy_list_url : Option Text
  pub proxy_server : Option Text
  pub bootstrap : Option Text
  pub turn_server : Option Text
  pub turn_username : Option Text
  pub turn_password : Option Text

-- `None` leaves the setting as it is.
unfoldable pub proxy_flag : Option Bool → ℤ
proxy_flag none = negsuc 0
proxy_flag (some false) = pos 0
proxy_flag (some true) = pos 1

module _ {K : Type 0} where
  unfoldable pub set_pending_auto_export : Text → CarrierClient K → CarrierClient K
  set_pending_auto_export path c = record c { pending_auto_export = some path }

  unfoldable pub take_pending_auto_export : CarrierClient K → Option Text × CarrierClient K
  take_pending_auto_export c = (c.pending_auto_export, record c { pending_auto_export = none })

module _ {K : Type 0} (api : CarrierApi K) where
  unfoldable pub to_c : Option Text → Result (Option Text)
  to_c none = ok none
  to_c (some v) = if is_empty v then ok none else (c_string api v >>= λ c. ok (some c))

  unfoldable pub create_account : Option Text → Option Text → Option Text → Method K Text
  create_account display_name archive_path archive_password =
      invoke api cstr_from_buf (codes "carrier_create_account") do
        name_c ← c_string_opt api display_name
        arch_c ← c_string_opt api archive_path
        pw_c ← c_string_opt api archive_password
        ok (Call.create_account name_c arch_c pw_c)

  unfoldable pub load_account : Text → Method K (Unit {0})
  load_account account_id =
      invoke api unit (codes "carrier_load_account")
        do id_c ← c_string api account_id; ok (Call.load_account id_c)

  unfoldable pub export_account : Text → Text → Option Text → Method K (Unit {0})
  export_account account_id destination_path password =
      invoke api unit (codes "carrier_export_account") do
        id_c ← c_string api account_id
        dest_c ← c_string api destination_path
        pw_c ← c_string_opt api password
        ok (Call.export_account id_c dest_c pw_c)

  unfoldable pub remove_account : Text → Method K (Unit {0})
  remove_account account_id =
      invoke api unit (codes "carrier_remove_account")
        do id_c ← c_string api account_id; ok (Call.remove_account id_c)

  unfoldable pub get_id : Text → Method K (Unit {0})
  get_id account_id =
      invoke api unit (codes "carrier_get_id")
        do id_c ← c_string api account_id; ok (Call.get_id id_c)

  unfoldable pub set_nick : Text → Text → Method K (Unit {0})
  set_nick account_id nick =
      invoke api unit (codes "carrier_set_nick") do
        id_c ← c_string api account_id
        nick_c ← c_string api nick
        ok (Call.set_nick id_c nick_c)

  unfoldable pub apply_dht_preset : Text → Method K (Unit {0})
  apply_dht_preset account_id =
      invoke api unit (codes "carrier_apply_dht_preset")
        do id_c ← c_string api account_id; ok (Call.apply_dht_preset id_c)

  unfoldable pub set_account_config : Text → AccountNetworkConfig → Method K (Unit {0})
  unfolding to_c proxy_flag
  set_account_config account_id cfg = invoke api unit (codes "carrier_set_account_config") do
    id_c ← c_string api account_id
    dht_c ← to_c cfg.dht_proxy_list_url
    proxy_c ← to_c cfg.proxy_server
    boot_c ← to_c cfg.bootstrap
    turn_c ← to_c cfg.turn_server
    tuser_c ← to_c cfg.turn_username
    tpass_c ← to_c cfg.turn_password
    ok (
        Call.set_account_config id_c (proxy_flag cfg.proxy_enabled) dht_c proxy_c boot_c turn_c
          tuser_c tpass_c)

  unfoldable pub create_linking_account : Method K Text
  create_linking_account =
      invoke api cstr_from_buf (codes "carrier_create_linking_account")
        do ok Call.create_linking_account

  unfoldable pub authorize_device : Text → Text → Method K (Unit {0})
  authorize_device account_id pin = invoke api unit (codes "carrier_authorize_device") do
    id_c ← c_string api account_id
    pin_c ← c_string api pin
    ok (Call.authorize_device id_c pin_c)

  unfoldable pub revoke_device : Text → Text → Method K (Unit {0})
  revoke_device account_id device_id = invoke api unit (codes "carrier_revoke_device") do
    id_c ← c_string api account_id
    did_c ← c_string api device_id
    ok (Call.revoke_device id_c did_c)
