-- ===== src/Carrier/Contact.antt =====
-- The methods of `CarrierClient` in src/carrier.rs about contacts.
use antenna.Base.{Bool, Option}
use antenna.Base.Text.{Text, codes}
use antenna.Base.Result.{ok, ◌>>=◌}
use antenna.Carrier.{Call, CarrierApi, Method, unit, c_string, c_string_opt, invoke}

module _ {K : Type 0} (api : CarrierApi K) where
  unfoldable pub send_trust_request : Text → Text → Option Text → Method K (Unit {0})
  send_trust_request account_id contact_uri message =
      invoke api unit (codes "carrier_send_trust_request") do
        id_c ← c_string api account_id
        uri_c ← c_string api contact_uri
        msg_c ← c_string_opt api message
        ok (Call.send_trust_request id_c uri_c msg_c)

  unfoldable pub accept_trust_request : Text → Text → Method K (Unit {0})
  accept_trust_request account_id contact_uri =
      invoke api unit (codes "carrier_accept_trust_request") do
        id_c ← c_string api account_id
        uri_c ← c_string api contact_uri
        ok (Call.accept_trust_request id_c uri_c)

  unfoldable pub discard_trust_request : Text → Text → Method K (Unit {0})
  discard_trust_request account_id contact_uri =
      invoke api unit (codes "carrier_discard_trust_request") do
        id_c ← c_string api account_id
        uri_c ← c_string api contact_uri
        ok (Call.discard_trust_request id_c uri_c)

  unfoldable pub remove_contact : Text → Text → Method K (Unit {0})
  remove_contact account_id contact_uri = invoke api unit (codes "carrier_remove_contact") do
    id_c ← c_string api account_id
    uri_c ← c_string api contact_uri
    ok (Call.remove_contact id_c uri_c)

  unfoldable pub block_peer : Text → Text → Method K (Unit {0})
  block_peer account_id contact_uri = invoke api unit (codes "carrier_block_peer") do
    id_c ← c_string api account_id
    uri_c ← c_string api contact_uri
    ok (Call.block_peer id_c uri_c)

  unfoldable pub unblock_peer : Text → Text → Method K (Unit {0})
  unblock_peer account_id contact_uri = invoke api unit (codes "carrier_unblock_peer") do
    id_c ← c_string api account_id
    uri_c ← c_string api contact_uri
    ok (Call.unblock_peer id_c uri_c)

  unfoldable pub send_message : Text → Text → Text → Method K (Unit {0})
  send_message account_id contact_uri text = invoke api unit (codes "carrier_send_message") do
    id_c ← c_string api account_id
    uri_c ← c_string api contact_uri
    text_c ← c_string api text
    ok (Call.send_message id_c uri_c text_c)

  unfoldable pub subscribe_presence : Text → Text → Bool → Method K (Unit {0})
  subscribe_presence account_id contact_uri subscribe =
      invoke api unit (codes "carrier_subscribe_presence") do
        id_c ← c_string api account_id
        uri_c ← c_string api contact_uri
        ok (Call.subscribe_presence id_c uri_c subscribe)
