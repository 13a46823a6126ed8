-- ===== src/Carrier/Conversation.antt =====
-- The methods of `CarrierClient` in src/carrier.rs about conversations and files.
use antenna.Base.{ℕ, Option}
use antenna.Base.Text.{Text, codes}
use antenna.Base.Result.{ok, ◌>>=◌}
use antenna.Carrier.{Call, CarrierApi, Method, unit, cstr_from_buf, c_string, c_string_opt, invoke}

module _ {K : Type 0} (api : CarrierApi K) where
  unfoldable pub create_conversation : Text → Option Text → Method K Text
  create_conversation account_id privacy =
      invoke api cstr_from_buf (codes "carrier_create_conversation") do
        id_c ← c_string api account_id
        privacy_c ← c_string_opt api privacy
        ok (Call.create_conversation id_c privacy_c)

  unfoldable pub get_saved_conversation : Text → Method K (Unit {0})
  get_saved_conversation account_id =
      invoke api unit (codes "carrier_get_saved_conversation")
        do id_c ← c_string api account_id; ok (Call.get_saved_conversation id_c)

  unfoldable pub send_conversation_message : Text → Text → Text → Method K (Unit {0})
  send_conversation_message account_id conversation_id text =
      invoke api unit (codes "carrier_send_conversation_message") do
        id_c ← c_string api account_id
        conv_c ← c_string api conversation_id
        text_c ← c_string api text
        ok (Call.send_conversation_message id_c conv_c text_c)

  unfoldable pub load_conversation_messages : Text → Text → Text → ℕ → Method K (Unit {0})
  load_conversation_messages account_id conversation_id from_message n =
      invoke api unit (codes "carrier_load_conversation_messages") do
        id_c ← c_string api account_id
        conv_c ← c_string api conversation_id
        from_c ← c_string api from_message
        ok (Call.load_conversation_messages id_c conv_c from_c n)

  unfoldable pub clear_conversation_cache : Text → Text → Method K (Unit {0})
  clear_conversation_cache account_id conversation_id =
      invoke api unit (codes "carrier_clear_conversation_cache") do
        id_c ← c_string api account_id
        conv_c ← c_string api conversation_id
        ok (Call.clear_conversation_cache id_c conv_c)

  unfoldable pub accept_conversation_request : Text → Text → Method K (Unit {0})
  accept_conversation_request account_id conversation_id =
      invoke api unit (codes "carrier_accept_conversation_request") do
        id_c ← c_string api account_id
        conv_c ← c_string api conversation_id
        ok (Call.accept_conversation_request id_c conv_c)

  unfoldable pub decline_conversation_request : Text → Text → Method K (Unit {0})
  decline_conversation_request account_id conversation_id =
      invoke api unit (codes "carrier_decline_conversation_request") do
        id_c ← c_string api account_id
        conv_c ← c_string api conversation_id
        ok (Call.decline_conversation_request id_c conv_c)

  unfoldable pub invite_to_conversation : Text → Text → Text → Method K (Unit {0})
  invite_to_conversation account_id conversation_id contact_uri =
      invoke api unit (codes "carrier_invite_to_conversation") do
        id_c ← c_string api account_id
        conv_c ← c_string api conversation_id
        uri_c ← c_string api contact_uri
        ok (Call.invite_to_conversation id_c conv_c uri_c)

  unfoldable pub remove_conversation : Text → Text → Method K (Unit {0})
  remove_conversation account_id conversation_id =
      invoke api unit (codes "carrier_remove_conversation") do
        id_c ← c_string api account_id
        conv_c ← c_string api conversation_id
        ok (Call.remove_conversation id_c conv_c)

  unfoldable pub send_reaction : Text → Text → Text → Text → Method K (Unit {0})
  send_reaction account_id conversation_id message_id reaction =
      invoke api unit (codes "carrier_send_reaction") do
        id_c ← c_string api account_id
        conv_c ← c_string api conversation_id
        msg_c ← c_string api message_id
        react_c ← c_string api reaction
        ok (Call.send_reaction id_c conv_c msg_c react_c)

  unfoldable pub send_file : Text → Text → Text → Option Text → Method K (Unit {0})
  send_file account_id conversation_id path display_name =
      invoke api unit (codes "carrier_send_file") do
        id_c ← c_string api account_id
        conv_c ← c_string api conversation_id
        path_c ← c_string api path
        name_c ← c_string_opt api display_name
        ok (Call.send_file id_c conv_c path_c name_c)

  unfoldable pub accept_file : Text → Text → Text → Text → Text → Method K (Unit {0})
  accept_file account_id conversation_id message_id file_id path =
      invoke api unit (codes "carrier_accept_file") do
        id_c ← c_string api account_id
        conv_c ← c_string api conversation_id
        msg_c ← c_string api message_id
        fid_c ← c_string api file_id
        path_c ← c_string api path
        ok (Call.accept_file id_c conv_c msg_c fid_c path_c)

  unfoldable pub cancel_file : Text → Text → Text → Method K (Unit {0})
  cancel_file account_id conversation_id file_id = invoke api unit (codes "carrier_cancel_file") do
    id_c ← c_string api account_id
    conv_c ← c_string api conversation_id
    fid_c ← c_string api file_id
    ok (Call.cancel_file id_c conv_c fid_c)
