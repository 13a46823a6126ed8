-- ===== src/Carrier/Event/Turtle.antt =====
-- `event_to_turtle` of src/carrier.rs: the line for an event.
use antenna.Base.{List, [], ◌∷◌, ◌++◌, if◌then◌else◌, ◌==◌}
use antenna.Base.Text.{Text, codes, is_empty}
use antenna.Turtle.{quote, backslash}
use antenna.Carrier.{cstr_from_buf}
use antenna.Carrier.Time.{format_timestamp}
use antenna.Carrier.Event.Fields.{
  Field, literal, number, account_ready_fields, account_error_fields, account_archive_ready_fields,
  self_id_fields, trust_request_fields, contact_online_fields, contact_offline_fields,
  contact_name_fields, contact_restored_fields, text_message_fields, message_sent_fields,
  group_message_fields, group_peer_join_fields, group_peer_exit_fields, conversation_request_fields,
  conversation_ready_fields, saved_conversation_fields, swarm_commit_fields, reaction_fields,
  presence_fields, file_recv_fields, file_progress_fields, file_complete_fields,
  device_link_pin_fields, device_linked_fields, device_unlinked_fields, error_fields, system_fields,
}
use antenna.Carrier.Event.{Bytes, CarrierEventData, CarrierEvent}

-- The `turtle_escape` of this file
unfoldable pub turtle_escape : Text → Text
turtle_escape [] = []
turtle_escape (c ∷ s) =
    (if c == quote
      then backslash ∷ quote ∷ []
      else if c == backslash
      then backslash ∷ backslash ∷ []
      else if c == b'\n'
      then backslash ∷ b'n' ∷ []
      else if c == b'\r'
      then backslash ∷ b'r' ∷ []
      else c ∷ [])
    ++ turtle_escape s

unfoldable pub header : Text → Bytes → Text
unfolding turtle_escape
header class account_id =
    let acct = cstr_from_buf account_id in
    if is_empty acct
    then codes "[] a carrier:" ++ class
    else codes "[] a carrier:"
      ++ class
      ++ codes " ; carrier:account \""
      ++ turtle_escape acct
      ++ codes "\""

unfoldable pub render : Field → Text
unfolding turtle_escape
render (literal name value) =
    codes " ; carrier:" ++ name ++ codes " \"" ++ turtle_escape value ++ codes "\""
render (number name value) = codes " ; carrier:" ++ name ++ codes " " ++ value

unfoldable pub render_all : List Field → Text
unfolding render
render_all [] = []
render_all (f ∷ fs) = render f ++ render_all fs

-- The name that follows `carrier:` in the header
unfoldable pub class_of : CarrierEventData → Text
class_of CarrierEventData.connected = codes "Connected"
class_of CarrierEventData.disconnected = codes "Disconnected"
class_of (CarrierEventData.account_ready _) = codes "AccountReady"
class_of (CarrierEventData.account_error _) = codes "AccountError"
class_of (CarrierEventData.account_archive_ready _) = codes "AccountArchiveReady"
class_of (CarrierEventData.self_id _) = codes "SelfId"
class_of (CarrierEventData.trust_request _) = codes "TrustRequest"
class_of (CarrierEventData.contact_online _) = codes "ContactOnline"
class_of (CarrierEventData.contact_offline _) = codes "ContactOffline"
class_of (CarrierEventData.contact_name _) = codes "ContactName"
class_of (CarrierEventData.contact_restored _) = codes "ContactRestored"
class_of (CarrierEventData.text_message _) = codes "TextMessage"
class_of (CarrierEventData.message_sent _) = codes "MessageSent"
class_of (CarrierEventData.group_message _) = codes "GroupMessage"
class_of (CarrierEventData.group_peer_join _) = codes "GroupPeerJoin"
class_of (CarrierEventData.group_peer_exit _) = codes "GroupPeerExit"
class_of (CarrierEventData.conversation_request _) = codes "ConversationRequest"
class_of (CarrierEventData.conversation_ready _) = codes "ConversationReady"
class_of (CarrierEventData.saved_conversation _) = codes "SavedConversation"
class_of CarrierEventData.conversation_sync_finished = codes "ConversationSyncFinished"
class_of (CarrierEventData.swarm_commit _) = codes "SwarmCommit"
class_of (CarrierEventData.reaction _) = codes "Reaction"
class_of (CarrierEventData.presence _) = codes "Presence"
class_of (CarrierEventData.file_recv _) = codes "FileRecv"
class_of (CarrierEventData.file_progress _) = codes "FileProgress"
class_of (CarrierEventData.file_complete _) = codes "FileComplete"
class_of (CarrierEventData.device_link_pin _) = codes "DeviceLinkPin"
class_of (CarrierEventData.device_linked _) = codes "DeviceLinked"
class_of (CarrierEventData.device_unlinked _) = codes "DeviceUnlinked"
class_of (CarrierEventData.error _) = codes "Error"
class_of (CarrierEventData.system _) = codes "System"

-- The properties of an event
unfoldable pub fields : CarrierEventData → List Field
fields CarrierEventData.connected = []
fields CarrierEventData.disconnected = []
fields (CarrierEventData.account_ready d) = account_ready_fields d
fields (CarrierEventData.account_error d) = account_error_fields d
fields (CarrierEventData.account_archive_ready d) = account_archive_ready_fields d
fields (CarrierEventData.self_id d) = self_id_fields d
fields (CarrierEventData.trust_request d) = trust_request_fields d
fields (CarrierEventData.contact_online d) = contact_online_fields d
fields (CarrierEventData.contact_offline d) = contact_offline_fields d
fields (CarrierEventData.contact_name d) = contact_name_fields d
fields (CarrierEventData.contact_restored d) = contact_restored_fields d
fields (CarrierEventData.text_message d) = text_message_fields d
fields (CarrierEventData.message_sent d) = message_sent_fields d
fields (CarrierEventData.group_message d) = group_message_fields d
fields (CarrierEventData.group_peer_join d) = group_peer_join_fields d
fields (CarrierEventData.group_peer_exit d) = group_peer_exit_fields d
fields (CarrierEventData.conversation_request d) = conversation_request_fields d
fields (CarrierEventData.conversation_ready d) = conversation_ready_fields d
fields (CarrierEventData.saved_conversation d) = saved_conversation_fields d
fields CarrierEventData.conversation_sync_finished = []
fields (CarrierEventData.swarm_commit d) = swarm_commit_fields d
fields (CarrierEventData.reaction d) = reaction_fields d
fields (CarrierEventData.presence d) = presence_fields d
fields (CarrierEventData.file_recv d) = file_recv_fields d
fields (CarrierEventData.file_progress d) = file_progress_fields d
fields (CarrierEventData.file_complete d) = file_complete_fields d
fields (CarrierEventData.device_link_pin d) = device_link_pin_fields d
fields (CarrierEventData.device_linked d) = device_linked_fields d
fields (CarrierEventData.device_unlinked d) = device_unlinked_fields d
fields (CarrierEventData.error d) = error_fields d
fields (CarrierEventData.system d) = system_fields d

unfoldable pub event_to_turtle : CarrierEvent → Text
unfolding header render_all class_of fields
event_to_turtle ev =
    header (class_of ev.event) ev.account_id
    ++ render_all (fields ev.event)
    ++ (codes " ; carrier:at \"" ++ format_timestamp ev.timestamp ++ codes "\"^^xsd:dateTime")
    ++ codes " ."
