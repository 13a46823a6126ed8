-- ===== src/Carrier/Event/Fields.antt =====
-- The properties of the lines of `event_to_turtle` in src/carrier.rs: a function for each arm.
use antenna.Base.{ℕ, List, [], ◌∷◌, ◌++◌, Option, none, some, if◌then◌else◌, take, ltb, ◌==◌}
use antenna.Base.Text.{Text, codes, is_empty}
use antenna.Base.Numbers.{decimal, decimal_ℤ}
use antenna.Base.Utf8.{from_utf8_lossy}
use antenna.Carrier.{cstr_from_buf, until_nul}
use antenna.Carrier.Event.{
  Bytes, AccountReadyData, AccountErrorData, AccountArchiveReadyData, SelfIdData, TrustRequestData,
  ContactOnlineData, ContactOfflineData, ContactNameData, ContactRestoredData, TextMessageData,
  MessageSentData, GroupMessageData, GroupPeerJoinData, GroupPeerExitData, ConversationRequestData,
  ConversationReadyData, SavedConversationData, SwarmCommitData, ReactionData, PresenceData,
  FileRecvData, FileProgressData, FileCompleteData, DeviceLinkPinData, DeviceLinkedData,
  DeviceUnlinkedData, ErrorData, SystemData,
}

unfoldable pub cstr_to_string : Option Bytes → Text → Text
cstr_to_string none fallback = fallback
cstr_to_string (some p) fallback = from_utf8_lossy (until_nul p)

unfoldable pub bytes_to_string : Option Bytes → ℕ → Text
bytes_to_string none len = []
bytes_to_string (some p) len = if len == 0 then [] else from_utf8_lossy (take len p)

-- A property of the line: a literal that is escaped, or a number.
pub data Field : Type 0 where
  literal : Text → Text → Field
  number : Text → Text → Field

-- A property of a buffer
abbrev pub buffer : Text → Bytes → Field
buffer name buf = literal name (cstr_from_buf buf)

-- A property that is left out if it is empty
abbrev pub optional : Text → Bytes → List Field
optional name buf =
    if is_empty (cstr_from_buf buf) then [] else literal name (cstr_from_buf buf) ∷ []

-- The payload of a trust request, if there is one
abbrev pub payload_of : Option Bytes → ℕ → List Field
payload_of none len = []
payload_of (some p) len =
    if ltb 0 len then literal (codes "payload") (bytes_to_string (some p) len) ∷ [] else []

-- The properties between the account and the time, for each arm of the `match`
abbrev pub account_ready_fields : AccountReadyData → List Field
account_ready_fields d =
    (buffer (codes "selfUri") d.self_uri ∷ []) ++ optional (codes "displayName") d.display_name

abbrev pub account_error_fields : AccountErrorData → List Field
account_error_fields d = literal (codes "cause") (cstr_to_string d.cause []) ∷ []

abbrev pub account_archive_ready_fields : AccountArchiveReadyData → List Field
account_archive_ready_fields d = buffer (codes "path") d.path ∷ []

abbrev pub self_id_fields : SelfIdData → List Field
self_id_fields d = buffer (codes "selfUri") d.self_uri ∷ []

abbrev pub trust_request_fields : TrustRequestData → List Field
trust_request_fields d =
    (buffer (codes "contactUri") d.from_uri ∷ []) ++ payload_of d.payload d.payload_len

abbrev pub contact_online_fields : ContactOnlineData → List Field
contact_online_fields d = buffer (codes "contactUri") d.contact_uri ∷ []

abbrev pub contact_offline_fields : ContactOfflineData → List Field
contact_offline_fields d = buffer (codes "contactUri") d.contact_uri ∷ []

abbrev pub contact_name_fields : ContactNameData → List Field
contact_name_fields d =
    buffer (codes "contactUri") d.contact_uri ∷ buffer (codes "displayName") d.display_name ∷ []

abbrev pub contact_restored_fields : ContactRestoredData → List Field
contact_restored_fields d =
    buffer (codes "contactUri") d.contact_uri
    ∷ buffer (codes "displayName") d.display_name
    ∷ literal (codes "blocked") (if d.blocked then codes "true" else codes "false")
    ∷ []

abbrev pub text_message_fields : TextMessageData → List Field
text_message_fields d =
    buffer (codes "contactUri") d.contact_uri
    ∷ buffer (codes "conversationId") d.conversation_id
    ∷ buffer (codes "messageId") d.message_id
    ∷ literal (codes "text") (bytes_to_string d.text d.text_len)
    ∷ []

abbrev pub message_sent_fields : MessageSentData → List Field
message_sent_fields d =
    buffer (codes "contactUri") d.contact_uri
    ∷ buffer (codes "conversationId") d.conversation_id
    ∷ buffer (codes "messageId") d.message_id
    ∷ number (codes "status") (decimal_ℤ d.status)
    ∷ []

abbrev pub group_message_fields : GroupMessageData → List Field
group_message_fields d =
    (buffer (codes "conversationId") d.conversation_id
      ∷ buffer (codes "messageId") d.message_id
      ∷ buffer (codes "contactUri") d.contact_uri
      ∷ [])
    ++ optional (codes "displayName") d.display_name
    ++ (literal (codes "text") (bytes_to_string d.text d.text_len) ∷ [])

abbrev pub group_peer_join_fields : GroupPeerJoinData → List Field
group_peer_join_fields d =
    buffer (codes "conversationId") d.conversation_id ∷ buffer (codes "memberUri") d.member_uri ∷ []

abbrev pub group_peer_exit_fields : GroupPeerExitData → List Field
group_peer_exit_fields d =
    buffer (codes "conversationId") d.conversation_id ∷ buffer (codes "memberUri") d.member_uri ∷ []

abbrev pub conversation_request_fields : ConversationRequestData → List Field
conversation_request_fields d =
    buffer (codes "conversationId") d.conversation_id
    ∷ buffer (codes "contactUri") d.contact_uri
    ∷ []

abbrev pub conversation_ready_fields : ConversationReadyData → List Field
conversation_ready_fields d = buffer (codes "conversationId") d.conversation_id ∷ []

abbrev pub saved_conversation_fields : SavedConversationData → List Field
saved_conversation_fields d = buffer (codes "conversationId") d.conversation_id ∷ []

abbrev pub swarm_commit_fields : SwarmCommitData → List Field
swarm_commit_fields d =
    buffer (codes "conversationId") d.conversation_id
    ∷ buffer (codes "contactUri") d.contact_uri
    ∷ buffer (codes "messageId") d.message_id
    ∷ []

abbrev pub reaction_fields : ReactionData → List Field
reaction_fields d =
    (buffer (codes "conversationId") d.conversation_id
      ∷ buffer (codes "messageId") d.message_id
      ∷ buffer (codes "contactUri") d.contact_uri
      ∷ buffer (codes "reaction") d.text
      ∷ [])
    ++ optional (codes "reactionId") d.reaction_id

abbrev pub presence_fields : PresenceData → List Field
presence_fields d =
    buffer (codes "contactUri") d.contact_uri ∷ buffer (codes "status") d.status ∷ []

abbrev pub file_recv_fields : FileRecvData → List Field
file_recv_fields d =
    (buffer (codes "conversationId") d.conversation_id
      ∷ buffer (codes "contactUri") d.contact_uri
      ∷ buffer (codes "messageId") d.message_id
      ∷ buffer (codes "fileId") d.file_id
      ∷ [])
    ++ optional (codes "filename") d.filename
    ++ (number (codes "size") (decimal d.size) ∷ [])

abbrev pub file_progress_fields : FileProgressData → List Field
file_progress_fields d =
    buffer (codes "conversationId") d.conversation_id ∷ buffer (codes "fileId") d.file_id ∷ []

abbrev pub file_complete_fields : FileCompleteData → List Field
file_complete_fields d =
    buffer (codes "conversationId") d.conversation_id
    ∷ buffer (codes "fileId") d.file_id
    ∷ buffer (codes "status") d.status
    ∷ []

abbrev pub device_link_pin_fields : DeviceLinkPinData → List Field
device_link_pin_fields d = buffer (codes "pin") d.pin ∷ []

abbrev pub device_linked_fields : DeviceLinkedData → List Field
device_linked_fields d = buffer (codes "contactUri") d.device_id ∷ []

abbrev pub device_unlinked_fields : DeviceUnlinkedData → List Field
device_unlinked_fields d = buffer (codes "contactUri") d.device_id ∷ []

abbrev pub error_fields : ErrorData → List Field
error_fields d =
    buffer (codes "command") d.command
    ∷ buffer (codes "class") d.class_
    ∷ literal (codes "message") (cstr_to_string d.text [])
    ∷ []

abbrev pub system_fields : SystemData → List Field
system_fields d = literal (codes "message") (cstr_to_string d.text []) ∷ []
