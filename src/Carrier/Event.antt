-- ===== src/Carrier/Event.antt =====
-- The events of libcarrier in src/carrier.rs: a struct of data for each type of event. A fixed array is
-- the list of its bytes; a pointer is `none` if it is null and else the memory from there on.
use antenna.Base.{ℕ, Bool, Option, List}
use antenna.Base.Numbers.{ℤ}
pub mod Fields
pub mod Turtle
pub mod Line
pub mod Shape
pub mod Read

abbrev pub Bytes : Type 0
Bytes = List ℕ

pub record AccountReadyData : Type 0 where
  pub self_uri : Bytes
  pub display_name : Bytes

pub record AccountErrorData : Type 0 where
  pub cause : Option Bytes

pub record AccountArchiveReadyData : Type 0 where
  pub path : Bytes

pub record SelfIdData : Type 0 where
  pub self_uri : Bytes

pub record TrustRequestData : Type 0 where
  pub from_uri : Bytes
  pub payload : Option Bytes
  pub payload_len : ℕ

pub record ContactOnlineData : Type 0 where
  pub contact_uri : Bytes

pub record ContactOfflineData : Type 0 where
  pub contact_uri : Bytes

pub record ContactNameData : Type 0 where
  pub contact_uri : Bytes
  pub display_name : Bytes

pub record ContactRestoredData : Type 0 where
  pub contact_uri : Bytes
  pub display_name : Bytes
  pub blocked : Bool

pub record TextMessageData : Type 0 where
  pub contact_uri : Bytes
  pub conversation_id : Bytes
  pub message_id : Bytes
  pub text : Option Bytes
  pub text_len : ℕ

pub record MessageSentData : Type 0 where
  pub contact_uri : Bytes
  pub conversation_id : Bytes
  pub message_id : Bytes
  pub status : ℤ

pub record GroupMessageData : Type 0 where
  pub conversation_id : Bytes
  pub message_id : Bytes
  pub contact_uri : Bytes
  pub display_name : Bytes
  pub text : Option Bytes
  pub text_len : ℕ

pub record GroupPeerJoinData : Type 0 where
  pub conversation_id : Bytes
  pub member_uri : Bytes

pub record GroupPeerExitData : Type 0 where
  pub conversation_id : Bytes
  pub member_uri : Bytes

pub record ConversationRequestData : Type 0 where
  pub conversation_id : Bytes
  pub contact_uri : Bytes

pub record ConversationReadyData : Type 0 where
  pub conversation_id : Bytes

pub record SavedConversationData : Type 0 where
  pub conversation_id : Bytes

pub record SwarmCommitData : Type 0 where
  pub conversation_id : Bytes
  pub message_id : Bytes
  pub contact_uri : Bytes

pub record ReactionData : Type 0 where
  pub conversation_id : Bytes
  pub message_id : Bytes
  pub reaction_id : Bytes
  pub contact_uri : Bytes
  pub text : Bytes

pub record PresenceData : Type 0 where
  pub contact_uri : Bytes
  pub status : Bytes

pub record FileRecvData : Type 0 where
  pub conversation_id : Bytes
  pub contact_uri : Bytes
  pub message_id : Bytes
  pub file_id : Bytes
  pub filename : Bytes
  pub size : ℕ

pub record FileProgressData : Type 0 where
  pub conversation_id : Bytes
  pub file_id : Bytes

pub record FileCompleteData : Type 0 where
  pub conversation_id : Bytes
  pub file_id : Bytes
  pub status : Bytes

pub record DeviceLinkPinData : Type 0 where
  pub pin : Bytes

pub record DeviceLinkedData : Type 0 where
  pub device_id : Bytes

pub record DeviceUnlinkedData : Type 0 where
  pub device_id : Bytes

pub record ErrorData : Type 0 where
  pub command : Bytes
  pub class_ : Bytes
  pub text : Option Bytes

pub record SystemData : Type 0 where
  pub text : Option Bytes

-- The type of the event and the part of the union that belongs to it.
pub data CarrierEventData : Type 0 where
  connected : CarrierEventData
  disconnected : CarrierEventData
  account_ready : AccountReadyData → CarrierEventData
  account_error : AccountErrorData → CarrierEventData
  account_archive_ready : AccountArchiveReadyData → CarrierEventData
  self_id : SelfIdData → CarrierEventData
  trust_request : TrustRequestData → CarrierEventData
  contact_online : ContactOnlineData → CarrierEventData
  contact_offline : ContactOfflineData → CarrierEventData
  contact_name : ContactNameData → CarrierEventData
  contact_restored : ContactRestoredData → CarrierEventData
  text_message : TextMessageData → CarrierEventData
  message_sent : MessageSentData → CarrierEventData
  group_message : GroupMessageData → CarrierEventData
  group_peer_join : GroupPeerJoinData → CarrierEventData
  group_peer_exit : GroupPeerExitData → CarrierEventData
  conversation_request : ConversationRequestData → CarrierEventData
  conversation_ready : ConversationReadyData → CarrierEventData
  saved_conversation : SavedConversationData → CarrierEventData
  conversation_sync_finished : CarrierEventData
  swarm_commit : SwarmCommitData → CarrierEventData
  reaction : ReactionData → CarrierEventData
  presence : PresenceData → CarrierEventData
  file_recv : FileRecvData → CarrierEventData
  file_progress : FileProgressData → CarrierEventData
  file_complete : FileCompleteData → CarrierEventData
  device_link_pin : DeviceLinkPinData → CarrierEventData
  device_linked : DeviceLinkedData → CarrierEventData
  device_unlinked : DeviceUnlinkedData → CarrierEventData
  error : ErrorData → CarrierEventData
  system : SystemData → CarrierEventData

pub record CarrierEvent : Type 0 where
  pub timestamp : ℤ
  pub account_id : Bytes
  pub event : CarrierEventData
