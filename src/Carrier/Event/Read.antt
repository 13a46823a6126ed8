-- ===== src/Carrier/Event/Read.antt =====
-- What the readers of src/dispatch.rs find in the lines that src/carrier.rs writes for events.
use antenna.Base.{false, [], ◌∷◌, ◌++◌, ◌≡◌, ◌≢◌, refl, ap, ◌∙◌, some, length}
use antenna.Base.Text.{
  Text, codes, is_empty, trim, find, starts_with, take_until, trim_start, is_whitespace, text_eq,
}
use antenna.Turtle.{turtle_escape, extract_type, extract_property, carrier_ns, type_at}
use antenna.Turtle.Escape.{extract_property-escape}
use antenna.Carrier.{cstr_from_buf}
use antenna.Carrier.Time.{format_timestamp}
use antenna.Carrier.Event.{CarrierEventData, CarrierEvent}
use antenna.Carrier.Event.Turtle.{render_all, render_all, header, class_of, fields, event_to_turtle}
use antenna.Carrier.Event.Shape.{
  typed_line, trim-typed_line, regroup_account, event_to_turtle-typed_line,
}
use antenna.Carrier.Event.Line.{escape_lem}

type_at-class_of :
    (d : CarrierEventData) (rest : Text)
    → type_at (codes "carrier:" ++ class_of d ++ b' ' ∷ rest) ≡ some (carrier_ns ++ class_of d)
unfolding type_at class_of starts_with take_until text_eq trim is_whitespace
type_at-class_of CarrierEventData.connected rest = refl
type_at-class_of CarrierEventData.disconnected rest = refl
type_at-class_of (CarrierEventData.account_ready _) rest = refl
type_at-class_of (CarrierEventData.account_error _) rest = refl
type_at-class_of (CarrierEventData.account_archive_ready _) rest = refl
type_at-class_of (CarrierEventData.self_id _) rest = refl
type_at-class_of (CarrierEventData.trust_request _) rest = refl
type_at-class_of (CarrierEventData.contact_online _) rest = refl
type_at-class_of (CarrierEventData.contact_offline _) rest = refl
type_at-class_of (CarrierEventData.contact_name _) rest = refl
type_at-class_of (CarrierEventData.contact_restored _) rest = refl
type_at-class_of (CarrierEventData.text_message _) rest = refl
type_at-class_of (CarrierEventData.message_sent _) rest = refl
type_at-class_of (CarrierEventData.group_message _) rest = refl
type_at-class_of (CarrierEventData.group_peer_join _) rest = refl
type_at-class_of (CarrierEventData.group_peer_exit _) rest = refl
type_at-class_of (CarrierEventData.conversation_request _) rest = refl
type_at-class_of (CarrierEventData.conversation_ready _) rest = refl
type_at-class_of (CarrierEventData.saved_conversation _) rest = refl
type_at-class_of CarrierEventData.conversation_sync_finished rest = refl
type_at-class_of (CarrierEventData.swarm_commit _) rest = refl
type_at-class_of (CarrierEventData.reaction _) rest = refl
type_at-class_of (CarrierEventData.presence _) rest = refl
type_at-class_of (CarrierEventData.file_recv _) rest = refl
type_at-class_of (CarrierEventData.file_progress _) rest = refl
type_at-class_of (CarrierEventData.file_complete _) rest = refl
type_at-class_of (CarrierEventData.device_link_pin _) rest = refl
type_at-class_of (CarrierEventData.device_linked _) rest = refl
type_at-class_of (CarrierEventData.device_unlinked _) rest = refl
type_at-class_of (CarrierEventData.error _) rest = refl
type_at-class_of (CarrierEventData.system _) rest = refl

extract_type-typed_line :
    (d : CarrierEventData) (rest : Text)
    → extract_type (typed_line (class_of d) rest) ≡ some (carrier_ns ++ class_of d)
unfolding extract_type find starts_with trim_start is_whitespace
extract_type-typed_line d rest =
    rw (extract_type, trim-typed_line (class_of d) rest, trim-typed_line (class_of d) rest)
      (type_at-class_of d (rest ++ codes "."))

find-account :
    (d : CarrierEventData) (rest : Text)
    → find
        ((codes "[] a carrier:" ++ class_of d ++ codes " ; ")
          ++ (codes "carrier:account" ++ codes " ")
          ++ rest)
        (codes "carrier:account" ++ codes " ")
      ≡ some (length (codes "[] a carrier:" ++ class_of d ++ codes " ; "))
unfolding find starts_with class_of
find-account CarrierEventData.connected rest = refl
find-account CarrierEventData.disconnected rest = refl
find-account (CarrierEventData.account_ready _) rest = refl
find-account (CarrierEventData.account_error _) rest = refl
find-account (CarrierEventData.account_archive_ready _) rest = refl
find-account (CarrierEventData.self_id _) rest = refl
find-account (CarrierEventData.trust_request _) rest = refl
find-account (CarrierEventData.contact_online _) rest = refl
find-account (CarrierEventData.contact_offline _) rest = refl
find-account (CarrierEventData.contact_name _) rest = refl
find-account (CarrierEventData.contact_restored _) rest = refl
find-account (CarrierEventData.text_message _) rest = refl
find-account (CarrierEventData.message_sent _) rest = refl
find-account (CarrierEventData.group_message _) rest = refl
find-account (CarrierEventData.group_peer_join _) rest = refl
find-account (CarrierEventData.group_peer_exit _) rest = refl
find-account (CarrierEventData.conversation_request _) rest = refl
find-account (CarrierEventData.conversation_ready _) rest = refl
find-account (CarrierEventData.saved_conversation _) rest = refl
find-account CarrierEventData.conversation_sync_finished rest = refl
find-account (CarrierEventData.swarm_commit _) rest = refl
find-account (CarrierEventData.reaction _) rest = refl
find-account (CarrierEventData.presence _) rest = refl
find-account (CarrierEventData.file_recv _) rest = refl
find-account (CarrierEventData.file_progress _) rest = refl
find-account (CarrierEventData.file_complete _) rest = refl
find-account (CarrierEventData.device_link_pin _) rest = refl
find-account (CarrierEventData.device_linked _) rest = refl
find-account (CarrierEventData.device_unlinked _) rest = refl
find-account (CarrierEventData.error _) rest = refl
find-account (CarrierEventData.system _) rest = refl

-- Whatever texts an event holds, the type that is read back from its line is its own.
pub extract_type-event_to_turtle :
    (ev : CarrierEvent) → extract_type (event_to_turtle ev) ≡ some (carrier_ns ++ class_of ev.event)
extract_type-event_to_turtle ev =
    let (rest, e) = event_to_turtle-typed_line ev in
    ap extract_type e ∙ extract_type-typed_line ev.event rest

is_empty-cons : (s : Text) → s ≢ [] → is_empty s ≡ false
is_empty-cons [] h = absurd (h refl)
is_empty-cons (c ∷ s) h = refl

-- Whatever texts an event holds, the account that is read back from its line is the event's own, as
-- the escape writes it, if it is not empty.
pub extract_property-event_to_turtle :
    (ev : CarrierEvent)
    → cstr_from_buf ev.account_id ≢ []
    → extract_property (event_to_turtle ev) (codes "carrier:account")
      ≡ some (turtle_escape (cstr_from_buf ev.account_id))
unfolding event_to_turtle
extract_property-event_to_turtle ev h =
    rw (header, is_empty-cons (cstr_from_buf ev.account_id) h, escape_lem)
      (ap (λ t. extract_property t (codes "carrier:account"))
          (regroup_account front acct_escaped (render_all (fields ev.event)) at)
        ∙ extract_property-escape (front ++ codes " ; ") (codes "carrier:account")
            (cstr_from_buf ev.account_id) (render_all (fields ev.event) ++ at ++ codes " .")
            (find-account ev.event _) h)
  where
    front : Text
    front = codes "[] a carrier:" ++ class_of ev.event

    acct_escaped : Text
    acct_escaped = turtle_escape (cstr_from_buf ev.account_id)

    at : Text
    at = codes " ; carrier:at \"" ++ format_timestamp ev.timestamp ++ codes "\"^^xsd:dateTime"
