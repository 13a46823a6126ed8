-- ===== src/Carrier/Event/Line.antt =====
-- Every event of src/carrier.rs is one line.
use antenna.Base.{true, false, List, [], ◌∷◌, ◌++◌, ◌≡◌, ◌⊎◌, sym, arith, Bool-cases, inl, inr}
use antenna.Base.Text.{Text, codes, is_empty}
use antenna.Turtle.{turtle_escape}
use antenna.Turtle.Escape.{
  escape_char, turtle_escape-cons, turtle_escape-nil, IsSingleLine, turtle_escape-IsSingleLine,
}
use antenna.Turtle.SingleLine.{IsSingleLine-append, decimal-IsSingleLine, decimal_ℤ-IsSingleLine}
use antenna.Carrier.{cstr_from_buf}
use antenna.Carrier.Time.{format_timestamp}
use antenna.Carrier.Time.Print.{format_timestamp-IsSingleLine}
use antenna.Carrier.Event.{Bytes, CarrierEventData, CarrierEvent}
use antenna.Carrier.Event.Turtle
use antenna.Carrier.Event.Fields.{Field, literal, number}
use antenna.Carrier.Event.Turtle.{render, render_all, header, class_of, fields, event_to_turtle}

-- The escape of this file is the dispatcher's.
pub escape_lem : (s : Text) → Turtle.turtle_escape s ≡ turtle_escape s
unfolding Turtle.turtle_escape escape_char
escape_lem [] = sym turtle_escape-nil
escape_lem (c ∷ s) = rw (turtle_escape-cons c s, escape_lem s) (ground arith)

abbrev pub IsPlain : Field → Type 0
IsPlain (literal name value) = IsSingleLine name
IsPlain (number name value) = IsSingleLine name × IsSingleLine value

abbrev pub AllPlain : List Field → Type 0
AllPlain [] = Unit
AllPlain (f ∷ fs) = IsPlain f × AllPlain fs

class_of-IsSingleLine : (d : CarrierEventData) → IsSingleLine (class_of d)
unfolding class_of
class_of-IsSingleLine CarrierEventData.connected = ground arith
class_of-IsSingleLine CarrierEventData.disconnected = ground arith
class_of-IsSingleLine (CarrierEventData.account_ready _) = ground arith
class_of-IsSingleLine (CarrierEventData.account_error _) = ground arith
class_of-IsSingleLine (CarrierEventData.account_archive_ready _) = ground arith
class_of-IsSingleLine (CarrierEventData.self_id _) = ground arith
class_of-IsSingleLine (CarrierEventData.trust_request _) = ground arith
class_of-IsSingleLine (CarrierEventData.contact_online _) = ground arith
class_of-IsSingleLine (CarrierEventData.contact_offline _) = ground arith
class_of-IsSingleLine (CarrierEventData.contact_name _) = ground arith
class_of-IsSingleLine (CarrierEventData.contact_restored _) = ground arith
class_of-IsSingleLine (CarrierEventData.text_message _) = ground arith
class_of-IsSingleLine (CarrierEventData.message_sent _) = ground arith
class_of-IsSingleLine (CarrierEventData.group_message _) = ground arith
class_of-IsSingleLine (CarrierEventData.group_peer_join _) = ground arith
class_of-IsSingleLine (CarrierEventData.group_peer_exit _) = ground arith
class_of-IsSingleLine (CarrierEventData.conversation_request _) = ground arith
class_of-IsSingleLine (CarrierEventData.conversation_ready _) = ground arith
class_of-IsSingleLine (CarrierEventData.saved_conversation _) = ground arith
class_of-IsSingleLine CarrierEventData.conversation_sync_finished = ground arith
class_of-IsSingleLine (CarrierEventData.swarm_commit _) = ground arith
class_of-IsSingleLine (CarrierEventData.reaction _) = ground arith
class_of-IsSingleLine (CarrierEventData.presence _) = ground arith
class_of-IsSingleLine (CarrierEventData.file_recv _) = ground arith
class_of-IsSingleLine (CarrierEventData.file_progress _) = ground arith
class_of-IsSingleLine (CarrierEventData.file_complete _) = ground arith
class_of-IsSingleLine (CarrierEventData.device_link_pin _) = ground arith
class_of-IsSingleLine (CarrierEventData.device_linked _) = ground arith
class_of-IsSingleLine (CarrierEventData.device_unlinked _) = ground arith
class_of-IsSingleLine (CarrierEventData.error _) = ground arith
class_of-IsSingleLine (CarrierEventData.system _) = ground arith

fields-AllPlain : (d : CarrierEventData) → AllPlain (fields d)
unfolding fields
fields-AllPlain CarrierEventData.connected = ground arith
fields-AllPlain CarrierEventData.disconnected = ground arith
fields-AllPlain (CarrierEventData.account_ready d) = ground arith
fields-AllPlain (CarrierEventData.account_error d) = ground arith
fields-AllPlain (CarrierEventData.account_archive_ready d) = ground arith
fields-AllPlain (CarrierEventData.self_id d) = ground arith
fields-AllPlain (CarrierEventData.trust_request d) = ground arith
fields-AllPlain (CarrierEventData.contact_online d) = ground arith
fields-AllPlain (CarrierEventData.contact_offline d) = ground arith
fields-AllPlain (CarrierEventData.contact_name d) = ground arith
fields-AllPlain (CarrierEventData.contact_restored d) = ground arith
fields-AllPlain (CarrierEventData.text_message d) = ground arith
fields-AllPlain (CarrierEventData.message_sent d) = ground (arith, decimal_ℤ-IsSingleLine d.status)
fields-AllPlain (CarrierEventData.group_message d) = ground arith
fields-AllPlain (CarrierEventData.group_peer_join d) = ground arith
fields-AllPlain (CarrierEventData.group_peer_exit d) = ground arith
fields-AllPlain (CarrierEventData.conversation_request d) = ground arith
fields-AllPlain (CarrierEventData.conversation_ready d) = ground arith
fields-AllPlain (CarrierEventData.saved_conversation d) = ground arith
fields-AllPlain CarrierEventData.conversation_sync_finished = ground arith
fields-AllPlain (CarrierEventData.swarm_commit d) = ground arith
fields-AllPlain (CarrierEventData.reaction d) = ground arith
fields-AllPlain (CarrierEventData.presence d) = ground arith
fields-AllPlain (CarrierEventData.file_recv d) = ground (arith, decimal-IsSingleLine d.size)
fields-AllPlain (CarrierEventData.file_progress d) = ground arith
fields-AllPlain (CarrierEventData.file_complete d) = ground arith
fields-AllPlain (CarrierEventData.device_link_pin d) = ground arith
fields-AllPlain (CarrierEventData.device_linked d) = ground arith
fields-AllPlain (CarrierEventData.device_unlinked d) = ground arith
fields-AllPlain (CarrierEventData.error d) = ground arith
fields-AllPlain (CarrierEventData.system d) = ground arith

literal-IsSingleLine :
    (before value after : Text)
    → IsSingleLine before
    → IsSingleLine after
    → IsSingleLine (before ++ Turtle.turtle_escape value ++ after)
literal-IsSingleLine before value after hb ha =
    IsSingleLine-append (before ++ Turtle.turtle_escape value) after
      (IsSingleLine-append before (Turtle.turtle_escape value) hb
        (rw (escape_lem value) (turtle_escape-IsSingleLine value)))
      ha

named-IsSingleLine :
    (before name after : Text)
    → IsSingleLine before
    → IsSingleLine name
    → IsSingleLine after
    → IsSingleLine (before ++ name ++ after)
named-IsSingleLine before name after hb hn ha =
    IsSingleLine-append (before ++ name) after (IsSingleLine-append before name hb hn) ha

render-IsSingleLine : (f : Field) → IsPlain f → IsSingleLine (render f)
unfolding render
render-IsSingleLine (literal name value) h =
    literal-IsSingleLine (codes " ; carrier:" ++ name ++ codes " \"") value (codes "\"")
      (named-IsSingleLine (codes " ; carrier:") name (codes " \"") (ground arith) h (ground arith))
      (ground arith)
render-IsSingleLine (number name value) (h, k) =
    IsSingleLine-append (codes " ; carrier:" ++ name ++ codes " ") value
      (named-IsSingleLine (codes " ; carrier:") name (codes " ") (ground arith) h (ground arith)) k

render_all-IsSingleLine : (fs : List Field) → AllPlain fs → IsSingleLine (render_all fs)
unfolding render_all
render_all-IsSingleLine [] h = h
render_all-IsSingleLine (f ∷ fs) (h, hs) =
    IsSingleLine-append (render f) (render_all fs) (render-IsSingleLine f h)
      (render_all-IsSingleLine fs hs)

header-IsSingleLine :
    (class : Text) (acct : Bytes) → IsSingleLine class → IsSingleLine (header class acct)
unfolding header
header-IsSingleLine class acct h = go (Bool-cases (is_empty (cstr_from_buf acct)))
  where
    typed : IsSingleLine (codes "[] a carrier:" ++ class)
    typed = IsSingleLine-append (codes "[] a carrier:") class (ground arith) h

    go :
        (is_empty (cstr_from_buf acct) ≡ true) ⊎ (is_empty (cstr_from_buf acct) ≡ false)
        → IsSingleLine (header class acct)
    go (inl e) = rw (header, e) typed
    go (inr e) =
        rw (header, e)
          (literal-IsSingleLine (codes "[] a carrier:" ++ class ++ codes " ; carrier:account \"")
            (cstr_from_buf acct) (codes "\"")
            (IsSingleLine-append (codes "[] a carrier:" ++ class) (codes " ; carrier:account \"")
              typed (ground arith))
            (ground arith))

-- The line for an event ends nowhere but at its end: whatever texts the event holds, no carriage
-- return and no line feed stands in it.
pub event_to_turtle-IsSingleLine : (ev : CarrierEvent) → IsSingleLine (event_to_turtle ev)
unfolding event_to_turtle
event_to_turtle-IsSingleLine ev =
    IsSingleLine-append (front ++ at) (codes " .")
      (IsSingleLine-append front at
        (IsSingleLine-append (header (class_of ev.event) ev.account_id)
          (render_all (fields ev.event))
          (header-IsSingleLine (class_of ev.event) ev.account_id (class_of-IsSingleLine ev.event))
          (render_all-IsSingleLine (fields ev.event) (fields-AllPlain ev.event)))
        (named-IsSingleLine (codes " ; carrier:at \"") (format_timestamp ev.timestamp)
          (codes "\"^^xsd:dateTime") (ground arith) (format_timestamp-IsSingleLine ev.timestamp)
          (ground arith)))
      (ground arith)
  where
    front : Text
    front = header (class_of ev.event) ev.account_id ++ render_all (fields ev.event)

    at : Text
    at = codes " ; carrier:at \"" ++ format_timestamp ev.timestamp ++ codes "\"^^xsd:dateTime"
