-- ===== src/Carrier/Tests.antt =====
-- The events and times of src/carrier.rs at concrete values.
use antenna.Base.{◌≡◌, ◌≢◌, ◌+◌, ◌*◌, length, refl, [], ◌∷◌, ◌++◌, some, ℕ, arith}
use antenna.Base.Text.{codes}
use antenna.Base.Numbers.{pos, negsuc, decimal, pad}
use antenna.Base.Utf8.{as_bytes, from_utf8, from_utf8_lossy, encode_char}
use antenna.Turtle.{turtle_escape, extract_property, extract_type, carrier_ns}
use antenna.Turtle.Escape.{IsSingleLine}
use antenna.Carrier.{cstr_from_buf}
use antenna.Carrier.Time.{format_timestamp, civil_date}
use antenna.Carrier.Time.Gregorian.{IsDate, day_number}
use antenna.Carrier.Time.Calendar.{civil_date-IsDate, civil_date-day_number}
use antenna.Carrier.Time.Print.{format_timestamp-date}
use antenna.Carrier.Time.Width.{length-format_timestamp}
use antenna.Carrier.Event.{CarrierEvent, CarrierEventData}
use antenna.Carrier.Event.Fields.{bytes_to_string}
use antenna.Carrier.Event.Turtle.{event_to_turtle, class_of}
use antenna.Carrier.Event.Line.{event_to_turtle-IsSingleLine}
use antenna.Carrier.Event.Read.{extract_type-event_to_turtle, extract_property-event_to_turtle}

-- The example of src/logging.rs
logged : format_timestamp (pos 1776793323412) ≡ codes "2026-04-21T17:42:03"
unfolding format_timestamp decimal
logged = refl

-- A second before 1970 is printed as a time of the first day of 1970.
before_epoch : format_timestamp (negsuc 999) ≡ codes "1970-01-01T23:59:59"
unfolding format_timestamp decimal
before_epoch = refl

-- Ten days before 1970 the day is negative.
days_before_epoch : format_timestamp (negsuc 863999999) ≡ codes "1970-01--9T00:00:00"
unfolding format_timestamp decimal
days_before_epoch = refl

leap_day-IsDate : IsDate 2024 1 28
leap_day-IsDate = ground arith

civil_date-day_number_example : civil_date (pos (day_number 2024 1 28)) ≡ (2024, 1, pos 28)
civil_date-day_number_example = civil_date-day_number 2024 1 28 leap_day-IsDate

civil_date-IsDate_example :
    (y : ℕ) × (m : ℕ) × (d : ℕ) × (civil_date (pos 19782) ≡ (y, m, pos d))
    × IsDate y m d
    × (day_number y m d ≡ 19782)
civil_date-IsDate_example = civil_date-IsDate 19782

format_timestamp-date_example :
    format_timestamp (pos ((((day_number 2024 1 28 * 24 + 23) * 60 + 59) * 60 + 58) * 1000 + 7))
    ≡ pad 4 (decimal 2024)
      ++ codes "-"
      ++ pad 2 (decimal (1 + 1))
      ++ codes "-"
      ++ pad 2 (decimal (28 + 1))
      ++ codes "T"
      ++ (pad 2 (decimal 23) ++ codes ":" ++ pad 2 (decimal 59) ++ codes ":" ++ pad 2 (decimal 58))
format_timestamp-date_example =
    format_timestamp-date 2024 1 28 23 59 58 7 leap_day-IsDate (omega arith) (omega arith)
      (omega arith) (omega arith)

length-format_timestamp_example : length (format_timestamp (pos 1776793323412)) ≡ 19
length-format_timestamp_example = length-format_timestamp 1776793323412 (omega arith)

-- A message whose text holds a line end, a quote and the name of another property.
abbrev message : CarrierEvent
message = record {
  timestamp = pos 1776793323412;
  account_id = as_bytes (codes "ab12") ++ 0 ∷ 7 ∷ [];
  event = CarrierEventData.text_message (record {
    contact_uri = as_bytes (codes "peer") ++ 0 ∷ [];
    conversation_id = as_bytes (codes "c1") ++ 0 ∷ [];
    message_id = as_bytes (codes "m1") ++ 0 ∷ [];
    text = some (as_bytes (codes "a\n\" ; carrier:account \"evil"));
    text_len = 28;
  });
}

message_account : cstr_from_buf (message.account_id) ≡ codes "ab12"
unfolding cstr_from_buf from_utf8 as_bytes encode_char
message_account = refl

message_line :
    event_to_turtle message
    ≡ codes
        "[] a carrier:TextMessage ; carrier:account \"ab12\" ; carrier:contactUri \"peer\" ; carrier:conversationId \"c1\" ; carrier:messageId \"m1\" ; carrier:text \"a\\n\\\" ; carrier:account \\\"evil\" ; carrier:at \"2026-04-21T17:42:03\"^^xsd:dateTime ."
unfolding event_to_turtle cstr_from_buf from_utf8 as_bytes from_utf8_lossy decimal format_timestamp
    encode_char bytes_to_string
message_line = refl

event_to_turtle-IsSingleLine_example : IsSingleLine (event_to_turtle message)
event_to_turtle-IsSingleLine_example = event_to_turtle-IsSingleLine message

extract_type-event_to_turtle_example :
    extract_type (event_to_turtle message) ≡ some (carrier_ns ++ class_of message.event)
extract_type-event_to_turtle_example = extract_type-event_to_turtle message

message_account_ne : cstr_from_buf message.account_id ≢ []
message_account_ne = rw message_account (ground arith)

extract_property-event_to_turtle_example :
    extract_property (event_to_turtle message) (codes "carrier:account")
    ≡ some (turtle_escape (cstr_from_buf message.account_id))
extract_property-event_to_turtle_example =
    extract_property-event_to_turtle message message_account_ne
