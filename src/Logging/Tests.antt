-- ===== src/Logging/Tests.antt =====
-- The tests of src/logging.rs, and its lines and filters at concrete values.
use antenna.Base.{
  ◌≡◌, refl, ◌/◌, ◌%◌, true, ◌||◌, [], ◌∷◌, ◌++◌, List, none, some, if◌then◌else◌, arith,
}
use antenna.Base.Text.{Text, codes, join, is_whitespace, text_eq}
use antenna.Base.Numbers.{pos, negsuc, decimal, pad}
use antenna.Base.Utf8.{as_bytes, from_utf8, from_utf8_lossy, encode_char}
use antenna.Turtle.Escape.{IsSingleLine}
use antenna.Theme.{member}
use antenna.Carrier.Time.{format_timestamp}
use antenna.Logging.{Event, Level, parse_allowed_tags, format_event, record_line, log_callback}
use antenna.Logging.Time.{iso8601_millis, since_epoch}
use antenna.Logging.Time.Same.{iso8601_millis-format_timestamp}
use antenna.Logging.Tags.{IsWord, AllTags, comma, is_nil, parse_allowed_tags-join}
use antenna.Logging.Line.{line_or_nothing, format_event-tags}

iso8601_epoch : iso8601_millis (pos 0) ≡ codes "1970-01-01T00:00:00.000Z"
unfolding iso8601_millis decimal
iso8601_epoch = refl

iso8601_known_instant : iso8601_millis (pos 86400100000000) ≡ codes "1970-01-02T00:00:00.100Z"
unfolding iso8601_millis decimal
iso8601_known_instant = refl

before_epoch : iso8601_millis (negsuc 863999999) ≡ codes "1970-01-01T00:00:00.000Z"
unfolding iso8601_millis decimal
before_epoch = refl

parse_tags_empty : parse_allowed_tags (codes "   ") ≡ none
unfolding parse_allowed_tags is_whitespace
parse_tags_empty = refl

parse_tags_many_with_whitespace :
    parse_allowed_tags (codes " JAMI, SHIM,  WS ")
    ≡ some (codes "JAMI" ∷ codes "SHIM" ∷ codes "WS" ∷ [])
unfolding parse_allowed_tags is_whitespace
parse_tags_many_with_whitespace = refl

parse_tags_skips_empty_tokens :
    parse_allowed_tags (codes "JAMI,,SHIM,") ≡ some (codes "JAMI" ∷ codes "SHIM" ∷ [])
unfolding parse_allowed_tags is_whitespace
parse_tags_skips_empty_tokens = refl

-- A comma alone names no tag, and is no missing restriction either.
parse_tags_comma : parse_allowed_tags (codes ",") ≡ some []
unfolding parse_allowed_tags is_whitespace
parse_tags_comma = refl

abbrev registered : Event
registered = record {
  target = codes "JAMI";
  level = codes "INFO";
  fields = codes "registered ok";
  fields_ok = true;
}

registered_line :
    format_event (some (codes "WS" ∷ codes "JAMI" ∷ [])) (pos 1776793323412000000) registered
    ≡ (codes "2026-04-21T17:42:03.412Z INFO  [JAMI] registered ok\n", true)
unfolding format_event record_line iso8601_millis decimal member text_eq
registered_line = refl

-- Behind `--log-tags ","` no record is written.
comma_drops : format_event (parse_allowed_tags (codes ",")) (pos 0) registered ≡ ([], true)
unfolding format_event is_whitespace parse_allowed_tags member text_eq
comma_drops = refl

-- The tag of a record that has no arm becomes CARRIER.
bridged :
    log_callback (
      some (record {
        level = pos 7;
        timestamp_ms = pos 0;
        tag = as_bytes (codes "OTHER") ++ 0 ∷ [];
        message = as_bytes (codes "hi") ++ 0 ∷ b'x' ∷ [];
      }))
    ≡ some (Level.info, codes "CARRIER", codes "hi")
unfolding log_callback member text_eq from_utf8 as_bytes from_utf8_lossy encode_char
bridged = refl

abbrev tags : List Text
tags = codes "JAMI" ∷ codes "WS" ∷ []

tags-AllTags : AllTags tags
unfolding AllTags IsWord is_whitespace
tags-AllTags = ground arith

parse_allowed_tags-join_example :
    parse_allowed_tags (join (comma 2) tags) ≡ (if is_nil tags then none else some tags)
parse_allowed_tags-join_example = parse_allowed_tags-join 2 tags tags-AllTags

format_event-tags_example :
    (format_event (parse_allowed_tags (join (comma 1) tags)) (pos 1776793323412000000) registered
      ≡ line_or_nothing
          (is_nil tags || member registered.target tags)
          (record_line (pos 1776793323412000000) registered))
    × IsSingleLine (record_line (pos 1776793323412000000) registered)
format_event-tags_example =
    format_event-tags 1 tags (pos 1776793323412000000) registered tags-AllTags refl (ground arith)
      (ground arith) (ground arith)

iso8601_millis-format_timestamp_example :
    iso8601_millis (pos 1776793323412000000)
    ≡ format_timestamp (pos (since_epoch (pos 1776793323412000000) / 1000000))
      ++ codes "."
      ++ pad 3 (decimal (since_epoch (pos 1776793323412000000) / 1000000 % 1000))
      ++ codes "Z"
iso8601_millis-format_timestamp_example = iso8601_millis-format_timestamp (pos 1776793323412000000)
