-- ===== src/Logging.antt =====
-- The log of src/logging.rs: the filter by tags and the line of a record, with its time (Time); and the records
-- that `log_callback` of src/carrier.rs makes of libcarrier's.
use antenna.Base.{
  ℕ, ◌-◌, ◌/◌, ◌%◌, Bool, true, false, not, List, [], ◌∷◌, ◌++◌, Option, none, some, map, length,
  replicate, ◌==◌, if◌then◌else◌,
}
use antenna.Base.Text.{Text, codes, is_empty, trim, split}
use antenna.Base.Utf8.{from_utf8_lossy}
use antenna.Base.Numbers.{ℤ, pos, negsuc, decimal, pad}
use antenna.Theme.{member}
use antenna.Carrier.{until_nul, cstr_from_buf}
use antenna.Logging.Time.{iso8601_millis}
pub mod Time
pub mod Line
pub mod Tags
pub mod Tests

abbrev pub known_tags : List Text
known_tags =
    codes "JAMI"
    ∷ codes "SHIM"
    ∷ codes "CARRIER"
    ∷ codes "DISPATCH"
    ∷ codes "SPARQL"
    ∷ codes "PIPELINE"
    ∷ codes "SCRIPT"
    ∷ codes "CHANNEL"
    ∷ codes "LLM"
    ∷ codes "WS"
    ∷ codes "STATION"
    ∷ []

-- `.filter(|s| !s.is_empty())`
unfoldable pub non_empty : List Text → List Text
non_empty [] = []
non_empty (s ∷ ss) = let rest = non_empty ss in if is_empty s then rest else s ∷ rest

-- A `HashSet` is the list of what was put into it; only `member` is asked of it.
unfoldable pub parse_allowed_tags : Text → Option (List Text)
unfolding trim split non_empty
parse_allowed_tags raw =
    let trimmed = trim raw in
    if is_empty trimmed then none else some (non_empty (map trim (split b',' trimmed)))

-- What tracing hands to the formatter. `fields` is what its `format_fields` writes, and `fields_ok`
-- is whether that succeeds.
pub record Event : Type 0 where
  pub target : Text
  pub level : Text
  pub fields : Text
  pub fields_ok : Bool

-- `{:5}`
abbrev pub pad_right : ℕ → Text → Text
pad_right w s = s ++ replicate (w - length s) b' '

unfoldable pub dropped : Option (List Text) → Text → Bool
unfolding member
dropped none target = false
dropped (some allowed) target = not (member target allowed)

-- The line without its end
unfoldable pub record_line : ℤ → Event → Text
unfolding iso8601_millis
record_line now event =
    iso8601_millis now
    ++ codes " "
    ++ pad_right 5 event.level
    ++ codes " ["
    ++ event.target
    ++ codes "] "
    ++ event.fields

-- What is written, and whether it ends without an error. The writer is a text and takes everything.
unfoldable pub format_event : Option (List Text) → ℤ → Event → Text × Bool
unfolding dropped record_line
format_event allowed_tags now event =
    if dropped allowed_tags event.target
    then ([], true)
    else if event.fields_ok
    then (record_line now event ++ b'\n' ∷ [], true)
    else (record_line now event, false)

-- `CarrierLogRecord`
pub record LogRecord : Type 0 where
  pub level : ℤ
  pub timestamp_ms : ℤ
  pub tag : List ℕ
  pub message : List ℕ

pub data Level : Type 0 where
  error : Level
  warn : Level
  info : Level
  debug : Level

-- `carrier_emit_at_level`
abbrev pub level_of : ℤ → Level
level_of (negsuc n) = Level.info
level_of (pos n) =
    if n == 0
    then Level.error
    else if n == 1
    then Level.warn
    else if n == 3
    then Level.debug
    else Level.info

-- The tags that `log_callback` has an arm for
abbrev pub bridged_tags : List Text
bridged_tags =
    codes "JAMI"
    ∷ codes "SHIM"
    ∷ codes "DISPATCH"
    ∷ codes "SPARQL"
    ∷ codes "PIPELINE"
    ∷ codes "SCRIPT"
    ∷ codes "CHANNEL"
    ∷ codes "LLM"
    ∷ codes "WS"
    ∷ codes "STATION"
    ∷ []

unfoldable pub target_of : Text → Text
unfolding member
target_of tag = if member tag bridged_tags then tag else codes "CARRIER"

-- The level, the target and the message of the record for tracing; a null pointer makes none.
unfoldable pub log_callback : Option LogRecord → Option (Level × Text × Text)
unfolding cstr_from_buf target_of from_utf8_lossy
log_callback none = none
log_callback (some rec) =
    some (
      level_of rec.level,
      target_of (cstr_from_buf rec.tag),
      from_utf8_lossy (until_nul rec.message),
    )
