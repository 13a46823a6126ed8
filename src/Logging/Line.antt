-- ===== src/Logging/Line.antt =====
-- The lines that `format_event` of src/logging.rs writes.
use antenna.Base.{
  ℕ, zero, suc, ◌≡◌, refl, none, some, Bool, true, false, ◌||◌, List, [], ◌∷◌, ◌++◌, replicate,
  if◌then◌else◌, arith,
}
use antenna.Base.Text.{Text, codes, join}
use antenna.Base.Numbers.{ℤ}
use antenna.Turtle.Escape.{IsSingleLine}
use antenna.Turtle.SingleLine.{IsSingleLine-append, pad-IsSingleLine}
use antenna.Theme.{member}
use antenna.Carrier.Time.Print.{format_timestamp-IsSingleLine}
use antenna.Logging.Time.{iso8601_millis}
use antenna.Logging.Time.Same.{iso8601_millis-format_timestamp}
use antenna.Logging.{Event, record_line, dropped, format_event, parse_allowed_tags}
use antenna.Logging.Tags.{AllTags, comma, is_nil, parse_allowed_tags-join}

spaces-IsSingleLine : (n : ℕ) → IsSingleLine (replicate n b' ')
spaces-IsSingleLine zero = tt
spaces-IsSingleLine (suc n) = (omega arith, omega arith, spaces-IsSingleLine n)

dot-IsSingleLine : IsSingleLine (codes ".")
dot-IsSingleLine = ground arith

zone-IsSingleLine : IsSingleLine (codes "Z")
zone-IsSingleLine = ground arith

space-IsSingleLine : IsSingleLine (codes " ")
space-IsSingleLine = ground arith

open_bracket-IsSingleLine : IsSingleLine (codes " [")
open_bracket-IsSingleLine = ground arith

close_bracket-IsSingleLine : IsSingleLine (codes "] ")
close_bracket-IsSingleLine = ground arith

iso8601_millis-IsSingleLine : (t : ℤ) → IsSingleLine (iso8601_millis t)
iso8601_millis-IsSingleLine t = rw (iso8601_millis-format_timestamp t) (
    search (
      IsSingleLine-append, format_timestamp-IsSingleLine, dot-IsSingleLine, pad-IsSingleLine,
      zone-IsSingleLine,
    ))

-- A record is one line where its parts are.
record_line-IsSingleLine :
    (now : ℤ) (event : Event)
    → IsSingleLine event.target
    → IsSingleLine event.level
    → IsSingleLine event.fields
    → IsSingleLine (record_line now event)
unfolding record_line
record_line-IsSingleLine now event ht hl hf =
    search
      (
        IsSingleLine-append, iso8601_millis-IsSingleLine, spaces-IsSingleLine, space-IsSingleLine,
        open_bracket-IsSingleLine, close_bracket-IsSingleLine,
      )
      depth 9

-- A line, or nothing at all; both without an error.
abbrev pub line_or_nothing : Bool → Text → Text × Bool
line_or_nothing true line = (line ++ b'\n' ∷ [], true)
line_or_nothing false line = ([], true)

format_event-allowed :
    (ts : List Text) (now : ℤ) (event : Event)
    → event.fields_ok ≡ true
    → format_event (if is_nil ts then none else some ts) now event
      ≡ line_or_nothing (is_nil ts || member event.target ts) (record_line now event)
unfolding format_event dropped
format_event-allowed [] now event ok = rw ok refl
format_event-allowed (t ∷ ts) now event ok = ground (arith, ok)

-- Where `--log-tags` is given a list of tags, with a comma and any number of spaces between them, a
-- record is written as one line if its target is one of these tags, and nothing is written if not; where
-- it is given the empty text, every record is written so. The target, the level and the fields hold no
-- line end, and the fields are formatted without an error.
pub format_event-tags :
    (n : ℕ) (ts : List Text) (now : ℤ) (event : Event)
    → AllTags ts
    → event.fields_ok ≡ true
    → IsSingleLine event.target
    → IsSingleLine event.level
    → IsSingleLine event.fields
    → (format_event (parse_allowed_tags (join (comma n) ts)) now event
        ≡ line_or_nothing (is_nil ts || member event.target ts) (record_line now event))
      × IsSingleLine (record_line now event)
format_event-tags n ts now event h ok ht hl hf = (
  rw (parse_allowed_tags-join n ts h) (format_event-allowed ts now event ok),
  record_line-IsSingleLine now event ht hl hf,
)
