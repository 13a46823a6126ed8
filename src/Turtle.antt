-- ===== src/Turtle.antt =====
-- The lightweight Turtle reading of src/dispatch.rs (`strip_leading_directives`, `extract_type`,
-- `extract_property`) and its `turtle_escape`.
pub mod Directives
pub mod Escape
pub mod SingleLine
mod Tests
use mathlib.Core.Option
use antenna.Base.{
  ℕ, zero, suc, ◌+◌, ◌-◌, Bool, true, false, not, ◌&&◌, ◌||◌, List, [], ◌∷◌, ◌++◌, Option, none,
  some, ltb, ◌==◌, if◌then◌else◌, length, take, drop,
}
use antenna.Base.Text.{
  Text, codes, text_eq, is_empty, strip_prefix, starts_with, find, trim, trim_start, take_until,
  replace_char,
}

abbrev pub quote : ℕ
quote = b'"'

abbrev pub backslash : ℕ
backslash = b'\\'

-- The inner loop of `strip_leading_directives`: what stands behind the first `.` outside `<…>`.
unfoldable pub directive_end : Bool → Text → Option Text
directive_end in_iri [] = none
directive_end in_iri (c ∷ s) =
    let rest = directive_end (if c == b'<' then true else if c == b'>' then false else in_iri) s in
    if c == b'.' && not in_iri then some s else rest

-- The `while` loop. Each round removes a directive of one character or more, so the length of the
-- text bounds the rounds.
strip_loop : ℕ → Text → Text
unfolding directive_end
strip_loop zero s = s
strip_loop (suc fuel) s =
    let rest : Text = elim (directive_end false s) [
      | none ↦ []
      | some t ↦ strip_loop fuel (trim_start t)
    ] in
    if starts_with s (codes "@") then rest else s

unfoldable pub strip_leading_directives : Text → Text
unfolding strip_loop
strip_leading_directives line = let s = trim_start line in strip_loop (length s) s

-- The separators of `split([' ', ';', '.'])`
unfoldable pub is_separator : ℕ → Bool
is_separator c = c == b' ' || c == b';' || c == b'.'

-- `s.split_once(c)`
unfoldable pub split_once : ℕ → Text → Option (Text × Text)
split_once c [] = none
split_once c (d ∷ s) =
    let rest : Option (Text × Text) = elim (split_once c s) [
      | none ↦ none
      | some (a, b) ↦ some (d ∷ a, b)
    ] in
    if d == c then some ([], s) else rest

unfoldable pub sp_ns : Text
sp_ns = codes "http://spinrdf.org/sp#"

unfoldable pub spin_ns : Text
spin_ns = codes "http://spinrdf.org/spin#"

unfoldable pub carrier_ns : Text
carrier_ns = codes "http://resonator.network/v2/carrier#"

unfoldable pub antenna_ns : Text
antenna_ns = codes "http://resonator.network/v2/antenna#"

unfoldable pub design_ns : Text
design_ns = codes "http://resonator.network/v2/design#"

unfoldable pub rdf_ns : Text
rdf_ns = codes "http://www.w3.org/1999/02/22-rdf-syntax-ns#"

-- The `match prefix` of `extract_type`
unfoldable pub namespace_of : Text → Option Text
namespace_of prefix =
    if text_eq prefix (codes "sp")
    then some sp_ns
    else if text_eq prefix (codes "spin")
    then some spin_ns
    else if text_eq prefix (codes "carrier")
    then some carrier_ns
    else if text_eq prefix (codes "antenna")
    then some antenna_ns
    else if text_eq prefix (codes "design")
    then some design_ns
    else if text_eq prefix (codes "rdf")
    then some rdf_ns
    else none

-- The type name that begins `after`, the text behind ` a `.
unfoldable pub type_at : Text → Option Text
unfolding is_separator split_once namespace_of
type_at after =
    if starts_with after (codes "<")
    then Option.map (λ close. take (close - 1) (drop 1 after)) (find after (codes ">"))
    else elim (split_once b':' (trim (take_until is_separator after))) [
      | none ↦ none
      | some (prefix, local) ↦ Option.map (λ ns. ns ++ local) (namespace_of prefix)
    ]

unfoldable pub extract_type : Text → Option Text
unfolding type_at
extract_type line0 =
    let line = trim line0 in
    elim (find line (codes " a ")) [
      | none ↦ none
      | some pos ↦ type_at (trim_start (drop (pos + 3) line))
    ]

-- The scan of a quoted literal: the offset of the closing quote, 0 if there is none.
unfoldable pub quoted_end : ℕ → Bool → Text → ℕ
quoted_end i escaped [] = 0
quoted_end i escaped (c ∷ s) =
    let rest = quoted_end (i + 1) (not escaped && c == backslash) s in
    if not escaped && c == quote then i else rest

-- The value that begins `after`, the text behind the property.
unfoldable pub value_at : Text → Option Text
unfolding quoted_end is_separator
value_at after = elim (strip_prefix after (quote ∷ [])) [
  | some inner ↦
      let close = quoted_end 0 false inner in if ltb 0 close then some (take close inner) else none
  | none ↦ let val = trim (take_until is_separator after) in if is_empty val then none else some val
]

unfoldable pub extract_property : Text → Text → Option Text
unfolding value_at
extract_property line prop =
    let search = prop ++ codes " " in
    elim (find line search) [
      | none ↦ none
      | some pos ↦ value_at (trim (drop (pos + length search) line))
    ]

-- `turtle_escape`: four replacements, one behind the other.
unfoldable pub turtle_escape : Text → Text
turtle_escape s = replace_char b'\r' (codes "\\r") (
    replace_char b'\n' (codes "\\n")
      (replace_char quote (codes "\\\"") (replace_char backslash (codes "\\\\") s)))
