-- ===== src/Llm.antt =====
-- src/llm.rs: the JSON that the HTTP backends write and read.
pub mod Completion
pub mod Json
pub mod Reply
pub mod Platform
mod Tests
use antenna.Base.{
  ℕ, zero, suc, ◌+◌, ◌-◌, ◌*◌, ◌≤◌, Bool, true, false, not, ◌&&◌, ◌||◌, List, [], ◌∷◌, ◌++◌, Option,
  none, some, ltb, leb, ◌==◌, if◌then◌else◌, length, drop,
}
use antenna.Base.Text.{Text, codes, find, strip_prefix, starts_with, trim, trim_start}
use antenna.Base.Numbers.{hex, pad, decimal}
use antenna.Base.Result.{Result, ok, err, ◌>>=◌}

abbrev pub quote : ℕ
quote = b'"'

abbrev pub backslash : ℕ
backslash = b'\\'

-- `build_prompt`
unfoldable pub build_prompt : Text → Text → Text → Text
build_prompt turtle_a turtle_b prefixes =
    trim prefixes
    ++ codes "\n\nGraph A:\n"
    ++ trim turtle_a
    ++ codes "\n\nGraph B:\n"
    ++ trim turtle_b

-- The `match c` of `json_escape`
unfoldable pub escape_char : ℕ → Text
unfolding hex
escape_char c =
    if c == quote
    then backslash ∷ quote ∷ []
    else if c == backslash
    then backslash ∷ backslash ∷ []
    else if c == b'\n'
    then backslash ∷ b'n' ∷ []
    else if c == b'\r'
    then backslash ∷ b'r' ∷ []
    else if c == b'\t'
    then backslash ∷ b't' ∷ []
    else if ltb c 0x20
    then backslash ∷ b'u' ∷ pad 4 (hex c)
    else c ∷ []

unfoldable pub escape_chars : Text → Text
unfolding escape_char
escape_chars [] = []
escape_chars (c ∷ s) = escape_char c ++ escape_chars s

unfoldable pub json_escape : Text → Text
unfolding escape_chars
json_escape s = quote ∷ (escape_chars s ++ quote ∷ [])

-- The value of a hexadecimal digit
unfoldable pub hex_value : ℕ → Option ℕ
hex_value c =
    if leb b'0' c && leb c b'9'
    then some (c - b'0')
    else if leb b'a' c && leb c b'f'
    then some (c - b'a' + 10)
    else if leb b'A' c && leb c b'F'
    then some (c - b'A' + 10)
    else none

abbrev pub hex_digits : ℕ → Text → Option ℕ
hex_digits n [] = some n
hex_digits n (c ∷ s) = elim (hex_value c) [ none ↦ none | some d ↦ hex_digits (n * 16 + d) s ]

-- `u32::from_str_radix(s, 16)` for a text of at most four characters: digits behind an optional plus.
abbrev pub from_str_radix : Text → Option ℕ
from_str_radix [] = none
from_str_radix (c ∷ []) = if c == b'+' then none else hex_digits 0 (c ∷ [])
from_str_radix (c ∷ d ∷ s) = if c == b'+' then hex_digits 0 (d ∷ s) else hex_digits 0 (c ∷ d ∷ s)

-- `char::from_u32`
abbrev pub from_u32 : ℕ → Option ℕ
from_u32 n = if ltb n 0xd800 || (leb 0xe000 n && ltb n 0x110000) then some n else none

-- `if let Ok(cp) = … { if let Some(c) = … { out.push(c); } }`
abbrev pub pushed : Option ℕ → Text
pushed none = []
pushed (some n) = elim (from_u32 n) [ none ↦ [] | some c ↦ c ∷ [] ]

abbrev pub code_point : Text → Text
code_point digits = pushed (from_str_radix digits)

abbrev pub push : Text → Result Text → Result Text
push t (ok s) = ok (t ++ s)
push t (err e) = err e

-- What the reader of a JSON string has seen: nothing special, a backslash, or `\u` and some of its
-- characters, with the number of those that are missing but one.
pub data Reader : Type 0 where
  plain : Reader
  escaped : Reader
  unicode : ℕ → Text → Reader

-- The character behind a backslash, other than `u`
abbrev pub unescape : ℕ → ℕ
unescape c =
    if c == quote
    then quote
    else if c == backslash
    then backslash
    else if c == b'n'
    then b'\n'
    else if c == b'r'
    then b'\r'
    else if c == b't'
    then b'\t'
    else if c == b'/'
    then b'/'
    else b'?'

-- The loop of `parse_json_string`
unfoldable pub parse_loop : Reader → Text → Result Text
unfolding hex_value
parse_loop r [] = err (codes "unterminated JSON string")
parse_loop plain (c ∷ s) =
    let on = parse_loop plain s in
    let esc = parse_loop escaped s in
    if c == quote then ok [] else if c == backslash then esc else push (c ∷ []) on
parse_loop escaped (c ∷ s) =
    let on = parse_loop plain s in
    let uni = parse_loop (unicode 3 []) s in if c == b'u' then uni else push (unescape c ∷ []) on
parse_loop (unicode zero digits) (c ∷ s) = push (code_point (digits ++ c ∷ [])) (parse_loop plain s)
parse_loop (unicode (suc n) digits) (c ∷ s) = parse_loop (unicode n (digits ++ c ∷ [])) s

unfoldable pub parse_json_string : Text → Result Text
unfolding parse_loop
parse_json_string [] = err (codes "expected '\"'")
parse_json_string (c ∷ s) = if c == quote then parse_loop plain s else err (codes "expected '\"'")

-- What stands behind the field's name
unfoldable pub field_value : Text → Text → Result Text
unfolding parse_json_string trim_start strip_prefix
field_value field after_key = elim (strip_prefix (trim_start after_key) (codes ":")) [
  | none ↦ err (codes "malformed JSON after field '" ++ field ++ codes "'")
  | some after ↦
      if starts_with (trim_start after) (quote ∷ [])
      then parse_json_string (trim_start after)
      else err (codes "field '" ++ field ++ codes "' is not a string")
]

unfoldable pub extract_json_field : Text → Text → Result Text
unfolding field_value
extract_json_field json field =
    let pattern = quote ∷ (field ++ quote ∷ []) in
    elim (find json pattern) [
      | none ↦ err (codes "field '" ++ field ++ codes "' not found in response")
      | some pos ↦ field_value field (drop (pos + length pattern) json)
    ]

unfoldable pub extract_nested_content : Text → Result Text
extract_nested_content json = extract_json_field json (codes "content")

-- `OllamaBackend` and `HttpBackend`
pub record Backend : Type 0 where
  pub endpoint : Text
  pub model : Text

-- `post url body` is the text of the reply to the request, or the library's error.
module _ (post : Text → Text → Result Text) where
  unfoldable pub ollama_complete : Backend → Text → Text → ℕ → Result Text
  unfolding json_escape extract_json_field decimal
  ollama_complete b system user max_tokens = do
    text ← post (b.endpoint ++ codes "/api/generate") (
        codes "{\"model\":\""
        ++ b.model
        ++ codes "\",\"system\":"
        ++ json_escape system
        ++ codes ",\"prompt\":"
        ++ json_escape user
        ++ codes ",\"stream\":false,\"options\":{\"num_predict\":"
        ++ decimal max_tokens
        ++ codes "}}")
    extract_json_field text (codes "response")

  unfoldable pub http_complete : Backend → Text → Text → ℕ → Result Text
  unfolding json_escape extract_nested_content decimal
  http_complete b system user max_tokens = do
    text ← post (b.endpoint ++ codes "/chat/completions") (
        codes "{\"model\":\""
        ++ b.model
        ++ codes "\",\"messages\":[{\"role\":\"system\",\"content\":"
        ++ json_escape system
        ++ codes "},{\"role\":\"user\",\"content\":"
        ++ json_escape user
        ++ codes "}],\"max_tokens\":"
        ++ decimal max_tokens
        ++ codes "}")
    extract_nested_content text
