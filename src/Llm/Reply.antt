-- ===== src/Llm/Reply.antt =====
-- `OllamaBackend::complete` of src/llm.rs on the replies of a server, which writes JSON its own way.
use antenna.Base.{
  ℕ, ◌+◌, ◌*◌, ◌≤◌, ◌<◌, ◌≡◌, ◌≢◌, ◌⊎◌, refl, sym, ap, ◌∙◌, arith, [], ◌∷◌, ◌++◌, some, false, ◌==◌,
  length, drop, drop-append, length-append, append_assoc,
}
use antenna.Base.Numbers.{hex_digit}
use antenna.Base.Result.{Result, ok}
use antenna.Base.Text.{Text, codes, find, strip_prefix, trim_start, is_whitespace, starts_with}
use antenna.Llm.{
  Backend, ollama_complete, quote, backslash, hex_digits, code_point, pushed, push, plain,
  parse_loop, parse_json_string, field_value, extract_json_field,
}
use antenna.Llm.Json.{hex_value-hex_digit, hex_digits-cons}

-- The ways of JSON to write a character in a string: as it is, with a short escape, or by the four
-- hexadecimal digits of its code. The short escapes of backspace and form feed, and the pairs of codes
-- that stand for a character above 0xffff, are not among these: the reader does not know them.
pub data JsonChar : ℕ → Text → Type 0 where
  same : (c : ℕ) → c ≢ quote → c ≢ backslash → JsonChar c (c ∷ [])
  quotation_mark : JsonChar quote (backslash ∷ quote ∷ [])
  reverse_solidus : JsonChar backslash (backslash ∷ backslash ∷ [])
  solidus : JsonChar b'/' (backslash ∷ b'/' ∷ [])
  line_feed : JsonChar b'\n' (backslash ∷ b'n' ∷ [])
  carriage_return : JsonChar b'\r' (backslash ∷ b'r' ∷ [])
  tab : JsonChar b'\t' (backslash ∷ b't' ∷ [])
  code_unit :
      (a b c d n : ℕ)
      → a < 16
      → b < 16
      → c < 16
      → d < 16
      → n ≡ ((a * 16 + b) * 16 + c) * 16 + d
      → (n < 0xd800) ⊎ (0xe000 ≤ n)
      → JsonChar n (backslash ∷ b'u' ∷ hex_digit a ∷ hex_digit b ∷ hex_digit c ∷ hex_digit d ∷ [])

-- `body` is what stands between the quotes of a JSON string for the text.
pub data JsonString : Text → Text → Type 0 where
  end : JsonString [] []
  char :
      (c : ℕ) (t s body : Text) → JsonChar c t → JsonString s body → JsonString (c ∷ s) (t ++ body)

four_digits :
    (a b c d : ℕ)
    → a < 16
    → b < 16
    → c < 16
    → d < 16
    → hex_digits 0 (hex_digit a ∷ hex_digit b ∷ hex_digit c ∷ hex_digit d ∷ [])
      ≡ some (((a * 16 + b) * 16 + c) * 16 + d)
four_digits a b c d ha hb hc hd =
    hex_digits-cons 0 (hex_digit a) a (hex_digit b ∷ hex_digit c ∷ hex_digit d ∷ [])
      (hex_value-hex_digit a ha)
    ∙ hex_digits-cons (0 * 16 + a) (hex_digit b) b (hex_digit c ∷ hex_digit d ∷ [])
        (hex_value-hex_digit b hb)
    ∙ hex_digits-cons ((0 * 16 + a) * 16 + b) (hex_digit c) c (hex_digit d ∷ [])
        (hex_value-hex_digit c hc)
    ∙ hex_digits-cons (((0 * 16 + a) * 16 + b) * 16 + c) (hex_digit d) d []
        (hex_value-hex_digit d hd)
    ∙ ap some (omega arith)

no_plus : (a : ℕ) → a < 16 → (hex_digit a == b'+') ≡ false
no_plus a h = ground arith

pushed-scalar : (n : ℕ) → (n < 0xd800) ⊎ (0xe000 ≤ n) → n < 0x10000 → pushed (some n) ≡ n ∷ []
pushed-scalar n h k = ground arith

code_point-four :
    (a b c d n : ℕ)
    → a < 16
    → b < 16
    → c < 16
    → d < 16
    → n ≡ ((a * 16 + b) * 16 + c) * 16 + d
    → (n < 0xd800) ⊎ (0xe000 ≤ n)
    → code_point (hex_digit a ∷ hex_digit b ∷ hex_digit c ∷ hex_digit d ∷ []) ≡ n ∷ []
code_point-four a b c d n ha hb hc hd e s = rw (no_plus a ha) (
    ap pushed (four_digits a b c d ha hb hc hd ∙ ap some (sym e)) ∙ pushed-scalar n s (omega arith))

parse_loop-JsonChar :
    {c : ℕ} {t : Text} (s : Text)
    → JsonChar c t
    → parse_loop plain (t ++ s) ≡ push (c ∷ []) (parse_loop plain s)
unfolding parse_loop
parse_loop-JsonChar s (same c hq hb) = ground arith
parse_loop-JsonChar s quotation_mark = refl
parse_loop-JsonChar s reverse_solidus = refl
parse_loop-JsonChar s solidus = refl
parse_loop-JsonChar s line_feed = refl
parse_loop-JsonChar s carriage_return = refl
parse_loop-JsonChar s tab = refl
parse_loop-JsonChar s (code_unit a b c d n ha hb hc hd e sc) =
    ap (λ t. push t (parse_loop plain s)) (code_point-four a b c d n ha hb hc hd e sc)

parse_loop-JsonString :
    {s body : Text} (rest : Text)
    → JsonString s body
    → parse_loop plain (body ++ quote ∷ rest) ≡ ok s
unfolding parse_loop
parse_loop-JsonString rest end = refl
parse_loop-JsonString rest (char c t s body h hs) =
    ap (parse_loop plain) (append_assoc t body (quote ∷ rest))
    ∙ parse_loop-JsonChar (body ++ quote ∷ rest) h
    ∙ ap (push (c ∷ [])) (parse_loop-JsonString rest hs)

abbrev response_key : Text
response_key = codes "\"response\""

-- A reply that has the field `response` with this string, `pre` before the field and `rest` behind it.
abbrev pub reply_with : (pre body rest : Text) → Text
reply_with pre body rest = pre ++ response_key ++ (codes ":" ++ quote ∷ (body ++ quote ∷ rest))

field_value-JsonString :
    {s body : Text} (field rest : Text)
    → JsonString s body
    → field_value field (codes ":" ++ quote ∷ (body ++ quote ∷ rest)) ≡ ok s
unfolding field_value strip_prefix trim_start is_whitespace starts_with parse_json_string
field_value-JsonString field rest h = parse_loop-JsonString rest h

-- Where every reply of the server has a field `response`, whose name in quotes occurs nowhere before it,
-- `complete` returns the text that the server wrote there, in whichever of the ways of JSON that the
-- reader knows, whatever else the reply holds.
pub ollama_complete_lem :
    (post : Text → Text → Result Text) (b : Backend) (system user : Text) (max_tokens : ℕ)
    (pre s body rest : Text)
    → JsonString s body
    → find (reply_with pre body rest) response_key ≡ some (length pre)
    → ((url request : Text) → post url request ≡ ok (reply_with pre body rest))
    → ollama_complete post b system user max_tokens ≡ ok s
unfolding ollama_complete extract_json_field
ollama_complete_lem post b system user max_tokens pre s body rest js first h =
    rw (h, ollama_complete, extract_json_field, first)
      (ap (λ n. field_value (codes "response") (drop n (pre ++ response_key ++ behind)))
          (sym (length-append pre response_key))
        ∙ ap (field_value (codes "response")) (drop-append (pre ++ response_key) behind)
        ∙ field_value-JsonString (codes "response") rest js)
  where
    behind : Text
    behind = codes ":" ++ quote ∷ (body ++ quote ∷ rest)
