-- ===== src/Llm/Tests.antt =====
-- src/llm.rs on concrete texts, those of its own tests among them.
use antenna.Base.{[], ◌∷◌, ◌++◌, ◌≡◌, refl, map, arith, inl, some, length}
use antenna.Base.Numbers.{hex}
use antenna.Base.Result.{Result, ok}
use antenna.Base.Text.{Text, codes, find, starts_with}
use antenna.Llm.{
  Backend, quote, json_escape, parse_json_string, ollama_complete, escape_char, escape_chars,
  parse_loop, hex_value,
}
use antenna.Llm.Completion.{without_cr, parse_turtle_string-turtle_escape}
use antenna.Llm.Json.{parse_json_string-json_escape}
use antenna.Llm.Reply.{
  JsonString, end, char, same, quotation_mark, line_feed, code_unit, reply_with,
  ollama_complete_lem,
}
use antenna.Llm.Platform.{parse_turtle_string}
use antenna.Turtle.{turtle_escape}

escape_bell : json_escape (codes "a\"\n" ++ 7 ∷ []) ≡ codes "\"a\\\"\\n\\u0007\""
unfolding json_escape escape_chars escape_char hex
escape_bell = refl

parse_unicode : parse_json_string (codes "\"\\u0041\\/\"") ≡ ok (codes "A/")
unfolding parse_json_string parse_loop hex_value
parse_unicode = refl

parse_json_string-json_escape_example :
    parse_json_string (json_escape (codes "a\"\n") ++ codes ", 1") ≡ ok (codes "a\"\n")
parse_json_string-json_escape_example = parse_json_string-json_escape (codes "a\"\n") (codes ", 1")

-- A reply in the shape of Ollama's documentation, whose text has a quote and a line feed.
abbrev before_response : Text
before_response = codes "{\"model\":\"m\",\"created_at\":\"2023-08-04T19:22:45.499127Z\","

abbrev response_body : Text
response_body = codes "\\\"hi\\n\\u003c"

abbrev behind_response : Text
behind_response = codes ",\"done\":true}"

abbrev reply : Text → Text → Result Text
reply url body = ok (reply_with before_response response_body behind_response)

abbrev backend : Backend
backend = record { endpoint = codes "http://localhost:11434"; model = codes "m" }

response-JsonString : JsonString (codes "\"hi\n<") response_body
response-JsonString = char quote (codes "\\\"") _ _ quotation_mark (
    char b'h' (codes "h") _ _ (same b'h' (ground arith) (ground arith)) (
      char b'i' (codes "i") _ _ (same b'i' (ground arith) (ground arith)) (
        char b'\n' (codes "\\n") _ _ line_feed (
          char b'<' (codes "\\u003c") _ _
            (code_unit 0 0 3 12 b'<' (omega arith) (omega arith) (omega arith) (omega arith) refl
              (inl (omega arith)))
            end))))

response_first :
    find (reply_with before_response response_body behind_response) (codes "\"response\"")
    ≡ some (length before_response)
unfolding find starts_with
response_first = refl

ollama_complete_lem_example :
    ollama_complete reply backend (codes "s") (codes "u") 5 ≡ ok (codes "\"hi\n<")
ollama_complete_lem_example =
    ollama_complete_lem reply backend (codes "s") (codes "u") 5 before_response (codes "\"hi\n<")
      response_body behind_response response-JsonString response_first (λ url body. refl)

-- A pair of codes for one character above 0xffff is read as nothing, and the escape of a form feed as a
-- question mark.
surrogates : parse_json_string (codes "\"a\\ud83d\\ude00\\f\"") ≡ ok (codes "a?")
unfolding parse_json_string parse_loop hex_value
surrogates = refl

parse_turtle_string-turtle_escape_example :
    parse_turtle_string (quote ∷ (turtle_escape (codes "a\r\nb") ++ quote ∷ codes " ."))
    ≡ ok (map without_cr (codes "a\r\nb"))
parse_turtle_string-turtle_escape_example =
    parse_turtle_string-turtle_escape (codes "a\r\nb") (codes " .")

carriage_return : map without_cr (codes "a\r\nb") ≡ codes "a?\nb"
carriage_return = refl
