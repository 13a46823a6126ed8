-- ===== src/Llm/Platform.antt =====
-- src/llm.rs: `PlatformBackend`, whose requests and replies are Turtle, and `create_backend`.
use antenna.Base.{
  ℕ, ◌+◌, Bool, true, false, List, [], ◌∷◌, ◌++◌, Option, none, some, ◌==◌, if◌then◌else◌, length,
  take, drop,
}
use antenna.Base.Numbers.{decimal, hex}
use antenna.Base.Result.{Result, ok, err}
use antenna.Base.Text.{
  Text, codes, text_eq, replace, replace_char, find, contains, strip_prefix, starts_with,
  trim_start,
}
use antenna.Channel.Endpoint.{Descriptor, InternalChannel, send}
use antenna.Llm.{quote, backslash, push, Backend}

abbrev pub triple_quote : Text
triple_quote = codes "\"\"\""

-- `turtle_escape`: a long literal
unfoldable pub turtle_escape : Text → Text
turtle_escape s =
    triple_quote
    ++ replace (replace_char backslash (codes "\\\\") s) triple_quote (codes "\\\"\\\"\\\"")
    ++ triple_quote

-- The loop of `parse_turtle_string`; the flag says that a backslash stands before.
unfoldable pub parse_loop : Bool → Text → Result Text
parse_loop escaped [] = err (codes "unterminated string")
parse_loop false (c ∷ s) =
    let on = parse_loop false s in
    let esc = parse_loop true s in
    if c == quote then ok [] else if c == backslash then esc else push (c ∷ []) on
parse_loop true (c ∷ s) =
    let on = parse_loop false s in
    if c == quote
    then push (quote ∷ []) on
    else if c == backslash
    then push (backslash ∷ []) on
    else if c == b'n'
    then push (b'\n' ∷ []) on
    else if c == b't'
    then push (b'\t' ∷ []) on
    else push (b'?' ∷ []) on

unfoldable pub parse_turtle_string : Text → Result Text
unfolding parse_loop
parse_turtle_string [] = err (codes "expected '\"'")
parse_turtle_string (c ∷ s) = if c == quote then parse_loop false s else err (codes "expected '\"'")

abbrev pub marker : Text
marker = codes "antenna:completion"

-- The literal that begins `after`, the text behind the marker.
unfoldable pub completion_at : Text → Result Text
unfolding parse_turtle_string
completion_at after = elim (strip_prefix after triple_quote) [
  | some rest ↦ elim (find rest triple_quote) [
    | none ↦ err (codes "unterminated triple-quoted literal")
    | some end ↦ ok (take end rest)
  ]
  | none ↦
      if starts_with after (quote ∷ [])
      then parse_turtle_string after
      else err (codes "unexpected token after antenna:completion")
]

unfoldable pub extract_turtle_completion : Text → Result Text
unfolding completion_at
extract_turtle_completion turtle = elim (find turtle marker) [
  | none ↦ err (codes "no antenna:completion in response")
  | some pos ↦ completion_at (trim_start (drop (pos + length marker) turtle))
]

-- `simple_id` at the time `t` in milliseconds, the counter standing at `n`
unfoldable pub simple_id : ℕ → ℕ → Text
simple_id t n = hex t ++ codes "-" ++ hex n

unfoldable pub request_turtle : Text → Text → Text → Text → ℕ → Text
unfolding turtle_escape decimal
request_turtle request_id model system user max_tokens =
    codes "@prefix antenna: <http://resonator.network/v2/antenna#> .\n"
    ++ codes "_:req a antenna:LlmRequest ;\n"
    ++ codes "    antenna:requestId \""
    ++ request_id
    ++ codes "\" ;\n"
    ++ codes "    antenna:model \""
    ++ model
    ++ codes "\" ;\n"
    ++ codes "    antenna:system "
    ++ turtle_escape system
    ++ codes " ;\n"
    ++ codes "    antenna:prompt "
    ++ turtle_escape user
    ++ codes " ;\n"
    ++ codes "    antenna:maxTokens "
    ++ decimal max_tokens
    ++ codes " .\n"

-- The waiting of `complete`: `replies` are the messages that arrive before the deadline, in order.
unfoldable pub await : Text → List Text → Result Text
unfolding extract_turtle_completion
await request_id [] = err (codes "platform LLM timeout (120s)")
await request_id (turtle ∷ replies) =
    let rest = await request_id replies in
    if contains turtle request_id then extract_turtle_completion turtle else rest

-- The backends that `create_backend` makes; `C` is the pair of channels.
pub data AnyBackend (C : Type 0) : Type 0 where
  ollama : Backend → AnyBackend C
  http : Backend → AnyBackend C
  platform : Text → C → AnyBackend C

abbrev drop_slash : ℕ → Text → Text
drop_slash c [] = if c == b'/' then [] else c ∷ []
drop_slash c (d ∷ s) = c ∷ d ∷ s

-- `endpoint.trim_end_matches('/')`
unfoldable pub trim_slashes : Text → Text
trim_slashes [] = []
trim_slashes (c ∷ s) = drop_slash c (trim_slashes s)

-- The flag is the feature `llm-http`.
unfoldable pub create_backend :
    {C : Type 0} → Bool → Text → Text → Text → Option C → Result (AnyBackend C)
unfolding trim_slashes
create_backend {C} llm_http backend_type endpoint model platform_channels =
    let needs_http : Result (AnyBackend C) = err (
      codes "LLM backend '"
      ++ backend_type
      ++ codes "' requires the `llm-http` feature (disabled in this build)") in
    let b : Backend = record { endpoint = trim_slashes endpoint; model = model } in
    if text_eq backend_type (codes "ollama")
    then (if llm_http then ok (ollama b) else needs_http)
    else if text_eq backend_type (codes "http")
    then (if llm_http then ok (http b) else needs_http)
    else if text_eq backend_type (codes "platform")
    then elim platform_channels [
      | none ↦ err (codes "platform backend requires llmRequest/llmResponse channels")
      | some ch ↦ ok (platform model ch)
    ]
    else err (codes "unknown LLM backend type: " ++ backend_type)

-- `PlatformBackend::complete` over the channel of requests: `t` and `n` are the time and the counter,
-- `replies` the messages that arrive before the deadline.
unfoldable pub platform_complete :
    {F : Type 0}
    → Descriptor F
    → (ℕ → ℕ)
    → Text
    → ℕ
    → ℕ
    → Text
    → Text
    → ℕ
    → List Text
    → InternalChannel F
    → Result Text × InternalChannel F
unfolding simple_id request_turtle await
platform_complete fd idle model t n system user max_tokens replies ch =
    let request_id = simple_id t n in
    (
      await request_id replies,
      (send fd idle (request_turtle request_id model system user max_tokens) ch).1,
    )
