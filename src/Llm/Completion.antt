-- ===== src/Llm/Completion.antt =====
-- What `PlatformBackend` of src/llm.rs reads of a reply whose completion the dispatcher's escape wrote.
use antenna.Base.{
  ℕ, ◌≡◌, refl, ap, ◌∙◌, arith, true, false, List, [], ◌∷◌, ◌++◌, ◌==◌, if◌then◌else◌, append_assoc,
  map,
}
use antenna.Base.Result.{ok}
use antenna.Base.Text.{Text, contains}
use antenna.Llm.{push}
use antenna.Llm.Platform.{parse_loop, parse_turtle_string, extract_turtle_completion, await}
use antenna.Turtle.{quote, turtle_escape}
use antenna.Turtle.Escape.{escape_char, turtle_escape-cons, turtle_escape-nil}

-- A carriage return, whose escape the reader does not know, becomes a question mark.
abbrev pub without_cr : ℕ → ℕ
without_cr c = if c == b'\r' then b'?' else c

parse_loop-escape_char :
    (c : ℕ) (s : Text)
    → parse_loop false (escape_char c ++ s) ≡ push (without_cr c ∷ []) (parse_loop false s)
unfolding parse_loop escape_char
parse_loop-escape_char c s = ground arith

parse_loop-turtle_escape :
    (s rest : Text) → parse_loop false (turtle_escape s ++ quote ∷ rest) ≡ ok (map without_cr s)
parse_loop-turtle_escape [] rest =
    ap (λ t. parse_loop false (t ++ quote ∷ rest)) turtle_escape-nil ∙ (unfold parse_loop in refl)
parse_loop-turtle_escape (c ∷ s) rest =
    ap (λ t. parse_loop false (t ++ quote ∷ rest)) (turtle_escape-cons c s)
    ∙ ap (parse_loop false) (append_assoc (escape_char c) (turtle_escape s) (quote ∷ rest))
    ∙ parse_loop-escape_char c (turtle_escape s ++ quote ∷ rest)
    ∙ ap (push (without_cr c ∷ [])) (parse_loop-turtle_escape s rest)

-- A literal that the dispatcher's `turtle_escape` wrote is read back as the same text but for its
-- carriage returns: each of them comes back as a question mark.
pub parse_turtle_string-turtle_escape :
    (s rest : Text)
    → parse_turtle_string (quote ∷ (turtle_escape s ++ quote ∷ rest)) ≡ ok (map without_cr s)
unfolding parse_turtle_string
parse_turtle_string-turtle_escape s rest = parse_loop-turtle_escape s rest

abbrev pub NoneHas : Text → List Text → Type 0
NoneHas request_id [] = Unit
NoneHas request_id (t ∷ ts) = (contains t request_id ≡ false) × NoneHas request_id ts

-- Replies that do not hold the request's identifier are passed over; the first that does is the answer.
pub await_first :
    (request_id : Text) (others : List Text) (reply : Text) (later : List Text)
    → NoneHas request_id others
    → contains reply request_id ≡ true
    → await request_id (others ++ reply ∷ later) ≡ extract_turtle_completion reply
unfolding await
await_first request_id [] reply later _ h = rw (h, await) refl
await_first request_id (t ∷ others) reply later (n, ns) h =
    rw (n, await) (await_first request_id others reply later ns h)
