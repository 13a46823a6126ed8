-- ===== src/Turtle/Escape.antt =====
-- `turtle_escape`, and the reading of an escaped literal by `extract_property`.
use antenna.Base.{
  ℕ, ◌+◌, ◌<◌, ◌≡◌, ◌≢◌, refl, sym, ap, ◌∙◌, false, [], ◌∷◌, ◌++◌, some, ◌==◌, if◌then◌else◌, arith,
  length, length-append, append_assoc, drop, drop-append, take-append, lt→ltb,
}
use antenna.Base.Text.{Text, codes, find, strip_prefix, trim, trim_end, replace_char, is_whitespace}
use antenna.Base.TextLaws.{trim_between}
use antenna.Turtle.{quote, backslash, quoted_end, value_at, extract_property, turtle_escape}

-- What becomes of one character.
unfoldable pub escape_char : ℕ → Text
escape_char c =
    if c == backslash
    then backslash ∷ backslash ∷ []
    else if c == quote
    then backslash ∷ quote ∷ []
    else if c == b'\n'
    then backslash ∷ b'n' ∷ []
    else if c == b'\r'
    then backslash ∷ b'r' ∷ []
    else c ∷ []

replace_char-append :
    (c : ℕ) (t s u : Text) → replace_char c t (s ++ u) ≡ replace_char c t s ++ replace_char c t u
unfolding replace_char
replace_char-append c t [] u = refl
replace_char-append c t (d ∷ s) u = rw (replace_char-append c t s u, append_assoc)

-- The four replacements together treat each character by itself.
pub turtle_escape-cons :
    (c : ℕ) (s : Text) → turtle_escape (c ∷ s) ≡ escape_char c ++ turtle_escape s
unfolding turtle_escape replace_char escape_char
turtle_escape-cons c s = ground arith

pub turtle_escape-nil : turtle_escape [] ≡ []
unfolding turtle_escape replace_char
turtle_escape-nil = refl

-- The scan of the reader passes over an escaped character.
quoted_end-escape_char :
    (i c : ℕ) (s : Text)
    → quoted_end i false (escape_char c ++ s) ≡ quoted_end (i + length (escape_char c)) false s
unfolding quoted_end escape_char
quoted_end-escape_char i c s = ground arith

quoted_end-escape :
    (i : ℕ) (v rest : Text)
    → quoted_end i false (turtle_escape v ++ quote ∷ rest) ≡ i + length (turtle_escape v)
quoted_end-escape i [] rest = rw turtle_escape-nil (unfold quoted_end in omega arith)
quoted_end-escape i (c ∷ v) rest =
    rw
      (
        turtle_escape-cons c v,
        append_assoc,
        quoted_end-escape_char i c,
        quoted_end-escape (i + length (escape_char c)) v rest,
        length-append,
      )
      (omega arith)

length-escape_char : (c : ℕ) → 0 < length (escape_char c)
unfolding escape_char
length-escape_char c = ground arith

length-escape : (v : Text) → v ≢ [] → 0 < length (turtle_escape v)
length-escape [] h = absurd (h refl)
length-escape (c ∷ v) h =
    rw (turtle_escape-cons c v, length-append) (omega (arith, length-escape_char c))

pub quote_not_white : is_whitespace quote ≡ false
unfolding is_whitespace
quote_not_white = refl

-- The scan of a literal gives the text in front of its closing quote.
pub value_at-quoted :
    (t rest : Text)
    → quoted_end 0 false (t ++ quote ∷ rest) ≡ length t
    → 0 < length t
    → value_at (quote ∷ (t ++ quote ∷ rest)) ≡ some t
unfolding value_at strip_prefix
value_at-quoted t rest e h = rw (e, lt→ltb 0 _ h) (ap some (take-append t (quote ∷ rest)))

value_at-escape :
    (v rest : Text)
    → v ≢ []
    → value_at (quote ∷ (turtle_escape v ++ quote ∷ rest)) ≡ some (turtle_escape v)
value_at-escape v rest h =
    value_at-quoted (turtle_escape v) rest (quoted_end-escape 0 v rest ∙ omega arith)
      (length-escape v h)

-- Reading goes on behind the first occurrence of the name and a space.
pub extract_property_at :
    (pre prop after : Text)
    → find (pre ++ (prop ++ codes " ") ++ after) (prop ++ codes " ") ≡ some (length pre)
    → extract_property (pre ++ (prop ++ codes " ") ++ after) prop ≡ value_at (trim after)
unfolding extract_property
extract_property_at pre prop after h =
    rw (h, extract_property)
      (ap (λ n. value_at (trim (drop n (pre ++ search ++ after)))) (sym (length-append pre search))
        ∙ ap (λ t. value_at (trim t)) (drop-append (pre ++ search) after))
  where
    search : Text
    search = prop ++ codes " "

-- A property whose name, followed by a space, first occurs where the line has it, and whose value is
-- an escaped text that is not empty, is read back as that escaped text, whatever stands behind it.
pub extract_property-escape :
    (pre prop v rest : Text)
    → find
        (pre ++ (prop ++ codes " ") ++ quote ∷ (turtle_escape v ++ quote ∷ rest))
        (prop ++ codes " ")
      ≡ some (length pre)
    → v ≢ []
    → extract_property
        (pre ++ (prop ++ codes " ") ++ quote ∷ (turtle_escape v ++ quote ∷ rest))
        prop
      ≡ some (turtle_escape v)
extract_property-escape pre prop v rest h ne =
    extract_property_at pre prop (quote ∷ (turtle_escape v ++ quote ∷ rest)) h
    ∙ ap value_at (trim_between quote (turtle_escape v) quote rest quote_not_white quote_not_white)
    ∙ value_at-escape v (trim_end rest) ne

-- No character of an escaped text ends a line: neither line feed nor carriage return is left.
abbrev pub IsSingleLine : Text → Type 0
IsSingleLine [] = Unit
IsSingleLine (c ∷ s) = (c ≢ b'\n') × (c ≢ b'\r') × IsSingleLine s

escape_char-IsSingleLine : (c : ℕ) (s : Text) → IsSingleLine s → IsSingleLine (escape_char c ++ s)
unfolding escape_char
escape_char-IsSingleLine c s h = ground arith

pub turtle_escape-IsSingleLine : (s : Text) → IsSingleLine (turtle_escape s)
turtle_escape-IsSingleLine [] = rw turtle_escape-nil tt
turtle_escape-IsSingleLine (c ∷ s) =
    rw (turtle_escape-cons c s)
      (escape_char-IsSingleLine c (turtle_escape s) (turtle_escape-IsSingleLine s))
