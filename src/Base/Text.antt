-- ===== src/Base/Text.antt =====
-- Text as the list of its Unicode scalar values, with the operations of Rust's `str` that the
-- program uses. A byte offset of the program is the number of characters before it here: offsets are
-- only compared with 0 and used to cut at the place where they were found.
use Prim.Native.Char.{code}
use Prim.Native.String.{String}
use mathlib.Core.Option
use mathlib.Core.Bool.{Bool, true, false, ◌&&◌, ◌||◌}
use mathlib.Core.Option.{Option, none, some}
use mathlib.Core.List.{List, [], ◌∷◌, ◌++◌, flat_map}
use Prim.Native.Nat.{ℕ, zero, suc, ◌-◌}
use antenna.Base.Tests.{leb, ◌==◌, if◌then◌else◌}
use antenna.Base.Lists.{length}

abbrev pub Text : Type 0
Text = List ℕ

abbrev pub codes : String → Text
codes String.[] = []
codes (String.◌∷◌ c s) = code c ∷ codes s

unfoldable pub text_eq : Text → Text → Bool
text_eq [] [] = true
text_eq [] (d ∷ t) = false
text_eq (c ∷ s) [] = false
text_eq (c ∷ s) (d ∷ t) = c == d && text_eq s t

-- `s.is_empty()`
abbrev pub is_empty : Text → Bool
is_empty [] = true
is_empty (c ∷ s) = false

-- `s.strip_prefix(p)`
unfoldable pub strip_prefix : Text → Text → Option Text
strip_prefix s [] = some s
strip_prefix [] (d ∷ p) = none
strip_prefix (c ∷ s) (d ∷ p) = let rest = strip_prefix s p in if c == d then rest else none

-- `s.starts_with(p)`
unfoldable pub starts_with : Text → Text → Bool
starts_with s [] = true
starts_with [] (d ∷ p) = false
starts_with (c ∷ s) (d ∷ p) = c == d && starts_with s p

-- `s.find(p)`: where `p` first occurs.
unfoldable pub find : Text → Text → Option ℕ
find [] p = if starts_with [] p then some 0 else none
find (c ∷ s) p =
    let later = Option.map suc (find s p) in if starts_with (c ∷ s) p then some 0 else later

-- `s.contains(p)`
abbrev pub contains : Text → Text → Bool
contains s p = elim (find s p) [ none ↦ false | some i ↦ true ]

-- `char::is_whitespace`, the Unicode property White_Space
unfoldable pub is_whitespace : ℕ → Bool
is_whitespace c =
    leb 9 c && leb c 13
    || c == 32
    || c == 0x85
    || c == 0xa0
    || c == 0x1680
    || leb 0x2000 c && leb c 0x200a
    || c == 0x2028
    || c == 0x2029
    || c == 0x202f
    || c == 0x205f
    || c == 0x3000

unfoldable pub trim_start : Text → Text
trim_start [] = []
trim_start (c ∷ s) = let rest = trim_start s in if is_whitespace c then rest else c ∷ s

-- Behind a text that is blank but for `c` nothing is kept.
abbrev pub trim_end_step : ℕ → Text → Text
trim_end_step c [] = if is_whitespace c then [] else c ∷ []
trim_end_step c (d ∷ s) = c ∷ d ∷ s

unfoldable pub trim_end : Text → Text
trim_end [] = []
trim_end (c ∷ s) = trim_end_step c (trim_end s)

unfoldable pub trim : Text → Text
unfolding trim_start trim_end
trim s = trim_end (trim_start s)

-- `s.split(p).next()` for a set `p` of characters: the text before the first of them.
unfoldable pub take_until : (ℕ → Bool) → Text → Text
take_until p [] = []
take_until p (c ∷ s) = let rest = take_until p s in if p c then [] else c ∷ rest

-- `s.replace(c, t)` for a character `c`
unfoldable pub replace_char : ℕ → Text → Text → Text
unfolding flat_map
replace_char c t = flat_map (λ d. if d == c then t else d ∷ [])

-- `s.chars().filter(p).collect()`
unfoldable pub keep : (ℕ → Bool) → Text → Text
keep p [] = []
keep p (c ∷ s) = let rest = keep p s in if p c then c ∷ rest else rest

-- `s.replace(p, t)` for a text `p` that is not empty; `skip` characters belong to a match before them.
replace_loop : Text → Text → ℕ → Text → Text
replace_loop p t skip [] = []
replace_loop p t (suc skip) (c ∷ s) = replace_loop p t skip s
replace_loop p t zero (c ∷ s) =
    let behind = replace_loop p t (length p - 1) s in
    let other = replace_loop p t zero s in if starts_with (c ∷ s) p then t ++ behind else c ∷ other

unfoldable pub replace : Text → Text → Text → Text
unfolding replace_loop starts_with
replace s p t = replace_loop p t zero s

-- The first piece goes on with `d`.
abbrev pub onto_first : ℕ → List Text → List Text
onto_first d [] = (d ∷ []) ∷ []
onto_first d (p ∷ ps) = (d ∷ p) ∷ ps

-- `s.split(c)` for a character `c`
unfoldable pub split : ℕ → Text → List Text
split c [] = [] ∷ []
split c (d ∷ s) = let rest = split c s in if d == c then [] ∷ rest else onto_first d rest

-- `parts.join(sep)`
unfoldable pub join : Text → List Text → Text
join sep [] = []
join sep (p ∷ []) = p
join sep (p ∷ q ∷ ps) = p ++ sep ++ join sep (q ∷ ps)

-- A line as `lines` gives it: without the carriage return at its end.
unfoldable pub strip_cr : Text → Text
strip_cr [] = []
strip_cr (c ∷ []) = if c == b'\r' then [] else c ∷ []
strip_cr (c ∷ d ∷ s) = c ∷ strip_cr (d ∷ s)

unfoldable pub lines_loop : Text → Text → List Text
unfolding strip_cr
lines_loop cur [] = if is_empty cur then [] else cur ∷ []
lines_loop cur (c ∷ s) =
    let rest = lines_loop (if c == b'\n' then [] else cur ++ c ∷ []) s in
    if c == b'\n' then strip_cr cur ∷ rest else rest

-- `s.lines()`
unfoldable pub lines : Text → List Text
unfolding lines_loop
lines s = lines_loop [] s
