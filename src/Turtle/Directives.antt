-- ===== src/Turtle/Directives.antt =====
-- What `strip_leading_directives` removes.
use antenna.Base.{
  ℕ, zero, suc, ◌≤◌, ◌<◌, ◌≡◌, refl, sym, ap, ◌∙◌, Bool, true, false, List, [], ◌∷◌, ◌++◌, none,
  some, ◌==◌, if◌then◌else◌, inl, inr, arith, length, Bool-cases, Option-cases, length-append,
  append_assoc,
}
use antenna.Base.Text.{Text, codes, starts_with, trim_start, is_whitespace}
use antenna.Turtle.{directive_end, strip_loop, strip_leading_directives}

length-trim_start : (s : Text) → length (trim_start s) ≤ length s
unfolding trim_start
length-trim_start [] = omega arith
length-trim_start (c ∷ s) = ground (arith, length-trim_start s)

length-directive_end : (b : Bool) (s t : Text) → directive_end b s ≡ some t → length t < length s
unfolding directive_end
length-directive_end b [] t h = ground arith
length-directive_end b (c ∷ s) t h =
    ground
      (arith, length-directive_end (if c == b'<' then true else if c == b'>' then false else b) s t)

-- The text after one directive, trimmed; nothing if the directive does not end.
after_directive : Text → Text
after_directive s = elim (directive_end false s) [ none ↦ [] | some t ↦ trim_start t ]

length-after_directive : (c : ℕ) (s : Text) → length (after_directive (c ∷ s)) ≤ length s
unfolding after_directive
length-after_directive c s = elim (Option-cases (directive_end false (c ∷ s))) [
  | inl e ↦ rw (e, after_directive) (omega arith)
  | inr (t, e) ↦
      rw (e, after_directive)
        (omega (arith, length-trim_start t, length-directive_end false (c ∷ s) t e))
]

strip_loop_nil : (fuel : ℕ) → strip_loop fuel [] ≡ []
unfolding strip_loop starts_with
strip_loop_nil zero = refl
strip_loop_nil (suc fuel) = refl

strip_loop_cons :
    (fuel c : ℕ) (s : Text)
    → strip_loop (suc fuel) (c ∷ s)
      ≡ (if c == b'@' then strip_loop fuel (after_directive (c ∷ s)) else c ∷ s)
unfolding strip_loop starts_with after_directive
strip_loop_cons fuel c s = elim (Option-cases (directive_end false (c ∷ s))) [
  | inl e ↦ ground (arith, e, strip_loop_nil fuel)
  | inr (t, e) ↦ ground (arith, e)
]

-- Fuel beyond the length of the text changes nothing.
strip_loop_fuel :
    (f g : ℕ) (s : Text) → length s ≤ f → length s ≤ g → strip_loop f s ≡ strip_loop g s
strip_loop_fuel f g [] hf hg = strip_loop_nil f ∙ sym (strip_loop_nil g)
strip_loop_fuel zero g (c ∷ s) hf hg = absurd (omega arith)
strip_loop_fuel (suc f) zero (c ∷ s) hf hg = absurd (omega arith)
strip_loop_fuel (suc f) (suc g) (c ∷ s) hf hg =
    strip_loop_cons f c s
    ∙ ap (λ t. if c == b'@' then t else c ∷ s)
        (strip_loop_fuel f g (after_directive (c ∷ s)) (omega (arith, length-after_directive c s))
          (omega (arith, length-after_directive c s)))
    ∙ sym (strip_loop_cons g c s)

strip_loop_head :
    (f : ℕ) (s : Text) → length s ≤ f → starts_with (strip_loop f s) (codes "@") ≡ false
unfolding starts_with
strip_loop_head f [] h = rw (strip_loop_nil f)
strip_loop_head zero (c ∷ s) h = absurd (omega arith)
strip_loop_head (suc f) (c ∷ s) h = elim (Bool-cases (c == b'@')) [
  | inl e ↦
      rw (strip_loop_cons f c s, e)
        (strip_loop_head f (after_directive (c ∷ s)) (omega (arith, length-after_directive c s)))
  | inr e ↦ rw (strip_loop_cons f c s, e) (ground (arith, e))
]

-- What is left never begins with a directive: the loop runs to its end, on every line.
pub strip_leading_directives_head :
    (line : Text) → starts_with (strip_leading_directives line) (codes "@") ≡ false
unfolding strip_leading_directives
strip_leading_directives_head line = strip_loop_head _ (trim_start line) (omega arith)

-- `d` ends outside `<…>`, and each of its dots stands inside one; `b` says where it begins.
abbrev pub IsBody : Bool → Text → Type 0
IsBody b [] = b ≡ false
IsBody b (c ∷ d) =
    (c ≡ b'.' → b ≡ true) × IsBody (if c == b'<' then true else if c == b'>' then false else b) d

directive_end-append :
    (b : Bool) (d rest : Text) → IsBody b d → directive_end b (d ++ b'.' ∷ rest) ≡ some rest
unfolding directive_end
directive_end-append b [] rest h = ground arith
directive_end-append b (c ∷ d) rest (dot, h) = ground (
  arith,
  directive_end-append (if c == b'<' then true else if c == b'>' then false else b) d rest h,
  dot,
)

-- `@`, the body and the dot
abbrev pub directive : Text → Text
directive d = b'@' ∷ (d ++ b'.' ∷ [])

strip_one :
    (d rest : Text)
    → IsBody false d
    → strip_leading_directives (b'@' ∷ (d ++ b'.' ∷ rest)) ≡ strip_leading_directives rest
unfolding strip_leading_directives trim_start is_whitespace starts_with
strip_one d rest h = rw (directive_end-append false d rest h) (
    strip_loop_fuel (length (d ++ b'.' ∷ rest)) (length (trim_start rest)) (trim_start rest)
      (omega (arith, length-trim_start rest, length-append d (b'.' ∷ rest))) (omega arith))

strip_none :
    (line : Text)
    → starts_with (trim_start line) (codes "@") ≡ false
    → strip_leading_directives line ≡ trim_start line
unfolding strip_leading_directives
strip_none line h = stop (trim_start line) h
  where
    stop : (s : Text) → starts_with s (codes "@") ≡ false → strip_loop (length s) s ≡ s
    stop [] e = refl
    stop (c ∷ s) e = rw e

abbrev pub AllBodies : List Text → Type 0
AllBodies [] = Unit
AllBodies (d ∷ ds) = IsBody false d × AllBodies ds

abbrev pub directives : List Text → Text
directives [] = []
directives (d ∷ ds) = directive d ++ directives ds

-- A run of directives, each ended by the first dot outside `<…>`, is removed whole, and what follows
-- is kept as it is but for leading white space.
pub strip_leading_directives_lem :
    (ds : List Text) (rest : Text)
    → AllBodies ds
    → starts_with (trim_start rest) (codes "@") ≡ false
    → strip_leading_directives (directives ds ++ rest) ≡ trim_start rest
strip_leading_directives_lem [] rest _ h = strip_none rest h
strip_leading_directives_lem (d ∷ ds) rest (hd, hs) h =
    ap strip_leading_directives shape
    ∙ strip_one d (directives ds ++ rest) hd
    ∙ strip_leading_directives_lem ds rest hs h
  where
    shape : directives (d ∷ ds) ++ rest ≡ b'@' ∷ (d ++ b'.' ∷ (directives ds ++ rest))
    shape = simp append_assoc
