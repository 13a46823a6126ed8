-- ===== src/Base/TextLaws.antt =====
-- Laws of the text operations.
use antenna.Base.Text.{
  Text, text_eq, strip_prefix, starts_with, find, is_whitespace, trim_start, trim_end,
  trim_end_step, trim,
}
use mathlib.Core.Path.{◌≡◌, refl, ap, ◌∙◌}
use mathlib.Core.Bool.{true, false}
use mathlib.Core.Option.{some}
use mathlib.Core.List.{[], ◌∷◌, ◌++◌}
use native.Mathlib.Omega.{arith}
use Prim.Native.Nat.{ℕ}

pub text_eq_sound : (s t : Text) → text_eq s t ≡ true → s ≡ t
unfolding text_eq
text_eq_sound [] [] h = refl
text_eq_sound [] (d ∷ t) h = ground arith
text_eq_sound (c ∷ s) [] h = ground arith
text_eq_sound (c ∷ s) (d ∷ t) h = ground (arith, text_eq_sound s t)

pub text_eq_refl : (s : Text) → text_eq s s ≡ true
unfolding text_eq
text_eq_refl [] = refl
text_eq_refl (c ∷ s) = ground (arith, text_eq_refl s)

pub starts_with-append : (p s : Text) → starts_with (p ++ s) p ≡ true
unfolding starts_with
starts_with-append [] s = refl
starts_with-append (c ∷ p) s = ground (arith, starts_with-append p s)

pub strip_prefix-append : (p s : Text) → strip_prefix (p ++ s) p ≡ some s
unfolding strip_prefix
strip_prefix-append [] s = refl
strip_prefix-append (c ∷ p) s = ground (arith, strip_prefix-append p s)

pub find-append_here : (p s : Text) → find (p ++ s) p ≡ some 0
unfolding find
find-append_here [] [] = unfold starts_with in refl
find-append_here [] (d ∷ s) = unfold starts_with in refl
find-append_here (c ∷ p) s = ground (arith, starts_with-append (c ∷ p) s)

-- Text that neither begins nor ends with white space is its own trimming.
pub trim_start_cons : (c : ℕ) (s : Text) → is_whitespace c ≡ false → trim_start (c ∷ s) ≡ c ∷ s
unfolding trim_start
trim_start_cons c s h = rw h

trim_end_step-append :
    (d : ℕ) (s : Text) (c : ℕ) (t : Text) → trim_end_step d (s ++ c ∷ t) ≡ d ∷ (s ++ c ∷ t)
trim_end_step-append d [] c t = refl
trim_end_step-append d (e ∷ s) c t = refl

-- Trimming the end stops at a character that is no white space.
pub trim_end-append :
    (s : Text) (c : ℕ) (t : Text)
    → is_whitespace c ≡ false
    → trim_end (s ++ c ∷ t) ≡ s ++ c ∷ trim_end t
unfolding trim_end
trim_end-append [] c t h = ground arith
trim_end-append (d ∷ s) c t h =
    ap (trim_end_step d) (trim_end-append s c t h) ∙ trim_end_step-append d s c (trim_end t)

-- Trimming text between two characters that are no white space cuts only behind the second.
pub trim_between :
    (c : ℕ) (s : Text) (d : ℕ) (t : Text)
    → is_whitespace c ≡ false
    → is_whitespace d ≡ false
    → trim (c ∷ (s ++ d ∷ t)) ≡ c ∷ (s ++ d ∷ trim_end t)
unfolding trim
trim_between c s d t hc hd =
    ap trim_end (trim_start_cons c (s ++ d ∷ t) hc) ∙ trim_end-append (c ∷ s) d t hd

pub text_eq_sym : (x y : Text) → text_eq x y ≡ text_eq y x
unfolding text_eq
text_eq_sym [] [] = refl
text_eq_sym [] (d ∷ y) = refl
text_eq_sym (c ∷ x) [] = refl
text_eq_sym (c ∷ x) (d ∷ y) = ground (arith, text_eq_sym x y)
