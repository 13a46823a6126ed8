-- ===== src/Theme/Distinct.antt =====
-- Lists of IRIs without repetition, for the `seen` set of the walk in src/theme.rs.
use antenna.Base.{
  suc, ◌≤◌, true, false, ◌||◌, List, [], ◌∷◌, ◌++◌, ◌≡◌, refl, ap, arith, if◌then◌else◌, length,
  Bool-cases, inl, inr,
}
use antenna.Base.Text.{Text, text_eq}
use antenna.Base.TextLaws.{text_eq_sym, text_eq_sound}
use antenna.Theme.{member}

abbrev pub IsDistinct : List Text → Type 0
IsDistinct [] = Unit
IsDistinct (x ∷ xs) = (member x xs ≡ false) × IsDistinct xs

abbrev pub AllIn : List Text → List Text → Type 0
AllIn [] ys = Unit
AllIn (x ∷ xs) ys = (member x ys ≡ true) × AllIn xs ys

pub member-snoc :
    (x p : Text) (xs : List Text) → member x (xs ++ p ∷ []) ≡ (member x xs || text_eq x p)
unfolding member
member-snoc x p [] = ground arith
member-snoc x p (y ∷ xs) = ground (arith, member-snoc x p xs)

pub snoc-IsDistinct :
    (xs : List Text) (p : Text) → IsDistinct xs → member p xs ≡ false → IsDistinct (xs ++ p ∷ [])
unfolding member
snoc-IsDistinct [] p h e = (refl, tt)
snoc-IsDistinct (x ∷ xs) p (n, h) e = (
  ground (arith, n, e, member-snoc x p xs, text_eq_sym x p),
  snoc-IsDistinct xs p h (ground (arith, e)),
)

pub snoc-AllIn :
    (xs ys : List Text) (p : Text) → AllIn xs ys → member p ys ≡ true → AllIn (xs ++ p ∷ []) ys
snoc-AllIn [] ys p h e = (e, tt)
snoc-AllIn (x ∷ xs) ys p (m, h) e = (m, snoc-AllIn xs ys p h e)

-- A list without the first occurrence of `x`
remove : Text → List Text → List Text
remove x [] = []
remove x (y ∷ ys) = let rest = remove x ys in if text_eq x y then ys else y ∷ rest

length-remove :
    (x : Text) (ys : List Text) → member x ys ≡ true → suc (length (remove x ys)) ≡ length ys
unfolding member remove
length-remove x [] e = cc
length-remove x (y ∷ ys) e = ground (arith, e, length-remove x ys)

member-remove :
    (x z : Text) (ys : List Text)
    → text_eq x z ≡ false
    → member z ys ≡ true
    → member z (remove x ys) ≡ true
unfolding member remove
member-remove x z [] n e = cc
member-remove x z (y ∷ ys) n e = elim (Bool-cases (text_eq x y)) [
  | inl h ↦
      rw (h, remove)
        (ground (arith, e, text_eq_sym z y, n, ap (λ t. text_eq t z) (text_eq_sound x y h)))
  | inr h ↦ rw (h, remove) (ground (arith, e, member-remove x z ys n))
]

remove-AllIn :
    (x : Text) (xs ys : List Text) → member x xs ≡ false → AllIn xs ys → AllIn xs (remove x ys)
unfolding member
remove-AllIn x [] ys n h = tt
remove-AllIn x (z ∷ xs) ys n (m, h) =
    (member-remove x z ys (ground (arith, n)) m, remove-AllIn x xs ys (ground (arith, n)) h)

-- Distinct members of a list are not more than the list has.
pub length-IsDistinct : (xs ys : List Text) → IsDistinct xs → AllIn xs ys → length xs ≤ length ys
length-IsDistinct [] ys d h = omega arith
length-IsDistinct (x ∷ xs) ys (n, d) (m, h) =
    omega
      (arith, length-remove x ys m, length-IsDistinct xs (remove x ys) d (remove-AllIn x xs ys n h))
