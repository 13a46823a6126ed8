-- ===== src/Dag/Health.antt =====
-- `health_check` of src/dag.rs: which threads are reported.
use antenna.Base.{
  ◌≡◌, refl, sym, ap, ◌∙◌, arith, Bool, true, false, not, ◌&&◌, List, [], ◌∷◌, Bool-cases, inl, inr,
}
use antenna.Base.Text.{Text, text_eq}
use antenna.Base.TextLaws.{text_eq_refl, text_eq_sound}
use antenna.Dag.{Dag, health_loop, health_check}
use antenna.Theme.{member}
use antenna.Theme.Distinct.{IsDistinct}

-- Every name on the list is reported.
abbrev AllReported : List (Text × Bool) → List Text → Type 0
AllReported [] reported = Unit
AllReported ((name, finished) ∷ threads) reported =
    (finished ≡ true → member name reported ≡ true) × AllReported threads reported

member-kept :
    (x : Text) (threads : List (Text × Bool)) (reported : List Text)
    → member x reported ≡ true
    → member x (health_loop threads reported).1 ≡ true
unfolding health_loop member
member-kept x [] reported h = h
member-kept x ((name, finished) ∷ threads) reported h =
    ground (arith, h, member-kept x threads (name ∷ reported), member-kept x threads reported)

member_here : (x : Text) (xs : List Text) → member x (x ∷ xs) ≡ true
unfolding member
member_here x xs = ground (arith, text_eq_refl x)

health_loop-AllReported :
    (threads : List (Text × Bool)) (reported : List Text)
    → AllReported threads (health_loop threads reported).1
unfolding health_loop
health_loop-AllReported [] reported = tt
health_loop-AllReported ((name, finished) ∷ threads) reported =
    elim (Bool-cases (finished && not (member name reported))) [
      | inl e ↦
          rw (e, health_loop)
            (
              (λ f. member-kept name threads (name ∷ reported) (member_here name reported)),
              health_loop-AllReported threads (name ∷ reported),
            )
      | inr e ↦
          rw (e, health_loop)
            (
              (λ f. member-kept name threads reported (known finished (member name reported) e f)),
              health_loop-AllReported threads reported,
            )
    ]
  where
    known : (f m : Bool) → f && not m ≡ false → f ≡ true → m ≡ true
    known f m e h = ground (arith, e, h)

health_loop_none :
    (threads : List (Text × Bool)) (reported : List Text)
    → AllReported threads reported
    → health_loop threads reported ≡ ([], reported)
unfolding health_loop
health_loop_none [] reported h = refl
health_loop_none ((name, finished) ∷ threads) reported (h, hs) =
    rw (nothing finished (member name reported) h) (health_loop_none threads reported hs)
  where
    nothing : (f m : Bool) → (f ≡ true → m ≡ true) → f && not m ≡ false
    nothing f m h = ground (arith, h)

health_loop_fresh :
    (x : Text) (threads : List (Text × Bool)) (reported : List Text)
    → member x reported ≡ true
    → member x (health_loop threads reported).0 ≡ false
unfolding health_loop member
health_loop_fresh x [] reported h = refl
health_loop_fresh x ((name, finished) ∷ threads) reported h =
    elim (Bool-cases (finished && not (member name reported))) [
      | inl e ↦
          rw (e, health_loop)
            (ground (
              arith,
              health_loop_fresh x threads (name ∷ reported) (ground (arith, h)),
              apart (text_eq x name) refl e,
            ))
      | inr e ↦ rw (e, health_loop) (health_loop_fresh x threads reported h)
    ]
  where
    clash : (m : Bool) → finished && not m ≡ true → m ≡ true → true ≡ false
    clash m e k = ground (arith, e, k)

    apart :
        (b : Bool) → text_eq x name ≡ b → finished && not (member name reported) ≡ true → b ≡ false
    apart false _ _ = refl
    apart true same e =
        clash (member name reported) e
          (ap (λ t. member t reported) (sym (text_eq_sound x name same)) ∙ h)

health_loop-IsDistinct :
    (threads : List (Text × Bool)) (reported : List Text)
    → IsDistinct (health_loop threads reported).0
unfolding health_loop
health_loop-IsDistinct [] reported = tt
health_loop-IsDistinct ((name, finished) ∷ threads) reported =
    elim (Bool-cases (finished && not (member name reported))) [
      | inl e ↦
          rw (e, health_loop)
            (
              health_loop_fresh name threads (name ∷ reported) (member_here name reported),
              health_loop-IsDistinct threads (name ∷ reported),
            )
      | inr e ↦ rw (e, health_loop) (health_loop-IsDistinct threads reported)
    ]

-- A check reports no name twice and none that an earlier check reported, and a second check of the same
-- threads reports nothing.
pub health_check_lem :
    {F : Type 0} (dag : Dag F)
    → IsDistinct (health_check dag).0
      × ((x : Text) → member x dag.reported_dead ≡ true → member x (health_check dag).0 ≡ false)
      × ((health_check (health_check dag).1).0 ≡ [])
unfolding health_check
health_check_lem dag = (
  health_loop-IsDistinct dag.threads dag.reported_dead,
  (λ x h. health_loop_fresh x dag.threads dag.reported_dead h),
  ap (λ p. p.0)
      (health_loop_none dag.threads (health_loop dag.threads dag.reported_dead).1
        (health_loop-AllReported dag.threads dag.reported_dead)),
)
