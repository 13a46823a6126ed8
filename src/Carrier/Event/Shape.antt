-- ===== src/Carrier/Event/Shape.antt =====
-- The shape of the lines that `event_to_turtle` of src/carrier.rs writes.
use antenna.Base.{
  true, false, List, [], ◌∷◌, ◌++◌, ◌≡◌, ◌⊎◌, refl, sym, ap, ◌∙◌, Bool-cases, inl, inr,
  append_assoc, append-nil,
}
use antenna.Base.Text.{Text, codes, is_empty, trim, trim_end, is_whitespace}
use antenna.Base.TextLaws.{trim_between}
use antenna.Turtle.{quote}
use antenna.Carrier.{cstr_from_buf}
use antenna.Carrier.Time.{format_timestamp}
use antenna.Carrier.Event.{Bytes, CarrierEvent}
use antenna.Carrier.Event.Turtle
use antenna.Carrier.Event.Fields.{Field, literal, number}
use antenna.Carrier.Event.Turtle.{render, render_all, header, class_of, fields, event_to_turtle}

-- A line that names a class behind `[] a carrier:` and goes on with a space.
abbrev pub typed_line : Text → Text → Text
typed_line class rest = codes "[] a carrier:" ++ class ++ b' ' ∷ (rest ++ codes ".")

pub trim-typed_line : (class rest : Text) → trim (typed_line class rest) ≡ typed_line class rest
unfolding is_whitespace
trim-typed_line class rest =
    ap trim split ∙ trim_between b'[' front b'.' [] refl refl ∙ (unfold trim_end in sym split)
  where
    front : Text
    front = codes "] a carrier:" ++ class ++ b' ' ∷ rest

    split : typed_line class rest ≡ b'[' ∷ (front ++ codes ".")
    split =
        ap (λ t. codes "[] a carrier:" ++ t) (sym (append_assoc class (b' ' ∷ rest) (codes ".")))

-- What stands behind the class of an event begins with a space.
abbrev Spaced : Text → Type 0
Spaced t = (r : Text) × (t ≡ b' ' ∷ r)

render-Spaced : (f : Field) (t : Text) → Spaced (render f ++ t)
unfolding render
render-Spaced (literal name value) t = (_, refl)
render-Spaced (number name value) t = (_, refl)

render_all-Spaced : (fs : List Field) (t : Text) → Spaced t → Spaced (render_all fs ++ t)
unfolding render_all
render_all-Spaced [] t h = h
render_all-Spaced (f ∷ fs) t h =
    rw (append_assoc (render f) (render_all fs) t) (render-Spaced f (render_all fs ++ t))

regroup_four : (a b c d : Text) → a ++ b ++ c ++ d ≡ a ++ (b ++ c ++ d)
regroup_four a b c d =
    append_assoc (a ++ b) c d
    ∙ append_assoc a b (c ++ d)
    ∙ ap (λ t. a ++ t) (sym (append_assoc b c d))

regroup_line :
    (head front h middle end r : Text)
    → head ≡ front ++ h
    → h ++ (middle ++ end) ≡ b' ' ∷ r
    → head ++ middle ++ end ++ codes " ." ≡ front ++ b' ' ∷ (r ++ codes " " ++ codes ".")
regroup_line head front h middle end r e f =
    ap (λ t. t ++ middle ++ end ++ codes " .") e
    ∙ ap (λ t. t ++ codes " .")
        (regroup_four front h middle end ∙ ap (λ t. front ++ t) (append_assoc h middle end ∙ f))
    ∙ append_assoc front (b' ' ∷ r) (codes " .")
    ∙ ap (λ t. front ++ b' ' ∷ t) (sym (append_assoc r (codes " ") (codes ".")))

pub regroup_account :
    (front v middle end : Text)
    → front ++ codes " ; carrier:account \"" ++ v ++ codes "\"" ++ middle ++ end ++ codes " ."
      ≡ (front ++ codes " ; ")
        ++ (codes "carrier:account" ++ codes " ")
        ++ quote ∷ (v ++ quote ∷ (middle ++ end ++ codes " ."))
regroup_account front v middle end =
    regroup_four (front ++ codes " ; carrier:account \"" ++ v ++ codes "\"") middle end (codes " .")
    ∙ append_assoc (front ++ codes " ; carrier:account \"" ++ v) (codes "\"") rest
    ∙ append_assoc (front ++ codes " ; carrier:account \"") v (quote ∷ rest)
    ∙ append_assoc front (codes " ; carrier:account \"") (v ++ quote ∷ rest)
    ∙ sym (
        append_assoc (front ++ codes " ; ") (codes "carrier:account ") (quote ∷ (v ++ quote ∷ rest))
        ∙ append_assoc front (codes " ; ")
            (codes "carrier:account " ++ quote ∷ (v ++ quote ∷ rest)))
  where
    rest : Text
    rest = middle ++ end ++ codes " ."

-- The header is the class, and behind it nothing or an account.
header-class :
    (class : Text) (acct : Bytes)
    → (h : Text) × (header class acct ≡ codes "[] a carrier:" ++ class ++ h)
      × ((t : Text) → Spaced t → Spaced (h ++ t))
unfolding header
header-class class acct = go (Bool-cases (is_empty (cstr_from_buf acct)))
  where
    front : Text
    front = codes "[] a carrier:" ++ class

    account : Text
    account =
        codes " ; carrier:account \"" ++ Turtle.turtle_escape (cstr_from_buf acct) ++ codes "\""

    go :
        (is_empty (cstr_from_buf acct) ≡ true) ⊎ (is_empty (cstr_from_buf acct) ≡ false)
        → (h : Text) × (header class acct ≡ front ++ h) × ((t : Text) → Spaced t → Spaced (h ++ t))
    go (inl e) = ([], rw (header, e) (sym (append-nil front)), λ t s. s)
    go (inr e) = (
      account,
      rw (header, e)
          (regroup_four front (codes " ; carrier:account \"")
            (Turtle.turtle_escape (cstr_from_buf acct)) (codes "\"")),
      λ t s. (_, refl),
    )

-- The line of an event is the typed line of its class.
pub event_to_turtle-typed_line :
    (ev : CarrierEvent) → (rest : Text) × (event_to_turtle ev ≡ typed_line (class_of ev.event) rest)
unfolding event_to_turtle
event_to_turtle-typed_line ev =
    let (h, e, spaced) = header-class (class_of ev.event) ev.account_id in
    let (r, f) =
      spaced (render_all (fields ev.event) ++ at)
        (render_all-Spaced (fields ev.event) at (_, refl)) in
    (
      r ++ codes " ",
      regroup_line (header (class_of ev.event) ev.account_id)
          (codes "[] a carrier:" ++ class_of ev.event) h (render_all (fields ev.event)) at r e f,
    )
  where
    at : Text
    at = codes " ; carrier:at \"" ++ format_timestamp ev.timestamp ++ codes "\"^^xsd:dateTime"
