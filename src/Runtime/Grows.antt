-- ===== src/Runtime/Grows.antt =====
-- What `dispatch` of src/dispatch.rs sent stays sent, whatever the line.
use antenna.Base.{
  Bool, true, false, List, [], ◌++◌, Option, none, some, ◌≡◌, sym, ap, ◌∙◌, append-nil,
  append_assoc, if◌then◌else◌,
}
use antenna.Base.Text.{Text}
use antenna.Dispatch.Effect.{Effect, idle, called}
use antenna.Dispatch.Frame.{
  Frame, handle_spin-Frame, handle_design-Frame, handle_subscribe_blocklist-Frame,
  insert_with_dag-Frame,
}
use antenna.Dispatch.Requests.{handle_carrier-Effect}
use antenna.Dispatch.Router.{route, dispatch_stripped, dispatch}
use antenna.Dispatch.World.{Env, World, insert_with_dag}
use antenna.Turtle.{strip_leading_directives, extract_type}

-- The messages of the first world are the first ones of the second.
pub record Grows {S D K : Type 0} (w w' : World S D K) : Type 0 where
  pub more : List Text
  pub grows : w'.out ≡ w.out ++ more

module _ {S D K : Type 0} where
  pub Grows-refl : (w : World S D K) → Grows w w
  Grows-refl w = record { more = []; grows = sym (append-nil w.out) }

  pub Grows-trans : {u v w : World S D K} → Grows u v → Grows v w → Grows u w
  Grows-trans {u} f g = record {
    more = f.more ++ g.more;
    grows = g.grows ∙ ap (λ t. t ++ g.more) f.grows ∙ append_assoc u.out f.more g.more;
  }

module _ {S T D K : Type 0} (env : Env S T D K) where
  Effect-Grows : {w w' : World S D K} → Effect env w w' → Grows w w'
  Effect-Grows (idle s d c ms e one) = record { more = ms; grows = e }
  Effect-Grows (called request m s d c e) = record { more = _; grows = e }

  Frame-Grows : {w w' : World S D K} → Frame w w' → Grows w w'
  Frame-Grows f = record { more = f.more; grows = f.grows }

  pub if_Grows :
      (b : Bool) {w x y : World S D K} → Grows w x → Grows w y → Grows w (if b then x else y)
  if_Grows true f g = f
  if_Grows false f g = g

  route-Grows :
      (has_carrier : Bool) (line rdf_type account : Text) (w : World S D K)
      → Grows w (route env has_carrier line rdf_type account w)
  unfolding route
  route-Grows has_carrier line rdf_type account w =
      if_Grows _ (Frame-Grows (handle_spin-Frame env line rdf_type w)) (
        if_Grows _
          (if_Grows has_carrier (Effect-Grows (handle_carrier-Effect env line rdf_type account w))
            (Grows-refl w))
          (if_Grows _ (Frame-Grows (handle_design-Frame env rdf_type w)) (
            if_Grows _ (Frame-Grows (handle_subscribe_blocklist-Frame env line w))
              (Frame-Grows (insert_with_dag-Frame env line w)))))

  stripped-Grows :
      (has_carrier : Bool) (line account : Text) (w : World S D K)
      → Grows w (dispatch_stripped env has_carrier line account w)
  unfolding dispatch_stripped
  stripped-Grows has_carrier line account w = if_Grows _ (Grows-refl w) (typed (extract_type line))
    where
      typed :
          (t : Option Text)
          → Grows w (elim t [
            | none ↦ insert_with_dag env line w
            | some rdf_type ↦ route env has_carrier line rdf_type account w
          ])
      typed none = Frame-Grows (insert_with_dag-Frame env line w)
      typed (some rdf_type) = route-Grows has_carrier line rdf_type account w

  -- A line, whatever it is, only adds messages behind those already sent.
  pub dispatch-Grows :
      (has_carrier : Bool) (line account : Text) (w : World S D K)
      → Grows w (dispatch env has_carrier line account w)
  unfolding dispatch
  dispatch-Grows has_carrier line account w =
      if_Grows _ (Grows-refl w)
        (stripped-Grows has_carrier (strip_leading_directives line) account w)
