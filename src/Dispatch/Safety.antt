-- ===== src/Dispatch/Safety.antt =====
-- `dispatch` of src/dispatch.rs as a whole: what one line from the input channel can do.
use antenna.Base.{
  Bool, true, false, ◌&&◌, Option, none, some, ◌≡◌, refl, if◌then◌else◌, inl, inr, Bool-cases,
}
use antenna.Base.Text.{Text, starts_with}
use antenna.Dispatch.Frame.{
  Frame, Frame-refl, if_Frame, handle_spin-Frame, handle_design-Frame,
  handle_subscribe_blocklist-Frame, insert_with_dag-Frame,
}
use antenna.Dispatch.Router.{handle_carrier, route, dispatch_stripped, dispatch}
use antenna.Dispatch.World.{Env, World}
use antenna.Turtle.{sp_ns, carrier_ns, strip_leading_directives, extract_type}

-- The type that `dispatch` reads is a carrier command's.
unfoldable pub is_carrier_type : Text → Bool
is_carrier_type rdf_type =
    starts_with rdf_type carrier_ns && (if starts_with rdf_type sp_ns then false else true)

unfoldable pub is_carrier_line : Text → Bool
unfolding is_carrier_type
is_carrier_line line = elim (extract_type (strip_leading_directives line)) [
  | none ↦ false
  | some rdf_type ↦ is_carrier_type rdf_type
]

module _ {S T D K : Type 0} (env : Env S T D K) where
  route-Frame :
      (has_carrier : Bool) (line rdf_type account : Text) (w : World S D K)
      → has_carrier && is_carrier_type rdf_type ≡ false
      → Frame w (route env has_carrier line rdf_type account w)
  unfolding route is_carrier_type
  route-Frame has_carrier line rdf_type account w h =
      elim (Bool-cases (starts_with rdf_type sp_ns)) [
        | inl e ↦ rw (e, route) (handle_spin-Frame env line rdf_type w)
        | inr e ↦ elim (Bool-cases (starts_with rdf_type carrier_ns)) [
          | inl e' ↦ rw (e, e', route) (if_carrier has_carrier _ _ e' e h)
          | inr e' ↦
              rw (e, e', route)
                (if_Frame env _ (handle_design-Frame env rdf_type w) (
                  if_Frame env _ (handle_subscribe_blocklist-Frame env line w)
                    (insert_with_dag-Frame env line w)))
        ]
      ]
    where
      if_carrier :
          (b p q : Bool)
          → p ≡ true
          → q ≡ false
          → b && (p && (if q then false else true)) ≡ false
          → Frame w (if b then handle_carrier env line rdf_type account w else w)
      if_carrier false p q _ _ _ = Frame-refl w
      if_carrier true true false _ _ e = cc
      if_carrier true true true _ e _ = cc
      if_carrier true false q e _ _ = cc

  stripped-Frame :
      (has_carrier : Bool) (line account : Text) (w : World S D K)
      → (t : Option Text) → extract_type line ≡ t
      → has_carrier && (elim t [ none ↦ false | some rdf_type ↦ is_carrier_type rdf_type ]) ≡ false
      → Frame w (dispatch_stripped env has_carrier line account w)
  unfolding dispatch_stripped
  stripped-Frame has_carrier line account w none e h =
      rw (e, dispatch_stripped) (if_Frame env _ (Frame-refl w) (insert_with_dag-Frame env line w))
  stripped-Frame has_carrier line account w (some rdf_type) e h =
      rw (e, dispatch_stripped)
        (if_Frame env _ (Frame-refl w) (route-Frame has_carrier line rdf_type account w h))

  -- A line whose type is not a carrier command, or any line where there is no carrier, leaves the state
  -- of libcarrier and the stashed export path alone, and only adds messages behind those already sent.
  pub dispatch-Frame :
      (has_carrier : Bool) (line account : Text) (w : World S D K)
      → has_carrier && is_carrier_line line ≡ false
      → Frame w (dispatch env has_carrier line account w)
  unfolding dispatch is_carrier_line
  dispatch-Frame has_carrier line account w h =
      if_Frame env _ (Frame-refl w)
        (stripped-Frame has_carrier (strip_leading_directives line) account w _ refl h)
