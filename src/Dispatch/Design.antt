-- ===== src/Dispatch/Design.antt =====
-- `handle_design` of src/dispatch.rs: the resolved theme bundle, sent triple by triple.
use antenna.Base.{ℕ, ◌++◌, if◌then◌else◌, length, drop, map}
use antenna.Base.Text.{Text, codes, text_eq}
use antenna.Base.Result.{ok, err}
use antenna.Base.Numbers.{decimal}
use antenna.Dispatch.Spin.{error_message, triple_text}
use antenna.Dispatch.World.{Env, World, send, send_all}
use antenna.Theme.{resolve_active_theme}
use antenna.Turtle.{design_ns, turtle_escape}

module _ {S T D K : Type 0} (env : Env S T D K) where
  unfoldable pub bundle_complete : ℕ → Text
  bundle_complete n =
      codes "[] a design:ThemeBundleComplete ; design:bundleSize " ++ decimal n ++ codes " ."

  unfoldable pub send_theme : World S D K → World S D K
  unfolding send send_all bundle_complete
  send_theme w = elim (resolve_active_theme env.oxigraph env.theme_fuel w.store) [
    | ok triples ↦
        send (bundle_complete (length triples)) (send_all (map (triple_text env) triples) w)
    | err e ↦ send (error_message (codes "ResolveActiveTheme failed: " ++ turtle_escape e)) w
  ]

  unfoldable pub handle_design : Text → World S D K → World S D K
  unfolding send_theme send
  handle_design rdf_type w =
      let local = drop (length design_ns) rdf_type in
      if text_eq local (codes "ResolveActiveTheme")
      then send_theme w
      else send (error_message (codes "Unknown design type: " ++ local)) w
