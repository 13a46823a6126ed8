-- ===== src/Turtle/Tests.antt =====
-- The readers of src/dispatch.rs on the lines of its own tests.
use antenna.Base.{[], ◌∷◌, ◌++◌, some, ◌≡◌, refl, arith}
use antenna.Base.Text.{
  Text, codes, find, starts_with, trim_start, trim, is_whitespace, take_until, text_eq,
  strip_prefix,
}
use antenna.Turtle.{
  quote, strip_leading_directives, extract_type, extract_property, turtle_escape, sp_ns,
}
use antenna.Turtle.Directives.{AllBodies, directives, strip_leading_directives_lem}
use antenna.Turtle.Escape.{extract_property-escape}

abbrev ask_line : Text
ask_line = codes "[] a sp:Ask ; sp:text \"ASK { ?s ?p ?o }\" ."

ask_type : extract_type ask_line ≡ some (codes "http://spinrdf.org/sp#Ask")
unfolding extract_type find starts_with trim is_whitespace take_until text_eq sp_ns
ask_type = refl

ask_text : extract_property ask_line (codes "sp:text") ≡ some (codes "ASK { ?s ?p ?o }")
unfolding extract_property find starts_with strip_prefix trim is_whitespace
ask_text = refl

abbrev prefix_body : Text
prefix_body = codes "prefix a: <x.y> "

prefix_line :
    strip_leading_directives (codes "@prefix sp: <http://spinrdf.org/sp#> . [] a sp:Ask")
    ≡ codes "[] a sp:Ask"
unfolding strip_leading_directives trim_start is_whitespace starts_with
prefix_line = refl

prefix_body-AllBodies : AllBodies (prefix_body ∷ [])
prefix_body-AllBodies = ground arith

strip_leading_directives_lem_example :
    strip_leading_directives (directives (prefix_body ∷ []) ++ codes " [] a sp:Ask .")
    ≡ trim_start (codes " [] a sp:Ask .")
strip_leading_directives_lem_example =
    strip_leading_directives_lem (prefix_body ∷ []) (codes " [] a sp:Ask .") prefix_body-AllBodies
      (unfold trim_start is_whitespace starts_with in refl)

abbrev said : Text
said = codes "say \"hi\""

said_found :
    find
      (codes "[] a carrier:SendMsg ; "
        ++ (codes "carrier:text" ++ codes " ")
        ++ quote ∷ (turtle_escape said ++ quote ∷ codes " ."))
      (codes "carrier:text" ++ codes " ")
    ≡ some 23
unfolding find starts_with
said_found = refl

-- The value comes back with its quotes still escaped.
extract_property-escape_example :
    extract_property
      (codes "[] a carrier:SendMsg ; "
        ++ (codes "carrier:text" ++ codes " ")
        ++ quote ∷ (turtle_escape said ++ quote ∷ codes " ."))
      (codes "carrier:text")
    ≡ some (turtle_escape said)
extract_property-escape_example =
    extract_property-escape (codes "[] a carrier:SendMsg ; ") (codes "carrier:text") said
      (codes " .") said_found (λ e. cc)
