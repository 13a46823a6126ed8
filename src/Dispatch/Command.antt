-- ===== src/Dispatch/Command.antt =====
-- `handle_carrier` of src/dispatch.rs: what its arms share.
pub mod Account
pub mod Contact
pub mod Conversation
use antenna.Base.{
  ℕ, ◌+◌, ◌-◌, ◌*◌, ◌^◌, Bool, true, false, ◌&&◌, ◌||◌, List, [], ◌∷◌, ◌++◌, Option, none, some,
  ltb, leb, ◌==◌, if◌then◌else◌,
}
use antenna.Base.Text.{Text, codes, is_empty, strip_prefix}
use antenna.Base.Result.{Result, ok, err}
use antenna.Carrier.{CarrierClient}
use antenna.Dispatch.Spin.{error_message}
use antenna.Dispatch.World.{World, send}
use antenna.Turtle.{extract_property, turtle_escape}

-- `.filter(|s| !s.is_empty())`
unfoldable pub non_empty : Option Text → Option Text
non_empty none = none
non_empty (some s) = if is_empty s then none else some s

abbrev pub unwrap_or {ℓ} : {A : Type ℓ} → Option A → A → A
unwrap_or none d = d
unwrap_or (some a) d = a

unfoldable pub account_or_default : Text → Text → Text
unfolding non_empty
account_or_default line default_account =
    unwrap_or (non_empty (extract_property line (codes "carrier:account"))) default_account

unfoldable pub carrier_error : Text → Text → Text
carrier_error command e = error_message (command ++ codes " failed: " ++ turtle_escape e)

-- The digits of `s` behind `n`, as a `u64`
unfoldable pub parse_digits : ℕ → Text → Option ℕ
parse_digits n [] = some n
parse_digits n (c ∷ s) =
    let m = n * 10 + (c - b'0') in
    let rest = parse_digits m s in if leb b'0' c && leb c b'9' && ltb m (2 ^ 64) then rest else none

-- `s.parse::<usize>().ok()`: digits behind an optional plus sign.
unfoldable pub parse_usize : Text → Option ℕ
unfolding parse_digits strip_prefix
parse_usize s =
    let digits = unwrap_or (strip_prefix s (codes "+")) s in
    if is_empty digits then none else parse_digits 0 digits

module _ {S D K : Type 0} where
  -- `if let Err(e) = carrier.m(…) { carrier_error(out, command, &e); }`
  unfoldable pub report {ℓ} :
      {A : Type ℓ} → Text → Result A × CarrierClient K → World S D K → World S D K
  unfolding send carrier_error
  report command (ok a, c) w = record w { carrier = c }
  report command (err e, c) w = send (carrier_error command e) (record w { carrier = c })

  -- `let v = match extract_property(line, prop) { Some(v) => v, None => { missing_field(…); return; } }`
  unfoldable pub require :
      Text → Text → Text → (Text → World S D K → World S D K) → World S D K → World S D K
  unfolding send
  require line prop command then_ w = elim (extract_property line prop) [
    | none ↦ send (error_message (command ++ codes " missing " ++ prop)) w
    | some v ↦ then_ v w
  ]
