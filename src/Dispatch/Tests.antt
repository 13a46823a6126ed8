-- ===== src/Dispatch/Tests.antt =====
-- The dispatcher of src/dispatch.rs on concrete lines, over a store, a DAG and a carrier that record
-- what they are asked.
use antenna.Base.{true, false, List, [], ◌∷◌, ◌++◌, none, some, ◌≡◌, map, refl, replicate}
use antenna.Base.Text.{
  Text, codes, text_eq, starts_with, find, trim, trim_start, trim_end, is_whitespace, take_until,
  strip_prefix, keep,
}
use antenna.Base.Numbers.{ℤ, pos, negsuc}
use antenna.Base.Result.{ok}
use antenna.Blocklist.Tests.{toy, s-IsSigned}
use antenna.Carrier.{Call, CarrierApi}
use antenna.Dispatch.Effect.{Effect}
use antenna.Dispatch.Frame.{Frame}
use antenna.Dispatch.Reads.{an_ask, Unchanged, route-Unchanged}
use antenna.Dispatch.Requests.{handle_carrier-Effect}
use antenna.Dispatch.Router.{handle_carrier, route, dispatch}
use antenna.Dispatch.Safety.{is_carrier_type, is_carrier_line, dispatch-Frame}
use antenna.Dispatch.Subscribe.{is_plain, apply_message, handle_subscribe_blocklist}
use antenna.Dispatch.Subscription.{
  HasTrace, trace, handle_subscribe_blocklist-signed, apply_message-contact_uri,
}
use antenna.Dispatch.World.{Env, World}
use antenna.Store.{Oxigraph, boolean}
use antenna.Turtle.{extract_type, extract_property, strip_leading_directives, carrier_ns, sp_ns}

abbrev log : Oxigraph (List Text) Text
log = record {
  check_iri = λ i. ok tt;
  load_from_reader = λ g t s. ok (s ++ t ∷ []);
  clear_graph = λ g s. ok [];
  query = λ q s. ok (boolean true);
  update = λ q s. ok (s ++ q ∷ []);
  show = λ t. t;
  literal = λ t. none;
  read_error = codes "row";
}

-- libcarrier remembers its calls, and refuses to remove a contact.
abbrev return_code : Call → ℤ
return_code (Call.remove_contact a u) = negsuc 2
return_code c = pos 0

abbrev library : CarrierApi (List Call)
library = record {
  call = λ c k. (return_code c, [], k ++ c ∷ []);
  nul_error = λ s. codes "nul byte";
}

abbrev env : Env (List Text) Text (List Text) (List Call)
env = record {
  oxigraph = log;
  api = library;
  crypto = toy;
  broadcast = λ slot turtle d. d ++ slot ∷ [];
  theme_fuel = 8;
}

abbrev start : World (List Text) (List Text) (List Call)
start = record {
  store = [];
  dag = [];
  carrier = record { lib = []; pending_auto_export = none };
  out = [];
}

abbrev remove_line : Text
remove_line = codes "[] a carrier:RemoveContact ; carrier:contactUri \"u\" ."

handle_carrier-Effect_example :
    Effect env start
      (handle_carrier env remove_line (carrier_ns ++ codes "RemoveContact") (codes "me") start)
handle_carrier-Effect_example =
    handle_carrier-Effect env remove_line (carrier_ns ++ codes "RemoveContact") (codes "me") start

abbrev ask_line : Text
ask_line = codes "[] a sp:Ask ; sp:text \"ASK {}\" ."

ask_line-not_carrier : is_carrier_line ask_line ≡ false
unfolding is_carrier_line is_carrier_type strip_leading_directives extract_type find starts_with
    trim trim_start trim_end is_whitespace take_until text_eq sp_ns carrier_ns
ask_line-not_carrier = refl

dispatch-Frame_example : Frame start (dispatch env true ask_line (codes "me") start)
dispatch-Frame_example = dispatch-Frame env true ask_line (codes "me") start ask_line-not_carrier

route-Unchanged_example :
    Unchanged start (route env true ask_line (sp_ns ++ codes "Ask") (codes "me") start)
route-Unchanged_example =
    route-Unchanged env true ask_line (sp_ns ++ codes "Ask") (codes "me") start an_ask

apply_message-contact_uri_example :
    extract_property (apply_message (codes "a\"b")) (codes "antenna:contactUri")
    ≡ some (keep is_plain (codes "a\"b"))
apply_message-contact_uri_example =
    apply_message-contact_uri (codes "a\"b") (unfold keep is_plain in λ e. cc)

abbrev signed_line : Text
signed_line =
    codes
      "[] a antenna:SubscribeBlocklist ; antenna:blocklistPayload \"x\" ; antenna:blocklistSig \""
    ++ replicate 64 49
    ++ codes "\" ."

signed_payload : extract_property signed_line (codes "antenna:blocklistPayload") ≡ some (codes "x")
unfolding extract_property find starts_with strip_prefix trim trim_start trim_end is_whitespace
signed_payload = refl

signed_sig : extract_property signed_line (codes "antenna:blocklistSig") ≡ some (replicate 64 49)
unfolding extract_property find starts_with strip_prefix trim trim_start trim_end is_whitespace
signed_sig = refl

handle_subscribe_blocklist-signed_example :
    HasTrace env
      (handle_subscribe_blocklist env signed_line start)
      start
      (trace env (map apply_message (codes "x" ∷ [])) start.store)
handle_subscribe_blocklist-signed_example =
    handle_subscribe_blocklist-signed env signed_line (codes "x") (replicate 64 49) start
      signed_payload signed_sig (codes "x" ∷ []) s-IsSigned

abbrev forged_line : Text
forged_line =
    codes
      "[] a antenna:SubscribeBlocklist ; antenna:blocklistPayload \"x\" ; antenna:blocklistSig \"y\" ."
