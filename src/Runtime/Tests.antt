-- ===== src/Runtime/Tests.antt =====
-- The runtime of src/lib.rs over a store of named graphs, a DAG and a carrier that record what they are
-- asked.
use antenna.Base.{
  Bool, true, false, List, [], ◌∷◌, ◌++◌, Option, none, some, ◌≡◌, ◌⊎◌, refl, sym, ap, ◌∙◌, arith,
  if◌then◌else◌,
}
use antenna.Base.Text.{
  Text, codes, text_eq, find, starts_with, is_whitespace, trim, take_until, strip_prefix,
  trim_start, trim_end,
}
use antenna.Base.TextLaws.{text_eq_refl}
use antenna.Base.Numbers.{pos}
use antenna.Base.Result.{Result, ok, err}
use antenna.Base.Utf8.{as_bytes}
use antenna.Blocklist.Tests.{toy}
use antenna.Carrier.{Call, CarrierApi, c_string, c_string_opt, has_nul, invoke}
use antenna.Carrier.Account.{export_account}
use antenna.Carrier.Event.{CarrierEvent, CarrierEventData, AccountReadyData}
use antenna.Dispatch.Router.{dispatch}
use antenna.Runtime.{
  Host, AntennaContext, startup, announce, on_event, account_ready, publish, tick, run,
}
use antenna.Runtime.Accounts.{first_world, new_with_ttl-account}
use antenna.Runtime.Boot.{
  Setup, load_store, load_pipeline, load_bundle, load_seed, client_new, bootstrap, replace_pipeline,
  new_with_ttl, trusted_pipeline_graph,
}
use antenna.Runtime.Events.{tick-events, waiting_events}
use antenna.Runtime.Graphs.{is_spin_line, dispatch-SameGraph}
use antenna.Runtime.Phases.{opened, is_failed}
use antenna.Runtime.Startup.{IsStarted, started, tick-IsStarted}
use antenna.Runtime.Trusted.{GraphLaws, replace_pipeline-trusted}
use antenna.Store.{
  Oxigraph, boolean, turtle_prefixes, insert_turtle, insert_turtle_to_graph, clear_graph, update,
}
use antenna.Theme.{load_resolver_str}
use antenna.Turtle.{extract_property, strip_leading_directives, extract_type}

-- The texts that were loaded into each graph; the default graph has no name.
abbrev Graphs : Type 0
Graphs = Option Text → List Text

abbrev is_graph : Option Text → Option Text → Bool
is_graph none none = true
is_graph none (some b) = false
is_graph (some a) none = false
is_graph (some a) (some b) = text_eq a b

abbrev store : Oxigraph Graphs Text
store = record {
  check_iri = λ i. ok tt;
  load_from_reader = λ g t s. ok (λ h. if is_graph g h then s h ++ t ∷ [] else s h);
  clear_graph = λ g s. ok (λ h. if is_graph (some g) h then [] else s h);
  query = λ q s. ok (boolean true);
  update = λ q s. ok (λ h. if is_graph none h then s h ++ q ∷ [] else s h);
  show = λ t. t;
  literal = λ t. none;
  read_error = codes "row";
}

ok-inj : {A : Type 0} (a b : A) → ◌≡◌ {A = Result A} (ok a) (ok b) → a ≡ b
ok-inj a b h = cc

abbrev laws : GraphLaws store (List Text)
laws = record {
  view = λ name s. s (some name);
  empty = [];
  add = λ t g. g ++ t ∷ [];
  cleared =
      λ name s s' h. ap (λ f. f (some name)) (sym (ok-inj _ s' h)) ∙ rw (text_eq_refl name) refl;
  loaded = λ name ttl s s' h.
      ap (λ f. f (some name)) (sym (ok-inj _ s' h)) ∙ rw (text_eq_refl name) refl;
  default = λ name ttl s s' h. ap (λ f. f (some name)) (sym (ok-inj _ s' h));
}

abbrev library : CarrierApi (List Call)
library = record { call = λ c k. (pos 0, [], k ++ c ∷ []); nul_error = λ s. codes "nul byte" }

abbrev ready_data : AccountReadyData
ready_data = record { self_uri = as_bytes (codes "me") ++ 0 ∷ []; display_name = 0 ∷ [] }

abbrev ready : CarrierEvent
ready = record {
  timestamp = pos 0;
  account_id = as_bytes (codes "ab12") ++ 0 ∷ [];
  event = CarrierEventData.account_ready ready_data;
}

abbrev host : Host Graphs Text (List Text) (List Call)
host = record {
  env = record {
    oxigraph = store;
    api = library;
    crypto = toy;
    broadcast = λ slot turtle d. d ++ slot ∷ [];
    theme_fuel = 8;
  };
  carrier_iterate = λ k. (pos 0, ready ∷ [], k);
  pump_queries = λ s d. d;
  pump_emits = λ d. ([], d);
  health_check = λ d. ([], d);
}

abbrev setup : Setup Graphs (List Text) (List Call)
setup = record {
  design_bundle = codes "design" ∷ [];
  theme_resolver_ttl = codes "resolver";
  emoji_catalog_ttl = codes "emoji";
  open_store = λ path. ok (λ g. []);
  load_dag = λ s. ok [];
  carrier_new = λ dir. some [];
  read_to_string = λ path. err (codes "no file");
}

abbrev waiting : AntennaContext Graphs (List Text) (List Call)
waiting = record {
  world = record {
    store = λ g. [];
    dag = [];
    carrier = record { lib = []; pending_auto_export = none };
    out = [];
  };
  account_id = [];
  carrier_event_rx = codes "[] a carrier:Connected ." ∷ [];
  bootstrap_emit = none;
  pending_account_load = none;
  startup_emitted = false;
}

abbrev old : Graphs
old g = codes "old" ∷ []

replaced : (replace_pipeline store (codes "pipe") old).0 ≡ ok tt
unfolding replace_pipeline insert_turtle insert_turtle_to_graph clear_graph update
replaced = refl

replace_pipeline-trusted_example :
    laws.view trusted_pipeline_graph (replace_pipeline store (codes "pipe") old).1
    ≡ laws.add (turtle_prefixes ++ codes "pipe" ++ codes "\n") laws.empty
replace_pipeline-trusted_example = replace_pipeline-trusted store laws (codes "pipe") old replaced

tick-events_example :
    ((is_failed host (opened host waiting) ≡ true)
      × ((tick host [] waiting).1.world.out ≡ (opened host waiting).world.out)
      × ((tick host [] waiting).1.carrier_event_rx ≡ waiting_events host waiting))
    ⊎ ((is_failed host (opened host waiting) ≡ false)
        × ((more : List Text) × ((tick host [] waiting).1.world.out
              ≡ (opened host waiting).world.out ++ waiting_events host waiting ++ more))
        × ((tick host [] waiting).1.carrier_event_rx ≡ []))
tick-events_example = tick-events host [] waiting

tick-IsStarted_example :
    (tick host [] waiting ≡ tick host [] (started host waiting))
    × (announce host (startup host (started host waiting)) ≡ started host waiting)
    × IsStarted (tick host [] waiting).1
    × (announce host (startup host (tick host [] waiting).1) ≡ (tick host [] waiting).1)
tick-IsStarted_example = tick-IsStarted host [] waiting refl

abbrev fact : Text
fact = codes "<urn:a> <urn:p> <urn:b> ."

fact-no_spin : is_spin_line fact ≡ false
unfolding is_spin_line extract_type strip_leading_directives find starts_with trim trim_start
    trim_end is_whitespace take_until
fact-no_spin = refl

dispatch-SameGraph_example :
    laws.view trusted_pipeline_graph (dispatch host.env true fact (codes "me") waiting.world).store
    ≡ laws.view trusted_pipeline_graph waiting.world.store
dispatch-SameGraph_example =
    dispatch-SameGraph host.env laws trusted_pipeline_graph true fact (codes "me") waiting.world
      fact-no_spin

made :
    (ctx : AntennaContext Graphs (List Text) (List Call)) × (new_with_ttl store library setup
        (codes "dir")
        (some (codes "ab12"))
        none
        (some (codes "pipe"))
        none
      ≡ ok ctx)
unfolding new_with_ttl load_store load_pipeline replace_pipeline insert_turtle
    insert_turtle_to_graph clear_graph update load_bundle load_resolver_str load_seed client_new
    c_string has_nul bootstrap
made = (_, refl)

new_with_ttl-account_example :
    (tick host [] made.0 ≡ tick host [] (started host made.0))
    × ((started host made.0).world ≡ first_world host (codes "ab12") made.0.world)
    × IsStarted (started host made.0)
    × ((run host ([] ∷ [] ∷ []) made.0).1.account_id ≡ codes "ab12")
new_with_ttl-account_example =
    new_with_ttl-account store library setup host (codes "dir") (codes "ab12") none
      (some (codes "pipe")) none made.0 [] ([] ∷ [] ∷ []) (ground arith) made.1

-- A chat message with the name of the class in its text uses up the pending export.
export_used_up :
    (on_event host
      (codes
        "[] a carrier:TextMessage ; carrier:account \"ab12\" ; carrier:text \"carrier:AccountReady\" .")
      (record waiting {
        world = record (waiting.world) {
          carrier = record { lib = []; pending_auto_export = some (codes "/tmp/a") };
        };
      })).world.carrier.pending_auto_export
    ≡ none
unfolding on_event account_ready publish find starts_with extract_property strip_prefix trim
    trim_start trim_end is_whitespace export_account invoke c_string has_nul c_string_opt
export_used_up = refl
