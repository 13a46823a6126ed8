-- ===== src/Runtime/Boot.antt =====
-- src/lib.rs: `replace_pipeline`, the creation of an `AntennaContext`, and `AntennaBuilder`.
use antenna.Base.{false, List, [], ◌∷◌, ◌++◌, Option, none, some, if◌then◌else◌}
use antenna.Base.Text.{Text, codes, is_empty}
use antenna.Base.Result.{Result, ok, err, ◌>>=◌}
use antenna.Carrier.{CarrierApi, CarrierClient, c_string}
use antenna.Carrier.Account.{create_account}
use antenna.Runtime.{AntennaContext}
use antenna.Store.{Oxigraph, insert_turtle, insert_turtle_to_graph, clear_graph, update}
use antenna.Theme.{theme_graph, load_resolver_str}

abbrev pub trusted_pipeline_graph : Text
trusted_pipeline_graph = codes "urn:resonator:trusted-pipeline"

unfoldable pub pipeline_reset_nodes : Text
pipeline_reset_nodes =
    codes "\n        PREFIX antenna: <http://resonator.network/v2/antenna#>\n"
    ++ codes "        DELETE WHERE { ?s a antenna:ScriptNode ; ?p ?o }\n    "

unfoldable pub pipeline_reset_sources : Text
pipeline_reset_sources =
    codes "\n        PREFIX antenna: <http://resonator.network/v2/antenna#>\n"
    ++ codes "        DELETE WHERE { ?s a antenna:ScriptSource ; ?p ?o }\n    "

-- One call on the store: what fails leaves the store as it was.
abbrev pub settle : {S : Type 0} → S → Result S → Result (Unit {0}) × S
settle s (ok s') = (ok tt, s')
settle s (err e) = (err e, s)

-- A call behind those that went well; nothing follows one that failed.
abbrev pub then_do : {S : Type 0} → (S → Result S) → Result (Unit {0}) × S → Result (Unit {0}) × S
then_do f (err e, s) = (err e, s)
then_do f (ok _, s) = settle s (f s)

module _ {S T : Type 0} (ox : Oxigraph S T) where
  unfoldable pub replace_pipeline : Text → S → Result (Unit {0}) × S
  replace_pipeline ttl s = then_do (insert_turtle_to_graph ox ttl trusted_pipeline_graph) (
      then_do (clear_graph ox trusted_pipeline_graph) (
        then_do (insert_turtle ox ttl) (
          then_do (update ox pipeline_reset_sources)
            (then_do (update ox pipeline_reset_nodes) (ok tt, s)))))

  -- The loop over `DESIGN_BUNDLE`
  unfoldable pub load_bundle : List Text → S → Result S
  load_bundle [] s = ok s
  load_bundle (ttl ∷ bundle) s =
      insert_turtle_to_graph ox ttl theme_graph s >>= λ s'. load_bundle bundle s'

-- What the creation takes from outside: the files that are compiled in, `RdfStore::open`, `Dag::load`,
-- `carrier_new` with a null pointer as `none`, and the reading of files.
pub record Setup (S D K : Type 0) : Type 0 where
  pub design_bundle : List Text
  pub theme_resolver_ttl : Text
  pub emoji_catalog_ttl : Text
  pub open_store : Option Text → Result S
  pub load_dag : S → Result D
  pub carrier_new : Text → Option K
  pub read_to_string : Text → Result Text

unfoldable pub onboarding_required : Text
onboarding_required = codes "[] a antenna:OnboardingRequired ; antenna:reason \"no-account\" ."

-- `AntennaBuilder`
pub record AntennaBuilder : Type 0 where
  pub data_dir : Text
  pub account_id : Option Text
  pub store_path : Option Text
  pub pipeline_path : Option Text
  pub seed_path : Option Text

unfoldable pub builder : Text → AntennaBuilder
builder data_dir = record {
  data_dir = data_dir;
  account_id = none;
  store_path = none;
  pipeline_path = none;
  seed_path = none;
}

module _ {S T D K : Type 0} (ox : Oxigraph S T) (api : CarrierApi K) (setup : Setup S D K) where
  -- `CarrierClient::new`
  unfoldable pub client_new : Text → Result (CarrierClient K)
  client_new data_dir = c_string api data_dir >>= λ dir. elim (setup.carrier_new dir) [
    | none ↦ err (codes "carrier_new returned NULL")
    | some lib ↦ ok (record { lib = lib; pending_auto_export = none })
  ]

  unfoldable pub load_pipeline : Option Text → S → Result S
  load_pipeline none s = ok s
  load_pipeline (some ttl) s = let (result, s') = replace_pipeline ox ttl s in result >>= λ _. ok s'

  unfoldable pub load_seed : Option Text → S → Result S
  load_seed none s = ok s
  load_seed (some ttl) s = insert_turtle ox ttl s

  unfoldable pub load_store : Option Text → Option Text → Option Text → Result S
  unfolding load_bundle load_pipeline load_seed
  load_store store_path pipeline_ttl seed_ttl = do
    s0 ← setup.open_store store_path
    s1 ← clear_graph ox theme_graph s0
    s2 ← load_bundle ox setup.design_bundle s1
    s3 ← load_resolver_str ox setup.theme_resolver_ttl s2
    s4 ← insert_turtle ox setup.emoji_catalog_ttl s3
    s5 ← load_pipeline pipeline_ttl s4
    load_seed seed_ttl s5

  abbrev context : S → D → CarrierClient K → Text → Option Text → Option Text → AntennaContext S D K
  context s d client account bootstrap_emit pending_account_load = record {
    world = record { store = s; dag = d; carrier = client; out = [] };
    account_id = account;
    carrier_event_rx = [];
    bootstrap_emit = bootstrap_emit;
    pending_account_load = pending_account_load;
    startup_emitted = false;
  }

  -- The three ways to come to an account
  unfoldable pub bootstrap : Option Text → S → D → CarrierClient K → Result (AntennaContext S D K)
  bootstrap none s d client =
      let (result, client') = create_account api none none none client in
      result >>= λ new_id. ok (context s d client' new_id none none)
  bootstrap (some id) s d client =
      if is_empty id
      then ok (context s d client [] (some onboarding_required) none)
      else ok (context s d client id none (some id))

  unfoldable pub new_with_ttl :
      Text → Option Text → Option Text → Option Text → Option Text → Result (AntennaContext S D K)
  unfolding client_new load_store bootstrap
  new_with_ttl data_dir account_id store_path pipeline_ttl seed_ttl = do
    s ← load_store store_path pipeline_ttl seed_ttl
    d ← setup.load_dag s
    client ← client_new data_dir
    bootstrap account_id s d client

  abbrev read_file : Option Text → Result (Option Text)
  read_file none = ok none
  read_file (some path) = setup.read_to_string path >>= λ ttl. ok (some ttl)

  unfoldable pub new :
      Text → Option Text → Option Text → Option Text → Option Text → Result (AntennaContext S D K)
  unfolding new_with_ttl
  new data_dir account_id store_path pipeline_path seed_path = do
    pipeline_ttl ← read_file pipeline_path
    seed_ttl ← read_file seed_path
    new_with_ttl data_dir account_id store_path pipeline_ttl seed_ttl

  unfoldable pub build : AntennaBuilder → Result (AntennaContext S D K)
  unfolding new
  build b = new b.data_dir b.account_id b.store_path b.pipeline_path b.seed_path
