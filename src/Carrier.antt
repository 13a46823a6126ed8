-- ===== src/Carrier.antt =====
-- src/carrier.rs: the safe wrapper `CarrierClient` round libcarrier, whose C functions are parameters.
pub mod Account
pub mod Contact
pub mod Conversation
pub mod Time
pub mod Event
mod Tests
use antenna.Base.{
  ℕ, ◌+◌, Bool, true, false, ◌||◌, List, [], ◌∷◌, ◌++◌, Option, none, some, ◌==◌, if◌then◌else◌,
}
use antenna.Base.Text.{Text, codes}
use antenna.Base.Utf8.{from_utf8}
use antenna.Base.Result.{Result, ok, err, ◌>>=◌}
use antenna.Base.Numbers.{ℤ, is_negative, decimal_ℤ}

-- The C functions that take an account's handle, with their arguments; a null pointer is `none`.
pub data Call : Type 0 where
  create_account : Option Text → Option Text → Option Text → Call
  load_account : Text → Call
  export_account : Text → Text → Option Text → Call
  remove_account : Text → Call
  get_id : Text → Call
  set_nick : Text → Text → Call
  apply_dht_preset : Text → Call
  set_account_config :
      Text
      → ℤ
      → Option Text
      → Option Text
      → Option Text
      → Option Text
      → Option Text
      → Option Text
      → Call
  send_trust_request : Text → Text → Option Text → Call
  accept_trust_request : Text → Text → Call
  discard_trust_request : Text → Text → Call
  remove_contact : Text → Text → Call
  block_peer : Text → Text → Call
  unblock_peer : Text → Text → Call
  send_message : Text → Text → Text → Call
  create_conversation : Text → Option Text → Call
  get_saved_conversation : Text → Call
  send_conversation_message : Text → Text → Text → Call
  load_conversation_messages : Text → Text → Text → ℕ → Call
  clear_conversation_cache : Text → Text → Call
  accept_conversation_request : Text → Text → Call
  decline_conversation_request : Text → Text → Call
  invite_to_conversation : Text → Text → Text → Call
  remove_conversation : Text → Text → Call
  send_reaction : Text → Text → Text → Text → Call
  subscribe_presence : Text → Text → Bool → Call
  send_file : Text → Text → Text → Option Text → Call
  accept_file : Text → Text → Text → Text → Text → Call
  cancel_file : Text → Text → Text → Call
  create_linking_account : Call
  authorize_device : Text → Text → Call
  revoke_device : Text → Text → Call

-- libcarrier over its own state `K`: a call gives the return code, what it wrote to the caller's
-- buffer, and the state behind it. `nul_error` is the text of `CString::new`'s error.
pub record CarrierApi (K : Type 0) : Type 0 where
  pub call : Call → K → ℤ × List ℕ × K
  pub nul_error : Text → Text

-- `CarrierClient`
pub record CarrierClient (K : Type 0) : Type 0 where
  pub lib : K
  pub pending_auto_export : Option Text

abbrev pub until_nul : List ℕ → List ℕ
until_nul [] = []
until_nul (b ∷ bs) = let rest = until_nul bs in if b == 0 then [] else b ∷ rest

-- `cstr_from_buf`
unfoldable pub cstr_from_buf : List ℕ → Text
cstr_from_buf buf = elim (from_utf8 (until_nul buf)) [ none ↦ [] | some s ↦ s ]

unfoldable pub has_nul : Text → Bool
has_nul [] = false
has_nul (c ∷ s) = c == 0 || has_nul s

module _ {K : Type 0} (api : CarrierApi K) where
  -- `CString::new(s)?`
  unfoldable pub c_string : Text → Result Text
  c_string s = if has_nul s then err (api.nul_error s) else ok s

  -- `s.map(CString::new).transpose()?`
  unfoldable pub c_string_opt : Option Text → Result (Option Text)
  unfolding c_string
  c_string_opt none = ok none
  c_string_opt (some s) = c_string s >>= λ c. ok (some c)

  -- The end of every method: the call, and `bail!` on a negative return code.
  unfoldable pub invoke {ℓ} :
      {A : Type ℓ}
      → (List ℕ → A)
      → Text
      → Result Call
      → CarrierClient K
      → Result A × CarrierClient K
  invoke f name (err e) c = (err e, c)
  invoke f name (ok request) c =
      let (rc, buf, lib) = api.call request c.lib in
      if is_negative rc
      then (err (name ++ codes " failed: " ++ decimal_ℤ rc), record c { lib = lib })
      else (ok (f buf), record c { lib = lib })

abbrev pub Method : Type 0 → Type 0 → Type 0
Method K A = CarrierClient K → Result A × CarrierClient K

abbrev pub unit : List ℕ → Unit {0}
unit _ = tt
