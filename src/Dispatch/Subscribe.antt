-- ===== src/Dispatch/Subscribe.antt =====
-- `handle_subscribe_blocklist` of src/dispatch.rs.
use antenna.Base.{ℕ, Bool, not, ◌&&◌, List, [], ◌∷◌, ◌++◌, Option, none, some, ◌==◌}
use antenna.Base.Text.{Text, codes, keep}
use antenna.Base.Result.{Result, ok, err}
use antenna.Blocklist.{verify_signed_blocklist, blocklist_pubkey}
use antenna.Dispatch.Spin.{error_message}
use antenna.Dispatch.World.{Env, World, send, insert_with_dag}
use antenna.Turtle.{quote, backslash, extract_property}

-- `|c| *c != '"' && *c != '\\'`
unfoldable pub is_plain : ℕ → Bool
is_plain c = not (c == quote) && not (c == backslash)

unfoldable pub apply_message : Text → Text
apply_message uri =
    codes "[] a antenna:BlocklistApply ; antenna:contactUri \"" ++ keep is_plain uri ++ codes "\" ."

unfoldable pub rejected_message : Text → Text
rejected_message e =
    codes "[] a antenna:BlocklistRejected ; antenna:reason \"" ++ keep is_plain e ++ codes "\" ."

module _ {S T D K : Type 0} (env : Env S T D K) where
  unfoldable pub missing_field : Text → Text → World S D K → World S D K
  unfolding send
  missing_field command field = send (error_message (command ++ codes " missing " ++ field))

  -- The `for` over the verified entries
  unfoldable pub apply_entries : List Text → World S D K → World S D K
  unfolding apply_message
  apply_entries [] w = w
  apply_entries (uri ∷ uris) w = apply_entries uris (insert_with_dag env (apply_message uri) w)

  unfoldable pub apply_verified : Result (List Text) → World S D K → World S D K
  unfolding apply_entries rejected_message
  apply_verified (ok entries) w = apply_entries entries w
  apply_verified (err e) w = insert_with_dag env (rejected_message e) w

  abbrev pub subscribe : Option Text → Option Text → World S D K → World S D K
  subscribe (some payload) (some sig) w =
      apply_verified (verify_signed_blocklist env.crypto payload sig blocklist_pubkey) w
  subscribe none sig w =
      missing_field (codes "SubscribeBlocklist") (codes "antenna:blocklistPayload/Sig") w
  subscribe (some payload) none w =
      missing_field (codes "SubscribeBlocklist") (codes "antenna:blocklistPayload/Sig") w

  unfoldable pub handle_subscribe_blocklist : Text → World S D K → World S D K
  unfolding apply_verified missing_field
  handle_subscribe_blocklist line w =
      subscribe (extract_property line (codes "antenna:blocklistPayload"))
        (extract_property line (codes "antenna:blocklistSig")) w
