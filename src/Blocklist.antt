-- ===== src/Blocklist.antt =====
-- src/blocklist.rs: the signed blocklist. Base64 and Ed25519 are parameters.
pub mod Entries
pub mod Verify
pub mod Tests
use antenna.Base.{
  ℕ, Bool, true, false, not, ◌&&◌, List, [], ◌∷◌, Option, none, some, ◌==◌, if◌then◌else◌, map,
  length,
}
use antenna.Base.Text.{Text, codes, is_empty, starts_with, trim, lines}
use antenna.Base.Utf8.{as_bytes, from_utf8}
use antenna.Base.Result.{Result, ok, err, ◌>>=◌}

-- `decode` is the standard Base64 engine's; `valid_key` is `VerifyingKey::from_bytes` succeeding,
-- `verify_strict key payload signature` is the strict Ed25519 check.
pub record Crypto : Type 0 where
  pub decode : List ℕ → Option (List ℕ)
  pub valid_key : List ℕ → Bool
  pub verify_strict : List ℕ → List ℕ → List ℕ → Bool

-- `.context(…)` and `.ok_or_else(…)`: the error that is reported in place of the library's.
abbrev pub context {ℓ} : {A : Type ℓ} → Option A → Text → Result A
context none e = err e
context (some a) e = ok a

abbrev pub ensure : Bool → Text → Result (Unit {0})
ensure true e = ok tt
ensure false e = err e

unfoldable pub keeps : Text → Bool
keeps l = not (is_empty l) && not (starts_with l (codes "#"))

unfoldable pub entries_of : List Text → List Text
unfolding keeps
entries_of [] = []
entries_of (l ∷ ls) = let rest = entries_of ls in if keeps (trim l) then trim l ∷ rest else rest

unfoldable pub parse_entries : Text → List Text
unfolding entries_of
parse_entries s = entries_of (lines s)

unfoldable pub blocklist_pubkey : List ℕ
blocklist_pubkey =
    0xe7 ∷ 0x13 ∷ 0x5a ∷ 0xd6 ∷ 0x39 ∷ 0x8a ∷ 0xdb ∷ 0x9c ∷ 0x0a ∷ 0xcd ∷ 0x80 ∷ 0xb1 ∷ 0xf8 ∷ 0xf9
    ∷ 0x61 ∷ 0xd0 ∷ 0x64 ∷ 0xcb ∷ 0xe1 ∷ 0xbd ∷ 0x94 ∷ 0x33 ∷ 0x3d ∷ 0x32 ∷ 0xc4 ∷ 0xd3 ∷ 0xcb
    ∷ 0x0c ∷ 0xaa ∷ 0xc4 ∷ 0x22 ∷ 0x06 ∷ []

unfoldable pub verify_signed_blocklist : Crypto → Text → Text → List ℕ → Result (List Text)
verify_signed_blocklist crypto payload_b64 sig_b64 pubkey = do
  payload ←
      context (crypto.decode (as_bytes (trim payload_b64)))
        (codes "blocklist payload is not valid base64")
  signature ←
      context (crypto.decode (as_bytes (trim sig_b64)))
        (codes "blocklist signature is not valid base64")
  _ ← ensure (length signature == 64) (codes "blocklist signature must be 64 bytes")
  _ ← ensure (crypto.valid_key pubkey) (codes "pinned blocklist key is invalid")
  _ ←
      ensure (crypto.verify_strict pubkey payload signature)
        (codes "blocklist signature does not verify")
  s ← context (from_utf8 payload) (codes "blocklist payload is not UTF-8")
  ok (parse_entries s)
