-- ===== src/Blocklist/Verify.antt =====
-- `verify_signed_blocklist` of src/blocklist.rs against what a signed blocklist is.
use antenna.Base.{ℕ, Bool, true, false, List, Option, none, some, ◌≡◌, refl, ◌↔◌, ◌==◌, length}
use antenna.Base.Text.{Text, trim}
use antenna.Base.Utf8.{as_bytes, from_utf8}
use antenna.Base.Result.{ok, ◌>>=◌}
use antenna.Blocklist.{Crypto, context, ensure, parse_entries, verify_signed_blocklist}

-- A payload under a signature of 64 bytes that the key verifies, whose entries are `uris`.
pub record IsSigned (crypto : Crypto) (payload_b64 sig_b64 : Text) (pubkey : List ℕ)
    (uris : List Text) : Type 0 where
  pub payload : List ℕ
  pub signature : List ℕ
  pub text : Text
  pub payload_decodes : crypto.decode (as_bytes (trim payload_b64)) ≡ some payload
  pub signature_decodes : crypto.decode (as_bytes (trim sig_b64)) ≡ some signature
  pub signature_size : (length signature == 64) ≡ true
  pub key_valid : crypto.valid_key pubkey ≡ true
  pub verifies : crypto.verify_strict pubkey payload signature ≡ true
  pub is_text : from_utf8 payload ≡ some text
  pub entries : uris ≡ parse_entries text

module _ (crypto : Crypto) (payload_b64 sig_b64 : Text) (pubkey : List ℕ) (uris : List Text) where
  complete :
      IsSigned crypto payload_b64 sig_b64 pubkey uris
      → verify_signed_blocklist crypto payload_b64 sig_b64 pubkey ≡ ok uris
  unfolding verify_signed_blocklist
  complete h =
      rw
        (
          h.payload_decodes, h.signature_decodes, h.signature_size, h.key_valid, h.verifies,
          h.is_text, h.entries,
        )
        refl

  -- What is left of the function behind the two decodings
  checked :
      (payload signature : List ℕ) (m1 m2 m3 m4 : Text) (b1 b2 b3 : Bool) (t : Option Text)
      → crypto.decode (as_bytes (trim payload_b64)) ≡ some payload
      → crypto.decode (as_bytes (trim sig_b64)) ≡ some signature
      → (length signature == 64) ≡ b1
      → crypto.valid_key pubkey ≡ b2
      → crypto.verify_strict pubkey payload signature ≡ b3
      → from_utf8 payload ≡ t
      → (ensure b1 m1 >>= λ _.
          ensure b2 m2 >>= λ _. ensure b3 m3 >>= λ _. context t m4 >>= λ s. ok (parse_entries s))
        ≡ ok uris
      → IsSigned crypto payload_b64 sig_b64 pubkey uris
  checked payload signature m1 m2 m3 m4 true true true (some text) ep es e1 e2 e3 et h = record {
    payload = payload;
    signature = signature;
    text = text;
    payload_decodes = ep;
    signature_decodes = es;
    signature_size = e1;
    key_valid = e2;
    verifies = e3;
    is_text = et;
    entries = cc;
  }
  checked payload signature m1 m2 m3 m4 true true true none ep es e1 e2 e3 et h = cc
  checked payload signature m1 m2 m3 m4 true true false t ep es e1 e2 e3 et h = cc
  checked payload signature m1 m2 m3 m4 true false b3 t ep es e1 e2 e3 et h = cc
  checked payload signature m1 m2 m3 m4 false b2 b3 t ep es e1 e2 e3 et h = cc

  decoded :
      (m m' m1 m2 m3 m4 : Text) (p s : Option (List ℕ))
      → crypto.decode (as_bytes (trim payload_b64)) ≡ p
      → crypto.decode (as_bytes (trim sig_b64)) ≡ s
      → (context p m >>= λ payload. context s m' >>= λ signature.
          ensure (length signature == 64) m1 >>= λ _. ensure (crypto.valid_key pubkey) m2 >>= λ _.
          ensure (crypto.verify_strict pubkey payload signature) m3 >>= λ _.
          context (from_utf8 payload) m4 >>= λ t. ok (parse_entries t))
        ≡ ok uris
      → IsSigned crypto payload_b64 sig_b64 pubkey uris
  decoded m m' m1 m2 m3 m4 none s ep es h = cc
  decoded m m' m1 m2 m3 m4 (some p) none ep es h = cc
  decoded m m' m1 m2 m3 m4 (some p) (some s) ep es h =
      checked p s m1 m2 m3 m4 _ _ _ _ ep es refl refl refl refl h

  -- The check succeeds with these entries if and only if both texts decode, the signature has 64 bytes,
  -- the key is valid and verifies the payload strictly, and the payload is a text with these entries.
  pub verify_signed_blocklist_iff :
      (verify_signed_blocklist crypto payload_b64 sig_b64 pubkey ≡ ok uris)
      ↔ IsSigned crypto payload_b64 sig_b64 pubkey uris
  unfolding verify_signed_blocklist
  verify_signed_blocklist_iff = (decoded _ _ _ _ _ _ _ _ refl refl, complete)
