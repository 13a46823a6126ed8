-- ===== src/Blocklist/Tests.antt =====
-- The signed blocklist of src/blocklist.rs on concrete inputs.
use antenna.Base.{
  ℕ, Bool, true, false, List, [], ◌∷◌, ◌+◌, ◌&&◌, some, ◌≡◌, refl, ◌==◌, replicate, length, ◌↔◌,
}
use antenna.Base.Text.{
  Text, codes, trim, trim_start, trim_end, is_whitespace, starts_with, lines, lines_loop, strip_cr,
}
use antenna.Base.Utf8.{as_bytes, from_utf8, encode_char}
use antenna.Base.Result.{ok}
use antenna.Blocklist.{
  Crypto, keeps, entries_of, parse_entries, verify_signed_blocklist, blocklist_pubkey,
}
use antenna.Blocklist.Verify.{IsSigned, verify_signed_blocklist_iff}

-- A payload of two entries, a comment and a blank line
abbrev payload : Text
payload = codes "# list\n  jami:a \r\n\njami:b"

payload-entries : parse_entries payload ≡ codes "jami:a" ∷ codes "jami:b" ∷ []
unfolding parse_entries lines lines_loop strip_cr entries_of keeps trim trim_start trim_end
    is_whitespace starts_with
payload-entries = refl

abbrev two : List Text
two = codes "ab" ∷ codes "c" ∷ []

-- Texts decode to their own bytes. A key of 32 bytes signs a payload by 64 times its length.
abbrev equal : List ℕ → List ℕ → Bool
equal [] [] = true
equal [] (b ∷ bs) = false
equal (a ∷ r) [] = false
equal (a ∷ r) (b ∷ bs) = a == b && equal r bs

abbrev pub toy : Crypto
toy = record {
  decode = λ b. some b;
  valid_key = λ k. length k == 32;
  verify_strict = λ k p sig. equal sig (replicate 64 (48 + length p));
}

s-verifies :
    verify_signed_blocklist toy (codes "x") (replicate 64 49) blocklist_pubkey ≡ ok (codes "x" ∷ [])
unfolding verify_signed_blocklist blocklist_pubkey parse_entries lines lines_loop strip_cr
    entries_of keeps trim trim_start trim_end is_whitespace starts_with as_bytes from_utf8
    encode_char
s-verifies = refl

pub s-IsSigned : IsSigned toy (codes "x") (replicate 64 49) blocklist_pubkey (codes "x" ∷ [])
s-IsSigned =
    (verify_signed_blocklist_iff toy (codes "x") (replicate 64 49) blocklist_pubkey
        (codes "x" ∷ [])).0
      s-verifies

verify_signed_blocklist_iff_example :
    (verify_signed_blocklist toy (codes "x") (replicate 64 49) blocklist_pubkey
      ≡ ok (codes "x" ∷ []))
    ↔ IsSigned toy (codes "x") (replicate 64 49) blocklist_pubkey (codes "x" ∷ [])
verify_signed_blocklist_iff_example =
    verify_signed_blocklist_iff toy (codes "x") (replicate 64 49) blocklist_pubkey (codes "x" ∷ [])
