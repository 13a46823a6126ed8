-- ===== src/Logging/Tags.antt =====
-- The filter that `parse_allowed_tags` of src/logging.rs reads from the command line, and what it
-- lets through.
use antenna.Base.{
  ℕ, zero, suc, ◌≡◌, refl, ap, sym, append-nil, ◌∙◌, Bool, true, false, List, [], ◌∷◌, ◌++◌, none,
  some, map, replicate, append_assoc, ◌==◌, if◌then◌else◌, arith,
}
use antenna.Base.Text.{
  Text, is_empty, is_whitespace, trim_start, trim_end, trim_end_step, trim, split, join,
}
use antenna.Base.TextLaws.{trim_start_cons}
use antenna.Logging.{non_empty, parse_allowed_tags}

-- A text of which no character is white space or a comma.
unfoldable pub IsWord : Text → Type 0
IsWord [] = Unit
IsWord (c ∷ s) = (is_whitespace c ≡ false) × ((c == b',') ≡ false) × IsWord s

-- Tags, as they are written one after the other: words that are not empty.
unfoldable pub AllTags : List Text → Type 0
unfolding IsWord
AllTags [] = Unit
AllTags (t ∷ ts) = (is_empty t ≡ false) × IsWord t × AllTags ts

abbrev pub is_nil : List Text → Bool
is_nil [] = true
is_nil (t ∷ ts) = false

-- A comma with `n` spaces behind it.
abbrev pub comma : ℕ → Text
comma n = b',' ∷ replicate n b' '

trim_end-word : (s : Text) → IsWord s → trim_end s ≡ s
unfolding IsWord trim_end
trim_end-word [] h = refl
trim_end-word (c ∷ []) (hc, hd, h) = ground arith
trim_end-word (c ∷ d ∷ s) (hc, hd, h) = rw (trim_end-word (d ∷ s) h) refl

trim_start-word : (s t : Text) → IsWord s → is_empty s ≡ false → trim_start (s ++ t) ≡ s ++ t
unfolding IsWord
trim_start-word [] t h k = ground arith
trim_start-word (c ∷ s) t (hc, hd, h) k = trim_start_cons c (s ++ t) hc

trim-word : (s : Text) → IsWord s → trim s ≡ s
unfolding IsWord trim trim_end trim_start
trim-word [] h = refl
trim-word (c ∷ s) (hc, hd, h) =
    ap trim_end (trim_start_cons c s hc) ∙ trim_end-word (c ∷ s) (hc, hd, h)

trim-spaces : (n : ℕ) (s : Text) → trim (replicate n b' ' ++ s) ≡ trim s
unfolding trim trim_start is_whitespace
trim-spaces zero s = refl
trim-spaces (suc n) s = trim-spaces n s

-- A text of which no character is a comma.
HasNoComma : Text → Type 0
HasNoComma [] = Unit
HasNoComma (c ∷ s) = ((c == b',') ≡ false) × HasNoComma s

spaces-HasNoComma : (n : ℕ) (s : Text) → IsWord s → HasNoComma (replicate n b' ' ++ s)
unfolding IsWord HasNoComma
spaces-HasNoComma zero [] h = tt
spaces-HasNoComma zero (c ∷ s) (hc, hd, h) = (hd, spaces-HasNoComma zero s h)
spaces-HasNoComma (suc n) s h = (refl, spaces-HasNoComma n s h)

split-last : (s : Text) → HasNoComma s → split b',' s ≡ s ∷ []
unfolding HasNoComma split
split-last [] h = refl
split-last (c ∷ s) (hd, h) = rw (hd, split-last s h) refl

split-comma : (s t : Text) → HasNoComma s → split b',' (s ++ b',' ∷ t) ≡ s ∷ split b',' t
unfolding HasNoComma split
split-comma [] t h = refl
split-comma (c ∷ s) t (hd, h) = rw (hd, split-comma s t h) refl

trim_end-append_ne : (p s : Text) → is_empty s ≡ false → trim_end s ≡ s → trim_end (p ++ s) ≡ p ++ s
unfolding trim_end
trim_end-append_ne [] s k h = h
trim_end-append_ne (c ∷ p) s k h = ap (trim_end_step c) (trim_end-append_ne p s k h) ∙ step p s k
  where
    step : (q r : Text) → is_empty r ≡ false → trim_end_step c (q ++ r) ≡ c ∷ (q ++ r)
    step [] [] k = ground arith
    step [] (d ∷ r) k = refl
    step (d ∷ q) r k = refl

is_empty-append : (s t : Text) → is_empty t ≡ false → is_empty (s ++ t) ≡ false
is_empty-append [] t h = h
is_empty-append (c ∷ s) t h = refl

is_empty-join :
    (sep t : Text) (ts : List Text) → AllTags (t ∷ ts) → is_empty (join sep (t ∷ ts)) ≡ false
unfolding AllTags join
is_empty-join sep t [] (k, h, hs) = k
is_empty-join sep t (u ∷ us) (k, h, hs) =
    is_empty-append (t ++ sep) (join sep (u ∷ us)) (is_empty-join sep u us hs)

trim_end-join :
    (sep t : Text) (ts : List Text)
    → AllTags (t ∷ ts)
    → trim_end (join sep (t ∷ ts)) ≡ join sep (t ∷ ts)
unfolding AllTags join
trim_end-join sep t [] (k, h, hs) = trim_end-word t h
trim_end-join sep t (u ∷ us) (k, h, hs) =
    trim_end-append_ne (t ++ sep) (join sep (u ∷ us)) (is_empty-join sep u us hs)
      (trim_end-join sep u us hs)

trim_start-join :
    (sep t : Text) (ts : List Text)
    → AllTags (t ∷ ts)
    → trim_start (join sep (t ∷ ts)) ≡ join sep (t ∷ ts)
unfolding AllTags join
trim_start-join sep t [] (k, h, hs) = rw (sym (append-nil t)) (trim_start-word t [] h k)
trim_start-join sep t (u ∷ us) (k, h, hs) =
    rw (append_assoc t sep (join sep (u ∷ us))) (trim_start-word t (sep ++ join sep (u ∷ us)) h k)

entries-join :
    (n k : ℕ) (t : Text) (ts : List Text)
    → AllTags (t ∷ ts)
    → non_empty (map trim (split b',' (replicate k b' ' ++ join (comma n) (t ∷ ts)))) ≡ t ∷ ts
unfolding AllTags join non_empty
entries-join n k t [] (he, h, hs) =
    rw
      (
        split-last (replicate k b' ' ++ t) (spaces-HasNoComma k t h),
        trim-spaces k t,
        trim-word t h,
        he,
      )
      refl
entries-join n k t (u ∷ us) (he, h, hs) =
    rw
      (
        append_assoc t (comma n) (join (comma n) (u ∷ us)),
        sym (append_assoc (replicate k b' ') t (comma n ++ join (comma n) (u ∷ us))),
        split-comma (replicate k b' ' ++ t) (replicate n b' ' ++ join (comma n) (u ∷ us))
            (spaces-HasNoComma k t h),
        trim-spaces k t,
        trim-word t h,
        he,
        entries-join n n u us hs,
      )
      refl

-- Tags that are written with commas, and any number of spaces behind each comma, are read as these
-- tags; no tags are no restriction.
pub parse_allowed_tags-join :
    (n : ℕ) (ts : List Text)
    → AllTags ts
    → parse_allowed_tags (join (comma n) ts) ≡ (if is_nil ts then none else some ts)
unfolding parse_allowed_tags join trim
parse_allowed_tags-join n [] h = refl
parse_allowed_tags-join n (t ∷ ts) h =
    rw
      (
        trim_start-join (comma n) t ts h,
        trim_end-join (comma n) t ts h,
        is_empty-join (comma n) t ts h,
      )
      (ap some (entries-join n 0 t ts h))
