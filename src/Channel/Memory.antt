-- ===== src/Channel/Memory.antt =====
-- What reading and writing round the buffer of a `RingBuffer` do to one another. The capacity
-- divides 2 ^ 32, so that a wrapped position still names the same byte.
use native.Mathlib.Nat.{
  mod-lt, mod-eq_of_lt, mod-add-mod, mod-eq-sub-mod, mod-mod_of_dvd, dvd_of_mod-eq-zero,
}
use native.Mathlib.Decide.{dec_lt}
use antenna.Base.{
  ℕ, zero, suc, ◌+◌, ◌-◌, ◌%◌, ◌≤◌, ◌<◌, ◌≡◌, ◌≢◌, refl, sym, ap, ap₂, ◌∙◌, [], ◌∷◌, ◌++◌, arith,
  length, get_or, set, length-set, get_or-set_self, get_or-set_ne,
}
use antenna.Channel.{Bytes, u32_mod, to_le_bytes, from_le_bytes, index, write, read}

-- Going on by less than a whole round does not come back to the same index.
shift-ne : (cap i d : ℕ) → i < cap → 0 < d → d < cap → (i + d) % cap ≢ i
shift-ne cap i d hi lo hi' = elim (dec_lt (i + d) cap) [
  | yes p ↦ omega (arith, mod-eq_of_lt p)
  | no p ↦ omega (
    arith,
    mod-eq-sub-mod {n = i + d} {m = cap} (omega arith),
    mod-eq_of_lt {n = i + d - cap} {m = cap} (omega arith),
  )
]

mod-ne : (cap p d : ℕ) → 0 < d → d < cap → (p + d) % cap ≢ p % cap
mod-ne cap p d lo hi e =
    shift-ne cap (p % cap) d (mod-lt p (omega arith)) lo hi (mod-add-mod p cap d ∙ e)

module _ (cap : ℕ) (divides : u32_mod % cap ≡ 0) where
  pub index-mod : (p : ℕ) → index cap p ≡ p % cap
  index-mod p = mod-mod_of_dvd cap p (dvd_of_mod-eq-zero cap divides)

  index-ne : (p q : ℕ) → q < p → p < q + cap → index cap p ≢ index cap q
  index-ne p q lo hi e =
      mod-ne cap q (p - q) (omega arith) (omega arith)
        (ap (λ k. k % cap) same ∙ sym (index-mod p) ∙ e ∙ index-mod q)
    where
      same : q + (p - q) ≡ p
      same = omega arith

  pub length-write : (buf : Bytes) (p : ℕ) (bs : Bytes) → length (write cap buf p bs) ≡ length buf
  unfolding write
  length-write buf p [] = refl
  length-write buf p (b ∷ bs) =
      length-write (set buf (index cap p) b) (p + 1) bs ∙ length-set buf _ b

  get_or-write_ne :
      (buf : Bytes) (p q : ℕ) (bs : Bytes)
      → q < p
      → p + length bs ≤ q + cap
      → get_or (write cap buf p bs) (index cap q) 0 ≡ get_or buf (index cap q) 0
  unfolding write
  get_or-write_ne buf p q [] lo hi = refl
  get_or-write_ne buf p q (b ∷ bs) lo hi =
      get_or-write_ne (set buf (index cap p) b) (p + 1) q bs (omega arith) (omega arith)
      ∙ get_or-set_ne buf b 0 (index-ne p q lo (omega arith))

  -- Bytes before those that are written, by less than a round, stay.
  pub read-write_ne :
      (buf : Bytes) (p q n : ℕ) (bs : Bytes)
      → q + n ≤ p
      → p + length bs ≤ q + cap
      → read cap (write cap buf p bs) q n ≡ read cap buf q n
  unfolding read
  read-write_ne buf p q zero bs lo hi = refl
  read-write_ne buf p q (suc n) bs lo hi =
      ap₂ ◌∷◌ (get_or-write_ne buf p q bs (omega arith) hi)
        (read-write_ne buf p (q + 1) n bs (omega arith) (omega arith))

  -- What is written is read back.
  pub read-write_self :
      (buf : Bytes) (p : ℕ) (bs : Bytes)
      → 0 < cap
      → cap ≤ length buf
      → length bs ≤ cap
      → read cap (write cap buf p bs) p (length bs) ≡ bs
  unfolding write read
  read-write_self buf p [] pos room fits = refl
  read-write_self buf p (b ∷ bs) pos room fits =
      ap₂ ◌∷◌
        (get_or-write_ne (set buf (index cap p) b) (p + 1) p bs (omega arith) (omega arith)
          ∙ get_or-set_self buf (index cap p) b 0 inside)
        (read-write_self (set buf (index cap p) b) (p + 1) bs pos
          (omega (arith, length-set buf (index cap p) b)) (omega arith))
    where
      inside : index cap p < length buf
      inside = omega (arith, mod-lt (p % u32_mod) {m = cap} pos)

module _ (cap : ℕ) where
  pub length-read : (buf : Bytes) (p n : ℕ) → length (read cap buf p n) ≡ n
  unfolding read
  length-read buf p zero = refl
  length-read buf p (suc n) = ap suc (length-read buf (p + 1) n)

  pub read-add :
      (buf : Bytes) (p m n : ℕ)
      → read cap buf p (m + n) ≡ read cap buf p m ++ read cap buf (p + m) n
  unfolding read
  read-add buf p zero n = ap₂ (read cap buf) (omega arith) (omega arith)
  read-add buf p (suc m) n =
      ap (read cap buf p) e
      ∙ ap (λ t. get_or buf (index cap p) 0 ∷ t) (read-add buf (p + 1) m n)
      ∙ ap (λ k. get_or buf (index cap p) 0 ∷ read cap buf (p + 1) m ++ read cap buf k n) next
    where
      e : suc m + n ≡ suc (m + n)
      e = omega arith

      next : p + 1 + m ≡ p + suc m
      next = omega arith

  -- Only the position modulo 2 ^ 32 counts.
  pub read_mod :
      (buf : Bytes) (p q n : ℕ) → p % u32_mod ≡ q % u32_mod → read cap buf p n ≡ read cap buf q n
  unfolding read
  read_mod buf p q zero e = refl
  read_mod buf p q (suc n) e =
      ap₂ ◌∷◌ (ap (λ i. get_or buf (i % cap) 0) e) (read_mod buf (p + 1) (q + 1) n (omega arith))

  pub write_mod :
      (buf : Bytes) (p q : ℕ) (bs : Bytes)
      → p % u32_mod ≡ q % u32_mod
      → write cap buf p bs ≡ write cap buf q bs
  unfolding write
  write_mod buf p q [] e = refl
  write_mod buf p q (b ∷ bs) e =
      ap (λ i. write cap (set buf (i % cap) b) (p + 1) bs) e
      ∙ write_mod (set buf (index cap q) b) (p + 1) (q + 1) bs (omega arith)

  pub write-append :
      (buf : Bytes) (p : ℕ) (xs ys : Bytes)
      → write cap buf p (xs ++ ys) ≡ write cap (write cap buf p xs) (p + length xs) ys
  unfolding write
  write-append buf p [] ys = ap (λ k. write cap buf k ys) (omega arith)
  write-append buf p (x ∷ xs) ys =
      write-append (set buf (index cap p) x) (p + 1) xs ys
      ∙ ap (λ k. write cap (write cap (set buf (index cap p) x) (p + 1) xs) k ys) (omega arith)

pub from_le_bytes-to_le_bytes : (n : ℕ) → n < u32_mod → from_le_bytes (to_le_bytes n) ≡ n
from_le_bytes-to_le_bytes n h = omega arith
