-- ===== src/Theme/Walk.antt =====
-- The walk of `ancestor_chain_values` in src/theme.rs along `design:extends`.
use antenna.Base.{
  ℕ, zero, suc, ◌+◌, ◌≤◌, ◌<◌, true, false, List, [], ◌∷◌, ◌++◌, Option, none, some, ◌≡◌, refl, ap,
  arith, length, length-append, Bool-cases, inl, inr,
}
use antenna.Base.Text.{Text}
use antenna.Base.Result.{Result, ok, err}
use antenna.Store.{Oxigraph}
use antenna.Theme.{member, parent_of, chain_loop}
use antenna.Theme.Distinct.{IsDistinct, AllIn, snoc-IsDistinct, snoc-AllIn, length-IsDistinct}

module _ {S T : Type 0} (ox : Oxigraph S T) (s : S) where
  -- Each theme but the first is the parent of the one before it.
  abbrev IsLinked : List Text → Type 0
  IsLinked [] = Unit
  IsLinked (x ∷ []) = Unit
  IsLinked (x ∷ y ∷ ys) = (parent_of ox x s ≡ ok (some y)) × IsLinked (y ∷ ys)

  -- Where a walk may end: at a theme without a parent, or one whose parent was met before.
  pub data Ends (chain : List Text) (last : Text) : Type 0 where
    root : parent_of ox last s ≡ ok none → Ends chain last
    cycle : (p : Text) → parent_of ox last s ≡ ok (some p) → member p chain ≡ true → Ends chain last

  -- A finished walk from `first`
  pub record IsWalk (first : Text) (chain : List Text) : Type 0 where
    pub front : List Text
    pub last : Text
    pub shape : chain ≡ front ++ last ∷ []
    pub rest : List Text
    pub starts : chain ≡ first ∷ rest
    pub linked : IsLinked chain
    pub distinct : IsDistinct chain
    pub ends : Ends chain last

  pub data Outcome (first : Text) (r : Result (List Text)) : Type 0 where
    failed : (e cur : Text) → parent_of ox cur s ≡ err e → r ≡ err e → Outcome first r
    walked : (chain : List Text) → r ≡ ok chain → IsWalk first chain → Outcome first r

  snoc-IsLinked :
      (front : List Text) (cur p : Text)
      → IsLinked (front ++ cur ∷ [])
      → parent_of ox cur s ≡ ok (some p)
      → IsLinked ((front ++ cur ∷ []) ++ p ∷ [])
  snoc-IsLinked [] cur p h e = (e, tt)
  snoc-IsLinked (x ∷ []) cur p (h, _) e = (h, (e, tt))
  snoc-IsLinked (x ∷ y ∷ front) cur p (h, hs) e = (h, snoc-IsLinked (y ∷ front) cur p hs e)

  module _ (themes : List Text) (first : Text)
      (closed : (cur p : Text) → parent_of ox cur s ≡ ok (some p) → member p themes ≡ true) where
    chain_loop-Outcome :
        (fuel : ℕ) (front : List Text) (cur : Text) (rest : List Text)
        → front ++ cur ∷ [] ≡ first ∷ rest
        → IsLinked (front ++ cur ∷ [])
        → IsDistinct (front ++ cur ∷ [])
        → AllIn (front ++ cur ∷ []) themes
        → length themes < fuel + length (front ++ cur ∷ [])
        → Outcome first (chain_loop ox fuel (front ++ cur ∷ []) cur s)
    unfolding chain_loop
    chain_loop-Outcome zero front cur rest starts linked distinct known enough =
        absurd (omega (arith, length-IsDistinct (front ++ cur ∷ []) themes distinct known))
    chain_loop-Outcome (suc fuel) front cur rest starts linked distinct known enough =
        go (parent_of ox cur s) refl λ p h m.
          chain_loop-Outcome fuel (front ++ cur ∷ []) p (rest ++ p ∷ [])
            (ap (λ t. t ++ p ∷ []) starts) (snoc-IsLinked front cur p linked h)
            (snoc-IsDistinct (front ++ cur ∷ []) p distinct m)
            (snoc-AllIn (front ++ cur ∷ []) themes p known (closed cur p h))
            (omega (arith, length-append (front ++ cur ∷ []) (p ∷ [])))
      where
        walk : Ends (front ++ cur ∷ []) cur → IsWalk first (front ++ cur ∷ [])
        walk e = record {
          front = front;
          last = cur;
          shape = refl;
          rest = rest;
          starts = starts;
          linked = linked;
          distinct = distinct;
          ends = e;
        }

        go :
            (r : Result (Option Text))
            → parent_of ox cur s ≡ r
            → ((p : Text)
                → parent_of ox cur s ≡ ok (some p)
                → member p (front ++ cur ∷ []) ≡ false
                → Outcome first (chain_loop ox fuel ((front ++ cur ∷ []) ++ p ∷ []) p s))
            → Outcome first (chain_loop ox (suc fuel) (front ++ cur ∷ []) cur s)
        go (err e) h next = rw (h, chain_loop) (failed e cur h refl)
        go (ok none) h next = rw (h, chain_loop) (walked (front ++ cur ∷ []) refl (walk (root h)))
        go (ok (some p)) h next = elim (Bool-cases (member p (front ++ cur ∷ []))) [
          | inl m ↦ rw (h, chain_loop, m) (walked (front ++ cur ∷ []) refl (walk (cycle p h m)))
          | inr m ↦ rw (h, chain_loop, m) (next p h m)
        ]

    -- Fuel for one round per theme is enough. The walk then either reports the error of a query that
    -- failed, or gives a chain that begins with the first theme, in which each theme is the parent of
    -- the one before it and none comes twice, and which ends only where there is no parent or where the
    -- parent is in the chain already. So the walk ends on cyclic themes too.
    pub chain_loop_lem :
        (fuel : ℕ)
        → length themes ≤ fuel
        → member first themes ≡ true
        → Outcome first (chain_loop ox fuel (first ∷ []) first s)
    unfolding member
    chain_loop_lem fuel enough known =
        chain_loop-Outcome fuel [] first [] refl tt (refl, tt) (known, tt) (omega arith)
