-- ===== src/Ffi/Drain.antt =====
-- `antenna_drain` of src/ffi.rs.
use Prim.Native.Nat.{min}
use antenna.Base.{
  ℕ, zero, suc, ◌-◌, ◌^◌, ◌<◌, ◌≡◌, refl, sym, subst, ap, arith, true, List, [], ◌∷◌, none, length,
  map,
}
use antenna.Base.Text.{Text}
use antenna.Base.Utf8.{as_bytes, AllScalar}
use antenna.Channel.Endpoint.{Descriptor, InternalChannel, recv, consume}
use antenna.Channel.Refine.{Holds, pop_nil}
use antenna.Channel.Sending.{recv_lem}
use antenna.Ffi.{AntennaHandle, drain_loop, antenna_drain}

abbrev pub AllTexts : List Text → Type 0
AllTexts [] = Unit
AllTexts (s ∷ ss) = AllScalar s × AllTexts ss

module _ {F : Type 0} (fd : Descriptor F) where
  recv_nil : (ch : InternalChannel F) → Holds ch.ring [] → recv ch ≡ (none, ch)
  unfolding recv
  recv_nil ch v = rw (pop_nil ch.ring v) refl

  drain_loop_lem :
      (fuel : ℕ) (ss : List Text) (ch : InternalChannel F)
      → Holds ch.ring (map as_bytes ss)
      → AllTexts ss
      → length ss < fuel
      → ((drain_loop fuel ch).0 ≡ ss) × Holds (drain_loop fuel ch).1.ring []
  unfolding drain_loop
  drain_loop_lem zero ss ch v t h = absurd (omega arith)
  drain_loop_lem (suc fuel) [] ch v t h =
      rw (ap (λ p. p.0) (recv_nil ch v), drain_loop)
        (refl, subst (λ p. Holds p.1.ring []) (sym (recv_nil ch v)) v)
  drain_loop_lem (suc fuel) (s ∷ ss) ch v (t, ts) h =
      let (first, w) = recv_lem ch s (map as_bytes ss) v t in
      let (rest, u) = drain_loop_lem fuel ss (recv ch).1 w ts (omega arith) in
      rw (first, drain_loop) (ap (λ r. s ∷ r) rest, u)

  -- A drain with a callback passes on every text that waits, once and in order, leaves the ring empty,
  -- and returns how many there were, or the greatest `c_int` if there were more. Fuel for one round more
  -- than there are texts is enough.
  pub antenna_drain_lem :
      (fuel : ℕ) (ss : List Text) (h : AntennaHandle F)
      → Holds h.out_channel.ring (map as_bytes ss)
      → AllTexts ss
      → length ss < fuel
      → ((antenna_drain fd fuel true h).0 ≡ min (length ss) (2 ^ 31 - 1))
        × ((antenna_drain fd fuel true h).1 ≡ ss)
        × Holds (antenna_drain fd fuel true h).2.out_channel.ring []
  unfolding antenna_drain
  antenna_drain_lem fuel ss h v t enough =
      let (same, empty) =
        drain_loop_lem fuel ss (record h.out_channel { clock = consume fd h.out_channel.clock }) v t
          enough in
      (ap (λ r. min (length r) (2 ^ 31 - 1)) same, same, empty)
