-- ===== src/Ffi.antt =====
-- src/ffi.rs: what the C interface does to the two rings of a handle.
pub mod Batch
pub mod Drain
mod Tests
use Prim.Native.Nat.{min}
use antenna.Base.{
  ℕ, ◌+◌, Bool, true, false, List, [], ◌∷◌, ◌++◌, Option, none, some, ◌==◌, if◌then◌else◌, zero,
  suc, ◌-◌, ◌^◌, length,
}
use antenna.Base.Numbers.{ℤ, pos, negsuc}
use antenna.Base.Text.{Text, codes, is_empty, trim, lines}
use antenna.Base.Utf8.{from_utf8}
use antenna.Channel.{Bytes}
use antenna.Channel.Endpoint.{Descriptor, InternalChannel, send, recv, consume}

-- `AntennaHandle`: the ring IN, the ring OUT, and the flag that the worker panicked.
pub record AntennaHandle (F : Type 0) : Type 0 where
  pub in_channel : InternalChannel F
  pub out_channel : InternalChannel F
  pub poisoned : Bool

-- The loop of `push_turtle_lines`, `push` changing a state
unfoldable pub push_lines : {W : Type 0} → (Text → W → Bool × W) → List Text → W → ℤ × W
push_lines push [] w = (pos 0, w)
push_lines push (line ∷ ls) w =
    let (pushed, w') = push (trim line) w in
    let skip = push_lines push ls w in
    let on = push_lines push ls w' in
    if is_empty (trim line) then skip else if pushed then on else (negsuc 2, w')

unfoldable pub push_turtle_lines : {W : Type 0} → Text → (Text → W → Bool × W) → W → ℤ × W
unfolding push_lines
push_turtle_lines input push w = push_lines push (lines input) w

module _ {F : Type 0} (fd : Descriptor F) (idle : ℕ → ℕ) where
  -- `antenna_send` on a live handle; `none` is a null pointer, whose length is zero.
  unfoldable pub antenna_send : Option Bytes → AntennaHandle F → ℤ × AntennaHandle F
  unfolding push_turtle_lines
  antenna_send turtle h =
      let slice : Bytes = elim turtle [ none ↦ [] | some b ↦ b ] in
      if h.poisoned then (negsuc 3, h) else elim (from_utf8 slice) [
        | none ↦ (negsuc 1, h)
        | some s ↦
            let (rc, ch) = push_turtle_lines s (send fd idle) h.in_channel in
            (rc, record h { in_channel = ch })
      ]

-- The loop of `antenna_drain`: the texts passed to the callback, oldest first. It runs to the end if
-- the fuel is more than the messages that wait.
unfoldable pub drain_loop : {F : Type 0} → ℕ → InternalChannel F → List Text × InternalChannel F
drain_loop zero ch = ([], ch)
drain_loop (suc fuel) ch =
    let (first, ch') = recv ch in
    let rest = drain_loop fuel ch' in
    elim first [ none ↦ ([], ch') | some s ↦ (s ∷ rest.0, rest.1) ]

module _ {F : Type 0} (fd : Descriptor F) where
  -- `antenna_drain` on a live handle: the count, the texts passed on, and the handle. The flag says that
  -- there is a callback; the count stops at the greatest `c_int`.
  unfoldable pub antenna_drain : ℕ → Bool → AntennaHandle F → ℕ × List Text × AntennaHandle F
  unfolding drain_loop
  antenna_drain fuel has_cb h =
      let ch : InternalChannel F = record h.out_channel {
        clock = consume fd h.out_channel.clock;
      } in
      let drained = drain_loop fuel ch in
      if has_cb
      then (min (length drained.0) (2 ^ 31 - 1), drained.0, record h { out_channel = drained.1 })
      else (0, [], record h { out_channel = ch })

-- `escape_turtle_string`
unfoldable pub escape_turtle_string : Text → Text
escape_turtle_string [] = []
escape_turtle_string (c ∷ s) =
    let rest = escape_turtle_string s in
    if c == b'\\'
    then codes "\\\\" ++ rest
    else if c == b'"'
    then codes "\\\"" ++ rest
    else if c == b'\n'
    then codes "\\n" ++ rest
    else if c == b'\r'
    then codes "\\r" ++ rest
    else c ∷ rest
