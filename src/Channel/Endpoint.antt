-- ===== src/Channel/Endpoint.antt =====
-- `Clock`, `InternalChannel`, `ChannelWriter` and `ChannelReader` of src/channel.rs. The file
-- descriptors of the clock are the operating system's, and so parameters.
use mathlib.Core.Option
use antenna.Base.{ℕ, zero, suc, ◌+◌, Bool, true, false, Option, if◌then◌else◌}
use antenna.Base.Text.{Text}
use antenna.Base.Utf8.{as_bytes, from_utf8_lossy}
use antenna.Channel.{Bytes, RingBuffer, new, push, pop}

-- A pair of descriptors: `write n` writes n bytes without blocking and ignores the outcome, `read n`
-- reads at most n bytes so, `readable` is what `poll` reports.
pub record Descriptor (F : Type 0) : Type 0 where
  pub fresh : F
  pub write : ℕ → F → F
  pub read : ℕ → F → F
  pub readable : F → Bool

pub record InternalChannel (F : Type 0) : Type 0 where
  pub ring : RingBuffer
  pub clock : F

-- What the reader's side does while the writer sleeps: it takes that many messages.
unfoldable pub pops : ℕ → RingBuffer → RingBuffer
pops zero r = r
pops (suc n) r = pops n (pop r).1

module _ {F : Type 0} (fd : Descriptor F) where
  -- `Clock::signal` writes one byte, `Clock::consume` reads at most eight.
  unfoldable pub signal : F → F
  signal f = fd.write 1 f

  unfoldable pub consume : F → F
  consume f = fd.read 8 f

  unfoldable pub new_channel : ℕ → InternalChannel F
  new_channel capacity = record { ring = new capacity; clock = fd.fresh }

  -- The attempts of `ChannelWriter::send` that are left, from attempt `i` on; `idle i` messages are
  -- taken during the sleep behind attempt `i`.
  unfoldable pub send_loop : ℕ → ℕ → (ℕ → ℕ) → Bytes → InternalChannel F → Bool × InternalChannel F
  send_loop zero i idle d ch = (false, ch)
  send_loop (suc attempts) i idle d ch =
      let (sent, r) = push ch.ring d in
      let rest = send_loop attempts (i + 1) idle d (record ch { ring = pops (idle i) r }) in
      if sent then (true, record ch { ring = r; clock = signal ch.clock }) else rest

  -- `ChannelWriter::send`
  unfoldable pub send : (ℕ → ℕ) → Text → InternalChannel F → Bool × InternalChannel F
  unfolding send_loop
  send idle s ch = send_loop 20 0 idle (as_bytes s) ch

-- `ChannelReader::recv`
unfoldable pub recv : {F : Type 0} → InternalChannel F → Option Text × InternalChannel F
recv ch = let (d, r) = pop ch.ring in (Option.map from_utf8_lossy d, record ch { ring = r })
