-- ===== src/Ffi/Tests.antt =====
-- src/ffi.rs on a batch of two statements.
use antenna.Base.{false, inl, map, length, ◌-◌, ◌^◌, ℕ, ◌+◌, ◌≡◌, refl, arith, true, [], ◌∷◌}
use antenna.Base.Numbers.{pos}
use antenna.Base.Text.{
  Text, codes, trim, trim_start, trim_end, is_whitespace, lines, lines_loop, strip_cr,
}
use antenna.Base.Utf8.{as_bytes, encode_char}
use antenna.Channel.{new, push, write}
use antenna.Channel.Endpoint.{Descriptor, InternalChannel, send, send_loop, signal}
use antenna.Channel.Refine.{Holds, new-Holds, push_refines}
use antenna.Ffi.{push_lines, push_turtle_lines}
use antenna.Ffi.Batch.{Queued, statements_of, AllSmall, push_turtle_lines_lem}
use Prim.Native.Nat.{min}
use antenna.Channel.Queue.{enqueue}
use antenna.Ffi.{AntennaHandle, antenna_drain}
use antenna.Ffi.Drain.{antenna_drain_lem}

abbrev pipe : Descriptor ℕ
pipe = record { fresh = 0; write = λ n c. c + 1; read = λ n c. 0; readable = λ c. true }

abbrev none_taken : ℕ → ℕ
none_taken i = 0

abbrev channel : InternalChannel ℕ
channel = record { ring = new 16; clock = 0 }

abbrev batch : Text
batch = codes "a\n\n b\n"

batch_statements : statements_of (lines batch) ≡ codes "a" ∷ codes "b" ∷ []
unfolding lines lines_loop strip_cr trim trim_start trim_end is_whitespace
batch_statements = refl

batch-AllSmall : AllSmall (statements_of (lines batch))
unfolding lines lines_loop strip_cr trim trim_start trim_end is_whitespace as_bytes encode_char
batch-AllSmall = (omega arith, (omega arith, tt))

batch_accepted : (push_turtle_lines batch (send pipe none_taken) channel).0 ≡ pos 0
unfolding push_turtle_lines push_lines lines lines_loop strip_cr trim trim_start trim_end
    is_whitespace send send_loop push write new as_bytes encode_char signal
batch_accepted = refl

push_turtle_lines_lem_example :
    Queued pipe none_taken channel.ring.capacity
      (push_turtle_lines batch (send pipe none_taken) channel).1
      []
      (statements_of (lines batch))
push_turtle_lines_lem_example =
    push_turtle_lines_lem pipe none_taken batch channel []
      (new-Holds 16 (omega arith) (omega arith) refl) batch-AllSmall batch_accepted

abbrev handle : AntennaHandle ℕ
handle = record {
  in_channel = channel;
  out_channel = record { ring = (push (new 16) (0x68 ∷ [])).1; clock = 1 };
  poisoned = false;
}

h-Holds : Holds handle.out_channel.ring (map as_bytes (codes "h" ∷ []))
unfolding enqueue new as_bytes encode_char
h-Holds =
    (push_refines (new 16) [] (0x68 ∷ []) (new-Holds 16 (omega arith) (omega arith) refl)
      (omega arith)).1

antenna_drain_lem_example :
    ((antenna_drain pipe 2 true handle).0 ≡ min (length (codes "h" ∷ [])) (2 ^ 31 - 1))
    × ((antenna_drain pipe 2 true handle).1 ≡ codes "h" ∷ [])
    × Holds (antenna_drain pipe 2 true handle).2.out_channel.ring []
antenna_drain_lem_example =
    antenna_drain_lem pipe 2 (codes "h" ∷ []) handle h-Holds ((inl (omega arith), tt), tt)
      (omega arith)
