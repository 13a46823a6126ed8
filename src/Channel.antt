-- ===== src/Channel.antt =====
-- src/channel.rs: the single-producer single-consumer ring buffer of length-prefixed messages.
-- Arithmetic on `head` and `tail` is that of `u32` in a release build: it wraps.
pub mod Memory
pub mod Queue
pub mod Refine
pub mod Endpoint
pub mod Sending
pub mod Interleave
mod Tests
use antenna.Base.{
  ℕ, zero, suc, ◌+◌, ◌-◌, ◌*◌, ◌/◌, ◌%◌, ◌^◌, Bool, true, false, List, [], ◌∷◌, Option, none, some,
  ltb, ◌==◌, if◌then◌else◌, length, get_or, set, replicate,
}

abbrev pub Bytes : Type 0
Bytes = List ℕ

abbrev pub u32_mod : ℕ
u32_mod = 2 ^ 32

pub record RingBuffer : Type 0 where
  pub head : ℕ
  pub tail : ℕ
  pub buf : Bytes
  pub capacity : ℕ

-- `RingBuffer::new`
unfoldable pub new : ℕ → RingBuffer
new capacity = record {
  head = 0;
  tail = 0;
  buf = replicate capacity 0;
  capacity = capacity % u32_mod;
}

-- `u32::to_le_bytes` and `u32::from_le_bytes`
abbrev pub to_le_bytes : ℕ → Bytes
to_le_bytes n = n % 256 ∷ n / 256 % 256 ∷ n / 65536 % 256 ∷ n / 16777216 % 256 ∷ []

abbrev pub from_le_bytes : Bytes → ℕ
from_le_bytes b = get_or b 0 0 + get_or b 1 0 * 256 + get_or b 2 0 * 65536 + get_or b 3 0 * 16777216

-- The index of the byte at position `p`: `p` is a wrapping `u32`.
abbrev pub index : ℕ → ℕ → ℕ
index capacity p = p % u32_mod % capacity

-- `for (i, &b) in bytes.iter().enumerate() { buf[(p + i) % capacity] = b }`
unfoldable pub write : ℕ → Bytes → ℕ → Bytes → Bytes
write capacity buf p [] = buf
write capacity buf p (b ∷ bs) = write capacity (set buf (index capacity p) b) (p + 1) bs

-- `for (i, b) in bytes.iter_mut().enumerate() { *b = buf[(p + i) % capacity] }`
pub read : ℕ → Bytes → ℕ → ℕ → Bytes
read capacity buf p zero = []
read capacity buf p (suc n) = get_or buf (index capacity p) 0 ∷ read capacity buf (p + 1) n

unfoldable pub push : RingBuffer → Bytes → Bool × RingBuffer
push r d =
    let len = length d % u32_mod in
    let total = (4 + len) % u32_mod in
    let used = (r.head + u32_mod - r.tail) % u32_mod in
    let free = (r.capacity + u32_mod - used) % u32_mod in
    let buf1 = write r.capacity r.buf r.head (to_le_bytes len) in
    let buf2 = write r.capacity buf1 (r.head + 4) d in
    if ltb free total
    then (false, r)
    else (true, record r { head = (r.head + total) % u32_mod; buf = buf2 })

pub pop : RingBuffer → Option Bytes × RingBuffer
pop r =
    let len = from_le_bytes (read r.capacity r.buf r.tail 4) in
    let body = read r.capacity r.buf (r.tail + 4) len in
    if r.tail == r.head
    then (none, r)
    else (some body, record r { tail = (r.tail + (4 + len)) % u32_mod })
