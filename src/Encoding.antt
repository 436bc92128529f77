-- ===== src/Encoding.antt =====
-- worker/encoding.rs: sets of u64 packed seven bits to a byte, lowest group first.
-- A byte slice is a list of numbers below 256 and a u64 a number below 2 ^ 64. Arithmetic is that of
-- the release build that the Dockerfile makes: it wraps, and a shift amount is taken modulo 64.
pub mod Varint
pub mod Read
pub mod Prefix
pub mod Sequence
pub mod Stream
mod Tests
use haunted_house.Common.{
  ℕ, zero, suc, ◌+◌, ◌-◌, ◌*◌, ◌/◌, ◌%◌, ◌^◌, ◌<◌, arith, List, [], ◌∷◌, ◌++◌, Bool, true, false,
  Option, none, some, ltb, leb, ◌==◌, if◌then◌else◌, length,
}
use haunted_house.Common.Order.{lt_wf}
use Prim.Native.Nat.{bit_or}
use mathlib.Core.Option
use mathlib.Core.Logic.{dite}
use mathlib.Core.WellFounded.{Acc}
use native.Mathlib.Decide.{dec_lt}

abbrev pub IsByte : ℕ → Type 0
IsByte b = b < 256

abbrev pub IsU64 : ℕ → Type 0
IsU64 v = v < 2 ^ 64

-- `a - b` and `a + b` on u64.
abbrev pub sub_u64 : ℕ → ℕ → ℕ
sub_u64 a b = (a + 2 ^ 64 - b) % 2 ^ 64

abbrev pub add_u64 : ℕ → ℕ → ℕ
add_u64 a b = (a + b) % 2 ^ 64

-- The low seven bits of the value, with the top bit set if more follow.
pub fragment : ℕ → ℕ
fragment value = if ltb 0 (value / 128) then bit_or (value % 128) 0x80 else value % 128

encode_loop : (value : ℕ) → Acc ◌<◌ value → List ℕ → List ℕ
encode_loop value (Acc.intro _ smaller) buffer =
    dite (dec_lt 0 value)
      (λ h. encode_loop (value / 128) (smaller _ (omega arith)) (buffer ++ (fragment value ∷ [])))
      (λ _. buffer)

pub encode_value_into : ℕ → List ℕ → List ℕ
encode_value_into value buffer =
    if value == 0 then buffer ++ (0 ∷ []) else encode_loop value (lt_wf.apply value) buffer

-- `for pair in indices.windows(2)`
pub encode_windows : List ℕ → List ℕ → List ℕ
encode_windows [] buffer = buffer
encode_windows (x ∷ []) buffer = buffer
encode_windows (x ∷ y ∷ rest) buffer =
    encode_windows (y ∷ rest) (encode_value_into (sub_u64 y x) buffer)

pub encode_into_increasing : List ℕ → List ℕ → List ℕ
encode_into_increasing [] buffer = buffer
encode_into_increasing (i ∷ []) buffer = encode_value_into i buffer
encode_into_increasing (i ∷ j ∷ rest) buffer =
    encode_windows (i ∷ j ∷ rest) (encode_value_into i buffer)

pub record DecreasingEncoder : Type 0 where
  pub last_value : ℕ
  pub buffer : List ℕ

pub decreasing_new : ℕ → List ℕ → DecreasingEncoder
decreasing_new first buffer = record { last_value = first; buffer = buffer }

pub decreasing_push : DecreasingEncoder → ℕ → DecreasingEncoder
decreasing_push e value = record {
  last_value = value;
  buffer = encode_value_into (sub_u64 (sub_u64 e.last_value value) 1) e.buffer;
}

pub decreasing_write : DecreasingEncoder → List ℕ → DecreasingEncoder
decreasing_write e [] = e
decreasing_write e (value ∷ values) = decreasing_write (decreasing_push e value) values

-- `value |= ((byte & 0x7f) as u64) << offset`
pub add_group : ℕ → ℕ → ℕ → ℕ
add_group value byte offset = bit_or value (byte % 128 * 2 ^ (offset % 64) % 2 ^ 64)

-- How the loop over the bytes of one number ends: by a byte without the top bit (the value, the
-- bytes counted and what follows), or cut off by the end of the data or by a zero byte.
pub data Group : Type 0 where
  complete : ℕ → ℕ → List ℕ → Group
  cut : ℕ → List ℕ → Group

-- The loop `while data[0] & 0x80 > 0` that decode_value, try_decode_value and decode_into share.
-- The first argument is `data[0]` and the second the bytes behind it.
pub read_group : ℕ → List ℕ → ℕ → ℕ → ℕ → Group
read_group byte [] value offset taken =
    if leb 128 byte then cut value [] else complete value taken []
read_group byte (next ∷ rest) value offset taken =
    let more = read_group next rest (add_group value next offset) (offset + 7) (taken + 1) in
    if leb 128 byte
    then (if next == 0 then cut value (next ∷ rest) else more)
    else complete value taken (next ∷ rest)

-- `none` is the panic of `data[0]` on an empty slice.
pub decode_value : List ℕ → Option (ℕ × List ℕ)
decode_value [] = none
decode_value (byte ∷ rest) = elim (read_group byte rest (byte % 128) 7 1) [
  | complete value taken left ↦ some (value, left)
  | cut value left ↦ some (value, left)
]

pub try_decode_value : List ℕ → Option (ℕ × ℕ)
try_decode_value [] = none
try_decode_value (byte ∷ rest) = elim (read_group byte rest (byte % 128) 7 1) [
  | complete value taken left ↦ some (value, taken)
  | cut value left ↦ none
]

-- The loop of decode_decreasing_into; `none` means that the fuel ran out.
pub decreasing_loop : ℕ → List ℕ → ℕ → List ℕ → Option (List ℕ)
decreasing_loop fuel [] value values = some values
decreasing_loop zero (byte ∷ rest) value values = none
decreasing_loop (suc fuel) (byte ∷ rest) value values = elim (decode_value (byte ∷ rest)) [
  | none ↦ none
  | some (delta, left) ↦
      let value' = sub_u64 value (add_u64 delta 1) in
      decreasing_loop fuel left value' (values ++ (value' ∷ []))
]

-- Each round takes a byte at least, so as many rounds as there are bytes are enough.
pub decode_decreasing_into : List ℕ → ℕ → List ℕ → Option (List ℕ)
decode_decreasing_into bytes value values =
    decreasing_loop (length bytes) bytes value (values ++ (value ∷ []))

-- The outer loop of decode_into: the values pushed and the bytes used, a u32. `none`: out of fuel.
pub decode_loop : ℕ → List ℕ → ℕ → ℕ → List ℕ → Option (List ℕ × ℕ)
decode_loop fuel [] last used values = some (values, used)
decode_loop zero (byte ∷ rest) last used values = if byte == 0 then some (values, used) else none
decode_loop (suc fuel) (byte ∷ rest) last used values =
    let next : Option (List ℕ × ℕ) = elim (read_group byte rest (byte % 128) 7 0) [
      | complete value taken left ↦
          let value' = add_u64 value last in
          decode_loop fuel left value' ((used + (taken + 1)) % 2 ^ 32) (values ++ (value' ∷ []))
      | cut value left ↦ some (values, used)
    ] in
    if byte == 0 then some (values, used) else next

pub decode_into : List ℕ → List ℕ → Option (List ℕ × ℕ)
decode_into bytes values = decode_loop (length bytes) bytes 0 0 values

pub record StreamDecode : Type 0 where
  pub bytes : List ℕ
  pub next_value : Option ℕ

-- `while !data.is_empty() && continued`
pub raw_loop : List ℕ → ℕ → Bool → ℕ → List ℕ × ℕ
raw_loop [] value continued offset = ([], value)
raw_loop (byte ∷ rest) value continued offset =
    let more = raw_loop rest (add_group value byte offset) (leb 128 byte) (offset + 7) in
    if continued then more else (byte ∷ rest, value)

pub decode_raw_next : List ℕ → List ℕ × Option ℕ
decode_raw_next [] = ([], none)
decode_raw_next (byte ∷ rest) =
    let (left, value) = raw_loop rest (byte % 128) (leb 128 byte) 7 in (left, some value)

pub stream_new : List ℕ → StreamDecode
stream_new bytes =
    let (left, next) = decode_raw_next bytes in record { bytes = left; next_value = next }

pub peek : StreamDecode → Option ℕ
peek s = s.next_value

pub skip_one : StreamDecode → StreamDecode
skip_one s = elim s.next_value [
  | none ↦ s
  | some current ↦
      let (left, delta) = decode_raw_next s.bytes in
      record { bytes = left; next_value = Option.map (λ d. add_u64 current d) delta }
]

-- Iterator::next of StreamDecode.
pub stream_next : StreamDecode → StreamDecode × Option ℕ
stream_next s = elim s.next_value [
  | none ↦ (s, none)
  | some current ↦
      let (left, delta) = decode_raw_next s.bytes in
      let next : Option ℕ = elim delta [ some d ↦ some (add_u64 current d) | none ↦ none ] in
      (record { bytes = left; next_value = next }, some current)
]

pub record StreamEncode : Type 0 where
  pub buffer : List ℕ
  pub last_value : ℕ

pub stream_encode_new : StreamEncode
stream_encode_new = record { buffer = []; last_value = 0 }

pub stream_encode_add : StreamEncode → ℕ → StreamEncode
stream_encode_add e value = record {
  buffer = encode_value_into (sub_u64 value e.last_value) e.buffer;
  last_value = value;
}

pub finish : StreamEncode → List ℕ
finish e = e.buffer
