-- ===== src/Encoding/Varint.antt =====
-- What encode_value_into of worker/encoding.rs writes, in plain arithmetic.
use haunted_house.Common.{
  ℕ, zero, suc, ◌+◌, ◌/◌, ◌%◌, ◌^◌, ◌≤◌, ◌<◌, ◌≡◌, refl, arith, List, [], ◌∷◌, ◌++◌, append_assoc,
  ltb, if◌then◌else◌, length, All,
}
use haunted_house.Common.Bits.{bit_or-top}
use haunted_house.Encoding.{IsByte, IsU64, fragment, encode_loop, encode_value_into}
use haunted_house.Common.Order.{lt_wf}
use mathlib.Core.WellFounded.{Acc}
use native.Mathlib.Decide.{dec_lt}

-- The first byte of the encoding of `w`, and the bytes behind it for `w` below 128 ^ (k + 1).
abbrev pub lead : ℕ → ℕ
lead w = if ltb w 128 then w else w % 128 + 128

unfoldable pub behind : ℕ → ℕ → List ℕ
behind zero w = []
behind (suc k) w = let more = lead (w / 128) ∷ behind k (w / 128) in if ltb w 128 then [] else more

abbrev pub varint : ℕ → List ℕ
varint w = lead w ∷ behind 9 w

fragment-lead : (w : ℕ) → fragment w ≡ lead w
unfolding fragment
fragment-lead w = ground (arith, bit_or-top (w % 128) (omega arith))

encode_loop_zero :
    (v : ℕ) (a : Acc ◌<◌ v) (buffer : List ℕ) → v ≡ 0 → encode_loop v a buffer ≡ buffer
unfolding encode_loop
encode_loop_zero v (Acc.intro _ smaller) buffer h = ground arith

encode_loop-varint :
    (k v : ℕ) (a : Acc ◌<◌ v) (buffer : List ℕ)
    → 0 < v
    → v < 128 ^ suc k
    → encode_loop v a buffer ≡ buffer ++ (lead v ∷ behind k v)
unfolding encode_loop behind
encode_loop-varint zero v (Acc.intro _ smaller) buffer pos h = grind (
  arith,
  fragment-lead v,
  λ (w : Acc ◌<◌ (v / 128)).
      encode_loop_zero (v / 128) w (buffer ++ (fragment v ∷ [])) (omega arith),
)
encode_loop-varint (suc k) v (Acc.intro _ smaller) buffer pos h = elim (dec_lt v 128) [
  | yes small ↦ grind (
    arith,
    fragment-lead v,
    λ (w : Acc ◌<◌ (v / 128)).
        encode_loop_zero (v / 128) w (buffer ++ (fragment v ∷ [])) (omega arith),
  )
  | no large ↦ grind (
    arith,
    fragment-lead v,
    append_assoc buffer (lead v ∷ []) (lead (v / 128) ∷ behind k (v / 128)),
    λ (w : Acc ◌<◌ (v / 128)).
        encode_loop-varint k (v / 128) w (buffer ++ (lead v ∷ [])) (omega arith) (omega arith),
  )
]

-- On a u64 the encoder keeps the buffer and appends one varint.
pub encode_value_into-varint :
    (v : ℕ) (buffer : List ℕ) → IsU64 v → encode_value_into v buffer ≡ buffer ++ varint v
unfolding encode_value_into behind
encode_value_into-varint zero buffer h = refl
encode_value_into-varint (suc v) buffer h =
    ground (arith, encode_loop-varint 9 (suc v) (lt_wf.apply (suc v)) buffer)

pub length-behind : (k w : ℕ) → length (behind k w) ≤ k
unfolding behind
length-behind zero w = omega arith
length-behind (suc k) w = ground (arith, length-behind k (w / 128))

behind-IsByte : (k w : ℕ) → w < 128 ^ suc k → All IsByte (behind k w)
unfolding behind
behind-IsByte zero w h = tt
behind-IsByte (suc k) w h = ground (arith, behind-IsByte k (w / 128) (omega arith))

pub varint_shape : (v : ℕ) → IsU64 v → All IsByte (varint v) × (length (varint v) ≤ 10)
varint_shape v h = ground (arith, behind-IsByte 9 v, length-behind 9 v)

-- For a u64 value, encode_value_into leaves what the buffer holds in place and appends at most ten
-- elements, at least one, each of them a byte.
pub encode_value_into_shape :
    (v : ℕ) (buffer : List ℕ)
    → IsU64 v
    → (bytes : List ℕ) × (encode_value_into v buffer ≡ buffer ++ bytes)
      × All IsByte bytes
      × (1 ≤ length bytes)
      × (length bytes ≤ 10)
encode_value_into_shape v buffer h =
    let (bytes, short) = varint_shape v h in
    (varint v, encode_value_into-varint v buffer h, bytes, omega arith, short)
