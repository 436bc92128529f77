-- ===== src/Encoding/Read.antt =====
-- worker/encoding.rs: the loop over the bytes of one number, and the decoders of one number.
use haunted_house.Common.{
  ℕ, zero, suc, ◌+◌, ◌*◌, ◌/◌, ◌%◌, ◌^◌, ◌≤◌, ◌<◌, ◌≡◌, ap, ◌∙◌, arith, List, [], ◌∷◌, ◌++◌, some,
  length,
}
use haunted_house.Common.Bits.{bit_or_disjoint, exponent_lt}
use haunted_house.Encoding.{
  IsU64, encode_value_into, add_group, complete, read_group, decode_value, try_decode_value,
}
use haunted_house.Encoding.Varint.{lead, behind, encode_value_into-varint}
use native.Mathlib.Nat.{div-add-mod, mod-eq_of_lt}
use native.Mathlib.Decide.{dec_lt}
use native.Mathlib.Numerals.{towards_suc}

pow_seven : (s : ℕ) → 2 ^ (s + 7) ≡ 128 * 2 ^ s
pow_seven s = simp towards_suc (omega arith)

-- A number at the bit `s` is its lowest seven bits there and the rest seven bits higher.
pub split_low : (w s : ℕ) → w * 2 ^ s ≡ w % 128 * 2 ^ s + w / 128 * 2 ^ (s + 7)
split_low w s = omega (
  arith,
  ap (λ (t : ℕ). t * 2 ^ s) (div-add-mod w 128),
  ap (λ (t : ℕ). w / 128 * t) (pow_seven s),
)

pub low_below : (w s : ℕ) → w % 128 * 2 ^ s + 2 ^ s ≤ 2 ^ (s + 7)
low_below w s = rw (pow_seven s) (grind arith)

-- A number that is not 0 and fits at the bit `s` leaves the shift below 64.
shift_lt : (w s : ℕ) → 0 < w → w * 2 ^ s < 2 ^ 64 → s < 64
shift_lt w s pos h = exponent_lt s 64 (grind arith)

-- Where the shifted group fits a u64 and lies above the bits read so far, it is added.
pub add_group-add :
    (value byte s : ℕ)
    → value < 2 ^ s
    → s < 64
    → byte % 128 * 2 ^ s < 2 ^ 64
    → add_group value byte s ≡ value + byte % 128 * 2 ^ s
unfolding add_group
add_group-add value byte s h hs fits =
    rw (mod-eq_of_lt hs, mod-eq_of_lt fits) (bit_or_disjoint s value (byte % 128) h)

-- One round of read_group on a byte with the top bit set before a byte that is not zero.
read_group_more :
    (byte next : ℕ) (rest : List ℕ) (value offset taken : ℕ)
    → 128 ≤ byte
    → 0 < next
    → read_group byte (next ∷ rest) value offset taken
      ≡ read_group next rest (add_group value next offset) (offset + 7) (taken + 1)
unfolding read_group
read_group_more byte next rest value offset taken h n = ground arith

read_group_last :
    (byte : ℕ) (rest : List ℕ) (value offset taken : ℕ)
    → byte < 128
    → read_group byte rest value offset taken ≡ complete value taken rest
unfolding read_group
read_group_last byte [] value offset taken h = ground arith
read_group_last byte (next ∷ rest) value offset taken h = ground arith

pub lead_pos : (w : ℕ) → 0 < w → 0 < lead w
lead_pos w h = ground arith

pub lead_low : (w : ℕ) → lead w % 128 ≡ w % 128
lead_low w = ground arith

-- The value read so far with the next group joined: the number up to the bit s + 14.
pub add_group-lead :
    (w base s : ℕ)
    → 128 ≤ w
    → base < 2 ^ s
    → base + w * 2 ^ s < 2 ^ 64
    → add_group (base + w % 128 * 2 ^ s) (lead (w / 128)) (s + 7)
      ≡ base + w % 128 * 2 ^ s + w / 128 % 128 * 2 ^ (s + 7)
add_group-lead w base s large low fits =
    add_group-add (base + w % 128 * 2 ^ s) (lead (w / 128)) (s + 7) (omega (arith, low_below w s))
      (shift_lt (w / 128) (s + 7) (omega arith) (omega (arith, split_low w s)))
      (rw (lead_low (w / 128)) (omega (arith, split_low w s, split_low (w / 128) (s + 7))))
    ∙ rw (lead_low (w / 128))

-- Reading a varint, `base` being the value of the bytes already read and `s` the bits they fill.
pub read_group-varint :
    (k w base s taken : ℕ) (rest : List ℕ)
    → w < 128 ^ suc k
    → base < 2 ^ s
    → base + w * 2 ^ s < 2 ^ 64
    → read_group (lead w) (behind k w ++ rest) (base + w % 128 * 2 ^ s) (s + 7) taken
      ≡ complete (base + w * 2 ^ s) (taken + length (behind k w)) rest
unfolding behind
read_group-varint zero w base s taken rest h low fits =
    ground (arith, read_group_last w rest (base + w * 2 ^ s) (s + 7) taken)
read_group-varint (suc k) w base s taken rest h low fits = elim (dec_lt w 128) [
  | yes small ↦ ground (arith, read_group_last w rest (base + w * 2 ^ s) (s + 7) taken)
  | no large ↦ ground (
    arith,
    split_low w s,
    low_below w s,
    add_group-lead w base s,
    lead_pos (w / 128) (omega arith),
    read_group_more (w % 128 + 128) (lead (w / 128)) (behind k (w / 128) ++ rest)
        (base + w % 128 * 2 ^ s) (s + 7) taken,
    read_group-varint k (w / 128) (base + w % 128 * 2 ^ s) (s + 7) (taken + 1) rest,
  )
]

pub read_group-u64 :
    (v taken : ℕ) (rest : List ℕ)
    → IsU64 v
    → read_group (lead v) (behind 9 v ++ rest) (lead v % 128) 7 taken
      ≡ complete v (taken + length (behind 9 v)) rest
read_group-u64 v taken rest h = ground (arith, lead_low v, read_group-varint 9 v 0 0 taken rest)

-- decode_value returns the u64 that encode_value_into wrote, with the bytes that follow it.
pub decode_value-encode_value_into :
    (v : ℕ) (rest : List ℕ)
    → IsU64 v
    → decode_value (encode_value_into v [] ++ rest) ≡ some (v, rest)
unfolding decode_value
decode_value-encode_value_into v rest h =
    ground (arith, encode_value_into-varint v [] h, read_group-u64 v 1 rest h)

-- try_decode_value returns the u64 that encode_value_into wrote and how many bytes that took,
-- whatever follows.
pub try_decode_value-encode_value_into :
    (v : ℕ) (rest : List ℕ)
    → IsU64 v
    → try_decode_value (encode_value_into v [] ++ rest) ≡ some (v, length (encode_value_into v []))
unfolding try_decode_value
try_decode_value-encode_value_into v rest h =
    ground (arith, encode_value_into-varint v [] h, read_group-u64 v 1 rest h)
