-- ===== src/Encoding/Prefix.antt =====
-- worker/encoding.rs: a number that is not all there yet.
use haunted_house.Common.{ℕ, zero, suc, ◌+◌, ◌/◌, ◌%◌, ◌≡◌, arith, List, [], ◌∷◌, ◌++◌, none}
use haunted_house.Encoding.{
  IsU64, encode_value_into, Group, complete, cut, add_group, read_group, try_decode_value,
}
use haunted_house.Encoding.Varint.{lead, behind, encode_value_into-varint}

abbrev IsCut : Group → Type 0
IsCut (complete value taken left) = ⊥
IsCut (cut value left) = Unit {0}

read_group_prefix :
    (k w value offset taken x : ℕ) (front back : List ℕ)
    → behind k w ≡ front ++ (x ∷ back)
    → IsCut (read_group (lead w) front value offset taken)
unfolding read_group behind
read_group_prefix zero w value offset taken x [] back e = cc
read_group_prefix zero w value offset taken x (c ∷ front) back e = cc
read_group_prefix (suc k) w value offset taken x [] back e = ground arith
read_group_prefix (suc k) w value offset taken x (c ∷ front) back e = ground (
  arith,
  read_group_prefix k (w / 128) (add_group value c offset) (offset + 7) (taken + 1) x front back,
)

-- try_decode_value reports nothing on every proper prefix of what encode_value_into writes for a
-- u64, so a reader that gets a number in pieces waits for its last byte.
pub try_decode_value_prefix :
    (v x : ℕ) (front back : List ℕ)
    → IsU64 v
    → encode_value_into v [] ≡ front ++ (x ∷ back)
    → try_decode_value front ≡ none
unfolding try_decode_value
try_decode_value_prefix v x [] back h e = ground arith
try_decode_value_prefix v x (c ∷ front) back h e =
    ground
      (arith, encode_value_into-varint v [] h, read_group_prefix 9 v (v % 128) 7 1 x front back)
