-- ===== src/Types/Text.antt =====
-- types.rs: hashes and ids of filters are read back from their text.
use haunted_house.Common.{
  ℕ, zero, suc, ◌-◌, ◌*◌, ◌/◌, ◌^◌, ◌<◌, ◌≡◌, refl, ap, arith, List, some, length, All,
}
use native.Mathlib.Nat.{pow-suc}
use haunted_house.Common.Int.{ℤ, pos, negsuc, as_usize}
use haunted_house.Query.Adds.{IsByte}
use haunted_house.Types.{
  Hex, sha256_hex, sha256_from_str, le_bytes, from_le, as_i64, FilterId, filter_id_text,
  filter_id_from_str,
}

-- What the crate documents: two characters for a byte, which decode to it.
pub record HexLaws (hex : Hex) : Type 0 where
  pub length-encode : (bytes : List ℕ) → length (hex.encode bytes) ≡ 2 * length bytes
  pub decode-encode :
      (bytes : List ℕ) → All IsByte bytes → hex.decode (hex.encode bytes) ≡ some bytes
  pub decode_to_slice-encode :
      (bytes : List ℕ)
      → All IsByte bytes
      → hex.decode_to_slice (hex.encode bytes) (length bytes) ≡ some bytes

length-le_bytes : (k n : ℕ) → length (le_bytes k n) ≡ k
unfolding le_bytes
length-le_bytes zero n = refl
length-le_bytes (suc k) n = ap suc (length-le_bytes k (n / 256))

le_bytes-All : (k n : ℕ) → All IsByte (le_bytes k n)
unfolding le_bytes
le_bytes-All zero n = tt
le_bytes-All (suc k) n = (omega arith, le_bytes-All k (n / 256))

from_le-le_bytes : (k n : ℕ) → n < 256 ^ k → from_le (le_bytes k n) ≡ n
unfolding le_bytes from_le
from_le-le_bytes zero n h = omega arith
from_le-le_bytes (suc k) n h =
    let small : n < 256 ^ k * 256 = rw pow-suc at h in
    omega (arith, from_le-le_bytes k (n / 256) (omega (arith, small)))

-- An i64.
abbrev pub IsI64 : ℤ → Type 0
IsI64 (pos n) = n < 2 ^ 63
IsI64 (negsuc n) = n < 2 ^ 63

as_usize_fits : (z : ℤ) → IsI64 z → as_usize z < 2 ^ 64
as_usize_fits (pos n) h = omega arith
as_usize_fits (negsuc n) h = omega arith

as_i64-as_usize : (z : ℤ) → IsI64 z → as_i64 (as_usize z) ≡ z
as_i64-as_usize (pos n) h = ground arith
as_i64-as_usize (negsuc n) h =
    let back : 2 ^ 64 - (2 ^ 64 - suc n) - 1 ≡ n = omega arith in ground (arith, back)

module _ (hex : Hex) (laws : HexLaws hex) where
  -- A hash of 32 bytes is read back from its hex text.
  pub sha256_from_str-sha256_hex :
      (sha : List ℕ)
      → length sha ≡ 32
      → All IsByte sha
      → sha256_from_str hex (sha256_hex hex sha) ≡ some sha
  unfolding sha256_from_str sha256_hex
  sha256_from_str-sha256_hex sha l ok =
      let size : length (hex.encode sha) ≡ 64 = omega (arith, laws.length-encode sha, l) in
      let back = laws.decode_to_slice-encode sha ok in rw size (rw l at back)

  -- The id of a filter, an i64, is read back from its text.
  pub filter_id_from_str-filter_id_text :
      (id : FilterId) → IsI64 id.value → filter_id_from_str hex (filter_id_text hex id) ≡ some id
  unfolding filter_id_from_str filter_id_text
  filter_id_from_str-filter_id_text id h =
      let bits = as_usize id.value in
      rw
        (
          laws.decode-encode (le_bytes 8 bits) (le_bytes-All 8 bits),
          filter_id_from_str,
          length-le_bytes 8 bits,
          from_le-le_bytes 8 bits (omega (arith, as_usize_fits id.value h)),
          as_i64-as_usize id.value h,
        )
        refl
