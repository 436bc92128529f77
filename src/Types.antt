-- ===== src/Types.antt =====
-- types.rs: hashes, the ids of filters, and the groups of files by their day of expiry. A string is
-- the list of its bytes; a hash is the list of its 32 bytes.
pub mod Text
pub mod Expiry
mod Tests
use haunted_house.Common.{
  ℕ, zero, suc, ◌+◌, ◌-◌, ◌*◌, ◌/◌, ◌%◌, ◌^◌, List, [], ◌∷◌, Option, none, some, Bool, length, ◌==◌,
  ltb, not, if◌then◌else◌,
}
use haunted_house.Common.Int.{ℤ, pos, negsuc, as_usize}
use Prim.Native.Nat.{bit_or}

-- The crate hex, as far as it is used; decode_to_slice is given the length of the slice.
pub record Hex : Type 0 where
  pub encode : List ℕ → List ℕ
  pub decode : List ℕ → Option (List ℕ)
  pub decode_to_slice : List ℕ → ℕ → Option (List ℕ)

module _ (hex : Hex) where
  unfoldable pub sha256_hex : List ℕ → List ℕ
  sha256_hex sha = hex.encode sha

  -- <Sha256 as FromStr>::from_str
  unfoldable pub sha256_from_str : List ℕ → Option (List ℕ)
  sha256_from_str s = if length s == 64 then hex.decode_to_slice s 32 else none

-- <Sha256 as TryFrom<&[u8]>>::try_from
unfoldable pub sha256_try_from : List ℕ → Option (List ℕ)
sha256_try_from value = if length value == 32 then some value else none

-- The low bytes of a number, from the lowest on, and back.
unfoldable pub le_bytes : ℕ → ℕ → List ℕ
le_bytes zero n = []
le_bytes (suc k) n = n % 256 ∷ le_bytes k (n / 256)

unfoldable pub from_le : List ℕ → ℕ
from_le [] = 0
from_le (byte ∷ bytes) = byte + 256 * from_le bytes

-- The i64 of 64 bits.
abbrev pub as_i64 : ℕ → ℤ
as_i64 n = if ltb n (2 ^ 63) then pos n else negsuc (2 ^ 64 - n - 1)

-- FilterID, an i64.
pub record FilterId : Type 0 where
  pub value : ℤ

-- <FilterID as Display>::fmt
unfoldable pub filter_id_text : Hex → FilterId → List ℕ
filter_id_text hex id = hex.encode (le_bytes 8 (as_usize id.value))

-- <FilterID as FromStr>::from_str
unfoldable pub filter_id_from_str : Hex → List ℕ → Option FilterId
filter_id_from_str hex s = elim (hex.decode s) [
  | none ↦ none
  | some bytes ↦
      if length bytes == 8 then some (record { value = as_i64 (from_le bytes) }) else none
]

unfoldable pub filter_id_next : FilterId → FilterId
filter_id_next id = record { value = as_i64 ((as_usize id.value + 1) % 2 ^ 64) }

unfoldable pub filter_id_null : FilterId
filter_id_null = record { value = pos 0 }

-- The crate chrono, as far as groups use it: the year and the day of the year of an instant, and the
-- instant at which such a day begins.
pub record Chrono : Type 1 where
  pub DateTime : Type 0
  pub year : DateTime → ℤ
  pub ordinal : DateTime → ℕ
  pub from_yo_opt : ℕ → ℕ → Option DateTime

-- `year as u32`
abbrev pub as_u32 : ℤ → ℕ
as_u32 z = as_usize z % 2 ^ 32

-- ExpiryGroup, the u32 that it packs.
pub record ExpiryGroup : Type 0 where
  pub packed : ℕ

unfoldable pub expiry_create : (chrono : Chrono) → Option chrono.DateTime → ExpiryGroup
expiry_create chrono none = record { packed = 2 ^ 32 - 1 - 1 }
expiry_create chrono (some date) = record {
  packed = bit_or (as_u32 (chrono.year date) * 2 ^ 16 % 2 ^ 32) (chrono.ordinal date);
}

-- ExpiryGroup::as_timestamp; `year as i32` is that year, which is below 2 ^ 16.
unfoldable pub as_timestamp : (chrono : Chrono) → ExpiryGroup → Option chrono.DateTime
as_timestamp chrono g =
    if g.packed / 2 ^ 16 == 0xFFFF
    then none
    else chrono.from_yo_opt (g.packed / 2 ^ 16) (g.packed % 2 ^ 16)

unfoldable pub before_archive : ExpiryGroup
before_archive = record { packed = 2 ^ 32 - 1 - 2 }

unfoldable pub expiry_min : ExpiryGroup
expiry_min = record { packed = 0 }

unfoldable pub expiry_max : ExpiryGroup
expiry_max = record { packed = 2 ^ 32 - 1 }
