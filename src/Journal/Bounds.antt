-- ===== src/Journal/Bounds.antt =====
-- worker/journal.rs: how long a block can be.
use haunted_house.Common.{
  ℕ, suc, ◌+◌, ◌-◌, ◌*◌, ◌≤◌, ◌<◌, ◌≡◌, ap, arith, List, [], ◌∷◌, ◌++◌, Option, some, length,
  length-append,
}
use native.Mathlib.Nat.{mul-le-mul_left}
use haunted_house.Encoding.{IsU64}
use haunted_house.Encoding.Varint.{varint, varint_shape}
use haunted_house.Encoding.Sequence.{Falling, gaps, fall}
use haunted_house.Journal.Blocks.{Cobs, address_offset, encode_block_data}
use haunted_house.Journal.Chain.{CobsLaws, plain, encode_block_data-plain, offset-IsU64}
use haunted_house.Journal.Addresses.{trigram_range}
use haunted_house.Journal.Written.{IdsOk}

-- The bytes of a block of at most `q` ids.
abbrev pub block_bound : ℕ → ℕ
block_bound q = 22 + 20 * q

length-gaps : (x : ℕ) (l : List ℕ) → IsU64 x → Falling x l → length (gaps fall x l) ≤ 10 * length l
unfolding gaps
length-gaps x [] h f = omega arith
length-gaps x (y ∷ l) h f =
    let small : IsU64 (x - y - 1) = omega arith in
    omega (
      arith,
      length-append (varint (x - y - 1)) (gaps fall y l),
      (varint_shape (x - y - 1) small).1,
      length-gaps y l (omega arith) f.1,
    )

length-plain :
    (old : Option ℕ) (address first : ℕ) (rest : List ℕ)
    → IsU64 first
    → Falling first rest
    → length (plain old address first rest) ≤ 20 + 10 * length rest
length-plain old address first rest h f = omega (
  arith,
  length-append (varint (address_offset old address)) (varint first ++ gaps fall first rest),
  length-append (varint first) (gaps fall first rest),
  (varint_shape (address_offset old address) (offset-IsU64 old address)).1,
  (varint_shape first h).1,
  length-gaps first rest h f,
)

-- One more block of the rows from `n` on.
pub room_step :
    (q n t block more : ℕ) (both : List ℕ)
    → n ≤ t
    → t < trigram_range
    → block ≤ block_bound q
    → more ≤ block_bound q * (trigram_range - (t + 1))
    → length both ≡ block + more
    → length both ≤ block_bound q * (trigram_range - n)
room_step q n t block more both le lt b m e =
    let steps : (trigram_range - (t + 1)) + 1 ≤ trigram_range - n = omega arith in
    let wide = mul-le-mul_left (block_bound q) steps in omega arith

pub room_next :
    (q k block more : ℕ) (both : List ℕ)
    → block ≤ block_bound q
    → more ≤ block_bound q * k
    → length both ≡ block + more
    → length both ≤ block_bound q * suc k
room_next q k block more both b m e = omega arith

module _ (cobs : Cobs) (laws : CobsLaws cobs) where
  pub encode_block_data-length :
      (old : Option ℕ) (address q : ℕ) (ids block : List ℕ)
      → IdsOk ids
      → length ids ≤ q
      → encode_block_data cobs old address ids ≡ some block
      → length block ≤ block_bound q
  encode_block_data-length old address q [] block h few e = absurd h
  encode_block_data-length old address q (first ∷ rest) block (h, f) few e =
      let bytes = plain old address first rest in
      let same : cobs.encode bytes ++ (0 ∷ []) ≡ block =
        cc (encode_block_data-plain cobs laws old address first rest h f) in
      omega (
        arith,
        ap length same,
        length-append (cobs.encode bytes) (0 ∷ []),
        laws.encode-length bytes,
        length-plain old address first rest h f,
      )
