-- ===== src/Journal/Blocks.antt =====
-- worker/journal.rs: the blocks of file ids that the data file of a journal is made of.
-- A block is a run of bytes that ends in a zero byte. It holds the distance back to the block
-- before it of the same trigram, and ids from high to low.
use haunted_house.Common.{
  ℕ, zero, suc, List, [], ◌∷◌, ◌++◌, Option, none, some, drop, ltb, ◌==◌, if◌then◌else◌,
}
use haunted_house.Encoding.{
  sub_u64, encode_value_into, decreasing_new, decreasing_write, decode_value,
  decode_decreasing_into,
}

-- The crate cobs, as far as blocks use it: `encode`, and `decode_in_place` for a buffer that ends in
-- the zero byte.
pub record Cobs : Type 0 where
  pub encode : List ℕ → List ℕ
  pub decode_in_place : List ℕ → Option (List ℕ)

-- `None` is written as a distance of 0.
unfoldable pub address_offset : Option ℕ → ℕ → ℕ
address_offset none new_address = 0
address_offset (some address) new_address = sub_u64 new_address address

pub record Block : Type 0 where
  pub address : ℕ
  pub previous_offset : Option ℕ
  pub first_id : ℕ
  pub deltas : List ℕ

-- `reader.read_until(0, buffer)`
unfoldable pub read_until_zero : List ℕ → List ℕ
read_until_zero [] = []
read_until_zero (byte ∷ bytes) =
    let rest = read_until_zero bytes in if byte == 0 then byte ∷ [] else byte ∷ rest

unfoldable pub previous : Block → Option ℕ
previous b = elim b.previous_offset [ none ↦ none | some offset ↦ some (sub_u64 b.address offset) ]

-- Block::decode_into
unfoldable pub block_decode_into : Block → List ℕ → Option (List ℕ)
block_decode_into b output = decode_decreasing_into b.deltas b.first_id output

module _ (cobs : Cobs) where
  -- What is written to the data file; `none` is the panic of `file_ids[0]`.
  unfoldable pub encode_block_data : Option ℕ → ℕ → List ℕ → Option (List ℕ)
  encode_block_data old_address new_address [] = none
  encode_block_data old_address new_address (first ∷ rest) =
      let header =
        encode_value_into first (encode_value_into (address_offset old_address new_address) []) in
      let buffer = (decreasing_write (decreasing_new first header) rest).buffer in
      some (cobs.encode buffer ++ (0 ∷ []))

  -- `none` is an error of the decoder, or the panic of decode_value on no data.
  unfoldable pub load_block_data : ℕ → List ℕ → Option Block
  load_block_data address bytes = elim (cobs.decode_in_place bytes) [
    | none ↦ none
    | some plain ↦ elim (decode_value plain) [
      | none ↦ none
      | some (offset, behind) ↦ elim (decode_value behind) [
        | none ↦ none
        | some (first_id, deltas) ↦ some (record {
          address = address;
          previous_offset = if ltb 0 offset then some offset else none;
          first_id = first_id;
          deltas = deltas;
        })
      ]
    ]
  ]

  unfoldable pub load_block_into : ℕ → List ℕ → Option Block
  load_block_into address file = load_block_data address (read_until_zero (drop address file))

  -- The inner loop of read_all, which follows the blocks of one trigram. Fuel: a block lies before
  -- the one that points to it.
  unfoldable pub read_chain : ℕ → List ℕ → Option ℕ → List ℕ → Option (List ℕ)
  read_chain fuel file none file_ids = some file_ids
  read_chain zero file (some current) file_ids = none
  read_chain (suc fuel) file (some current) file_ids = elim (load_block_into current file) [
    | none ↦ none
    | some block ↦ elim (block_decode_into block file_ids) [
      | none ↦ none
      | some more ↦ read_chain fuel file (previous block) more
    ]
  ]
