-- ===== src/Journal/Chain.antt =====
-- worker/journal.rs: blocks that are written are read back, and so is a chain of them.
use haunted_house.Common.{
  ℕ, zero, suc, ◌+◌, ◌-◌, ◌/◌, ◌%◌, ◌^◌, ◌≤◌, ◌<◌, ◌≡◌, ◌≢◌, refl, ap, ◌∙◌, arith, List, [], ◌∷◌,
  ◌++◌, append_assoc, append-nil, Option, none, some, drop, length, All, flat, length-drop,
  drop-append, length-append, ltb, if◌then◌else◌,
}
use haunted_house.Encoding.{IsU64}
use haunted_house.Encoding.Varint.{varint, encode_value_into-varint}
use haunted_house.Encoding.Sequence.{
  Falling, gaps, fall, decreasing_write-gaps, decode_value-varint, decode_decreasing_into-gaps,
}
use haunted_house.Journal.Blocks.{
  Cobs, address_offset, Block, read_until_zero, previous, block_decode_into, encode_block_data,
  load_block_data, load_block_into, read_chain,
}

-- What the crate documents: the encoding has no zero byte, decoding reverses it, and
-- max_encoding_length bounds it.
pub record CobsLaws (cobs : Cobs) : Type 0 where
  pub encode-no_zero : (bytes : List ℕ) → All (λ b. b ≢ 0) (cobs.encode bytes)
  pub decode-encode :
      (bytes : List ℕ) → cobs.decode_in_place (cobs.encode bytes ++ (0 ∷ [])) ≡ some bytes
  pub encode-length :
      (bytes : List ℕ) → length (cobs.encode bytes) ≤ length bytes + length bytes / 254 + 1

pub read_until_zero-append :
    (bytes rest : List ℕ)
    → All (λ b. b ≢ 0) bytes
    → read_until_zero ((bytes ++ (0 ∷ [])) ++ rest) ≡ bytes ++ (0 ∷ [])
unfolding read_until_zero
read_until_zero-append [] rest h = refl
read_until_zero-append (b ∷ bytes) rest h =
    ground (arith, read_until_zero-append bytes rest h.1, h.0)

-- The block before lies before this one.
abbrev pub IsBefore : Option ℕ → ℕ → Type 0
IsBefore none address = Unit {0}
IsBefore (some old) address = old < address

-- What a block is made of before it is encoded.
abbrev pub plain : Option ℕ → ℕ → ℕ → List ℕ → List ℕ
plain old address first rest =
    varint (address_offset old address) ++ (varint first ++ gaps fall first rest)

pub offset-IsU64 : (old : Option ℕ) (address : ℕ) → IsU64 (address_offset old address)
unfolding address_offset
offset-IsU64 none address = omega arith
offset-IsU64 (some old) address = omega arith

-- The distance is 0 exactly where there is no block before, and otherwise leads back to it.
previous-address_offset :
    (old : Option ℕ) (address first : ℕ) (deltas : List ℕ)
    → IsU64 address
    → IsBefore old address
    → (let offset = address_offset old address in
        previous (record {
          address = address;
          previous_offset = if ltb 0 offset then some offset else none;
          first_id = first;
          deltas = deltas;
        })
        ≡ old)
unfolding address_offset previous
previous-address_offset none address first deltas h before = refl
previous-address_offset (some old) address first deltas h before =
    let exact : (address + 2 ^ 64 - old) % 2 ^ 64 ≡ address - old = omega arith in
    let back : (address + 2 ^ 64 - (address - old)) % 2 ^ 64 ≡ old = omega arith in
    rw exact (ground (arith, back))

block_decode_into-gaps :
    (b : Block) (output rest : List ℕ)
    → b.deltas ≡ gaps fall b.first_id rest
    → IsU64 b.first_id
    → Falling b.first_id rest
    → block_decode_into b output ≡ some (output ++ (b.first_id ∷ rest))
unfolding block_decode_into
block_decode_into-gaps b output rest e h f =
    rw e (decode_decreasing_into-gaps b.first_id rest output h f)

before_fits :
    (old : Option ℕ) (current fuel : ℕ)
    → IsBefore old current
    → current ≤ suc fuel
    → (a : ℕ) → old ≡ some a
    → a ≤ fuel
before_fits none current fuel before h a e = cc
before_fits (some b) current fuel before h a e = let same : b ≡ a = cc in omega arith

module _ (cobs : Cobs) (laws : CobsLaws cobs) where
  pub encode_block_data-plain :
      (old : Option ℕ) (address first : ℕ) (rest : List ℕ)
      → IsU64 first
      → Falling first rest
      → encode_block_data cobs old address (first ∷ rest)
        ≡ some (cobs.encode (plain old address first rest) ++ (0 ∷ []))
  unfolding encode_block_data
  encode_block_data-plain old address first rest hf f =
      rw
        (
          encode_value_into-varint (address_offset old address) [] (offset-IsU64 old address),
          encode_value_into-varint first (varint (address_offset old address)) hf,
          decreasing_write-gaps rest first (varint (address_offset old address) ++ varint first) hf
              f,
        )
        (ground (
          arith,
          append_assoc (varint (address_offset old address)) (varint first) (gaps fall first rest),
        ))

  -- The block at an address of the file: what encode_block_data made of the ids, with the address of
  -- the block before, and what follows it.
  abbrev pub BlockAt : List ℕ → Option ℕ → ℕ → List ℕ → Type 0
  BlockAt file old address ids =
      (first : ℕ) × (rest : List ℕ) × (behind : List ℕ) × (ids ≡ first ∷ rest)
      × (IsU64 address × (0 < address) × IsBefore old address × IsU64 first × Falling first rest)
      × (drop address file ≡ (cobs.encode (plain old address first rest) ++ (0 ∷ [])) ++ behind)

  pub block_of : Option ℕ → ℕ → ℕ → List ℕ → Block
  block_of old address first rest =
      let offset = address_offset old address in
      record {
        address = address;
        previous_offset = if ltb 0 offset then some offset else none;
        first_id = first;
        deltas = gaps fall first rest;
      }

  pub load_block_into-plain :
      (file behind : List ℕ) (old : Option ℕ) (address first : ℕ) (rest : List ℕ)
      → IsU64 address
      → IsU64 first
      → drop address file ≡ (cobs.encode (plain old address first rest) ++ (0 ∷ [])) ++ behind
      → load_block_into cobs address file ≡ some (block_of old address first rest)
  unfolding load_block_into load_block_data block_of
  load_block_into-plain file behind old address first rest ha hf e =
      let p = plain old address first rest in
      rw
        (
          e,
          read_until_zero-append (cobs.encode p) behind (laws.encode-no_zero p),
          load_block_data,
          laws.decode-encode p,
          decode_value-varint (address_offset old address) (varint first ++ gaps fall first rest)
              (offset-IsU64 old address),
        )
        (rw (decode_value-varint first (gaps fall first rest) hf) refl)

  -- The blocks of one trigram, the latest first, each with the ids it holds.
  abbrev pub Chain : List ℕ → Option ℕ → List (List ℕ) → Type 0
  Chain file address [] = address ≡ none
  Chain file address (ids ∷ older) =
      (current : ℕ) × (old : Option ℕ) × (address ≡ some current)
      × BlockAt file old current ids
      × Chain file old older

  read_block :
      (file behind output : List ℕ) (old : Option ℕ) (address first : ℕ) (rest : List ℕ) (fuel : ℕ)
      → IsU64 address × (0 < address) × IsBefore old address × IsU64 first × Falling first rest
      → drop address file ≡ (cobs.encode (plain old address first rest) ++ (0 ∷ [])) ++ behind
      → read_chain cobs (suc fuel) file (some address) output
        ≡ read_chain cobs fuel file old (output ++ (first ∷ rest))
  unfolding read_chain block_of
  read_block file behind output old address first rest fuel (ha, pos, before, hf, f) e =
      rw
        (
          load_block_into-plain file behind old address first rest ha hf e,
          read_chain,
          block_decode_into-gaps (block_of old address first rest) output rest refl hf f,
          previous-address_offset old address first (gaps fall first rest) ha before,
        )
        refl

  -- Reading a chain of blocks gives the ids of all of them, the latest block first, behind what was
  -- there, when as many rounds are given as the address of the first block.
  pub read_chain-Chain :
      (chunks : List (List ℕ)) (fuel : ℕ) (file output : List ℕ) (address : Option ℕ)
      → Chain file address chunks
      → ((a : ℕ) → address ≡ some a → a ≤ fuel)
      → read_chain cobs fuel file address output ≡ some (output ++ flat chunks)
  read_chain-Chain [] fuel file output address c f =
      rw c (rw append-nil (unfold read_chain in refl))
  read_chain-Chain (ids ∷ older) zero file output address (current, old, e, b, c) f =
      absurd (omega (arith, f current e, b.4.1))
  read_chain-Chain (ids ∷ older) (suc fuel) file output address
        (current, old, e, (first, rest, behind, ei, facts, ed), c) f =
      rw (e, ei)
        (read_block file behind output old current first rest fuel facts ed
          ∙ read_chain-Chain older fuel file (output ++ (first ∷ rest)) old c
              (before_fits old current fuel facts.2 (f current e))
          ∙ rw append_assoc refl)

  BlockAt-within :
      (file : List ℕ) (old : Option ℕ) (address : ℕ) (ids : List ℕ)
      → BlockAt file old address ids
      → address < length file
  BlockAt-within file old address ids (first, rest, behind, ei, facts, ed) =
      let code = cobs.encode (plain old address first rest) in
      omega (
        arith,
        length-drop address file,
        ap length ed,
        length-append (code ++ (0 ∷ [])) behind,
        length-append code (0 ∷ []),
      )

  BlockAt-append :
      (file more : List ℕ) (old : Option ℕ) (address : ℕ) (ids : List ℕ)
      → BlockAt file old address ids
      → BlockAt (file ++ more) old address ids
  BlockAt-append file more old address ids b =
      let (first, rest, behind, ei, facts, ed) = b in
      let within : address ≤ length file = omega (arith, BlockAt-within file old address ids b) in
      (
        first,
        rest,
        behind ++ more,
        ei,
        facts,
        rw (drop-append address file more within, ed) (append_assoc _ behind more),
      )

  -- A chain starts before the end of the file.
  pub Chain-within :
      (chunks : List (List ℕ)) (file : List ℕ) (address : Option ℕ)
      → Chain file address chunks
      → IsBefore address (length file)
  Chain-within [] file address e = rw e tt
  Chain-within (ids ∷ older) file address (current, old, e, b, c) =
      rw e (BlockAt-within file old current ids b)

  -- What is written behind a chain does not disturb it.
  pub Chain-append :
      (chunks : List (List ℕ)) (file more : List ℕ) (address : Option ℕ)
      → Chain file address chunks
      → Chain (file ++ more) address chunks
  Chain-append [] file more address e = e
  Chain-append (ids ∷ older) file more address (current, old, e, b, c) = (
    current,
    old,
    e,
    BlockAt-append file more old current ids b,
    Chain-append older file more old c,
  )
