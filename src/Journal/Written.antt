-- ===== src/Journal/Written.antt =====
-- worker/journal.rs: a batch adds the ids of its files in front of those that a journal holds.
use haunted_house.Common.{
  ℕ, zero, suc, ◌+◌, ◌≤◌, ◌<◌, ◌≡◌, refl, sym, ◌∙◌, arith, List, [], ◌∷◌, ◌++◌, append-nil, Option,
  some, length, drop-length-append,
}
use haunted_house.Encoding.{IsU64, add_u64}
use haunted_house.Encoding.Sequence.{Falling}
use haunted_house.Journal.Blocks.{Cobs, encode_block_data}
use haunted_house.Journal.Chain.{
  CobsLaws, Chain, Chain-append, Chain-within, plain, encode_block_data-plain,
}
use haunted_house.Journal.Addresses.{trigram_range, address_of_word, word_of_address}
use haunted_house.Journal.Batch.{write_trigram}
use haunted_house.Journal.Copy.{reader_at, builder_at, builder_write-at, copy_until-row}

-- u64 ids that fall strictly, and at least one.
abbrev pub IdsOk : List ℕ → Type 0
IdsOk [] = ⊥
IdsOk (first ∷ rest) = IsU64 first × Falling first rest

pub address_of-length : (n : ℕ) → 0 < n → address_of_word n ≡ some n
unfolding address_of_word
address_of-length zero h = absurd (omega arith)
address_of-length (suc n) h = refl

module _ (cobs : Cobs) (laws : CobsLaws cobs) where
  pub encode_block_data-some :
      (old : Option ℕ) (address : ℕ) (ids : List ℕ)
      → IdsOk ids
      → (block : List ℕ) × (encode_block_data cobs old address ids ≡ some block)
  unfolding encode_block_data
  encode_block_data-some old address [] h = absurd h
  encode_block_data-some old address (first ∷ rest) h = (_, refl)

  -- A block that is written at the end of the file leads on to the blocks before it.
  pub Chain-new :
      (file block : List ℕ) (old : Option ℕ) (ids : List ℕ) (chunks : List (List ℕ))
      → 0 < length file
      → IsU64 (length file)
      → IdsOk ids
      → encode_block_data cobs old (length file) ids ≡ some block
      → Chain cobs laws file old chunks
      → Chain cobs laws (file ++ block) (some (length file)) (ids ∷ chunks)
  Chain-new file block old [] chunks pos u h e c = absurd h
  Chain-new file block old (first ∷ rest) chunks pos u (hf, f) e c =
      let same : cobs.encode (plain old (length file) first rest) ++ (0 ∷ []) ≡ block =
        cc (encode_block_data-plain cobs laws old (length file) first rest hf f) in
      (
        length file,
        old,
        refl,
        (
          first,
          rest,
          [],
          refl,
          (u, pos, Chain-within cobs laws chunks file old c, hf, f),
          drop-length-append file block ∙ sym same ∙ sym (append-nil _),
        ),
        Chain-append cobs laws chunks file block old c,
      )

  -- What writing one trigram gives, whatever the chunks of its row are.
  pub write_trigram-some :
      (n t g : ℕ) (ids file : List ℕ) (rows copied : List (ℕ × ℕ))
      → n + length rows ≡ trigram_range
      → n ≤ t
      → t < trigram_range
      → IdsOk ids
      → (passed : List (ℕ × ℕ)) × (w : ℕ) × (size : ℕ) × (rest : List (ℕ × ℕ)) × (block : List ℕ)
        × (write_trigram cobs t ids file (reader_at n rows g) (builder_at n copied)
            ≡ some (
              file ++ block,
              reader_at (t + 1) rest g,
              builder_at
                  (t + 1)
                  ((copied ++ passed) ++ ((length file, add_u64 size (length ids)) ∷ [])),
            ))
        × (rows ≡ passed ++ ((w, size) ∷ rest))
        × (n + length passed ≡ t)
        × (encode_block_data cobs (address_of_word w) (length file) ids ≡ some block)
  unfolding write_trigram
  write_trigram-some n t g ids file rows copied h le lt ok =
      let (passed, w, size, rest, e, er, el) =
        copy_until-row (suc (length rows)) n t g rows copied (omega arith) h le lt in
      let (block, eb) = encode_block_data-some (address_of_word w) (length file) ids ok in
      (
        passed,
        w,
        size,
        rest,
        block,
        rw
            (
              e,
              write_trigram,
              eb,
              builder_write-at t (add_u64 size (length ids)) (some (length file))
                  (copied ++ passed),
            )
            (unfold word_of_address in refl),
        er,
        el,
        eb,
      )
