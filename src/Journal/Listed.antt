-- ===== src/Journal/Listed.antt =====
-- worker/journal.rs: what reading a whole journal gives.
use haunted_house.Common.{
  ℕ, zero, suc, ◌+◌, ◌≤◌, ◌<◌, ◌≡◌, refl, ap, ◌∙◌, arith, List, [], ◌∷◌, ◌++◌, Option, none, some,
  true, length, flat,
}
use haunted_house.Journal.Blocks.{Cobs}
use haunted_house.Journal.Chain.{CobsLaws, Chain-within, IsBefore, read_chain-Chain}
use haunted_house.Journal.Addresses.{trigram_range, reader_open, address_of_word}
use haunted_house.Journal.Merge.{Files}
use haunted_house.Journal.Batch.{Journal, read_rows, read_all, write_batch}
use haunted_house.Journal.Copy.{reader_at, reader_next-row, reader_next-end}
use haunted_house.Journal.Table.{View, RowsOk}
use haunted_house.Journal.Sorted.{encoded}
use haunted_house.Journal.Stored.{
  JournalOk, FilesOk, Fits, view_with, Written, write_batch-JournalOk,
}

-- The ids of `k` trigrams from `n` on.
unfoldable pub listing : ℕ → ℕ → View → List (ℕ × List ℕ)
listing n zero view = []
listing n (suc k) view = (n, flat (view n)) ∷ listing (n + 1) k view

within_fuel :
    (address : Option ℕ) (fuel : ℕ) → IsBefore address fuel → (a : ℕ) → address ≡ some a → a ≤ fuel
within_fuel none fuel h a e = cc
within_fuel (some b) fuel h a e = let same : b ≡ a = cc in omega arith

module _ (cobs : Cobs) (laws : CobsLaws cobs) where
  read_rows-listing :
      (fuel n g : ℕ) (file : List ℕ) (rows : List (ℕ × ℕ)) (view : View)
      → RowsOk cobs laws file n rows view
      → length rows < fuel
      → n + length rows ≡ trigram_range
      → read_rows cobs fuel file (reader_at n rows g) ≡ some (listing n (length rows) view)
  unfolding read_rows listing
  read_rows-listing zero n g file rows view held f h = absurd (omega arith)
  read_rows-listing (suc fuel) n g file [] view held f h =
      rw (reader_next-end n g [] (omega arith), read_rows) refl
  read_rows-listing (suc fuel) n g file ((w, size) ∷ rows) view ((c, s), held) f h =
      rw
        (
          reader_next-row n w size g rows (omega arith),
          read_rows,
          read_chain-Chain cobs laws (view n) (length file) file [] (address_of_word w) c (
              within_fuel (address_of_word w) (length file)
                (Chain-within cobs laws (view n) file (address_of_word w) c)),
          read_rows-listing fuel (n + 1) g file rows view held (omega arith) (omega arith),
        )
        refl

  -- Reading a well formed journal gives, for each trigram in turn, the ids of its blocks, the latest
  -- block first.
  pub read_all-JournalOk :
      (j : Journal) (view : View)
      → JournalOk cobs laws j view
      → read_all cobs j ≡ some (listing 0 trigram_range view)
  unfolding read_all reader_open
  read_all-JournalOk j view (pos, full, held) =
      read_rows-listing (suc (length j.tail.rows)) 0 j.tail.generation j.file j.tail.rows view held
        (omega arith) (omega (arith, full))
      ∙ ap (λ k. some (listing 0 k view)) full

  -- Let the files of a batch have u64 ids, none twice, and each trigrams below 2 ^ 24 from low
  -- to high, and let the bytes that the batch may add, 22 and 20 more for each file for every
  -- trigram, leave the data file below 2 ^ 64 bytes. Writing the batch to a well formed journal that
  -- runs then succeeds, and reading the journal gives, for each trigram, the ids of the files of the
  -- batch that hold it, from high to low, and behind them the ids that were there before.
  pub read_all-write_batch :
      (j : Journal) (files : Files) (view : View)
      → JournalOk cobs laws j view
      → FilesOk files
      → Fits cobs laws j files
      → j.running ≡ true
      → (j' : Journal) × (write_batch cobs j (encoded files) ≡ some (j', true))
        × (read_all cobs j' ≡ some (listing 0 trigram_range (view_with cobs laws files view)))
  read_all-write_batch j files view ok files_ok fits running =
      let (more, rows, e, good, room) =
        write_batch-JournalOk cobs laws j files view ok files_ok fits running in
      let j' = Written cobs laws j rows (j.file ++ more) in
      (j', e, read_all-JournalOk j' (view_with cobs laws files view) good)
