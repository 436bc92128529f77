-- ===== src/Journal/Stored.antt =====
-- worker/journal.rs: what a journal holds, and what writing a batch makes of it.
use haunted_house.Common.{
  ℕ, ◌*◌, zero, suc, ◌+◌, ◌<◌, ◌≡◌, refl, sym, ap, ◌∙◌, arith, List, [], ◌++◌, Option, none, some,
  Bool, true, length, length-append, if◌then◌else◌, ◌≤◌, ◌^◌,
}
use haunted_house.Encoding.{IsU64, add_u64}
use haunted_house.Journal.Blocks.{Cobs}
use haunted_house.Journal.Chain.{CobsLaws}
use haunted_house.Journal.Addresses.{
  trigram_range, reader_open, read_generation, builder_new, builder_install, init_empty, repeat_row,
  AddressReader, AddressBuilder, address_of_word,
}
use haunted_house.Journal.Collector.{collector_new}
use haunted_house.Journal.Merge.{Files, AllTrigrams}
use haunted_house.Journal.Choose.{holders}
use haunted_house.Journal.Batch.{
  Journal, header, journal_new, sort_rows, copy_rest, write_loop, write_batch,
}
use haunted_house.Journal.Copy.{reader_at, builder_at, copy_rest-rows}
use haunted_house.Journal.Table.{View, RowsOk}
use haunted_house.Journal.Bounds.{block_bound}
use haunted_house.Journal.Loop.{push_block, LoopOk, write_loop-LoopOk}
use haunted_house.Journal.Sorted.{
  encoded, Apart, IdsU64, sort_rows-All, sort_rows-Ordered, sort_rows-encoded,
  collector_new-Carries, holders-IdsOk, length-holders, length-sort_rows,
}

-- What the caller of a batch provides: u64 ids, no id twice, and the trigrams of each file in range
-- and from low to high.
abbrev pub FilesOk : Files → Type 0
FilesOk files = IdsU64 files × Apart files × AllTrigrams files

pub if_running : {A : Type 0} (b : Bool) (x y : A) → b ≡ true → (if b then x else y) ≡ x
if_running b x y h = rw h refl

module _ (cobs : Cobs) (laws : CobsLaws cobs) where
  -- The data file has a header, the tail a row for each trigram, and each row leads to the blocks of
  -- its trigram.
  abbrev pub JournalOk : Journal → View → Type 0
  JournalOk j view =
      (0 < length j.file)
      × (length j.tail.rows ≡ trigram_range)
      × RowsOk cobs laws j.file 0 j.tail.rows view

  pub length-repeat_row : (n : ℕ) → length (repeat_row n) ≡ n
  unfolding repeat_row
  length-repeat_row zero = refl
  length-repeat_row (suc n) = ap suc (length-repeat_row n)

  pub repeat_row-RowsOk :
      (file : List ℕ) (k n : ℕ) → RowsOk cobs laws file n (repeat_row k) (λ x. [])
  unfolding repeat_row address_of_word
  repeat_row-RowsOk file zero n = tt
  repeat_row-RowsOk file (suc k) n = ((refl, refl), repeat_row-RowsOk file k (n + 1))

  -- A new journal is well formed, and no trigram has blocks.
  pub journal_new-JournalOk : JournalOk journal_new (λ x. [])
  unfolding journal_new init_empty
  journal_new-JournalOk =
      (omega arith, length-repeat_row trigram_range, repeat_row-RowsOk header trigram_range 0)

  -- The blocks of each trigram once the batch is written.
  abbrev pub view_with : Files → View → View
  view_with files view x = push_block (holders x (sort_rows files)) (view x)

  abbrev pub Written : Journal → List (ℕ × ℕ) → List ℕ → Journal
  Written j rows file = record {
    running = true;
    file = file;
    tail = record { rows = rows; generation = add_u64 1 j.tail.generation };
  }

  -- The bytes that a batch may add fit below 2 ^ 64.
  abbrev pub Fits : Journal → Files → Type 0
  Fits j files = length j.file + block_bound (length files) * trigram_range < 2 ^ 64

  -- The main loop, and the rows behind it.
  finish_rows :
      (q : ℕ) (j : Journal) (files : Files) (view : View)
      (result : Option (List ℕ × AddressReader × AddressBuilder))
      → JournalOk j view
      → length j.file + block_bound q * trigram_range < 2 ^ 64
      → LoopOk cobs laws q 0 j.file [] j.tail.rows view
          (view_with files view)
          j.tail.generation
          (sort_rows files)
          result
      → (more : List ℕ) × (rows : List (ℕ × ℕ)) × (◌≡◌ {A = Option (Journal × Bool)}
          (elim result [
            | none ↦ none
            | some (file, r, b) ↦ elim (copy_rest (suc (length r.rows)) r b) [
              | none ↦ none
              | some (r', b') ↦ some (
                record {
                  running = true;
                  file = file;
                  tail = builder_install b' (add_u64 1 (read_generation r'));
                },
                true,
              )
            ]
          ])
          (some (Written j rows (j.file ++ more), true)))
        × JournalOk (Written j rows (j.file ++ more)) (view_with files view)
        × (length more ≤ block_bound q * trigram_range)
  unfolding builder_install read_generation
  finish_rows q j files view result (pos, full, held) fits
        (file, more, m, rest, copied, e, ef, em, el, room, good) =
      let short : IsU64 (length (j.file ++ more)) =
        omega (arith, room, length-append j.file more) in
      (
        more,
        copied ++ rest,
        rw
            (
              e,
              copy_rest-rows (suc (length rest)) m j.tail.generation rest copied (omega arith) em,
              ef,
            )
            refl,
        (
          omega (arith, length-append j.file more),
          omega (arith, length-append copied rest),
          rw ef at (good (rw (sym ef) at short) pos tt held),
        ),
        omega (arith, room),
      )

  -- Writing a batch to a well formed journal that runs succeeds, when the files of the batch have u64
  -- ids, none twice, and each has trigrams below 2 ^ 24 from low to high, and when the bytes that
  -- the batch may add, 22 and 20 more for each file for every one of the 2 ^ 24 trigrams, leave the
  -- data file below 2 ^ 64 bytes: bytes are added to the data file, no more than that, the generation
  -- is one higher modulo 2 ^ 64, and the journal is well formed again, with one more block for each
  -- trigram that the batch has, of the files that hold it.
  pub write_batch-JournalOk :
      (j : Journal) (files : Files) (view : View)
      → JournalOk j view
      → FilesOk files
      → Fits j files
      → j.running ≡ true
      → (more : List ℕ) × (rows : List (ℕ × ℕ)) × (write_batch cobs j (encoded files)
          ≡ some (Written j rows (j.file ++ more), true))
        × JournalOk (Written j rows (j.file ++ more)) (view_with files view)
        × (length more ≤ block_bound (length files) * trigram_range)
  unfolding write_batch reader_open builder_new
  write_batch-JournalOk j files view ok (u64s, apart, trigrams) fits running =
      let sorted = sort_rows files in
      let ordered = sort_rows-Ordered files apart in
      let in_range = sort_rows-All _ files trigrams in
      let (more, rows, e, good, room) =
        finish_rows (length files) j files view
          (write_loop cobs (suc (length j.tail.rows)) (collector_new (encoded sorted)) [] j.file
            (reader_at 0 j.tail.rows j.tail.generation) (builder_at 0 []))
          ok fits
          (write_loop-LoopOk cobs laws (suc (length j.tail.rows)) (length files) 0 j.tail.generation
            (collector_new (encoded sorted)) sorted [] j.file j.tail.rows [] view
            (view_with files view) (collector_new-Carries sorted in_range) (in_range, ordered)
            (λ x le h. (
              holders-IdsOk x sorted (sort_rows-All _ files u64s) ordered h,
              omega (arith, length-holders x sorted, length-sort_rows files),
            ))
            (unfold collector_new in refl) (omega (arith, ok.1)) (omega arith) refl
            (λ x le. refl)) in
      (more, rows, if_running j.running _ _ running ∙ rw (sort_rows-encoded files) e, good, room)
