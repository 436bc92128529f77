-- ===== src/Journal/Defrag.antt =====
-- worker/journal.rs: rewriting a journal with one block for each trigram.
use haunted_house.Common.{
  ℕ, ◌+◌, ◌*◌, ◌^◌, ◌<◌, ◌≡◌, refl, sym, ap, ◌∙◌, arith, List, [], ◌∷◌, ◌++◌, append-nil, some,
  true, flat, length-append, zero, suc,
}
use haunted_house.Journal.Blocks.{Cobs}
use haunted_house.Journal.Chain.{CobsLaws}
use haunted_house.Journal.Addresses.{trigram_range, builder_new, builder_install}
use haunted_house.Journal.Batch.{Journal, header, read_all, defrag}
use haunted_house.Journal.Bounds.{block_bound}
use haunted_house.Journal.Loop.{push_block}
use haunted_house.Journal.Table.{View}
use haunted_house.Journal.Stored.{JournalOk, if_running}
use haunted_house.Journal.Listed.{listing, read_all-JournalOk}
use haunted_house.Journal.Rewrite.{Falls, one_block, defrag_loop-listing}

-- Blocks of at most `q` ids, one for each trigram, and the header stay below 2 ^ 64 bytes.
abbrev pub FitsAnew : ℕ → Type 0
FitsAnew q = 4 + block_bound q * trigram_range < 2 ^ 64

pub flat-push_block : (ids : List ℕ) → flat (push_block ids []) ≡ ids
flat-push_block [] = refl
flat-push_block (id ∷ ids) = append-nil (id ∷ ids)

one_block-listing : (n k : ℕ) (view : View) → listing n k (one_block view) ≡ listing n k view
unfolding listing
one_block-listing n zero view = refl
one_block-listing n (suc k) view =
    rw (flat-push_block (flat (view n)), one_block-listing (n + 1) k view) refl

module _ (cobs : Cobs) (laws : CobsLaws cobs) where
  abbrev pub Rewrote : List ℕ → List (ℕ × ℕ) → Journal
  Rewrote file rows = record {
    running = true;
    file = file;
    tail = record { rows = rows; generation = 0 };
  }

  -- Rewriting a well formed journal that runs succeeds, when the ids of each trigram, over all its
  -- blocks, are u64 and fall, and are few enough for the new data file to stay below 2 ^ 64 bytes:
  -- the generation is 0, and the journal is well formed, and each trigram that had ids has them in
  -- one block.
  pub defrag-JournalOk :
      (q : ℕ) (j : Journal) (view : View)
      → JournalOk cobs laws j view
      → Falls q view
      → FitsAnew q
      → j.running ≡ true
      → (more : List ℕ) × (rows : List (ℕ × ℕ)) × (defrag cobs j
          ≡ some (Rewrote (header ++ more) rows, true))
        × JournalOk cobs laws (Rewrote (header ++ more) rows) (one_block view)
  unfolding defrag builder_new builder_install
  defrag-JournalOk q j view ok falls fits running =
      let (more, rows, e, l, room, held) =
        defrag_loop-listing cobs laws trigram_range q 0 view header [] (omega arith) falls in
      (
        more,
        rows,
        if_running j.running _ _ running ∙ rw (read_all-JournalOk cobs laws j view ok, e) refl,
        (
          omega (arith, length-append header more),
          l,
          held (omega (arith, room, length-append header more)),
        ),
      )

  -- Rewriting a well formed journal that runs succeeds and does not change what reading it gives,
  -- when the ids of each trigram are u64 and fall, and are few enough for the new data file to stay
  -- below 2 ^ 64 bytes.
  pub read_all-defrag :
      (q : ℕ) (j : Journal) (view : View)
      → JournalOk cobs laws j view
      → Falls q view
      → FitsAnew q
      → j.running ≡ true
      → (j' : Journal) × (defrag cobs j ≡ some (j', true)) × (read_all cobs j' ≡ read_all cobs j)
  read_all-defrag q j view ok falls fits running =
      let (more, rows, e, good) = defrag-JournalOk q j view ok falls fits running in
      let j' = Rewrote (header ++ more) rows in
      (
        j',
        e,
        read_all-JournalOk cobs laws j' (one_block view) good
            ∙ ap some (one_block-listing 0 trigram_range view)
            ∙ sym (read_all-JournalOk cobs laws j view ok),
      )
