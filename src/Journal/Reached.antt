-- ===== src/Journal/Reached.antt =====
-- worker/journal.rs: every journal that batches and defragmentation lead to.
use haunted_house.Common.{ℕ, ◌≡◌, refl, [], Option, some, Bool, true, subst}
use haunted_house.Journal.Blocks.{Cobs}
use haunted_house.Journal.Chain.{CobsLaws}
use haunted_house.Journal.Addresses.{trigram_range}
use haunted_house.Journal.Merge.{Files}
use haunted_house.Journal.Batch.{Journal, journal_new, write_batch, read_all, defrag}
use haunted_house.Journal.Table.{View}
use haunted_house.Journal.Sorted.{encoded}
use haunted_house.Journal.Stored.{
  JournalOk, FilesOk, Fits, view_with, journal_new-JournalOk, write_batch-JournalOk,
}
use haunted_house.Journal.Listed.{listing, read_all-JournalOk}
use haunted_house.Journal.Rewrite.{Falls, one_block}
use haunted_house.Journal.Defrag.{FitsAnew, defrag-JournalOk}

module _ (cobs : Cobs) (laws : CobsLaws cobs) where
  -- The steps of a journal, with the blocks that each trigram has. The conditions of a batch: its
  -- files have u64 ids, none twice, and trigrams below 2 ^ 24 from low to high, and the bytes that
  -- it may add leave the data file below 2 ^ 64 bytes. Of a defragmentation: the ids of each trigram
  -- are u64 and fall, and the new data file stays below 2 ^ 64 bytes.
  pub data Reached : Journal → View → Type 0 where
    fresh : Reached journal_new (λ x. [])
    wrote :
        (j j' : Journal) (view : View) (files : Files)
        → Reached j view
        → FilesOk files
        → Fits cobs laws j files
        → write_batch cobs j (encoded files) ≡ some (j', true)
        → Reached j' (view_with cobs laws files view)
    defragged :
        (q : ℕ) (j j' : Journal) (view : View)
        → Reached j view
        → Falls q view
        → FitsAnew q
        → defrag cobs j ≡ some (j', true)
        → Reached j' (one_block view)

  abbrev pub Good : Journal → View → Type 0
  Good j view = (j.running ≡ true) × JournalOk cobs laws j view

  same_journal :
      (j j' : Journal) (made : Option (Journal × Bool))
      → made ≡ some (j, true)
      → made ≡ some (j', true)
      → j ≡ j'
  same_journal j j' made e e' = cc

  pub Reached-Good : (j : Journal) (view : View) → Reached j view → Good j view
  Reached-Good _ _ fresh = (unfold journal_new in refl, journal_new-JournalOk cobs laws)
  Reached-Good _ _ (wrote j j' view files r ok fits e) =
      let (running, held) = Reached-Good j view r in
      let (more, rows, e', good, room) =
        write_batch-JournalOk cobs laws j files view held ok fits running in
      subst (λ k. Good k (view_with cobs laws files view))
        (same_journal _ j' (write_batch cobs j (encoded files)) e' e) (refl, good)
  Reached-Good _ _ (defragged q j j' view r falls fits e) =
      let (running, held) = Reached-Good j view r in
      let (more, rows, e', good) = defrag-JournalOk cobs laws q j view held falls fits running in
      subst (λ k. Good k (one_block view)) (same_journal _ j' (defrag cobs j) e' e) (refl, good)

  -- After any sequence of batches and defragmentations that a new journal went through, reading it
  -- gives, for each trigram in turn, the ids that the batches wrote, the latest batch first, when
  -- these conditions hold of every step. The files of a batch have u64 ids, none twice in the batch,
  -- and each has trigrams below 2 ^ 24 from low to high; the bytes that the batch may add, 22 and 20
  -- more for each file for every trigram, leave the data file below 2 ^ 64 bytes. Where the journal is
  -- defragmented, the ids of each trigram over all its blocks are u64 and fall strictly, and no
  -- trigram has more than q of them, for a q for which the 4 bytes of the header and 22 and 20 q
  -- bytes for every trigram come to less than 2 ^ 64.
  pub read_all-Reached :
      (j : Journal) (view : View)
      → Reached j view
      → read_all cobs j ≡ some (listing 0 trigram_range view)
  read_all-Reached j view r = read_all-JournalOk cobs laws j view (Reached-Good j view r).1
