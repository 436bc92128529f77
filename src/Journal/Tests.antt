-- ===== src/Journal/Tests.antt =====
-- Runs of the query tasks of worker/journal.rs, and the theorems at concrete inputs.
use haunted_house.Common.{
  ℕ, ◌+◌, ◌-◌, ◌≡◌, ◌≢◌, refl, ap, arith, List, [], ◌∷◌, ◌++◌, true, leb, All, some, length, suc,
  ◌≤◌, ◌*◌,
}
use haunted_house.Journal.Blocks.{Cobs}
use haunted_house.Journal.Chain.{CobsLaws}
use haunted_house.Journal.Merge.{Files}
use haunted_house.Journal.Stored.{
  JournalOk, FilesOk, view_with, Written, journal_new-JournalOk, write_batch-JournalOk,
}
use haunted_house.Journal.Bounds.{block_bound}
use haunted_house.Journal.Batch.{Journal, sort_rows, journal_new, write_batch, read_all, defrag}
use haunted_house.Journal.Addresses.{trigram_range}
use haunted_house.Journal.Listed.{listing, read_all-write_batch}
use haunted_house.Journal.Defrag.{read_all-defrag, flat-push_block}
use haunted_house.Journal.Sorted.{
  encoded, collector_new-Carries, sort_rows-All, sort_rows-Ordered, holders-IdsOk, length-holders,
  length-sort_rows,
}
use haunted_house.Journal.Choose.{holders}
use haunted_house.Journal.Rewrite.{Falls}
use haunted_house.Journal.Left.{BatchOk}
use haunted_house.Journal.Collected.{Yields, collector_next-Yields}
use haunted_house.Journal.Collector.{collector_new, collector_next}
use haunted_house.Journal.Reached.{Reached, Good, Reached-Good, fresh, wrote, read_all-Reached}
use haunted_house.Common.Int.{pos, as_usize}
use haunted_house.Journal.Nodes.{
  Inputs, query_or, query_and, query_min_of, max_peek, min_peek, skip_equal, and_pass, and_catch_up,
  skip_above, catch_up, hits,
}
use haunted_house.Journal.Union.{elem, Descends, query_or-elem}
use haunted_house.Journal.Meet.{query_and-elem}
use haunted_house.Journal.Threshold.{query_min_of-elem}

abbrev three_inputs : Inputs
three_inputs = (9 ∷ 7 ∷ 4 ∷ []) ∷ (7 ∷ 5 ∷ 4 ∷ []) ∷ (8 ∷ 7 ∷ 4 ∷ 1 ∷ []) ∷ []

three_inputs-Descends : All Descends three_inputs
three_inputs-Descends = (
  (omega arith, (omega arith, tt)),
  ((omega arith, (omega arith, tt)), ((omega arith, (omega arith, (omega arith, tt))), tt)),
)

union_run : query_or 10 three_inputs ≡ 9 ∷ 8 ∷ 7 ∷ 5 ∷ 4 ∷ 1 ∷ []
unfolding query_or max_peek skip_equal
union_run = refl

meet_run : query_and 10 three_inputs ≡ 7 ∷ 4 ∷ []
unfolding query_and min_peek skip_equal and_pass and_catch_up
meet_run = refl

threshold_run : query_min_of 10 (pos 3) three_inputs (1 ∷ 1 ∷ 2 ∷ []) ≡ 7 ∷ 4 ∷ []
unfolding query_min_of max_peek skip_equal skip_above catch_up hits
threshold_run = refl

query_or-elem_example : elem 5 (query_or 10 three_inputs) ≡ true
query_or-elem_example = query_or-elem 10 three_inputs 5 (omega arith)

query_and-elem_example : elem 7 (query_and 10 three_inputs) ≡ true
query_and-elem_example = query_and-elem 10 three_inputs 7 three_inputs-Descends (omega arith)

query_min_of-elem_example :
    elem 8 (query_min_of 10 (pos 3) three_inputs (1 ∷ 1 ∷ 2 ∷ [])) ≡ leb (as_usize (pos 3)) 2
query_min_of-elem_example =
    query_min_of-elem 10 (pos 3) three_inputs (1 ∷ 1 ∷ 2 ∷ []) 8 three_inputs-Descends refl
      (omega arith)

-- Stands for the crate cobs: it keeps each byte away from zero.
abbrev drop_end : List ℕ → List ℕ
drop_end [] = []
drop_end (b ∷ []) = []
drop_end (b ∷ c ∷ bytes) = b ∷ drop_end (c ∷ bytes)

abbrev pub lower_all : List ℕ → List ℕ
lower_all [] = []
lower_all (b ∷ bytes) = (b - 1) ∷ lower_all bytes

abbrev pub raise_all : List ℕ → List ℕ
raise_all [] = []
raise_all (b ∷ bytes) = (b + 1) ∷ raise_all bytes

abbrev pub shifted : Cobs
shifted = record {
  encode = raise_all;
  decode_in_place = λ bytes. some (lower_all (drop_end bytes));
}

pub raise_all-no_zero : (bytes : List ℕ) → All (λ b. b ≢ 0) (raise_all bytes)
raise_all-no_zero [] = tt
raise_all-no_zero (b ∷ bytes) = (λ e. omega arith, raise_all-no_zero bytes)

pub lower_all-raise_all :
    (bytes : List ℕ) → lower_all (drop_end (raise_all bytes ++ (0 ∷ []))) ≡ bytes
lower_all-raise_all [] = refl
lower_all-raise_all (b ∷ []) = ground arith
lower_all-raise_all (b ∷ c ∷ bytes) = ground (arith, lower_all-raise_all (c ∷ bytes))

pub length-raise_all : (bytes : List ℕ) → length (raise_all bytes) ≡ length bytes
length-raise_all [] = refl
length-raise_all (b ∷ bytes) = ap suc (length-raise_all bytes)

abbrev pub shifted_laws : CobsLaws shifted
shifted_laws = record {
  encode-no_zero = raise_all-no_zero;
  decode-encode = λ bytes. ap some (lower_all-raise_all bytes);
  encode-length = λ bytes. omega (arith, length-raise_all bytes);
}

-- Two files, the second of which has a trigram of the first.
abbrev pub two_files : Files
two_files = (3, 5 ∷ 9 ∷ []) ∷ (4, 9 ∷ []) ∷ []

abbrev falling_files : Files
falling_files = (4, 9 ∷ []) ∷ (3, 5 ∷ 9 ∷ []) ∷ []

falling_files-BatchOk : BatchOk falling_files
falling_files-BatchOk = (
  (
    ((omega arith, tt), (omega arith, tt)),
    (((omega arith, (omega arith, tt)), (omega arith, (omega arith, omega arith, tt))), tt),
  ),
  ((omega arith, tt), (tt, tt)),
)

pub two_files-FilesOk : FilesOk two_files
two_files-FilesOk = (
  (omega arith, (omega arith, tt)),
  ((λ e. omega arith, tt), (tt, tt)),
  (
    ((omega arith, (omega arith, tt)), (omega arith, (omega arith, omega arith, tt))),
    (((omega arith, tt), (omega arith, tt)), tt),
  ),
)

pub filled_run :
    (j' : Journal) × (write_batch shifted journal_new (encoded two_files) ≡ some (j', true))
    × (read_all shifted j'
        ≡ some (listing 0 trigram_range (view_with shifted shifted_laws two_files (λ x. []))))
filled_run =
    read_all-write_batch shifted shifted_laws journal_new two_files (λ x. [])
      (journal_new-JournalOk shifted shifted_laws) two_files-FilesOk
      (unfold journal_new in omega arith) (unfold journal_new in refl)

read_all-write_batch_example :
    (j' : Journal) × (write_batch shifted journal_new (encoded two_files) ≡ some (j', true))
    × (read_all shifted j'
        ≡ some (listing 0 trigram_range (view_with shifted shifted_laws two_files (λ x. []))))
read_all-write_batch_example =
    read_all-write_batch shifted shifted_laws journal_new two_files (λ x. [])
      (journal_new-JournalOk shifted shifted_laws) two_files-FilesOk
      (unfold journal_new in omega arith) (unfold journal_new in refl)

-- A journal that a batch was written to.
abbrev pub filled : Journal
filled = filled_run.0

pub filled-Reached :
    Reached shifted shifted_laws filled (view_with shifted shifted_laws two_files (λ x. []))
filled-Reached =
    wrote journal_new filled (λ x. []) two_files fresh two_files-FilesOk
      (unfold journal_new in omega arith) filled_run.1

read_all-Reached_example :
    read_all shifted filled
    ≡ some (listing 0 trigram_range (view_with shifted shifted_laws two_files (λ x. [])))
read_all-Reached_example =
    read_all-Reached shifted shifted_laws filled
      (view_with shifted shifted_laws two_files (λ x. [])) filled-Reached

collector_next-Yields_example :
    Yields
      (collector_new (encoded falling_files)).acceptable
      falling_files
      (collector_next (collector_new (encoded falling_files)) [])
collector_next-Yields_example =
    collector_next-Yields (collector_new (encoded falling_files)) falling_files []
      (collector_new-Carries falling_files falling_files-BatchOk.0) falling_files-BatchOk

filled-Good : Good shifted shifted_laws filled (view_with shifted shifted_laws two_files (λ x. []))
filled-Good =
    Reached-Good shifted shifted_laws filled (view_with shifted shifted_laws two_files (λ x. []))
      filled-Reached

-- Each trigram of the two files has at most two ids, which fall.
pub filled-Falls : Falls 2 (view_with shifted shifted_laws two_files (λ x. []))
filled-Falls x h =
    let same = flat-push_block (holders x (sort_rows two_files)) in
    rw same (
      holders-IdsOk x (sort_rows two_files) (sort_rows-All _ two_files two_files-FilesOk.0)
          (sort_rows-Ordered two_files two_files-FilesOk.1) (rw same at h),
      omega (arith, length-holders x (sort_rows two_files), length-sort_rows two_files),
    )

read_all-defrag_example :
    (j' : Journal) × (defrag shifted filled ≡ some (j', true))
    × (read_all shifted j' ≡ read_all shifted filled)
read_all-defrag_example =
    read_all-defrag shifted shifted_laws 2 filled
      (view_with shifted shifted_laws two_files (λ x. [])) filled-Good.1 filled-Falls (omega arith)
      filled-Good.0

write_batch-JournalOk_example :
    (more : List ℕ) × (rows : List (ℕ × ℕ)) × (write_batch shifted journal_new (encoded two_files)
      ≡ some (Written shifted shifted_laws journal_new rows (journal_new.file ++ more), true))
    × JournalOk shifted shifted_laws
        (Written shifted shifted_laws journal_new rows (journal_new.file ++ more))
        (view_with shifted shifted_laws two_files (λ x. []))
    × (length more ≤ block_bound (length two_files) * trigram_range)
write_batch-JournalOk_example =
    write_batch-JournalOk shifted shifted_laws journal_new two_files (λ x. [])
      (journal_new-JournalOk shifted shifted_laws) two_files-FilesOk
      (unfold journal_new in omega arith) (unfold journal_new in refl)
