-- ===== src/Journal/Restart.antt =====
-- A run of opening a journal that a batch was cut off from.
use haunted_house.Common.{
  ℕ, ◌-◌, ◌^◌, ◌≤◌, ◌≡◌, refl, arith, List, [], ◌∷◌, ◌++◌, some, none, true, length, ◌==◌,
  if◌then◌else◌,
}
use haunted_house.Encoding.Varint.{behind}
use haunted_house.Encoding.Sequence.{gaps}
use haunted_house.Journal.Addresses.{repeat_row, address_of_word}
use haunted_house.Journal.Blocks.{address_offset}
use haunted_house.Journal.Chain.{plain}
use haunted_house.Journal.Table.{View, RowsOk, RowsOk-same}
use haunted_house.Journal.Batch.{Journal, header}
use haunted_house.Journal.Stored.{JournalOk, length-repeat_row, repeat_row-RowsOk}
use haunted_house.Journal.Open.{open_journal}
use haunted_house.Journal.Recover.{open_journal-RowsOk}
use haunted_house.Journal.Tests.{raise_all, shifted, shifted_laws}

-- Two blocks of trigram 0, at 4 and at 8.
abbrev blocks : List ℕ
blocks =
    header
    ++ (raise_all (plain none 4 3 (1 ∷ []))
        ++ (0 ∷ (raise_all (plain (some 4) 8 9 (7 ∷ [])) ++ (0 ∷ []))))

abbrev chunks : List (List ℕ)
chunks = (9 ∷ 7 ∷ []) ∷ (3 ∷ 1 ∷ []) ∷ []

abbrev one_trigram : View
one_trigram x = if x == 0 then chunks else []

abbrev closed : Journal
closed = record {
  running = true;
  file = blocks;
  tail = record { rows = (8, 4) ∷ repeat_row (2 ^ 24 - 1); generation = 2 };
}

closed-JournalOk : JournalOk shifted shifted_laws closed one_trigram
unfolding address_offset address_of_word gaps behind
closed-JournalOk = (
  omega arith,
  omega (arith, length-repeat_row shifted shifted_laws (2 ^ 24 - 1)),
  (
    (
      (
        8,
        some 4,
        refl,
        (
          9,
          7 ∷ [],
          [],
          refl,
          (omega arith, omega arith, omega arith, omega arith, (omega arith, tt)),
          refl,
        ),
        (
          4,
          none,
          refl,
          (
            3,
            1 ∷ [],
            raise_all (plain (some 4) 8 9 (7 ∷ [])) ++ (0 ∷ []),
            refl,
            (omega arith, omega arith, tt, omega arith, (omega arith, tt)),
            refl,
          ),
          refl,
        ),
      ),
      refl,
    ),
    RowsOk-same shifted shifted_laws blocks 1 (repeat_row (2 ^ 24 - 1)) (λ x. []) one_trigram
        (λ x le lt. ground arith) (repeat_row-RowsOk shifted shifted_laws blocks (2 ^ 24 - 1) 1),
  ),
)

open_journal-RowsOk_example :
    (j' : Journal) × (open_journal shifted (blocks ++ (5 ∷ 6 ∷ [])) closed.tail ≡ some j')
    × (j'.running ≡ true)
    × (j'.tail ≡ closed.tail)
    × (length j'.file ≤ length (blocks ++ (5 ∷ 6 ∷ [])))
    × RowsOk shifted shifted_laws j'.file 0 closed.tail.rows one_trigram
open_journal-RowsOk_example =
    open_journal-RowsOk shifted shifted_laws closed one_trigram (5 ∷ 6 ∷ []) closed-JournalOk
      (unfold behind in unfold gaps in omega arith) refl
