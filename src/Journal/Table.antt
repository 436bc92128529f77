-- ===== src/Journal/Table.antt =====
-- worker/journal.rs: what the rows of the tail file mean, given the data file.
use haunted_house.Common.{ℕ, ◌+◌, ◌%◌, ◌^◌, ◌≤◌, ◌<◌, ◌≡◌, arith, List, [], ◌∷◌, ◌++◌, length, flat}
use haunted_house.Journal.Blocks.{Cobs}
use haunted_house.Journal.Chain.{CobsLaws, Chain, Chain-append}
use haunted_house.Journal.Addresses.{address_of_word}

-- The blocks of each trigram, the latest first.
abbrev pub View : Type 0
View = ℕ → List (List ℕ)

module _ (cobs : Cobs) (laws : CobsLaws cobs) where
  -- A row leads to the blocks, and counts their ids.
  abbrev pub RowOk : List ℕ → ℕ × ℕ → List (List ℕ) → Type 0
  RowOk file (word, size) chunks =
      Chain cobs laws file (address_of_word word) chunks × (size ≡ length (flat chunks) % 2 ^ 64)

  -- The rows of the trigrams from `n` on are those of the view.
  abbrev pub RowsOk : List ℕ → ℕ → List (ℕ × ℕ) → View → Type 0
  RowsOk file n [] view = Unit {0}
  RowsOk file n (row ∷ rows) view = RowOk file row (view n) × RowsOk file (n + 1) rows view

  pub RowsOk-append :
      (file : List ℕ) (n m : ℕ) (rows more : List (ℕ × ℕ)) (view : View)
      → n + length rows ≡ m
      → RowsOk file n rows view
      → RowsOk file m more view
      → RowsOk file n (rows ++ more) view
  RowsOk-append file n m [] more view h r s = let same : m ≡ n = omega arith in rw same at s
  RowsOk-append file n m (row ∷ rows) more view h (r, rs) s =
      (r, RowsOk-append file (n + 1) m rows more view (omega arith) rs s)

  pub RowsOk-split :
      (file : List ℕ) (n m : ℕ) (rows more : List (ℕ × ℕ)) (view : View)
      → n + length rows ≡ m
      → RowsOk file n (rows ++ more) view
      → RowsOk file n rows view × RowsOk file m more view
  RowsOk-split file n m [] more view h r = (tt, let same : n ≡ m = omega arith in rw same at r)
  RowsOk-split file n m (row ∷ rows) more view h (r, rs) =
      let (a, b) = RowsOk-split file (n + 1) m rows more view (omega arith) rs in ((r, a), b)

  -- The view matters only at the rows.
  pub RowsOk-same :
      (file : List ℕ) (n : ℕ) (rows : List (ℕ × ℕ)) (view view' : View)
      → ((x : ℕ) → n ≤ x → x < n + length rows → view' x ≡ view x)
      → RowsOk file n rows view
      → RowsOk file n rows view'
  RowsOk-same file n [] view view' same r = tt
  RowsOk-same file n (row ∷ rows) view view' same (r, rs) = (
    rw (same n (omega arith) (omega arith)) r,
    RowsOk-same file (n + 1) rows view view' (λ x le lt. same x (omega arith) (omega arith)) rs,
  )

  -- Rows stay right when the data file grows.
  pub RowsOk-grow :
      (file more : List ℕ) (n : ℕ) (rows : List (ℕ × ℕ)) (view : View)
      → RowsOk file n rows view
      → RowsOk (file ++ more) n rows view
  RowsOk-grow file more n [] view r = tt
  RowsOk-grow file more n (row ∷ rows) view ((c, s), rs) = (
    (Chain-append cobs laws (view n) file more _ c, s),
    RowsOk-grow file more (n + 1) rows view rs,
  )
