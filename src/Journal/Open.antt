-- ===== src/Journal/Open.antt =====
-- worker/journal.rs: opening a journal, which cuts off what a batch wrote behind the last block that
-- the tail file knows. No defragmentation is waiting to be installed.
use haunted_house.Common.{
  ℕ, zero, suc, ◌+◌, List, [], ◌∷◌, Option, none, some, Bool, true, false, take, drop, length, ltb,
  leb, ◌==◌, ◌&&◌, if◌then◌else◌, max,
}
use haunted_house.Journal.Addresses.{Tail, AddressReader, reader_open, reader_next}
use haunted_house.Journal.Blocks.{Cobs, read_until_zero, load_block_data}
use haunted_house.Journal.Batch.{Journal, header, journal_new}

abbrev pub equal_bytes : List ℕ → List ℕ → Bool
equal_bytes [] [] = true
equal_bytes [] (y ∷ ys) = false
equal_bytes (x ∷ xs) [] = false
equal_bytes (x ∷ xs) (y ∷ ys) = x == y && equal_bytes xs ys

-- Whether the data file begins with the magic number; if not, opening is an error.
abbrev pub check_header : List ℕ → Bool
check_header file = equal_bytes (take 4 file) header

-- The loop that reads the greatest address of the tail. Fuel: the rows that are left.
unfoldable pub last_address : ℕ → AddressReader → ℕ → Option ℕ
last_address zero r address = none
last_address (suc fuel) r address = elim (reader_next r) [
  | none ↦ none
  | some (r', none) ↦ some address
  | some (r', some (t, none, size)) ↦ last_address fuel r' address
  | some (r', some (t, some a, size)) ↦ last_address fuel r' (max address a)
]

module _ (cobs : Cobs) where
  -- The last block is read, and the data file is cut behind it.
  unfoldable pub cut_behind : ℕ → List ℕ → Option (List ℕ)
  cut_behind address file =
      let buffer = read_until_zero (drop address file) in
      let cut : Option (List ℕ) = elim (load_block_data cobs address buffer) [
        | none ↦ none
        | some b ↦ some (take (address + length buffer) file)
      ] in
      if ltb 0 address then cut else some file

  -- The end of JournalFilter::open, which reads the tail and cuts the data file.
  unfoldable pub restore : List ℕ → Tail → Option Journal
  restore file tail = elim (last_address (suc (length tail.rows)) (reader_open tail) 0) [
    | none ↦ none
    | some address ↦ elim (cut_behind address file) [
      | none ↦ none
      | some file' ↦ some (record { running = true; file = file'; tail = tail })
    ]
  ]

  -- The start of JournalFilter::open: a data file that was not fully initialised is made anew.
  unfoldable pub open_journal : List ℕ → Tail → Option Journal
  open_journal file tail =
      let opened : Option Journal = if check_header file then restore file tail else none in
      if leb (length file) 4 then some journal_new else opened
