-- ===== src/Journal/Batch.antt =====
-- worker/journal.rs: JournalFilter, which appends batches of files to a journal, reads it whole and
-- rewrites it. The state is the content of the data file and of the tail file. `none` is an error or
-- a panic, after which neither the tail is replaced nor a journal is returned here.
use haunted_house.Common.{
  ℕ, zero, suc, ◌%◌, ◌^◌, List, [], ◌∷◌, ◌++◌, Option, none, some, Bool, true, false, length, ltb,
  if◌then◌else◌,
}
use haunted_house.Encoding.{add_u64}
use haunted_house.Journal.Blocks.{Cobs, encode_block_data, read_chain}
use haunted_house.Journal.Addresses.{
  Tail, AddressReader, reader_open, reader_next, read_generation, AddressBuilder, builder_new,
  builder_write, builder_install, init_empty, trigram_range,
}
use haunted_house.Journal.Collector.{IdCollector, collector_new, collector_next}

pub record Journal : Type 0 where
  pub running : Bool
  pub file : List ℕ
  pub tail : Tail

-- HEADER_MAGIC, 0xd42e1880, as the bytes of a little endian u32.
abbrev pub header : List ℕ
header = 0x80 ∷ 0x18 ∷ 0x2e ∷ 0xd4 ∷ []

-- JournalFilter::blocking_new
unfoldable pub journal_new : Journal
journal_new = record { running = true; file = header; tail = init_empty trigram_range }

-- `files.sort_unstable_by_key(|row| Reverse(row.0))`
unfoldable pub insert_row : ℕ × List ℕ → List (ℕ × List ℕ) → List (ℕ × List ℕ)
insert_row row [] = row ∷ []
insert_row row (other ∷ rows) =
    if ltb row.0 other.0 then other ∷ insert_row row rows else row ∷ other ∷ rows

unfoldable pub sort_rows : List (ℕ × List ℕ) → List (ℕ × List ℕ)
sort_rows [] = []
sort_rows (row ∷ rows) = insert_row row (sort_rows rows)

-- The loop that copies rows up to the one of the trigram, which it reads: its address and size.
-- Fuel: the rows that are left.
unfoldable pub copy_until :
    ℕ → ℕ → AddressReader → AddressBuilder → Option (AddressReader × AddressBuilder × Option ℕ × ℕ)
copy_until zero trigram r b = none
copy_until (suc fuel) trigram r b = elim (reader_next r) [
  | none ↦ none
  | some (r', none) ↦ none
  | some (r', some (tg, address, size)) ↦ elim (ltb tg trigram) [
    | true ↦ elim (builder_write b tg address size) [
      | none ↦ none
      | some b' ↦ copy_until fuel trigram r' b'
    ]
    | false ↦ some (r', b, address, size)
  ]
]

-- The rows behind the last trigram of the batch.
unfoldable pub copy_rest :
    ℕ → AddressReader → AddressBuilder → Option (AddressReader × AddressBuilder)
copy_rest zero r b = none
copy_rest (suc fuel) r b = elim (reader_next r) [
  | none ↦ none
  | some (r', none) ↦ some (r', b)
  | some (r', some (tg, address, size)) ↦ elim (builder_write b tg address size) [
    | none ↦ none
    | some b' ↦ copy_rest fuel r' b'
  ]
]

module _ (cobs : Cobs) where
  -- One trigram of the batch: its new block and its new row.
  unfoldable pub write_trigram :
      ℕ
      → List ℕ
      → List ℕ
      → AddressReader
      → AddressBuilder
      → Option (List ℕ × AddressReader × AddressBuilder)
  write_trigram trigram file_ids file r b = elim (copy_until (suc (length r.rows)) trigram r b) [
    | none ↦ none
    | some (r', b', old_address, old_size) ↦
        elim (encode_block_data cobs old_address (length file) file_ids) [
          | none ↦ none
          | some block ↦
              elim (builder_write b' trigram (some (length file))
                (add_u64 old_size (length file_ids))) [
                  | none ↦ none
                  | some b'' ↦ some (file ++ block, r', b'')
                ]
        ]
  ]

  -- The main loop of _write_batch. Fuel: each round takes a row.
  unfoldable pub write_loop :
      ℕ
      → IdCollector
      → List ℕ
      → List ℕ
      → AddressReader
      → AddressBuilder
      → Option (List ℕ × AddressReader × AddressBuilder)
  write_loop zero c file_ids file r b = none
  write_loop (suc fuel) c file_ids file r b =
      let (c', ids, selected) = collector_next c file_ids in
      elim selected [
        | none ↦ some (file, r, b)
        | some trigram ↦ elim (write_trigram trigram ids file r b) [
          | none ↦ none
          | some (file', r', b') ↦ write_loop fuel c' ids file' r' b'
        ]
      ]

  -- The new journal, and whether the batch was written.
  unfoldable pub write_batch : Journal → List (ℕ × List ℕ) → Option (Journal × Bool)
  write_batch j files =
      let reader = reader_open j.tail in
      let written : Option (Journal × Bool) =
        elim (write_loop (suc (length j.tail.rows)) (collector_new (sort_rows files)) [] j.file
          reader builder_new) [
            | none ↦ none
            | some (file, r, b) ↦ elim (copy_rest (suc (length r.rows)) r b) [
              | none ↦ none
              | some (r', b') ↦ some (
                record {
                  running = true;
                  file = file;
                  tail = builder_install b' (add_u64 1 (read_generation r'));
                },
                true,
              )
            ]
          ] in
      if j.running then written else some (j, false)

  -- read_all: the ids of each trigram, in the order of the rows.
  unfoldable pub read_rows : ℕ → List ℕ → AddressReader → Option (List (ℕ × List ℕ))
  read_rows zero file r = none
  read_rows (suc fuel) file r = elim (reader_next r) [
    | none ↦ none
    | some (r', none) ↦ some []
    | some (r', some (trigram, address, size)) ↦
        elim (read_chain cobs (length file) file address []) [
          | none ↦ none
          | some file_ids ↦ elim (read_rows fuel file r') [
            | none ↦ none
            | some rest ↦ some ((trigram, file_ids) ∷ rest)
          ]
        ]
  ]

  unfoldable pub read_all : Journal → Option (List (ℕ × List ℕ))
  read_all j = read_rows (suc (length j.tail.rows)) j.file (reader_open j.tail)

  -- The loop of _defrag over what read_all sends.
  unfoldable pub defrag_loop :
      List (ℕ × List ℕ) → List ℕ → AddressBuilder → Option (List ℕ × AddressBuilder)
  defrag_loop [] file b = some (file, b)
  defrag_loop ((trigram, []) ∷ trigrams) file b = elim (builder_write b trigram none 0) [
    | none ↦ none
    | some b' ↦ defrag_loop trigrams file b'
  ]
  defrag_loop ((trigram, id ∷ ids) ∷ trigrams) file b =
      elim (builder_write b trigram (some (length file)) (length (id ∷ ids) % 2 ^ 64)) [
        | none ↦ none
        | some b' ↦ elim (encode_block_data cobs none (length file) (id ∷ ids)) [
          | none ↦ none
          | some block ↦ defrag_loop trigrams (file ++ block) b'
        ]
      ]

  unfoldable pub defrag : Journal → Option (Journal × Bool)
  defrag j =
      let done : Option (Journal × Bool) = elim (read_all j) [
        | none ↦ none
        | some trigrams ↦ elim (defrag_loop trigrams header builder_new) [
          | none ↦ none
          | some (file, b) ↦
              some (record { running = true; file = file; tail = builder_install b 0 }, true)
        ]
      ] in
      if j.running then done else some (j, false)
