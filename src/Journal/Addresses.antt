-- ===== src/Journal/Addresses.antt =====
-- worker/journal.rs: the tail file of a journal, a table with a row for each trigram and, at its
-- end, the generation. A row is two u64: the address of the latest block of the trigram, 0 for none,
-- and the number of ids in its blocks. A file is the list of its numbers.
use haunted_house.Common.{
  ℕ, zero, suc, ◌+◌, ◌-◌, ◌^◌, List, [], ◌∷◌, ◌++◌, Option, none, some, drop, leb, ◌==◌,
  if◌then◌else◌,
}
use haunted_house.Common.Sort.{sort, dedup, nat_ord}

abbrev pub trigram_range : ℕ
trigram_range = 2 ^ 24

pub record Tail : Type 0 where
  pub rows : List (ℕ × ℕ)
  pub generation : ℕ

unfoldable pub address_of_word : ℕ → Option ℕ
address_of_word zero = none
address_of_word (suc n) = some (suc n)

unfoldable pub word_of_address : Option ℕ → ℕ
word_of_address none = 0
word_of_address (some address) = address

-- The reader, and what is left of the file.
pub record AddressReader : Type 0 where
  pub next_trigram : ℕ
  pub rows : List (ℕ × ℕ)
  pub generation : ℕ

unfoldable pub reader_open : Tail → AddressReader
reader_open tail = record { next_trigram = 0; rows = tail.rows; generation = tail.generation }

-- AddressReader::next; the outer `none` is the error of a file that is too short.
unfoldable pub reader_next : AddressReader → Option (AddressReader × Option (ℕ × Option ℕ × ℕ))
reader_next r =
    let row : Option (AddressReader × Option (ℕ × Option ℕ × ℕ)) = elim r.rows [
      | [] ↦ none
      | (word, size) ∷ rows ↦ some (
        record { next_trigram = r.next_trigram + 1; rows = rows; generation = r.generation },
        some (r.next_trigram, address_of_word word, size),
      )
    ] in
    if leb trigram_range r.next_trigram then some (r, none) else row

-- AddressReader::read_generation, which seeks behind the rows.
unfoldable pub read_generation : AddressReader → ℕ
read_generation r = r.generation

-- The loop of read_set; `location` is counted in rows.
unfoldable pub read_set_loop : List (ℕ × ℕ) → ℕ → List ℕ → Option (List (ℕ × Option ℕ × ℕ))
read_set_loop rows location [] = some []
read_set_loop rows location (trigram ∷ trigrams) = elim (drop (trigram - location) rows) [
  | [] ↦ none
  | (word, size) ∷ behind ↦ elim (read_set_loop behind (trigram + 1) trigrams) [
    | none ↦ none
    | some out ↦ some ((trigram, address_of_word word, size) ∷ out)
  ]
]

unfoldable pub read_set : Tail → List ℕ → Option (List (ℕ × Option ℕ × ℕ))
read_set tail trigrams = read_set_loop tail.rows 0 (dedup (sort trigrams))

unfoldable pub read_single : Tail → ℕ → Option (Option ℕ × ℕ)
read_single tail trigram = elim (drop trigram tail.rows) [
  | [] ↦ none
  | (word, size) ∷ behind ↦ some (address_of_word word, size)
]

-- AddressBuilder, and the rows that it has written.
pub record AddressBuilder : Type 0 where
  pub expected_trigram : ℕ
  pub rows : List (ℕ × ℕ)

unfoldable pub builder_new : AddressBuilder
builder_new = record { expected_trigram = 0; rows = [] }

-- `none` is the error "Address build out of order".
unfoldable pub builder_write : AddressBuilder → ℕ → Option ℕ → ℕ → Option AddressBuilder
builder_write b trigram address size =
    if trigram == b.expected_trigram
    then some (record {
      expected_trigram = b.expected_trigram + 1;
      rows = b.rows ++ ((word_of_address address, size) ∷ []);
    })
    else none

-- AddressBuilder::finish and install: the generation is written behind the rows, and the file takes
-- the place of the tail.
unfoldable pub builder_install : AddressBuilder → ℕ → Tail
builder_install b generation = record { rows = b.rows; generation = generation }

unfoldable pub repeat_row : ℕ → List (ℕ × ℕ)
repeat_row zero = []
repeat_row (suc n) = (0, 0) ∷ repeat_row n

-- AddressBuilder::init_empty, which sets the length of a new file.
unfoldable pub init_empty : ℕ → Tail
init_empty range = record { rows = repeat_row range; generation = 0 }
