-- ===== src/Journal/Copy.antt =====
-- worker/journal.rs: the loops of a batch that copy rows of the tail file.
use haunted_house.Common.{
  ℕ, zero, suc, ◌+◌, ◌≤◌, ◌<◌, ◌≡◌, refl, ap, ◌∙◌, arith, List, [], ◌∷◌, ◌++◌, append_assoc,
  append-nil, Option, none, some, length, ltb, Bool-cases, inl, inr,
}
use haunted_house.Journal.Addresses.{
  trigram_range, address_of_word, word_of_address, AddressReader, reader_next, AddressBuilder,
  builder_write,
}
use haunted_house.Journal.Batch.{copy_until, copy_rest}

abbrev pub reader_at : ℕ → List (ℕ × ℕ) → ℕ → AddressReader
reader_at n rows generation = record { next_trigram = n; rows = rows; generation = generation }

abbrev pub builder_at : ℕ → List (ℕ × ℕ) → AddressBuilder
builder_at n rows = record { expected_trigram = n; rows = rows }

pub reader_next-row :
    (n w size g : ℕ) (rows : List (ℕ × ℕ))
    → n < trigram_range
    → reader_next (reader_at n ((w, size) ∷ rows) g)
      ≡ some (reader_at (n + 1) rows g, some (n, address_of_word w, size))
unfolding reader_next
reader_next-row n w size g rows h = ground arith

pub reader_next-end :
    (n g : ℕ) (rows : List (ℕ × ℕ))
    → trigram_range ≤ n
    → reader_next (reader_at n rows g) ≡ some (reader_at n rows g, none)
unfolding reader_next
reader_next-end n g rows h = ground arith

pub builder_write-at :
    (n size : ℕ) (address : Option ℕ) (rows : List (ℕ × ℕ))
    → builder_write (builder_at n rows) n address size
      ≡ some (builder_at (n + 1) (rows ++ ((word_of_address address, size) ∷ [])))
unfolding builder_write
builder_write-at n size address rows = ground arith

pub word_of-address_of : (w : ℕ) → word_of_address (address_of_word w) ≡ w
unfolding word_of_address address_of_word
word_of-address_of zero = refl
word_of-address_of (suc w) = refl

-- The rows up to the one of the trigram are copied, and that row is read.
pub copy_until-row :
    (fuel n t g : ℕ) (rows copied : List (ℕ × ℕ))
    → length rows < fuel
    → n + length rows ≡ trigram_range
    → n ≤ t
    → t < trigram_range
    → (passed : List (ℕ × ℕ)) × (w : ℕ) × (size : ℕ) × (rest : List (ℕ × ℕ)) × (copy_until fuel t
          (reader_at n rows g)
          (builder_at n copied)
        ≡ some (reader_at (t + 1) rest g, builder_at t (copied ++ passed), address_of_word w, size))
      × (rows ≡ passed ++ ((w, size) ∷ rest))
      × (n + length passed ≡ t)
unfolding copy_until
copy_until-row zero n t g rows copied f h le lt = absurd (omega arith)
copy_until-row (suc fuel) n t g [] copied f h le lt = absurd (omega arith)
copy_until-row (suc fuel) n t g ((w, size) ∷ rows) copied f h le lt = elim (Bool-cases (ltb n t)) [
  | inl before ↦
      let (passed, w', size', rest, e, er, el) =
        copy_until-row fuel (n + 1) t g rows (copied ++ ((w, size) ∷ [])) (omega arith)
          (omega arith) (ground arith) lt in
      (
        (w, size) ∷ passed,
        w',
        size',
        rest,
        rw
            (
              reader_next-row n w size g rows (omega arith),
              copy_until,
              before,
              builder_write-at n size (address_of_word w) copied,
              word_of-address_of w,
            )
            (e ∙ rw append_assoc refl),
        ap (◌∷◌ (w, size)) er,
        omega arith,
      )
  | inr here ↦
      let same : n ≡ t = ground arith in
      (
        [],
        w,
        size,
        rows,
        rw (reader_next-row n w size g rows (omega arith), copy_until, here)
            (rw (same, append-nil) refl),
        refl,
        omega arith,
      )
]

-- The rest of the rows is copied.
pub copy_rest-rows :
    (fuel n g : ℕ) (rows copied : List (ℕ × ℕ))
    → length rows < fuel
    → n + length rows ≡ trigram_range
    → copy_rest fuel (reader_at n rows g) (builder_at n copied)
      ≡ some (reader_at trigram_range [] g, builder_at trigram_range (copied ++ rows))
unfolding copy_rest
copy_rest-rows zero n g rows copied f h = absurd (omega arith)
copy_rest-rows (suc fuel) n g [] copied f h =
    let top : n ≡ trigram_range = omega arith in
    rw (reader_next-end n g [] (omega arith), copy_rest) (rw (top, append-nil) refl)
copy_rest-rows (suc fuel) n g ((w, size) ∷ rows) copied f h =
    rw
      (
        reader_next-row n w size g rows (omega arith),
        copy_rest,
        builder_write-at n size (address_of_word w) copied,
        word_of-address_of w,
      )
      (copy_rest-rows fuel (n + 1) g rows (copied ++ ((w, size) ∷ [])) (omega arith) (omega arith)
        ∙ rw append_assoc refl)
