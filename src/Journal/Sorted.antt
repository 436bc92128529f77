-- ===== src/Journal/Sorted.antt =====
-- worker/journal.rs: a batch of files, sorted by falling ids.
use haunted_house.Common.{
  ℕ, ◌<◌, ◌≡◌, ◌≢◌, refl, ap, ◌∙◌, arith, List, [], ◌∷◌, length, All, ltb, inl, inr, Bool-cases,
  ◌≤◌, suc,
}
use haunted_house.Encoding.{IsU64, encode_into_increasing}
use haunted_house.Encoding.Sequence.{Falling}
use haunted_house.Encoding.Stream.{stream_new-Holds}
use haunted_house.Journal.Union.{elem}
use haunted_house.Journal.Collector.{collector_new}
use haunted_house.Journal.Merge.{Files, AllTrigrams, Carries}
use haunted_house.Journal.Choose.{holders}
use haunted_house.Journal.Left.{Under, Ordered}
use haunted_house.Journal.Batch.{insert_row, sort_rows}
use haunted_house.Journal.Written.{IdsOk}

-- What the caller passes: the trigrams of each file as a stream.
abbrev pub encoded : Files → List (ℕ × List ℕ)
encoded [] = []
encoded ((id, l) ∷ files) = (id, encode_into_increasing l []) ∷ encoded files

-- No id comes twice.
abbrev pub Apart : Files → Type 0
Apart [] = Unit {0}
Apart ((id, l) ∷ files) = All (λ (f : ℕ × List ℕ). f.0 ≢ id) files × Apart files

-- The ids are u64.
abbrev pub IdsU64 : Files → Type 0
IdsU64 files = All (λ (f : ℕ × List ℕ). IsU64 f.0) files

insert_row-All :
    (P : ℕ × List ℕ → Type 0) (row : ℕ × List ℕ) (rows : Files)
    → P row
    → All P rows
    → All P (insert_row row rows)
unfolding insert_row
insert_row-All P row [] h hs = (h, tt)
insert_row-All P row (other ∷ rows) h hs = elim (Bool-cases (ltb row.0 other.0)) [
  | inl lower ↦ rw lower (hs.0, insert_row-All _ row rows h hs.1)
  | inr higher ↦ rw higher (h, hs)
]

pub sort_rows-All : (P : ℕ × List ℕ → Type 0) (rows : Files) → All P rows → All P (sort_rows rows)
unfolding sort_rows
sort_rows-All P [] hs = tt
sort_rows-All P (row ∷ rows) hs =
    insert_row-All _ row (sort_rows rows) hs.0 (sort_rows-All _ rows hs.1)

Under-mono : (low high : ℕ) (files : Files) → low < high → Under low files → Under high files
Under-mono low high [] h u = tt
Under-mono low high (f ∷ files) h u = (omega (arith, u.0), Under-mono low high files h u.1)

insert_row-Ordered :
    (row : ℕ × List ℕ) (rows : Files)
    → All (λ (f : ℕ × List ℕ). f.0 ≢ row.0) rows
    → Ordered rows
    → Ordered (insert_row row rows)
unfolding insert_row
insert_row-Ordered row [] a o = (tt, tt)
insert_row-Ordered row (other ∷ rows) a o = elim (Bool-cases (ltb row.0 other.0)) [
  | inl lower ↦
      let lt : row.0 < other.0 = ground arith in
      rw lower (insert_row-All _ row rows lt o.0, insert_row-Ordered row rows a.1 o.1)
  | inr higher ↦
      let lt : other.0 < row.0 = ground (arith, a.0) in
      rw higher ((lt, Under-mono other.0 row.0 rows lt o.0), o)
]

pub sort_rows-Ordered : (files : Files) → Apart files → Ordered (sort_rows files)
unfolding sort_rows
sort_rows-Ordered [] a = tt
sort_rows-Ordered ((id, l) ∷ files) a =
    insert_row-Ordered (id, l) (sort_rows files) (sort_rows-All _ files a.0)
      (sort_rows-Ordered files a.1)

insert_row-encoded :
    (id : ℕ) (l : List ℕ) (files : Files)
    → insert_row (id, encode_into_increasing l []) (encoded files)
      ≡ encoded (insert_row (id, l) files)
unfolding insert_row
insert_row-encoded id l [] = refl
insert_row-encoded id l ((id', l') ∷ files) = elim (Bool-cases (ltb id id')) [
  | inl lower ↦ rw (lower, insert_row-encoded id l files) refl
  | inr higher ↦ rw higher refl
]

pub sort_rows-encoded : (files : Files) → sort_rows (encoded files) ≡ encoded (sort_rows files)
unfolding sort_rows
sort_rows-encoded [] = refl
sort_rows-encoded ((id, l) ∷ files) =
    ap (insert_row (id, encode_into_increasing l [])) (sort_rows-encoded files)
    ∙ insert_row-encoded id l (sort_rows files)

-- The iterators of a new collector hold the trigrams of the files.
pub collector_new-Carries :
    (files : Files) → AllTrigrams files → Carries (collector_new (encoded files)).iterators files
unfolding collector_new
collector_new-Carries [] t = tt
collector_new-Carries ((id, l) ∷ files) t =
    (refl, stream_new-Holds l t.0.1, collector_new-Carries files t.1)

holders-Falling :
    (x id : ℕ) (files : Files) → Under id files → Ordered files → Falling id (holders x files)
holders-Falling x id [] u o = tt
holders-Falling x id ((id', l) ∷ files) u o = elim (Bool-cases (elem x l)) [
  | inl holds ↦ rw holds (u.0, holders-Falling x id' files o.0 o.1)
  | inr not_held ↦ rw not_held (holders-Falling x id files u.1 o.1)
]

-- Ids of files that are sorted fit a block.
pub holders-IdsOk :
    (x : ℕ) (files : Files)
    → IdsU64 files
    → Ordered files
    → 0 < length (holders x files)
    → IdsOk (holders x files)
holders-IdsOk x [] u o h = absurd (omega arith)
holders-IdsOk x ((id, l) ∷ files) u o h = elim (Bool-cases (elem x l)) [
  | inl holds ↦ rw holds (u.0, holders-Falling x id files o.0 o.1)
  | inr not_held ↦ rw not_held (holders-IdsOk x files u.1 o.1 (rw not_held at h))
]

pub length-holders : (x : ℕ) (files : Files) → length (holders x files) ≤ length files
length-holders x [] = omega arith
length-holders x ((id, l) ∷ files) = ground (arith, length-holders x files)

length-insert_row :
    (row : ℕ × List ℕ) (rows : Files) → length (insert_row row rows) ≡ suc (length rows)
unfolding insert_row
length-insert_row row [] = refl
length-insert_row row (other ∷ rows) = ground (arith, length-insert_row row rows)

pub length-sort_rows : (files : Files) → length (sort_rows files) ≡ length files
unfolding sort_rows
length-sort_rows [] = refl
length-sort_rows (row ∷ files) =
    length-insert_row row (sort_rows files) ∙ ap suc (length-sort_rows files)
