-- ===== src/Journal/Merge.antt =====
-- worker/journal.rs: IdCollector yields the trigrams of a batch in order, each with its files.
use haunted_house.Common.{
  ℕ, zero, suc, ◌%◌, ◌^◌, ◌≤◌, ◌<◌, ◌≡◌, refl, ap, arith, List, [], ◌∷◌, Option, none, some, length,
  All, ltb, if◌then◌else◌, inl, inr, Bool-cases,
}
use haunted_house.Encoding.{StreamDecode, peek, skip_one}
use haunted_house.Encoding.Stream.{Holds, Holds-length, Sorted}
use haunted_house.Journal.Collector.{skip_passed, Selection, select, select_all}

-- The files of a batch by what they hold: an id and the trigrams, from low to high.
abbrev pub Files : Type 0
Files = List (ℕ × List ℕ)

-- The trigrams from `a` on.
abbrev pub from_on : ℕ → List ℕ → List ℕ
from_on a [] = []
from_on a (x ∷ l) = if ltb x a then from_on a l else x ∷ l

abbrev pub head : List ℕ → Option ℕ
head [] = none
head (x ∷ l) = some x

skip_passed-Holds :
    (fuel a : ℕ) (l : List ℕ) (s : StreamDecode)
    → Holds s l
    → All (λ x. x < 2 ^ 24) l
    → length l ≤ fuel
    → Holds (skip_passed fuel a s) (from_on a l)
unfolding skip_passed
skip_passed-Holds zero a [] s h u f = h
skip_passed-Holds zero a (x ∷ l) s h u f = absurd (omega arith)
skip_passed-Holds (suc fuel) a [] s h u f = rw (h, skip_passed) h
skip_passed-Holds (suc fuel) a (x ∷ l) s h u f =
    let small : x % 2 ^ 32 ≡ x = omega (arith, u.0) in
    elim (Bool-cases (ltb x a)) [
      | inl below ↦
          rw (h.0, skip_passed, small, below)
            (skip_passed-Holds fuel a l (skip_one s) h.1 u.1 (omega arith))
      | inr from ↦ rw (h.0, skip_passed, small, from) h
    ]

from_on-range : (a : ℕ) (l : List ℕ) → All (λ x. x < 2 ^ 24) l → All (λ x. x < 2 ^ 24) (from_on a l)
from_on-range a [] h = tt
from_on-range a (x ∷ l) h = ground (arith, from_on-range a l h.1, h.0)

shown :
    (l : List ℕ) (s : StreamDecode)
    → Holds s l
    → All (λ x. x < 2 ^ 24) l
    → ◌≡◌ {A = Option ℕ}
        (elim (peek s) [ none ↦ none | some value ↦ some (value % 2 ^ 32) ])
        (head l)
shown [] s h u = rw h refl
shown (x ∷ l) s h u = rw h.0 (ap some (omega (arith, u.0)))

-- Iterators that hold what the files hold.
abbrev pub Carries : List (ℕ × StreamDecode) → Files → Type 0
Carries [] [] = Unit {0}
Carries ((id, s) ∷ iterators) ((id', l) ∷ files) = (id ≡ id') × Holds s l × Carries iterators files
Carries [] (f ∷ files) = ⊥
Carries (i ∷ iterators) [] = ⊥

-- The trigrams of each file are in range, and rise.
abbrev pub Trigrams : List ℕ → Type 0
Trigrams l = All (λ x. x < 2 ^ 24) l × Sorted l

abbrev pub AllTrigrams : Files → Type 0
AllTrigrams files = All (λ (f : ℕ × List ℕ). Trigrams f.1) files

abbrev pub trim : ℕ → Files → Files
trim a [] = []
trim a ((id, l) ∷ files) = (id, from_on a l) ∷ trim a files

-- What each file shows from `a` on.
abbrev pub shows : ℕ → Files → List (ℕ × Option ℕ)
shows a [] = []
shows a ((id, l) ∷ files) = (id, head (from_on a l)) ∷ shows a files

-- What the pass selects of what is shown.
abbrev pub choose : List (ℕ × Option ℕ) → Selection → Selection
choose [] s = s
choose ((id, item) ∷ items) s = choose items (select id item s)

pub select_all-choose :
    (a : ℕ) (iterators : List (ℕ × StreamDecode)) (files : Files) (s : Selection)
    → Carries iterators files
    → AllTrigrams files
    → ((select_all a iterators s).1 ≡ choose (shows a files) s)
      × Carries (select_all a iterators s).0 (trim a files)
unfolding select_all
select_all-choose a [] [] s c t = (refl, tt)
select_all-choose a [] (f ∷ files) s c t = absurd c
select_all-choose a (i ∷ iterators) [] s c t = absurd c
select_all-choose a ((id, input) ∷ iterators) ((id', l) ∷ files) s (e, h, c) t =
    let passed =
      skip_passed-Holds (suc (length input.bytes)) a l input h t.0.0 (Holds-length l input h) in
    let seen =
      shown (from_on a l) (skip_passed (suc (length input.bytes)) a input) passed
        (from_on-range a l t.0.0) in
    rw (seen, e)
      (let rest = select_all-choose a iterators files (select id' (head (from_on a l)) s) c t.1 in
        (rest.0, (refl, passed, rest.1)))

Sorted-from_on : (a : ℕ) (l : List ℕ) → Sorted l → Sorted (from_on a l)
Sorted-from_on a [] h = tt
Sorted-from_on a (x ∷ []) h = ground (arith, h)
Sorted-from_on a (x ∷ y ∷ l) h = elim (Bool-cases (ltb x a)) [
  | inl below ↦ rw below (Sorted-from_on a (y ∷ l) (h.1.1, h.1.2))
  | inr from ↦ rw from h
]

pub from_on-Trigrams : (a : ℕ) (l : List ℕ) → Trigrams l → Trigrams (from_on a l)
from_on-Trigrams a l h = (from_on-range a l h.0, Sorted-from_on a l h.1)
