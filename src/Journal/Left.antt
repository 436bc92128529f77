-- ===== src/Journal/Left.antt =====
-- worker/journal.rs: the files that are left once those without a further trigram are removed.
use haunted_house.Common.{
  ℕ, ◌<◌, ◌≡◌, refl, arith, List, [], ◌∷◌, Option, none, some, true, false, All, if◌then◌else◌, inl,
  inr, Bool-cases,
}
use haunted_house.Encoding.{StreamDecode}
use haunted_house.Journal.Union.{elem}
use haunted_house.Journal.Collector.{retain}
use haunted_house.Journal.Merge.{
  Files, from_on, head, shows, Carries, AllTrigrams, trim, from_on-Trigrams,
}
use haunted_house.Journal.Choose.{holders, empties}

abbrev pub Under : ℕ → Files → Type 0
Under id files = All (λ (f : ℕ × List ℕ). f.0 < id) files

-- The ids fall strictly.
abbrev pub Ordered : Files → Type 0
Ordered [] = Unit {0}
Ordered ((id, l) ∷ files) = Under id files × Ordered files

abbrev pub retain_files : List ℕ → Files → Files
retain_files remove [] = []
retain_files remove ((id, l) ∷ files) =
    if elem id remove then retain_files remove files else (id, l) ∷ retain_files remove files

pub retain-Carries :
    (remove : List ℕ) (iterators : List (ℕ × StreamDecode)) (files : Files)
    → Carries iterators files
    → Carries (retain remove iterators) (retain_files remove files)
unfolding retain
retain-Carries remove [] [] c = tt
retain-Carries remove [] (f ∷ files) c = absurd c
retain-Carries remove (i ∷ iterators) [] c = absurd c
retain-Carries remove ((id, s) ∷ iterators) ((id', l) ∷ files) (e, h, c) =
    elim (Bool-cases (elem id' remove)) [
      | inl gone ↦ rw (e, gone) (retain-Carries remove iterators files c)
      | inr kept ↦ rw (e, kept) (refl, h, retain-Carries remove iterators files c)
    ]

-- Only files without a trigram from `a` on are removed.
pub DropOk : List ℕ → ℕ → Files → Type 0
DropOk remove a files = All (λ (f : ℕ × List ℕ). elem f.0 remove ≡ true → from_on a f.1 ≡ []) files

pub holders-retain :
    (remove : List ℕ) (a x : ℕ) (files : Files)
    → DropOk remove a files
    → holders x (retain_files remove (trim a files)) ≡ holders x (trim a files)
unfolding DropOk
holders-retain remove a x [] d = refl
holders-retain remove a x ((id, l) ∷ files) d = elim (Bool-cases (elem id remove)) [
  | inl gone ↦ rw (gone, d.0 gone) (holders-retain remove a x files d.1)
  | inr kept ↦ rw (kept, holders-retain remove a x files d.1) refl
]

elem-empties : (x a : ℕ) (files : Files) → Under x files → elem x (empties (shows a files)) ≡ false
elem-empties x a [] u = refl
elem-empties x a ((id, l) ∷ files) u =
    push x id (head (from_on a l)) (shows a files) u.0 (elem-empties x a files u.1)
  where
    push :
        (x id : ℕ) (item : Option ℕ) (items : List (ℕ × Option ℕ))
        → id < x
        → elem x (empties items) ≡ false
        → elem x (empties ((id, item) ∷ items)) ≡ false
    push x id none items h e = ground arith
    push x id (some v) items h e = e

DropOk-cons :
    (id a : ℕ) (remove : List ℕ) (files : Files)
    → Under id files
    → DropOk remove a files
    → DropOk (id ∷ remove) a files
unfolding DropOk
DropOk-cons id a remove [] u d = tt
DropOk-cons id a remove ((id', l) ∷ files) u d =
    (λ h. d.0 (ground arith), DropOk-cons id a remove files u.1 d.1)

head-nil : (l : List ℕ) → head l ≡ none → l ≡ []
head-nil [] e = refl
head-nil (x ∷ l) e = cc

pub empties-DropOk :
    (a : ℕ) (files : Files) → Ordered files → DropOk (empties (shows a files)) a files
unfolding DropOk
empties-DropOk a [] o = tt
empties-DropOk a ((id, l) ∷ files) o =
    push (head (from_on a l)) refl (elem-empties id a files o.0) (empties-DropOk a files o.1)
      (DropOk-cons id a (empties (shows a files)) files o.0 (empties-DropOk a files o.1))
  where
    push :
        (item : Option ℕ)
        → head (from_on a l) ≡ item
        → elem id (empties (shows a files)) ≡ false
        → DropOk (empties (shows a files)) a files
        → DropOk (id ∷ empties (shows a files)) a files
        → DropOk (empties ((id, item) ∷ shows a files)) a ((id, l) ∷ files)
    push none e absent d d' = (λ h. head-nil (from_on a l) e, d')
    push (some v) e absent d d' = (λ h. cc, d)

-- What is left of the files keeps the invariants.
abbrev pub BatchOk : Files → Type 0
BatchOk files = AllTrigrams files × Ordered files

Under-retain :
    (id a : ℕ) (remove : List ℕ) (files : Files)
    → Under id files
    → Under id (retain_files remove (trim a files))
Under-retain id a remove [] u = tt
Under-retain id a remove ((id', l) ∷ files) u = elim (Bool-cases (elem id' remove)) [
  | inl gone ↦ rw gone (Under-retain id a remove files u.1)
  | inr kept ↦ rw kept (u.0, Under-retain id a remove files u.1)
]

pub BatchOk-retain :
    (a : ℕ) (remove : List ℕ) (files : Files)
    → BatchOk files
    → BatchOk (retain_files remove (trim a files))
BatchOk-retain a remove [] b = (tt, tt)
BatchOk-retain a remove ((id, l) ∷ files) (t, o) =
    let rest = BatchOk-retain a remove files (t.1, o.1) in
    elim (Bool-cases (elem id remove)) [
      | inl gone ↦ rw gone rest
      | inr kept ↦
          rw kept ((from_on-Trigrams a l t.0, rest.0), (Under-retain id a remove files o.0, rest.1))
    ]
