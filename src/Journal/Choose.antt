-- ===== src/Journal/Choose.antt =====
-- worker/journal.rs: what a pass of IdCollector::next selects, on the files of a batch.
use haunted_house.Common.{
  ℕ, ◌≤◌, ◌<◌, ◌≡◌, refl, sym, ◌∙◌, arith, List, [], ◌∷◌, ◌++◌, append_assoc, append-nil, Option,
  none, some, true, false, length, ltb, ◌==◌, if◌then◌else◌, ◌⊎◌, inl, inr, Bool-cases,
}
use native.Mathlib.Decide.{dec_lt}
use haunted_house.Encoding.Stream.{Sorted}
use haunted_house.Encoding.Sequence.{Ascending}
use haunted_house.Journal.Union.{elem}
use haunted_house.Journal.Collector.{Selection, select}
use haunted_house.Journal.Merge.{Files, from_on, head, shows, choose, AllTrigrams, trim}

-- The ids of the files that hold the trigram, in order.
abbrev pub holders : ℕ → Files → List ℕ
holders x [] = []
holders x ((id, l) ∷ files) = if elem x l then id ∷ holders x files else holders x files

elem-from_on : (a x : ℕ) (l : List ℕ) → a ≤ x → elem x (from_on a l) ≡ elem x l
elem-from_on a x [] h = refl
elem-from_on a x (y ∷ l) h = ground (arith, elem-from_on a x l h)

pub holders-trim : (a x : ℕ) (files : Files) → a ≤ x → holders x (trim a files) ≡ holders x files
holders-trim a x [] h = refl
holders-trim a x ((id, l) ∷ files) h = rw (elem-from_on a x l h, holders-trim a x files h) refl

elem_below : (y x : ℕ) (l : List ℕ) → Ascending x l → y < x → elem y (x ∷ l) ≡ false
elem_below y x [] h lt = ground arith
elem_below y x (z ∷ l) h lt = ground (arith, elem_below y z l h.2, h.0)

Sorted-tail : (x : ℕ) (l : List ℕ) → Sorted (x ∷ l) → Sorted l
Sorted-tail x [] h = tt
Sorted-tail x (y ∷ l) h = (h.1.1, h.1.2)

-- Where the list shows nothing, or more than `x`, from `a` on, it holds no `x` from `a` on.
no_elem :
    (a x : ℕ) (l : List ℕ)
    → Sorted l
    → a ≤ x
    → ((v : ℕ) → head (from_on a l) ≡ some v → x < v)
    → elem x l ≡ false
no_elem a x [] s h k = refl
no_elem a x (y ∷ l) s h k = elim (Bool-cases (ltb y a)) [
  | inl below ↦
      let rest = no_elem a x l (Sorted-tail y l s) h (λ v e. k v (rw below e)) in
      ground (arith, rest)
  | inr from ↦ elem_below x y l s.1 (k y (rw from refl))
]

-- The ids that show `t`.
abbrev pub heads_on : ℕ → List (ℕ × Option ℕ) → List ℕ
heads_on t [] = []
heads_on t ((id, none) ∷ items) = heads_on t items
heads_on t ((id, some v) ∷ items) = if v == t then id ∷ heads_on t items else heads_on t items

-- The ids that show nothing.
abbrev pub empties : List (ℕ × Option ℕ) → List ℕ
empties [] = []
empties ((id, none) ∷ items) = id ∷ empties items
empties ((id, some v) ∷ items) = empties items

choose-le :
    (items : List (ℕ × Option ℕ)) (s : Selection)
    → (choose items s).selected_trigram ≤ s.selected_trigram
unfolding select
choose-le [] s = omega arith
choose-le ((id, none) ∷ items) s = choose-le items (select id none s)
choose-le ((id, some v) ∷ items) s = ground (arith, choose-le items (select id (some v) s))

select-none :
    (id : ℕ) (s : Selection) (t : ℕ) (more : List ℕ)
    → (if t == (select id none s).selected_trigram then (select id none s).hits else []) ++ more
      ≡ (if t == s.selected_trigram then s.hits else []) ++ more
unfolding select
select-none id s t more = refl

select_step :
    (id v : ℕ) (s : Selection) (t : ℕ) (more : List ℕ)
    → t ≤ (select id (some v) s).selected_trigram
    → (if t == (select id (some v) s).selected_trigram then (select id (some v) s).hits else [])
        ++ more
      ≡ (if t == s.selected_trigram then s.hits else []) ++ (if v == t then id ∷ more else more)
unfolding select
select_step id v s t more h = ground (arith, append_assoc s.hits (id ∷ []) more)

pub choose-hits :
    (items : List (ℕ × Option ℕ)) (s : Selection)
    → (choose items s).hits
      ≡ (if (choose items s).selected_trigram == s.selected_trigram then s.hits else [])
        ++ heads_on (choose items s).selected_trigram items
choose-hits [] s = ground (arith, append-nil s.hits)
choose-hits ((id, none) ∷ items) s =
    choose-hits items (select id none s)
    ∙ select-none id s (choose items (select id none s)).selected_trigram _
choose-hits ((id, some v) ∷ items) s =
    choose-hits items (select id (some v) s)
    ∙ select_step id v s (choose items (select id (some v) s)).selected_trigram
        (heads_on (choose items (select id (some v) s)).selected_trigram items)
        (choose-le items (select id (some v) s))

pub choose-remove :
    (items : List (ℕ × Option ℕ)) (s : Selection)
    → (choose items s).remove ≡ s.remove ++ empties items
unfolding select
choose-remove [] s = sym (append-nil s.remove)
choose-remove ((id, none) ∷ items) s = choose-remove items (select id none s) ∙ rw append_assoc refl
choose-remove ((id, some v) ∷ items) s = ground (arith, choose-remove items (select id (some v) s))

-- No file shows less than what is selected.
pub AllFrom : ℕ → List (ℕ × Option ℕ) → Type 0
AllFrom t [] = Unit {0}
AllFrom t ((id, none) ∷ items) = AllFrom t items
AllFrom t ((id, some v) ∷ items) = (t ≤ v) × AllFrom t items

pub choose-AllFrom :
    (items : List (ℕ × Option ℕ)) (s : Selection) → AllFrom (choose items s).selected_trigram items
unfolding AllFrom
choose-AllFrom [] s = tt
choose-AllFrom ((id, none) ∷ items) s = choose-AllFrom items (select id none s)
choose-AllFrom ((id, some v) ∷ items) s = (
  unfold select in ground (arith, choose-le items (select id (some v) s)),
  choose-AllFrom items (select id (some v) s),
)

-- What is selected is shown by a file, unless it is what was selected before.
pub choose-found :
    (items : List (ℕ × Option ℕ)) (s : Selection)
    → ((choose items s).selected_trigram ≡ s.selected_trigram)
      ⊎ (0 < length (heads_on (choose items s).selected_trigram items))
unfolding select
choose-found [] s = inl refl
choose-found ((id, none) ∷ items) s = choose-found items (select id none s)
choose-found ((id, some v) ∷ items) s = ground (arith, choose-found items (select id (some v) s))

first_elem : (l : List ℕ) (v : ℕ) → head l ≡ some v → elem v l ≡ true
first_elem [] v e = cc
first_elem (x ∷ l) v e = let same : x ≡ v = cc in ground arith

elem_shown :
    (a t v : ℕ) (l : List ℕ)
    → Sorted l
    → a ≤ t
    → head (from_on a l) ≡ some v
    → t ≤ v
    → elem t l ≡ (v == t)
elem_shown a t v l h le e f = elim (dec_lt t v) [
  | yes below ↦ no_elem a t l h le (λ w k. let same : v ≡ w = cc in omega arith) ∙ ground arith
  | no not_below ↦
      let same : v ≡ t = omega arith in
      sym (elem-from_on a t l le) ∙ rw same at (first_elem (from_on a l) v e) ∙ ground arith
]

AllFrom-head :
    (a t id : ℕ) (item : Option ℕ) (items : List (ℕ × Option ℕ))
    → AllFrom t ((id, item) ∷ items)
    → ((v : ℕ) → item ≡ some v → t ≤ v) × AllFrom t items
unfolding AllFrom
AllFrom-head a t id none items f = (λ v e. cc, f)
AllFrom-head a t id (some w) items f = (λ v e. let same : w ≡ v = cc in omega (arith, f.0), f.1)

heads_step :
    (a t id : ℕ) (l : List ℕ) (item : Option ℕ) (items : List (ℕ × Option ℕ))
    → Sorted l
    → a ≤ t
    → head (from_on a l) ≡ item
    → AllFrom t ((id, item) ∷ items)
    → (heads_on t ((id, item) ∷ items)
        ≡ (if elem t l then id ∷ heads_on t items else heads_on t items))
      × AllFrom t items
unfolding AllFrom
heads_step a t id l none items h le e f = (rw (no_elem a t l h le (λ v k. cc)) refl, f)
heads_step a t id l (some v) items h le e f = (rw (elem_shown a t v l h le e f.0) refl, f.1)

-- What the ids that show `t` are, where nothing less is shown: the files that hold it.
pub heads_on-holders :
    (a t : ℕ) (files : Files)
    → AllTrigrams files
    → AllFrom t (shows a files)
    → a ≤ t
    → heads_on t (shows a files) ≡ holders t files
unfolding AllFrom
heads_on-holders a t [] h f le = refl
heads_on-holders a t ((id, l) ∷ files) h f le =
    let (here, rest) = heads_step a t id l (head (from_on a l)) (shows a files) h.0.1 le refl f in
    here ∙ rw (heads_on-holders a t files h.1 rest le) refl

-- A file holds nothing from `a` on below what all files show, and nothing if none shows anything.
pub holders_below :
    (a t x : ℕ) (files : Files)
    → AllTrigrams files
    → AllFrom t (shows a files)
    → a ≤ x
    → x < t
    → holders x files ≡ []
unfolding AllFrom
holders_below a t x [] h f le lt = refl
holders_below a t x ((id, l) ∷ files) h f le lt =
    let (least, rest) = AllFrom-head a t id (head (from_on a l)) (shows a files) f in
    let absent = no_elem a x l h.0.1 le (λ v e. omega (arith, least v e)) in
    rw absent (holders_below a t x files h.1 rest le lt)
