-- ===== src/Journal/Collected.antt =====
-- worker/journal.rs: each call of IdCollector::next yields the next trigram of the batch and the
-- files that hold it.
use haunted_house.Common.{
  ℕ, ◌+◌, ◌-◌, ◌^◌, ◌≤◌, ◌<◌, ◌≡◌, refl, sym, ◌∙◌, arith, List, [], ◌∷◌, Option, none, some, true,
  length, All, ltb, ◌==◌, if◌then◌else◌, ◌⊎◌, inl, inr, Bool-cases,
}
use native.Mathlib.Decide.{dec_lt}
use haunted_house.Encoding.{StreamDecode}
use haunted_house.Journal.Union.{elem}
use haunted_house.Journal.Collector.{IdCollector, Selection, select_all, retain, collector_next}
use haunted_house.Journal.Merge.{
  Files, from_on, head, shows, choose, Carries, AllTrigrams, trim, select_all-choose,
}
use haunted_house.Journal.Choose.{
  holders, holders-trim, heads_on, empties, choose-hits, choose-remove, AllFrom, choose-AllFrom,
  choose-found, heads_on-holders, holders_below,
}
use haunted_house.Journal.Left.{
  retain_files, retain-Carries, DropOk, holders-retain, empties-DropOk, BatchOk, BatchOk-retain,
}

-- What a call of next promises, of the files that its iterators carry: either no file holds a
-- trigram that is still acceptable, or the least such trigram is returned, with the ids of the files
-- that hold it, and the collector goes on behind it.
abbrev pub Yields : ℕ → Files → IdCollector × List ℕ × Option ℕ → Type 0
Yields a files (c, hits, none) = (x : ℕ) → a ≤ x → holders x files ≡ []
Yields a files (c, hits, some t) =
    ((a ≤ t) × (hits ≡ holders t files) × (0 < length hits))
    × ((x : ℕ) → a ≤ x → x < t → holders x files ≡ [])
    × (c.acceptable ≡ t + 1)
    × ((files' : Files) × Carries c.iterators files'
        × BatchOk files'
        × ((x : ℕ) → t < x → holders x files' ≡ holders x files))

abbrev start : List ℕ → Selection
start hits = record { selected_trigram = 2 ^ 32 - 1; hits = hits; remove = [] }

pub holders-range :
    (t : ℕ) (files : Files) → AllTrigrams files → 0 < length (holders t files) → t < 2 ^ 24
holders-range t [] h p = absurd (omega arith)
holders-range t ((id, l) ∷ files) h p = elim (Bool-cases (elem t l)) [
  | inl here ↦ elem-range t l h.0.0 here
  | inr absent ↦ holders-range t files h.1 (rw absent at p)
]
  where
    elem-range : (t : ℕ) (l : List ℕ) → All (λ x. x < 2 ^ 24) l → elem t l ≡ true → t < 2 ^ 24
    elem-range t [] h e = cc
    elem-range t (x ∷ l) h e = ground (arith, elem-range t l h.1, h.0)

empty_or : {A : Type 0} (l : List A) → (l ≡ []) ⊎ (0 < length l)
empty_or [] = inl refl
empty_or (x ∷ l) = inr (omega arith)

holders_out : (x : ℕ) (files : Files) → AllTrigrams files → 2 ^ 24 ≤ x → holders x files ≡ []
holders_out x files h le = elim (empty_or (holders x files)) [
  | inl e ↦ e
  | inr p ↦ absurd (omega (arith, holders-range x files h p))
]

from_on-head : (a v : ℕ) (l : List ℕ) → head (from_on a l) ≡ some v → a ≤ v
from_on-head a v [] e = cc
from_on-head a v (x ∷ l) e = elim (Bool-cases (ltb x a)) [
  | inl below ↦ from_on-head a v l (rw below at e)
  | inr from ↦ let same : x ≡ v = cc (rw from at e) in ground arith
]

heads_on-from : (a t : ℕ) (files : Files) → 0 < length (heads_on t (shows a files)) → a ≤ t
heads_on-from a t [] p = absurd (omega arith)
heads_on-from a t ((id, l) ∷ files) p =
    push (head (from_on a l)) (λ v e. from_on-head a v l e) p (heads_on-from a t files)
  where
    push :
        (item : Option ℕ)
        → ((v : ℕ) → item ≡ some v → a ≤ v)
        → 0 < length (heads_on t ((id, item) ∷ shows a files))
        → (0 < length (heads_on t (shows a files)) → a ≤ t)
        → a ≤ t
    push none from p rest = rest p
    push (some v) from p rest = elim (Bool-cases (v == t)) [
      | inl here ↦ let same : v ≡ t = ground arith in omega (arith, from v refl)
      | inr there ↦ rest (rw there at p)
    ]

Yields-select :
    (a : ℕ) (files : Files) (hits : List ℕ) (iterators : List (ℕ × StreamDecode)) (s : Selection)
    → s ≡ choose (shows a files) (start hits)
    → Carries iterators (trim a files)
    → BatchOk files
    → Yields a files (
        let kept = retain s.remove iterators in
        if s.selected_trigram == 2 ^ 32 - 1
        then (record { acceptable = a; iterators = kept }, s.hits, none)
        else (
          record { acceptable = s.selected_trigram + 1; iterators = kept },
          s.hits,
          some s.selected_trigram,
        ))
Yields-select a files hits iterators s e carried ok =
    let items = shows a files in
    let least : AllFrom s.selected_trigram items = rw e (choose-AllFrom items (start hits)) in
    elim (Bool-cases (s.selected_trigram == 2 ^ 32 - 1)) [
      | inl nothing ↦ rw nothing (λ x le. elim (dec_lt x (2 ^ 24)) [
        | yes low ↦ holders_below a s.selected_trigram x files ok.0 least le (ground arith)
        | no high ↦ holders_out x files ok.0 (omega arith)
      ])
      | inr something ↦ rw something (
          let t = s.selected_trigram in
          let found : 0 < length (heads_on t items) = rw e (elim (choose-found items (start hits)) [
            | inl same ↦ let top : t ≡ 2 ^ 32 - 1 = rw e same in cc (rw top at something)
            | inr shown ↦ shown
          ]) in
          let from = heads_on-from a t files found in
          let held = heads_on-holders a t files ok.0 least from in
          let gathered : s.hits ≡ heads_on t items =
            rw e (choose-hits items (start hits) ∙ rw (sym e, something) refl) in
          let removed : s.remove ≡ empties items = rw e (choose-remove items (start hits)) in
          let drop_ok : DropOk s.remove a files = rw removed (empties-DropOk a files ok.1) in
          (
            (from, gathered ∙ held, rw gathered found),
            λ x le lt. holders_below a t x files ok.0 least le lt,
            refl,
            (
              retain_files s.remove (trim a files),
              retain-Carries s.remove iterators (trim a files) carried,
              BatchOk-retain a s.remove files ok,
              λ x lt.
                  holders-retain s.remove a x files drop_ok ∙ holders-trim a x files (omega arith),
            ),
          ))
    ]

-- When the iterators of a collector hold what remains of the files of a batch, whose trigrams are in
-- range and rise and whose ids fall, a call of next gives no trigram exactly when no file holds one
-- that is still acceptable. Otherwise it gives the least such trigram, with the ids of the files that
-- hold it, and the iterators that are kept hold all greater trigrams.
pub collector_next-Yields :
    (c : IdCollector) (files : Files) (hits : List ℕ)
    → Carries c.iterators files
    → BatchOk files
    → Yields c.acceptable files (collector_next c hits)
unfolding collector_next
collector_next-Yields c files hits carries (trigrams, ordered) =
    let a = c.acceptable in
    let (chosen, carried) = select_all-choose a c.iterators files (start hits) carries trigrams in
    Yields-select a files hits (select_all a c.iterators (start hits)).0
      (select_all a c.iterators (start hits)).1 chosen carried (trigrams, ordered)
