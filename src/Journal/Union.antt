-- ===== src/Journal/Union.antt =====
-- worker/journal.rs: query_or sends the union of its inputs, from high to low.
use haunted_house.Common.{
  ℕ, zero, suc, ◌+◌, ◌≤◌, ◌<◌, ◌≡◌, refl, sym, ◌∙◌, arith, List, [], ◌∷◌, none, some, Bool, true,
  false, ◌||◌, ◌&&◌, ◌==◌, max, any, length, All, ◌⊎◌, inl, inr,
}
use haunted_house.Encoding.Sequence.{Falling}
use haunted_house.Journal.Nodes.{Inputs, max_peek, skip_equal, query_or}

abbrev pub elem : ℕ → List ℕ → Bool
elem x [] = false
elem x (y ∷ ys) = x == y || elem x ys

-- Strictly from high to low.
abbrev pub Descends : List ℕ → Type 0
Descends [] = Unit {0}
Descends (x ∷ l) = Falling x l

abbrev pub total : Inputs → ℕ
total [] = 0
total (input ∷ inputs) = length input + total inputs

-- Some input is on the value; no input is on a higher one.
abbrev pub some_on : ℕ → Inputs → Bool
some_on value [] = false
some_on value ([] ∷ inputs) = some_on value inputs
some_on value ((item ∷ more) ∷ inputs) = item == value || some_on value inputs

abbrev pub HeadsBelow : ℕ → Inputs → Type 0
HeadsBelow value [] = Unit {0}
HeadsBelow value ([] ∷ inputs) = HeadsBelow value inputs
HeadsBelow value ((item ∷ more) ∷ inputs) = (item ≤ value) × HeadsBelow value inputs

HeadsBelow-mono : (v w : ℕ) (inputs : Inputs) → v ≤ w → HeadsBelow v inputs → HeadsBelow w inputs
HeadsBelow-mono v w [] h b = tt
HeadsBelow-mono v w ([] ∷ inputs) h b = HeadsBelow-mono v w inputs h b
HeadsBelow-mono v w ((item ∷ more) ∷ inputs) h b = (omega arith, HeadsBelow-mono v w inputs h b.1)

-- max_peek with a candidate gives a value that is the candidate or shown by an input.
max_peek-some :
    (inputs : Inputs) (c : ℕ)
    → (v : ℕ) × (max_peek (some c) inputs ≡ some v)
      × (c ≤ v)
      × HeadsBelow v inputs
      × ((c == v || some_on v inputs) ≡ true)
unfolding max_peek
max_peek-some [] c = (c, refl, omega arith, tt, ground arith)
max_peek-some ([] ∷ inputs) c = max_peek-some inputs c
max_peek-some ((item ∷ more) ∷ inputs) c =
    let (v, e, above, below, on) = max_peek-some inputs (max c item) in
    (v, e, omega arith, (omega arith, below), ground arith)

abbrev PeekCases : Inputs → Type 0
PeekCases inputs =
    ((max_peek none inputs ≡ none) × (total inputs ≡ 0))
    ⊎ ((v : ℕ) × (max_peek none inputs ≡ some v) × HeadsBelow v inputs × (some_on v inputs ≡ true))

pub max_peek-PeekCases : (inputs : Inputs) → PeekCases inputs
unfolding max_peek
max_peek-PeekCases [] = inl (refl, refl)
max_peek-PeekCases ([] ∷ inputs) = elim (max_peek-PeekCases inputs) [
  | inl (e, t) ↦ inl (e, omega arith)
  | inr (v, e, below, on) ↦ inr (v, e, below, on)
]
max_peek-PeekCases ((item ∷ more) ∷ inputs) =
    let (v, e, above, below, on) = max_peek-some inputs item in inr (v, e, (above, below), on)

total-skip_equal-le : (v : ℕ) (inputs : Inputs) → total (skip_equal v inputs) ≤ total inputs
unfolding skip_equal
total-skip_equal-le v [] = omega arith
total-skip_equal-le v ([] ∷ inputs) = omega (arith, total-skip_equal-le v inputs)
total-skip_equal-le v ((item ∷ more) ∷ inputs) = ground (arith, total-skip_equal-le v inputs)

pub total-skip_equal :
    (v : ℕ) (inputs : Inputs) → some_on v inputs ≡ true → total (skip_equal v inputs) < total inputs
unfolding skip_equal
total-skip_equal v [] h = cc
total-skip_equal v ([] ∷ inputs) h = omega (arith, total-skip_equal v inputs h)
total-skip_equal v ((item ∷ more) ∷ inputs) h =
    ground (arith, total-skip_equal v inputs, total-skip_equal-le v inputs)

pub any-skip_equal :
    (v x : ℕ) (inputs : Inputs)
    → any (elem x) inputs ≡ ((x == v && some_on v inputs) || any (elem x) (skip_equal v inputs))
unfolding skip_equal
any-skip_equal v x [] = ground arith
any-skip_equal v x ([] ∷ inputs) = any-skip_equal v x inputs
any-skip_equal v x ((item ∷ more) ∷ inputs) = ground (arith, any-skip_equal v x inputs)

pub any-empty : (x : ℕ) (inputs : Inputs) → total inputs ≡ 0 → any (elem x) inputs ≡ false
any-empty x [] h = refl
any-empty x ([] ∷ inputs) h = any-empty x inputs (omega arith)
any-empty x ((item ∷ more) ∷ inputs) h = absurd (omega arith)

-- query_or sends exactly the values that some input holds, when the reader stays for as many rounds
-- as there are values in the inputs.
pub query_or-elem :
    (rounds : ℕ) (inputs : Inputs) (x : ℕ)
    → total inputs ≤ rounds
    → elem x (query_or rounds inputs) ≡ any (elem x) inputs
unfolding query_or
query_or-elem zero inputs x h = sym (any-empty x inputs (omega arith))
query_or-elem (suc rounds) inputs x h = elim (max_peek-PeekCases inputs) [
  | inl (e, t) ↦ rw (e, query_or) (sym (any-empty x inputs t))
  | inr (v, e, below, on) ↦
      rw (e, query_or)
        (rw
          (query_or-elem rounds (skip_equal v inputs) x
            (omega (arith, total-skip_equal v inputs on)))
          (sym (any-skip_equal v x inputs ∙ ground arith)))
]

-- No input shows the value or a higher one.
abbrev pub HeadsUnder : ℕ → Inputs → Type 0
HeadsUnder value [] = Unit {0}
HeadsUnder value ([] ∷ inputs) = HeadsUnder value inputs
HeadsUnder value ((item ∷ more) ∷ inputs) = (item < value) × HeadsUnder value inputs

pub skip_equal-Descends :
    (v : ℕ) (inputs : Inputs) → All Descends inputs → All Descends (skip_equal v inputs)
unfolding skip_equal
skip_equal-Descends v [] d = tt
skip_equal-Descends v ([] ∷ inputs) d = (tt, skip_equal-Descends v inputs d.1)
skip_equal-Descends v ((item ∷ []) ∷ inputs) d = ground (arith, skip_equal-Descends v inputs d.1)
skip_equal-Descends v ((item ∷ next ∷ more) ∷ inputs) d =
    ground (arith, skip_equal-Descends v inputs d.1)

pub skip_equal-HeadsUnder :
    (v : ℕ) (inputs : Inputs)
    → All Descends inputs
    → HeadsBelow v inputs
    → HeadsUnder v (skip_equal v inputs)
unfolding skip_equal
skip_equal-HeadsUnder v [] d b = tt
skip_equal-HeadsUnder v ([] ∷ inputs) d b = skip_equal-HeadsUnder v inputs d.1 b
skip_equal-HeadsUnder v ((item ∷ []) ∷ inputs) d b =
    ground (arith, skip_equal-HeadsUnder v inputs d.1 b.1)
skip_equal-HeadsUnder v ((item ∷ next ∷ more) ∷ inputs) d b =
    ground (arith, skip_equal-HeadsUnder v inputs d.1 b.1)

some_on_under : (v w : ℕ) (inputs : Inputs) → HeadsUnder w inputs → some_on v inputs ≡ true → v < w
some_on_under v w [] u h = cc
some_on_under v w ([] ∷ inputs) u h = some_on_under v w inputs u h
some_on_under v w ((item ∷ more) ∷ inputs) u h = ground (arith, some_on_under v w inputs u.1)

query_or-Falling :
    (rounds : ℕ) (inputs : Inputs) (w : ℕ)
    → All Descends inputs
    → HeadsUnder w inputs
    → Falling w (query_or rounds inputs)
unfolding query_or
query_or-Falling zero inputs w d u = tt
query_or-Falling (suc rounds) inputs w d u = elim (max_peek-PeekCases inputs) [
  | inl (e, t) ↦ rw (e, query_or) tt
  | inr (v, e, below, on) ↦
      rw (e, query_or)
        (
          some_on_under v w inputs u on,
          query_or-Falling rounds (skip_equal v inputs) v (skip_equal-Descends v inputs d)
              (skip_equal-HeadsUnder v inputs d below),
        )
]

-- What query_or sends falls strictly, so it holds no value twice, if each input falls strictly,
-- however early the reader leaves.
pub query_or-Descends :
    (rounds : ℕ) (inputs : Inputs) → All Descends inputs → Descends (query_or rounds inputs)
unfolding query_or
query_or-Descends zero inputs d = tt
query_or-Descends (suc rounds) inputs d = elim (max_peek-PeekCases inputs) [
  | inl (e, t) ↦ rw (e, query_or) tt
  | inr (v, e, below, on) ↦
      rw (e, query_or)
        (query_or-Falling rounds (skip_equal v inputs) v (skip_equal-Descends v inputs d)
          (skip_equal-HeadsUnder v inputs d below))
]
