-- ===== src/Journal/Threshold.antt =====
-- worker/journal.rs: query_min_of sends the values that inputs of enough weight hold.
use haunted_house.Common.{
  ℕ, zero, suc, ◌+◌, ◌%◌, ◌^◌, ◌≤◌, ◌≡◌, refl, ap, ◌∙◌, arith, List, [], ◌∷◌, some, Bool, true,
  false, ◌||◌, ◌&&◌, leb, ◌==◌, if◌then◌else◌, any, All, length, ◌⊎◌, inl, inr,
}
use haunted_house.Common.Int.{ℤ, as_usize}
use haunted_house.Journal.Nodes.{Inputs, skip_equal, skip_above, catch_up, hits, query_min_of}
use haunted_house.Journal.Union.{
  elem, Descends, total, some_on, HeadsBelow, HeadsUnder, max_peek-PeekCases, total-skip_equal,
  skip_equal-Descends, skip_equal-HeadsUnder, any-skip_equal, any-empty,
}
use haunted_house.Journal.Pass.{elem_above}

-- The weight of the inputs that hold the value.
abbrev pub weight_of : ℕ → Inputs → List ℕ → ℕ
weight_of x [] weights = 0
weight_of x (input ∷ inputs) [] = 0
weight_of x (input ∷ inputs) (w ∷ weights) =
    (if elem x input then w else 0) + weight_of x inputs weights

-- The highest value shown is above no input, so there is nothing to catch up with.
skip_above_none :
    (v : ℕ) (inputs : Inputs) → HeadsBelow v inputs → skip_above v inputs ≡ (inputs, 0)
unfolding skip_above
skip_above_none v [] b = refl
skip_above_none v ([] ∷ inputs) b = rw (skip_above_none v inputs b) refl
skip_above_none v ((item ∷ more) ∷ inputs) b =
    rw (skip_above_none v inputs b.1) (ground (arith, b.0))

pub catch_up_none :
    (rounds v : ℕ) (inputs : Inputs) → HeadsBelow v inputs → catch_up rounds v inputs ≡ inputs
unfolding catch_up
catch_up_none zero v inputs b = refl
catch_up_none (suc rounds) v inputs b = rw (skip_above_none v inputs b) refl

pub hits-weight_of :
    (v : ℕ) (inputs : Inputs) (weights : List ℕ)
    → All Descends inputs
    → HeadsBelow v inputs
    → length inputs ≡ length weights
    → hits v inputs weights ≡ some (weight_of v inputs weights % 2 ^ 64)
unfolding hits
hits-weight_of v [] weights d b h = refl
hits-weight_of v (input ∷ inputs) [] d b h = absurd (omega arith)
hits-weight_of v ([] ∷ inputs) (w ∷ weights) d b h =
    hits-weight_of v inputs weights d.1 b (omega arith) ∙ ap some (omega arith)
hits-weight_of v ((item ∷ more) ∷ inputs) (w ∷ weights) d b h =
    rw (hits-weight_of v inputs weights d.1 b.1 (omega arith))
      (ground (arith, elem_above item v more d.0, b.0))

pub length-skip_equal : (v : ℕ) (inputs : Inputs) → length (skip_equal v inputs) ≡ length inputs
unfolding skip_equal
length-skip_equal v [] = refl
length-skip_equal v ([] ∷ inputs) = omega (arith, length-skip_equal v inputs)
length-skip_equal v ((item ∷ more) ∷ inputs) = omega (arith, length-skip_equal v inputs)

weight_of-skip_equal :
    (v x : ℕ) (inputs : Inputs) (weights : List ℕ)
    → (x ≡ v → ⊥)
    → weight_of x (skip_equal v inputs) weights ≡ weight_of x inputs weights
unfolding skip_equal
weight_of-skip_equal v x [] weights other = refl
weight_of-skip_equal v x ([] ∷ inputs) [] other = refl
weight_of-skip_equal v x ((item ∷ more) ∷ inputs) [] other = refl
weight_of-skip_equal v x ([] ∷ inputs) (w ∷ weights) other =
    omega (arith, weight_of-skip_equal v x inputs weights other)
weight_of-skip_equal v x ((item ∷ more) ∷ inputs) (w ∷ weights) other =
    ground (arith, weight_of-skip_equal v x inputs weights other)

any-HeadsUnder :
    (v : ℕ) (inputs : Inputs)
    → All Descends inputs
    → HeadsUnder v inputs
    → any (elem v) inputs ≡ false
any-HeadsUnder v [] d u = refl
any-HeadsUnder v ([] ∷ inputs) d u = any-HeadsUnder v inputs d.1 u
any-HeadsUnder v ((item ∷ more) ∷ inputs) d u =
    ground (arith, any-HeadsUnder v inputs d.1 u.1, elem_above item v more d.0, u.0)

some_on-any : (v : ℕ) (inputs : Inputs) → some_on v inputs ≡ true → any (elem v) inputs ≡ true
some_on-any v [] h = cc
some_on-any v ([] ∷ inputs) h = some_on-any v inputs h
some_on-any v ((item ∷ more) ∷ inputs) h = ground (arith, some_on-any v inputs)

-- What query_min_of promises of a value.
abbrev enough : ℤ → ℕ → Inputs → List ℕ → Bool
enough count x inputs weights =
    any (elem x) inputs && leb (as_usize count) (weight_of x inputs weights % 2 ^ 64)

same_or_not : (x v : ℕ) → (x ≡ v) ⊎ (x ≡ v → ⊥)
same_or_not x v = ground arith

elem-if :
    (x v : ℕ) (b : Bool) (rest : List ℕ)
    → elem x (if b then v ∷ rest else rest) ≡ ((x == v && b) || elem x rest)
elem-if x v true rest = ground arith
elem-if x v false rest = ground arith

query_min_of_step :
    (x v : ℕ) (count : ℤ) (inputs : Inputs) (weights rest : List ℕ)
    → All Descends inputs
    → HeadsBelow v inputs
    → some_on v inputs ≡ true
    → elem x rest ≡ enough count x (skip_equal v inputs) weights
    → elem x (if leb (as_usize count) (weight_of v inputs weights % 2 ^ 64) then v ∷ rest else rest)
      ≡ enough count x inputs weights
query_min_of_step x v count inputs weights rest d below on same =
    elem-if x v (leb (as_usize count) (weight_of v inputs weights % 2 ^ 64)) rest
    ∙ rw same (elim (same_or_not x v) [
      | inl e ↦
          rw
            (
              e,
              some_on-any v inputs on,
              any-HeadsUnder v (skip_equal v inputs) (skip_equal-Descends v inputs d)
                  (skip_equal-HeadsUnder v inputs d below),
            )
            (ground arith)
      | inr other ↦
          rw (weight_of-skip_equal v x inputs weights other, any-skip_equal v x inputs)
            (ground arith)
    ])

-- query_min_of sends exactly the values that some input holds and for which the weights of the
-- inputs that hold them add up, modulo 2 ^ 64 as a usize does, to at least the count (read as an
-- unsigned number, so a negative count is one of at least 2 ^ 63), if each input falls strictly, each has a weight, and the reader stays for as many
-- rounds as there are values in the inputs.
pub query_min_of-elem :
    (rounds : ℕ) (count : ℤ) (inputs : Inputs) (weights : List ℕ) (x : ℕ)
    → All Descends inputs
    → length inputs ≡ length weights
    → total inputs ≤ rounds
    → elem x (query_min_of rounds count inputs weights)
      ≡ (any (elem x) inputs && leb (as_usize count) (weight_of x inputs weights % 2 ^ 64))
unfolding query_min_of
query_min_of-elem zero count inputs weights x d l h = ground (arith, any-empty x inputs)
query_min_of-elem (suc rounds) count inputs weights x d l h = elim (max_peek-PeekCases inputs) [
  | inl (e, t) ↦ rw (e, query_min_of) (ground (arith, any-empty x inputs))
  | inr (v, e, below, on) ↦
      rw
        (
          e,
          query_min_of,
          catch_up_none (suc rounds) v inputs below,
          hits-weight_of v inputs weights d below l,
          catch_up_none (suc rounds) v inputs below,
        )
        (query_min_of_step x v count inputs weights
          (query_min_of rounds count (skip_equal v inputs) weights) d below on
          (query_min_of-elem rounds count (skip_equal v inputs) weights x
            (skip_equal-Descends v inputs d) (length-skip_equal v inputs ∙ l)
            (omega (arith, total-skip_equal v inputs on))))
]
