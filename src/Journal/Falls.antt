-- ===== src/Journal/Falls.antt =====
-- worker/journal.rs: what the tasks send falls strictly.
use haunted_house.Common.{
  ℕ, zero, suc, ◌≤◌, ◌<◌, ◌≡◌, arith, List, [], ◌∷◌, Bool, true, false, if◌then◌else◌, any, All,
  length, ◌∙◌, inl, inr,
}
use haunted_house.Common.Int.{ℤ}
use haunted_house.Encoding.Sequence.{Falling}
use haunted_house.Journal.Nodes.{
  Inputs, skip_equal, Caught, ended, on_candidate, passed, closed, and_catch_up, query_and,
  query_min_of,
}
use haunted_house.Journal.Union.{
  elem, Descends, total, HeadsBelow, HeadsUnder, total-skip_equal, skip_equal-Descends,
  skip_equal-HeadsUnder, max_peek-PeekCases,
}
use haunted_house.Journal.Pass.{HeadsFrom, min_peek_cases, some_on_upto, AllOn, elem_above}
use haunted_house.Journal.Meet.{
  CaughtOk, after_catch, and_catch_up-CaughtOk, AllOn-some_on, query_and-elem,
}
use haunted_house.Journal.Threshold.{
  catch_up_none, hits-weight_of, length-skip_equal, query_min_of-elem,
}

Falling-below :
    (w : ℕ) (l : List ℕ) → Descends l → ((y : ℕ) → elem y l ≡ true → y < w) → Falling w l
Falling-below w [] d h = tt
Falling-below w (x ∷ l) d h = (h x (ground arith), d)

elem-HeadsUnder :
    (v y : ℕ) (inputs : Inputs)
    → All Descends inputs
    → HeadsUnder v inputs
    → any (elem y) inputs ≡ true
    → y < v
elem-HeadsUnder v y [] d u h = cc
elem-HeadsUnder v y ([] ∷ inputs) d u h = elem-HeadsUnder v y inputs d.1 u h
elem-HeadsUnder v y ((item ∷ more) ∷ inputs) d u h =
    ground (arith, elem_above item y more d.0, u.0, elem-HeadsUnder v y inputs d.1 u.1)

AllOn-HeadsBelow : (c : ℕ) (inputs : Inputs) → AllOn c inputs → HeadsBelow c inputs
AllOn-HeadsBelow c [] on = tt
AllOn-HeadsBelow c ([] ∷ inputs) on = absurd on
AllOn-HeadsBelow c ((item ∷ more) ∷ inputs) on =
    (omega (arith, on.0), AllOn-HeadsBelow c inputs on.1)

after_catch-Descends :
    (rounds c : ℕ) (inputs : Inputs) (caught : Caught)
    → HeadsFrom c inputs
    → total inputs ≤ suc rounds
    → CaughtOk c inputs caught
    → ((is : Inputs) → All Descends is → total is ≤ rounds → Descends (query_and rounds is))
    → Descends (after_catch rounds c caught)
after_catch-Descends rounds c inputs ended from h ok rest = tt
after_catch-Descends rounds c inputs (on_candidate is) from h (same, (on, upto), size, falls) rest =
    let held = AllOn-some_on c is on upto in
    let small : total (skip_equal c is) ≤ rounds = omega (arith, total-skip_equal c is held) in
    let falls' = skip_equal-Descends c is falls in
    let under = skip_equal-HeadsUnder c is falls (AllOn-HeadsBelow c is on) in
    Falling-below c (query_and rounds (skip_equal c is)) (rest (skip_equal c is) falls' small)
      (λ y e.
        elem-HeadsUnder c y (skip_equal c is) falls' under
          (ground (arith, query_and-elem rounds (skip_equal c is) y falls' small)))
after_catch-Descends rounds c inputs (passed is) from h (same, less, size, falls) rest =
    rest is falls (omega (arith, less from))
after_catch-Descends rounds c inputs closed from h ok rest = tt

-- What query_and sends falls strictly, if each input falls strictly and the reader stays for as many
-- rounds as there are values in the inputs.
pub query_and-Descends :
    (rounds : ℕ) (inputs : Inputs)
    → All Descends inputs
    → total inputs ≤ rounds
    → Descends (query_and rounds inputs)
unfolding query_and
query_and-Descends zero inputs d h = tt
query_and-Descends (suc rounds) inputs d h = elim (min_peek_cases inputs) [
  | inl (e, none_hold) ↦ rw (e, query_and) tt
  | inr (v, e, from, on) ↦
      rw (e, query_and)
        (after_catch-Descends rounds v inputs (and_catch_up (suc rounds) v inputs) from h
          (and_catch_up-CaughtOk (suc rounds) v inputs d (some_on_upto v inputs on) h)
          (λ is falls small. query_and-Descends rounds is falls small))
]

if-Descends :
    (b : Bool) (v : ℕ) (rest : List ℕ)
    → Falling v rest
    → Descends rest
    → Descends (if b then v ∷ rest else rest)
if-Descends true v rest f d = f
if-Descends false v rest f d = d

-- What query_min_of sends falls strictly, if each input falls strictly and has a weight, and the
-- reader stays for as many rounds as there are values in the inputs.
pub query_min_of-Descends :
    (rounds : ℕ) (count : ℤ) (inputs : Inputs) (weights : List ℕ)
    → All Descends inputs
    → length inputs ≡ length weights
    → total inputs ≤ rounds
    → Descends (query_min_of rounds count inputs weights)
unfolding query_min_of
query_min_of-Descends zero count inputs weights d l h = tt
query_min_of-Descends (suc rounds) count inputs weights d l h = elim (max_peek-PeekCases inputs) [
  | inl (e, t) ↦ rw (e, query_min_of) tt
  | inr (v, e, below, on) ↦
      let left = skip_equal v inputs in
      let falls = skip_equal-Descends v inputs d in
      let even = length-skip_equal v inputs ∙ l in
      let small : total left ≤ rounds = omega (arith, total-skip_equal v inputs on) in
      let rest = query_min_of-Descends rounds count left weights falls even small in
      rw
        (
          e,
          query_min_of,
          catch_up_none (suc rounds) v inputs below,
          hits-weight_of v inputs weights d below l,
          catch_up_none (suc rounds) v inputs below,
        )
        (if-Descends _ v (query_min_of rounds count left weights)
          (Falling-below v (query_min_of rounds count left weights) rest (λ y m.
            elem-HeadsUnder v y left falls (skip_equal-HeadsUnder v inputs d below)
              (ground (arith, query_min_of-elem rounds count left weights y falls even small))))
          rest)
]
