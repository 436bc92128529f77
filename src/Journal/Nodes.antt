-- ===== src/Journal/Nodes.antt =====
-- worker/journal.rs: the tasks query_or, query_and and query_min_of.
-- An input is the list of the values that its channel will still deliver, the closing of the channel
-- being the end of the list; awaiting does not change what is delivered. The first argument of a task
-- bounds the rounds of each of its loops, which run while `output.is_connected()`: a reader that
-- goes away ends them. What a task sends after that reaches nobody and is not modelled.
use haunted_house.Common.{
  ℕ, zero, suc, ◌+◌, ◌%◌, ◌^◌, List, [], ◌∷◌, Option, none, some, ltb, leb, ◌==◌, if◌then◌else◌,
  min, max, drop,
}
use mathlib.Core.Option
use haunted_house.Common.Int.{ℤ, as_usize}

abbrev pub Inputs : Type 0
Inputs = List (List ℕ)

-- The highest value that an input shows, joined with the candidate so far.
unfoldable pub max_peek : Option ℕ → Inputs → Option ℕ
max_peek candidate [] = candidate
max_peek candidate ([] ∷ inputs) = max_peek candidate inputs
max_peek none ((item ∷ more) ∷ inputs) = max_peek (some item) inputs
max_peek (some candidate) ((item ∷ more) ∷ inputs) = max_peek (some (max candidate item)) inputs

-- Pop the inputs that are on the value.
unfoldable pub skip_equal : ℕ → Inputs → Inputs
skip_equal value [] = []
skip_equal value ([] ∷ inputs) = [] ∷ skip_equal value inputs
skip_equal value ((item ∷ more) ∷ inputs) =
    (if item == value then more else item ∷ more) ∷ skip_equal value inputs

unfoldable pub query_or : ℕ → Inputs → List ℕ
query_or zero inputs = []
query_or (suc rounds) inputs = elim (max_peek none inputs) [
  | none ↦ []
  | some value ↦ value ∷ query_or rounds (skip_equal value inputs)
]

-- The lowest value that an input shows; `none` also where an input has ended.
unfoldable pub min_peek : Option ℕ → Inputs → Option ℕ
min_peek candidate [] = candidate
min_peek candidate ([] ∷ inputs) = none
min_peek none ((item ∷ more) ∷ inputs) = min_peek (some item) inputs
min_peek (some candidate) ((item ∷ more) ∷ inputs) = min_peek (some (min item candidate)) inputs

pub record Pass : Type 0 where
  pub inputs : Inputs
  pub lower : ℕ
  pub higher : ℕ

-- One pass of query_and over its inputs, which skips what lies above the candidate; `none` where an
-- input has ended.
unfoldable pub and_pass : ℕ → Inputs → Option Pass
and_pass candidate [] = some (record { inputs = []; lower = 0; higher = 0 })
and_pass candidate ([] ∷ inputs) = none
and_pass candidate ((item ∷ more) ∷ inputs) = elim (and_pass candidate inputs) [
  | none ↦ none
  | some p ↦ some (
      if ltb item candidate
      then record { inputs = (item ∷ more) ∷ p.inputs; lower = p.lower + 1; higher = p.higher }
      else (if item == candidate
          then record { inputs = (item ∷ more) ∷ p.inputs; lower = p.lower; higher = p.higher }
          else record { inputs = more ∷ p.inputs; lower = p.lower; higher = p.higher + 1 }))
]

-- How the inner loop of query_and ends: an input has ended, all inputs are on the candidate, some
-- have passed it, or the output was closed meanwhile.
pub data Caught : Type 0 where
  ended : Caught
  on_candidate : Inputs → Caught
  passed : Inputs → Caught
  closed : Caught

unfoldable pub and_catch_up : ℕ → ℕ → Inputs → Caught
and_catch_up zero candidate inputs = closed
and_catch_up (suc rounds) candidate inputs = elim (and_pass candidate inputs) [
  | none ↦ ended
  | some p ↦
      let again = and_catch_up rounds candidate p.inputs in
      if ltb 0 p.higher
      then again
      else (if ltb 0 p.lower then passed p.inputs else on_candidate p.inputs)
]

unfoldable pub query_and : ℕ → Inputs → List ℕ
query_and zero inputs = []
query_and (suc rounds) inputs = elim (min_peek none inputs) [
  | none ↦ []
  | some candidate ↦ elim (and_catch_up (suc rounds) candidate inputs) [
    | ended ↦ []
    | on_candidate caught ↦ candidate ∷ query_and rounds (skip_equal candidate caught)
    | passed caught ↦ query_and rounds caught
    | closed ↦ []
  ]
]

-- One pass of query_min_of that skips what lies above the candidate, and how many it skipped.
unfoldable pub skip_above : ℕ → Inputs → Inputs × ℕ
skip_above candidate [] = ([], 0)
skip_above candidate ([] ∷ inputs) =
    let (rest, higher) = skip_above candidate inputs in ([] ∷ rest, higher)
skip_above candidate ((item ∷ more) ∷ inputs) =
    let (rest, higher) = skip_above candidate inputs in
    if ltb candidate item then (more ∷ rest, higher + 1) else ((item ∷ more) ∷ rest, higher)

unfoldable pub catch_up : ℕ → ℕ → Inputs → Inputs
catch_up zero candidate inputs = inputs
catch_up (suc rounds) candidate inputs =
    let (rest, higher) = skip_above candidate inputs in
    let again = catch_up rounds candidate rest in if ltb 0 higher then again else rest

-- The weights of the inputs that are on the value; their usize sum wraps, and a missing
-- weight is a panic, which is `none`.
unfoldable pub hits : ℕ → Inputs → List ℕ → Option ℕ
hits value [] weights = some 0
hits value ([] ∷ inputs) weights = hits value inputs (drop 1 weights)
hits value ((item ∷ more) ∷ inputs) [] =
    let rest = hits value inputs [] in if item == value then none else rest
hits value ((item ∷ more) ∷ inputs) (w ∷ weights) =
    let rest = hits value inputs weights in
    if item == value then Option.map (λ n. (w + n) % 2 ^ 64) rest else rest

-- The task that panics sends nothing more.
unfoldable pub query_min_of : ℕ → ℤ → Inputs → List ℕ → List ℕ
query_min_of zero count inputs weights = []
query_min_of (suc rounds) count inputs weights = elim (max_peek none inputs) [
  | none ↦ []
  | some candidate ↦
      let caught = catch_up (suc rounds) candidate inputs in
      let rest = query_min_of rounds count (skip_equal candidate caught) weights in
      elim (hits candidate caught weights) [
        | none ↦ []
        | some n ↦ if leb (as_usize count) n then candidate ∷ rest else rest
      ]
]
