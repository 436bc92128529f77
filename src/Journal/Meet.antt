-- ===== src/Journal/Meet.antt =====
-- worker/journal.rs: query_and sends the values that all of its inputs hold, from high to low.
use haunted_house.Common.{
  ℕ, zero, suc, ◌≤◌, ◌<◌, ◌≡◌, refl, sym, ◌∙◌, arith, List, [], ◌∷◌, true, false, ◌||◌, ◌&&◌, ltb,
  ◌==◌, if◌then◌else◌, any, all, All, ◌⊎◌, inl, inr,
}
use haunted_house.Journal.Nodes.{
  Inputs, skip_equal, Pass, Caught, ended, on_candidate, passed, closed, and_catch_up, query_and,
}
use haunted_house.Journal.Union.{
  elem, Descends, total, some_on, total-skip_equal, skip_equal-Descends, any-empty,
}
use haunted_house.Journal.Pass.{
  Keeps, common, HeadsFrom, min_peek_cases, some_upto, some_on_upto, all_above, AllOn, Trichotomy,
  and_pass-PassCases,
}

-- What the inner loop promises of each of its ends, when as many passes remain as values.
abbrev pub CaughtOk : ℕ → Inputs → Caught → Type 0
CaughtOk c inputs ended = (x : ℕ) → common x inputs ≡ false
CaughtOk c inputs (on_candidate is) =
    ((x : ℕ) → common x is ≡ common x inputs)
    × (AllOn c is × (some_upto c is ≡ true))
    × (total is ≤ total inputs)
    × All Descends is
CaughtOk c inputs (passed is) =
    ((x : ℕ) → common x is ≡ common x inputs)
    × (HeadsFrom c inputs → total is < total inputs)
    × (total is ≤ total inputs)
    × All Descends is
CaughtOk c inputs closed = (x : ℕ) → common x inputs ≡ false

Keeps-common :
    (c x : ℕ) (inputs : Inputs) (p : Pass)
    → Keeps c inputs p
    → All Descends inputs
    → some_upto c inputs ≡ true
    → common x p.inputs ≡ common x inputs
Keeps-common c x inputs p keeps d upto = elim (Trichotomy c x) [
  | inl below ↦ rw (keeps.anys x (omega arith), keeps.alls x (omega arith)) refl
  | inr (inl on) ↦ rw (keeps.anys x (omega arith), keeps.alls x (omega arith)) refl
  | inr (inr above) ↦ ground (
    arith,
    all_above c x inputs d upto above,
    all_above c x p.inputs keeps.falls (keeps.low upto) above,
  )
]

CaughtOk-again :
    (c : ℕ) (inputs : Inputs) (p : Pass) (caught : Caught)
    → Keeps c inputs p
    → 0 < p.higher
    → ((x : ℕ) → common x p.inputs ≡ common x inputs)
    → CaughtOk c p.inputs caught
    → CaughtOk c inputs caught
CaughtOk-again c inputs p ended keeps h same ok = λ x. sym (same x) ∙ ok x
CaughtOk-again c inputs p (on_candidate is) keeps h same ok =
    (λ x. ok.0 x ∙ same x, ok.1, omega (arith, keeps.size, ok.2), ok.3)
CaughtOk-again c inputs p (passed is) keeps h same ok = (
  λ x. ok.0 x ∙ same x,
  λ f. omega (arith, keeps.size, ok.2),
  omega (arith, keeps.size, ok.2),
  ok.3,
)
CaughtOk-again c inputs p closed keeps h same ok = λ x. sym (same x) ∙ ok x

-- The branches at the end of a pass.
abbrev after_pass : ℕ → ℕ → Pass → Caught
after_pass rounds c p =
    let again = and_catch_up rounds c p.inputs in
    if ltb 0 p.higher
    then again
    else (if ltb 0 p.lower then passed p.inputs else on_candidate p.inputs)

abbrev Landing : Pass → Type 0
Landing p = (0 < p.higher) ⊎ ((p.higher ≡ 0) × ((0 < p.lower) ⊎ (p.lower ≡ 0)))

Landing-cases : (p : Pass) → Landing p
Landing-cases p = ground arith

after_pass-CaughtOk :
    (rounds c : ℕ) (inputs : Inputs) (p : Pass)
    → All Descends inputs
    → some_upto c inputs ≡ true
    → Keeps c inputs p
    → (0 < p.higher → CaughtOk c p.inputs (and_catch_up rounds c p.inputs))
    → CaughtOk c inputs (after_pass rounds c p)
after_pass-CaughtOk rounds c inputs p d upto keeps again = elim (Landing-cases p) [
  | inl more ↦
      rw (test_true p.higher more)
        (CaughtOk-again c inputs p (and_catch_up rounds c p.inputs) keeps more same (again more))
  | inr (none_higher, inl below) ↦
      rw (test_false p.higher none_higher, test_true p.lower below)
        (same, λ f. absurd (omega (arith, keeps.calm f)), omega (arith, keeps.size), keeps.falls)
  | inr (none_higher, inr none_below) ↦
      rw (test_false p.higher none_higher, test_false p.lower none_below)
        (
          same,
          (keeps.landed none_below none_higher, keeps.low upto),
          omega (arith, keeps.size),
          keeps.falls,
        )
]
  where
    same : (x : ℕ) → common x p.inputs ≡ common x inputs
    same x = Keeps-common c x inputs p keeps d upto

    test_true : (n : ℕ) → 0 < n → ltb 0 n ≡ true
    test_true n h = ground arith

    test_false : (n : ℕ) → n ≡ 0 → ltb 0 n ≡ false
    test_false n h = ground arith

pub and_catch_up-CaughtOk :
    (rounds c : ℕ) (inputs : Inputs)
    → All Descends inputs
    → some_upto c inputs ≡ true
    → total inputs ≤ rounds
    → CaughtOk c inputs (and_catch_up rounds c inputs)
unfolding and_catch_up
and_catch_up-CaughtOk zero c inputs d upto h = λ x. ground (arith, any-empty x inputs)
and_catch_up-CaughtOk (suc rounds) c inputs d upto h = elim (and_pass-PassCases c inputs d) [
  | inl (e, none_hold) ↦ rw (e, and_catch_up) (λ x. ground (arith, none_hold x))
  | inr (p, e, keeps) ↦
      rw (e, and_catch_up)
        (after_pass-CaughtOk rounds c inputs p d upto keeps (λ more.
          and_catch_up-CaughtOk rounds c p.inputs keeps.falls (keeps.low upto)
            (omega (arith, keeps.size))))
]

pub AllOn-some_on :
    (c : ℕ) (inputs : Inputs) → AllOn c inputs → some_upto c inputs ≡ true → some_on c inputs ≡ true
AllOn-some_on c [] on upto = cc
AllOn-some_on c ([] ∷ inputs) on upto = absurd on
AllOn-some_on c ((item ∷ more) ∷ inputs) on upto = ground (arith, on.0)

any-skip :
    (c x : ℕ) (inputs : Inputs)
    → AllOn c inputs
    → (x ≡ c → ⊥)
    → any (elem x) (skip_equal c inputs) ≡ any (elem x) inputs
unfolding skip_equal
any-skip c x [] on other = refl
any-skip c x ([] ∷ inputs) on other = absurd on
any-skip c x ((item ∷ more) ∷ inputs) on other =
    ground (arith, any-skip c x inputs on.1 other, on.0)

all-skip :
    (c x : ℕ) (inputs : Inputs)
    → AllOn c inputs
    → (x ≡ c → ⊥)
    → all (elem x) (skip_equal c inputs) ≡ all (elem x) inputs
unfolding skip_equal
all-skip c x [] on other = refl
all-skip c x ([] ∷ inputs) on other = absurd on
all-skip c x ((item ∷ more) ∷ inputs) on other =
    ground (arith, all-skip c x inputs on.1 other, on.0)

all-AllOn : (c : ℕ) (inputs : Inputs) → AllOn c inputs → all (elem c) inputs ≡ true
all-AllOn c [] on = refl
all-AllOn c ([] ∷ inputs) on = absurd on
all-AllOn c ((item ∷ more) ∷ inputs) on = ground (arith, all-AllOn c inputs on.1, on.0)

some_on-any : (c : ℕ) (inputs : Inputs) → some_on c inputs ≡ true → any (elem c) inputs ≡ true
some_on-any c [] h = cc
some_on-any c ([] ∷ inputs) h = some_on-any c inputs h
some_on-any c ((item ∷ more) ∷ inputs) h = ground (arith, some_on-any c inputs)

-- After the candidate is popped, what is left in common is what was but the candidate.
common_popped :
    (c x : ℕ) (inputs : Inputs)
    → AllOn c inputs
    → some_on c inputs ≡ true
    → common x inputs ≡ (x == c || common x (skip_equal c inputs))
common_popped c x inputs on held = elim (Trichotomy c x) [
  | inl below ↦
      ground (
        arith,
        any-skip c x inputs on (λ e. omega arith),
        all-skip c x inputs on (λ e. omega arith),
      )
  | inr (inl same) ↦ rw same (rw (some_on-any c inputs held, all-AllOn c inputs on) (ground arith))
  | inr (inr above) ↦
      ground (
        arith,
        any-skip c x inputs on (λ e. omega arith),
        all-skip c x inputs on (λ e. omega arith),
      )
]

-- The branches after the inner loop.
abbrev pub after_catch : ℕ → ℕ → Caught → List ℕ
after_catch rounds c caught = elim caught [
  | ended ↦ []
  | on_candidate is ↦ c ∷ query_and rounds (skip_equal c is)
  | passed is ↦ query_and rounds is
  | closed ↦ []
]

after_catch-elem :
    (rounds c x : ℕ) (inputs : Inputs) (caught : Caught)
    → HeadsFrom c inputs
    → total inputs ≤ suc rounds
    → CaughtOk c inputs caught
    → ((is : Inputs)
        → All Descends is
        → total is ≤ rounds
        → elem x (query_and rounds is) ≡ common x is)
    → elem x (after_catch rounds c caught) ≡ common x inputs
after_catch-elem rounds c x inputs ended from h ok rest = sym (ok x)
after_catch-elem rounds c x inputs (on_candidate is) from h (same, (on, upto), size, falls) rest =
    let held = AllOn-some_on c is on upto in
    let popped =
      rest (skip_equal c is) (skip_equal-Descends c is falls)
        (omega (arith, total-skip_equal c is held)) in
    rw (popped) (sym (common_popped c x is on held) ∙ same x)
after_catch-elem rounds c x inputs (passed is) from h (same, less, size, falls) rest =
    rest is falls (omega (arith, less from)) ∙ same x
after_catch-elem rounds c x inputs closed from h ok rest = sym (ok x)

-- query_and sends exactly the values that all of its inputs hold, and nothing where there is no
-- input, if each input falls strictly and the reader stays for as many rounds as there are values
-- in the inputs.
pub query_and-elem :
    (rounds : ℕ) (inputs : Inputs) (x : ℕ)
    → All Descends inputs
    → total inputs ≤ rounds
    → elem x (query_and rounds inputs) ≡ (any (elem x) inputs && all (elem x) inputs)
unfolding query_and
query_and-elem zero inputs x d h = ground (arith, any-empty x inputs)
query_and-elem (suc rounds) inputs x d h = elim (min_peek_cases inputs) [
  | inl (e, none_hold) ↦ rw (e, query_and) (sym (none_hold x))
  | inr (v, e, from, on) ↦
      rw (e, query_and)
        (after_catch-elem rounds v x inputs (and_catch_up (suc rounds) v inputs) from h
          (and_catch_up-CaughtOk (suc rounds) v inputs d (some_on_upto v inputs on) h)
          (λ is falls small. query_and-elem rounds is x falls small))
]
