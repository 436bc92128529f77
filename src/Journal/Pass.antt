-- ===== src/Journal/Pass.antt =====
-- worker/journal.rs: one pass of query_and over its inputs, and the values they have in common.
use haunted_house.Common.{
  ℕ, ◌+◌, ◌≤◌, ◌<◌, ◌≡◌, refl, arith, List, [], ◌∷◌, none, some, Bool, true, false, ◌||◌, ◌&&◌, leb,
  ◌==◌, min, any, all, All, ◌⊎◌, inl, inr,
}
use haunted_house.Encoding.Sequence.{Falling}
use haunted_house.Journal.Nodes.{Inputs, min_peek, Pass, and_pass}
use haunted_house.Journal.Union.{elem, Descends, total, some_on}

-- All inputs hold the value, and there is an input.
abbrev pub common : ℕ → Inputs → Bool
common x inputs = any (elem x) inputs && all (elem x) inputs

-- No input has ended, and none shows a value below `c`.
abbrev pub HeadsFrom : ℕ → Inputs → Type 0
HeadsFrom c [] = Unit {0}
HeadsFrom c ([] ∷ inputs) = ⊥
HeadsFrom c ((item ∷ more) ∷ inputs) = (c ≤ item) × HeadsFrom c inputs

HeadsFrom-mono : (c d : ℕ) (inputs : Inputs) → d ≤ c → HeadsFrom c inputs → HeadsFrom d inputs
HeadsFrom-mono c d [] h f = tt
HeadsFrom-mono c d ([] ∷ inputs) h f = f
HeadsFrom-mono c d ((item ∷ more) ∷ inputs) h f = (omega arith, HeadsFrom-mono c d inputs h f.1)

min_peek-some :
    (inputs : Inputs) (c : ℕ)
    → ((min_peek (some c) inputs ≡ none) × ((x : ℕ) → all (elem x) inputs ≡ false))
      ⊎ ((v : ℕ) × (min_peek (some c) inputs ≡ some v)
          × (v ≤ c)
          × HeadsFrom v inputs
          × ((c == v || some_on v inputs) ≡ true))
unfolding min_peek
min_peek-some [] c = inr (c, refl, omega arith, tt, ground arith)
min_peek-some ([] ∷ inputs) c = inl (refl, λ x. refl)
min_peek-some ((item ∷ more) ∷ inputs) c = elim (min_peek-some inputs (min item c)) [
  | inl (e, none_hold) ↦ inl (e, λ x. ground (arith, none_hold x))
  | inr (v, e, below, from, on) ↦ inr (v, e, omega arith, (omega arith, from), ground arith)
]

pub min_peek_cases :
    (inputs : Inputs)
    → ((min_peek none inputs ≡ none) × ((x : ℕ) → common x inputs ≡ false))
      ⊎ ((v : ℕ) × (min_peek none inputs ≡ some v) × HeadsFrom v inputs × (some_on v inputs ≡ true))
unfolding min_peek
min_peek_cases [] = inl (refl, λ x. refl)
min_peek_cases ([] ∷ inputs) = inl (refl, λ x. ground arith)
min_peek_cases ((item ∷ more) ∷ inputs) = elim (min_peek-some inputs item) [
  | inl (e, none_hold) ↦ inl (e, λ x. ground (arith, none_hold x))
  | inr (v, e, below, from, on) ↦ inr (v, e, (omega arith, from), ground arith)
]

-- Some input shows a value that is not above `c`, so no value above `c` is common.
abbrev pub some_upto : ℕ → Inputs → Bool
some_upto c [] = false
some_upto c ([] ∷ inputs) = some_upto c inputs
some_upto c ((item ∷ more) ∷ inputs) = leb item c || some_upto c inputs

pub some_on_upto : (c : ℕ) (inputs : Inputs) → some_on c inputs ≡ true → some_upto c inputs ≡ true
some_on_upto c [] h = cc
some_on_upto c ([] ∷ inputs) h = some_on_upto c inputs h
some_on_upto c ((item ∷ more) ∷ inputs) h = ground (arith, some_on_upto c inputs)

pub elem_above : (c x : ℕ) (l : List ℕ) → Falling c l → c ≤ x → elem x l ≡ false
elem_above c x [] f h = refl
elem_above c x (y ∷ l) f h = ground (arith, elem_above y x l f.1)

pub all_above :
    (c x : ℕ) (inputs : Inputs)
    → All Descends inputs
    → some_upto c inputs ≡ true
    → c < x
    → all (elem x) inputs ≡ false
all_above c x [] d h lt = cc
all_above c x ([] ∷ inputs) d h lt = refl
all_above c x ((item ∷ more) ∷ inputs) d h lt =
    ground (arith, elem_above item x more d.0, all_above c x inputs d.1)

-- The inputs are all on `c`.
abbrev pub AllOn : ℕ → Inputs → Type 0
AllOn c [] = Unit {0}
AllOn c ([] ∷ inputs) = ⊥
AllOn c ((item ∷ more) ∷ inputs) = (item ≡ c) × AllOn c inputs

-- What a pass that does not meet an ended input leaves as it was.
pub record Keeps (c : ℕ) (inputs : Inputs) (p : Pass) : Type 0 where
  pub size : total p.inputs + p.higher ≡ total inputs
  pub anys : (x : ℕ) → x ≤ c → any (elem x) p.inputs ≡ any (elem x) inputs
  pub alls : (x : ℕ) → x ≤ c → all (elem x) p.inputs ≡ all (elem x) inputs
  pub low : some_upto c inputs ≡ true → some_upto c p.inputs ≡ true
  pub falls : All Descends p.inputs
  pub calm : HeadsFrom c inputs → p.lower ≡ 0
  pub landed : p.lower ≡ 0 → p.higher ≡ 0 → AllOn c p.inputs

abbrev PassCases : ℕ → Inputs → Type 0
PassCases c inputs =
    ((and_pass c inputs ≡ none) × ((x : ℕ) → all (elem x) inputs ≡ false))
    ⊎ ((p : Pass) × (and_pass c inputs ≡ some p) × Keeps c inputs p)

Descends-tail : (x : ℕ) (l : List ℕ) → Descends (x ∷ l) → Descends l
Descends-tail x [] d = tt
Descends-tail x (y ∷ l) d = d.1

abbrev Trichotomous : ℕ → ℕ → Type 0
Trichotomous c item = (item < c) ⊎ ((item ≡ c) ⊎ (c < item))

pub Trichotomy : (c item : ℕ) → Trichotomous c item
Trichotomy c item = ground arith

and_pass_step :
    (c item : ℕ) (more : List ℕ) (inputs : Inputs)
    → Descends (item ∷ more)
    → PassCases c inputs
    → PassCases c ((item ∷ more) ∷ inputs)
unfolding and_pass
and_pass_step c item more inputs d (inl (e, none_hold)) =
    inl (rw (e, and_pass) refl, λ x. ground (arith, none_hold x))
and_pass_step c item more inputs d (inr (p, e, keeps)) = elim (Trichotomy c item) [
  | inl below ↦ inr (
    record { inputs = (item ∷ more) ∷ p.inputs; lower = p.lower + 1; higher = p.higher },
    rw (e, and_pass) (ground arith),
    record {
      size = omega (arith, keeps.size);
      anys = λ x h. rw (keeps.anys x h) refl;
      alls = λ x h. rw (keeps.alls x h) refl;
      low = λ h. ground arith;
      falls = (d, keeps.falls);
      calm = λ h. absurd (omega (arith, h.0));
      landed = λ h g. absurd (omega arith);
    },
  )
  | inr (inl on) ↦ inr (
    record { inputs = (item ∷ more) ∷ p.inputs; lower = p.lower; higher = p.higher },
    rw (e, and_pass) (ground arith),
    record {
      size = omega (arith, keeps.size);
      anys = λ x h. rw (keeps.anys x h) refl;
      alls = λ x h. rw (keeps.alls x h) refl;
      low = λ h. ground arith;
      falls = (d, keeps.falls);
      calm = λ h. keeps.calm h.1;
      landed = λ h g. (on, keeps.landed h g);
    },
  )
  | inr (inr above) ↦ inr (
    record { inputs = more ∷ p.inputs; lower = p.lower; higher = p.higher + 1 },
    rw (e, and_pass) (ground arith),
    record {
      size = omega (arith, keeps.size);
      anys = λ x h. rw (keeps.anys x h) (ground arith);
      alls = λ x h. rw (keeps.alls x h) (ground arith);
      low = λ h. ground (arith, keeps.low);
      falls = (Descends-tail item more d, keeps.falls);
      calm = λ h. keeps.calm h.1;
      landed = λ h g. absurd (omega arith);
    },
  )
]

pub and_pass-PassCases : (c : ℕ) (inputs : Inputs) → All Descends inputs → PassCases c inputs
unfolding and_pass
and_pass-PassCases c [] d = inr (
  record { inputs = []; lower = 0; higher = 0 },
  refl,
  record {
    size = refl;
    anys = λ x h. refl;
    alls = λ x h. refl;
    low = λ h. h;
    falls = tt;
    calm = λ h. refl;
    landed = λ h g. tt;
  },
)
and_pass-PassCases c ([] ∷ inputs) d = inl (refl, λ x. refl)
and_pass-PassCases c ((item ∷ more) ∷ inputs) d =
    and_pass_step c item more inputs d.0 (and_pass-PassCases c inputs d.1)
