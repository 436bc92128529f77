-- ===== src/Journal/Tasks.antt =====
-- worker/journal.rs: the task of a node sends a value exactly if the node holds for its inputs.
use haunted_house.Common.{
  ℕ, suc, ◌+◌, ◌%◌, ◌^◌, ◌<◌, ◌≤◌, ◌≡◌, refl, ap, ◌∙◌, arith, List, [], ◌∷◌, map, some, Bool, true,
  false, ◌||◌, ◌==◌, all, any, All, length, and_split,
}
use haunted_house.Query.Builder.{
  Reference, trigram, expression, TrigramQueryExpression, or_of, and_of, min_of_refs, references,
}
use haunted_house.Query.Eval.{weigh, node, eval}
use haunted_house.Journal.Union.{elem, Descends, total, query_or-elem, query_or-Descends}
use haunted_house.Journal.Meet.{query_and-elem}
use haunted_house.Journal.Threshold.{weight_of, query_min_of-elem}
use haunted_house.Journal.Falls.{query_and-Descends, query_min_of-Descends}
use haunted_house.Journal.Network.{find_node, run_node}

abbrev pub Expressions : Type 0
Expressions = List (ℕ × TrigramQueryExpression)

-- The reference is a trigram or one of the expressions.
abbrev pub is_built : Expressions → Reference → Bool
is_built es (trigram t) = true
is_built [] (expression i) = false
is_built ((k, e) ∷ es) (expression i) = k == i || is_built es (expression i)

abbrev pub total_weight : List ℕ → ℕ
total_weight [] = 0
total_weight (w ∷ weights) = w + total_weight weights

abbrev pub Weighed : TrigramQueryExpression → Type 0
Weighed (or_of refs) = Unit {0}
Weighed (and_of refs) = Unit {0}
Weighed (min_of_refs n refs weights) =
    (length refs ≡ length weights) × (total_weight weights < 2 ^ 64)

-- Each expression has its own number, refers to expressions behind it, and has a weight for each
-- reference where it has weights, which add up to less than 2 ^ 64.
abbrev pub Layered : Expressions → Type 0
Layered [] = Unit {0}
Layered ((k, e) ∷ es) =
    (is_built es (expression k) ≡ false)
    × (all (is_built es) (references e) ≡ true)
    × Weighed e
    × Layered es

module _ (f : Reference → List ℕ) (x : ℕ) where
  any-map : (refs : List Reference) → any (elem x) (map f refs) ≡ any (λ r. elem x (f r)) refs
  any-map [] = refl
  any-map (r ∷ refs) = ground (arith, any-map refs)

  all-map : (refs : List Reference) → all (elem x) (map f refs) ≡ all (λ r. elem x (f r)) refs
  all-map [] = refl
  all-map (r ∷ refs) = ground (arith, all-map refs)

  weight_of-map :
      (refs : List Reference) (weights : List ℕ)
      → weight_of x (map f refs) weights ≡ weigh (λ r. elem x (f r)) refs weights
  weight_of-map [] weights = refl
  weight_of-map (r ∷ refs) [] = refl
  weight_of-map (r ∷ refs) (w ∷ weights) = ground (arith, weight_of-map refs weights)

weight_of-total :
    (x : ℕ) (inputs : List (List ℕ)) (weights : List ℕ)
    → weight_of x inputs weights ≤ total_weight weights
weight_of-total x [] weights = omega arith
weight_of-total x (input ∷ inputs) [] = omega arith
weight_of-total x (input ∷ inputs) (w ∷ weights) = ground (arith, weight_of-total x inputs weights)

length-map : (f : Reference → List ℕ) (refs : List Reference) → length (map f refs) ≡ length refs
length-map f [] = refl
length-map f (r ∷ refs) = ap suc (length-map f refs)

-- A task sends a value exactly if its node holds for the inputs that deliver it.
pub run_node-elem :
    (e : TrigramQueryExpression) (f : Reference → List ℕ) (x : ℕ)
    → All Descends (map f (references e))
    → Weighed e
    → elem x (run_node e (map f (references e))) ≡ node e (λ r. elem x (f r))
unfolding run_node node
run_node-elem (or_of refs) f x d w =
    query_or-elem (total (map f refs)) (map f refs) x (omega arith) ∙ any-map f x refs
run_node-elem (and_of refs) f x d w =
    query_and-elem (total (map f refs)) (map f refs) x d (omega arith)
    ∙ rw (any-map f x refs, all-map f x refs) refl
run_node-elem (min_of_refs n refs weights) f x d w =
    let no_wrap : weight_of x (map f refs) weights % 2 ^ 64 ≡ weight_of x (map f refs) weights =
      omega (arith, weight_of-total x (map f refs) weights, w.1) in
    query_min_of-elem (total (map f refs)) n (map f refs) weights x d (length-map f refs ∙ w.0)
      (omega arith)
    ∙ rw (no_wrap, any-map f x refs, weight_of-map f x refs weights) refl

pub run_node-Descends :
    (e : TrigramQueryExpression) (f : Reference → List ℕ)
    → All Descends (map f (references e))
    → Weighed e
    → Descends (run_node e (map f (references e)))
unfolding run_node
run_node-Descends (or_of refs) f d w = query_or-Descends (total (map f refs)) (map f refs) d
run_node-Descends (and_of refs) f d w =
    query_and-Descends (total (map f refs)) (map f refs) d (omega arith)
run_node-Descends (min_of_refs n refs weights) f d w =
    query_min_of-Descends (total (map f refs)) n (map f refs) weights d (length-map f refs ∙ w.0)
      (omega arith)

-- The value of a node depends on its references alone.
module _ (p v w : Reference → Bool) (same : (r : Reference) → p r ≡ true → v r ≡ w r) where
  any_same : (refs : List Reference) → all p refs ≡ true → any v refs ≡ any w refs
  any_same [] h = refl
  any_same (r ∷ refs) h =
      let (a, b) = and_split (p r) (all p refs) h in rw (same r a, any_same refs b) refl

  all_same : (refs : List Reference) → all p refs ≡ true → all v refs ≡ all w refs
  all_same [] h = refl
  all_same (r ∷ refs) h =
      let (a, b) = and_split (p r) (all p refs) h in rw (same r a, all_same refs b) refl

  weigh_same :
      (refs : List Reference) (weights : List ℕ)
      → all p refs ≡ true
      → weigh v refs weights ≡ weigh w refs weights
  weigh_same [] weights h = refl
  weigh_same (r ∷ refs) [] h = refl
  weigh_same (r ∷ refs) (n ∷ weights) h =
      let (a, b) = and_split (p r) (all p refs) h in rw (same r a, weigh_same refs weights b) refl

  pub node_same : (e : TrigramQueryExpression) → all p (references e) ≡ true → node e v ≡ node e w
  unfolding node
  node_same (or_of refs) h = any_same refs h
  node_same (and_of refs) h = rw (any_same refs h, all_same refs h) refl
  node_same (min_of_refs n refs weights) h = rw (any_same refs h, weigh_same refs weights h) refl

module _ (has : ℕ → Bool) (k i : ℕ) (e : TrigramQueryExpression) (older : Expressions) where
  pub eval_here :
      (k == i) ≡ true → eval has ((k, e) ∷ older) (expression i) ≡ node e (eval has older)
  unfolding eval
  eval_here h = rw (h, eval) refl

  pub eval_behind :
      (k == i) ≡ false → eval has ((k, e) ∷ older) (expression i) ≡ eval has older (expression i)
  unfolding eval
  eval_behind h = rw (h, eval) refl

pub find_node_here :
    (k i : ℕ) (e : TrigramQueryExpression) (older : Expressions)
    → (k == i) ≡ true
    → find_node i ((k, e) ∷ older) ≡ some e
unfolding find_node
find_node_here k i e older h = rw h refl

pub Descends-map :
    (p : Reference → Bool) (f : Reference → List ℕ) (refs : List Reference)
    → ((r : Reference) → p r ≡ true → Descends (f r))
    → all p refs ≡ true
    → All Descends (map f refs)
Descends-map p f [] falls h = tt
Descends-map p f (r ∷ refs) falls h =
    let (a, b) = and_split (p r) (all p refs) h in (falls r a, Descends-map p f refs falls b)
