-- ===== src/Access/Returns.antt =====
-- access.rs: the branch of simplify for an Or does not panic.
use haunted_house.Common.{
  ◌≡◌, refl, ◌∙◌, arith, List, [], ◌∷◌, ◌++◌, Option, none, some, Bool, true, false, ◌&&◌, any, all,
  if◌then◌else◌, and_split,
}
use haunted_house.Common.Sort.{
  sort, dedup, any-sort, all-sort, any-dedup, all-dedup, any-append, all-append, difference,
  contains, list_ord,
}
use haunted_house.Common.Sets.{any-set_from}
use haunted_house.Access.Control.{AccessControl, Controls, to_list, control_ord}
use haunted_house.Access.Combine.{
  into_and, into_or, intersect_all, push_unless_empty, unfactored_of,
}
use haunted_house.Access.Simplify.{or_operands, or_operands_list, map_each, or_with, or_join}

abbrev pub filled {ℓ} : {A : Type ℓ} → List A → Bool
filled xs = any (λ x. true) xs

-- What simplify does with factored operands.
abbrev pub after_factor :
    List AccessControl → List (List AccessControl) × Bool → Option AccessControl
after_factor common (unfactored, fallthrough) =
    if fallthrough then into_and common else elim (map_each into_and (dedup (sort unfactored))) [
      | none ↦ none
      | some joined ↦ or_join common joined
    ]

-- No Or and no And without parts among the parts that the loop for an Or pops.
unfoldable mutual
  pub full : AccessControl → Bool
  full (AccessControl.or parts) = filled (to_list parts) && full_list parts
  full (AccessControl.and parts) = filled (to_list parts)
  full (AccessControl.token t) = true
  full AccessControl.always = true

  pub full_list : Controls → Bool
  full_list Controls.nil = true
  full_list (Controls.cons c cs) = full c && full_list cs

abbrev pub OperandsFull : Option (List (List AccessControl)) → Bool → Type 0
OperandsFull none b = Unit {0}
OperandsFull (some ops) b = (all filled ops ≡ true) × (filled ops ≡ b)

join :
    (first rest : Option (List (List AccessControl))) (b : Bool)
    → OperandsFull rest b
    → OperandsFull first true
    → OperandsFull
        (elim rest [
          | none ↦ none
          | some popped ↦ elim first [ none ↦ none | some operands ↦ some (popped ++ operands) ]
        ])
        true
join first none b s t = tt
join none (some popped) b s t = tt
join (some operands) (some popped) b s t = (
  all-append filled popped operands ∙ rw (s.0, t.0) refl,
  any-append (λ x. true) popped operands ∙ rw (t.1) (ground arith),
)

mutual
  unfolding or_operands full

  or_operands-full : (c : AccessControl) → full c ≡ true → OperandsFull (or_operands c) true
  or_operands-full (AccessControl.or parts) h =
      let (some_part, parts_full) = and_split (filled (to_list parts)) (full_list parts) h in
      rw some_part at (or_operands_list-full parts parts_full)
  or_operands-full (AccessControl.and parts) h =
      (rw (any-set_from (λ x. true) (to_list parts), h) refl, refl)
  or_operands-full (AccessControl.token t) h = (refl, refl)
  or_operands-full AccessControl.always h = tt

  pub or_operands_list-full :
      (cs : Controls)
      → full_list cs ≡ true
      → OperandsFull (or_operands_list cs) (filled (to_list cs))
  or_operands_list-full Controls.nil h = (refl, refl)
  or_operands_list-full (Controls.cons c cs) h =
      let (hc, hs) = and_split (full c) (full_list cs) h in
      join (or_operands c) (or_operands_list cs) (filled (to_list cs)) (or_operands_list-full cs hs)
        (or_operands-full c hc)

pub unfactored-filled :
    (common : List AccessControl) (ops : List (List AccessControl))
    → all filled (unfactored_of common ops).0 ≡ true
unfolding unfactored_of
unfactored-filled common [] = refl
unfactored-filled common (op ∷ ops) =
    push_filled (dedup (sort (difference op common))) (unfactored_of common ops)
      (unfactored-filled common ops)
  where
    push_filled :
        (left : List AccessControl) (u : List (List AccessControl) × Bool)
        → all filled u.0 ≡ true
        → all filled (push_unless_empty left u).0 ≡ true
    push_filled [] (us, b) h = h
    push_filled (x ∷ xs) (us, b) h = h

pub into_and-some :
    (xs : List AccessControl) → filled xs ≡ true → (c : AccessControl) × (into_and xs ≡ some c)
unfolding into_and
into_and-some [] h = cc
into_and-some (x ∷ xs) h = (_, refl)

map_each-some :
    (ops : List (List AccessControl))
    → all filled ops ≡ true
    → (cs : List AccessControl) × (map_each into_and ops ≡ some cs)
unfolding map_each
map_each-some [] h = ([], refl)
map_each-some (op ∷ ops) h =
    let (ho, hs) = and_split (filled op) (all filled ops) h in
    let (c, e) = into_and-some op ho in
    let (cs, es) = map_each-some ops hs in (c ∷ cs, rw (e, map_each, es) refl)

difference_nil : (xs : List AccessControl) → difference xs [] ≡ xs
unfolding difference contains
difference_nil [] = refl
difference_nil (x ∷ xs) = rw (difference_nil xs) refl

pub used_up-nil :
    (ops : List (List AccessControl)) → all filled ops ≡ true → (unfactored_of [] ops).1 ≡ false
unfolding unfactored_of
used_up-nil [] h = refl
used_up-nil (op ∷ ops) h =
    let (ho, hs) = and_split (filled op) (all filled ops) h in
    push_unused (dedup (sort (difference op []))) (unfactored_of [] ops)
      (any-dedup (λ x. true) (sort (difference op []))
        ∙ any-sort (λ x. true) (difference op [])
        ∙ rw (difference_nil op) ho)
      (used_up-nil ops hs)
  where
    push_unused :
        (left : List AccessControl) (u : List (List AccessControl) × Bool)
        → filled left ≡ true
        → u.1 ≡ false
        → (push_unless_empty left u).1 ≡ false
    push_unused [] u h k = cc
    push_unused (x ∷ xs) (us, b) h k = k

used_up-filled :
    (common : List AccessControl) (ops : List (List AccessControl))
    → all filled ops ≡ true
    → (unfactored_of common ops).1 ≡ true
    → filled common ≡ true
used_up-filled [] ops h k = cc (used_up-nil ops h)
used_up-filled (c ∷ common) ops h k = refl

or_join-some :
    (common joined : List AccessControl)
    → (joined ≡ [] → ⊥)
    → (d : AccessControl) × (or_join common joined ≡ some d)
unfolding or_join or_with into_or into_and
or_join-some common [] h = absurd (h refl)
or_join-some [] (u ∷ us) h = (_, refl)
or_join-some (c ∷ cs) (u ∷ []) h = (_, refl)
or_join-some (c ∷ cs) (u ∷ v ∷ us) h = (_, refl)

map_joined :
    (common : List AccessControl) (unfactored : List (List AccessControl))
    → all filled unfactored ≡ true
    → (unfactored ≡ [] → ⊥)
    → (d : AccessControl) × (elim (map_each into_and unfactored) [
      | none ↦ none
      | some joined ↦ or_join common joined
    ]
        ≡ some d)
unfolding map_each
map_joined common [] h k = absurd (k refl)
map_joined common (op ∷ ops) h k =
    let (ho, hs) = and_split (filled op) (all filled ops) h in
    let (c, e) = into_and-some op ho in
    let (cs, es) = map_each-some ops hs in
    let (d, ed) = or_join-some common (c ∷ cs) (λ empty. cc) in (d, rw (e, map_each, es) ed)

-- The steps after the operands are popped give a result.
pub after_factor-some :
    (op : List AccessControl) (rest : List (List AccessControl))
    → all filled (op ∷ rest) ≡ true
    → ((unfactored_of (intersect_all op rest) (op ∷ rest)).1 ≡ false
        → dedup (sort (unfactored_of (intersect_all op rest) (op ∷ rest)).0) ≡ []
        → ⊥)
    → (d : AccessControl) × (after_factor
          (intersect_all op rest)
          (unfactored_of (intersect_all op rest) (op ∷ rest))
        ≡ some d)
after_factor-some op rest h k =
    step (intersect_all op rest) (unfactored_of (intersect_all op rest) (op ∷ rest))
      (used_up-filled (intersect_all op rest) (op ∷ rest) h)
      (unfactored-filled (intersect_all op rest) (op ∷ rest)) k
  where
    step :
        (common : List AccessControl) (u : List (List AccessControl) × Bool)
        → (u.1 ≡ true → filled common ≡ true)
        → all filled u.0 ≡ true
        → (u.1 ≡ false → dedup (sort u.0) ≡ [] → ⊥)
        → (d : AccessControl) × (after_factor common u ≡ some d)
    step common (us, true) h f k = into_and-some common (h refl)
    step common (us, false) h f k =
        map_joined common (dedup (sort us)) (all-dedup filled (sort us) ∙ all-sort filled us ∙ f)
          (k refl)
