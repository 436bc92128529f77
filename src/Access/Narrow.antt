-- ===== src/Access/Narrow.antt =====
-- access.rs: the branch of simplify for an And grants nothing new.
use haunted_house.Common.{
  ◌≡◌, refl, sym, ◌∙◌, arith, List, [], ◌∷◌, Option, none, some, Bool, true, false, not, ◌&&◌, ◌||◌,
  any, all, inl, inr, Bool-cases, and_split,
}
use haunted_house.Common.Sort.{
  sort, dedup, any-sort, all-sort, any-dedup, all-dedup, all-append, list_ord, eqb,
}
use haunted_house.Common.Sets.{any-set_from}
use haunted_house.Access.Control.{
  AccessControl, Controls, to_list, ViewControl, can_access, can_access_all, control_ord,
}
use haunted_house.Access.Combine.{
  into_and, into_or, intersect_all, common_of, unfactored_of, factor, and,
}
use haunted_house.Access.Simplify.{
  and_operands, and_operands_list, map_each, and_with, and_join, simplify_and,
}
use haunted_house.Access.Grants.{can_access_any-any, and-can_access}
use haunted_house.Access.Factor.{intersect_all-Sub, all-unfactored_of}
use haunted_house.Access.Returns.{filled, used_up-nil, unfactored-filled, into_and-some}
use haunted_house.Access.Leftover.{not_single}
use haunted_house.Access.Exact.{into_and-can_access, into_or-can_access}

empty-all :
    (r : List AccessControl) (ops : List (List AccessControl))
    → filled ops ≡ false
    → all (eqb r) ops ≡ true
empty-all r [] h = refl
empty-all r (op ∷ ops) h = cc

-- An operand is left unless one is used up.
left-filled :
    (op : List AccessControl) (rest : List (List AccessControl))
    → (unfactored_of (intersect_all op rest) (op ∷ rest)).1 ≡ false
    → filled (unfactored_of (intersect_all op rest) (op ∷ rest)).0 ≡ true
left-filled op rest h =
    let u = unfactored_of (intersect_all op rest) (op ∷ rest) in
    elim (Bool-cases (filled u.0)) [
      | inl some_left ↦ some_left
      | inr none_left ↦ absurd (not_single op rest [] h (empty-all [] u.0 none_left))
    ]

nil_used_up :
    (common : List AccessControl) (ops : List (List AccessControl))
    → all filled ops ≡ true
    → common ≡ []
    → (unfactored_of common ops).1 ≡ false
nil_used_up common ops h e = rw e (used_up-nil ops h)

module _ (fields : ViewControl) where
  mutual
    unfolding and_operands can_access

    and_operands-all :
        (c : AccessControl) → all (any (can_access fields)) (and_operands c) ≡ can_access fields c
    and_operands-all (AccessControl.and parts) = and_operands_list-all parts
    and_operands-all (AccessControl.or parts) =
        rw (any-set_from (can_access fields) (to_list parts), sym (can_access_any-any fields parts))
          (ground arith)
    and_operands-all (AccessControl.token t) = ground arith
    and_operands-all AccessControl.always = refl

    and_operands_list-all :
        (cs : Controls)
        → all (any (can_access fields)) (and_operands_list cs) ≡ can_access_all fields cs
    and_operands_list-all Controls.nil = refl
    and_operands_list-all (Controls.cons c cs) =
        all-append (any (can_access fields)) (and_operands_list cs) (and_operands c)
        ∙ rw (and_operands-all c, and_operands_list-all cs) (ground arith)

  into_or-some :
      (xs : List AccessControl) → filled xs ≡ true → (c : AccessControl) × (into_or xs ≡ some c)
  unfolding into_or
  into_or-some [] h = cc
  into_or-some (x ∷ xs) h = (_, refl)

  map_into_or :
      (ops : List (List AccessControl))
      → all filled ops ≡ true
      → (cs : List AccessControl) × (map_each into_or ops ≡ some cs)
        × (all (can_access fields) cs ≡ all (any (can_access fields)) ops)
        × (filled cs ≡ filled ops)
  unfolding map_each
  map_into_or [] h = ([], refl, refl, refl)
  map_into_or (op ∷ ops) h =
      let (ho, hs) = and_split (filled op) (all filled ops) h in
      let (c, e) = into_or-some op ho in
      let (cs, es, meaning, same) = map_into_or ops hs in
      (c ∷ cs, rw (e, map_each, es) refl, rw (into_or-can_access fields op c e, meaning) refl, refl)

  -- What the last steps give, and what it grants at most.
  and_with-narrows :
      (common : AccessControl) (joined : List AccessControl)
      → (d : AccessControl) × (and_with common joined ≡ some d)
        × (can_access fields d ≡ true → can_access fields common ≡ true)
  unfolding and_with into_and
  and_with-narrows common [] = (common, refl, λ h. h)
  and_with-narrows common (u ∷ []) =
      (and u common, refl, λ h. ground (arith, and-can_access fields u common, h))
  and_with-narrows common (u ∷ v ∷ us) = (
    _,
    refl,
    λ h. (and_split _ (can_access fields common) (sym (and-can_access fields _ common) ∙ h)).1,
  )

  and_join-narrows :
      (common joined : List AccessControl) (ft : Bool)
      → (common ≡ [] → (ft ≡ false) × (filled joined ≡ true))
      → (d : AccessControl) × (and_join common joined ≡ some d)
        × (can_access fields d ≡ true
            → (any (can_access fields) common || (not ft && all (can_access fields) joined)) ≡ true)
  unfolding and_join
  and_join-narrows [] [] ft h = cc ((h refl).1)
  and_join-narrows [] (j ∷ joined) ft h =
      let (d, e) = into_and-some (j ∷ joined) refl in
      (d, e, λ k. ground (arith, into_and-can_access fields (j ∷ joined) d e, (h refl).0, k))
  and_join-narrows (c ∷ cs) joined ft h =
      let (common, e) = into_or-some (c ∷ cs) refl in
      let (d, ed, narrow) = and_with-narrows common joined in
      (
        d,
        rw (e, and_join) ed,
        λ k. ground (arith, into_or-can_access fields (c ∷ cs) common e, narrow k),
      )

  narrowed_to : List (List AccessControl) → Option AccessControl
  narrowed_to operands = elim (factor operands) [
    | none ↦ none
    | some (common, unfactored, fallthrough) ↦ elim (map_each into_or unfactored) [
      | none ↦ none
      | some joined ↦ and_join common joined
    ]
  ]

  narrowed :
      (operands : List (List AccessControl))
      → filled operands ≡ true
      → all filled operands ≡ true
      → (d : AccessControl) × (narrowed_to operands ≡ some d)
        × (can_access fields d ≡ true → all (any (can_access fields)) operands ≡ true)
  unfolding narrowed_to factor common_of
  narrowed [] some_operand no_empty = cc
  narrowed (op ∷ rest) some_operand no_empty =
      let common = intersect_all op rest in
      let u = unfactored_of common (op ∷ rest) in
      let meaning =
        all-unfactored_of (can_access fields) common (op ∷ rest) (intersect_all-Sub op rest) in
      let ops = dedup (sort u.0) in
      let ops_filled : all filled ops ≡ true =
        all-dedup filled (sort u.0) ∙ all-sort filled u.0 ∙ unfactored-filled common (op ∷ rest) in
      let (joined, ej, says, same) = map_into_or ops ops_filled in
      let said : all (can_access fields) joined ≡ all (any (can_access fields)) u.0 =
        says
        ∙ all-dedup (any (can_access fields)) (sort u.0)
        ∙ all-sort (any (can_access fields)) u.0 in
      let (d, ed, narrow) = and_join-narrows common joined u.1 (λ empty.
        let unused = nil_used_up common (op ∷ rest) no_empty empty in
        (
          unused,
          same
              ∙ any-dedup (λ x. true) (sort u.0)
              ∙ any-sort (λ x. true) u.0
              ∙ left-filled op rest unused,
        )) in
      (d, rw (narrowed_to, ej) ed, λ k. meaning ∙ rw (sym said) (narrow k))

  -- simplify's branch for an And with at least one part, given parts that leave an operand and no
  -- operand without controls, does not panic, and its result lets no viewer through that the And of
  -- the parts would not let through.
  pub simplify_and-narrows :
      (item : AccessControl) (items : Controls)
      → filled (and_operands_list (Controls.cons item items)) ≡ true
      → all filled (and_operands_list (Controls.cons item items)) ≡ true
      → (d : AccessControl) × (simplify_and (Controls.cons item items) ≡ some d)
        × (can_access fields d ≡ true
            → can_access fields (AccessControl.and (Controls.cons item items)) ≡ true)
  unfolding simplify_and can_access
  simplify_and-narrows item items some_operand no_empty =
      let (d, e, narrow) =
        narrowed (and_operands_list (Controls.cons item items)) some_operand no_empty in
      (
        d,
        unfold narrowed_to in e,
        λ h. sym (and_operands_list-all (Controls.cons item items)) ∙ narrow h,
      )
