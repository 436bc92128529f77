-- ===== src/Access/Exact.antt =====
-- access.rs: the branch of simplify for an Or keeps the access exactly.
use haunted_house.Common.{
  ◌≡◌, refl, sym, ◌∙◌, arith, List, [], ◌∷◌, ◌++◌, Option, none, some, Bool, true, false,
  if◌then◌else◌, ◌&&◌, ◌||◌, any, all, length, ◌⊎◌, inl, inr, Option-cases,
}
use haunted_house.Common.Sort.{
  sort, dedup, any-sort, all-sort, any-dedup, all-dedup, any-append, list_ord, eqb, eqb_refl,
}
use haunted_house.Common.Sets.{all-set_from}
use haunted_house.Access.Control.{
  AccessControl, Controls, to_list, ViewControl, can_access, can_access_any, control_ord,
}
use haunted_house.Access.Combine.{
  into_and, into_or, intersect_all, common_of, unfactored_of, factor, and, pop_or_wrap,
}
use haunted_house.Access.Simplify.{
  or_operands, or_operands_list, map_each, or_with, or_join, simplify_or,
}
use haunted_house.Access.Grants.{
  can_access_all-all, pop_or_wrap-or, pop_or_wrap-and, any-dedup-sort, all-dedup-sort,
  and-can_access,
}
use haunted_house.Access.Factor.{intersect_all-Sub, any-unfactored_of}
use haunted_house.Access.Returns.{
  full_list, OperandsFull, or_operands_list-full, after_factor, after_factor-some,
}
use haunted_house.Access.Leftover.{not_single}

no_entry : (ops : List (List AccessControl)) → length ops ≡ 0 → ops ≡ []
no_entry [] h = refl
no_entry (op ∷ ops) h = absurd (omega arith)

one_entry :
    (ops : List (List AccessControl)) → length ops ≡ 1 → (r : List AccessControl) × (ops ≡ r ∷ [])
one_entry [] h = absurd (omega arith)
one_entry (op ∷ []) h = (op, refl)
one_entry (op ∷ op' ∷ ops) h = absurd (omega arith)

module _ (fields : ViewControl) where
  -- What the popped operands say; the early return says `Always`.
  abbrev OperandsSay : Option (List (List AccessControl)) → Bool → Type 0
  OperandsSay none value = value ≡ true
  OperandsSay (some ops) value = any (all (can_access fields)) ops ≡ value

  join :
      (first rest : Option (List (List AccessControl))) (v w : Bool)
      → OperandsSay rest w
      → OperandsSay first v
      → OperandsSay
          (elim rest [
            | none ↦ none
            | some popped ↦ elim first [ none ↦ none | some operands ↦ some (popped ++ operands) ]
          ])
          (v || w)
  join first none v w s t = rw s (ground arith)
  join none (some popped) v w s t = rw t refl
  join (some operands) (some popped) v w s t =
      any-append (all (can_access fields)) popped operands ∙ rw (s, t) (ground arith)

  mutual
    unfolding or_operands can_access

    or_operands-say : (c : AccessControl) → OperandsSay (or_operands c) (can_access fields c)
    or_operands-say (AccessControl.or parts) = or_operands_list-say parts
    or_operands-say (AccessControl.and parts) =
        rw (all-set_from (can_access fields) (to_list parts), sym (can_access_all-all fields parts))
          (ground arith)
    or_operands-say (AccessControl.token t) = ground arith
    or_operands-say AccessControl.always = refl

    or_operands_list-say :
        (cs : Controls) → OperandsSay (or_operands_list cs) (can_access_any fields cs)
    or_operands_list-say Controls.nil = refl
    or_operands_list-say (Controls.cons c cs) =
        join (or_operands c) (or_operands_list cs) (can_access fields c) (can_access_any fields cs)
          (or_operands_list-say cs) (or_operands-say c)

  pub into_and-can_access :
      (xs : List AccessControl) (c : AccessControl)
      → into_and xs ≡ some c
      → can_access fields c ≡ all (can_access fields) xs
  unfolding into_and
  into_and-can_access [] c e = cc
  into_and-can_access (x ∷ xs) c e =
      let same : pop_or_wrap AccessControl.and (dedup (sort (x ∷ xs))) ≡ c = cc in
      rw (sym same)
        (pop_or_wrap-and fields (dedup (sort (x ∷ xs))) ∙ all-dedup-sort fields (x ∷ xs))

  pub into_or-can_access :
      (xs : List AccessControl) (c : AccessControl)
      → into_or xs ≡ some c
      → can_access fields c ≡ any (can_access fields) xs
  unfolding into_or
  into_or-can_access [] c e = cc
  into_or-can_access (x ∷ xs) c e =
      let same : pop_or_wrap AccessControl.or (dedup (sort (x ∷ xs))) ≡ c = cc in
      rw (sym same) (pop_or_wrap-or fields (dedup (sort (x ∷ xs))) ∙ any-dedup-sort fields (x ∷ xs))

  -- What the joined operands say, and that there are as many of them.
  abbrev JoinedOk : List (List AccessControl) → Option (List AccessControl) → Type 0
  JoinedOk ops none = Unit {0}
  JoinedOk ops (some cs) =
      (any (can_access fields) cs ≡ any (all (can_access fields)) ops) × (length cs ≡ length ops)

  map_each-JoinedOk : (ops : List (List AccessControl)) → JoinedOk ops (map_each into_and ops)
  unfolding map_each
  map_each-JoinedOk [] = (refl, refl)
  map_each-JoinedOk (op ∷ ops) = elim (Option-cases (into_and op)) [
    | inl e ↦ rw (e, map_each) tt
    | inr (c, e) ↦ elim (Option-cases (map_each into_and ops)) [
      | inl e' ↦ rw (e, map_each, e') tt
      | inr (cs, e') ↦
          let ok : JoinedOk ops (some cs) = rw e' at (map_each-JoinedOk ops) in
          rw (e, map_each, e') (rw (into_and-can_access op c e, ok.0) refl, omega (arith, ok.1))
    ]
  ]

  or_join-can_access :
      (common joined : List AccessControl) (d : AccessControl)
      → (joined ≡ [] → ⊥)
      → ((u : AccessControl) → joined ≡ u ∷ [] → ⊥)
      → or_join common joined ≡ some d
      → can_access fields d ≡ (all (can_access fields) common && any (can_access fields) joined)
  unfolding or_join or_with
  or_join-can_access common [] d some_left not_one e = absurd (some_left refl)
  or_join-can_access common (u ∷ []) d some_left not_one e = absurd (not_one u refl)
  or_join-can_access [] (u ∷ v ∷ us) d some_left not_one e = into_or-can_access (u ∷ v ∷ us) d e
  or_join-can_access (c ∷ cs) (u ∷ v ∷ us) d some_left not_one e =
      elim (Option-cases (into_and (c ∷ cs))) [
        | inl none_common ↦ cc (rw (none_common, or_join) at e)
        | inr (common, e₁) ↦ elim (Option-cases (into_or (u ∷ v ∷ us))) [
          | inl none_left ↦ cc (rw (e₁, or_join, or_with, none_left) at e)
          | inr (left, e₂) ↦
              let same : and left common ≡ d = cc (rw (e₁, or_join, or_with, e₂) at e) in
              rw (sym same) (
                and-can_access fields left common
                ∙ rw
                    (
                      into_and-can_access (c ∷ cs) common e₁,
                      into_or-can_access (u ∷ v ∷ us) left e₂,
                    )
                    (ground arith))
        ]
      ]

  -- A sorted list without repetitions that has at most one entry has only that one.
  few :
      (r : List AccessControl) (ops : List (List AccessControl))
      → (dedup (sort ops) ≡ []) ⊎ (dedup (sort ops) ≡ r ∷ [])
      → all (eqb r) ops ≡ true
  few r ops (inl e) = sym (all-dedup (eqb r) (sort ops) ∙ all-sort (eqb r) ops) ∙ rw e refl
  few r ops (inr e) =
      sym (all-dedup (eqb r) (sort ops) ∙ all-sort (eqb r) ops) ∙ rw e (rw (eqb_refl r) refl)

  -- What joins the unfactored operands, after they were sorted and deduplicated.
  joined_some :
      (op : List AccessControl) (rest : List (List AccessControl)) (joined : List AccessControl)
      → (unfactored_of (intersect_all op rest) (op ∷ rest)).1 ≡ false
      → length joined ≡ length (dedup (sort (unfactored_of (intersect_all op rest) (op ∷ rest)).0))
      → joined ≡ []
      → ⊥
  joined_some op rest joined h l empty =
      let u = unfactored_of (intersect_all op rest) (op ∷ rest) in
      not_single op rest [] h
        (few [] u.0 (inl (no_entry (dedup (sort u.0)) (sym l ∙ rw empty refl))))

  joined_several :
      (op : List AccessControl) (rest : List (List AccessControl)) (joined : List AccessControl)
      → (unfactored_of (intersect_all op rest) (op ∷ rest)).1 ≡ false
      → length joined ≡ length (dedup (sort (unfactored_of (intersect_all op rest) (op ∷ rest)).0))
      → (c : AccessControl) → joined ≡ c ∷ []
      → ⊥
  joined_several op rest joined h l c single =
      let u = unfactored_of (intersect_all op rest) (op ∷ rest) in
      let (r, e) = one_entry (dedup (sort u.0)) (sym l ∙ rw single refl) in
      not_single op rest r h (few r u.0 (inr e))

  after_factor_step :
      (common : List AccessControl) (u : List (List AccessControl) × Bool) (d : AccessControl)
      (value : Bool)
      → value ≡ (all (can_access fields) common && (u.1 || any (all (can_access fields)) u.0))
      → (u.1 ≡ false
          → (joined : List AccessControl) → length joined ≡ length (dedup (sort u.0))
          → (joined ≡ [] → ⊥) × ((c : AccessControl) → joined ≡ c ∷ [] → ⊥))
      → after_factor common u ≡ some d
      → can_access fields d ≡ value
  after_factor_step common (unfactored, true) d value meaning several e =
      into_and-can_access common d e ∙ rw meaning (ground arith)
  after_factor_step common (unfactored, false) d value meaning several e =
      let ops = dedup (sort unfactored) in
      elim (Option-cases (map_each into_and ops)) [
        | inl none_joined ↦ cc (rw none_joined at e)
        | inr (joined, e₁) ↦
            let ok : JoinedOk ops (some joined) = rw e₁ at (map_each-JoinedOk ops) in
            let (some_left, not_one) = several refl joined ok.1 in
            or_join-can_access common joined d some_left not_one (rw e₁ at e)
            ∙ rw
                (
                  ok.0,
                  any-dedup (all (can_access fields)) (sort unfactored),
                  any-sort (all (can_access fields)) unfactored,
                  meaning,
                )
                refl
      ]

  after_factor-can_access :
      (op : List AccessControl) (rest : List (List AccessControl)) (d : AccessControl)
      → after_factor (intersect_all op rest) (unfactored_of (intersect_all op rest) (op ∷ rest))
        ≡ some d
      → can_access fields d ≡ any (all (can_access fields)) (op ∷ rest)
  after_factor-can_access op rest d e =
      let common = intersect_all op rest in
      after_factor_step common (unfactored_of common (op ∷ rest)) d _
        (any-unfactored_of (can_access fields) common (op ∷ rest) (intersect_all-Sub op rest))
        (λ h joined l. (joined_some op rest joined h l, joined_several op rest joined h l)) e

  simplified : Option (List (List AccessControl)) → Option AccessControl
  simplified operands = elim operands [
    | none ↦ some AccessControl.always
    | some ops ↦ elim (factor ops) [
      | none ↦ none
      | some (common, unfactored, fallthrough) ↦
          if fallthrough then into_and common else elim (map_each into_and unfactored) [
            | none ↦ none
            | some joined ↦ or_join common joined
          ]
    ]
  ]

  simplified-can_access :
      (operands : Option (List (List AccessControl))) (d : AccessControl) (value : Bool)
      → OperandsSay operands value
      → simplified operands ≡ some d
      → can_access fields d ≡ value
  unfolding simplified factor common_of can_access
  simplified-can_access none d value say e =
      let same : AccessControl.always ≡ d = cc in rw (sym same, say) refl
  simplified-can_access (some []) d value say e = cc
  simplified-can_access (some (op ∷ rest)) d value say e = after_factor-can_access op rest d e ∙ say

  simplified-some :
      (operands : Option (List (List AccessControl)))
      → OperandsFull operands true
      → (d : AccessControl) × (simplified operands ≡ some d)
  unfolding simplified factor common_of
  simplified-some none h = (_, refl)
  simplified-some (some []) h = cc
  simplified-some (some (op ∷ rest)) h = after_factor-some op rest h.0 (λ not_used_up empty.
      not_single op rest [] not_used_up
        (few [] (unfactored_of (intersect_all op rest) (op ∷ rest)).0 (inl empty)))

  -- simplify's branch for an Or with at least one part, given parts in which no Or and no And that
  -- it takes apart is without parts, does not panic, and its result lets a viewer through exactly if
  -- one of the parts does.
  pub simplify_or-can_access :
      (item : AccessControl) (items : Controls)
      → full_list (Controls.cons item items) ≡ true
      → (d : AccessControl) × (simplify_or (Controls.cons item items) ≡ some d)
        × (can_access fields d ≡ can_access fields (AccessControl.or (Controls.cons item items)))
  unfolding simplify_or
  simplify_or-can_access item items h =
      let operands = or_operands_list (Controls.cons item items) in
      let (d, e) = simplified-some operands (or_operands_list-full (Controls.cons item items) h) in
      (
        d,
        unfold simplified in e,
        simplified-can_access operands d _ (or_operands_list-say (Controls.cons item items)) e
            ∙ unfold can_access in refl,
      )
