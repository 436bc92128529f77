-- ===== src/Access/Grants.antt =====
-- access.rs: what a viewer can access through combined and factored controls.
use haunted_house.Common.{
  ◌≡◌, refl, sym, ap, ◌∙◌, arith, List, [], ◌∷◌, ◌++◌, none, some, true, ◌&&◌, ◌||◌, any, all,
  Option-cases, inl, inr,
}
use haunted_house.Common.Sets.{dedup-sort_nonempty}
use haunted_house.Common.Sort.{
  sort, dedup, any-sort, all-sort, any-dedup, all-dedup, any-append, all-append,
}
use haunted_house.Access.Control.{
  AccessControl, Controls, to_list, of_list, to_list-of_list, ViewControl, can_access,
  can_access_any, can_access_all, control_ord,
}
use haunted_house.Access.Combine.{or_parts, and_parts, pop_or_or, pop_or_wrap, or, and}

module _ (fields : ViewControl) where
  pub can_access_any-any :
      (cs : Controls) → can_access_any fields cs ≡ any (can_access fields) (to_list cs)
  unfolding can_access
  can_access_any-any Controls.nil = refl
  can_access_any-any (Controls.cons c cs) = rw (can_access_any-any cs) refl

  pub can_access_all-all :
      (cs : Controls) → can_access_all fields cs ≡ all (can_access fields) (to_list cs)
  unfolding can_access
  can_access_all-all Controls.nil = refl
  can_access_all-all (Controls.cons c cs) = rw (can_access_all-all cs) refl

  pub pop_or_wrap-or :
      (cs : List AccessControl)
      → can_access fields (pop_or_wrap AccessControl.or cs) ≡ any (can_access fields) cs
  unfolding pop_or_wrap can_access
  pop_or_wrap-or [] = refl
  pop_or_wrap-or (c ∷ []) = ground arith
  pop_or_wrap-or (c ∷ d ∷ cs) = rw (can_access_any-any (of_list cs), to_list-of_list cs) refl

  pub pop_or_wrap-and :
      (cs : List AccessControl)
      → can_access fields (pop_or_wrap AccessControl.and cs) ≡ all (can_access fields) cs
  unfolding pop_or_wrap can_access
  pop_or_wrap-and [] = refl
  pop_or_wrap-and (c ∷ []) = ground arith
  pop_or_wrap-and (c ∷ d ∷ cs) = rw (can_access_all-all (of_list cs), to_list-of_list cs) refl

  pub any-dedup-sort :
      (cs : List AccessControl)
      → any (can_access fields) (dedup (sort cs)) ≡ any (can_access fields) cs
  any-dedup-sort cs = any-dedup (can_access fields) (sort cs) ∙ any-sort (can_access fields) cs

  pub all-dedup-sort :
      (cs : List AccessControl)
      → all (can_access fields) (dedup (sort cs)) ≡ all (can_access fields) cs
  all-dedup-sort cs = all-dedup (can_access fields) (sort cs) ∙ all-sort (can_access fields) cs

  and_parts-all : (c : AccessControl) → all (can_access fields) (and_parts c) ≡ can_access fields c
  unfolding and_parts can_access
  and_parts-all (AccessControl.or cs) = ground arith
  and_parts-all (AccessControl.and cs) = sym (can_access_all-all cs)
  and_parts-all (AccessControl.token t) = ground arith
  and_parts-all AccessControl.always = refl

  -- A viewer can access the and of two controls exactly if the viewer can access both.
  pub and-can_access :
      (self other : AccessControl)
      → can_access fields (and self other) ≡ (can_access fields self && can_access fields other)
  unfolding and
  and-can_access self other =
      pop_or_wrap-and (dedup (sort (and_parts self ++ and_parts other)))
      ∙ all-dedup-sort (and_parts self ++ and_parts other)
      ∙ all-append (can_access fields) (and_parts self) (and_parts other)
      ∙ rw (and_parts-all self, and_parts-all other) refl

  or_parts-any :
      (c : AccessControl) (parts : List AccessControl)
      → or_parts c ≡ some parts
      → any (can_access fields) parts ≡ can_access fields c
  unfolding or_parts can_access
  or_parts-any (AccessControl.or cs) parts e = ground (arith, can_access_any-any cs)
  or_parts-any (AccessControl.and cs) parts e = ground arith
  or_parts-any (AccessControl.token t) parts e = ground arith
  or_parts-any AccessControl.always parts e = cc

  or_parts-none : (c : AccessControl) → or_parts c ≡ none → can_access fields c ≡ true
  unfolding or_parts can_access
  or_parts-none (AccessControl.or cs) e = cc
  or_parts-none (AccessControl.and cs) e = cc
  or_parts-none (AccessControl.token t) e = cc
  or_parts-none AccessControl.always e = refl

  pop_or_or-any :
      (cs : List AccessControl)
      → (cs ≡ [] → ⊥)
      → can_access fields (pop_or_or cs) ≡ any (can_access fields) cs
  unfolding pop_or_or can_access
  pop_or_or-any [] h = absurd (h refl)
  pop_or_or-any (c ∷ []) h = ground arith
  pop_or_or-any (c ∷ d ∷ cs) h = rw (can_access_any-any (of_list cs), to_list-of_list cs) refl

  or_parts-empty : (c : AccessControl) → or_parts c ≡ some [] → c ≡ AccessControl.or Controls.nil
  unfolding or_parts
  or_parts-empty (AccessControl.or Controls.nil) e = refl
  or_parts-empty (AccessControl.or (Controls.cons c cs)) e = cc
  or_parts-empty (AccessControl.and cs) e = cc
  or_parts-empty (AccessControl.token t) e = cc
  or_parts-empty AccessControl.always e = cc

  append_empty : (xs ys : List AccessControl) → xs ++ ys ≡ [] → (xs ≡ []) × (ys ≡ [])
  append_empty [] ys h = (refl, h)
  append_empty (x ∷ xs) ys h = cc

  -- A viewer can access the or of two controls exactly if the viewer can access one of them, unless
  -- both are an Or without parts (whose or is Always).
  pub or-can_access :
      (self other : AccessControl)
      → (self ≡ AccessControl.or Controls.nil → other ≡ AccessControl.or Controls.nil → ⊥)
      → can_access fields (or self other) ≡ (can_access fields self || can_access fields other)
  unfolding or
  or-can_access self other h = elim (Option-cases (or_parts self)) [
    | inl e ↦ rw (e, or, or_parts-none self e) (unfold can_access in refl)
    | inr (a, e) ↦ elim (Option-cases (or_parts other)) [
      | inl e' ↦ rw (e, or, e', or_parts-none other e') (unfold can_access in ground arith)
      | inr (b, e') ↦
          rw (e, or, e')
            (pop_or_or-any (dedup (sort (a ++ b))) (λ empty.
                let (ea, eb) = append_empty a b (dedup-sort_nonempty (a ++ b) empty) in
                h (or_parts-empty self (e ∙ ap some ea)) (or_parts-empty other (e' ∙ ap some eb)))
              ∙ any-dedup-sort (a ++ b)
              ∙ any-append (can_access fields) a b
              ∙ rw (or_parts-any self a e, or_parts-any other b e') refl)
    ]
  ]
