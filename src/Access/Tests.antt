-- ===== src/Access/Tests.antt =====
-- Runs of access.rs, and the theorems at concrete inputs.
use haunted_house.Common.{◌≡◌, refl, List, [], ◌∷◌, some, none, Bool, true, ◌&&◌, ◌||◌, all}
use haunted_house.Common.Sort.{sort, dedup, list_cmp, contains, set_from, intersection, difference}
use haunted_house.Access.Control.{
  Controls, AccessControl, of_list, control_cmp, can_access, ViewControl,
}
use haunted_house.Access.Combine
use haunted_house.Access.Combine.{
  or_parts, and_parts, pop_or_or, pop_or_wrap, into_and, into_or, common_of, intersect_all,
  unfactored_of, factor,
}
use haunted_house.Access.Simplify.{
  simplify, or_operands, and_operands, and_operands_list, map_each, or_with, and_with, or_join,
  and_join, simplify_or, simplify_and,
}
use haunted_house.Access.Grants.{or-can_access, and-can_access}
use haunted_house.Access.Returns.{filled, full, full_list}
use haunted_house.Access.Exact.{simplify_or-can_access}
use haunted_house.Access.Narrow.{simplify_and-narrows}
use haunted_house.Access.Factor.{Factored, factor-Factored}

abbrev a : AccessControl
a = AccessControl.token (b'A' ∷ [])

abbrev b : AccessControl
b = AccessControl.token (b'B' ∷ [])

abbrev c : AccessControl
c = AccessControl.token (b'C' ∷ [])

abbrev both : List AccessControl → AccessControl
both parts = AccessControl.and (of_list parts)

abbrev either : List AccessControl → AccessControl
either parts = AccessControl.or (of_list parts)

abbrev viewer : ViewControl
viewer = (b'B' ∷ []) ∷ []

or_run : Combine.or b a ≡ either (a ∷ b ∷ [])
unfolding Combine.or or_parts pop_or_or sort dedup control_cmp list_cmp
or_run = refl

-- The common part of an Or of Ands comes out of it.
simplify_run :
    simplify (either (both (a ∷ b ∷ []) ∷ both (a ∷ c ∷ []) ∷ []))
    ≡ some (both (either (b ∷ c ∷ []) ∷ a ∷ []))
unfolding simplify simplify_or simplify_and or_operands and_operands map_each or_with and_with
    or_join and_join Combine.or Combine.and into_and into_or pop_or_wrap and_parts factor common_of
    intersect_all unfactored_of set_from intersection difference contains sort dedup control_cmp
    list_cmp
simplify_run = refl

-- The viewer of A alone can access this control, but not what it is simplified to.
simplify_absorption : simplify (both (either (a ∷ b ∷ []) ∷ a ∷ [])) ≡ some (both (a ∷ b ∷ []))
unfolding simplify simplify_or simplify_and or_operands and_operands map_each or_with and_with
    or_join and_join Combine.or Combine.and into_and into_or pop_or_wrap and_parts factor common_of
    intersect_all unfactored_of set_from intersection difference contains sort dedup control_cmp
    list_cmp
simplify_absorption = refl

or-can_access_example :
    can_access viewer (Combine.or a b) ≡ (can_access viewer a || can_access viewer b)
or-can_access_example = or-can_access viewer a b (λ e f. cc)

and-can_access_example :
    can_access viewer (Combine.and a b) ≡ (can_access viewer a && can_access viewer b)
and-can_access_example = and-can_access viewer a b

factor-Factored_example :
    (f : List AccessControl × List (List AccessControl) × Bool) × (factor
        ((a ∷ b ∷ []) ∷ (a ∷ c ∷ []) ∷ [])
      ≡ some f)
    × Factored (can_access viewer) ((a ∷ b ∷ []) ∷ (a ∷ c ∷ []) ∷ []) f
factor-Factored_example = factor-Factored (can_access viewer) (a ∷ b ∷ []) ((a ∷ c ∷ []) ∷ [])

abbrev parts : Controls
parts = of_list (both (a ∷ c ∷ []) ∷ [])

parts_full : full_list (Controls.cons (both (a ∷ b ∷ [])) parts) ≡ true
unfolding full
parts_full = refl

simplify_or-can_access_example :
    (d : AccessControl) × (simplify_or (Controls.cons (both (a ∷ b ∷ [])) parts) ≡ some d)
    × (can_access viewer d
        ≡ can_access viewer (AccessControl.or (Controls.cons (both (a ∷ b ∷ [])) parts)))
simplify_or-can_access_example = simplify_or-can_access viewer (both (a ∷ b ∷ [])) parts parts_full

abbrev rest : Controls
rest = of_list (a ∷ [])

operands_some : filled (and_operands_list (Controls.cons (either (a ∷ b ∷ [])) rest)) ≡ true
unfolding and_operands set_from
operands_some = refl

operands_filled : all filled (and_operands_list (Controls.cons (either (a ∷ b ∷ [])) rest)) ≡ true
unfolding and_operands set_from contains control_cmp list_cmp
operands_filled = refl

simplify_and-narrows_example :
    (d : AccessControl) × (simplify_and (Controls.cons (either (a ∷ b ∷ [])) rest) ≡ some d)
    × (can_access viewer d ≡ true
        → can_access viewer (AccessControl.and (Controls.cons (either (a ∷ b ∷ [])) rest)) ≡ true)
simplify_and-narrows_example =
    simplify_and-narrows viewer (either (a ∷ b ∷ [])) rest operands_some operands_filled

-- An And of nothing but Always is a panic.
simplify_always : simplify (both (AccessControl.always ∷ [])) ≡ none
unfolding simplify simplify_and and_operands factor common_of
simplify_always = refl
