-- ===== src/Access/Combine.antt =====
-- access.rs: or, and, into_or, into_and and factor.
use haunted_house.Common.{List, [], ◌∷◌, ◌++◌, Option, none, some, Bool, true, false}
use haunted_house.Common.Sort.{sort, dedup, intersection, difference, list_ord}
use haunted_house.Access.Control.{AccessControl, Controls, to_list, of_list, control_ord}

-- `match self` and `match other`; `none` is the early return of `Always`.
unfoldable pub or_parts : AccessControl → Option (List AccessControl)
or_parts (AccessControl.or values) = some (to_list values)
or_parts AccessControl.always = none
or_parts c = some (c ∷ [])

unfoldable pub and_parts : AccessControl → List AccessControl
and_parts (AccessControl.and values) = to_list values
and_parts AccessControl.always = []
and_parts c = c ∷ []

unfoldable pub pop_or_or : List AccessControl → AccessControl
pop_or_or [] = AccessControl.always
pop_or_or (c ∷ []) = c
pop_or_or (c ∷ d ∷ rest) = AccessControl.or (of_list (c ∷ d ∷ rest))

unfoldable pub or : AccessControl → AccessControl → AccessControl
or self other = elim (or_parts self) [
  | none ↦ AccessControl.always
  | some a ↦ elim (or_parts other) [
    | none ↦ AccessControl.always
    | some b ↦ pop_or_or (dedup (sort (a ++ b)))
  ]
]

-- `if collected.len() == 1 { collected.pop() }`, and the wrapped list otherwise.
unfoldable pub pop_or_wrap : (Controls → AccessControl) → List AccessControl → AccessControl
pop_or_wrap wrap [] = wrap Controls.nil
pop_or_wrap wrap (c ∷ []) = c
pop_or_wrap wrap (c ∷ d ∷ rest) = wrap (of_list (c ∷ d ∷ rest))

unfoldable pub and : AccessControl → AccessControl → AccessControl
and self other = pop_or_wrap AccessControl.and (dedup (sort (and_parts self ++ and_parts other)))

-- `none` is the failed `assert!(!items.is_empty())`.
unfoldable pub into_and : List AccessControl → Option AccessControl
into_and [] = none
into_and (c ∷ items) = some (pop_or_wrap AccessControl.and (dedup (sort (c ∷ items))))

unfoldable pub into_or : List AccessControl → Option AccessControl
into_or [] = none
into_or (c ∷ items) = some (pop_or_wrap AccessControl.or (dedup (sort (c ∷ items))))

unfoldable pub intersect_all : List AccessControl → List (List AccessControl) → List AccessControl
intersect_all a [] = a
intersect_all a (b ∷ ops) = intersect_all (intersection a b) ops

-- `reduce` with the intersection; `none` is the unwrap of nothing.
unfoldable pub common_of : List (List AccessControl) → Option (List AccessControl)
common_of [] = none
common_of (op ∷ ops) = some (intersect_all op ops)

-- What is left of each operand, and whether nothing is left of one.
abbrev pub push_unless_empty :
    List AccessControl → List (List AccessControl) × Bool → List (List AccessControl) × Bool
push_unless_empty [] (unfactored, fallthrough) = (unfactored, true)
push_unless_empty (x ∷ xs) (unfactored, fallthrough) = ((x ∷ xs) ∷ unfactored, fallthrough)

unfoldable pub unfactored_of :
    List AccessControl → List (List AccessControl) → List (List AccessControl) × Bool
unfactored_of common [] = ([], false)
unfactored_of common (op ∷ items) =
    push_unless_empty (dedup (sort (difference op common))) (unfactored_of common items)

unfoldable pub factor :
    List (List AccessControl) → Option (List AccessControl × List (List AccessControl) × Bool)
factor items = elim (common_of items) [
  | none ↦ none
  | some common ↦
      let (unfactored, fallthrough) = unfactored_of common items in
      some (common, dedup (sort unfactored), fallthrough)
]
