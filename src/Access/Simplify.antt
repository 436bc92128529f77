-- ===== src/Access/Simplify.antt =====
-- access.rs: simplify. `none` is a panic: a failed assertion or an unwrap of nothing.
use haunted_house.Common.{List, [], ◌∷◌, ◌++◌, Option, none, some, if◌then◌else◌}
use haunted_house.Common.Sort.{set_from}
use haunted_house.Access.Control.{AccessControl, Controls, to_list, control_ord}
use haunted_house.Access.Combine.{or, and, into_and, into_or, factor}

-- The loop that pops the items of an `Or` from the end and puts the parts of a nested `Or` back at
-- the end, so that they are popped next; `none` where it meets `Always` and returns.
unfoldable mutual
  pub or_operands : AccessControl → Option (List (List AccessControl))
  or_operands (AccessControl.or parts) = or_operands_list parts
  or_operands (AccessControl.and parts) = some (set_from (to_list parts) ∷ [])
  or_operands (AccessControl.token value) = some ((AccessControl.token value ∷ []) ∷ [])
  or_operands AccessControl.always = none

  pub or_operands_list : Controls → Option (List (List AccessControl))
  or_operands_list Controls.nil = some []
  or_operands_list (Controls.cons item items) = elim (or_operands_list items) [
    | none ↦ none
    | some popped ↦ elim (or_operands item) [
      | none ↦ none
      | some operands ↦ some (popped ++ operands)
    ]
  ]

-- The same loop for an `And`, which drops `Always`.
unfoldable mutual
  pub and_operands : AccessControl → List (List AccessControl)
  and_operands (AccessControl.and parts) = and_operands_list parts
  and_operands (AccessControl.or parts) = set_from (to_list parts) ∷ []
  and_operands (AccessControl.token value) = (AccessControl.token value ∷ []) ∷ []
  and_operands AccessControl.always = []

  pub and_operands_list : Controls → List (List AccessControl)
  and_operands_list Controls.nil = []
  and_operands_list (Controls.cons item items) = and_operands_list items ++ and_operands item

-- `unfactored.into_iter().map(f).collect()` for an `f` that may panic.
unfoldable pub map_each :
    (List AccessControl → Option AccessControl)
    → List (List AccessControl)
    → Option (List AccessControl)
map_each f [] = some []
map_each f (x ∷ xs) = elim (f x) [
  | none ↦ none
  | some c ↦ elim (map_each f xs) [ none ↦ none | some cs ↦ some (c ∷ cs) ]
]

-- The branches on the number of unfactored operands, of an `Or` and of an `And`.
unfoldable pub or_with : AccessControl → List AccessControl → Option AccessControl
or_with common [] = some common
or_with common (u ∷ []) = some (or u common)
or_with common (u ∷ v ∷ us) = elim (into_or (u ∷ v ∷ us)) [
  | none ↦ none
  | some unfactored ↦ some (and unfactored common)
]

unfoldable pub and_with : AccessControl → List AccessControl → Option AccessControl
and_with common [] = some common
and_with common (u ∷ []) = some (and u common)
and_with common (u ∷ v ∷ us) = elim (into_and (u ∷ v ∷ us)) [
  | none ↦ none
  | some unfactored ↦ some (and unfactored common)
]

-- What follows the factoring of an `Or` without fallthrough, and of an `And`.
unfoldable pub or_join : List AccessControl → List AccessControl → Option AccessControl
or_join [] unfactored = into_or unfactored
or_join (c ∷ cs) unfactored = elim (into_and (c ∷ cs)) [
  | none ↦ none
  | some common ↦ or_with common unfactored
]

unfoldable pub and_join : List AccessControl → List AccessControl → Option AccessControl
and_join [] unfactored = into_and unfactored
and_join (c ∷ cs) unfactored = elim (into_or (c ∷ cs)) [
  | none ↦ none
  | some common ↦ and_with common unfactored
]

unfoldable pub simplify_or : Controls → Option AccessControl
simplify_or Controls.nil = some AccessControl.always
simplify_or (Controls.cons item items) = elim (or_operands_list (Controls.cons item items)) [
  | none ↦ some AccessControl.always
  | some operands ↦ elim (factor operands) [
    | none ↦ none
    | some (common, unfactored, fallthrough) ↦
        if fallthrough then into_and common else elim (map_each into_and unfactored) [
          | none ↦ none
          | some joined ↦ or_join common joined
        ]
  ]
]

unfoldable pub simplify_and : Controls → Option AccessControl
simplify_and Controls.nil = some AccessControl.always
simplify_and (Controls.cons item items) =
    elim (factor (and_operands_list (Controls.cons item items))) [
      | none ↦ none
      | some (common, unfactored, fallthrough) ↦ elim (map_each into_or unfactored) [
        | none ↦ none
        | some joined ↦ and_join common joined
      ]
    ]

unfoldable mutual
  pub simplify : AccessControl → Option AccessControl
  simplify (AccessControl.or items) = elim (simplify_list items) [
    | none ↦ none
    | some items' ↦ simplify_or items'
  ]
  simplify (AccessControl.and items) = elim (simplify_list items) [
    | none ↦ none
    | some items' ↦ simplify_and items'
  ]
  simplify (AccessControl.token t) = some (AccessControl.token t)
  simplify AccessControl.always = some AccessControl.always

  pub simplify_list : Controls → Option Controls
  simplify_list Controls.nil = some Controls.nil
  simplify_list (Controls.cons c cs) = elim (simplify c) [
    | none ↦ none
    | some c' ↦ elim (simplify_list cs) [ none ↦ none | some cs' ↦ some (Controls.cons c' cs') ]
  ]
