-- ===== src/Access/Factor.antt =====
-- access.rs: what factor keeps of the operands of an Or and of an And.
use haunted_house.Common.{
  ◌≡◌, refl, ◌∙◌, arith, List, [], ◌∷◌, some, Bool, not, ◌&&◌, ◌||◌, any, all, All,
}
use haunted_house.Common.Sort.{
  sort, dedup, any-sort, all-sort, any-dedup, all-dedup, intersection, difference, list_ord,
}
use haunted_house.Common.Sets.{
  Sub, intersection-Sub-left, intersection-Sub-right, any_part, all_part,
}
use haunted_house.Access.Control.{AccessControl, control_ord}
use haunted_house.Access.Combine.{
  common_of, intersect_all, push_unless_empty, unfactored_of, factor,
}

pub intersect_all-Sub :
    (a : List AccessControl) (ops : List (List AccessControl))
    → Sub (intersect_all a ops) a × All (Sub (intersect_all a ops)) ops
unfolding intersect_all
intersect_all-Sub a [] = (λ x h. h, tt)
intersect_all-Sub a (b ∷ ops) =
    let (under, rest) = intersect_all-Sub (intersection a b) ops in
    (
      λ x h. intersection-Sub-left a b x (under x h),
      (λ x h. intersection-Sub-right a b x (under x h), rest),
    )

module _ (v : AccessControl → Bool) where
  any-left :
      (op common : List AccessControl)
      → any v (dedup (sort (difference op common))) ≡ any v (difference op common)
  any-left op common = any-dedup v (sort (difference op common)) ∙ any-sort v (difference op common)

  all-left :
      (op common : List AccessControl)
      → all v (dedup (sort (difference op common))) ≡ all v (difference op common)
  all-left op common = all-dedup v (sort (difference op common)) ∙ all-sort v (difference op common)

  any-push :
      (left : List AccessControl) (u : List (List AccessControl) × Bool)
      → ((push_unless_empty left u).1 || any (all v) (push_unless_empty left u).0)
        ≡ (all v left || (u.1 || any (all v) u.0))
  any-push [] (ops, b) = refl
  any-push (x ∷ xs) (ops, b) = ground arith

  all-push :
      (left : List AccessControl) (u : List (List AccessControl) × Bool)
      → (not (push_unless_empty left u).1 && all (any v) (push_unless_empty left u).0)
        ≡ (any v left && (not u.1 && all (any v) u.0))
  all-push [] (ops, b) = refl
  all-push (x ∷ xs) (ops, b) = ground arith

  pub any-unfactored_of :
      (common : List AccessControl) (ops : List (List AccessControl))
      → All (Sub common) ops
      → any (all v) ops ≡ (
          all v common
          && ((unfactored_of common ops).1 || any (all v) (unfactored_of common ops).0))
  unfolding unfactored_of
  any-unfactored_of common [] s = ground arith
  any-unfactored_of common (op ∷ ops) s =
      rw
        (
          any-push (dedup (sort (difference op common))) (unfactored_of common ops),
          all-left op common,
          all_part v op common s.0,
          any-unfactored_of common ops s.1,
        )
        (ground arith)

  pub all-unfactored_of :
      (common : List AccessControl) (ops : List (List AccessControl))
      → All (Sub common) ops
      → all (any v) ops ≡ (
          any v common
          || (not (unfactored_of common ops).1 && all (any v) (unfactored_of common ops).0))
  unfolding unfactored_of
  all-unfactored_of common [] s = ground arith
  all-unfactored_of common (op ∷ ops) s =
      rw
        (
          all-push (dedup (sort (difference op common))) (unfactored_of common ops),
          any-left op common,
          any_part v op common s.0,
          all-unfactored_of common ops s.1,
        )
        (ground arith)

-- What a factoring of the operands promises of a test on controls: read as an or of ands, the
-- operands are the common ones and, unless one operand has no others, one of the unfactored ands.
-- Read as an and of ors, they are one of the common ones or, unless one operand has no others, all of
-- the unfactored ors.
abbrev pub Factored :
    (AccessControl → Bool)
    → List (List AccessControl)
    → List AccessControl × List (List AccessControl) × Bool
    → Type 0
Factored v items (common, unfactored, fallthrough) =
    (any (all v) items ≡ (all v common && (fallthrough || any (all v) unfactored)))
    × (all (any v) items ≡ (any v common || (not fallthrough && all (any v) unfactored)))

-- factor gives a result for every list of operands but the empty one, and the result says the same
-- as the operands: an or of ands of the operands holds exactly if the common controls hold and either
-- an operand is used up or one of the unfactored ands holds, and an and of ors of the operands holds
-- exactly if one of the common controls holds or no operand is used up and all unfactored ors hold.
pub factor-Factored :
    (v : AccessControl → Bool) (op : List AccessControl) (items : List (List AccessControl))
    → (f : List AccessControl × List (List AccessControl) × Bool) × (factor (op ∷ items) ≡ some f)
      × Factored v (op ∷ items) f
unfolding factor common_of
factor-Factored v op items =
    let common = intersect_all op items in
    let u = unfactored_of common (op ∷ items) in
    let subs : All (Sub common) (op ∷ items) = intersect_all-Sub op items in
    (
      (common, dedup (sort u.0), u.1),
      refl,
      (
        rw (any-dedup (all v) (sort u.0), any-sort (all v) u.0)
            (any-unfactored_of v common (op ∷ items) subs),
        rw (all-dedup (any v) (sort u.0), all-sort (any v) u.0)
            (all-unfactored_of v common (op ∷ items) subs),
      ),
    )
