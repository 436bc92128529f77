-- ===== src/Access/Leftover.antt =====
-- access.rs: what an operand leaves behind when the common controls are taken out of an Or.
use haunted_house.Common.{
  ◌≡◌, ◌≢◌, refl, sym, ◌∙◌, List, [], ◌∷◌, Bool, true, false, all, All, and_split,
}
use haunted_house.Common.Sort.{
  sort, dedup, contains, intersection, difference, list_ord, eqb, eqb→eq,
}
use haunted_house.Common.Sets.{
  contains_head, contains-dedup-sort, contains-difference, contains-intersection,
}
use haunted_house.Access.Control.{AccessControl, control_ord}
use haunted_house.Access.Combine.{intersect_all, push_unless_empty, unfactored_of}

-- Where every operand leaves the same behind, what is left would be common to all of them.
LeavesAll : List AccessControl → List AccessControl → List (List AccessControl) → Type 0
LeavesAll r common ops = All (λ op. (dedup (sort (difference op common)) ≡ r) × (r ≢ [])) ops

leaves :
    (r common : List AccessControl) (ops : List (List AccessControl))
    → (unfactored_of common ops).1 ≡ false
    → all (eqb r) (unfactored_of common ops).0 ≡ true
    → LeavesAll r common ops
unfolding unfactored_of LeavesAll
leaves r common [] h k = tt
leaves r common (op ∷ ops) h k =
    push_cases (dedup (sort (difference op common))) (unfactored_of common ops) h k
      (leaves r common ops)
  where
    push_cases :
        (left : List AccessControl) (u : List (List AccessControl) × Bool)
        → (push_unless_empty left u).1 ≡ false
        → all (eqb r) (push_unless_empty left u).0 ≡ true
        → (u.1 ≡ false → all (eqb r) u.0 ≡ true → LeavesAll r common ops)
        → ((left ≡ r) × (r ≢ [])) × LeavesAll r common ops
    push_cases [] u h k rest = cc
    push_cases (x ∷ xs) (us, b) h k rest =
        let (here, others) = and_split (eqb r (x ∷ xs)) (all (eqb r) us) k in
        let same = eqb→eq r (x ∷ xs) here in ((sym same, λ empty. cc), rest h others)

left_behind :
    (y : AccessControl) (ys common op : List AccessControl)
    → dedup (sort (difference op common)) ≡ y ∷ ys
    → (contains op y ≡ true) × (contains common y ≡ false)
left_behind y ys common op e =
    contains-difference op common y
      (sym (contains-dedup-sort (difference op common) y) ∙ rw e (contains_head y ys))

shared :
    (y : AccessControl) (ys common a : List AccessControl) (ops : List (List AccessControl))
    → contains a y ≡ true
    → LeavesAll (y ∷ ys) common ops
    → contains (intersect_all a ops) y ≡ true
unfolding intersect_all LeavesAll
shared y ys common a [] h l = h
shared y ys common a (op ∷ ops) h l =
    shared y ys common (intersection a op) ops
      (contains-intersection a op y h (left_behind y ys common op l.0.0).0) l.1

-- So one operand cannot be all that is left, unless an operand is used up.
abbrev pub NeverSingle :
    List AccessControl → List (List AccessControl) → List AccessControl → Type 0
NeverSingle op items r =
    let common = intersect_all op items in
    (unfactored_of common (op ∷ items)).1 ≡ false
    → all (eqb r) (unfactored_of common (op ∷ items)).0 ≡ true
    → ⊥

pub not_single :
    (op : List AccessControl) (items : List (List AccessControl)) (r : List AccessControl)
    → NeverSingle op items r
unfolding LeavesAll
not_single op items [] h k = (leaves [] (intersect_all op items) (op ∷ items) h k).0.1 refl
not_single op items (y ∷ ys) h k =
    let l = leaves (y ∷ ys) (intersect_all op items) (op ∷ items) h k in
    let (inside, outside) = left_behind y ys (intersect_all op items) op l.0.0 in
    let everywhere = shared y ys (intersect_all op items) op items inside l.1 in cc
