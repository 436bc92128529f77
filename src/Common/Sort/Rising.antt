-- ===== src/Common/Sort/Rising.antt =====
-- Sorted numbers, and sorted numbers without repetition.
use Prim.Native.Nat.{ℕ, ◌+◌, ◌≤◌}
use mathlib.Core.Path.{◌≡◌, refl}
use mathlib.Core.List.{List, [], ◌∷◌}
use native.Mathlib.Omega.{arith}
use haunted_house.Common.Sort.{nat_ord, insert_sorted, sort, dedup_from, dedup}

abbrev NonFalling : ℕ → List ℕ → Type 0
NonFalling low [] = Unit {0}
NonFalling low (x ∷ l) = (low ≤ x) × NonFalling x l

-- Strictly from low to high, from `low` on.
abbrev pub Climbs : ℕ → List ℕ → Type 0
Climbs low [] = Unit {0}
Climbs low (x ∷ l) = (low ≤ x) × Climbs (x + 1) l

NonFalling-insert_sorted :
    (low x : ℕ) (l : List ℕ) → low ≤ x → NonFalling low l → NonFalling low (insert_sorted x l)
unfolding insert_sorted
NonFalling-insert_sorted low x [] h s = (h, tt)
NonFalling-insert_sorted low x (y ∷ l) h s =
    ground (arith, NonFalling-insert_sorted y x l, s.0, s.1)

NonFalling-sort : (l : List ℕ) → NonFalling 0 (sort l)
unfolding sort
NonFalling-sort [] = tt
NonFalling-sort (x ∷ l) = NonFalling-insert_sorted 0 x (sort l) (omega arith) (NonFalling-sort l)

Climbs-dedup_from :
    (low x : ℕ) (l : List ℕ) → low ≤ x → NonFalling x l → Climbs low (dedup_from x l)
unfolding dedup_from
Climbs-dedup_from low x [] h s = (h, tt)
Climbs-dedup_from low x (y ∷ l) h s =
    ground (arith, Climbs-dedup_from low x l, Climbs-dedup_from (x + 1) y l, s.0, s.1)

-- Sorting and removing repetitions gives numbers that rise strictly.
pub dedup-sort-Climbs : (l : List ℕ) → Climbs 0 (dedup (sort l))
unfolding dedup
dedup-sort-Climbs l = push (sort l) (NonFalling-sort l)
  where
    push : (l : List ℕ) → NonFalling 0 l → Climbs 0 (dedup l)
    push [] s = tt
    push (x ∷ l) s = Climbs-dedup_from 0 x l s.0 s.1

sort-Climbs : (low : ℕ) (l : List ℕ) → Climbs low l → sort l ≡ l
unfolding sort insert_sorted
sort-Climbs low [] c = refl
sort-Climbs low (x ∷ []) c = refl
sort-Climbs low (x ∷ y ∷ l) c = rw (sort-Climbs (x + 1) (y ∷ l) c.1) (ground (arith, c.1.0))

dedup-Climbs : (low : ℕ) (l : List ℕ) → Climbs low l → dedup l ≡ l
unfolding dedup dedup_from
dedup-Climbs low [] c = refl
dedup-Climbs low (x ∷ []) c = refl
dedup-Climbs low (x ∷ y ∷ l) c = ground (arith, c.1.0, dedup-Climbs (x + 1) (y ∷ l) c.1)

-- Doing it again changes nothing.
pub dedup-sort-again : (l : List ℕ) → dedup (sort (dedup (sort l))) ≡ dedup (sort l)
dedup-sort-again l =
    let c = dedup-sort-Climbs l in
    rw (sort-Climbs 0 (dedup (sort l)) c) (dedup-Climbs 0 (dedup (sort l)) c)
