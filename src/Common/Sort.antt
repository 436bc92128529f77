-- ===== src/Common/Sort.antt =====
-- The ordering, `sort`, `dedup` and sets of the standard library, as the source uses them.
pub mod Rising
use Prim.Native.Nat.{ℕ, compare, Ordering}
use mathlib.Core.Path.{◌≡◌, refl}
use mathlib.Core.Bool.{Bool, true, false, ◌&&◌, ◌||◌}
use mathlib.Core.List.{List, [], ◌∷◌, ◌++◌}
use native.Mathlib.Omega.{arith}
use haunted_house.Common.Lists.{any, all, count_if}
use haunted_house.Common.Tests.{if◌then◌else◌}

-- A derived `Ord`, whose `Equal` is the derived `==`.
pub record Ord {ℓ} (A : Type ℓ) : Type ℓ where
  pub cmp : A → A → Ordering
  pub cmp_eq : (a b : A) → cmp a b ≡ Ordering.eq → a ≡ b
  pub cmp_refl : (a : A) → cmp a a ≡ Ordering.eq

pub nat_cmp_eq : (a b : ℕ) → compare a b ≡ Ordering.eq → a ≡ b
nat_cmp_eq a b h = ground arith

pub nat_cmp_refl : (a : ℕ) → compare a a ≡ Ordering.eq
nat_cmp_refl a = ground arith

instance abbrev pub nat_ord : Ord ℕ
nat_ord = record { cmp = compare; cmp_eq = nat_cmp_eq; cmp_refl = nat_cmp_refl }

-- The first ordering unless it is `Equal`.
abbrev pub then_cmp : Ordering → Ordering → Ordering
then_cmp Ordering.eq b = b
then_cmp Ordering.lt b = Ordering.lt
then_cmp Ordering.gt b = Ordering.gt

pub then_cmp_eq :
    (a b : Ordering) → then_cmp a b ≡ Ordering.eq → (a ≡ Ordering.eq) × (b ≡ Ordering.eq)
then_cmp_eq Ordering.eq b h = (refl, h)
then_cmp_eq Ordering.lt b h = cc
then_cmp_eq Ordering.gt b h = cc

module _ {ℓ} {A : Type ℓ} ⦃o : Ord A⦄ where
  -- Lexicographic, a proper prefix being less.
  unfoldable pub list_cmp : List A → List A → Ordering
  list_cmp [] [] = Ordering.eq
  list_cmp [] (y ∷ ys) = Ordering.lt
  list_cmp (x ∷ xs) [] = Ordering.gt
  list_cmp (x ∷ xs) (y ∷ ys) = then_cmp (o.cmp x y) (list_cmp xs ys)

  pub list_cmp_eq : (xs ys : List A) → list_cmp xs ys ≡ Ordering.eq → xs ≡ ys
  unfolding list_cmp
  list_cmp_eq [] [] h = refl
  list_cmp_eq [] (y ∷ ys) h = cc
  list_cmp_eq (x ∷ xs) [] h = cc
  list_cmp_eq (x ∷ xs) (y ∷ ys) h = ground (arith, o.cmp_eq x y, list_cmp_eq xs ys)

  pub list_cmp_refl : (xs : List A) → list_cmp xs xs ≡ Ordering.eq
  unfolding list_cmp
  list_cmp_refl [] = refl
  list_cmp_refl (x ∷ xs) = ground (arith, o.cmp_refl x, list_cmp_refl xs)

  abbrev pub eqb : A → A → Bool
  eqb a b = elim (o.cmp a b) [ Ordering.eq ↦ true | _ ↦ false ]

  pub eqb→eq : (a b : A) → eqb a b ≡ true → a ≡ b
  eqb→eq a b h = ground (arith, o.cmp_eq a b)

  pub eqb_refl : (a : A) → eqb a a ≡ true
  eqb_refl a = ground (arith, o.cmp_refl a)

  pub insert_sorted : A → List A → List A
  insert_sorted x [] = x ∷ []
  insert_sorted x (y ∷ ys) = elim (o.cmp x y) [
    | Ordering.gt ↦ y ∷ insert_sorted x ys
    | _ ↦ x ∷ y ∷ ys
  ]

  -- `sort` and `sort_unstable`: values that compare equal are the same value.
  unfoldable pub sort : List A → List A
  unfolding insert_sorted
  sort [] = []
  sort (x ∷ xs) = insert_sorted x (sort xs)

  pub dedup_from : A → List A → List A
  dedup_from x [] = x ∷ []
  dedup_from x (y ∷ ys) = elim (o.cmp x y) [
    | Ordering.eq ↦ dedup_from x ys
    | _ ↦ x ∷ dedup_from y ys
  ]

  -- `dedup` keeps the first of each run of equal values.
  unfoldable pub dedup : List A → List A
  unfolding dedup_from
  dedup [] = []
  dedup (x ∷ xs) = dedup_from x xs

  unfoldable pub contains : List A → A → Bool
  contains [] a = false
  contains (x ∷ xs) a = eqb a x || contains xs a

  -- A HashSet is a list with no value twice. Its order stands for the order of iteration.
  unfoldable pub set_from : List A → List A
  set_from [] = []
  set_from (x ∷ xs) = let rest = set_from xs in if contains rest x then rest else x ∷ rest

  unfoldable pub intersection : List A → List A → List A
  intersection [] ys = []
  intersection (x ∷ xs) ys =
      let rest = intersection xs ys in if contains ys x then x ∷ rest else rest

  unfoldable pub difference : List A → List A → List A
  difference [] ys = []
  difference (x ∷ xs) ys = let rest = difference xs ys in if contains ys x then rest else x ∷ rest

instance abbrev pub list_ord {ℓ} : {A : Type ℓ} ⦃o : Ord A⦄ → Ord (List A)
list_ord ⦃o⦄ = record {
  cmp = list_cmp ⦃o = o⦄;
  cmp_eq = list_cmp_eq ⦃o = o⦄;
  cmp_refl = list_cmp_refl ⦃o = o⦄;
}

module _ {ℓ} {A : Type ℓ} ⦃o : Ord A⦄ (p : A → Bool) where
  any-insert_sorted : (x : A) (ys : List A) → any p (insert_sorted x ys) ≡ (p x || any p ys)
  unfolding insert_sorted
  any-insert_sorted x [] = refl
  any-insert_sorted x (y ∷ ys) = ground (arith, any-insert_sorted x ys)

  pub any-sort : (xs : List A) → any p (sort xs) ≡ any p xs
  unfolding sort
  any-sort [] = refl
  any-sort (x ∷ xs) = ground (arith, any-insert_sorted x (sort xs), any-sort xs)

  all-insert_sorted : (x : A) (ys : List A) → all p (insert_sorted x ys) ≡ (p x && all p ys)
  unfolding insert_sorted
  all-insert_sorted x [] = refl
  all-insert_sorted x (y ∷ ys) = ground (arith, all-insert_sorted x ys)

  pub all-sort : (xs : List A) → all p (sort xs) ≡ all p xs
  unfolding sort
  all-sort [] = refl
  all-sort (x ∷ xs) = ground (arith, all-insert_sorted x (sort xs), all-sort xs)

  any-dedup_from : (x : A) (ys : List A) → any p (dedup_from x ys) ≡ (p x || any p ys)
  unfolding dedup_from
  any-dedup_from x [] = refl
  any-dedup_from x (y ∷ ys) = ground (arith, o.cmp_eq x y, any-dedup_from x ys, any-dedup_from y ys)

  pub any-dedup : (xs : List A) → any p (dedup xs) ≡ any p xs
  unfolding dedup
  any-dedup [] = refl
  any-dedup (x ∷ xs) = any-dedup_from x xs

  all-dedup_from : (x : A) (ys : List A) → all p (dedup_from x ys) ≡ (p x && all p ys)
  unfolding dedup_from
  all-dedup_from x [] = refl
  all-dedup_from x (y ∷ ys) = ground (arith, o.cmp_eq x y, all-dedup_from x ys, all-dedup_from y ys)

  pub all-dedup : (xs : List A) → all p (dedup xs) ≡ all p xs
  unfolding dedup
  all-dedup [] = refl
  all-dedup (x ∷ xs) = all-dedup_from x xs

  pub any-append : (xs ys : List A) → any p (xs ++ ys) ≡ (any p xs || any p ys)
  any-append [] ys = refl
  any-append (x ∷ xs) ys = ground (arith, any-append xs ys)

  pub all-append : (xs ys : List A) → all p (xs ++ ys) ≡ (all p xs && all p ys)
  all-append [] ys = refl
  all-append (x ∷ xs) ys = ground (arith, all-append xs ys)

  count_if-insert_sorted :
      (x : A) (ys : List A) → count_if p (insert_sorted x ys) ≡ count_if p (x ∷ ys)
  unfolding insert_sorted
  count_if-insert_sorted x [] = refl
  count_if-insert_sorted x (y ∷ ys) = ground (arith, count_if-insert_sorted x ys)

  pub count_if-sort : (xs : List A) → count_if p (sort xs) ≡ count_if p xs
  unfolding sort
  count_if-sort [] = refl
  count_if-sort (x ∷ xs) = ground (arith, count_if-insert_sorted x (sort xs), count_if-sort xs)
