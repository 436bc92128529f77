-- ===== src/Common/Sets.antt =====
-- What the set operations keep of a test on the values.
use mathlib.Core.Path.{◌≡◌, refl, sym, ◌∙◌}
use mathlib.Core.Bool.{Bool, true, false, ◌&&◌, ◌||◌}
use mathlib.Core.List.{List, [], ◌∷◌}
use native.Mathlib.Omega.{arith}
use haunted_house.Common.Lists.{any, all}
use haunted_house.Common.Sort.{
  Ord, set_from, eqb, eqb→eq, eqb_refl, sort, dedup, contains, intersection, difference, any-sort,
  any-dedup,
}

module _ {ℓ} {A : Type ℓ} ⦃o : Ord A⦄ where
  abbrev pub Sub : List A → List A → Type ℓ
  Sub xs ys = (a : A) → contains xs a ≡ true → contains ys a ≡ true

  Sub-tail : (x : A) (xs ys : List A) → Sub (x ∷ xs) ys → Sub xs ys
  unfolding contains
  Sub-tail x xs ys s a h = s a (ground (arith, h))

  pub contains_head : (x : A) (xs : List A) → contains (x ∷ xs) x ≡ true
  unfolding contains
  contains_head x xs = ground (arith, eqb_refl x)

  pub intersection-Sub-left : (xs ys : List A) → Sub (intersection xs ys) xs
  unfolding intersection contains
  intersection-Sub-left [] ys a h = h
  intersection-Sub-left (x ∷ xs) ys a h = ground (arith, intersection-Sub-left xs ys a)

  pub intersection-Sub-right : (xs ys : List A) → Sub (intersection xs ys) ys
  unfolding intersection contains
  intersection-Sub-right [] ys a h = cc
  intersection-Sub-right (x ∷ xs) ys a h =
      ground (arith, intersection-Sub-right xs ys a, eqb→eq a x)

  pub dedup-sort_nonempty : (xs : List A) → dedup (sort xs) ≡ [] → xs ≡ []
  dedup-sort_nonempty [] h = refl
  dedup-sort_nonempty (x ∷ xs) h =
      let every : any (λ (a : A). true) (dedup (sort (x ∷ xs))) ≡ true =
        any-dedup (λ (a : A). true) (sort (x ∷ xs)) ∙ any-sort (λ (a : A). true) (x ∷ xs) in
      absurd (cc (rw h at every))

module _ {ℓ} {A : Type ℓ} ⦃o : Ord A⦄ (p : A → Bool) where
  contains-any : (xs : List A) (a : A) → contains xs a ≡ true → p a ≡ true → any p xs ≡ true
  unfolding contains
  contains-any [] a h k = cc
  contains-any (x ∷ xs) a h k = ground (arith, contains-any xs a, eqb→eq a x)

  contains-all : (xs : List A) (a : A) → contains xs a ≡ true → all p xs ≡ true → p a ≡ true
  unfolding contains
  contains-all [] a h k = cc
  contains-all (x ∷ xs) a h k = ground (arith, contains-all xs a, eqb→eq a x)

  Sub-any : (xs ys : List A) → Sub xs ys → any p xs ≡ true → any p ys ≡ true
  Sub-any [] ys s h = cc
  Sub-any (x ∷ xs) ys s h =
      ground
        (arith, contains-any ys x (s x (contains_head x xs)), Sub-any xs ys (Sub-tail x xs ys s))

  Sub-all : (xs ys : List A) → Sub xs ys → all p ys ≡ true → all p xs ≡ true
  Sub-all [] ys s h = refl
  Sub-all (x ∷ xs) ys s h =
      ground
        (arith, contains-all ys x (s x (contains_head x xs)), Sub-all xs ys (Sub-tail x xs ys s) h)

  any-split : (xs ys : List A) → any p xs ≡ true → (any p ys || any p (difference xs ys)) ≡ true
  unfolding difference
  any-split [] ys h = cc
  any-split (x ∷ xs) ys h = ground (arith, any-split xs ys, contains-any ys x)

  any-difference : (xs ys : List A) → any p (difference xs ys) ≡ true → any p xs ≡ true
  unfolding difference
  any-difference [] ys h = h
  any-difference (x ∷ xs) ys h = ground (arith, any-difference xs ys)

  all-split : (xs ys : List A) → all p ys ≡ true → all p (difference xs ys) ≡ true → all p xs ≡ true
  unfolding difference
  all-split [] ys h k = refl
  all-split (x ∷ xs) ys h k = ground (arith, all-split xs ys h, contains-all ys x)

  all-difference : (xs ys : List A) → all p xs ≡ true → all p (difference xs ys) ≡ true
  unfolding difference
  all-difference [] ys h = refl
  all-difference (x ∷ xs) ys h = ground (arith, all-difference xs ys)

  -- A list is what it shares with a part of it, and the rest.
  pub any_part : (xs ys : List A) → Sub ys xs → any p xs ≡ (any p ys || any p (difference xs ys))
  any_part xs ys s = ground (arith, any-split xs ys, any-difference xs ys, Sub-any ys xs s)

  pub all_part : (xs ys : List A) → Sub ys xs → all p xs ≡ (all p ys && all p (difference xs ys))
  all_part xs ys s = ground (arith, all-split xs ys, all-difference xs ys, Sub-all ys xs s)

  pub any-set_from : (xs : List A) → any p (set_from xs) ≡ any p xs
  unfolding set_from
  any-set_from [] = refl
  any-set_from (x ∷ xs) = ground (arith, any-set_from xs, contains-any (set_from xs) x)

  pub all-set_from : (xs : List A) → all p (set_from xs) ≡ all p xs
  unfolding set_from
  all-set_from [] = refl
  all-set_from (x ∷ xs) = ground (arith, all-set_from xs, contains-all (set_from xs) x)

module _ {ℓ} {A : Type ℓ} ⦃o : Ord A⦄ where
  pub contains-eqb : (xs : List A) (a : A) → contains xs a ≡ any (eqb a) xs
  unfolding contains
  contains-eqb [] a = refl
  contains-eqb (x ∷ xs) a = rw (contains-eqb xs a) refl

  pub contains-dedup-sort : (xs : List A) (a : A) → contains (dedup (sort xs)) a ≡ contains xs a
  contains-dedup-sort xs a =
      contains-eqb (dedup (sort xs)) a
      ∙ any-dedup (eqb a) (sort xs)
      ∙ any-sort (eqb a) xs
      ∙ sym (contains-eqb xs a)

  pub contains-difference :
      (xs ys : List A) (a : A)
      → contains (difference xs ys) a ≡ true
      → (contains xs a ≡ true) × (contains ys a ≡ false)
  unfolding contains difference
  contains-difference [] ys a h = cc
  contains-difference (x ∷ xs) ys a h = ground (arith, contains-difference xs ys a, eqb→eq a x)

  pub contains-intersection :
      (xs ys : List A) (a : A)
      → contains xs a ≡ true
      → contains ys a ≡ true
      → contains (intersection xs ys) a ≡ true
  unfolding contains intersection
  contains-intersection [] ys a h k = cc
  contains-intersection (x ∷ xs) ys a h k =
      ground (arith, contains-intersection xs ys a, eqb→eq a x, eqb_refl a)
