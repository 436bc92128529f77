-- ===== src/Query/Phrase.antt =====
-- query/phrases.rs: the type PhraseQuery with its derived order.
use haunted_house.Common.{ℕ, ◌≡◌, refl, ap, ap₂, List, [], ◌∷◌}
use haunted_house.Common.Int.{ℤ, int_cmp, int_cmp_eq, int_cmp_refl}
use haunted_house.Common.Sort.{
  Ord, nat_ord, list_cmp, list_cmp_eq, list_cmp_refl, then_cmp, then_cmp_eq,
}
use Prim.Native.Nat.{compare, Ordering}

-- A literal is the list of its bytes.
mutual
  pub data PhraseQuery : Type 0 where
    and : Phrases → PhraseQuery
    or : Phrases → PhraseQuery
    literal : List ℕ → PhraseQuery
    min_of : ℤ → Phrases → PhraseQuery
    insensitive_literal : List ℕ → PhraseQuery

  pub data Phrases : Type 0 where
    nil : Phrases
    cons : PhraseQuery → Phrases → Phrases

abbrev pub to_list : Phrases → List PhraseQuery
to_list nil = []
to_list (cons p ps) = p ∷ to_list ps

abbrev pub of_list : List PhraseQuery → Phrases
of_list [] = nil
of_list (p ∷ ps) = cons p (of_list ps)

pub to_list-of_list : (ps : List PhraseQuery) → to_list (of_list ps) ≡ ps
to_list-of_list [] = refl
to_list-of_list (p ∷ ps) = ap (◌∷◌ p) (to_list-of_list ps)

-- The position of the variant in the declaration.
abbrev variant : PhraseQuery → ℕ
variant (and ps) = 0
variant (or ps) = 1
variant (literal bs) = 2
variant (min_of n ps) = 3
variant (insensitive_literal bs) = 4

unfoldable mutual
  pub phrase_cmp : PhraseQuery → PhraseQuery → Ordering
  phrase_cmp (and ps) (and qs) = phrases_cmp ps qs
  phrase_cmp (or ps) (or qs) = phrases_cmp ps qs
  phrase_cmp (literal bs) (literal cs) = list_cmp bs cs
  phrase_cmp (min_of n ps) (min_of m qs) = then_cmp (int_cmp n m) (phrases_cmp ps qs)
  phrase_cmp (insensitive_literal bs) (insensitive_literal cs) = list_cmp bs cs
  phrase_cmp p q = compare (variant p) (variant q)

  pub phrases_cmp : Phrases → Phrases → Ordering
  phrases_cmp nil nil = Ordering.eq
  phrases_cmp nil (cons q qs) = Ordering.lt
  phrases_cmp (cons p ps) nil = Ordering.gt
  phrases_cmp (cons p ps) (cons q qs) = then_cmp (phrase_cmp p q) (phrases_cmp ps qs)

mutual
  unfolding phrase_cmp

  pub phrase_cmp_eq : (p q : PhraseQuery) → phrase_cmp p q ≡ Ordering.eq → p ≡ q
  phrase_cmp_eq (and ps) (and qs) h = ap and (phrases_cmp_eq ps qs h)
  phrase_cmp_eq (or ps) (or qs) h = ap or (phrases_cmp_eq ps qs h)
  phrase_cmp_eq (literal bs) (literal cs) h = ap literal (list_cmp_eq bs cs h)
  phrase_cmp_eq (min_of n ps) (min_of m qs) h =
      let (hn, hs) = then_cmp_eq (int_cmp n m) (phrases_cmp ps qs) h in
      ap₂ min_of (int_cmp_eq n m hn) (phrases_cmp_eq ps qs hs)
  phrase_cmp_eq (insensitive_literal bs) (insensitive_literal cs) h =
      ap insensitive_literal (list_cmp_eq bs cs h)
  phrase_cmp_eq p q h = cc

  pub phrases_cmp_eq : (ps qs : Phrases) → phrases_cmp ps qs ≡ Ordering.eq → ps ≡ qs
  phrases_cmp_eq nil nil h = refl
  phrases_cmp_eq nil (cons q qs) h = cc
  phrases_cmp_eq (cons p ps) nil h = cc
  phrases_cmp_eq (cons p ps) (cons q qs) h =
      let (hp, hs) = then_cmp_eq (phrase_cmp p q) (phrases_cmp ps qs) h in
      ap₂ cons (phrase_cmp_eq p q hp) (phrases_cmp_eq ps qs hs)

mutual
  unfolding phrase_cmp

  pub phrase_cmp_refl : (p : PhraseQuery) → phrase_cmp p p ≡ Ordering.eq
  phrase_cmp_refl (and ps) = phrases_cmp_refl ps
  phrase_cmp_refl (or ps) = phrases_cmp_refl ps
  phrase_cmp_refl (literal bs) = list_cmp_refl bs
  phrase_cmp_refl (min_of n ps) = rw (int_cmp_refl n) (phrases_cmp_refl ps)
  phrase_cmp_refl (insensitive_literal bs) = list_cmp_refl bs

  pub phrases_cmp_refl : (ps : Phrases) → phrases_cmp ps ps ≡ Ordering.eq
  phrases_cmp_refl nil = refl
  phrases_cmp_refl (cons p ps) = rw (phrase_cmp_refl p) (phrases_cmp_refl ps)

instance abbrev pub phrase_ord : Ord PhraseQuery
phrase_ord = record { cmp = phrase_cmp; cmp_eq = phrase_cmp_eq; cmp_refl = phrase_cmp_refl }
