-- ===== src/Query/Combine.antt =====
-- query/phrases.rs: the constructors or, and, min_of of PhraseQuery, and its transformations.
use haunted_house.Common.{
  ℕ, List, [], ◌∷◌, ◌++◌, Option, none, some, Bool, true, false, if◌then◌else◌, length,
}
use haunted_house.Common.Int.{ℤ, pos, int_cmp, as_i32}
use haunted_house.Common.Sort.{sort, dedup}
use haunted_house.Query.Phrase.{PhraseQuery, Phrases, to_list, of_list, phrase_ord}
use Prim.Native.Nat.{Ordering}

abbrev pub eq_ℤ : ℤ → ℤ → Bool
eq_ℤ a b = elim (int_cmp a b) [ Ordering.eq ↦ true | _ ↦ false ]

-- The loop that takes the parts of a nested `Or` in place of it.
unfoldable pub flatten_or : List PhraseQuery → List PhraseQuery
flatten_or [] = []
flatten_or (PhraseQuery.or parts ∷ items) = to_list parts ++ flatten_or items
flatten_or (item ∷ items) = item ∷ flatten_or items

unfoldable pub flatten_and : List PhraseQuery → List PhraseQuery
flatten_and [] = []
flatten_and (PhraseQuery.and parts ∷ items) = to_list parts ++ flatten_and items
flatten_and (item ∷ items) = item ∷ flatten_and items

-- `if produced.len() <= 1 { return produced.pop() }`, and the wrapped list otherwise.
unfoldable pub pop_or_wrap : (Phrases → PhraseQuery) → List PhraseQuery → Option PhraseQuery
pop_or_wrap wrap [] = none
pop_or_wrap wrap (p ∷ []) = some p
pop_or_wrap wrap (p ∷ q ∷ rest) = some (wrap (of_list (p ∷ q ∷ rest)))

unfoldable pub or : List PhraseQuery → Option PhraseQuery
unfolding flatten_or pop_or_wrap
or items = pop_or_wrap PhraseQuery.or (dedup (sort (flatten_or items)))

unfoldable pub and : List PhraseQuery → Option PhraseQuery
unfolding flatten_and pop_or_wrap
and items = pop_or_wrap PhraseQuery.and (dedup (sort (flatten_and items)))

unfoldable pub min_of : ℤ → List PhraseQuery → Option PhraseQuery
min_of count items =
    if eq_ℤ count (pos 1)
    then or items
    else (if eq_ℤ count (as_i32 (length items))
        then and items
        else some (PhraseQuery.min_of count (of_list (sort items))))

unfoldable mutual
  pub map_literals : (List ℕ → List ℕ) → PhraseQuery → PhraseQuery
  map_literals f (PhraseQuery.and items) = PhraseQuery.and (map_literals_list f items)
  map_literals f (PhraseQuery.or items) = PhraseQuery.or (map_literals_list f items)
  map_literals f (PhraseQuery.literal bytes) = PhraseQuery.literal (f bytes)
  map_literals f (PhraseQuery.min_of n items) = PhraseQuery.min_of n (map_literals_list f items)
  map_literals f (PhraseQuery.insensitive_literal bytes) = PhraseQuery.insensitive_literal (f bytes)

  pub map_literals_list : (List ℕ → List ℕ) → Phrases → Phrases
  map_literals_list f Phrases.nil = Phrases.nil
  map_literals_list f (Phrases.cons p ps) = Phrases.cons (map_literals f p) (map_literals_list f ps)

unfoldable mutual
  pub make_case_insensitive : PhraseQuery → PhraseQuery
  make_case_insensitive (PhraseQuery.and items) = PhraseQuery.and (make_insensitive_list items)
  make_case_insensitive (PhraseQuery.or items) = PhraseQuery.or (make_insensitive_list items)
  make_case_insensitive (PhraseQuery.literal value) = PhraseQuery.insensitive_literal value
  make_case_insensitive (PhraseQuery.min_of n items) =
      PhraseQuery.min_of n (make_insensitive_list items)
  make_case_insensitive (PhraseQuery.insensitive_literal value) =
      PhraseQuery.insensitive_literal value

  pub make_insensitive_list : Phrases → Phrases
  make_insensitive_list Phrases.nil = Phrases.nil
  make_insensitive_list (Phrases.cons p ps) =
      Phrases.cons (make_case_insensitive p) (make_insensitive_list ps)
