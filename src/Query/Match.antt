-- ===== src/Query/Match.antt =====
-- query/phrases.rs: which files a PhraseQuery describes, and that its constructors keep to that.
use haunted_house.Common.{
  ℕ, suc, ◌+◌, ◌^◌, ◌<◌, ◌≡◌, refl, sym, ◌∙◌, arith, List, [], ◌∷◌, Option, none, some, Bool, true,
  false, ◌&&◌, ◌||◌, leb, ◌==◌, if◌then◌else◌, any, all, count_if, length, any-count_if,
  all-count_if, inl, inr, Bool-cases,
}
use haunted_house.Common.Int.{ℤ, pos, as_i32, leb_ℤ}
use haunted_house.Common.Sort.{
  sort, dedup, any-sort, any-dedup, all-sort, all-dedup, any-append, all-append, count_if-sort,
}
use haunted_house.Query.Phrase.{PhraseQuery, Phrases, to_list, of_list, to_list-of_list, phrase_ord}
use haunted_house.Query.Combine.{eq_ℤ, flatten_or, flatten_and, pop_or_wrap, or, and, min_of}

module _ (same : ℕ → ℕ → Bool) where
  abbrev pub starts : List ℕ → List ℕ → Bool
  starts [] bytes = true
  starts (p ∷ ps) [] = false
  starts (p ∷ ps) (b ∷ bs) = same p b && starts ps bs

  -- The pattern stands somewhere in the bytes.
  abbrev pub occurs : List ℕ → List ℕ → Bool
  occurs ps [] = starts ps []
  occurs ps (b ∷ bs) = starts ps (b ∷ bs) || occurs ps bs

-- u8::to_ascii_lowercase and u8::to_ascii_uppercase.
abbrev pub to_lower : ℕ → ℕ
to_lower b = if leb b'A' b && leb b b'Z' then b + 32 else b

abbrev pub same_letter : ℕ → ℕ → Bool
same_letter a b = to_lower a == to_lower b

-- A file with the given bytes satisfies the query.
unfoldable mutual
  pub matches : List ℕ → PhraseQuery → Bool
  matches file (PhraseQuery.and ps) = matches_all file ps
  matches file (PhraseQuery.or ps) = matches_any file ps
  matches file (PhraseQuery.literal bytes) = occurs ◌==◌ bytes file
  matches file (PhraseQuery.min_of n ps) = leb_ℤ n (matches_count file ps)
  matches file (PhraseQuery.insensitive_literal bytes) = occurs same_letter bytes file

  pub matches_all : List ℕ → Phrases → Bool
  matches_all file Phrases.nil = true
  matches_all file (Phrases.cons p ps) = matches file p && matches_all file ps

  pub matches_any : List ℕ → Phrases → Bool
  matches_any file Phrases.nil = false
  matches_any file (Phrases.cons p ps) = matches file p || matches_any file ps

  pub matches_count : List ℕ → Phrases → ℕ
  matches_count file Phrases.nil = 0
  matches_count file (Phrases.cons p ps) =
      let rest = matches_count file ps in elim (matches file p) [ true ↦ suc rest | false ↦ rest ]

module _ (file : List ℕ) where
  pub matches_all-all : (ps : Phrases) → matches_all file ps ≡ all (matches file) (to_list ps)
  unfolding matches
  matches_all-all Phrases.nil = refl
  matches_all-all (Phrases.cons p ps) = rw (matches_all-all ps)

  pub matches_any-any : (ps : Phrases) → matches_any file ps ≡ any (matches file) (to_list ps)
  unfolding matches
  matches_any-any Phrases.nil = refl
  matches_any-any (Phrases.cons p ps) = rw (matches_any-any ps)

  pub matches_count-count_if :
      (ps : Phrases) → matches_count file ps ≡ count_if (matches file) (to_list ps)
  unfolding matches
  matches_count-count_if Phrases.nil = refl
  matches_count-count_if (Phrases.cons p ps) = ground (arith, matches_count-count_if ps)

  any-flatten_or :
      (items : List PhraseQuery) → any (matches file) (flatten_or items) ≡ any (matches file) items
  unfolding flatten_or
  any-flatten_or [] = refl
  any-flatten_or (PhraseQuery.or ps ∷ items) =
      any-append (matches file) (to_list ps) (flatten_or items)
      ∙ rw (any-flatten_or items) (rw (sym (matches_any-any ps)) (unfold matches in refl))
  any-flatten_or (item ∷ items) = rw (any-flatten_or items)

  all-flatten_and :
      (items : List PhraseQuery) → all (matches file) (flatten_and items) ≡ all (matches file) items
  unfolding flatten_and
  all-flatten_and [] = refl
  all-flatten_and (PhraseQuery.and ps ∷ items) =
      all-append (matches file) (to_list ps) (flatten_and items)
      ∙ rw (all-flatten_and items) (rw (sym (matches_all-all ps)) (unfold matches in refl))
  all-flatten_and (item ∷ items) = rw (all-flatten_and items)

  -- The built query, if there is one, says `value`; where there is none, `value` is `empty`.
  abbrev pub Says : Option PhraseQuery → Bool → Bool → Type 0
  Says none empty value = value ≡ empty
  Says (some q) empty value = matches file q ≡ value

  pop_or_wrap-or :
      (items : List PhraseQuery)
      → Says (pop_or_wrap PhraseQuery.or items) false (any (matches file) items)
  unfolding pop_or_wrap matches
  pop_or_wrap-or [] = refl
  pop_or_wrap-or (p ∷ []) = ground arith
  pop_or_wrap-or (p ∷ q ∷ rest) = rw (matches_any-any (of_list rest), to_list-of_list rest)

  pop_or_wrap-and :
      (items : List PhraseQuery)
      → Says (pop_or_wrap PhraseQuery.and items) true (all (matches file) items)
  unfolding pop_or_wrap matches
  pop_or_wrap-and [] = refl
  pop_or_wrap-and (p ∷ []) = ground arith
  pop_or_wrap-and (p ∷ q ∷ rest) = rw (matches_all-all (of_list rest), to_list-of_list rest)

  -- PhraseQuery::or builds a query that a file satisfies exactly if it satisfies one of the items;
  -- it builds none only if the file satisfies no item.
  pub or-matches : (items : List PhraseQuery) → Says (or items) false (any (matches file) items)
  unfolding or
  or-matches items =
      rw
        (
          sym (any-flatten_or items),
          sym (any-sort (matches file) (flatten_or items)),
          sym (any-dedup (matches file) (sort (flatten_or items))),
        )
        (pop_or_wrap-or (dedup (sort (flatten_or items))))

  -- PhraseQuery::and builds a query that a file satisfies exactly if it satisfies all of the items;
  -- it builds none only if the file satisfies every item.
  pub and-matches : (items : List PhraseQuery) → Says (and items) true (all (matches file) items)
  unfolding and
  and-matches items =
      rw
        (
          sym (all-flatten_and items),
          sym (all-sort (matches file) (flatten_and items)),
          sym (all-dedup (matches file) (sort (flatten_and items))),
        )
        (pop_or_wrap-and (dedup (sort (flatten_and items))))

  eq_ℤ→eq : (a b : ℤ) → eq_ℤ a b ≡ true → a ≡ b
  eq_ℤ→eq a b h = ground arith

  Says-some :
      {o : Option PhraseQuery} {q : PhraseQuery} (empty value : Bool)
      → Says o empty value
      → o ≡ some q
      → matches file q ≡ value
  Says-some {o = none} empty value h e = cc
  Says-some {o = some p} {q = q} empty value h e = let same : p ≡ q = cc in rw same at h

  matches-min_of :
      (count : ℤ) (items : List PhraseQuery)
      → matches file (PhraseQuery.min_of count (of_list (sort items)))
        ≡ leb_ℤ count (count_if (matches file) items)
  unfolding matches
  matches-min_of count items = rw (
    matches_count-count_if (of_list (sort items)),
    to_list-of_list (sort items),
    count_if-sort (matches file) items,
  )

  -- When PhraseQuery::min_of builds a query for fewer than 2 ^ 31 items, a file satisfies it exactly
  -- if it satisfies at least `count` of the items, whichever of the three forms is built.
  pub min_of-matches :
      (count : ℤ) (items : List PhraseQuery) (q : PhraseQuery)
      → length items < 2 ^ 31
      → min_of count items ≡ some q
      → matches file q ≡ leb_ℤ count (count_if (matches file) items)
  unfolding min_of
  min_of-matches count items q small e = elim (Bool-cases (eq_ℤ count (pos 1))) [
    | inl one ↦
        let is_one = eq_ℤ→eq count (pos 1) one in
        Says-some {o = or items} false _ (or-matches items) (rw one at e)
        ∙ rw (is_one, any-count_if (matches file) items)
    | inr not_one ↦ elim (Bool-cases (eq_ℤ count (as_i32 (length items)))) [
      | inl whole ↦
          let is_whole : count ≡ pos (length items) = eq_ℤ→eq count _ whole ∙ ground arith in
          Says-some {o = and items} true _ (and-matches items) (rw (not_one, whole) at e)
          ∙ rw (is_whole, all-count_if (matches file) items)
      | inr part ↦
          let same : PhraseQuery.min_of count (of_list (sort items)) ≡ q =
            cc (rw (not_one, part) at e) in
          rw (sym same) (matches-min_of count items)
    ]
  ]
