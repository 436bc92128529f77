-- ===== src/Query/Cases.antt =====
-- query/phrases.rs: what make_case_insensitive makes of the files that satisfy a query.
use haunted_house.Common.{ℕ, ◌≤◌, ◌≡◌, refl, arith, List, [], ◌∷◌, map, true, ◌==◌}
use haunted_house.Common.Int.{ℤ, leb_ℤ}
use haunted_house.Query.Phrase.{PhraseQuery, Phrases}
use haunted_house.Query.Combine.{
  map_literals, map_literals_list, make_case_insensitive, make_insensitive_list,
}
use haunted_house.Query.Match.{
  starts, occurs, to_lower, same_letter, matches, matches_all, matches_any, matches_count,
}

abbrev lowered : List ℕ → List ℕ
lowered bytes = map to_lower bytes

to_lower_again : (b : ℕ) → to_lower (to_lower b) ≡ to_lower b
to_lower_again b = ground arith

starts-lowered :
    (ps bytes : List ℕ) → starts same_letter ps bytes ≡ starts ◌==◌ (lowered ps) (lowered bytes)
starts-lowered [] bytes = refl
starts-lowered (p ∷ ps) [] = refl
starts-lowered (p ∷ ps) (b ∷ bs) = rw (starts-lowered ps bs) refl

occurs-lowered :
    (ps bytes : List ℕ) → occurs same_letter ps bytes ≡ occurs ◌==◌ (lowered ps) (lowered bytes)
occurs-lowered ps [] = starts-lowered ps []
occurs-lowered ps (b ∷ bs) = rw (starts-lowered ps (b ∷ bs), occurs-lowered ps bs) refl

starts_same :
    (ps bytes : List ℕ)
    → starts same_letter ps bytes ≡ starts same_letter (lowered ps) (lowered bytes)
starts_same [] bytes = refl
starts_same (p ∷ ps) [] = refl
starts_same (p ∷ ps) (b ∷ bs) = rw (to_lower_again p, to_lower_again b, starts_same ps bs) refl

occurs_same :
    (ps bytes : List ℕ)
    → occurs same_letter ps bytes ≡ occurs same_letter (lowered ps) (lowered bytes)
occurs_same ps [] = starts_same ps []
occurs_same ps (b ∷ bs) = rw (starts_same ps (b ∷ bs), occurs_same ps bs) refl

module _ (file : List ℕ) where
  mutual
    unfolding matches make_case_insensitive map_literals

    lowers :
        (q : PhraseQuery)
        → matches file (make_case_insensitive q) ≡ matches (lowered file) (map_literals lowered q)
    lowers (PhraseQuery.and ps) = lowers_all ps
    lowers (PhraseQuery.or ps) = lowers_any ps
    lowers (PhraseQuery.literal bytes) = occurs-lowered bytes file
    lowers (PhraseQuery.min_of n ps) = rw (lowers_count ps) refl
    lowers (PhraseQuery.insensitive_literal bytes) = occurs_same bytes file

    lowers_all :
        (ps : Phrases)
        → matches_all file (make_insensitive_list ps)
          ≡ matches_all (lowered file) (map_literals_list lowered ps)
    lowers_all Phrases.nil = refl
    lowers_all (Phrases.cons p ps) = rw (lowers p, lowers_all ps) refl

    lowers_any :
        (ps : Phrases)
        → matches_any file (make_insensitive_list ps)
          ≡ matches_any (lowered file) (map_literals_list lowered ps)
    lowers_any Phrases.nil = refl
    lowers_any (Phrases.cons p ps) = rw (lowers p, lowers_any ps) refl

    lowers_count :
        (ps : Phrases)
        → matches_count file (make_insensitive_list ps)
          ≡ matches_count (lowered file) (map_literals_list lowered ps)
    lowers_count Phrases.nil = refl
    lowers_count (Phrases.cons p ps) = ground (arith, lowers p, lowers_count ps)

  starts_weaken :
      (ps bytes : List ℕ) → starts ◌==◌ ps bytes ≡ true → starts same_letter ps bytes ≡ true
  starts_weaken [] bytes h = refl
  starts_weaken (p ∷ ps) [] h = cc
  starts_weaken (p ∷ ps) (b ∷ bs) h = ground (arith, starts_weaken ps bs)

  occurs_weaken :
      (ps bytes : List ℕ) → occurs ◌==◌ ps bytes ≡ true → occurs same_letter ps bytes ≡ true
  occurs_weaken ps [] h = starts_weaken ps [] h
  occurs_weaken ps (b ∷ bs) h = ground (arith, starts_weaken ps (b ∷ bs), occurs_weaken ps bs)

  leb_ℤ_mono : (z : ℤ) (m n : ℕ) → m ≤ n → leb_ℤ z m ≡ true → leb_ℤ z n ≡ true
  leb_ℤ_mono z m n h k = ground arith

  mutual
    unfolding matches make_case_insensitive

    weaken :
        (q : PhraseQuery) → matches file q ≡ true → matches file (make_case_insensitive q) ≡ true
    weaken (PhraseQuery.and ps) h = weaken_all ps h
    weaken (PhraseQuery.or ps) h = weaken_any ps h
    weaken (PhraseQuery.literal bytes) h = occurs_weaken bytes file h
    weaken (PhraseQuery.min_of n ps) h = leb_ℤ_mono n _ _ (weaken_count ps) h
    weaken (PhraseQuery.insensitive_literal bytes) h = h

    weaken_all :
        (ps : Phrases)
        → matches_all file ps ≡ true
        → matches_all file (make_insensitive_list ps) ≡ true
    weaken_all Phrases.nil h = refl
    weaken_all (Phrases.cons p ps) h = ground (arith, weaken p, weaken_all ps)

    weaken_any :
        (ps : Phrases)
        → matches_any file ps ≡ true
        → matches_any file (make_insensitive_list ps) ≡ true
    weaken_any Phrases.nil h = cc
    weaken_any (Phrases.cons p ps) h = ground (arith, weaken p, weaken_any ps)

    weaken_count :
        (ps : Phrases) → matches_count file ps ≤ matches_count file (make_insensitive_list ps)
    weaken_count Phrases.nil = omega arith
    weaken_count (Phrases.cons p ps) = ground (arith, weaken p, weaken_count ps)

  -- A file satisfies what make_case_insensitive makes of a query exactly if the file with its ASCII
  -- letters in lower case satisfies the query with the letters of all its literals in lower case; and
  -- a file that satisfied the query still does.
  pub make_case_insensitive-matches :
      (q : PhraseQuery)
      → (matches file (make_case_insensitive q)
          ≡ matches (map to_lower file) (map_literals (map to_lower) q))
        × (matches file q ≡ true → matches file (make_case_insensitive q) ≡ true)
  make_case_insensitive-matches q = (lowers q, weaken q)
