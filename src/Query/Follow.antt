-- ===== src/Query/Follow.antt =====
-- query/mod.rs: the phrases of a PhraseQuery, and the references that follow from them.
use haunted_house.Common.{
  ℕ, suc, ◌^◌, ◌≤◌, ◌<◌, ◌≡◌, ◌≢◌, refl, arith, List, [], ◌∷◌, some, Bool, true, any, all, count_if,
  length, All,
}
use haunted_house.Common.Int.{ℤ, pos, negsuc}
use haunted_house.Query.Phrase.{PhraseQuery, Phrases}
use haunted_house.Query.Match.{matches, matches_all, matches_any, matches_count}
use haunted_house.Query.Builder.{
  Reference, TrigramQueryBuilder, insensitive_loop, literal_loop, insert, insert_parts,
}
use haunted_house.Query.Adds.{IsByte}

abbrev pub IsPositive : ℤ → Type 0
IsPositive (pos n) = 0 < n
IsPositive (negsuc n) = ⊥

-- No empty conjunction, no count below 1, and at least three bytes in each literal.
unfoldable mutual
  pub Searchable : PhraseQuery → Type 0
  Searchable (PhraseQuery.and ps) = (ps ≢ Phrases.nil) × SearchableAll ps
  Searchable (PhraseQuery.or ps) = SearchableAll ps
  Searchable (PhraseQuery.literal bytes) = (3 ≤ length bytes) × All IsByte bytes
  Searchable (PhraseQuery.min_of n ps) = IsPositive n × SearchableAll ps
  Searchable (PhraseQuery.insensitive_literal bytes) = (3 ≤ length bytes) × All IsByte bytes

  pub SearchableAll : Phrases → Type 0
  SearchableAll Phrases.nil = Unit {0}
  SearchableAll (Phrases.cons p ps) = Searchable p × SearchableAll ps

abbrev pub length_parts : Phrases → ℕ
length_parts Phrases.nil = 0
length_parts (Phrases.cons p ps) = suc (length_parts ps)

-- Every MinOf has fewer than 2 ^ 64 parts, as a Vec has.
unfoldable mutual
  pub Sized : PhraseQuery → Type 0
  Sized (PhraseQuery.and ps) = SizedAll ps
  Sized (PhraseQuery.or ps) = SizedAll ps
  Sized (PhraseQuery.literal bytes) = Unit {0}
  Sized (PhraseQuery.min_of n ps) = (length_parts ps < 2 ^ 64) × SizedAll ps
  Sized (PhraseQuery.insensitive_literal bytes) = Unit {0}

  pub SizedAll : Phrases → Type 0
  SizedAll Phrases.nil = Unit {0}
  SizedAll (Phrases.cons p ps) = Sized p × SizedAll ps

pub any_of_literal :
    (v : Reference → Bool) (t z : ℕ) (bytes : List ℕ)
    → all v (literal_loop t (z ∷ bytes)) ≡ true
    → any v (literal_loop t (z ∷ bytes)) ≡ true
unfolding literal_loop
any_of_literal v t z bytes h = ground arith

pub any_of_insensitive :
    (v : Reference → Bool) (b : TrigramQueryBuilder) (bytes : List ℕ)
    → 3 ≤ length bytes
    → all v (insensitive_loop b bytes).1 ≡ true
    → any v (insensitive_loop b bytes).1 ≡ true
unfolding insensitive_loop
any_of_insensitive v b [] n h = absurd (omega arith)
any_of_insensitive v b (x ∷ []) n h = absurd (omega arith)
any_of_insensitive v b (x ∷ y ∷ []) n h = absurd (omega arith)
any_of_insensitive v b (x ∷ y ∷ z ∷ rest) n h = ground arith

pub insert_parts-cons :
    (b b' b'' : TrigramQueryBuilder) (p : PhraseQuery) (ps : Phrases) (r : Reference)
    (refs : List Reference)
    → insert b p ≡ some (b', r)
    → insert_parts b' ps ≡ some (b'', refs)
    → insert_parts b (Phrases.cons p ps) ≡ some (b'', r ∷ refs)
unfolding insert
insert_parts-cons b b' b'' p ps r refs e e' = ground arith

module _ (file : List ℕ) where
  -- Each reference holds if its phrase is satisfied.
  abbrev pub Follows : (Reference → Bool) → Phrases → List Reference → Type 0
  Follows v Phrases.nil [] = Unit {0}
  Follows v Phrases.nil (r ∷ refs) = ⊥
  Follows v (Phrases.cons p ps) [] = ⊥
  Follows v (Phrases.cons p ps) (r ∷ refs) =
      (matches file p ≡ true → v r ≡ true) × Follows v ps refs

  pub Follows-all :
      (v : Reference → Bool) (ps : Phrases) (refs : List Reference)
      → Follows v ps refs
      → matches_all file ps ≡ true
      → all v refs ≡ true
  unfolding matches
  Follows-all v Phrases.nil [] f h = refl
  Follows-all v Phrases.nil (r ∷ refs) f h = absurd f
  Follows-all v (Phrases.cons p ps) [] f h = absurd f
  Follows-all v (Phrases.cons p ps) (r ∷ refs) f h = ground (arith, f.0, Follows-all v ps refs f.1)

  pub Follows-any :
      (v : Reference → Bool) (ps : Phrases) (refs : List Reference)
      → Follows v ps refs
      → matches_any file ps ≡ true
      → any v refs ≡ true
  unfolding matches
  Follows-any v Phrases.nil [] f h = cc
  Follows-any v Phrases.nil (r ∷ refs) f h = absurd f
  Follows-any v (Phrases.cons p ps) [] f h = absurd f
  Follows-any v (Phrases.cons p ps) (r ∷ refs) f h = ground (arith, f.0, Follows-any v ps refs f.1)

  pub Follows-count :
      (v : Reference → Bool) (ps : Phrases) (refs : List Reference)
      → Follows v ps refs
      → matches_count file ps ≤ count_if v refs
  unfolding matches
  Follows-count v Phrases.nil [] f = omega arith
  Follows-count v Phrases.nil (r ∷ refs) f = absurd f
  Follows-count v (Phrases.cons p ps) [] f = absurd f
  Follows-count v (Phrases.cons p ps) (r ∷ refs) f =
      ground (arith, f.0, Follows-count v ps refs f.1)

  pub Follows-any_of_all :
      (v : Reference → Bool) (ps : Phrases) (refs : List Reference)
      → ps ≢ Phrases.nil
      → Follows v ps refs
      → all v refs ≡ true
      → any v refs ≡ true
  Follows-any_of_all v Phrases.nil refs n f h = absurd (n refl)
  Follows-any_of_all v (Phrases.cons p ps) [] n f h = absurd f
  Follows-any_of_all v (Phrases.cons p ps) (r ∷ refs) n f h = ground arith
