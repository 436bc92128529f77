-- ===== src/Query/Tests.antt =====
-- Runs of the query builder, and the theorems at concrete inputs.
use haunted_house.Common.{ℕ, ◌≡◌, refl, arith, List, [], ◌∷◌, map, none, some, true, false}
use haunted_house.Common.Int.{pos}
use haunted_house.Common.Sort.{sort, dedup, list_cmp}
use haunted_house.Query.Phrase.{PhraseQuery, of_list, phrase_cmp}
use haunted_house.Query.Combine.{
  or, min_of, flatten_or, pop_or_wrap, map_literals, make_case_insensitive,
}
use haunted_house.Query.Match.{to_lower, matches}
use haunted_house.Query.Cases.{make_case_insensitive-matches}
use haunted_house.Query.Builder
use haunted_house.Query.Builder.{
  Reference, trigram, expression, and_of, TrigramQuery, build, insert, new_builder, literal_loop,
  pop_or_add, add_expression, from_values, insensitive_loop, insert_case_insensitive,
}
use haunted_house.Query.Eval.{eval, has_trigram}
use haunted_house.Query.Follow.{Searchable}
use haunted_house.Query.Sound.{build-matches, build_short_literal}

abbrev text_abcd : List ℕ
text_abcd = b'a' ∷ b'b' ∷ b'c' ∷ b'd' ∷ []

abbrev text_bc : PhraseQuery
text_bc = PhraseQuery.literal (b'b' ∷ b'c' ∷ b'd' ∷ [])

abbrev text_upper : PhraseQuery
text_upper = PhraseQuery.literal (b'A' ∷ b'B' ∷ b'C' ∷ [])

abbrev both : List PhraseQuery
both = text_bc ∷ text_upper ∷ text_bc ∷ []

or_sorts : or both ≡ some (PhraseQuery.or (of_list (text_upper ∷ text_bc ∷ [])))
unfolding or flatten_or pop_or_wrap sort dedup phrase_cmp list_cmp
or_sorts = refl

min_of_keeps :
    min_of (pos 2) both
    ≡ some (PhraseQuery.min_of (pos 2) (of_list (text_upper ∷ text_bc ∷ text_bc ∷ [])))
unfolding min_of sort phrase_cmp list_cmp
min_of_keeps = refl

text_upper_nocase : matches text_abcd (make_case_insensitive text_upper) ≡ true
unfolding matches make_case_insensitive
text_upper_nocase = refl

make_case_insensitive-matches_example :
    (matches text_abcd (make_case_insensitive text_upper)
      ≡ matches (map to_lower text_abcd) (map_literals (map to_lower) text_upper))
    × (matches text_abcd text_upper ≡ true
        → matches text_abcd (make_case_insensitive text_upper) ≡ true)
make_case_insensitive-matches_example = make_case_insensitive-matches text_abcd text_upper

abbrev either : PhraseQuery
either = PhraseQuery.or (of_list (text_bc ∷ make_nocase ∷ []))
  where
    make_nocase : PhraseQuery
    make_nocase = PhraseQuery.insensitive_literal (b'x' ∷ b'Y' ∷ b'1' ∷ [])

either-Searchable : Searchable either
unfolding Searchable
either-Searchable = omega arith

literal_built :
    build (PhraseQuery.literal text_abcd)
    ≡ some (record {
      root = expression 0;
      expressions = (0, and_of (trigram 0x616263 ∷ trigram 0x626364 ∷ [])) ∷ [];
    })
unfolding build insert new_builder literal_loop Builder.and pop_or_add add_expression sort dedup
literal_built = refl

build-matches_example :
    (t : TrigramQuery) × (build either ≡ some t)
    × (matches text_abcd either ≡ true → eval (has_trigram text_abcd) t.expressions t.root ≡ true)
build-matches_example = build-matches either text_abcd either-Searchable

build_short_literal_example :
    ((t : TrigramQuery) × (build (PhraseQuery.literal (b'b' ∷ b'c' ∷ [])) ≡ some t)
      × (eval (has_trigram text_abcd) t.expressions t.root ≡ false))
    × (build (PhraseQuery.literal (b'b' ∷ [])) ≡ none)
    × (build (PhraseQuery.literal []) ≡ none)
build_short_literal_example = build_short_literal b'b' b'c' (has_trigram text_abcd)
