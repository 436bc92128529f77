-- ===== src/Query/Sound.antt =====
-- query/mod.rs: a built query lets through every file that satisfies the phrases it was built from.
use haunted_house.Common.{
  ℕ, ◌*◌, ◌^◌, ◌≤◌, ◌≡◌, ◌≢◌, refl, ◌∙◌, arith, List, [], ◌∷◌, none, some, Bool, true, false,
  length, All, any-count_if,
}
use haunted_house.Common.Int.{ℤ, pos, negsuc}
use haunted_house.Query.Phrase.{PhraseQuery, Phrases}
use haunted_house.Query.Match.{matches}
use haunted_house.Query.Builder.{
  Reference, TrigramQueryBuilder, new_builder, add_expression, or, and, min_of, insensitive_loop,
  literal_loop, insert, insert_parts, TrigramQuery, build,
}
use haunted_house.Query.Eval.{
  has_trigram, eval, eval_in, eval-add_self, eval-or, eval-and, node-min_of, Grows, Grows-refl,
  is_known_mono, Grows-trans, add_expression-Grows,
}
use haunted_house.Query.Adds.{
  Adds, AddsAll, or-Adds, and-Adds, insensitive_loop-AddsAll, literal_loop-known, IsByte,
}
use haunted_house.Query.Insert.{Within, literal_loop-occurs, insensitive_loop-occurs}
use Prim.Native.Nat.{bit_or}
use haunted_house.Query.Follow.{
  IsPositive, Searchable, SearchableAll, any_of_literal, any_of_insensitive, insert_parts-cons,
  Follows, Follows-all, Follows-any, Follows-count, Follows-any_of_all,
}

module _ (file : List ℕ) where
  abbrev Holds : TrigramQueryBuilder → Reference → PhraseQuery → Type 0
  Holds b r q = (has : ℕ → Bool) → Within file has → matches file q ≡ true → eval_in has b r ≡ true

  -- The builder takes the query, keeps what it had, and the reference it returns holds for the file
  -- if the file satisfies the query.
  abbrev Inserts : TrigramQueryBuilder → PhraseQuery → Type 0
  Inserts b q =
      (b' : TrigramQueryBuilder) × (r : Reference) × (insert b q ≡ some (b', r))
      × Adds b (b', r)
      × Holds b' r q

  abbrev InsertsParts : TrigramQueryBuilder → Phrases → Type 0
  InsertsParts b ps =
      (b' : TrigramQueryBuilder) × (refs : List Reference) × (insert_parts b ps ≡ some (b', refs))
      × AddsAll b (b', refs)
      × ((has : ℕ → Bool) → Within file has → Follows file (eval_in has b') ps refs)

  Adds-after :
      (a b : TrigramQueryBuilder) (p : TrigramQueryBuilder × Reference)
      → Grows a b
      → Adds b p
      → Adds a p
  Adds-after a b p g h = (Grows-trans a b p.0 g h.0, h.1)

  insert-and :
      (b : TrigramQueryBuilder) (ps : Phrases)
      → ps ≢ Phrases.nil
      → InsertsParts b ps
      → Inserts b (PhraseQuery.and ps)
  unfolding insert matches
  insert-and b ps n (b', refs, e, adds, follows) = (
    (and b' refs).0,
    (and b' refs).1,
    rw e refl,
    Adds-after b b' (and b' refs) adds.0 (and-Adds b' refs adds.1),
    λ has w h.
        let f = follows has w in
        let every = Follows-all file (eval_in has b') ps refs f h in
        eval-and has b' refs
        ∙ rw (Follows-any_of_all file (eval_in has b') ps refs n f every, every),
  )

  insert-or :
      (b : TrigramQueryBuilder) (ps : Phrases) → InsertsParts b ps → Inserts b (PhraseQuery.or ps)
  unfolding insert matches
  insert-or b ps (b', refs, e, adds, follows) = (
    (or b' refs).0,
    (or b' refs).1,
    rw e refl,
    Adds-after b b' (or b' refs) adds.0 (or-Adds b' refs adds.1),
    λ has w h. eval-or has b' refs ∙ Follows-any file (eval_in has b') ps refs (follows has w) h,
  )

  insert-min_of :
      (b : TrigramQueryBuilder) (n : ℤ) (ps : Phrases)
      → IsPositive n
      → InsertsParts b ps
      → Inserts b (PhraseQuery.min_of n ps)
  unfolding insert matches
  insert-min_of b (negsuc n) ps h parts = absurd h
  insert-min_of b (pos n) ps h (b', refs, e, adds, follows) =
      let step = add_expression b' (min_of (pos n) refs) in
      (
        step.0,
        step.1,
        rw e refl,
        Adds-after b b' step adds.0 (add_expression-Grows b' (min_of (pos n) refs)),
        λ has w m.
            let enough = Follows-count file (eval_in has b') ps refs (follows has w) in
            eval-add_self has b' (min_of (pos n) refs)
            ∙ node-min_of (eval_in has b') (pos n) refs
            ∙ ground (arith, any-count_if (eval_in has b') refs),
      )

  insert-literal :
      (b : TrigramQueryBuilder) (bytes : List ℕ)
      → 3 ≤ length bytes
      → All IsByte bytes
      → Inserts b (PhraseQuery.literal bytes)
  unfolding insert matches
  insert-literal b [] n ok = absurd (omega arith)
  insert-literal b (x ∷ []) n ok = absurd (omega arith)
  insert-literal b (x ∷ y ∷ []) n ok = absurd (omega arith)
  insert-literal b (x ∷ y ∷ z ∷ bytes) n ok =
      let refs = literal_loop (bit_or (x * 2 ^ 8) y) (z ∷ bytes) in
      (
        (and b refs).0,
        (and b refs).1,
        refl,
        and-Adds b refs (literal_loop-known b (z ∷ bytes) _),
        λ has w h.
            let every = literal_loop-occurs has b (z ∷ bytes) file x y ok w h in
            eval-and has b refs
            ∙ rw (any_of_literal (eval_in has b) (bit_or (x * 2 ^ 8) y) z bytes every, every),
      )

  insert-insensitive_literal :
      (b : TrigramQueryBuilder) (bytes : List ℕ)
      → 3 ≤ length bytes
      → All IsByte bytes
      → Inserts b (PhraseQuery.insensitive_literal bytes)
  unfolding insert matches
  insert-insensitive_literal b bytes n ok =
      let step = insensitive_loop b bytes in
      let adds = insensitive_loop-AddsAll bytes b in
      (
        (and step.0 step.1).0,
        (and step.0 step.1).1,
        refl,
        Adds-after b step.0 (and step.0 step.1) adds.0 (and-Adds step.0 step.1 adds.1),
        λ has w h.
            let every = insensitive_loop-occurs has bytes file b ok (omega arith) w h in
            eval-and has step.0 step.1
            ∙ rw (any_of_insensitive (eval_in has step.0) b bytes n every, every),
      )

  mutual
    unfolding Searchable insert

    insert-Inserts : (q : PhraseQuery) (b : TrigramQueryBuilder) → Searchable q → Inserts b q
    insert-Inserts (PhraseQuery.and ps) b s = insert-and b ps s.0 (insert_parts-Inserts ps b s.1)
    insert-Inserts (PhraseQuery.or ps) b s = insert-or b ps (insert_parts-Inserts ps b s)
    insert-Inserts (PhraseQuery.literal bytes) b s = insert-literal b bytes s.0 s.1
    insert-Inserts (PhraseQuery.min_of n ps) b s =
        insert-min_of b n ps s.0 (insert_parts-Inserts ps b s.1)
    insert-Inserts (PhraseQuery.insensitive_literal bytes) b s =
        insert-insensitive_literal b bytes s.0 s.1

    insert_parts-Inserts :
        (ps : Phrases) (b : TrigramQueryBuilder) → SearchableAll ps → InsertsParts b ps
    insert_parts-Inserts Phrases.nil b s = (b, [], refl, (Grows-refl b, refl), λ has w. tt)
    insert_parts-Inserts (Phrases.cons p ps) b s =
        let (b', r, e, adds, holds) = insert-Inserts p b s.0 in
        let (b'', refs, e', adds', follows) = insert_parts-Inserts ps b' s.1 in
        (
          b'',
          r ∷ refs,
          insert_parts-cons b b' b'' p ps r refs e e',
          (
            Grows-trans b b' b'' adds.0 adds'.0,
            ground (arith, adds'.1, is_known_mono b' b'' r adds'.0.0 adds.1),
          ),
          λ has w. ((λ m. adds'.0.1 has r adds.1 ∙ holds has w m), follows has w),
        )

-- What is built lets a file through by any trigrams among which those of the file are.
pub build-Within :
    (q : PhraseQuery) (file : List ℕ)
    → Searchable q
    → (t : TrigramQuery) × (build q ≡ some t)
      × ((has : ℕ → Bool)
          → Within file has
          → matches file q ≡ true
          → eval has t.expressions t.root ≡ true)
unfolding build
build-Within q file s =
    let (b, r, e, adds, holds) = insert-Inserts file q new_builder s in
    (record { root = r; expressions = b.expressions }, rw (e, build) refl, holds)

-- If every literal of a PhraseQuery has three bytes or more, every And of it a part and every MinOf a
-- positive count, then building its TrigramQuery succeeds, and what is built lets through, by the
-- trigrams of the file, every file that satisfies the PhraseQuery.
pub build-matches :
    (q : PhraseQuery) (file : List ℕ)
    → Searchable q
    → (t : TrigramQuery) × (build q ≡ some t)
      × (matches file q ≡ true → eval (has_trigram file) t.expressions t.root ≡ true)
build-matches q file s =
    let (t, e, holds) = build-Within q file s in (t, e, holds (has_trigram file) (λ u h. h))

-- A literal of two bytes builds a query that lets no file through, even one that holds the literal,
-- and building panics on a literal of fewer bytes.
pub build_short_literal :
    (x y : ℕ) (has : ℕ → Bool)
    → ((t : TrigramQuery) × (build (PhraseQuery.literal (x ∷ y ∷ [])) ≡ some t)
        × (eval has t.expressions t.root ≡ false))
      × (build (PhraseQuery.literal (x ∷ [])) ≡ none)
      × (build (PhraseQuery.literal []) ≡ none)
unfolding build insert new_builder literal_loop
build_short_literal x y has =
    let step = and new_builder [] in
    (
      (
        record { root = step.1; expressions = step.0.expressions },
        refl,
        eval-and has new_builder [],
      ),
      refl,
      refl,
    )
