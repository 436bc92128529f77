-- ===== src/Journal/Made.antt =====
-- query/mod.rs: a built query has its expressions in layers, and trigrams in range.
use haunted_house.Common.{
  ℕ, suc, ap, length, ◌+◌, ◌*◌, ◌^◌, ◌<◌, ◌≡◌, refl, ◌∙◌, arith, List, [], ◌∷◌, none, some, true,
  ◌&&◌, ltb, lt→ltb, ◌==◌, all, All, inl, inr, Bool-cases, and_split, Option, subst, ◌%◌,
}
use haunted_house.Common.Bits.{bit_or_disjoint, bit_or_comm}
use haunted_house.Common.Sort.{nat_ord}
use Prim.Native.Nat.{bit_or}
use haunted_house.Query.Match.{to_lower}
use haunted_house.Query.Phrase.{PhraseQuery, Phrases}
use haunted_house.Query.Builder.{
  Reference, reference_ord, from_values, TrigramQueryBuilder, new_builder, or, and, to_upper,
  insert_case_insensitive, insensitive_loop, literal_loop, insert, insert_parts, TrigramQuery,
  build,
}
use haunted_house.Query.Eval.{is_known}
use haunted_house.Query.Adds.{IsByte}
use haunted_house.Query.Follow.{Searchable, SearchableAll, length_parts, Sized, SizedAll}
use haunted_house.Journal.Addresses.{trigram_range}
use haunted_house.Journal.Network.{query_trigrams}
use haunted_house.Journal.Built.{
  BuilderOk, usable, in_range, usable_mono, Made, MadeAll, IfSome, or-Continues, and-Continues,
  min_of-Continues, finish_with-Made, is_known-is_built,
}
use haunted_house.Journal.Tasks.{is_built, Layered}

literal_loop-usable :
    (b : TrigramQueryBuilder) (bytes : List ℕ) (t : ℕ)
    → all (usable b) (literal_loop t bytes) ≡ true
unfolding literal_loop
literal_loop-usable b [] t = refl
literal_loop-usable b (byte ∷ bytes) t =
    let t' = bit_or (t * 2 ^ 8 % 2 ^ 32) byte % 2 ^ 24 in
    rw (lt→ltb t' trigram_range (omega arith)) (literal_loop-usable b bytes t')

from_values-usable :
    (b : TrigramQueryBuilder) (x y z : ℕ)
    → x < 256
    → y < 256
    → z < 256
    → usable b (from_values x y z) ≡ true
unfolding from_values
from_values-usable b x y z hx hy hz =
    let inner : bit_or (x * 2 ^ 16) (y * 2 ^ 8) ≡ (x * 256 + y) * 2 ^ 8 =
      bit_or_comm (x * 2 ^ 16) (y * 2 ^ 8)
      ∙ bit_or_disjoint 16 (y * 2 ^ 8) x (omega arith)
      ∙ omega arith in
    let outer : bit_or ((x * 256 + y) * 2 ^ 8) z ≡ (x * 256 + y) * 256 + z =
      bit_or_comm ((x * 256 + y) * 2 ^ 8) z ∙ bit_or_disjoint 8 z (x * 256 + y) hz ∙ omega arith in
    rw (inner, outer) (lt→ltb ((x * 256 + y) * 256 + z) trigram_range (omega arith))

forms_bytes : (x : ℕ) → x < 256 → (to_lower x < 256) × (to_upper x < 256)
forms_bytes x h = (ground arith, ground arith)

insert_case_insensitive-Made :
    (b : TrigramQueryBuilder) (x y z : ℕ)
    → x < 256
    → y < 256
    → z < 256
    → BuilderOk b
    → Made b (insert_case_insensitive b x y z)
unfolding insert_case_insensitive
insert_case_insensitive-Made b x y z hx hy hz ok =
    let (lx, ux) = forms_bytes x hx in
    let (ly, uy) = forms_bytes y hy in
    let (lz, uz) = forms_bytes z hz in
    elim (Bool-cases
      (to_lower x == to_upper x && (to_lower y == to_upper y && to_lower z == to_upper z))) [
        | inl e ↦ rw e (omega arith, (ok, from_values-usable b _ _ _ lx ly lz))
        | inr e ↦ rw e (
            or-Continues _ b _ ok
              (rw
                (
                  from_values-usable b _ _ _ lx ly lz,
                  from_values-usable b _ _ _ lx ly uz,
                  from_values-usable b _ _ _ lx uy lz,
                  from_values-usable b _ _ _ lx uy uz,
                  from_values-usable b _ _ _ ux ly lz,
                  from_values-usable b _ _ _ ux ly uz,
                  from_values-usable b _ _ _ ux uy lz,
                  from_values-usable b _ _ _ ux uy uz,
                )
                refl)
              refl)
      ]

insensitive_loop-MadeAll :
    (bytes : List ℕ) (b : TrigramQueryBuilder)
    → All IsByte bytes
    → BuilderOk b
    → MadeAll b (length (insensitive_loop b bytes).1) (insensitive_loop b bytes)
unfolding insensitive_loop
insensitive_loop-MadeAll [] b h ok = (omega arith, ok, refl, refl)
insensitive_loop-MadeAll (x ∷ []) b h ok = (omega arith, ok, refl, refl)
insensitive_loop-MadeAll (x ∷ y ∷ []) b h ok = (omega arith, ok, refl, refl)
insensitive_loop-MadeAll (x ∷ y ∷ z ∷ rest) b (hx, (hy, (hz, h))) ok =
    let one = insert_case_insensitive b x y z in
    let (grown, (ok', u)) = insert_case_insensitive-Made b x y z hx hy hz ok in
    let (more, ok'', us, l) = insensitive_loop-MadeAll (y ∷ z ∷ rest) one.0 (hy, (hz, h)) ok' in
    (
      omega (arith, grown, more),
      ok'',
      rw (usable_mono one.0 (insensitive_loop one.0 (y ∷ z ∷ rest)).0 one.1 more u) us,
      refl,
    )

parts-MadeAll :
    (b : TrigramQueryBuilder) (p : TrigramQueryBuilder × Reference) (n : ℕ)
    (parts : Option (TrigramQueryBuilder × List Reference))
    → Made b p
    → IfSome (MadeAll p.0 n) parts
    → IfSome
        (MadeAll b (suc n))
        (elim parts [ none ↦ none | some (b'', refs) ↦ some (b'', p.1 ∷ refs) ])
parts-MadeAll b p n none m ms = tt
parts-MadeAll b (b', r) n (some (b'', refs)) (grown, (ok, u)) (more, ok', us, l) =
    (omega (arith, grown, more), ok', rw (usable_mono b' b'' r more u) us, ap suc l)

parts_after :
    (b : TrigramQueryBuilder) (ps : Phrases) (first : Option (TrigramQueryBuilder × Reference))
    → IfSome (Made b) first
    → ((b' : TrigramQueryBuilder)
        → BuilderOk b'
        → IfSome (MadeAll b' (length_parts ps)) (insert_parts b' ps))
    → IfSome (MadeAll b (suc (length_parts ps))) (elim first [
      | none ↦ none
      | some (b', r) ↦ elim (insert_parts b' ps) [
        | none ↦ none
        | some (b'', refs) ↦ some (b'', r ∷ refs)
      ]
    ])
parts_after b ps none m rest = tt
parts_after b ps (some (b', r)) m rest =
    parts-MadeAll b (b', r) (length_parts ps) (insert_parts b' ps) m (rest b' m.1.0)

mutual
  unfolding Searchable Sized insert

  insert-Made :
      (q : PhraseQuery) (b : TrigramQueryBuilder)
      → Searchable q
      → Sized q
      → BuilderOk b
      → IfSome (Made b) (insert b q)
  insert-Made (PhraseQuery.and ps) b s z ok =
      finish_with-Made and b (length_parts ps) (insert_parts b ps) (and-Continues _)
        (insert_parts-MadeAll ps b s.1 z ok)
  insert-Made (PhraseQuery.or ps) b s z ok =
      finish_with-Made or b (length_parts ps) (insert_parts b ps) (or-Continues _)
        (insert_parts-MadeAll ps b s z ok)
  insert-Made (PhraseQuery.literal []) b s z ok = tt
  insert-Made (PhraseQuery.literal (x ∷ [])) b s z ok = tt
  insert-Made (PhraseQuery.literal (x ∷ y ∷ bytes)) b s z ok =
      and-Continues _ b (literal_loop (bit_or (x * 2 ^ 8) y) bytes) ok
        (literal_loop-usable b bytes _) refl
  insert-Made (PhraseQuery.min_of n ps) b s z ok =
      finish_with-Made _ b (length_parts ps) (insert_parts b ps) (min_of-Continues n _ z.0)
        (insert_parts-MadeAll ps b s.1 z.1 ok)
  insert-Made (PhraseQuery.insensitive_literal bytes) b s z ok =
      finish_with-Made and b _ (some (insensitive_loop b bytes)) (and-Continues _)
        (insensitive_loop-MadeAll bytes b s.1 ok)

  insert_parts-MadeAll :
      (ps : Phrases) (b : TrigramQueryBuilder)
      → SearchableAll ps
      → SizedAll ps
      → BuilderOk b
      → IfSome (MadeAll b (length_parts ps)) (insert_parts b ps)
  insert_parts-MadeAll Phrases.nil b s z ok = (omega arith, ok, refl, refl)
  insert_parts-MadeAll (Phrases.cons p ps) b s z ok =
      parts_after b ps (insert b p) (insert-Made p b s.0 z.0 ok)
        (λ b' ok'. insert_parts-MadeAll ps b' s.1 z.1 ok')

-- A built query has expressions that refer to older ones and trigrams in range, and its root is a
-- trigram in range or one of the expressions.
pub build-Layered :
    (p : PhraseQuery) (q : TrigramQuery)
    → Searchable p
    → Sized p
    → build p ≡ some q
    → Layered q.expressions
      × (all (λ t. ltb t trigram_range) (query_trigrams q.expressions) ≡ true)
      × (is_built q.expressions q.root ≡ true)
unfolding build new_builder query_trigrams
build-Layered p q s z e =
    built (insert new_builder p) (insert-Made p new_builder s z (tt, λ i. ground arith, refl)) e
  where
    built :
        (made : Option (TrigramQueryBuilder × Reference))
        → IfSome (Made new_builder) made
        → ◌≡◌ {A = Option TrigramQuery}
            (elim made [
              | none ↦ none
              | some (b, root) ↦ some (record { root = root; expressions = b.expressions })
            ])
            (some q)
        → Layered q.expressions
          × (all (λ t. ltb t trigram_range) (query_trigrams q.expressions) ≡ true)
          × (is_built q.expressions q.root ≡ true)
    built none m e = absurd (cc e)
    built (some (b, root)) (grown, ((lay, same, low), u)) e =
        let (known, lows) = and_split (is_known b root) (in_range root) u in
        let same_query : record { root = root; expressions = b.expressions } ≡ q = cc in
        subst
          (λ (t : TrigramQuery).
            Layered t.expressions
            × (all (λ n. ltb n trigram_range) (query_trigrams t.expressions) ≡ true)
            × (is_built t.expressions t.root ≡ true))
          same_query (lay, low, is_known-is_built b root same known)
