-- ===== src/Query/Builder.antt =====
-- query/mod.rs: the graph of a TrigramQuery and the builder that makes it from a PhraseQuery.
-- A HashMap is a list of entries whose first entry for a key counts; its order stands for the order
-- of iteration. `none` of a builder step is the panic of an index into a short literal.
use haunted_house.Common.{
  ℕ, ◌+◌, ◌-◌, ◌*◌, ◌%◌, ◌^◌, ◌≡◌, arith, List, [], ◌∷◌, Option, none, some, ◌&&◌, leb, ◌==◌,
  if◌then◌else◌,
}
use haunted_house.Common.Int.{ℤ}
use haunted_house.Common.Sort.{Ord, eqb, sort, dedup}
use haunted_house.Query.Phrase.{PhraseQuery, Phrases}
use haunted_house.Query.Match.{to_lower}
use Prim.Native.Nat.{bit_or, compare, Ordering}

pub data Reference : Type 0 where
  trigram : ℕ → Reference
  expression : ℕ → Reference

abbrev pub reference_cmp : Reference → Reference → Ordering
reference_cmp (trigram a) (trigram b) = compare a b
reference_cmp (trigram a) (expression b) = Ordering.lt
reference_cmp (expression a) (trigram b) = Ordering.gt
reference_cmp (expression a) (expression b) = compare a b

pub reference_cmp_eq : (a b : Reference) → reference_cmp a b ≡ Ordering.eq → a ≡ b
reference_cmp_eq a b h = ground arith

pub reference_cmp_refl : (a : Reference) → reference_cmp a a ≡ Ordering.eq
reference_cmp_refl a = ground arith

instance abbrev pub reference_ord : Ord Reference
reference_ord = record {
  cmp = reference_cmp;
  cmp_eq = reference_cmp_eq;
  cmp_refl = reference_cmp_refl;
}

-- `(a << 16) | (b << 8) | c`
unfoldable pub from_values : ℕ → ℕ → ℕ → Reference
from_values a b c = trigram (bit_or (bit_or (a * 2 ^ 16) (b * 2 ^ 8)) c)

pub data TrigramQueryExpression : Type 0 where
  or_of : List Reference → TrigramQueryExpression
  and_of : List Reference → TrigramQueryExpression
  min_of_refs : ℤ → List Reference → List ℕ → TrigramQueryExpression

abbrev pub references : TrigramQueryExpression → List Reference
references (or_of refs) = refs
references (and_of refs) = refs
references (min_of_refs n refs weights) = refs

pub record TrigramQueryBuilder : Type 0 where
  pub counter : ℕ
  pub expressions : List (ℕ × TrigramQueryExpression)

unfoldable pub new_builder : TrigramQueryBuilder
new_builder = record { counter = 0; expressions = [] }

-- next_id, and the insertion of the expression under the new id.
unfoldable pub add_expression :
    TrigramQueryBuilder → TrigramQueryExpression → TrigramQueryBuilder × Reference
add_expression b e = (
  record { counter = b.counter + 1; expressions = (b.counter, e) ∷ b.expressions },
  expression b.counter,
)

-- `if values.len() == 1 { values.pop() }`, and a new expression otherwise.
unfoldable pub pop_or_add :
    TrigramQueryBuilder
    → (List Reference → TrigramQueryExpression)
    → List Reference
    → TrigramQueryBuilder × Reference
pop_or_add b wrap [] = add_expression b (wrap [])
pop_or_add b wrap (r ∷ []) = (b, r)
pop_or_add b wrap (r ∷ s ∷ rest) = add_expression b (wrap (r ∷ s ∷ rest))

unfoldable pub or : TrigramQueryBuilder → List Reference → TrigramQueryBuilder × Reference
or b values = pop_or_add b or_of (dedup (sort values))

unfoldable pub and : TrigramQueryBuilder → List Reference → TrigramQueryBuilder × Reference
and b values = pop_or_add b and_of (dedup (sort values))

-- `*counted.entry(input).or_default() += 1`
unfoldable pub count_entry : List (Reference × ℕ) → Reference → List (Reference × ℕ)
count_entry [] r = (r, 1) ∷ []
count_entry ((s, n) ∷ counted) r =
    if eqb s r then (s, n + 1) ∷ counted else (s, n) ∷ count_entry counted r

unfoldable pub counted_from : List (Reference × ℕ) → List Reference → List (Reference × ℕ)
counted_from counted [] = counted
counted_from counted (r ∷ refs) = counted_from (count_entry counted r) refs

abbrev pub keys : List (Reference × ℕ) → List Reference
keys [] = []
keys ((r, n) ∷ counted) = r ∷ keys counted

abbrev pub counts : List (Reference × ℕ) → List ℕ
counts [] = []
counts ((r, n) ∷ counted) = n ∷ counts counted

unfoldable pub min_of : ℤ → List Reference → TrigramQueryExpression
min_of expected values =
    let counted = counted_from [] values in min_of_refs expected (keys counted) (counts counted)

abbrev pub to_upper : ℕ → ℕ
to_upper b = if leb b'a' b && leb b b'z' then b - 32 else b

unfoldable pub insert_case_insensitive :
    TrigramQueryBuilder → ℕ → ℕ → ℕ → TrigramQueryBuilder × Reference
insert_case_insensitive b x y z =
    if to_lower x == to_upper x && (to_lower y == to_upper y && to_lower z == to_upper z)
    then (b, from_values (to_lower x) (to_lower y) (to_lower z))
    else or b (
        from_values (to_lower x) (to_lower y) (to_lower z)
        ∷ from_values (to_lower x) (to_lower y) (to_upper z)
        ∷ from_values (to_lower x) (to_upper y) (to_lower z)
        ∷ from_values (to_lower x) (to_upper y) (to_upper z)
        ∷ from_values (to_upper x) (to_lower y) (to_lower z)
        ∷ from_values (to_upper x) (to_lower y) (to_upper z)
        ∷ from_values (to_upper x) (to_upper y) (to_lower z)
        ∷ from_values (to_upper x) (to_upper y) (to_upper z)
        ∷ [])

-- `for window in literal.windows(3)`
unfoldable pub insensitive_loop :
    TrigramQueryBuilder → List ℕ → TrigramQueryBuilder × List Reference
insensitive_loop b [] = (b, [])
insensitive_loop b (x ∷ []) = (b, [])
insensitive_loop b (x ∷ y ∷ []) = (b, [])
insensitive_loop b (x ∷ y ∷ z ∷ rest) =
    let (b', r) = insert_case_insensitive b x y z in
    let (b'', refs) = insensitive_loop b' (y ∷ z ∷ rest) in (b'', r ∷ refs)

-- `trigram = ((trigram << 8) | byte as u32) & 0xFFFFFF` for each byte after the first two.
unfoldable pub literal_loop : ℕ → List ℕ → List Reference
literal_loop t [] = []
literal_loop t (byte ∷ bytes) =
    let t' = bit_or (t * 2 ^ 8 % 2 ^ 32) byte % 2 ^ 24 in trigram t' ∷ literal_loop t' bytes

abbrev pub insert_literal : TrigramQueryBuilder → List ℕ → Option (TrigramQueryBuilder × Reference)
insert_literal b [] = none
insert_literal b (x ∷ []) = none
insert_literal b (x ∷ y ∷ bytes) = some (and b (literal_loop (bit_or (x * 2 ^ 8) y) bytes))

abbrev pub finish_with :
    (TrigramQueryBuilder → List Reference → TrigramQueryBuilder × Reference)
    → Option (TrigramQueryBuilder × List Reference)
    → Option (TrigramQueryBuilder × Reference)
finish_with f none = none
finish_with f (some (b, refs)) = some (f b refs)

unfoldable mutual
  pub insert : TrigramQueryBuilder → PhraseQuery → Option (TrigramQueryBuilder × Reference)
  insert b (PhraseQuery.or parts) = finish_with or (insert_parts b parts)
  insert b (PhraseQuery.and parts) = finish_with and (insert_parts b parts)
  insert b (PhraseQuery.min_of expected parts) =
      finish_with (λ b' refs. add_expression b' (min_of expected refs)) (insert_parts b parts)
  insert b (PhraseQuery.literal bytes) = insert_literal b bytes
  insert b (PhraseQuery.insensitive_literal bytes) =
      let (b', refs) = insensitive_loop b bytes in some (and b' refs)

  -- `for part in parts { expressions.push(self.insert(part)); }`
  pub insert_parts : TrigramQueryBuilder → Phrases → Option (TrigramQueryBuilder × List Reference)
  insert_parts b Phrases.nil = some (b, [])
  insert_parts b (Phrases.cons part parts) = elim (insert b part) [
    | none ↦ none
    | some (b', r) ↦ elim (insert_parts b' parts) [
      | none ↦ none
      | some (b'', refs) ↦ some (b'', r ∷ refs)
    ]
  ]

pub record TrigramQuery : Type 0 where
  pub root : Reference
  pub expressions : List (ℕ × TrigramQueryExpression)

unfoldable pub build : PhraseQuery → Option TrigramQuery
build input = elim (insert new_builder input) [
  | none ↦ none
  | some (b, root) ↦ some (record { root = root; expressions = b.expressions })
]
