-- ===== src/Query/Adds.antt =====
-- query/mod.rs: each step of the builder keeps what was built before.
use haunted_house.Common.{
  ℕ, ◌≤◌, ◌<◌, ◌≡◌, refl, ◌∙◌, arith, List, [], ◌∷◌, true, ◌&&◌, ◌==◌, all, inl, inr, Bool-cases,
}
use haunted_house.Common.Sort.{sort, dedup, all-sort, all-dedup}
use haunted_house.Query.Match.{to_lower}
use haunted_house.Query.Builder.{
  Reference, reference_ord, from_values, TrigramQueryExpression, or_of, and_of, TrigramQueryBuilder,
  pop_or_add, or, and, to_upper, insert_case_insensitive, insensitive_loop, literal_loop,
}
use haunted_house.Query.Eval.{
  is_known, Grows, Grows-refl, is_known_mono, Grows-trans, add_expression-Grows,
}

-- What a step leaves behind: the builder has grown, and the reference is known to it.
abbrev pub Adds : TrigramQueryBuilder → TrigramQueryBuilder × Reference → Type 0
Adds b (b', r) = Grows b b' × (is_known b' r ≡ true)

abbrev pub AddsAll : TrigramQueryBuilder → TrigramQueryBuilder × List Reference → Type 0
AddsAll b (b', refs) = Grows b b' × (all (is_known b') refs ≡ true)

pop_or_add-Adds :
    (b : TrigramQueryBuilder) (wrap : List Reference → TrigramQueryExpression) (vs : List Reference)
    → all (is_known b) vs ≡ true
    → Adds b (pop_or_add b wrap vs)
unfolding pop_or_add
pop_or_add-Adds b wrap [] h = add_expression-Grows b (wrap [])
pop_or_add-Adds b wrap (r ∷ []) h = (Grows-refl b, ground arith)
pop_or_add-Adds b wrap (r ∷ s ∷ rest) h = add_expression-Grows b (wrap (r ∷ s ∷ rest))

all_sorted :
    (b : TrigramQueryBuilder) (vs : List Reference)
    → all (is_known b) vs ≡ true
    → all (is_known b) (dedup (sort vs)) ≡ true
all_sorted b vs h = all-dedup (is_known b) (sort vs) ∙ all-sort (is_known b) vs ∙ h

pub or-Adds :
    (b : TrigramQueryBuilder) (vs : List Reference) → all (is_known b) vs ≡ true → Adds b (or b vs)
unfolding or
or-Adds b vs h = pop_or_add-Adds b or_of (dedup (sort vs)) (all_sorted b vs h)

pub and-Adds :
    (b : TrigramQueryBuilder) (vs : List Reference) → all (is_known b) vs ≡ true → Adds b (and b vs)
unfolding and
and-Adds b vs h = pop_or_add-Adds b and_of (dedup (sort vs)) (all_sorted b vs h)

pub insert_case_insensitive-Adds :
    (b : TrigramQueryBuilder) (x y z : ℕ) → Adds b (insert_case_insensitive b x y z)
unfolding insert_case_insensitive from_values
insert_case_insensitive-Adds b x y z =
    elim (Bool-cases
      (to_lower x == to_upper x && (to_lower y == to_upper y && to_lower z == to_upper z))) [
        | inl e ↦ rw e (Grows-refl b, refl)
        | inr e ↦ rw e (or-Adds b _ refl)
      ]

all_known_mono :
    (b b' : TrigramQueryBuilder) (refs : List Reference)
    → b.counter ≤ b'.counter
    → all (is_known b) refs ≡ true
    → all (is_known b') refs ≡ true
all_known_mono b b' [] h k = refl
all_known_mono b b' (r ∷ refs) h k = ground (arith, is_known_mono b b' r, all_known_mono b b' refs)

pub insensitive_loop-AddsAll :
    (bytes : List ℕ) (b : TrigramQueryBuilder) → AddsAll b (insensitive_loop b bytes)
unfolding insensitive_loop
insensitive_loop-AddsAll [] b = (Grows-refl b, refl)
insensitive_loop-AddsAll (x ∷ []) b = (Grows-refl b, refl)
insensitive_loop-AddsAll (x ∷ y ∷ []) b = (Grows-refl b, refl)
insensitive_loop-AddsAll (x ∷ y ∷ z ∷ rest) b =
    let one = insert_case_insensitive-Adds b x y z in
    let b' = (insert_case_insensitive b x y z).0 in
    let more = insensitive_loop-AddsAll (y ∷ z ∷ rest) b' in
    let b'' = (insensitive_loop b' (y ∷ z ∷ rest)).0 in
    (
      Grows-trans b b' b'' one.0 more.0,
      ground
          (arith, more.1, is_known_mono b' b'' (insert_case_insensitive b x y z).1 more.0.0 one.1),
    )

pub literal_loop-known :
    (b : TrigramQueryBuilder) (bytes : List ℕ) (t : ℕ)
    → all (is_known b) (literal_loop t bytes) ≡ true
unfolding literal_loop
literal_loop-known b [] t = refl
literal_loop-known b (byte ∷ bytes) t = literal_loop-known b bytes _

abbrev pub IsByte : ℕ → Type 0
IsByte b = b < 256
