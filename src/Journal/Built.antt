-- ===== src/Journal/Built.antt =====
-- query/mod.rs: the steps of the builder keep its expressions in layers, and its trigrams in range.
use haunted_house.Common.{
  ℕ, suc, ◌+◌, ◌≤◌, ◌<◌, ◌^◌, ◌≡◌, refl, ap, ◌∙◌, arith, List, [], ◌∷◌, none, some, Bool, true,
  ◌||◌, ◌&&◌, ltb, lt→ltb, ◌==◌, all, length, and_split, Option,
}
use haunted_house.Common.Int.{ℤ}
use haunted_house.Common.Sort.{nat_ord, sort, dedup, all-sort, all-dedup, all-append, eqb→eq}
use haunted_house.Query.Builder.{
  finish_with, Reference, trigram, expression, reference_ord, TrigramQueryExpression, or_of, and_of,
  references, TrigramQueryBuilder, add_expression, pop_or_add, or, and, count_entry, counted_from,
  keys, counts, min_of,
}
use haunted_house.Query.Eval.{is_known, is_known_mono, add_expression-Grows}
use haunted_house.Query.Adds.{or-Adds, and-Adds}
use haunted_house.Journal.Addresses.{trigram_range}
use haunted_house.Journal.Network.{dep_trigrams, query_trigrams}
use haunted_house.Journal.Tasks.{is_built, total_weight, Weighed, Layered}

abbrev pub in_range : Reference → Bool
in_range (trigram t) = ltb t trigram_range
in_range (expression i) = true

-- The reference is a trigram in range, or an expression that the builder has handed out.
abbrev pub usable : TrigramQueryBuilder → Reference → Bool
usable b r = is_known b r && in_range r

-- The expressions of a builder: those that were handed out, each behind those it refers to, with
-- trigrams in range.
abbrev pub BuilderOk : TrigramQueryBuilder → Type 0
BuilderOk b =
    Layered b.expressions
    × ((i : ℕ) → is_built b.expressions (expression i) ≡ ltb i b.counter)
    × (all (λ t. ltb t trigram_range) (query_trigrams b.expressions) ≡ true)

all-dep_trigrams :
    (refs : List Reference)
    → all in_range refs ≡ true
    → all (λ t. ltb t trigram_range) (dep_trigrams refs) ≡ true
unfolding dep_trigrams
all-dep_trigrams [] h = refl
all-dep_trigrams (trigram t ∷ refs) h =
    let (a, b) = and_split (ltb t trigram_range) (all in_range refs) h in
    rw a (all-dep_trigrams refs b)
all-dep_trigrams (expression i ∷ refs) h = all-dep_trigrams refs h

pub is_known-is_built :
    (b : TrigramQueryBuilder) (r : Reference)
    → ((i : ℕ) → is_built b.expressions (expression i) ≡ ltb i b.counter)
    → is_known b r ≡ true
    → is_built b.expressions r ≡ true
is_known-is_built b (trigram t) same h = refl
is_known-is_built b (expression i) same h = same i ∙ h

all_built :
    (b : TrigramQueryBuilder) (refs : List Reference)
    → ((i : ℕ) → is_built b.expressions (expression i) ≡ ltb i b.counter)
    → all (usable b) refs ≡ true
    → (all (is_built b.expressions) refs ≡ true) × (all in_range refs ≡ true)
all_built b [] same h = (refl, refl)
all_built b (r ∷ refs) same h =
    let (one, others) = and_split (usable b r) (all (usable b) refs) h in
    let (known, low) = and_split (is_known b r) (in_range r) one in
    let (built, lows) = all_built b refs same others in
    (rw (is_known-is_built b r same known) built, rw low lows)

-- A step that leaves the builder well formed, with a reference that can be used.
abbrev pub StepOk : TrigramQueryBuilder × Reference → Type 0
StepOk (b, r) = BuilderOk b × (usable b r ≡ true)

counter_next : (i n : ℕ) → (n == i || ltb i n) ≡ ltb i (n + 1)
counter_next i n = ground arith

add_expression-StepOk :
    (b : TrigramQueryBuilder) (e : TrigramQueryExpression)
    → BuilderOk b
    → all (usable b) (references e) ≡ true
    → Weighed e
    → StepOk (add_expression b e)
unfolding add_expression query_trigrams
add_expression-StepOk b e (lay, same, low) u w =
    let (built, lows) = all_built b (references e) same u in
    (
      (
        (same b.counter ∙ ground arith, built, w, lay),
        λ i. ap (λ x. b.counter == i || x) (same i) ∙ counter_next i b.counter,
        all-append ⦃o = nat_ord⦄ _ (dep_trigrams (references e)) (query_trigrams b.expressions)
            ∙ rw (all-dep_trigrams (references e) lows, low) refl,
      ),
      rw (lt→ltb b.counter (b.counter + 1) (omega arith)) refl,
    )

-- What the two callers of pop_or_add make of a list.
abbrev Wraps : (List Reference → TrigramQueryExpression) → Type 0
Wraps wrap = (vs : List Reference) → (references (wrap vs) ≡ vs) × Weighed (wrap vs)

pop_or_add-StepOk :
    (b : TrigramQueryBuilder) (wrap : List Reference → TrigramQueryExpression) (vs : List Reference)
    → BuilderOk b
    → Wraps wrap
    → all (usable b) vs ≡ true
    → StepOk (pop_or_add b wrap vs)
unfolding pop_or_add
pop_or_add-StepOk b wrap [] ok ws u =
    add_expression-StepOk b (wrap []) ok (rw ((ws []).0) refl) (ws []).1
pop_or_add-StepOk b wrap (r ∷ []) ok ws u = (ok, ground arith)
pop_or_add-StepOk b wrap (r ∷ s ∷ rest) ok ws u =
    let vs = r ∷ s ∷ rest in
    add_expression-StepOk b (wrap vs) ok (ap (all (usable b)) (ws vs).0 ∙ u) (ws vs).1

or-StepOk :
    (b : TrigramQueryBuilder) (vs : List Reference)
    → BuilderOk b
    → all (usable b) vs ≡ true
    → StepOk (or b vs)
unfolding or
or-StepOk b vs ok u =
    pop_or_add-StepOk b or_of (dedup (sort vs)) ok (λ refs. (refl, tt))
      (all-dedup (usable b) (sort vs) ∙ all-sort (usable b) vs ∙ u)

and-StepOk :
    (b : TrigramQueryBuilder) (vs : List Reference)
    → BuilderOk b
    → all (usable b) vs ≡ true
    → StepOk (and b vs)
unfolding and
and-StepOk b vs ok u =
    pop_or_add-StepOk b and_of (dedup (sort vs)) ok (λ refs. (refl, tt))
      (all-dedup (usable b) (sort vs) ∙ all-sort (usable b) vs ∙ u)

pub usable_mono :
    (b b' : TrigramQueryBuilder) (r : Reference)
    → b.counter ≤ b'.counter
    → usable b r ≡ true
    → usable b' r ≡ true
usable_mono b b' r h u =
    let (known, low) = and_split (is_known b r) (in_range r) u in
    rw (is_known_mono b b' r h known, low) refl

pub all_known :
    (b : TrigramQueryBuilder) (refs : List Reference)
    → all (usable b) refs ≡ true
    → all (is_known b) refs ≡ true
all_known b [] u = refl
all_known b (r ∷ refs) u =
    let (one, others) = and_split (usable b r) (all (usable b) refs) u in
    let (known, low) = and_split (is_known b r) (in_range r) one in
    rw known (all_known b refs others)

all-count_entry :
    (p : Reference → Bool) (c : List (Reference × ℕ)) (r : Reference)
    → all p (keys (count_entry c r)) ≡ (all p (keys c) && p r)
unfolding count_entry
all-count_entry p [] r = ground arith
all-count_entry p ((s, n) ∷ c) r = ground (arith, eqb→eq s r, all-count_entry p c r)

all-counted_from :
    (p : Reference → Bool) (refs : List Reference) (c : List (Reference × ℕ))
    → all p (keys (counted_from c refs)) ≡ (all p (keys c) && all p refs)
unfolding counted_from
all-counted_from p [] c = ground arith
all-counted_from p (r ∷ refs) c =
    all-counted_from p refs (count_entry c r) ∙ rw (all-count_entry p c r) (ground arith)

length-keys : (c : List (Reference × ℕ)) → length (keys c) ≡ length (counts c)
length-keys [] = refl
length-keys ((r, n) ∷ c) = ap suc (length-keys c)

-- What a step from one builder to another leaves: more has been handed out, and nothing is broken.
abbrev pub Made : TrigramQueryBuilder → TrigramQueryBuilder × Reference → Type 0
Made b (b', r) = (b.counter ≤ b'.counter) × StepOk (b', r)

abbrev pub MadeAll : TrigramQueryBuilder → ℕ → TrigramQueryBuilder × List Reference → Type 0
MadeAll b n (b', refs) =
    (b.counter ≤ b'.counter) × BuilderOk b' × (all (usable b') refs ≡ true) × (length refs ≡ n)

abbrev pub IfSome : {A : Type 0} → (A → Type 0) → Option A → Type 0
IfSome P none = Unit {0}
IfSome P (some a) = P a

abbrev pub Continues :
    ℕ → (TrigramQueryBuilder → List Reference → TrigramQueryBuilder × Reference) → Type 0
Continues n f =
    (b : TrigramQueryBuilder) (refs : List Reference)
    → BuilderOk b
    → all (usable b) refs ≡ true
    → length refs ≡ n
    → Made b (f b refs)

pub or-Continues : (n : ℕ) → Continues n or
or-Continues n b refs ok u l = ((or-Adds b refs (all_known b refs u)).0.0, or-StepOk b refs ok u)

pub and-Continues : (n : ℕ) → Continues n and
and-Continues n b refs ok u l = ((and-Adds b refs (all_known b refs u)).0.0, and-StepOk b refs ok u)

count_entry-total :
    (c : List (Reference × ℕ)) (r : Reference)
    → total_weight (counts (count_entry c r)) ≡ total_weight (counts c) + 1
unfolding count_entry
count_entry-total [] r = refl
count_entry-total ((s, n) ∷ c) r = ground (arith, count_entry-total c r)

counted_from-total :
    (refs : List Reference) (c : List (Reference × ℕ))
    → total_weight (counts (counted_from c refs)) ≡ total_weight (counts c) + length refs
unfolding counted_from
counted_from-total [] c = omega arith
counted_from-total (r ∷ refs) c =
    omega (arith, counted_from-total refs (count_entry c r), count_entry-total c r)

pub min_of-Continues :
    (m : ℤ) (n : ℕ) → n < 2 ^ 64 → Continues n (λ b refs. add_expression b (min_of m refs))
unfolding min_of
min_of-Continues m n few b refs ok u l = (
  (add_expression-Grows b (min_of m refs)).0.0,
  add_expression-StepOk b (min_of m refs) ok (all-counted_from (usable b) refs [] ∙ u)
      (length-keys (counted_from [] refs), omega (arith, counted_from-total refs [])),
)

pub finish_with-Made :
    (f : TrigramQueryBuilder → List Reference → TrigramQueryBuilder × Reference)
    (b : TrigramQueryBuilder) (n : ℕ) (parts : Option (TrigramQueryBuilder × List Reference))
    → Continues n f
    → IfSome (MadeAll b n) parts
    → IfSome (Made b) (finish_with f parts)
finish_with-Made f b n none c m = tt
finish_with-Made f b n (some (b', refs)) c (grown, ok, u, l) =
    let (more, step) = c b' refs ok u l in (omega (arith, grown, more), step)
