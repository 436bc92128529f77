-- ===== src/Query/Eval.antt =====
-- query/mod.rs: which files the graph of a TrigramQuery lets through, given their trigrams.
-- The value of a node is what the tasks of worker/journal.rs compute from their inputs: an `And` or
-- `MinOf` node without a hit among its inputs sends nothing.
use haunted_house.Common.{
  ℕ, ◌+◌, ◌*◌, ◌≤◌, ◌≡◌, refl, sym, ◌∙◌, arith, List, [], ◌∷◌, Bool, true, false, ◌&&◌, ◌||◌, leb,
  ltb, ◌==◌, if◌then◌else◌, any, all, count_if,
}
use haunted_house.Common.Int.{ℤ, as_usize}
use haunted_house.Common.Sort.{sort, dedup, any-sort, any-dedup, all-sort, all-dedup, eqb→eq}
use haunted_house.Query.Builder.{
  Reference, trigram, expression, reference_ord, TrigramQueryExpression, or_of, and_of, min_of_refs,
  TrigramQueryBuilder, add_expression, pop_or_add, or, and, count_entry, counted_from, keys, counts,
  min_of,
}

-- The number of a trigram, and whether it stands in the bytes.
abbrev pub trigram_of : ℕ → ℕ → ℕ → ℕ
trigram_of x y z = x * 65536 + y * 256 + z

unfoldable pub has_trigram : List ℕ → ℕ → Bool
has_trigram [] t = false
has_trigram (x ∷ []) t = false
has_trigram (x ∷ y ∷ []) t = false
has_trigram (x ∷ y ∷ z ∷ rest) t = trigram_of x y z == t || has_trigram (y ∷ z ∷ rest) t

-- The weights of the inputs that hold.
abbrev pub weigh : (Reference → Bool) → List Reference → List ℕ → ℕ
weigh value [] weights = 0
weigh value (r ∷ refs) [] = 0
weigh value (r ∷ refs) (w ∷ weights) =
    let rest = weigh value refs weights in if value r then w + rest else rest

unfoldable pub node : TrigramQueryExpression → (Reference → Bool) → Bool
node (or_of refs) value = any value refs
node (and_of refs) value = any value refs && all value refs
node (min_of_refs n refs weights) value =
    any value refs && leb (as_usize n) (weigh value refs weights)

module _ (has : ℕ → Bool) where
  -- The builder puts new entries first, and they refer to older ones.
  unfoldable pub eval : List (ℕ × TrigramQueryExpression) → Reference → Bool
  eval [] (trigram t) = has t
  eval [] (expression i) = false
  eval (entry ∷ entries) (trigram t) = has t
  eval ((k, e) ∷ entries) (expression i) = elim (k == i) [
    | true ↦ node e (eval entries)
    | false ↦ eval entries (expression i)
  ]

  abbrev pub eval_in : TrigramQueryBuilder → Reference → Bool
  eval_in b = eval b.expressions

  pub eval_trigram : (es : List (ℕ × TrigramQueryExpression)) (t : ℕ) → eval es (trigram t) ≡ has t
  unfolding eval
  eval_trigram [] t = refl
  eval_trigram (e ∷ es) t = refl

  pub eval-add_self :
      (b : TrigramQueryBuilder) (e : TrigramQueryExpression)
      → eval_in (add_expression b e).0 (add_expression b e).1 ≡ node e (eval_in b)
  unfolding eval add_expression
  eval-add_self b e = ground arith

  or_of-pop_or_add :
      (b : TrigramQueryBuilder) (vs : List Reference)
      → eval_in (pop_or_add b or_of vs).0 (pop_or_add b or_of vs).1 ≡ any (eval_in b) vs
  unfolding pop_or_add
  or_of-pop_or_add b [] = eval-add_self b (or_of []) ∙ unfold node in refl
  or_of-pop_or_add b (r ∷ []) = ground arith
  or_of-pop_or_add b (r ∷ q ∷ rest) = eval-add_self b (or_of (r ∷ q ∷ rest)) ∙ unfold node in refl

  and_of-pop_or_add :
      (b : TrigramQueryBuilder) (vs : List Reference)
      → eval_in (pop_or_add b and_of vs).0 (pop_or_add b and_of vs).1
        ≡ (any (eval_in b) vs && all (eval_in b) vs)
  unfolding pop_or_add
  and_of-pop_or_add b [] = eval-add_self b (and_of []) ∙ unfold node in refl
  and_of-pop_or_add b (r ∷ []) = ground arith
  and_of-pop_or_add b (r ∷ q ∷ rest) = eval-add_self b (and_of (r ∷ q ∷ rest)) ∙ unfold node in refl

  -- The reference that `or` returns lets a file through exactly if one of the values does.
  pub eval-or :
      (b : TrigramQueryBuilder) (values : List Reference)
      → eval_in (or b values).0 (or b values).1 ≡ any (eval_in b) values
  unfolding or
  eval-or b values =
      or_of-pop_or_add b (dedup (sort values))
      ∙ any-dedup (eval_in b) (sort values)
      ∙ any-sort (eval_in b) values

  pub eval-and :
      (b : TrigramQueryBuilder) (values : List Reference)
      → eval_in (and b values).0 (and b values).1
        ≡ (any (eval_in b) values && all (eval_in b) values)
  unfolding and
  eval-and b values =
      and_of-pop_or_add b (dedup (sort values))
      ∙ rw (any-dedup (eval_in b) (sort values), all-dedup (eval_in b) (sort values))
          (rw (any-sort (eval_in b) values, all-sort (eval_in b) values))

module _ (value : Reference → Bool) where
  weigh-count_entry :
      (c : List (Reference × ℕ)) (r : Reference)
      → weigh value (keys (count_entry c r)) (counts (count_entry c r))
        ≡ weigh value (keys c) (counts c) + (if value r then 1 else 0)
  unfolding count_entry
  weigh-count_entry [] r = ground arith
  weigh-count_entry ((s, n) ∷ c) r = ground (arith, eqb→eq s r, weigh-count_entry c r)

  any-count_entry :
      (c : List (Reference × ℕ)) (r : Reference)
      → any value (keys (count_entry c r)) ≡ (any value (keys c) || value r)
  unfolding count_entry
  any-count_entry [] r = ground arith
  any-count_entry ((s, n) ∷ c) r = ground (arith, eqb→eq s r, any-count_entry c r)

  weigh-counted_from :
      (refs : List Reference) (c : List (Reference × ℕ))
      → weigh value (keys (counted_from c refs)) (counts (counted_from c refs))
        ≡ weigh value (keys c) (counts c) + count_if value refs
  unfolding counted_from
  weigh-counted_from [] c = omega arith
  weigh-counted_from (r ∷ refs) c =
      ground (arith, weigh-counted_from refs (count_entry c r), weigh-count_entry c r)

  any-counted_from :
      (refs : List Reference) (c : List (Reference × ℕ))
      → any value (keys (counted_from c refs)) ≡ (any value (keys c) || any value refs)
  unfolding counted_from
  any-counted_from [] c = ground arith
  any-counted_from (r ∷ refs) c =
      ground (arith, any-counted_from refs (count_entry c r), any-count_entry c r)

  -- The node of a MinOf counts each of the listed references as often as it was listed.
  pub node-min_of :
      (n : ℤ) (refs : List Reference)
      → node (min_of n refs) value ≡ (any value refs && leb (as_usize n) (count_if value refs))
  unfolding node min_of
  node-min_of n refs = ground (arith, weigh-counted_from refs [], any-counted_from refs [])

-- The reference is a trigram, or an expression that the builder has handed out.
abbrev pub is_known : TrigramQueryBuilder → Reference → Bool
is_known b (trigram t) = true
is_known b (expression i) = ltb i b.counter

-- The later builder keeps the value of every reference that was known to the earlier one.
abbrev pub Grows : TrigramQueryBuilder → TrigramQueryBuilder → Type 0
Grows b b' =
    (b.counter ≤ b'.counter)
    × ((has : ℕ → Bool) (r : Reference) → is_known b r ≡ true → eval_in has b' r ≡ eval_in has b r)

pub Grows-refl : (b : TrigramQueryBuilder) → Grows b b
Grows-refl b = (omega arith, λ has r k. refl)

pub is_known_mono :
    (b b' : TrigramQueryBuilder) (r : Reference)
    → b.counter ≤ b'.counter
    → is_known b r ≡ true
    → is_known b' r ≡ true
is_known_mono b b' (trigram t) h k = refl
is_known_mono b b' (expression i) h k = ground arith

pub Grows-trans : (a b c : TrigramQueryBuilder) → Grows a b → Grows b c → Grows a c
Grows-trans a b c g h =
    (omega arith, λ has r k. h.1 has r (is_known_mono a b r g.0 k) ∙ g.1 has r k)

pub add_expression-Grows :
    (b : TrigramQueryBuilder) (e : TrigramQueryExpression)
    → Grows b (add_expression b e).0
      × (is_known (add_expression b e).0 (add_expression b e).1 ≡ true)
unfolding add_expression eval
add_expression-Grows b e = ((omega arith, keep), ground arith)
  where
    keep :
        (has : ℕ → Bool) (r : Reference)
        → is_known b r ≡ true
        → eval has ((b.counter, e) ∷ b.expressions) r ≡ eval_in has b r
    keep has (trigram t) k = sym (eval_trigram has b.expressions t)
    keep has (expression i) k = ground arith
