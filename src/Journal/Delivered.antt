-- ===== src/Journal/Delivered.antt =====
-- worker/journal.rs: the network of tasks sends through the channel of each node the values that the
-- graph of the query lets through.
use haunted_house.Common.{
  ℕ, zero, suc, ◌≤◌, ◌≡◌, refl, sym, ap, ◌∙◌, arith, List, [], ◌∷◌, some, Bool, true, false, ◌&&◌,
  ◌==◌, all, any, length, inl, inr, Bool-cases, and_split,
}
use haunted_house.Query.Builder.{Reference, trigram, expression, TrigramQueryExpression, references}
use haunted_house.Query.Eval.{node, eval, eval_trigram}
use haunted_house.Journal.Union.{elem, Descends}
use haunted_house.Journal.Network.{find_node, has_channel, can_subscribe, delivered}
use haunted_house.Journal.Tasks.{
  run_node-elem, run_node-Descends, node_same, Descends-map, Expressions, is_built, Weighed,
  Layered, eval_here, eval_behind, find_node_here,
}

module _ (trigrams : List ℕ) (es : Expressions) (sent full : ℕ → List ℕ)
    (falls : (t : ℕ) → Descends (full t))
    (exact : (t : ℕ) → any (λ s. s == t) trigrams ≡ true → sent t ≡ full t) where
  -- What a channel delivers is what the graph of the older expressions lets through.
  abbrev pub Delivers : Expressions → ℕ → Reference → Type 0
  Delivers older fuel r =
      Descends (delivered sent es fuel r)
      × ((x : ℕ) → elem x (delivered sent es fuel r) ≡ eval (λ t. elem x (full t)) older r)

  abbrev usable : Expressions → Reference → Bool
  usable older r = is_built older r && has_channel trigrams es r

  trigram-Delivers :
      (older : Expressions) (fuel t : ℕ)
      → has_channel trigrams es (trigram t) ≡ true
      → Delivers older fuel (trigram t)
  unfolding delivered has_channel
  trigram-Delivers older fuel t h = (
    rw (exact t h) (falls t),
    λ x. ap (elem x) (exact t h) ∙ sym (eval_trigram (λ t'. elem x (full t')) older t),
  )

  node-Delivers :
      (older : Expressions) (fuel i : ℕ) (e : TrigramQueryExpression)
      → find_node i es ≡ some e
      → Weighed e
      → all (usable older) (references e) ≡ true
      → ((r : Reference) → usable older r ≡ true → Delivers older fuel r)
      → Descends (delivered sent es (suc fuel) (expression i))
        × ((x : ℕ)
            → elem x (delivered sent es (suc fuel) (expression i))
              ≡ node e (eval (λ t. elem x (full t)) older))
  unfolding delivered
  node-Delivers older fuel i e found w known ih =
      let f = delivered sent es fuel in
      let d = Descends-map (usable older) f (references e) (λ r h. (ih r h).0) known in
      (
        rw (found, delivered) (run_node-Descends e f d w),
        λ x.
            rw (found, delivered)
              (run_node-elem e f x d w
                ∙ node_same (usable older) (λ r. elem x (f r)) (eval (λ t. elem x (full t)) older)
                    (λ r h. (ih r h).1 x) e known),
      )

  each_usable :
      (older : Expressions) (refs : List Reference)
      → all (is_built older) refs ≡ true
      → all (has_channel trigrams es) refs ≡ true
      → all (usable older) refs ≡ true
  each_usable older [] b c = refl
  each_usable older (r ∷ refs) b c =
      let (b1, b2) = and_split (is_built older r) (all (is_built older) refs) b in
      let (c1, c2) = and_split (has_channel trigrams es r) (all (has_channel trigrams es) refs) c in
      rw (b1, c1) (each_usable older refs b2 c2)

  find_node_behind :
      (k i : ℕ) (e : TrigramQueryExpression) (older : Expressions)
      → is_built older (expression k) ≡ false
      → is_built older (expression i) ≡ true
      → find_node i ((k, e) ∷ older) ≡ find_node i older
  unfolding find_node
  find_node_behind k i e older new built = elim (Bool-cases (k == i)) [
    | inl here ↦ let same : k ≡ i = ground arith in absurd (cc (rw same at new))
    | inr other ↦ rw other refl
  ]

  -- Every reference that has a channel is delivered what the graph lets through.
  pub delivered-Delivers :
      (older : Expressions) (fuel : ℕ) (r : Reference)
      → Layered older
      → all (can_subscribe trigrams es) older ≡ true
      → ((i : ℕ) → is_built older (expression i) ≡ true → find_node i es ≡ find_node i older)
      → length older ≤ fuel
      → usable older r ≡ true
      → Delivers older fuel r
  unfolding eval can_subscribe
  delivered-Delivers older fuel (trigram t) lay sub agree enough u = trigram-Delivers older fuel t u
  delivered-Delivers [] fuel (expression i) lay sub agree enough u = absurd (cc u)
  delivered-Delivers ((k, e) ∷ older) zero (expression i) lay sub agree enough u =
      absurd (omega arith)
  delivered-Delivers ((k, e) ∷ older) (suc fuel) (expression i) (new, refs, w, lay) sub agree enough
        u =
      let (one, others) =
        and_split (all (has_channel trigrams es) (references e))
          (all (can_subscribe trigrams es) older) sub in
      let agree' : (j : ℕ)
          → is_built older (expression j) ≡ true
          → find_node j es ≡ find_node j older =
        λ j b. agree j (ground arith) ∙ find_node_behind k j e older new b in
      elim (Bool-cases (k == i)) [
        | inl here ↦
            let (d, same) =
              node-Delivers older fuel i e
                (agree i (ground arith) ∙ find_node_here k i e older here) w
                (each_usable older (references e) refs one)
                (λ r h.
                  delivered-Delivers older fuel r lay others agree' (omega (arith, enough)) h) in
            (d, λ x. same x ∙ sym (eval_here (λ t. elem x (full t)) k i e older here))
        | inr other ↦
            let (d, same) =
              delivered-Delivers older (suc fuel) (expression i) lay others agree'
                (omega (arith, enough)) (rw other at u) in
            (d, λ x. same x ∙ sym (eval_behind (λ t. elem x (full t)) k i e older other))
      ]
