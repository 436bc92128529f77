-- ===== src/Query/Insert.antt =====
-- query/mod.rs: the trigrams of a literal that a file holds.
use haunted_house.Common.{
  ℕ, ◌+◌, ◌*◌, ◌%◌, ◌^◌, ◌<◌, ◌≡◌, refl, ◌∙◌, arith, List, [], ◌∷◌, Bool, true, ◌&&◌, ◌==◌,
  if◌then◌else◌, any, all, length, All, ◌⊎◌, inl, inr, Bool-cases, and_split,
}
use haunted_house.Common.Bits.{bit_or_disjoint, bit_or_comm}
use Prim.Native.Nat.{bit_or}
use haunted_house.Query.Match.{starts, occurs, to_lower, same_letter}
use haunted_house.Query.Builder.{
  Reference, reference_ord, from_values, TrigramQueryBuilder, or, to_upper, insert_case_insensitive,
  insensitive_loop, literal_loop,
}
use haunted_house.Query.Eval.{trigram_of, has_trigram, eval_in, eval_trigram, eval-or}
use haunted_house.Query.Adds.{insert_case_insensitive-Adds, insensitive_loop-AddsAll, IsByte}

-- The next trigram, from the last two bytes of the one before.
next_trigram :
    (t byte : ℕ)
    → t < 2 ^ 24
    → byte < 256
    → bit_or (t * 2 ^ 8 % 2 ^ 32) byte % 2 ^ 24 ≡ t % 65536 * 256 + byte
next_trigram t byte h k =
    let fits : t * 2 ^ 8 % 2 ^ 32 ≡ t * 2 ^ 8 = omega arith in
    rw (fits, bit_or_comm (t * 2 ^ 8) byte, bit_or_disjoint 8 byte t k) (omega arith)

-- The trigrams of `file` are among those that `has` holds of.
abbrev pub Within : List ℕ → (ℕ → Bool) → Type 0
Within file has = (u : ℕ) → has_trigram file u ≡ true → has u ≡ true

Within-tail : (x : ℕ) (file : List ℕ) (has : ℕ → Bool) → Within (x ∷ file) has → Within file has
unfolding has_trigram
Within-tail x [] has w u h = cc
Within-tail x (y ∷ []) has w u h = cc
Within-tail x (y ∷ z ∷ rest) has w u h = w u (rw h (ground arith))

Within-head :
    (x y z : ℕ) (file : List ℕ) (has : ℕ → Bool)
    → Within (x ∷ y ∷ z ∷ file) has
    → has (trigram_of x y z) ≡ true
unfolding has_trigram
Within-head x y z file has w = w (trigram_of x y z) (ground arith)

module _ (has : ℕ → Bool) (b : TrigramQueryBuilder) where
  -- Where a pattern starts the rest of a file, its trigrams stand in that rest.
  literal_loop-starts :
      (bytes file : List ℕ) (x y t : ℕ)
      → All IsByte (y ∷ bytes)
      → t < 2 ^ 24
      → t % 65536 ≡ x * 256 + y
      → Within file has
      → starts ◌==◌ (x ∷ y ∷ bytes) file ≡ true
      → all (eval_in has b) (literal_loop t bytes) ≡ true
  unfolding literal_loop
  literal_loop-starts [] file x y t ok small low w h = refl
  literal_loop-starts (z ∷ zs) [] x y t ok small low w h = cc
  literal_loop-starts (z ∷ zs) (f ∷ []) x y t ok small low w h = ground arith
  literal_loop-starts (z ∷ zs) (f ∷ g ∷ []) x y t ok small low w h = ground arith
  literal_loop-starts (z ∷ zs) (f ∷ g ∷ k ∷ rest) x y t ok small low w h =
      let next = next_trigram t z small ok.1.0 in
      let t' = t % 65536 * 256 + z in
      rw (next, eval_trigram has b.expressions t')
        (ground (
          arith,
          Within-head f g k rest has w,
          literal_loop-starts zs (g ∷ k ∷ rest) y z t' ok.1 (omega arith) (omega arith)
              (Within-tail f (g ∷ k ∷ rest) has w),
        ))

  -- Every trigram of a literal that stands in the file is among the trigrams of the file.
  pub literal_loop-occurs :
      (bytes file : List ℕ) (x y : ℕ)
      → All IsByte (x ∷ y ∷ bytes)
      → Within file has
      → occurs ◌==◌ (x ∷ y ∷ bytes) file ≡ true
      → all (eval_in has b) (literal_loop (bit_or (x * 2 ^ 8) y) bytes) ≡ true
  literal_loop-occurs bytes [] x y ok w h = cc
  literal_loop-occurs bytes (f ∷ file) x y ok w h =
      let joined : bit_or (x * 2 ^ 8) y ≡ x * 256 + y =
        bit_or_comm (x * 2 ^ 8) y ∙ bit_or_disjoint 8 y x (omega arith) ∙ omega arith in
      elim (Bool-cases (starts ◌==◌ (x ∷ y ∷ bytes) (f ∷ file))) [
        | inl here ↦ rw joined (
            literal_loop-starts bytes (f ∷ file) x y (x * 256 + y) ok.1 (omega arith) (omega arith)
              w here)
        | inr later ↦
            literal_loop-occurs bytes file x y ok (Within-tail f file has w) (rw later at h)
      ]

  from_values-eval :
      (x y z : ℕ) → y < 256 → z < 256 → eval_in has b (from_values x y z) ≡ has (trigram_of x y z)
  unfolding from_values
  from_values-eval x y z hy hz =
      let inner : bit_or (x * 2 ^ 16) (y * 2 ^ 8) ≡ (x * 256 + y) * 2 ^ 8 =
        bit_or_comm (x * 2 ^ 16) (y * 2 ^ 8)
        ∙ bit_or_disjoint 16 (y * 2 ^ 8) x (omega arith)
        ∙ omega arith in
      let outer : bit_or ((x * 256 + y) * 2 ^ 8) z ≡ trigram_of x y z =
        bit_or_comm ((x * 256 + y) * 2 ^ 8) z
        ∙ bit_or_disjoint 8 z (x * 256 + y) hz
        ∙ omega arith in
      rw (inner, outer) (eval_trigram has b.expressions (trigram_of x y z))

  -- One of the eight mixtures of two forms of three bytes is the trigram of `f g k`.
  variants-any :
      (a a' c c' d d' f g k : ℕ)
      → c < 256
      → c' < 256
      → d < 256
      → d' < 256
      → (f ≡ a) ⊎ (f ≡ a')
      → (g ≡ c) ⊎ (g ≡ c')
      → (k ≡ d) ⊎ (k ≡ d')
      → has (trigram_of f g k) ≡ true
      → any (eval_in has b) (
          from_values a c d
          ∷ from_values a c d'
          ∷ from_values a c' d
          ∷ from_values a c' d'
          ∷ from_values a' c d
          ∷ from_values a' c d'
          ∷ from_values a' c' d
          ∷ from_values a' c' d'
          ∷ [])
        ≡ true
  variants-any a a' c c' d d' f g k hc hc' hd hd' ef eg ek h = ground (
    arith,
    from_values-eval a c d hc hd,
    from_values-eval a c d' hc hd',
    from_values-eval a c' d hc' hd,
    from_values-eval a c' d' hc' hd',
    from_values-eval a' c d hc hd,
    from_values-eval a' c d' hc hd',
    from_values-eval a' c' d hc' hd,
    from_values-eval a' c' d' hc' hd',
  )

  form_cases : (x f : ℕ) → same_letter x f ≡ true → (f ≡ to_lower x) ⊎ (f ≡ to_upper x)
  form_cases x f h = ground arith

  forms_bytes : (x : ℕ) → x < 256 → (to_lower x < 256) × (to_upper x < 256)
  forms_bytes x h = (ground arith, ground arith)

  abbrev variants : ℕ → ℕ → ℕ → ℕ → ℕ → ℕ → TrigramQueryBuilder × Reference
  variants a a' c c' d d' =
      if a == a' && (c == c' && d == d')
      then (b, from_values a c d)
      else or b (
          from_values a c d
          ∷ from_values a c d'
          ∷ from_values a c' d
          ∷ from_values a c' d'
          ∷ from_values a' c d
          ∷ from_values a' c d'
          ∷ from_values a' c' d
          ∷ from_values a' c' d'
          ∷ [])

  variants-eval :
      (a a' c c' d d' f g k : ℕ)
      → c < 256
      → c' < 256
      → d < 256
      → d' < 256
      → (f ≡ a) ⊎ (f ≡ a')
      → (g ≡ c) ⊎ (g ≡ c')
      → (k ≡ d) ⊎ (k ≡ d')
      → has (trigram_of f g k) ≡ true
      → eval_in has (variants a a' c c' d d').0 (variants a a' c c' d d').1 ≡ true
  variants-eval a a' c c' d d' f g k hc hc' hd hd' ef eg ek h =
      elim (Bool-cases (a == a' && (c == c' && d == d'))) [
        | inl one ↦ rw one (from_values-eval a c d hc hd ∙ ground arith)
        | inr many ↦
            rw many (eval-or has b _ ∙ variants-any a a' c c' d d' f g k hc hc' hd hd' ef eg ek h)
      ]

  window-eval :
      (x y z f g k : ℕ)
      → IsByte y
      → IsByte z
      → has (trigram_of f g k) ≡ true
      → same_letter x f ≡ true
      → same_letter y g ≡ true
      → same_letter z k ≡ true
      → eval_in has (insert_case_insensitive b x y z).0 (insert_case_insensitive b x y z).1 ≡ true
  unfolding insert_case_insensitive
  window-eval x y z f g k hy hz h sx sy sz =
      variants-eval (to_lower x) (to_upper x) (to_lower y) (to_upper y) (to_lower z) (to_upper z) f
        g k (forms_bytes y hy).0 (forms_bytes y hy).1 (forms_bytes z hz).0 (forms_bytes z hz).1
        (form_cases x f sx) (form_cases y g sy) (form_cases z k sz) h

module _ (has : ℕ → Bool) where
  insensitive_loop-starts :
      (bytes file : List ℕ) (b : TrigramQueryBuilder)
      → All IsByte bytes
      → Within file has
      → starts same_letter bytes file ≡ true
      → all (eval_in has (insensitive_loop b bytes).0) (insensitive_loop b bytes).1 ≡ true
  unfolding insensitive_loop
  insensitive_loop-starts [] file b ok w h = refl
  insensitive_loop-starts (x ∷ []) file b ok w h = refl
  insensitive_loop-starts (x ∷ y ∷ []) file b ok w h = refl
  insensitive_loop-starts (x ∷ y ∷ z ∷ rest) [] b ok w h = cc
  insensitive_loop-starts (x ∷ y ∷ z ∷ rest) (f ∷ []) b ok w h =
      let (first, behind) = and_split (same_letter x f) _ h in cc
  insensitive_loop-starts (x ∷ y ∷ z ∷ rest) (f ∷ g ∷ []) b ok w h =
      let (first, behind) = and_split (same_letter x f) _ h in
      let (second, nothing) = and_split (same_letter y g) _ behind in cc
  insensitive_loop-starts (x ∷ y ∷ z ∷ rest) (f ∷ g ∷ k ∷ file) b ok w h =
      let (sx, behind) = and_split (same_letter x f) _ h in
      let (sy, rest_two) = and_split (same_letter y g) _ behind in
      let (sz, rest_three) = and_split (same_letter z k) _ rest_two in
      let b' = (insert_case_insensitive b x y z).0 in
      let r = (insert_case_insensitive b x y z).1 in
      let more = insensitive_loop-AddsAll (y ∷ z ∷ rest) b' in
      let here =
        window-eval has b x y z f g k ok.1.0 ok.1.1.0 (Within-head f g k file has w) sx sy sz in
      let kept = more.0.1 has r (insert_case_insensitive-Adds b x y z).1 ∙ here in
      let later =
        insensitive_loop-starts (y ∷ z ∷ rest) (g ∷ k ∷ file) b' ok.1
          (Within-tail f (g ∷ k ∷ file) has w) behind in
      rw (kept, later)

  pub insensitive_loop-occurs :
      (bytes file : List ℕ) (b : TrigramQueryBuilder)
      → All IsByte bytes
      → 0 < length bytes
      → Within file has
      → occurs same_letter bytes file ≡ true
      → all (eval_in has (insensitive_loop b bytes).0) (insensitive_loop b bytes).1 ≡ true
  insensitive_loop-occurs [] file b ok n w h = absurd (omega arith)
  insensitive_loop-occurs (x ∷ bytes) [] b ok n w h = cc
  insensitive_loop-occurs (x ∷ bytes) (f ∷ file) b ok n w h =
      elim (Bool-cases (starts same_letter (x ∷ bytes) (f ∷ file))) [
        | inl here ↦ insensitive_loop-starts (x ∷ bytes) (f ∷ file) b ok w here
        | inr later ↦
            insensitive_loop-occurs (x ∷ bytes) file b ok n (Within-tail f file has w)
              (rw later at h)
      ]
