-- ===== src/Trigram/Iterate.antt =====
-- worker/trigrams.rs: the iterators over a chunk and over a set.
use haunted_house.Common.{
  ℕ, zero, suc, ◌+◌, ◌-◌, ◌^◌, ◌≤◌, ◌<◌, ◌≡◌, refl, ◌∙◌, arith, List, [], ◌∷◌, Option, none, some,
  true, false, not, leb, ltb, ◌==◌, ◌&&◌, if◌then◌else◌, All, Bool-cases, inl, inr, ◌⊎◌,
}
use haunted_house.Encoding.Sequence.{Rising}
use haunted_house.Journal.Union.{elem}
use haunted_house.Trigram.{BitArr, BitArrLaws, Indices}
use haunted_house.Trigram.Chunk.{
  Chunk, empty, added, mask, removed, ChunkIter, listed, skipping, skip_loop, chunk_iter_next,
  chunk_iter,
}
use haunted_house.Trigram.Keeps.{has_value, ChunkOk}

-- The iterator yields the values of the list, one after the other, and then ends.
abbrev pub Yields : ChunkIter → List ℕ → Type 0
Yields it [] = (chunk_iter_next it).1 ≡ none
Yields it (x ∷ l) = ((chunk_iter_next it).1 ≡ some x) × Yields (chunk_iter_next it).0 l

listed-Yields : (l : List ℕ) → Yields (listed l) l
listed-Yields [] = unfold chunk_iter_next in refl
listed-Yields (x ∷ l) = listed_step x l (listed-Yields l)
  where
    listed_step : (x : ℕ) (l : List ℕ) → Yields (listed l) l → Yields (listed (x ∷ l)) (x ∷ l)
    listed_step x l h = unfold chunk_iter_next in (refl, h)

-- The `k` indices from `n` on without those of a list that rises from there.
abbrev others : ℕ → ℕ → List ℕ → List ℕ
others zero n skip = []
others (suc k) n [] = n ∷ others k (n + 1) []
others (suc k) n (s ∷ skip) =
    if n == s then others k (n + 1) skip else n ∷ others k (n + 1) (s ∷ skip)

-- The list rises and starts at `n` or behind.
abbrev From : ℕ → List ℕ → Type 0
From n [] = Unit {0}
From n (s ∷ skip) = (n ≤ s) × Rising s skip

From-next : (n s : ℕ) (skip : List ℕ) → n ≤ s → Rising s skip → From (n + 1) skip
From-next n s [] le h = tt
From-next n s (z ∷ skip) le h = (omega (arith, h.0), h.2)

elem_before : (x n : ℕ) (skip : List ℕ) → From n skip → x < n → elem x skip ≡ false
elem_before x n [] h lt = refl
elem_before x n (s ∷ []) h lt = ground (arith, h.0)
elem_before x n (s ∷ z ∷ skip) h lt = ground (
  arith,
  h.0,
  h.1.0,
  elem_before x (s + 1) (z ∷ skip) (omega (arith, h.1.0), h.1.2) (omega (arith, h.0)),
)

elem-others :
    (k n x : ℕ) (skip : List ℕ)
    → From n skip
    → elem x (others k n skip) ≡ (leb n x && ltb x (n + k) && not (elem x skip))
elem-others zero n x skip h = ground arith
elem-others (suc k) n x [] h = ground (arith, elem-others k (n + 1) x [] tt)
elem-others (suc k) n x (s ∷ skip) h = elim (Bool-cases (n == s)) [
  | inl hit ↦
      let same : s ≡ n = ground arith in
      let rest = elem-others k (n + 1) x skip (From-next n s skip h.0 h.1) in
      rw hit (rest ∙ ground (arith, elem_before x (n + 1) skip (From-next n s skip h.0 h.1)))
  | inr miss ↦
      let later : n < s = ground (arith, h.0) in
      let rest = elem-others k (n + 1) x (s ∷ skip) (omega arith, h.1) in
      rw miss (ground (arith, rest, elem_before x (n + 1) (s ∷ skip) (omega arith, h.1)))
]

-- Where the loop stops: at the end, or behind the next index that is not skipped.
abbrev Stops : ℕ → ℕ → List ℕ → ChunkIter × Option ℕ → Type 0
Stops k n skip result =
    ((others k n skip ≡ []) × (result.1 ≡ none))
    ⊎ ((x : ℕ) × (k' : ℕ) × (skip' : List ℕ) × (others k n skip ≡ x ∷ others k' (x + 1) skip')
        × (result ≡ (skipping (x + 1) skip', some x))
        × (x + 1 + k' ≡ n + k)
        × (n ≤ x)
        × From (x + 1) skip')

Stops-next :
    (k n s : ℕ) (skip : List ℕ) (result : ChunkIter × Option ℕ)
    → others (suc k) n (s ∷ skip) ≡ others k (n + 1) skip
    → Stops k (n + 1) skip result
    → Stops (suc k) n (s ∷ skip) result
Stops-next k n s skip result e (inl (a, b)) = inl (e ∙ a, b)
Stops-next k n s skip result e (inr (x, k', skip', a, b, c, up, f)) =
    inr (x, k', skip', e ∙ a, b, omega arith, omega arith, f)

skip_loop-Stops : (k n : ℕ) (skip : List ℕ) → From n skip → Stops k n skip (skip_loop k n skip)
unfolding skip_loop
skip_loop-Stops zero n skip h = inl (refl, refl)
skip_loop-Stops (suc k) n [] h = inr (n, k, [], refl, refl, omega arith, omega arith, tt)
skip_loop-Stops (suc k) n (s ∷ skip) h = elim (Bool-cases (n == s)) [
  | inl hit ↦
      let not_before : ltb n s ≡ false = ground arith in
      let same : others (suc k) n (s ∷ skip) ≡ others k (n + 1) skip = rw hit refl in
      Stops-next k n s skip _ same
        (rw (not_before, hit) (skip_loop-Stops k (n + 1) skip (From-next n s skip h.0 h.1)))
  | inr miss ↦
      let before : ltb n s ≡ true = ground (arith, h.0) in
      inr (
        n,
        k,
        s ∷ skip,
        rw miss refl,
        rw before refl,
        omega arith,
        omega arith,
        (ground (arith, h.0), h.1),
      )
]

yield_step :
    (k n : ℕ) (skip : List ℕ)
    → n + k ≡ 2 ^ 16
    → Stops k n skip (skip_loop k n skip)
    → ((x k' : ℕ) (skip' : List ℕ)
        → k' < k
        → x + 1 + k' ≡ 2 ^ 16
        → From (x + 1) skip'
        → Yields (skipping (x + 1) skip') (others k' (x + 1) skip'))
    → Yields (skipping n skip) (others k n skip)
unfolding chunk_iter_next
yield_step k n skip e (inl (a, b)) later =
    let left : 2 ^ 16 - n ≡ k = omega arith in rw a (rw left b)
yield_step k n skip e (inr (x, k', skip', a, b, c, up, f)) later =
    let left : 2 ^ 16 - n ≡ k = omega arith in
    rw (a, left, b) (refl, later x k' skip' (omega arith) (omega arith) f)

skipping-Yields :
    (m k n : ℕ) (skip : List ℕ)
    → k < m
    → n + k ≡ 2 ^ 16
    → From n skip
    → Yields (skipping n skip) (others k n skip)
skipping-Yields zero k n skip h e f = absurd (omega arith)
skipping-Yields (suc m) k n skip h e f =
    yield_step k n skip e (skip_loop-Stops k n skip f)
      (λ x k' skip' less e' f'. skipping-Yields m k' (x + 1) skip' (omega arith) e' f')

Indices-From : (l : List ℕ) → Indices (2 ^ 16) l → From 0 l
Indices-From [] h = tt
Indices-From (x ∷ l) h = (omega arith, h.1)

Indices-below : (l : List ℕ) → Indices (2 ^ 16) l → All (λ x. x < 2 ^ 16) l
Indices-below [] h = tt
Indices-below (x ∷ l) h = (h.0, h.2)

others_below : (k n : ℕ) (skip : List ℕ) → n + k ≤ 2 ^ 16 → All (λ x. x < 2 ^ 16) (others k n skip)
others_below zero n skip h = tt
others_below (suc k) n [] h = (omega arith, others_below k (n + 1) [] (omega arith))
others_below (suc k) n (s ∷ skip) h = elim (Bool-cases (n == s)) [
  | inl hit ↦ rw hit (others_below k (n + 1) skip (omega arith))
  | inr miss ↦ rw miss (omega arith, others_below k (n + 1) (s ∷ skip) (omega arith))
]

module _ (b : BitArr) (laws : BitArrLaws (2 ^ 16) b) where
  -- The iterator over a well formed chunk yields some values and then ends, and a u16 is among them
  -- exactly when the chunk holds it, whatever the encoding.
  pub chunk_iter-Yields :
      (c : Chunk b.Bits)
      → ChunkOk b laws c
      → (l : List ℕ) × Yields (chunk_iter b c) l
        × All (λ x. x < 2 ^ 16) l
        × ((x : ℕ) → x < 2 ^ 16 → elem x l ≡ has_value b laws c x)
  unfolding chunk_iter
  chunk_iter-Yields empty ok = ([], unfold chunk_iter_next in refl, tt, λ x h. refl)
  chunk_iter-Yields (added items) ok = (items, listed-Yields items, ok, λ x h. refl)
  chunk_iter-Yields (mask count bits) ok = (
    b.iter_ones bits,
    listed-Yields (b.iter_ones bits),
    Indices-below (b.iter_ones bits) (laws.iter_ones-Indices bits),
    λ x h. laws.elem-iter_ones bits x h,
  )
  chunk_iter-Yields (removed items) ok =
      let from = Indices-From items ok in
      (
        others (2 ^ 16) 0 items,
        skipping-Yields (2 ^ 16 + 1) (2 ^ 16) 0 items (omega arith) (omega arith) from,
        others_below (2 ^ 16) 0 items (omega arith),
        λ x h. elem-others (2 ^ 16) 0 x items from ∙ ground arith,
      )
