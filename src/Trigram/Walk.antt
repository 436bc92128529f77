-- ===== src/Trigram/Walk.antt =====
-- worker/trigrams.rs: the iterator over a set yields its trigrams.
use haunted_house.Common.{
  ℕ, suc, ◌+◌, ◌*◌, ◌/◌, ◌%◌, ◌^◌, ◌≤◌, ◌<◌, ◌-◌, leb, ◌≡◌, refl, ◌∙◌, arith, List, [], ◌∷◌, ◌++◌,
  none, some, length, ◌==◌, ◌||◌, ◌&&◌, All, Bool-cases, inl, inr,
}
use Prim.Native.Nat.{bit_or}
use native.Mathlib.Decide.{dec_lt}
use haunted_house.Common.Bits.{bit_or_disjoint, bit_or_comm}
use haunted_house.Journal.Union.{elem}
use haunted_house.Trigram.{BitArr, BitArrLaws}
use haunted_house.Trigram.Chunk.{
  Chunk, ChunkIter, chunk_iter_next, chunk_iter, TrigramSet, SetIter, set_iter, iter_loop,
  set_iter_next,
}
use haunted_house.Trigram.Keeps.{has_value, ChunkOk}
use haunted_house.Trigram.Iterate.{Yields, chunk_iter-Yields}
use haunted_house.Trigram.Whole.{value_in, holds, SetOk}

-- The trigrams of the values of a chunk.
abbrev placed : ℕ → List ℕ → List ℕ
placed index [] = []
placed index (x ∷ l) = bit_or (index * 2 ^ 16 % 2 ^ 32) x ∷ placed index l

placed_low :
    (index x : ℕ)
    → index < 256
    → x < 2 ^ 16
    → bit_or (index * 2 ^ 16 % 2 ^ 32) x ≡ x + index * 65536
placed_low index x h k =
    let high : index * 2 ^ 16 % 2 ^ 32 ≡ index * 2 ^ 16 = omega arith in
    rw (high, bit_or_comm (index * 2 ^ 16) x, bit_or_disjoint 16 x index k) refl

same_place :
    (t x index : ℕ) → x < 65536 → (t == x + index * 65536) ≡ (t / 65536 == index && t % 65536 == x)
same_place t x index h = ground arith

elem-placed :
    (t index : ℕ) (l : List ℕ)
    → index < 256
    → All (λ x. x < 2 ^ 16) l
    → elem t (placed index l) ≡ (t / 2 ^ 16 == index && elem (t % 2 ^ 16) l)
elem-placed t index [] h ok = ground arith
elem-placed t index (x ∷ l) h ok =
    rw (placed_low index x h ok.0, same_place t x index ok.0, elem-placed t index l h ok.1)
      (ground arith)

elem-append : (x : ℕ) (l m : List ℕ) → elem x (l ++ m) ≡ (elem x l || elem x m)
elem-append x [] m = refl
elem-append x (y ∷ l) m = ground (arith, elem-append x l m)

module _ (b : BitArr) (laws : BitArrLaws (2 ^ 16) b) where
  -- The iterator yields the trigrams of the list, one after the other, and then ends.
  abbrev pub SetYields : SetIter b → List ℕ → Type 0
  SetYields it [] = (set_iter_next b it).1 ≡ none
  SetYields it (x ∷ l) = ((set_iter_next b it).1 ≡ some x) × SetYields (set_iter_next b it).0 l

  -- What the chunks from an index on yield.
  abbrev AllYield : ℕ → TrigramSet b → List ℕ → Type 0
  AllYield index [] m = m ≡ []
  AllYield index (c ∷ chunks) m =
      (l : List ℕ) × (m' : List ℕ) × Yields (chunk_iter b c) l
      × (m ≡ placed index l ++ m')
      × AllYield (index + 1) chunks m'

  abbrev iter_at : TrigramSet b → ℕ → ChunkIter → SetIter b
  iter_at chunks index current = record { iter = chunks; current_index = index; current = current }

  SetYields-same :
      (it it' : SetIter b) (m : List ℕ)
      → set_iter_next b it ≡ set_iter_next b it'
      → SetYields it' m
      → SetYields it m
  SetYields-same it it' [] e h = rw e h
  SetYields-same it it' (x ∷ m) e h = rw e h

  iter_loop_some :
      (chunks : TrigramSet b) (index x : ℕ) (current : ChunkIter)
      → (chunk_iter_next current).1 ≡ some x
      → set_iter_next b (iter_at chunks index current) ≡ (
        iter_at chunks index (chunk_iter_next current).0,
        some (bit_or (index * 2 ^ 16 % 2 ^ 32) x),
      )
  unfolding set_iter_next iter_loop chunk_iter_next
  iter_loop_some [] index x current e = rw e refl
  iter_loop_some (c ∷ chunks) index x current e = rw e refl

  iter_loop_end :
      (index : ℕ) (current : ChunkIter)
      → (chunk_iter_next current).1 ≡ none
      → (set_iter_next b (iter_at [] index current)).1 ≡ none
  unfolding set_iter_next iter_loop chunk_iter_next
  iter_loop_end index current e = rw e refl

  iter_loop_next :
      (c : Chunk b.Bits) (chunks : TrigramSet b) (index : ℕ) (current : ChunkIter)
      → (chunk_iter_next current).1 ≡ none
      → set_iter_next b (iter_at (c ∷ chunks) index current)
        ≡ set_iter_next b (iter_at chunks (index + 1) (chunk_iter b c))
  unfolding set_iter_next iter_loop chunk_iter_next chunk_iter
  iter_loop_next c chunks index current e = rw e refl

  iter_at-SetYields :
      (chunks : TrigramSet b) (index : ℕ) (current : ChunkIter) (l m : List ℕ)
      → Yields current l
      → AllYield (index + 1) chunks m
      → SetYields (iter_at chunks index current) (placed index l ++ m)
  iter_at-SetYields chunks index current (x ∷ l) m (e, h) all =
      let next = iter_loop_some chunks index x current e in
      rw next (refl, iter_at-SetYields chunks index (chunk_iter_next current).0 l m h all)
  iter_at-SetYields [] index current [] m h all = rw all (iter_loop_end index current h)
  iter_at-SetYields (c ∷ chunks) index current [] m h (l, m', y, e, all) =
      SetYields-same (iter_at (c ∷ chunks) index current)
        (iter_at chunks (index + 1) (chunk_iter b c)) m (iter_loop_next c chunks index current h)
        (rw e (iter_at-SetYields chunks (index + 1) (chunk_iter b c) l m' y all))

  value_in_split :
      (c : Chunk b.Bits) (chunks : TrigramSet b) (index bin x : ℕ)
      → ((bin == index && has_value b laws c x)
          || (leb (index + 1) bin && value_in b laws (bin - (index + 1)) chunks x))
        ≡ (leb index bin && value_in b laws (bin - index) (c ∷ chunks) x)
  value_in_split c chunks index bin x = elim (dec_lt index bin) [
    | yes below ↦
        let next : bin - index ≡ suc (bin - (index + 1)) = omega arith in rw next (ground arith)
    | no above ↦ elim (Bool-cases (bin == index)) [
      | inl here ↦ let none_left : bin - index ≡ 0 = ground arith in rw none_left (ground arith)
      | inr other ↦ ground arith
    ]
  ]

  -- Chunks from an index on yield what they hold.
  AllYield-holds :
      (chunks : TrigramSet b) (index : ℕ)
      → All (ChunkOk b laws) chunks
      → index + length chunks ≤ 256
      → (m : List ℕ) × AllYield index chunks m
        × ((t : ℕ)
            → elem t m
              ≡ (leb index (t / 65536) && value_in b laws (t / 65536 - index) chunks (t % 65536)))
  AllYield-holds [] index ok h = ([], refl, λ t. ground arith)
  AllYield-holds (c ∷ chunks) index ok h =
      let (l, y, small, e) = chunk_iter-Yields b laws c ok.0 in
      let (m, all, e') = AllYield-holds chunks (index + 1) ok.1 (omega arith) in
      (
        placed index l ++ m,
        (l, m, y, refl, all),
        λ t.
            elem-append t (placed index l) m
            ∙ rw (elem-placed t index l (omega arith) small, e' t, e (t % 2 ^ 16) (omega arith))
                (value_in_split c chunks index (t / 65536) (t % 65536)),
      )

  -- The iterator over a well formed set yields some trigrams and then ends, and a trigram is among
  -- them exactly when the set holds it, whatever the encodings of its chunks.
  pub set_iter-SetYields :
      (s : TrigramSet b)
      → SetOk b laws s
      → (it : SetIter b) × (l : List ℕ) × (set_iter b s ≡ some it)
        × SetYields it l
        × ((t : ℕ) → elem t l ≡ holds b laws s t)
  unfolding set_iter
  set_iter-SetYields [] ok = absurd (omega (arith, ok.0))
  set_iter-SetYields (c ∷ chunks) ok =
      let (m, all, e') = AllYield-holds (c ∷ chunks) 0 ok.1 (omega (arith, ok.0)) in
      let (l', m', y', em, all') = all in
      (
        iter_at chunks 0 (chunk_iter b c),
        m,
        refl,
        rw em (iter_at-SetYields chunks 0 (chunk_iter b c) l' m' y' all'),
        λ t. e' t ∙ ground arith,
      )
