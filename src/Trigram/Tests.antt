-- ===== src/Trigram/Tests.antt =====
-- Runs of worker/trigrams.rs, and the theorems at concrete inputs.
use haunted_house.Common.{
  ℕ, zero, suc, ◌+◌, ◌^◌, ◌≤◌, ◌<◌, ◌≡◌, refl, arith, List, [], ◌∷◌, ◌++◌, Bool, true, false, not,
  ◌==◌, ◌||◌, if◌then◌else◌, All, Bool-cases, inl, inr, some,
}
use haunted_house.Encoding.{encode_into_increasing}
use haunted_house.Encoding.Sequence.{Rising}
use haunted_house.Journal.Batch.{Journal, journal_new, write_batch}
use haunted_house.Journal.Reached.{fresh}
use haunted_house.Journal.Network.{query}
use haunted_house.Journal.Tests.{shifted, shifted_laws}
use haunted_house.Journal.Runs.{
  shifted_decoder, shifted_decoder_laws, text_abcd, abcd_query, abcd_built, abcd-Searchable,
  abcd-Sized,
}
use haunted_house.Trigram.Search.{query-build_file}
use haunted_house.Query.Phrase.{PhraseQuery}
use haunted_house.Query.Match.{matches}
use haunted_house.Query.Adds.{IsByte}
use haunted_house.Query.Eval.{has_trigram}
use haunted_house.Journal.Union.{elem}
use haunted_house.Trigram.{BitArr, BitArrLaws, Indices, broken, deltas, failed, build_file}
use haunted_house.Trigram.Build.{Full, received, Finds, build_file-Finds, build_file-broken}
use haunted_house.Trigram.Chunk.{TrigramSet, SetIter, set_iter, build_buffer}
use haunted_house.Trigram.Walk.{SetYields, set_iter-SetYields}
use haunted_house.Trigram.Whole.{SetOk, holds, build_buffer-holds}

-- Stands for the arrays of the crate bitvec: a test, and the indices where it holds.
unfoldable indices_of : (ℕ → Bool) → ℕ → ℕ → List ℕ
indices_of test zero i = []
indices_of test (suc k) i =
    let rest = indices_of test k (i + 1) in if test i then i ∷ rest else rest

abbrev tests : ℕ → BitArr
tests n = record {
  Bits = ℕ → Bool;
  zeroed = λ i. false;
  get = λ m i. m i;
  set = λ m i j. j == i || m j;
  iter_ones = λ m. indices_of m n 0;
  iter_zeros = λ m. indices_of (λ i. not (m i)) n 0;
}

elem_low : (test : ℕ → Bool) (k i x : ℕ) → x < i → elem x (indices_of test k i) ≡ false
unfolding indices_of
elem_low test zero i x h = refl
elem_low test (suc k) i x h = ground (arith, elem_low test k (i + 1) x)

elem-indices_of :
    (test : ℕ → Bool) (k i x : ℕ) → i ≤ x → x < i + k → elem x (indices_of test k i) ≡ test x
unfolding indices_of
elem-indices_of test zero i x le lt = absurd (omega arith)
elem-indices_of test (suc k) i x le lt = elim (Bool-cases (x == i)) [
  | inl here ↦
      let same : x ≡ i = ground arith in
      rw same (elim (Bool-cases (test i)) [
        | inl hit ↦ rw hit (ground arith)
        | inr miss ↦ rw miss (elem_low test k (i + 1) i (omega arith))
      ])
  | inr behind ↦ elim (Bool-cases (test i)) [
    | inl hit ↦ rw (hit, behind) (elem-indices_of test k (i + 1) x (ground arith) (omega arith))
    | inr miss ↦ rw miss (elem-indices_of test k (i + 1) x (ground arith) (omega arith))
  ]
]

indices_of-Rising :
    (test : ℕ → Bool) (k i y : ℕ) → i + k ≤ 2 ^ 24 → y < i → Rising y (indices_of test k i)
unfolding indices_of
indices_of-Rising test zero i y s h = tt
indices_of-Rising test (suc k) i y s h = elim (Bool-cases (test i)) [
  | inl hit ↦
      rw hit (h, omega arith, indices_of-Rising test k (i + 1) i (omega arith) (omega arith))
  | inr miss ↦ rw miss (indices_of-Rising test k (i + 1) y (omega arith) (omega arith))
]

indices_of_below :
    (test : ℕ → Bool) (k i n : ℕ) → i + k ≤ n → All (λ y. y < n) (indices_of test k i)
unfolding indices_of
indices_of_below test zero i n h = tt
indices_of_below test (suc k) i n h = elim (Bool-cases (test i)) [
  | inl hit ↦ rw hit (omega arith, indices_of_below test k (i + 1) n (omega arith))
  | inr miss ↦ rw miss (indices_of_below test k (i + 1) n (omega arith))
]

indices_of-Indices :
    (test : ℕ → Bool) (k i n : ℕ) → i + k ≤ n → n ≤ 2 ^ 24 → Indices n (indices_of test k i)
unfolding indices_of
indices_of-Indices test zero i n h s = tt
indices_of-Indices test (suc k) i n h s = elim (Bool-cases (test i)) [
  | inl hit ↦ rw hit (
    omega arith,
    indices_of-Rising test k (i + 1) i (omega arith) (omega arith),
    indices_of_below test k (i + 1) n (omega arith),
  )
  | inr miss ↦ rw miss (indices_of-Indices test k (i + 1) n (omega arith) s)
]

tests_laws : (n : ℕ) → n ≤ 2 ^ 24 → BitArrLaws n (tests n)
tests_laws n s = record {
  get-zeroed = λ i h. refl;
  get-set = λ m i j h k. refl;
  elem-iter_ones = λ m i h. elem-indices_of m n 0 i (omega arith) (omega arith);
  iter_ones-Indices = λ m. indices_of-Indices m n 0 n (omega arith) s;
  elem-iter_zeros = λ m i h. elem-indices_of (λ j. not (m j)) n 0 i (omega arith) (omega arith);
  iter_zeros-Indices = λ m. indices_of-Indices (λ j. not (m j)) n 0 n (omega arith) s;
}

abbrev wide : BitArr
wide = tests (2 ^ 24)

abbrev wide_laws : BitArrLaws (2 ^ 24) wide
wide_laws = tests_laws (2 ^ 24) (omega arith)

abbrev narrow : BitArr
narrow = tests (2 ^ 16)

abbrev narrow_laws : BitArrLaws (2 ^ 16) narrow
narrow_laws = tests_laws (2 ^ 16) (omega arith)

-- Two buffers, with a trigram across them.
abbrev two_buffers : List (List ℕ)
two_buffers = (97 ∷ 98 ∷ []) ∷ (99 ∷ 100 ∷ []) ∷ []

two_buffers-Full : Full two_buffers
two_buffers-Full = (omega arith, (omega arith, tt))

abcd-All : All IsByte (97 ∷ 98 ∷ 99 ∷ 100 ∷ [])
abcd-All = (omega arith, (omega arith, (omega arith, (omega arith, tt))))

build_file-Finds_example :
    (l : List ℕ) × (build_file wide {E = ℕ} (received wide wide_laws two_buffers)
      ≡ deltas (encode_into_increasing l []))
    × Finds (97 ∷ 98 ∷ 99 ∷ 100 ∷ []) l
build_file-Finds_example = build_file-Finds wide wide_laws two_buffers two_buffers-Full abcd-All

build_file-broken_example :
    build_file wide {E = ℕ} (received wide wide_laws two_buffers ++ (broken 7 ∷ [])) ≡ failed 7
build_file-broken_example = build_file-broken wide wide_laws two_buffers 7 [] two_buffers-Full

query-build_file_example :
    (bytes : List ℕ) × (j' : Journal) × (answer : List ℕ) × (build_file wide {E = ℕ}
        (received wide wide_laws two_buffers)
      ≡ deltas bytes)
    × (write_batch shifted journal_new ((7, bytes) ∷ []) ≡ some (j', true))
    × (query shifted_decoder j' abcd_query ≡ some answer)
    × (matches text_abcd (PhraseQuery.literal text_abcd) ≡ true → elem 7 answer ≡ true)
query-build_file_example =
    query-build_file wide wide_laws shifted shifted_laws shifted_decoder shifted_decoder_laws ℕ
      journal_new (λ x. []) 7 two_buffers (PhraseQuery.literal text_abcd) abcd_query 0 fresh
      (λ t. tt) (omega arith) (λ t x h. cc h) (unfold journal_new in omega arith) two_buffers-Full
      abcd-All abcd-Searchable abcd-Sized abcd_built refl

build_buffer-holds_example :
    SetOk narrow narrow_laws (build_buffer narrow (97 ∷ 98 ∷ 99 ∷ 100 ∷ []))
    × (holds narrow narrow_laws (build_buffer narrow (97 ∷ 98 ∷ 99 ∷ 100 ∷ [])) 6447203
        ≡ has_trigram (97 ∷ 98 ∷ 99 ∷ 100 ∷ []) 6447203)
build_buffer-holds_example =
    build_buffer-holds narrow narrow_laws (97 ∷ 98 ∷ 99 ∷ 100 ∷ []) 6447203 abcd-All (omega arith)

-- The set of the trigrams of four bytes.
abbrev small_set : TrigramSet narrow
small_set = build_buffer narrow (97 ∷ 98 ∷ 99 ∷ 100 ∷ [])

set_iter-SetYields_example :
    (it : SetIter narrow) × (l : List ℕ) × (set_iter narrow small_set ≡ some it)
    × SetYields narrow narrow_laws it l
    × ((t : ℕ) → elem t l ≡ holds narrow narrow_laws small_set t)
set_iter-SetYields_example =
    set_iter-SetYields narrow narrow_laws small_set build_buffer-holds_example.0
