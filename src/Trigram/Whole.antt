-- ===== src/Trigram/Whole.antt =====
-- worker/trigrams.rs: a TrigramSet holds what is inserted, and build_buffer what a file has.
use haunted_house.Common.{
  ℕ, zero, suc, ◌+◌, ◌*◌, ◌/◌, ◌%◌, ◌^◌, ◌<◌, ◌≡◌, refl, ap, ◌∙◌, arith, List, [], ◌∷◌, Bool, false,
  length, ◌==◌, ◌||◌, ◌&&◌, if◌then◌else◌, All, Bool-cases, inl, inr,
}
use haunted_house.Query.Adds.{IsByte}
use haunted_house.Query.Eval.{has_trigram}
use haunted_house.Trigram.{BitArr, BitArrLaws, first_two}
use haunted_house.Trigram.Build.{push_byte_low, first_two_low}
use haunted_house.Trigram.Chunk.{
  TrigramSet, repeat_empty, set_new, insert_at, set_insert, set_compact, buffer_loop, build_buffer,
}
use haunted_house.Trigram.Keeps.{
  has_value, ChunkOk, chunk_insert_lem, chunk_compact_lem, chunk_insert-ChunkOk,
  chunk_compact-ChunkOk,
}

-- A trigram is its chunk and its value in there.
same_split :
    (t item : ℕ) → (t / 2 ^ 16 == item / 2 ^ 16 && t % 2 ^ 16 == item % 2 ^ 16) ≡ (t == item)
same_split t item = ground arith

module _ (b : BitArr) (laws : BitArrLaws (2 ^ 16) b) where
  -- The value in one of the chunks.
  abbrev pub value_in : ℕ → TrigramSet b → ℕ → Bool
  value_in bin [] x = false
  value_in zero (chunk ∷ chunks) x = has_value b laws chunk x
  value_in (suc bin) (chunk ∷ chunks) x = value_in bin chunks x

  -- The trigrams that a set holds.
  abbrev pub holds : TrigramSet b → ℕ → Bool
  holds s t = value_in (t / 2 ^ 16) s (t % 2 ^ 16)

  abbrev pub SetOk : TrigramSet b → Type 0
  SetOk s = (length s ≡ 256) × All (ChunkOk b laws) s

  value_in-insert_at :
      (s : TrigramSet b) (bin bin' item x : ℕ)
      → All (ChunkOk b laws) s
      → bin < length s
      → item < 2 ^ 16
      → x < 2 ^ 16
      → value_in bin' (insert_at b bin item s) x ≡ ((bin' == bin && x == item) || value_in bin' s x)
  unfolding insert_at
  value_in-insert_at [] bin bin' item x ok l i h = absurd (omega arith)
  value_in-insert_at (chunk ∷ chunks) zero zero item x ok l i h =
      chunk_insert_lem b laws chunk item x ok.0 i h
  value_in-insert_at (chunk ∷ chunks) zero (suc bin') item x ok l i h = ground arith
  value_in-insert_at (chunk ∷ chunks) (suc bin) zero item x ok l i h = ground arith
  value_in-insert_at (chunk ∷ chunks) (suc bin) (suc bin') item x ok l i h =
      value_in-insert_at chunks bin bin' item x ok.1 (omega arith) i h ∙ ground arith

  value_in-set_compact :
      (s : TrigramSet b) (bin x : ℕ)
      → All (ChunkOk b laws) s
      → x < 2 ^ 16
      → value_in bin (set_compact b s) x ≡ value_in bin s x
  unfolding set_compact
  value_in-set_compact [] bin x ok h = refl
  value_in-set_compact (chunk ∷ chunks) zero x ok h = chunk_compact_lem b laws chunk x ok.0 h
  value_in-set_compact (chunk ∷ chunks) (suc bin) x ok h = value_in-set_compact chunks bin x ok.1 h

  insert_at-Ok :
      (s : TrigramSet b) (bin item : ℕ)
      → All (ChunkOk b laws) s
      → item < 2 ^ 16
      → (length (insert_at b bin item s) ≡ length s) × All (ChunkOk b laws) (insert_at b bin item s)
  unfolding insert_at
  insert_at-Ok [] bin item ok h = (refl, tt)
  insert_at-Ok (chunk ∷ chunks) zero item ok h =
      (refl, (chunk_insert-ChunkOk b laws chunk item ok.0 h, ok.1))
  insert_at-Ok (chunk ∷ chunks) (suc bin) item ok h =
      let (l, oks) = insert_at-Ok chunks bin item ok.1 h in (ap suc l, (ok.0, oks))

  set_compact-Ok :
      (s : TrigramSet b)
      → All (ChunkOk b laws) s
      → (length (set_compact b s) ≡ length s) × All (ChunkOk b laws) (set_compact b s)
  unfolding set_compact
  set_compact-Ok [] ok = (refl, tt)
  set_compact-Ok (chunk ∷ chunks) ok =
      let (l, oks) = set_compact-Ok chunks ok.1 in
      (ap suc l, (chunk_compact-ChunkOk b laws chunk ok.0, oks))

  -- Inserting a trigram in a well formed set keeps it well formed, and adds that trigram and no other.
  pub set_insert-holds :
      (s : TrigramSet b) (item t : ℕ)
      → SetOk s
      → item < 2 ^ 24
      → t < 2 ^ 24
      → SetOk (set_insert b s item) × (holds (set_insert b s item) t ≡ (t == item || holds s t))
  unfolding set_insert
  set_insert-holds s item t ok i h =
      let (l, oks) = insert_at-Ok s (item / 2 ^ 16) (item % 2 ^ 16) ok.1 (omega arith) in
      (
        (l ∙ ok.0, oks),
        value_in-insert_at s (item / 2 ^ 16) (t / 2 ^ 16) (item % 2 ^ 16) (t % 2 ^ 16) ok.1
              (omega (arith, ok.0)) (omega arith) (omega arith)
            ∙ ap (λ v. v || holds s t) (same_split t item),
      )

  -- Compacting a well formed set keeps it well formed, and keeps its trigrams.
  pub set_compact-holds :
      (s : TrigramSet b) (t : ℕ)
      → SetOk s
      → SetOk (set_compact b s) × (holds (set_compact b s) t ≡ holds s t)
  set_compact-holds s t ok =
      let (l, oks) = set_compact-Ok s ok.1 in
      ((l ∙ ok.0, oks), value_in-set_compact s (t / 2 ^ 16) (t % 2 ^ 16) ok.1 (omega arith))

  repeat_empty-Ok :
      (n : ℕ) → (length (repeat_empty b n) ≡ n) × All (ChunkOk b laws) (repeat_empty b n)
  repeat_empty-Ok zero = (refl, tt)
  repeat_empty-Ok (suc n) = let (l, oks) = repeat_empty-Ok n in (ap suc l, (tt, oks))

  value_in-repeat_empty : (n bin x : ℕ) → value_in bin (repeat_empty b n) x ≡ false
  value_in-repeat_empty zero bin x = refl
  value_in-repeat_empty (suc n) zero x = refl
  value_in-repeat_empty (suc n) (suc bin) x = value_in-repeat_empty n bin x

  set_new-Ok : SetOk (set_new b)
  unfolding set_new
  set_new-Ok = repeat_empty-Ok 256

  holds-set_new : (t : ℕ) → holds (set_new b) t ≡ false
  unfolding set_new
  holds-set_new t = value_in-repeat_empty 256 (t / 2 ^ 16) (t % 2 ^ 16)

  maybe_compact :
      (i : ℕ) (s : TrigramSet b) (t : ℕ)
      → SetOk s
      → (let s' = if i % 16000 == 0 then set_compact b s else s in
          SetOk s' × (holds s' t ≡ holds s t))
  maybe_compact i s t ok = elim (Bool-cases (i % 16000 == 0)) [
    | inl now ↦ rw now (set_compact-holds s t ok)
    | inr later ↦ rw later (ok, refl)
  ]

  buffer_loop-holds :
      (bytes : List ℕ) (i x y p t : ℕ) (s : TrigramSet b)
      → All IsByte (y ∷ bytes)
      → p % 65536 ≡ x * 256 + y
      → SetOk s
      → t < 2 ^ 24
      → SetOk (buffer_loop b i p bytes s)
        × (holds (buffer_loop b i p bytes s) t ≡ (holds s t || has_trigram (x ∷ y ∷ bytes) t))
  unfolding buffer_loop has_trigram
  buffer_loop-holds [] i x y p t s ok low sok h = (sok, ground arith)
  buffer_loop-holds (z ∷ bytes) i x y p t s ok low sok h =
      let p' = p % 65536 * 256 + z in
      let (sok', ins) = set_insert-holds s p' t sok (omega (arith, ok.1.0)) h in
      let (kept, comp) = maybe_compact i (set_insert b s p') t sok' in
      let (done, rest) =
        buffer_loop-holds bytes (i + 1) y z p' t _ ok.1 (omega (arith, ok.0, ok.1.0)) kept h in
      rw (push_byte_low p z ok.1.0, buffer_loop) (done, rest ∙ rw (comp, ins, low) (ground arith))

  -- build_buffer holds exactly the trigrams that stand in the bytes.
  pub build_buffer-holds :
      (bytes : List ℕ) (t : ℕ)
      → All IsByte bytes
      → t < 2 ^ 24
      → SetOk (build_buffer b bytes) × (holds (build_buffer b bytes) t ≡ has_trigram bytes t)
  unfolding build_buffer has_trigram
  build_buffer-holds [] t ok h = (set_new-Ok, holds-set_new t)
  build_buffer-holds (x ∷ []) t ok h = (set_new-Ok, holds-set_new t)
  build_buffer-holds (x ∷ y ∷ []) t ok h = (set_new-Ok, holds-set_new t)
  build_buffer-holds (x ∷ y ∷ z ∷ bytes) t ok h =
      let first = first_two_low x y ok.1.0 in
      let (sok, e) =
        buffer_loop-holds (z ∷ bytes) 0 x y (first_two x y) t (set_new b) ok.1
          (omega (arith, first, ok.0, ok.1.0)) set_new-Ok h in
      let (sok', e') =
        set_compact-holds (buffer_loop b 0 (first_two x y) (z ∷ bytes) (set_new b)) t sok in
      (sok', e' ∙ e ∙ rw (holds-set_new t) refl)
