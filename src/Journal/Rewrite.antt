-- ===== src/Journal/Rewrite.antt =====
-- worker/journal.rs: the loop of a defragmentation.
use haunted_house.Common.{
  ℕ, zero, suc, ◌+◌, ◌%◌, ◌^◌, ◌<◌, ◌≡◌, refl, sym, ap, ◌∙◌, arith, List, [], ◌∷◌, ◌++◌, append-nil,
  append_assoc, none, some, length, flat, length-append, subst, ◌⊎◌, inl, inr, ◌≤◌, ◌*◌,
}
use haunted_house.Encoding.{IsU64}
use haunted_house.Journal.Blocks.{Cobs, encode_block_data}
use haunted_house.Journal.Chain.{CobsLaws}
use haunted_house.Journal.Addresses.{word_of_address, address_of_word}
use haunted_house.Journal.Batch.{defrag_loop}
use haunted_house.Journal.Copy.{builder_at, builder_write-at}
use haunted_house.Journal.Table.{View, RowOk, RowsOk, RowsOk-grow}
use haunted_house.Journal.Written.{IdsOk, encode_block_data-some, Chain-new, address_of-length}
use haunted_house.Journal.Bounds.{block_bound, room_next, encode_block_data-length}
use haunted_house.Journal.Loop.{push_block}
use haunted_house.Journal.Listed.{listing}

-- All ids of a trigram in one block.
abbrev pub one_block : View → View
one_block view x = push_block (flat (view x)) []

-- The ids of each trigram, over all its blocks, are u64 and fall, and are `q` at most.
abbrev pub Falls : ℕ → View → Type 0
Falls q view =
    (x : ℕ) → 0 < length (flat (view x)) → IdsOk (flat (view x)) × (length (flat (view x)) ≤ q)

empty_or : (l : List ℕ) → (l ≡ []) ⊎ ((id : ℕ) × (ids : List ℕ) × (l ≡ id ∷ ids))
empty_or [] = inl refl
empty_or (id ∷ ids) = inr (id, ids, refl)

module _ (cobs : Cobs) (laws : CobsLaws cobs) where
  RowOk-single :
      (file block ids : List ℕ)
      → 0 < length file
      → IsU64 (length file)
      → IdsOk ids
      → encode_block_data cobs none (length file) ids ≡ some block
      → RowOk cobs laws (file ++ block) (length file, length ids % 2 ^ 64) (ids ∷ [])
  RowOk-single file block ids pos u ok e = (
    rw (address_of-length (length file) pos)
        (Chain-new cobs laws file block none ids [] pos u ok e refl),
    rw (append-nil ids) refl,
  )

  -- What the loop makes of the ids of `k` trigrams.
  abbrev pub Rewritten : ℕ → ℕ → ℕ → View → List ℕ → List (ℕ × ℕ) → List (ℕ × List ℕ) → Type 0
  Rewritten q n k view file copied trigrams =
      (more : List ℕ) × (rows : List (ℕ × ℕ)) × (defrag_loop cobs trigrams file
          (builder_at n copied)
        ≡ some (file ++ more, builder_at (n + k) (copied ++ rows)))
      × (length rows ≡ k)
      × (length more ≤ block_bound q * k)
      × (IsU64 (length (file ++ more)) → RowsOk cobs laws (file ++ more) n rows (one_block view))

  rewrite_none :
      (q n k : ℕ) (view : View) (file : List ℕ) (copied : List (ℕ × ℕ))
      (trigrams : List (ℕ × List ℕ))
      → flat (view n) ≡ []
      → Rewritten q (n + 1) k view file (copied ++ ((0, 0) ∷ [])) trigrams
      → Rewritten q n (suc k) view file copied ((n, []) ∷ trigrams)
  unfolding defrag_loop word_of_address address_of_word
  rewrite_none q n k view file copied trigrams e (more, rows, e', l, room, held) = (
    more,
    (0, 0) ∷ rows,
    rw (builder_write-at n 0 none copied, defrag_loop)
        (e'
          ∙ rw (append_assoc copied ((0, 0) ∷ []) rows) (
              ap (λ m. some (file ++ more, builder_at m (copied ++ ((0, 0) ∷ rows))))
                (omega arith))),
    ap suc l,
    room_next q k 0 (length more) more (omega arith) room (omega arith),
    λ u. (rw e (refl, refl), held u),
  )

  rewrite_some :
      (q n k : ℕ) (view : View) (file block : List ℕ) (copied : List (ℕ × ℕ))
      (trigrams : List (ℕ × List ℕ)) (id : ℕ) (ids : List ℕ)
      → 0 < length file
      → flat (view n) ≡ id ∷ ids
      → IdsOk (id ∷ ids)
      → length (id ∷ ids) ≤ q
      → encode_block_data cobs none (length file) (id ∷ ids) ≡ some block
      → Rewritten q
          (n + 1)
          k
          view
          (file ++ block)
          (copied ++ ((length file, length (id ∷ ids) % 2 ^ 64) ∷ []))
          trigrams
      → Rewritten q n (suc k) view file copied ((n, id ∷ ids) ∷ trigrams)
  unfolding defrag_loop word_of_address
  rewrite_some q n k view file block copied trigrams id ids pos e ok few eb
        (more, rows, e', l, room, held) =
      let row : ℕ × ℕ = (length file, length (id ∷ ids) % 2 ^ 64) in
      let same = append_assoc file block more in
      (
        block ++ more,
        row ∷ rows,
        rw
            (
              builder_write-at n (length (id ∷ ids) % 2 ^ 64) (some (length file)) copied,
              defrag_loop,
              eb,
            )
            (e'
              ∙ rw (append_assoc copied (row ∷ []) rows, same)
                  (ap (λ m. some (file ++ (block ++ more), builder_at m (copied ++ (row ∷ rows))))
                    (omega arith))),
        ap suc l,
        room_next q k (length block) (length more) (block ++ more)
            (encode_block_data-length cobs laws none (length file) q (id ∷ ids) block ok few eb)
            room (length-append block more),
        λ u.
            let first =
              RowOk-single file block (id ∷ ids) pos
                (omega (arith, length-append file (block ++ more))) ok eb in
            let all : RowsOk cobs laws ((file ++ block) ++ more) n (row ∷ rows) (one_block view) = (
              (RowsOk-grow cobs laws (file ++ block) more n (row ∷ []) (one_block view)
                  (rw e (first, tt))).0,
              held (subst (λ f. IsU64 (length f)) (sym same) u),
            ) in
            subst (λ f. RowsOk cobs laws f n (row ∷ rows) (one_block view)) same all,
      )

  pub defrag_loop-listing :
      (k q n : ℕ) (view : View) (file : List ℕ) (copied : List (ℕ × ℕ))
      → 0 < length file
      → Falls q view
      → Rewritten q n k view file copied (listing n k view)
  unfolding listing defrag_loop
  defrag_loop-listing zero q n view file copied pos falls = (
    [],
    [],
    rw (append-nil, append-nil) (ap (λ m. some (file, builder_at m copied)) (omega arith)),
    refl,
    omega arith,
    λ u. tt,
  )
  defrag_loop-listing (suc k) q n view file copied pos falls = elim (empty_or (flat (view n))) [
    | inl e ↦
        subst (λ l. Rewritten q n (suc k) view file copied ((n, l) ∷ listing (n + 1) k view))
          (sym e)
          (rewrite_none q n k view file copied (listing (n + 1) k view) e
            (defrag_loop-listing k q (n + 1) view file (copied ++ ((0, 0) ∷ [])) pos falls))
    | inr (id, ids, e) ↦
        let (ok, few) : IdsOk (id ∷ ids) × (length (id ∷ ids) ≤ q) =
          rw e at (falls n (omega (arith, ap length e))) in
        let (block, eb) = encode_block_data-some cobs laws none (length file) (id ∷ ids) ok in
        subst (λ l. Rewritten q n (suc k) view file copied ((n, l) ∷ listing (n + 1) k view))
          (sym e)
          (rewrite_some q n k view file block copied (listing (n + 1) k view) id ids pos e ok few eb
            (defrag_loop-listing k q (n + 1) view (file ++ block)
              (copied ++ ((length file, length (id ∷ ids) % 2 ^ 64) ∷ []))
              (omega (arith, length-append file block)) falls))
  ]
