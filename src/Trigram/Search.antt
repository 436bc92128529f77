-- ===== src/Trigram/Search.antt =====
-- worker/trigrams.rs, query/mod.rs and worker/journal.rs: a file whose trigrams are built and written
-- to a journal is found by the queries that follow.
use haunted_house.Common.{
  ℕ, ◌+◌, ◌*◌, ◌^◌, ◌<◌, ◌≡◌, refl, ◌∙◌, arith, List, [], ◌∷◌, ◌++◌, true, All, flat, some, ◌==◌,
  Bool-cases, inl, inr, length,
}
use haunted_house.Encoding.{IsU64, encode_into_increasing}
use haunted_house.Query.Adds.{IsByte}
use haunted_house.Query.Phrase.{PhraseQuery}
use haunted_house.Query.Builder.{expression, TrigramQuery, build}
use haunted_house.Query.Match.{matches}
use haunted_house.Query.Eval.{trigram_of, has_trigram}
use haunted_house.Query.Follow.{Searchable, Sized}
use haunted_house.Journal.Addresses.{trigram_range}
use haunted_house.Journal.Blocks.{Cobs}
use haunted_house.Journal.Chain.{CobsLaws}
use haunted_house.Journal.Table.{View}
use haunted_house.Journal.Bounds.{block_bound}
use haunted_house.Journal.Merge.{Files}
use haunted_house.Journal.Stored.{FilesOk, Written, write_batch-JournalOk}
use haunted_house.Journal.Batch.{Journal, write_batch}
use haunted_house.Journal.Reached.{Reached, Reached-Good}
use haunted_house.Journal.Cursor.{CobsDecoder}
use haunted_house.Journal.Feed.{DecoderLaws}
use haunted_house.Journal.Union.{elem, Descends}
use haunted_house.Journal.Network.{query}
use haunted_house.Journal.Ingest.{query-write_batch}
use haunted_house.Trigram.{BitArr, BitArrLaws, deltas, build_file}
use haunted_house.Trigram.Build.{Full, received, build_file-Finds}

has_trigram_range :
    (bytes : List ℕ) (t : ℕ) → All IsByte bytes → has_trigram bytes t ≡ true → t < 2 ^ 24
unfolding has_trigram
has_trigram_range [] t ok h = cc
has_trigram_range (x ∷ []) t ok h = cc
has_trigram_range (x ∷ y ∷ []) t ok h = cc
has_trigram_range (x ∷ y ∷ z ∷ rest) t ok h = elim (Bool-cases (trigram_of x y z == t)) [
  | inl here ↦
      let same : trigram_of x y z ≡ t = ground arith in omega (arith, ok.0, ok.1.0, ok.1.1.0)
  | inr behind ↦ has_trigram_range (y ∷ z ∷ rest) t ok.1 (rw behind at h)
]

-- The length of the data file leaves room for one more file: 42 bytes for each trigram.
abbrev pub HasRoom : Journal → Type 0
HasRoom j = length j.file + block_bound 1 * trigram_range < 2 ^ 64

module _ (b : BitArr) (laws : BitArrLaws (2 ^ 24) b) (cobs : Cobs) (cobs_laws : CobsLaws cobs)
    (d : CobsDecoder) (fed : DecoderLaws cobs d) where
  -- A file that was ingested is found. Let a journal that batches and defragmentations led to, each
  -- under the conditions of Reached, hold ids that fall for each trigram, let an id be u64 and above
  -- all that the journal holds, and let the data file have room for one more file: 42 bytes for each
  -- of the 2 ^ 24 trigrams, below 2 ^ 64. Let the buffers of the file hold bytes, none of them being
  -- empty. Then build_file gives bytes; a batch of the id with these bytes is written; and a query
  -- with an expression as its root, built from a PhraseQuery that has no literal of fewer than three
  -- bytes, no empty And, no count below 1 and no MinOf of 2 ^ 64 parts or more, is answered by the
  -- journal that is left; and if the bytes of the buffers satisfy the PhraseQuery, then the id is in
  -- the answer.
  pub query-build_file :
      (E : Type 0) (j : Journal) (view : View) (id : ℕ) (buffers : List (List ℕ)) (p : PhraseQuery)
      (q : TrigramQuery) (i : ℕ)
      → Reached cobs cobs_laws j view
      → ((t : ℕ) → Descends (flat (view t)))
      → IsU64 id
      → ((t x : ℕ) → elem x (flat (view t)) ≡ true → x < id)
      → HasRoom j
      → Full buffers
      → All IsByte (flat buffers)
      → Searchable p
      → Sized p
      → build p ≡ some q
      → q.root ≡ expression i
      → (bytes : List ℕ) × (j' : Journal) × (answer : List ℕ) × (build_file b {E = E}
            (received b laws buffers)
          ≡ deltas bytes)
        × (write_batch cobs j ((id, bytes) ∷ []) ≡ some (j', true))
        × (query d j' q ≡ some answer)
        × (matches (flat buffers) p ≡ true → elem id answer ≡ true)
  query-build_file E j view id buffers p q i reached falls u64 above room full ok s z e root =
      let (l, built, found) = build_file-Finds b laws buffers full ok in
      let files : Files = (id, l) ∷ [] in
      let (running, held) = Reached-Good cobs cobs_laws j view reached in
      let files_ok : FilesOk files = ((u64, tt), (tt, tt), (found.0, tt)) in
      let (more, rows, written, good, size) =
        write_batch-JournalOk cobs cobs_laws j files view held files_ok room running in
      let j' = Written cobs cobs_laws j rows (j.file ++ more) in
      let (answer, run, fresh_found, old_found) =
        query-write_batch cobs cobs_laws d fed j j' view files p q i reached falls files_ok
          (above, tt) room written s z e root in
      (
        encode_into_increasing l [],
        j',
        answer,
        built,
        written,
        run,
        fresh_found id l (flat buffers) (inl refl)
            (λ t h. found.1 t (has_trigram_range (flat buffers) t ok h) ∙ h),
      )
