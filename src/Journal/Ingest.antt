-- ===== src/Journal/Ingest.antt =====
-- worker/journal.rs: a batch that is written is found by the queries that follow.
use haunted_house.Common.{
  ℕ, ◌<◌, ◌≡◌, refl, ap, ◌∙◌, arith, List, [], ◌∷◌, ◌++◌, some, true, ◌||◌, ltb, ◌==◌, All, length,
  flat, ◌⊎◌, inl, inr, Bool-cases,
}
use haunted_house.Common.Sort.{nat_ord}
use haunted_house.Encoding.Sequence.{Falling}
use haunted_house.Query.Phrase.{PhraseQuery}
use haunted_house.Query.Match.{matches}
use haunted_house.Query.Builder.{expression, TrigramQuery, build}
use haunted_house.Query.Insert.{Within}
use haunted_house.Query.Follow.{Searchable, Sized}
use haunted_house.Journal.Blocks.{Cobs}
use haunted_house.Journal.Chain.{CobsLaws}
use haunted_house.Journal.Table.{View}
use haunted_house.Journal.Written.{IdsOk}
use haunted_house.Journal.Loop.{push_block}
use haunted_house.Journal.Merge.{Files}
use haunted_house.Journal.Choose.{holders}
use haunted_house.Journal.Sorted.{encoded, sort_rows-All, sort_rows-Ordered, holders-IdsOk}
use haunted_house.Journal.Stored.{FilesOk, Fits, view_with}
use haunted_house.Journal.Batch.{Journal, insert_row, sort_rows, write_batch}
use haunted_house.Journal.Reached.{Reached, wrote}
use haunted_house.Journal.Cursor.{CobsDecoder}
use haunted_house.Journal.Feed.{DecoderLaws}
use haunted_house.Journal.Union.{elem, Descends}
use haunted_house.Journal.Network.{query}
use haunted_house.Journal.Search.{query-build}

-- The batch has the file, with its trigrams.
abbrev pub InBatch : ℕ → List ℕ → Files → Type 0
InBatch id l [] = ⊥
InBatch id l (file ∷ files) = (file ≡ (id, l)) ⊎ InBatch id l files

insert_row-InBatch :
    (id : ℕ) (l : List ℕ) (row : ℕ × List ℕ) (files : Files)
    → InBatch id l (row ∷ files)
    → InBatch id l (insert_row row files)
unfolding insert_row
insert_row-InBatch id l row [] h = h
insert_row-InBatch id l row (other ∷ files) h = elim (Bool-cases (ltb row.0 other.0)) [
  | inl below ↦ rw below (elim h [
    | inl here ↦ inr (insert_row-InBatch id l row files (inl here))
    | inr (inl there) ↦ inl there
    | inr (inr later) ↦ inr (insert_row-InBatch id l row files (inr later))
  ])
  | inr above ↦ rw above h
]

sort_rows-InBatch :
    (id : ℕ) (l : List ℕ) (files : Files) → InBatch id l files → InBatch id l (sort_rows files)
unfolding sort_rows
sort_rows-InBatch id l [] h = h
sort_rows-InBatch id l (row ∷ files) h =
    insert_row-InBatch id l row (sort_rows files)
      (elim h [ inl here ↦ inl here | inr later ↦ inr (sort_rows-InBatch id l files later) ])

holders-InBatch :
    (t id : ℕ) (l : List ℕ) (files : Files)
    → InBatch id l files
    → elem t l ≡ true
    → elem id (holders t files) ≡ true
holders-InBatch t id l [] h e = absurd h
holders-InBatch t id l ((k, m) ∷ files) (inl here) e =
    let same : m ≡ l = cc in let name : k ≡ id = cc in rw (same, e, name) (ground arith)
holders-InBatch t id l ((k, m) ∷ files) (inr later) e =
    let rest = holders-InBatch t id l files later e in
    elim (Bool-cases (elem t m)) [
      | inl holds ↦ rw (holds, rest) (ground arith)
      | inr not_held ↦ rw not_held rest
    ]

flat-push_block_append :
    (ids : List ℕ) (chunks : List (List ℕ)) → flat (push_block ids chunks) ≡ ids ++ flat chunks
flat-push_block_append [] chunks = refl
flat-push_block_append (x ∷ ids) chunks = refl

-- Every id of the batch is above those that the journal holds.
abbrev pub Newer : Files → View → Type 0
Newer files view =
    All (λ (f : ℕ × List ℕ). (t x : ℕ) → elem x (flat (view t)) ≡ true → x < f.0) files

Falling-append :
    (x : ℕ) (l m : List ℕ)
    → Falling x l
    → Descends m
    → ((y : ℕ) → elem y m ≡ true → y < x)
    → ((y z : ℕ) → elem y l ≡ true → elem z m ≡ true → z < y)
    → Falling x (l ++ m)
Falling-append x [] [] f d top below = tt
Falling-append x [] (y ∷ m) f d top below = (top y (ground arith), d)
Falling-append x (y ∷ l) m f d top below = (
  f.0,
  Falling-append y l m f.1 d (λ z e. below y z (ground arith) e)
      (λ v z e e'. below v z (ground arith) e'),
)

Descends-append :
    (l m : List ℕ)
    → (0 < length l → IdsOk l)
    → Descends m
    → ((y z : ℕ) → elem y l ≡ true → elem z m ≡ true → z < y)
    → Descends (l ++ m)
Descends-append [] m f d below = d
Descends-append (x ∷ l) m f d below =
    Falling-append x l m (f (omega arith)).1 d (λ y e. below x y (ground arith) e)
      (λ y z e e'. below y z (ground arith) e')

holders-Newer :
    (t y z : ℕ) (files : Files) (view : View)
    → Newer files view
    → elem y (holders t files) ≡ true
    → elem z (flat (view t)) ≡ true
    → z < y
holders-Newer t y z [] view n e e' = cc
holders-Newer t y z ((k, l) ∷ files) view n e e' = elim (Bool-cases (elem t l)) [
  | inl holds ↦ elim (Bool-cases (y == k)) [
    | inl here ↦ let same : y ≡ k = ground arith in rw same (n.0 t z e')
    | inr other ↦ holders-Newer t y z files view n.1 (rw (holds, other) at e) e'
  ]
  | inr not_held ↦ holders-Newer t y z files view n.1 (rw not_held at e) e'
]

module _ (cobs : Cobs) (laws : CobsLaws cobs) where
  view_with-Descends :
      (files : Files) (view : View)
      → FilesOk files
      → Newer files view
      → ((t : ℕ) → Descends (flat (view t)))
      → (t : ℕ) → Descends (flat (view_with cobs laws files view t))
  view_with-Descends files view (u64s, apart, trigrams) newer falls t =
      let sorted = sort_rows files in
      rw (flat-push_block_append (holders t sorted) (view t)) (
        Descends-append (holders t sorted) (flat (view t))
          (holders-IdsOk t sorted (sort_rows-All _ files u64s) (sort_rows-Ordered files apart))
          (falls t)
          (λ y z e e'. holders-Newer t y z sorted view (sort_rows-All _ files newer) e e'))

  elem-view_with :
      (id t : ℕ) (files : Files) (view : View)
      → elem id (flat (view_with cobs laws files view t))
        ≡ (elem id (holders t (sort_rows files)) || elem id (flat (view t)))
  elem-view_with id t files view =
      ap (elem id) (flat-push_block_append (holders t (sort_rows files)) (view t))
      ∙ elem-append id (holders t (sort_rows files)) (flat (view t))
    where
      elem-append : (id : ℕ) (l m : List ℕ) → elem id (l ++ m) ≡ (elem id l || elem id m)
      elem-append id [] m = refl
      elem-append id (x ∷ l) m = ground (arith, elem-append id l m)

  module _ (d : CobsDecoder) (fed : DecoderLaws cobs d) where
    -- A batch is found. Let a journal that batches and defragmentations led to, each under the
    -- conditions of Reached, hold ids that fall for each trigram, and let a batch be written to it:
    -- of files with u64 ids, none twice and all above those that the journal holds, with trigrams in
    -- range and from low to high, that fits below 2 ^ 64 bytes. Then a query with an expression as
    -- its root, built from a PhraseQuery that has no literal of fewer than three bytes, no empty
    -- And, no count below 1 and no MinOf of 2 ^ 64 parts or more, is answered. The answer has the id
    -- of every file of the batch whose content satisfies the PhraseQuery, if the batch has all
    -- trigrams of the content, and every id that the journal held for all trigrams of a content that
    -- satisfies it.
    pub query-write_batch :
        (j j' : Journal) (view : View) (files : Files) (p : PhraseQuery) (q : TrigramQuery) (i : ℕ)
        → Reached cobs laws j view
        → ((t : ℕ) → Descends (flat (view t)))
        → FilesOk files
        → Newer files view
        → Fits cobs laws j files
        → write_batch cobs j (encoded files) ≡ some (j', true)
        → Searchable p
        → Sized p
        → build p ≡ some q
        → q.root ≡ expression i
        → (answer : List ℕ) × (query d j' q ≡ some answer)
          × ((id : ℕ) (l content : List ℕ)
              → InBatch id l files
              → Within content (λ t. elem t l)
              → matches content p ≡ true
              → elem id answer ≡ true)
          × ((id : ℕ) (content : List ℕ)
              → Within content (λ t. elem id (flat (view t)))
              → matches content p ≡ true
              → elem id answer ≡ true)
    query-write_batch j j' view files p q i reached falls ok newer fits written s z e root =
        let after = view_with cobs laws files view in
        let (answer, run, found) =
          query-build cobs laws d fed j' after p q i (wrote j j' view files reached ok fits written)
            (view_with-Descends files view ok newer falls) s z e root in
        (
          answer,
          run,
          λ id l content there within m.
              found id content
                (λ t h.
                  elem-view_with id t files view
                  ∙ rw
                      (holders-InBatch t id l (sort_rows files) (sort_rows-InBatch id l files there)
                        (within t h))
                      refl)
                m,
          λ id content within m.
              found id content
                (λ t h. elem-view_with id t files view ∙ rw (within t h) (ground arith)) m,
        )
