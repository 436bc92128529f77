-- ===== src/Journal/Search.antt =====
-- query/mod.rs and worker/journal.rs: from a PhraseQuery to the file ids that a journal answers.
use haunted_house.Common.{ℕ, ◌≡◌, refl, ◌∙◌, List, [], ◌∷◌, none, some, true, false, flat}
use haunted_house.Common.Sort.{sort, dedup}
use haunted_house.Query.Phrase.{PhraseQuery}
use haunted_house.Query.Match.{matches}
use haunted_house.Query.Builder.{
  Reference, trigram, expression, TrigramQuery, insert, and, literal_loop, new_builder, pop_or_add,
  build,
}
use haunted_house.Query.Insert.{Within}
use haunted_house.Query.Follow.{Searchable, Sized}
use haunted_house.Query.Sound.{build-Within}
use haunted_house.Journal.Blocks.{Cobs}
use haunted_house.Journal.Chain.{CobsLaws}
use haunted_house.Journal.Table.{View}
use haunted_house.Journal.Batch.{Journal}
use haunted_house.Journal.Reached.{Reached}
use haunted_house.Journal.Cursor.{CobsDecoder}
use haunted_house.Journal.Feed.{DecoderLaws}
use haunted_house.Journal.Union.{elem, Descends}
use haunted_house.Journal.Network.{query_trigrams, has_channel, query}
use haunted_house.Journal.Tasks.{Expressions, is_built}
use haunted_house.Journal.Answer.{channels, has_channel-is_built, query-Reached}
use haunted_house.Journal.Made.{build-Layered}

root-has_channel :
    (trigrams : List ℕ) (es : Expressions) (r : Reference) (i : ℕ)
    → r ≡ expression i
    → is_built es r ≡ true
    → has_channel trigrams es r ≡ true
root-has_channel trigrams es r i e h = rw e (has_channel-is_built trigrams es i ∙ rw e at h)

abbrev lone : ℕ → TrigramQuery
lone t = record { root = trigram t; expressions = [] }

lone-no_channel : (t : ℕ) → has_channel (channels []) [] (trigram t) ≡ false
unfolding has_channel query_trigrams sort dedup
lone-no_channel t = refl

build_three : (x y z : ℕ) → (t : ℕ) × (build (PhraseQuery.literal (x ∷ y ∷ z ∷ [])) ≡ some (lone t))
unfolding build insert new_builder and pop_or_add literal_loop sort dedup
build_three x y z = (_, refl)

module _ (cobs : Cobs) (laws : CobsLaws cobs) (d : CobsDecoder) (fed : DecoderLaws cobs d) where
  -- A search misses no file. When a PhraseQuery has no literal of fewer than three bytes, no empty
  -- And, no count below 1 and no MinOf of 2 ^ 64 parts or more, and its TrigramQuery has an
  -- expression as its root, then every journal that batches and defragmentations led to, each under
  -- the conditions of Reached, with the ids of each trigram falling, answers the query; and if the
  -- journal holds the id of a file for each trigram of the file, and the content of the file
  -- satisfies the PhraseQuery, then the id is in the answer.
  pub query-build :
      (j : Journal) (view : View) (p : PhraseQuery) (q : TrigramQuery) (i : ℕ)
      → Reached cobs laws j view
      → ((t : ℕ) → Descends (flat (view t)))
      → Searchable p
      → Sized p
      → build p ≡ some q
      → q.root ≡ expression i
      → (answer : List ℕ) × (query d j q ≡ some answer)
        × ((id : ℕ) (file : List ℕ)
            → Within file (λ t. elem id (flat (view t)))
            → matches file p ≡ true
            → elem id answer ≡ true)
  query-build j view p q i reached falls s z e root =
      let (lay, low, built) = build-Layered p q s z e in
      let top = root-has_channel (query_trigrams q.expressions) q.expressions q.root i root built in
      let (answer, run, down, same) =
        query-Reached cobs laws d fed j view q reached falls lay low top in
      (
        answer,
        run,
        λ id file within m.
            let (t, e', holds) = build-Within p file s in
            let one : t ≡ q = cc in
            same id ∙ (rw one at (holds (λ n. elem id (flat (view n))) within m)),
      )

module _ (d : CobsDecoder) where
  query-no_channel :
      (j : Journal) (q : TrigramQuery)
      → has_channel (channels q.expressions) q.expressions q.root ≡ false
      → query d j q ≡ none
  unfolding query
  query-no_channel j q h = rw h refl

  -- A query for a literal of exactly three bytes is built, with the trigram itself as its root and no
  -- expressions, and then fails on every journal.
  pub query_lone_trigram :
      (j : Journal) (x y z : ℕ)
      → (q : TrigramQuery) × (build (PhraseQuery.literal (x ∷ y ∷ z ∷ [])) ≡ some q)
        × (query d j q ≡ none)
  query_lone_trigram j x y z =
      let (t, e) = build_three x y z in (lone t, e, query-no_channel j (lone t) (lone-no_channel t))
