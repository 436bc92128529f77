-- ===== src/Journal/Runs.antt =====
-- Runs of a query on a journal that a batch was written to.
use haunted_house.Common.{
  ℕ, suc, ◌+◌, ◌-◌, ◌<◌, ◌≡◌, refl, ap, ◌∙◌, arith, List, [], ◌∷◌, ◌++◌, append_assoc, append-nil,
  none, some, true, false, ltb, ◌==◌, if◌then◌else◌, all, length, flat,
}
use haunted_house.Common.Sort.{sort, dedup}
use haunted_house.Query.Phrase.{PhraseQuery}
use haunted_house.Query.Match.{matches}
use haunted_house.Query.Builder.{
  trigram, expression, and_of, TrigramQuery, new_builder, add_expression, pop_or_add, and,
  literal_loop, insert, build,
}
use haunted_house.Query.Eval.{eval}
use haunted_house.Query.Insert.{Within}
use haunted_house.Query.Follow.{Searchable, Sized}
use haunted_house.Journal.Addresses.{trigram_range, word_of_address}
use haunted_house.Journal.Chain.{Chain, plain}
use haunted_house.Encoding.Varint.{behind}
use haunted_house.Encoding.Sequence.{gaps}
use haunted_house.Journal.Blocks.{address_offset}
use haunted_house.Journal.Table.{View}
use haunted_house.Journal.Stored.{view_with}
use haunted_house.Journal.Written.{IdsOk}
use haunted_house.Journal.Union.{elem, Descends}
use haunted_house.Journal.Cursor.{
  data_complete, data_continue, CobsDecoder, feed_bytes, trigram_reader,
}
use haunted_house.Journal.Feed.{DecoderLaws}
use haunted_house.Journal.Reader.{trigram_reader-Chain}
use haunted_house.Journal.Network.{dep_trigrams, query_trigrams, has_channel, find_node, query}
use haunted_house.Journal.Tasks.{Layered}
use haunted_house.Journal.Answer.{query-Reached}
use haunted_house.Journal.Search.{query-build, query_lone_trigram}
use haunted_house.Journal.Ingest.{InBatch, Newer, query-write_batch}
use haunted_house.Journal.Batch.{journal_new}
use haunted_house.Journal.Reached.{fresh}
use haunted_house.Journal.Tests.{
  two_files-FilesOk, filled_run, raise_all, shifted, shifted_laws, two_files, filled,
  filled-Reached, filled-Falls,
}

-- Stands for the decoder of the crate cobs, on the bytes that `shifted` encodes.
abbrev pub shifted_decoder : CobsDecoder
shifted_decoder = record {
  State = Unit {0};
  idle = tt;
  feed = λ s byte. some (s, if byte == 0 then data_complete else data_continue (byte - 1));
}

feed_raised :
    (b : ℕ) (bytes out : List ℕ)
    → feed_bytes shifted_decoder tt ((b + 1) ∷ bytes) out
      ≡ feed_bytes shifted_decoder tt bytes (out ++ (b ∷ []))
unfolding feed_bytes
feed_raised b bytes out =
    let not_zero : (b + 1 == 0) ≡ false = ground arith in
    let lower : b + 1 - 1 ≡ b = omega arith in rw (not_zero, feed_bytes, lower) refl

feed_whole :
    (bytes out : List ℕ)
    → feed_bytes shifted_decoder tt (raise_all bytes ++ (0 ∷ [])) out
      ≡ some (tt, out ++ bytes, true)
unfolding feed_bytes
feed_whole [] out = rw (append-nil out) refl
feed_whole (b ∷ bytes) out =
    feed_raised b (raise_all bytes ++ (0 ∷ [])) out
    ∙ feed_whole bytes (out ++ (b ∷ []))
    ∙ rw append_assoc refl

feed_part :
    (bytes front back acc : List ℕ) (x : ℕ)
    → raise_all bytes ++ (0 ∷ []) ≡ front ++ (x ∷ back)
    → (out : List ℕ) × (rest : List ℕ) × (feed_bytes shifted_decoder tt front acc
        ≡ some (tt, acc ++ out, false))
      × (bytes ≡ out ++ rest)
      × (length out ≡ length front)
unfolding feed_bytes
feed_part bytes [] back acc x e = ([], bytes, rw (append-nil acc) refl, refl, refl)
feed_part [] (c ∷ []) back acc x e = absurd (cc)
feed_part [] (c ∷ c' ∷ front) back acc x e = absurd (cc)
feed_part (b ∷ bytes) (c ∷ front) back acc x e =
    let same : b + 1 ≡ c = cc in
    let (out, rest, f, eb, el) = feed_part bytes front back (acc ++ (b ∷ [])) x cc in
    (
      b ∷ out,
      rest,
      rw (← same) (feed_raised b front acc ∙ f ∙ rw append_assoc refl),
      ap (◌∷◌ b) eb,
      ap suc el,
    )

pub shifted_decoder_laws : DecoderLaws shifted shifted_decoder
shifted_decoder_laws = record {
  feed-whole = λ bytes. (tt, feed_whole bytes []);
  feed-front = λ bytes front back x e.
      let (out, rest, f, eb, el) = feed_part bytes front back [] x e in
      (tt, out, rest, f, eb, omega (arith, el));
}

abbrev filled_view : View
filled_view = view_with shifted shifted_laws two_files (λ x. [])

ids-Descends : (l : List ℕ) → (0 < length l → IdsOk l) → Descends l
ids-Descends [] h = tt
ids-Descends (x ∷ l) h = (h (omega arith)).1

filled-Descends : (t : ℕ) → Descends (flat (filled_view t))
filled-Descends t = ids-Descends (flat (filled_view t)) (λ h. (filled-Falls t h).0)

abbrev pub text_abcd : List ℕ
text_abcd = b'a' ∷ b'b' ∷ b'c' ∷ b'd' ∷ []

abbrev pub abcd_query : TrigramQuery
abcd_query = record {
  root = expression 0;
  expressions = (0, and_of (trigram 0x616263 ∷ trigram 0x626364 ∷ [])) ∷ [];
}

pub abcd_built : build (PhraseQuery.literal text_abcd) ≡ some abcd_query
unfolding build insert and pop_or_add add_expression new_builder literal_loop sort dedup
abcd_built = refl

pub abcd-Searchable : Searchable (PhraseQuery.literal text_abcd)
unfolding Searchable
abcd-Searchable = omega arith

pub abcd-Sized : Sized (PhraseQuery.literal text_abcd)
unfolding Sized
abcd-Sized = tt

abcd-Layered : Layered abcd_query.expressions
abcd-Layered = (refl, refl, tt, tt)

abcd_in_range : all (λ t. ltb t trigram_range) (query_trigrams abcd_query.expressions) ≡ true
unfolding query_trigrams dep_trigrams
abcd_in_range = refl

abcd_channel :
    has_channel (query_trigrams abcd_query.expressions) abcd_query.expressions abcd_query.root
    ≡ true
unfolding has_channel find_node
abcd_channel = refl

query-build_example :
    (answer : List ℕ) × (query shifted_decoder filled abcd_query ≡ some answer)
    × ((id : ℕ) (file : List ℕ)
        → Within file (λ t. elem id (flat (filled_view t)))
        → matches file (PhraseQuery.literal text_abcd) ≡ true
        → elem id answer ≡ true)
query-build_example =
    query-build shifted shifted_laws shifted_decoder shifted_decoder_laws filled filled_view
      (PhraseQuery.literal text_abcd) abcd_query 0 filled-Reached filled-Descends abcd-Searchable
      abcd-Sized abcd_built refl

two_files-Newer : Newer two_files (λ x. [])
two_files-Newer = (λ t x h. cc h, (λ t x h. cc h, tt))

query-write_batch_example :
    (answer : List ℕ) × (query shifted_decoder filled abcd_query ≡ some answer)
    × ((id : ℕ) (l content : List ℕ)
        → InBatch id l two_files
        → Within content (λ t. elem t l)
        → matches content (PhraseQuery.literal text_abcd) ≡ true
        → elem id answer ≡ true)
    × ((id : ℕ) (content : List ℕ)
        → Within content (λ t. elem id (flat {A = ℕ} []))
        → matches content (PhraseQuery.literal text_abcd) ≡ true
        → elem id answer ≡ true)
query-write_batch_example =
    query-write_batch shifted shifted_laws shifted_decoder shifted_decoder_laws journal_new filled
      (λ x. []) two_files (PhraseQuery.literal text_abcd) abcd_query 0 fresh (λ t. tt)
      two_files-FilesOk two_files-Newer (unfold journal_new in omega arith) filled_run.1
      abcd-Searchable abcd-Sized abcd_built refl

query-Reached_example :
    (answer : List ℕ) × (query shifted_decoder filled abcd_query ≡ some answer)
    × Descends answer
    × ((x : ℕ)
        → elem x answer
          ≡ eval (λ t. elem x (flat (filled_view t))) abcd_query.expressions abcd_query.root)
query-Reached_example =
    query-Reached shifted shifted_laws shifted_decoder shifted_decoder_laws filled filled_view
      abcd_query filled-Reached filled-Descends abcd-Layered abcd_in_range abcd_channel

query_lone_trigram_example :
    (q : TrigramQuery) × (build (PhraseQuery.literal (b'a' ∷ b'b' ∷ b'c' ∷ [])) ≡ some q)
    × (query shifted_decoder filled q ≡ none)
query_lone_trigram_example = query_lone_trigram shifted_decoder filled b'a' b'b' b'c'

-- A file of two blocks of one trigram, at 1 and at 5.
abbrev two_blocks : List ℕ
two_blocks =
    0
    ∷ (raise_all (plain none 1 3 (1 ∷ []))
        ++ (0 ∷ (raise_all (plain (some 1) 5 9 (7 ∷ [])) ++ (0 ∷ []))))

two_blocks-Chain : Chain shifted shifted_laws two_blocks (some 5) ((9 ∷ 7 ∷ []) ∷ (3 ∷ 1 ∷ []) ∷ [])
unfolding address_offset gaps behind
two_blocks-Chain = (
  5,
  some 1,
  refl,
  (
    9,
    7 ∷ [],
    [],
    refl,
    (omega arith, omega arith, omega arith, omega arith, (omega arith, tt)),
    refl,
  ),
  (
    1,
    none,
    refl,
    (
      3,
      1 ∷ [],
      raise_all (plain (some 1) 5 9 (7 ∷ [])) ++ (0 ∷ []),
      refl,
      (omega arith, omega arith, tt, omega arith, (omega arith, tt)),
      refl,
    ),
    refl,
  ),
)

trigram_reader-Chain_example :
    trigram_reader shifted_decoder two_blocks (word_of_address (some 5))
    ≡ (9 ∷ 7 ∷ 3 ∷ 1 ∷ [], true)
trigram_reader-Chain_example =
    trigram_reader-Chain shifted shifted_laws shifted_decoder shifted_decoder_laws
      ((9 ∷ 7 ∷ []) ∷ (3 ∷ 1 ∷ []) ∷ []) two_blocks (some 5) two_blocks-Chain
