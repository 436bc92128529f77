-- ===== src/Journal/Answer.antt =====
-- worker/journal.rs: what JournalFilter::query answers.
use haunted_house.Common.{
  ℕ, ◌<◌, ◌≡◌, refl, sym, ap, ◌∙◌, arith, List, [], ◌∷◌, ◌++◌, some, Bool, true, ◌||◌, ltb, ltb→lt,
  ◌==◌, all, any, All, length, flat, inl, inr, Bool-cases, and_split,
}
use haunted_house.Common.Sort.{
  nat_ord, sort, dedup, any-sort, any-dedup, all-sort, all-dedup, any-append,
}
use haunted_house.Common.Sort.Rising.{dedup-sort-Climbs, dedup-sort-again}
use haunted_house.Query.Builder.{Reference, trigram, expression, references, TrigramQuery}
use haunted_house.Query.Eval.{eval}
use haunted_house.Journal.Addresses.{trigram_range, read_set}
use haunted_house.Journal.Blocks.{Cobs}
use haunted_house.Journal.Chain.{CobsLaws}
use haunted_house.Journal.Table.{View}
use haunted_house.Journal.Batch.{Journal}
use haunted_house.Journal.Reached.{Reached, Reached-Good}
use haunted_house.Journal.Cursor.{CobsDecoder}
use haunted_house.Journal.Feed.{DecoderLaws}
use haunted_house.Journal.Union.{elem, Descends}
use haunted_house.Journal.Network.{
  dep_trigrams, query_trigrams, find_node, has_channel, can_subscribe, launch_readers, delivered,
  sent_by, query,
}
use haunted_house.Journal.Launch.{
  Info, launch_readers-trigrams_of, read_set_loop-Found, sent_by-flat,
}
use haunted_house.Journal.Tasks.{Expressions, is_built, Layered}
use haunted_house.Journal.Delivered.{delivered-Delivers}

-- The channels of a query.
abbrev pub channels : Expressions → List ℕ
channels es = dedup (sort (query_trigrams es))

any-channels : (p : ℕ → Bool) (es : Expressions) → any p (channels es) ≡ any p (query_trigrams es)
any-channels p es = any-dedup p (sort (query_trigrams es)) ∙ any-sort p (query_trigrams es)

all-All : (l : List ℕ) → all (λ t. ltb t trigram_range) l ≡ true → All (λ t. t < trigram_range) l
all-All [] h = tt
all-All (t ∷ l) h =
    let (a, b) = and_split (ltb t trigram_range) (all (λ s. ltb s trigram_range) l) h in
    (ltb→lt t trigram_range a, all-All l b)

pub has_channel-is_built :
    (trigrams : List ℕ) (es : Expressions) (i : ℕ)
    → has_channel trigrams es (expression i) ≡ is_built es (expression i)
unfolding has_channel find_node
has_channel-is_built trigrams [] i = refl
has_channel-is_built trigrams ((k, e) ∷ es) i = elim (Bool-cases (k == i)) [
  | inl here ↦ rw (here, has_channel, find_node) refl
  | inr other ↦ rw (other, has_channel, find_node) (has_channel-is_built trigrams es i)
]

module _ (trigrams : List ℕ) (es : Expressions) where
  all-has_channel :
      (older : Expressions) (refs : List Reference)
      → ((i : ℕ) → is_built older (expression i) ≡ true → is_built es (expression i) ≡ true)
      → ((t : ℕ) → any (λ s. s == t) (dep_trigrams refs) ≡ true → any (λ s. s == t) trigrams ≡ true)
      → all (is_built older) refs ≡ true
      → all (has_channel trigrams es) refs ≡ true
  unfolding dep_trigrams
  all-has_channel older [] inc sub h = refl
  all-has_channel older (trigram t ∷ refs) inc sub h =
      let one : has_channel trigrams es (trigram t) ≡ true =
        unfold has_channel in sub t (ground arith) in
      rw one (all-has_channel older refs inc (λ s e. sub s (ground arith)) h)
  all-has_channel older (expression i ∷ refs) inc sub h =
      let (a, b) = and_split (is_built older (expression i)) (all (is_built older) refs) h in
      rw (has_channel-is_built trigrams es i ∙ inc i a) (all-has_channel older refs inc sub b)

  all-can_subscribe :
      (older : Expressions)
      → Layered older
      → ((i : ℕ) → is_built older (expression i) ≡ true → is_built es (expression i) ≡ true)
      → ((t : ℕ)
          → any (λ s. s == t) (query_trigrams older) ≡ true
          → any (λ s. s == t) trigrams ≡ true)
      → all (can_subscribe trigrams es) older ≡ true
  unfolding query_trigrams can_subscribe
  all-can_subscribe [] lay inc sub = refl
  all-can_subscribe ((k, e) ∷ older) (new, refs, w, lay) inc sub =
      let inc' : (i : ℕ)
          → is_built older (expression i) ≡ true
          → is_built es (expression i) ≡ true =
        λ i b. inc i (ground arith) in
      let split : (t : ℕ)
          → any (λ s. s == t) (dep_trigrams (references e) ++ query_trigrams older) ≡ (
              any (λ s. s == t) (dep_trigrams (references e))
              || any (λ s. s == t) (query_trigrams older)) =
        λ t. any-append (λ s. s == t) (dep_trigrams (references e)) (query_trigrams older) in
      let one =
        all-has_channel older (references e) inc' (λ t h. sub t (split t ∙ rw h refl)) refs in
      let others = all-can_subscribe older lay inc' (λ t h. sub t (split t ∙ ground arith)) in
      rw (one, others) refl

root-is_built :
    (trigrams : List ℕ) (es : Expressions) (r : Reference)
    → has_channel trigrams es r ≡ true
    → is_built es r ≡ true
root-is_built trigrams es (trigram t) h = refl
root-is_built trigrams es (expression i) h = sym (has_channel-is_built trigrams es i) ∙ h

root-channel :
    (es : Expressions) (r : Reference)
    → has_channel (query_trigrams es) es r ≡ has_channel (channels es) es r
unfolding has_channel
root-channel es (trigram t) = sym (any-channels (λ s. s == t) es)
root-channel es (expression i) = refl

module _ (cobs : Cobs) (laws : CobsLaws cobs) (d : CobsDecoder) (fed : DecoderLaws cobs d) where
  query-run :
      (j : Journal) (q : TrigramQuery) (info : Info)
      → has_channel (channels q.expressions) q.expressions q.root ≡ true
      → all (can_subscribe (channels q.expressions) q.expressions) q.expressions ≡ true
      → j.running ≡ true
      → read_set j.tail (channels q.expressions) ≡ some info
      → launch_readers info (channels q.expressions) ≡ some []
      → query d j q
        ≡ some (delivered (sent_by d j.file info) q.expressions (length q.expressions) q.root)
  unfolding query
  query-run j q info root sub running read launched =
      rw (root, sub, running, query, read, launched) refl

  -- A query of a journal that batches and defragmentations led to, each under the conditions of
  -- Reached, is answered, when each trigram's ids fall, the trigrams of the query are in range, each
  -- of its expressions has a number of its own, refers to older ones and, where it has weights, has
  -- one for each reference and they add up to less than 2 ^ 64, and its root is an expression or a
  -- trigram that an expression refers to. The answer falls strictly, and a file id is in it exactly
  -- when the graph of the query lets through the file, whose trigrams are those that the journal
  -- holds the id for.
  pub query-Reached :
      (j : Journal) (view : View) (q : TrigramQuery)
      → Reached cobs laws j view
      → ((t : ℕ) → Descends (flat (view t)))
      → Layered q.expressions
      → all (λ t. ltb t trigram_range) (query_trigrams q.expressions) ≡ true
      → has_channel (query_trigrams q.expressions) q.expressions q.root ≡ true
      → (answer : List ℕ) × (query d j q ≡ some answer)
        × Descends answer
        × ((x : ℕ) → elem x answer ≡ eval (λ t. elem x (flat (view t))) q.expressions q.root)
  unfolding read_set
  query-Reached j view q reached falls lay range root =
      let es = q.expressions in
      let ts = channels es in
      let (running, (pos, full, held)) = Reached-Good cobs laws j view reached in
      let low =
        all-All ts
          (all-dedup _ (sort (query_trigrams es)) ∙ all-sort _ (query_trigrams es) ∙ range) in
      let (info, found, named, ok) =
        read_set_loop-Found cobs laws ts j.file view 0 j.tail.rows
          (dedup-sort-Climbs (query_trigrams es)) low (omega (arith, full)) held in
      let read : read_set j.tail ts ≡ some info = rw (dedup-sort-again (query_trigrams es)) found in
      let launched : launch_readers info ts ≡ some [] =
        ap (launch_readers info) (sym named) ∙ launch_readers-trigrams_of info in
      let top : has_channel ts es q.root ≡ true = sym (root-channel es q.root) ∙ root in
      let sub =
        all-can_subscribe ts es es lay (λ i b. b) (λ t h. any-channels (λ s. s == t) es ∙ h) in
      let (down, same) =
        delivered-Delivers ts es (sent_by d j.file info) (λ t. flat (view t)) falls
          (λ t h. sent_by-flat cobs laws d fed j.file view info t ok (rw named h)) es (length es)
          q.root lay sub (λ i b. refl) (omega arith)
          (rw (root-is_built ts es q.root top, top) refl) in
      (_, query-run j q info top sub running read launched, down, same)
