-- ===== src/Journal/Recover.antt =====
-- worker/journal.rs: a journal that is opened has lost nothing that its tail file knows.
use haunted_house.Common.{
  ℕ, zero, suc, ◌+◌, ◌-◌, ◌≤◌, ◌<◌, ◌≡◌, refl, sym, ap, ◌∙◌, subst, arith, List, [], ◌∷◌, ◌++◌,
  Option, none, some, true, take, drop, length, length-append, lt→ltb, lt→leb, max, ◌⊎◌, inl, inr,
}
use native.Mathlib.Decide.{dec_le}
use haunted_house.Journal.Addresses.{Tail, address_of_word, trigram_range, reader_open, reader_next}
use haunted_house.Journal.Blocks.{Cobs, read_until_zero, load_block_into}
use haunted_house.Journal.Chain.{CobsLaws, Chain, BlockAt, IsBefore, plain, load_block_into-plain}
use haunted_house.Journal.Table.{View, RowsOk, RowsOk-grow}
use haunted_house.Journal.Batch.{Journal, header}
use haunted_house.Journal.Stored.{JournalOk}
use haunted_house.Journal.Open.{equal_bytes, last_address, cut_behind, restore, open_journal}
use haunted_house.Journal.Cut.{drop-take, take-append, ends_before}

take_four :
    (file more : List ℕ)
    → 4 < length file
    → equal_bytes (take 4 (file ++ more)) header ≡ equal_bytes (take 4 file) header
take_four [] more h = absurd (omega arith)
take_four (a ∷ []) more h = absurd (omega arith)
take_four (a ∷ b ∷ []) more h = absurd (omega arith)
take_four (a ∷ b ∷ c ∷ []) more h = absurd (omega arith)
take_four (a ∷ b ∷ c ∷ e ∷ file) more h = refl

module _ (cobs : Cobs) (laws : CobsLaws cobs) where
  -- A file that is cut where the last block ends keeps the blocks that start before.
  BlockAt-cut :
      (file : List ℕ) (old : Option ℕ) (a last : ℕ) (ids : List ℕ)
      → a ≤ last
      → BlockAt cobs laws file old a ids
      → BlockAt cobs laws (take (last + length (read_until_zero (drop last file))) file) old a ids
  BlockAt-cut file old a last ids le (first, rest, behind, ei, facts, ed) =
      let code = cobs.encode (plain old a first rest) in
      let end = last + length (read_until_zero (drop last file)) in
      let room = ends_before code behind file a last (laws.encode-no_zero _) ed le in
      let n = end - a in
      let split : a + n ≡ end = omega (arith, le) in
      (
        first,
        rest,
        take (n - length (code ++ (0 ∷ []))) behind,
        ei,
        facts,
        ap (λ m. drop a (take m file)) (sym split)
            ∙ drop-take a n file
            ∙ ap (take n) ed
            ∙ take-append (code ++ (0 ∷ [])) behind n
                (omega (arith, split, room, length-append code (0 ∷ []))),
      )

  Chain-cut :
      (chunks : List (List ℕ)) (file : List ℕ) (address : Option ℕ) (last : ℕ)
      → Chain cobs laws file address chunks
      → ((a : ℕ) → address ≡ some a → a ≤ last)
      → Chain cobs laws
          (take (last + length (read_until_zero (drop last file))) file)
          address
          chunks
  Chain-cut [] file address last c below = c
  Chain-cut (ids ∷ older) file address last (current, old, e, b, c) below =
      let le = below current e in
      let (first, rest, behind, ei, facts, ed) = b in
      (
        current,
        old,
        e,
        BlockAt-cut file old current last ids le b,
        Chain-cut older file old last c (λ a ea. older_below old current last a facts.2 le ea),
      )
    where
      older_below :
          (old : Option ℕ) (current last a : ℕ)
          → IsBefore old current
          → current ≤ last
          → old ≡ some a
          → a ≤ last
      older_below none current last a before le e = absurd (cc)
      older_below (some b) current last a before le e =
          let same : b ≡ a = cc in omega (arith, before, le, same)

  -- The greatest address of the rows, and what it leads to.
  abbrev greatest : ℕ → List (ℕ × ℕ) → ℕ
  greatest address [] = address
  greatest address ((word, size) ∷ rows) = greatest (max address word) rows

  greatest-le : (address : ℕ) (rows : List (ℕ × ℕ)) → address ≤ greatest address rows
  greatest-le address [] = omega arith
  greatest-le address ((word, size) ∷ rows) = omega (arith, greatest-le (max address word) rows)

  last_address_step :
      (fuel n g address word size : ℕ) (rows : List (ℕ × ℕ))
      → n < trigram_range
      → last_address
          (suc fuel)
          (record { next_trigram = n; rows = (word, size) ∷ rows; generation = g })
          address
        ≡ last_address fuel
            (record { next_trigram = n + 1; rows = rows; generation = g })
            (max address word)
  unfolding last_address reader_next address_of_word
  last_address_step fuel n g address zero size rows h =
      let same : max address 0 ≡ address = omega arith in
      rw (lt→leb trigram_range n h, last_address, reader_next, same) refl
  last_address_step fuel n g address (suc word) size rows h =
      rw (lt→leb trigram_range n h, last_address, reader_next) refl

  last_address_end :
      (fuel g address : ℕ)
      → last_address
          (suc fuel)
          (record { next_trigram = trigram_range; rows = []; generation = g })
          address
        ≡ some address
  unfolding last_address reader_next
  last_address_end fuel g address = refl

  last_address-greatest :
      (rows : List (ℕ × ℕ)) (fuel n g address : ℕ)
      → length rows < fuel
      → n + length rows ≡ trigram_range
      → last_address fuel (record { next_trigram = n; rows = rows; generation = g }) address
        ≡ some (greatest address rows)
  last_address-greatest rows zero n g address short full = absurd (omega arith)
  last_address-greatest [] (suc fuel) n g address short full =
      let top : n ≡ trigram_range = omega (arith, full) in rw top (last_address_end fuel g address)
  last_address-greatest ((word, size) ∷ rows) (suc fuel) n g address short full =
      last_address_step fuel n g address word size rows (omega (arith, full))
      ∙ last_address-greatest rows fuel (n + 1) g (max address word) (omega (arith, short))
          (omega (arith, full))

  word_below : (word last a : ℕ) → word ≤ last → address_of_word word ≡ some a → a ≤ last
  unfolding address_of_word
  word_below zero last a le e = absurd (cc)
  word_below (suc w) last a le e = let same : suc w ≡ a = cc in omega (arith, same, le)

  word_block :
      (file : List ℕ) (word : ℕ) (chunks : List (List ℕ))
      → 0 < word
      → Chain cobs laws file (address_of_word word) chunks
      → (old : Option ℕ) × (ids : List ℕ) × BlockAt cobs laws file old word ids
  unfolding address_of_word
  word_block file zero chunks pos c = absurd (omega arith)
  word_block file (suc w) [] pos c = absurd (cc)
  word_block file (suc w) (ids ∷ older) pos (current, old, e, b, c) =
      let same : current ≡ suc w = cc in (old, ids, rw same at b)

  RowsOk-cut :
      (rows : List (ℕ × ℕ)) (file : List ℕ) (n address last : ℕ) (view : View)
      → greatest address rows ≤ last
      → RowsOk cobs laws file n rows view
      → RowsOk cobs laws (take (last + length (read_until_zero (drop last file))) file) n rows view
  RowsOk-cut [] file n address last view le held = tt
  RowsOk-cut ((word, size) ∷ rows) file n address last view le ((c, counted), held) = (
    (
      Chain-cut (view n) file (address_of_word word) last c (λ a e.
          word_below word last a (omega (arith, greatest-le (max address word) rows, le)) e),
      counted,
    ),
    RowsOk-cut rows file (n + 1) (max address word) last view le held,
  )

  -- The greatest address is the one that the search began with, or leads to a block.
  greatest-BlockAt :
      (rows : List (ℕ × ℕ)) (file : List ℕ) (n address : ℕ) (view : View)
      → RowsOk cobs laws file n rows view
      → (greatest address rows ≡ address)
        ⊎ ((old : Option ℕ) × (ids : List ℕ) × BlockAt cobs laws file old
              (greatest address rows)
              ids)
  greatest-BlockAt [] file n address view held = inl refl
  greatest-BlockAt ((word, size) ∷ rows) file n address view ((c, counted), held) =
      elim (greatest-BlockAt rows file (n + 1) (max address word) view held) [
        | inr found ↦ inr found
        | inl same ↦ elim (dec_le word address) [
          | yes low ↦ inl (omega (arith, same, low))
          | no high ↦
              let top : max address word ≡ word = omega (arith, high) in
              let (old, ids, b) = word_block file word (view n) (omega (arith, high)) c in
              inr (old, ids, subst (λ n. BlockAt cobs laws file old n ids) (sym (same ∙ top)) b)
        ]
      ]

  cut_behind-run :
      (address : ℕ) (file : List ℕ) (old : Option ℕ) (ids : List ℕ)
      → BlockAt cobs laws file old address ids
      → cut_behind cobs address file
        ≡ some (take (address + length (read_until_zero (drop address file))) file)
  unfolding cut_behind load_block_into
  cut_behind-run address file old ids (first, rest, behind, ei, facts, ed) =
      let loaded =
        load_block_into-plain cobs laws file behind old address first rest facts.0 facts.3 ed in
      rw (lt→ltb 0 address facts.1, loaded) refl

  cut_behind-none : (file : List ℕ) → cut_behind cobs 0 file ≡ some file
  unfolding cut_behind
  cut_behind-none file = refl

  -- What opening makes of the data file keeps the rows.
  Cut : List ℕ → List (ℕ × ℕ) → View → Type 0
  Cut file rows view =
      (file' : List ℕ) × (cut_behind cobs (greatest 0 rows) file ≡ some file')
      × (length file' ≤ length file)
      × RowsOk cobs laws file' 0 rows view

  length-take : (n : ℕ) (l : List ℕ) → length (take n l) ≤ length l
  length-take zero l = omega arith
  length-take (suc n) [] = omega arith
  length-take (suc n) (x ∷ l) = omega (arith, length-take n l)

  rows-Cut :
      (file : List ℕ) (rows : List (ℕ × ℕ)) (view : View)
      → RowsOk cobs laws file 0 rows view
      → Cut file rows view
  unfolding Cut
  rows-Cut file rows view held =
      let last = greatest 0 rows in
      elim (greatest-BlockAt rows file 0 0 view held) [
        | inl none_there ↦ (
          file,
          ap (λ a. cut_behind cobs a file) none_there ∙ cut_behind-none file,
          omega arith,
          held,
        )
        | inr (old, ids, b) ↦
            let end = last + length (read_until_zero (drop last file)) in
            (
              take end file,
              cut_behind-run last file old ids b,
              length-take end file,
              RowsOk-cut rows file 0 0 last view (omega arith) held,
            )
      ]

  open-run :
      (file file' : List ℕ) (tail : Tail) (address : ℕ)
      → 4 < length file
      → equal_bytes (take 4 file) header ≡ true
      → last_address (suc (length tail.rows)) (reader_open tail) 0 ≡ some address
      → cut_behind cobs address file ≡ some file'
      → open_journal cobs file tail ≡ some (record { running = true; file = file'; tail = tail })
  unfolding open_journal restore
  open-run file file' tail address long magic found cut =
      rw (lt→leb (length file) 4 long, magic, open_journal, restore, found, cut) refl

  -- Opening recovers a journal. When the data file of a well formed journal, which begins with the
  -- header and has more bytes than that, has any bytes behind it, as a batch leaves them that was cut
  -- off before its tail file was installed, then opening it succeeds, makes the data file no longer, and
  -- every trigram has the blocks that the tail file knew.
  pub open_journal-RowsOk :
      (j : Journal) (view : View) (more : List ℕ)
      → JournalOk cobs laws j view
      → 4 < length j.file
      → equal_bytes (take 4 j.file) header ≡ true
      → (j' : Journal) × (open_journal cobs (j.file ++ more) j.tail ≡ some j')
        × (j'.running ≡ true)
        × (j'.tail ≡ j.tail)
        × (length j'.file ≤ length (j.file ++ more))
        × RowsOk cobs laws j'.file 0 j.tail.rows view
  unfolding Cut reader_open
  open_journal-RowsOk j view more (pos, full, held) long magic =
      let file = j.file ++ more in
      let rows = j.tail.rows in
      let (file', cut, short, held') =
        rows-Cut file rows view (RowsOk-grow cobs laws j.file more 0 rows view held) in
      let found =
        last_address-greatest rows (suc (length rows)) 0 j.tail.generation 0 (omega arith)
          (omega (arith, full)) in
      (
        record { running = true; file = file'; tail = j.tail },
        open-run file file' j.tail (greatest 0 rows)
            (omega (arith, long, length-append j.file more)) (take_four j.file more long ∙ magic)
            found cut,
        refl,
        refl,
        short,
        held',
      )
