-- ===== src/Journal/Reader.antt =====
-- worker/journal.rs: the reader of one trigram gives what the blocks of the trigram hold.
use haunted_house.Common.{
  ℕ, zero, suc, ◌+◌, ◌*◌, ◌≤◌, ◌<◌, ◌≡◌, refl, ap, ◌∙◌, arith, List, [], ◌∷◌, ◌++◌, append_assoc,
  Option, none, some, Bool, true, false, length, length-append, length-drop, flat, lt→ltb,
}
use native.Mathlib.Nat.{suc-mul, mul-le-mul_right}
use haunted_house.Journal.Addresses.{word_of_address}
use haunted_house.Journal.Blocks.{Cobs}
use haunted_house.Journal.Chain.{CobsLaws, Chain, Chain-within, IsBefore, plain}
use haunted_house.Journal.Cursor.{
  CobsDecoder, BlockReader, TrigramCursor, block_read, read_more, cursor_new, open_next, load_batch,
  reader_loop, trigram_reader,
}
use haunted_house.Journal.Feed.{DecoderLaws}
use haunted_house.Journal.Progress.{code}
use haunted_house.Journal.Pieces.{Reading, read_more-Reading, read_more-over}
use haunted_house.Journal.Opening.{block_read-Reading}

rounds_suffice : (n size : ℕ) → n ≤ size → 0 + n * size + 2 ≤ (size + 2) * (size + 2)
rounds_suffice n size h = omega (arith, mul-le-mul_right size h)

module _ (cobs : Cobs) (laws : CobsLaws cobs) (d : CobsDecoder) (fed : DecoderLaws cobs d) where
  abbrev cursor : List ℕ → ℕ → Option (BlockReader d.State) → Bool → TrigramCursor d.State
  cursor values next br finished = record {
    values = values;
    finished = finished;
    next_address = next;
    block_reader = br;
  }

  -- The block that is under way: none, or what is left of one.
  abbrev UnderWay : List ℕ → ℕ → Option (BlockReader d.State) → List ℕ → Type 0
  UnderWay file n none l = (n ≡ 0) × (l ≡ [])
  UnderWay file n (some b) l =
      (start : ℕ) × (bytes : List ℕ) × Reading cobs d fed file start bytes n b l

  open_next-none :
      (file : List ℕ) (br : Option (BlockReader d.State))
      → open_next d file (cursor [] 0 br false) ≡ some (cursor [] 0 br true)
  unfolding open_next
  open_next-none file br = refl

  open_next-some :
      (file values : List ℕ) (current next : ℕ) (br : Option (BlockReader d.State))
      (b : BlockReader d.State)
      → 0 < current
      → block_read d file current [] ≡ some (b, values, next)
      → open_next d file (cursor [] current br false) ≡ some (cursor values next (some b) false)
  unfolding open_next
  open_next-some file values current next br b pos e = rw (lt→ltb 0 current pos, open_next, e) refl

  -- Opening the next block of a chain.
  open_next-Chain :
      (file ids : List ℕ) (older : List (List ℕ)) (address : Option ℕ)
      (br : Option (BlockReader d.State))
      → Chain cobs laws file address (ids ∷ older)
      → (old : Option ℕ) × (b : BlockReader d.State) × (m : ℕ) × (l1 : List ℕ) × (l2 : List ℕ)
        × (open_next d file (cursor [] (word_of_address address) br false)
            ≡ some (cursor l1 (word_of_address old) (some b) false))
        × (m < length file)
        × (ids ≡ l1 ++ l2)
        × UnderWay file m (some b) l2
        × Chain cobs laws file old older
  unfolding word_of_address
  open_next-Chain file ids older address br
        (current, old, ea, (first, rest, beyond, ei, facts, ed), c) =
      let bytes = plain old current first rest in
      let (b, m, l1, l2, run, less, er, going) =
        block_read-Reading cobs d fed file beyond [] rest old current first facts ed in
      (
        old,
        b,
        m,
        first ∷ l1,
        l2,
        rw ea (open_next-some file (first ∷ l1) current (word_of_address old) br b facts.1 run),
        omega (
          arith,
          less,
          ap length ed,
          length-append (code cobs d fed bytes) beyond,
          length-drop current file,
        ),
        ei ∙ ap (◌∷◌ first) er,
        (current, bytes, going),
        c,
      )

  -- The latest block of a chain lies behind as many bytes as there are blocks.
  Chain-count :
      (chunks : List (List ℕ)) (file : List ℕ) (address : Option ℕ)
      → Chain cobs laws file address chunks
      → length chunks ≤ word_of_address address
  unfolding word_of_address
  Chain-count [] file address c = omega arith
  Chain-count (ids ∷ older) file address
        (current, old, ea, (first, rest, beyond, ei, facts, ed), c) =
      rw ea (count_before old (length older) current facts.2 (Chain-count older file old c) facts.1)
    where
      count_before :
          (old : Option ℕ) (n current : ℕ)
          → IsBefore old current
          → n ≤ word_of_address old
          → 0 < current
          → suc n ≤ current
      count_before none n current before h pos = omega arith
      count_before (some a) n current before h pos = omega arith

  load_batch-none :
      (file : List ℕ) (next : ℕ)
      → load_batch d file (cursor [] next none false) ≡ open_next d file (cursor [] next none false)
  unfolding load_batch
  load_batch-none file next = refl

  load_batch-over :
      (file : List ℕ) (next : ℕ) (b : BlockReader d.State)
      → read_more d file b [] ≡ some (b, [], false)
      → load_batch d file (cursor [] next (some b) false)
        ≡ open_next d file (cursor [] next none false)
  unfolding load_batch
  load_batch-over file next b e = rw (e, load_batch) refl

  load_batch-more :
      (file values : List ℕ) (next : ℕ) (b b' : BlockReader d.State)
      → read_more d file b [] ≡ some (b', values, true)
      → load_batch d file (cursor [] next (some b) false)
        ≡ some (cursor values next (some b') false)
  unfolding load_batch
  load_batch-more file values next b b' e = rw (e, load_batch) refl

  loop_batch :
      (fuel next : ℕ) (file values sent : List ℕ) (br br' : Option (BlockReader d.State))
      (next' : ℕ) (finished : Bool)
      → load_batch d file (cursor [] next br false) ≡ some (cursor values next' br' finished)
      → reader_loop d (suc fuel) file (cursor [] next br false) sent
        ≡ reader_loop d fuel file (cursor [] next' br' finished) (sent ++ values)
  unfolding reader_loop
  loop_batch fuel next file values sent br br' next' finished e = rw (e, reader_loop) refl

  loop_end :
      (fuel next : ℕ) (file sent : List ℕ) (br : Option (BlockReader d.State))
      → reader_loop d (suc fuel) file (cursor [] next br true) sent ≡ (sent, true)
  unfolding reader_loop
  loop_end fuel next file sent br = refl

  -- With as many rounds as this the reader gives what it has left, and returns.
  abbrev Ends : ℕ → List ℕ → Type 0
  Ends fuel file =
      (n : ℕ) (chunks : List (List ℕ)) (sent l : List ℕ) (old : Option ℕ)
      (br : Option (BlockReader d.State))
      → Chain cobs laws file old chunks
      → UnderWay file n br l
      → n + length chunks * length file + 2 ≤ fuel
      → reader_loop d fuel file (cursor [] (word_of_address old) br false) sent
        ≡ (sent ++ (l ++ flat chunks), true)

  open_round :
      (fuel : ℕ) (chunks : List (List ℕ)) (file sent : List ℕ) (old : Option ℕ)
      (br : Option (BlockReader d.State))
      → load_batch d file (cursor [] (word_of_address old) br false)
        ≡ open_next d file (cursor [] (word_of_address old) none false)
      → Chain cobs laws file old chunks
      → length chunks * length file + 2 ≤ suc fuel
      → Ends fuel file
      → reader_loop d (suc fuel) file (cursor [] (word_of_address old) br false) sent
        ≡ (sent ++ flat chunks, true)
  unfolding word_of_address
  open_round zero chunks file sent old br e c enough ih = absurd (omega arith)
  open_round (suc fuel) [] file sent old br e c enough ih =
      loop_batch (suc fuel) (word_of_address old) file [] sent br none 0 true
        (e ∙ rw c (open_next-none file none))
      ∙ loop_end fuel 0 file (sent ++ []) none
  open_round (suc fuel) (ids ∷ older) file sent old br e c enough ih =
      let (old', b, m, l1, l2, run, less, ei, going, c') =
        open_next-Chain file ids older old none c in
      loop_batch (suc fuel) (word_of_address old) file l1 sent br (some b) (word_of_address old')
        false (e ∙ run)
      ∙ ih m older (sent ++ l1) l2 old' (some b) c' going
          (omega (arith, enough, less, suc-mul (length older) (length file)))
      ∙ rw (ei, append_assoc, append_assoc) refl

  reader_loop-Ends : (fuel : ℕ) (file : List ℕ) → Ends fuel file
  reader_loop-Ends zero file n chunks sent l old br c u enough = absurd (omega arith)
  reader_loop-Ends (suc fuel) file n chunks sent l old none c (en, el) enough = rw el (
      open_round fuel chunks file sent old none (load_batch-none file (word_of_address old)) c
        (omega (arith, enough)) (reader_loop-Ends fuel file))
  reader_loop-Ends (suc fuel) file zero chunks sent l old (some b) c (start, bytes, going) enough =
      let (el, run) = read_more-over cobs d fed file bytes [] l start b going in
      rw el (
        open_round fuel chunks file sent old (some b)
          (load_batch-over file (word_of_address old) b run) c (omega (arith, enough))
          (reader_loop-Ends fuel file))
  reader_loop-Ends (suc fuel) file (suc n) chunks sent l old (some b) c (start, bytes, going)
        enough =
      let (b', m, l1, l2, run, less, el, going') =
        read_more-Reading cobs d fed file bytes [] l start n b going in
      loop_batch fuel (word_of_address old) file l1 sent (some b) (some b') (word_of_address old)
        false (load_batch-more file l1 (word_of_address old) b b' run)
      ∙ reader_loop-Ends fuel file m chunks (sent ++ l1) l2 old (some b') c (start, bytes, going')
          (omega (arith, enough, less))
      ∙ rw (el, append_assoc, append_assoc) refl

  -- The reader of a trigram whose blocks are in the data file sends the ids of all of them, those of
  -- the latest block first and each block in order, and returns without an error.
  pub trigram_reader-Chain :
      (chunks : List (List ℕ)) (file : List ℕ) (address : Option ℕ)
      → Chain cobs laws file address chunks
      → trigram_reader d file (word_of_address address) ≡ (flat chunks, true)
  unfolding trigram_reader cursor_new word_of_address
  trigram_reader-Chain chunks file address c =
      reader_loop-Ends _ file 0 chunks [] [] address none c (refl, refl)
        (rounds_suffice (length chunks) (length file) (
          few address (length file) (length chunks) (Chain-count chunks file address c)
            (Chain-within cobs laws chunks file address c)))
    where
      few :
          (address : Option ℕ) (size n : ℕ)
          → n ≤ word_of_address address
          → IsBefore address size
          → n ≤ size
      few none size n h before = omega arith
      few (some a) size n h before = omega arith
