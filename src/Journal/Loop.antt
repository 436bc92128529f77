-- ===== src/Journal/Loop.antt =====
-- worker/journal.rs: the main loop of a batch.
use haunted_house.Common.{
  ℕ, ◌*◌, ◌-◌, zero, suc, ◌+◌, ◌≤◌, ◌<◌, ◌≡◌, refl, sym, ap, ◌∙◌, arith, List, [], ◌∷◌, ◌++◌,
  append_assoc, append-nil, Option, none, some, length, flat, length-append, subst,
}
use haunted_house.Encoding.{IsU64, add_u64}
use haunted_house.Journal.Blocks.{Cobs, encode_block_data}
use haunted_house.Journal.Bounds.{block_bound, room_step, encode_block_data-length}
use haunted_house.Journal.Chain.{CobsLaws}
use haunted_house.Journal.Addresses.{trigram_range, address_of_word, AddressReader, AddressBuilder}
use haunted_house.Journal.Collector.{IdCollector, collector_next}
use haunted_house.Journal.Merge.{Files, Carries}
use haunted_house.Journal.Choose.{holders}
use haunted_house.Journal.Left.{BatchOk}
use haunted_house.Journal.Collected.{Yields, holders-range, collector_next-Yields}
use haunted_house.Journal.Batch.{write_trigram, write_loop}
use haunted_house.Journal.Copy.{reader_at, builder_at}
use haunted_house.Journal.Table.{
  View, RowOk, RowsOk, RowsOk-append, RowsOk-split, RowsOk-same, RowsOk-grow,
}
use haunted_house.Journal.Written.{IdsOk, address_of-length, Chain-new, write_trigram-some}

-- The ids of a batch are one more block, unless there are none.
abbrev pub push_block : List ℕ → List (List ℕ) → List (List ℕ)
push_block [] chunks = chunks
push_block (id ∷ ids) chunks = (id ∷ ids) ∷ chunks

push_block-some :
    (ids : List ℕ) (chunks : List (List ℕ)) → 0 < length ids → push_block ids chunks ≡ ids ∷ chunks
push_block-some [] chunks h = absurd (omega arith)
push_block-some (id ∷ ids) chunks h = refl

-- The ids that the batch still has are fit for a block, and at most `q` for each trigram.
abbrev pub HoldersOk : ℕ → ℕ → Files → Type 0
HoldersOk q n files =
    (x : ℕ)
    → n ≤ x
    → 0 < length (holders x files)
    → IdsOk (holders x files) × (length (holders x files) ≤ q)

pub grown :
    (file block more : List ℕ) (file' : List ℕ)
    → file' ≡ (file ++ block) ++ more
    → file' ≡ file ++ (block ++ more)
grown file block more file' e = e ∙ append_assoc file block more

shorter :
    (file block more : List ℕ) (file' : List ℕ)
    → file' ≡ (file ++ block) ++ more
    → IsU64 (length file')
    → IsU64 (length file)
shorter file block more file' e u =
    omega (arith, ap length e, length-append (file ++ block) more, length-append file block)

module _ (cobs : Cobs) (laws : CobsLaws cobs) where
  RowOk-new :
      (file block ids : List ℕ) (w size : ℕ) (chunks : List (List ℕ))
      → 0 < length file
      → IsU64 (length file)
      → IdsOk ids
      → encode_block_data cobs (address_of_word w) (length file) ids ≡ some block
      → RowOk cobs laws file (w, size) chunks
      → RowOk cobs laws (file ++ block) (length file, add_u64 size (length ids)) (ids ∷ chunks)
  RowOk-new file block ids w size chunks pos u ok e (c, s) = (
    rw (address_of-length (length file) pos)
        (Chain-new cobs laws file block (address_of_word w) ids chunks pos u ok e c),
    omega (arith, s, length-append ids (flat chunks)),
  )

  -- What the loop leaves of reader and builder: at some row, and all rows right for the new view.
  abbrev pub LoopOk :
      ℕ
      → ℕ
      → List ℕ
      → List (ℕ × ℕ)
      → List (ℕ × ℕ)
      → View
      → View
      → ℕ
      → Files
      → Option (List ℕ × AddressReader × AddressBuilder)
      → Type 0
  LoopOk q n file copied rows view view' g files result =
      (file' : List ℕ) × (more : List ℕ) × (m : ℕ) × (rest : List (ℕ × ℕ)) × (copied' : List
        (ℕ × ℕ))
      × (result ≡ some (file', reader_at m rest g, builder_at m copied'))
      × (file' ≡ file ++ more)
      × (m + length rest ≡ trigram_range)
      × (length copied' ≡ m)
      × (length more ≤ block_bound q * (trigram_range - n))
      × (IsU64 (length file')
          → 0 < length file
          → RowsOk cobs laws file 0 copied view'
          → RowsOk cobs laws file n rows view
          → RowsOk cobs laws file' 0 (copied' ++ rest) view')

  -- What holds of the loop with the given fuel, from every state.
  abbrev LoopHolds : ℕ → Type 0
  LoopHolds fuel =
      (q n g : ℕ) (c : IdCollector) (files : Files) (hits file : List ℕ)
      (rows copied : List (ℕ × ℕ)) (view view' : View)
      → Carries c.iterators files
      → BatchOk files
      → HoldersOk q n files
      → c.acceptable ≡ n
      → n + length rows ≡ trigram_range
      → length rows < fuel
      → length copied ≡ n
      → ((x : ℕ) → n ≤ x → view' x ≡ push_block (holders x files) (view x))
      → LoopOk q n file copied rows view view' g files
          (write_loop cobs fuel c hits file (reader_at n rows g) (builder_at n copied))

  -- The rows up to and with the one of `t`, after its block was written.
  RowsOk-written :
      (n t w size : ℕ) (file block ids : List ℕ) (passed rest copied : List (ℕ × ℕ))
      (view view' : View)
      → n + length passed ≡ t
      → length copied ≡ n
      → ((x : ℕ) → n ≤ x → x < t → view' x ≡ view x)
      → view' t ≡ ids ∷ view t
      → IdsOk ids
      → encode_block_data cobs (address_of_word w) (length file) ids ≡ some block
      → 0 < length file
      → IsU64 (length file)
      → RowsOk cobs laws file 0 copied view'
      → RowsOk cobs laws file n (passed ++ ((w, size) ∷ rest)) view
      → RowsOk cobs laws
          (file ++ block)
          0
          ((copied ++ passed) ++ ((length file, add_u64 size (length ids)) ∷ []))
          view'
        × RowsOk cobs laws (file ++ block) (t + 1) rest view
  RowsOk-written n t w size file block ids passed rest copied view view' hp hc same here ok e pos u
        done todo =
      let (skipped, (row, behind)) =
        RowsOk-split cobs laws file n t passed ((w, size) ∷ rest) view hp todo in
      let kept =
        RowsOk-same cobs laws file n passed view view' (λ x le lt. same x le (omega arith))
          skipped in
      let front = RowsOk-append cobs laws file 0 n copied passed view' (omega arith) done kept in
      let new : RowOk cobs laws (file ++ block) (length file, add_u64 size (length ids)) (view' t) =
        rw here (RowOk-new file block ids w size (view t) pos u ok e row) in
      (
        RowsOk-append cobs laws (file ++ block) 0 t (copied ++ passed) _ view'
            (omega (arith, length-append copied passed))
            (RowsOk-grow cobs laws file block 0 (copied ++ passed) view' front) (new, tt),
        RowsOk-grow cobs laws file block (t + 1) rest view behind,
      )

  loop_step :
      (fuel q n g : ℕ) (y : IdCollector × List ℕ × Option ℕ) (files : Files) (file : List ℕ)
      (rows copied : List (ℕ × ℕ)) (view view' : View)
      → Yields n files y
      → BatchOk files
      → HoldersOk q n files
      → n + length rows ≡ trigram_range
      → length rows < suc fuel
      → length copied ≡ n
      → ((x : ℕ) → n ≤ x → view' x ≡ push_block (holders x files) (view x))
      → LoopHolds fuel
      → LoopOk q n file copied rows view view' g files (elim y.2 [
        | none ↦ some (file, reader_at n rows g, builder_at n copied)
        | some trigram ↦
            elim (write_trigram cobs trigram y.1 file (reader_at n rows g) (builder_at n copied)) [
              | none ↦ none
              | some (file', r', b') ↦ write_loop cobs fuel y.0 y.1 file' r' b'
            ]
      ])
  loop_step fuel q n g (c, hits, none) files file rows copied view view' nothing ok hok h f l agree
        rest_holds =
      let same : (x : ℕ) → n ≤ x → view' x ≡ view x = λ x le. agree x le ∙ rw (nothing x le) refl in
      (
        file,
        [],
        n,
        rows,
        copied,
        refl,
        sym (append-nil file),
        h,
        l,
        omega arith,
        λ u pos done todo.
            RowsOk-append cobs laws file 0 n copied rows view' (omega arith) done
              (RowsOk-same cobs laws file n rows view view' (λ x le lt. same x le) todo),
      )
  loop_step fuel q n g (c, hits, some t) files file rows copied view view'
        ((from, held, found), below, ea, (files', carries', ok', same')) ok hok h f l agree
        rest_holds =
      let range : t < trigram_range = holders-range t files ok.0 (rw held at found) in
      let (ids_ok, few) : IdsOk hits × (length hits ≤ q) =
        rw held (hok t from (rw held at found)) in
      let (passed, w, size, rest, block, e, er, el, eb) =
        write_trigram-some cobs laws n t g hits file rows copied h from range ids_ok in
      let sizes = length-append passed ((w, size) ∷ rest) in
      let rows_size = ap length er in
      let copied' = (copied ++ passed) ++ ((length file, add_u64 size (length hits)) ∷ []) in
      let (file', more, m, rest', done', e', ef, em, el', room, good) =
        rest_holds q (t + 1) g c files' hits (file ++ block) rest copied' view view' carries' ok'
          (λ x le p.
            rw (same' x (omega arith)) (hok x (omega arith) (rw (same' x (omega arith)) at p)))
          ea (omega arith) (omega arith)
          (omega (
            arith,
            length-append (copied ++ passed) ((length file, add_u64 size (length hits)) ∷ []),
            length-append copied passed,
          ))
          (λ x le. agree x (omega arith) ∙ rw (same' x (omega arith)) refl) in
      (
        file',
        block ++ more,
        m,
        rest',
        done',
        rw e e',
        grown file block more file' ef,
        em,
        el',
        room_step q n t (length block) (length more) (block ++ more) from range
            (encode_block_data-length cobs laws (address_of_word w) (length file) q hits block
              ids_ok few eb)
            room (length-append block more),
        λ u pos done todo.
            let both =
              RowsOk-written n t w size file block hits passed rest copied view view' el l
                (λ x le lt. agree x le ∙ rw (below x le lt) refl)
                (agree t from ∙ rw (sym held) (push_block-some hits (view t) found)) ids_ok eb pos
                (shorter file block more file' ef u) done (rw er at todo) in
            good u (omega (arith, length-append file block)) both.0 both.1,
      )

  pub write_loop-LoopOk : (fuel : ℕ) → LoopHolds fuel
  unfolding write_loop
  write_loop-LoopOk zero q n g c files hits file rows copied view view' carries ok hok ea h f l
        agree =
      absurd (omega arith)
  write_loop-LoopOk (suc fuel) q n g c files hits file rows copied view view' carries ok hok ea h f
        l agree =
      loop_step fuel q n g (collector_next c hits) files file rows copied view view'
        (subst (λ a. Yields a files (collector_next c hits)) ea
          (collector_next-Yields c files hits carries ok))
        ok hok h f l agree (write_loop-LoopOk fuel)
