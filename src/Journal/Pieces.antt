-- ===== src/Journal/Pieces.antt =====
-- worker/journal.rs: the values of a block, out of the pieces of its data.
use haunted_house.Common.{
  ℕ, zero, suc, ◌<◌, ◌≡◌, refl, sym, ap, ◌∙◌, arith, List, [], ◌∷◌, ◌++◌, append_assoc, append-nil,
  none, some, true, false, drop, length, length-append, drop-length-append, inl, inr,
}
use haunted_house.Encoding.{IsU64, sub_u64, add_u64, try_decode_value}
use haunted_house.Encoding.Varint.{behind, varint, encode_value_into-varint}
use haunted_house.Encoding.Read.{try_decode_value-encode_value_into}
use haunted_house.Encoding.Prefix.{try_decode_value_prefix}
use haunted_house.Encoding.Sequence.{gaps, fall, Falling}
use haunted_house.Journal.Blocks.{Cobs}
use haunted_house.Journal.Cursor.{
  CobsDecoder, CobsReader, BlockReader, read_values, read_bytes, cobs_read, read_more,
}
use haunted_house.Journal.Progress.{code, Progress, cobs_read-Progress}
use haunted_house.Journal.Feed.{DecoderLaws, cut_cases}

pub try_decode_value-varint :
    (v : ℕ) (rest : List ℕ)
    → IsU64 v
    → try_decode_value (varint v ++ rest) ≡ some (v, length (varint v))
try_decode_value-varint v rest h =
    rw (encode_value_into-varint v [] h) at (try_decode_value-encode_value_into v rest h)

try_decode_value-part :
    (v x : ℕ) (front back : List ℕ)
    → IsU64 v
    → varint v ≡ front ++ (x ∷ back)
    → try_decode_value front ≡ none
try_decode_value-part v x front back h e =
    try_decode_value_prefix v x front back h (encode_value_into-varint v [] h ∙ e)

-- What a run over a buffer leaves, when the data goes on behind the buffer: it has the values up to
-- some point, and all of them if no data follows.
abbrev pub Went : ℕ → List ℕ → List ℕ → List ℕ × ℕ × List ℕ → List ℕ → Type 0
Went x l tail result output =
    (buffer' : List ℕ) × (y : ℕ) × (l1 : List ℕ) × (l2 : List ℕ) × (result
      ≡ (buffer', y, output ++ l1))
    × (l ≡ l1 ++ l2)
    × (buffer' ++ tail ≡ gaps fall y l2)
    × (IsU64 y × Falling y l2)
    × (tail ≡ [] → l2 ≡ [])

try_decode_value-nil : try_decode_value [] ≡ none
unfolding behind
try_decode_value-nil = try_decode_value-part 0 0 [] [] (omega arith) refl

read_values_found :
    (fuel x y v n : ℕ) (buffer output : List ℕ)
    → try_decode_value buffer ≡ some (v, n)
    → sub_u64 x (add_u64 v 1) ≡ y
    → read_values (suc fuel) buffer x output
      ≡ read_values fuel (drop n buffer) y (output ++ (y ∷ []))
unfolding read_values
read_values_found fuel x y v n buffer output e back = rw (read_values, e, back) refl

read_values_step :
    (fuel x y : ℕ) (more output : List ℕ)
    → IsU64 x
    → y < x
    → read_values (suc fuel) (varint (fall x y) ++ more) x output
      ≡ read_values fuel more y (output ++ (y ∷ []))
read_values_step fuel x y more output hx lt =
    let v = varint (fall x y) in
    read_values_found fuel x y (fall x y) (length v) (v ++ more) output
      (try_decode_value-varint (fall x y) more (omega arith)) (omega arith)
    ∙ ap (λ b. read_values fuel b y (output ++ (y ∷ []))) (drop-length-append v more)

read_values_stop :
    (fuel x : ℕ) (buffer output : List ℕ)
    → try_decode_value buffer ≡ none
    → read_values fuel buffer x output ≡ (buffer, x, output)
unfolding read_values
read_values_stop zero x buffer output e = refl
read_values_stop (suc fuel) x buffer output e = rw (e, read_values) refl

pub read_values-gaps :
    (l buffer tail output : List ℕ) (fuel x : ℕ)
    → IsU64 x
    → Falling x l
    → length buffer < fuel
    → buffer ++ tail ≡ gaps fall x l
    → Went x l tail (read_values fuel buffer x output) output
unfolding gaps
read_values-gaps l buffer tail output zero x hx f short e = absurd (omega arith)
read_values-gaps [] [] tail output (suc fuel) x hx f short e = (
  [],
  x,
  [],
  [],
  read_values_stop (suc fuel) x [] output try_decode_value-nil ∙ rw (append-nil output) refl,
  refl,
  e,
  (hx, tt),
  λ t. refl,
)
read_values-gaps [] (b ∷ buffer) tail output (suc fuel) x hx f short e = absurd (cc e)
read_values-gaps (y ∷ rest) buffer tail output (suc fuel) x hx f short e =
    elim (cut_cases buffer tail (varint (fall x y)) (gaps fall y rest) e) [
      | inl (more, eb, eg) ↦
          let (buffer', z, l1, l2, er, el, et, facts, done) =
            read_values-gaps rest more tail (output ++ (y ∷ [])) fuel y (omega arith) f.1
              (omega (arith, ap length eb, length-append (varint (fall x y)) more)) (sym eg) in
          (
            buffer',
            z,
            y ∷ l1,
            l2,
            rw eb (read_values_step fuel x y more output hx f.0 ∙ er ∙ rw append_assoc refl),
            ap (◌∷◌ y) el,
            et,
            facts,
            done,
          )
      | inr (z, back, ev, et) ↦ (
        buffer,
        x,
        [],
        y ∷ rest,
        read_values_stop (suc fuel) x buffer output
              (try_decode_value-part (fall x y) z buffer back (omega arith) ev)
            ∙ rw (append-nil output) refl,
        refl,
        e,
        (hx, f),
        λ t. absurd (cc),
      )
    ]

module _ (cobs : Cobs) (d : CobsDecoder) (laws : DecoderLaws cobs d) where
  -- A reader in a block, and the values of the block that it has not given yet.
  abbrev pub Reading : List ℕ → ℕ → List ℕ → ℕ → BlockReader d.State → List ℕ → Type 0
  Reading file start bytes n b l =
      (beyond : List ℕ) × (out : List ℕ) × (tail : List ℕ) × (drop start file
        ≡ code cobs d laws bytes ++ beyond)
      × Progress cobs d laws start bytes n b.cobs_reader out tail
      × (b.buffer ++ tail ≡ gaps fall b.last_value l)
      × (IsU64 b.last_value × Falling b.last_value l)
      × (n ≡ 0 → l ≡ [])

  pub tail_over :
      (start n : ℕ) (bytes out tail : List ℕ) (r : CobsReader d.State)
      → Progress cobs d laws start bytes n r out tail
      → n ≡ 0
      → tail ≡ []
  tail_over start zero bytes out tail r p e = p.1
  tail_over start (suc n) bytes out tail r p e = absurd (omega arith)

  read_more-run :
      (file output buffer buffer' output' : List ℕ) (b : BlockReader d.State)
      (r : CobsReader d.State) (y : ℕ)
      → cobs_read d file b.cobs_reader b.buffer ≡ some (r, buffer, true)
      → read_bytes 0 b.last_value buffer output ≡ (buffer', y, output')
      → read_more d file b output
        ≡ some (record { cobs_reader = r; buffer = buffer'; last_value = y }, output', true)
  unfolding read_more
  read_more-run file output buffer buffer' output' b r y e f = rw (e, read_more, f) refl

  -- A block that is under way gives the next of its values.
  pub read_more-Reading :
      (file bytes output l : List ℕ) (start n : ℕ) (b : BlockReader d.State)
      → Reading file start bytes (suc n) b l
      → (b' : BlockReader d.State) × (m : ℕ) × (l1 : List ℕ) × (l2 : List ℕ) × (read_more d file b
            output
          ≡ some (b', output ++ l1, true))
        × (m < suc n)
        × (l ≡ l1 ++ l2)
        × Reading file start bytes m b' l2
  unfolding read_bytes
  read_more-Reading file bytes output l start n b
        (beyond, out, tail, ed, prog, eg, (hy, hf), over) =
      let (r, o, tail', m, run, less, et, prog', enough) =
        cobs_read-Progress cobs d laws bytes file beyond b.buffer out tail start n b.cobs_reader ed
          prog in
      let buffer = b.buffer ++ o in
      let (buffer', y, l1, l2, er, el, eg', facts, done) =
        read_values-gaps l buffer tail' output (suc (length buffer)) b.last_value hy hf
          (omega arith) (append_assoc b.buffer o tail' ∙ ap (λ t. b.buffer ++ t) (sym et) ∙ eg) in
      (
        record { cobs_reader = r; buffer = buffer'; last_value = y },
        m,
        l1,
        l2,
        read_more-run file output buffer buffer' (output ++ l1) b r y run er,
        less,
        el,
        (
          beyond,
          out ++ o,
          tail',
          ed,
          prog',
          eg',
          facts,
          λ e. done (tail_over start m bytes (out ++ o) tail' r prog' e),
        ),
      )

  cobs_read-finished :
      (file buffer : List ℕ) (r : CobsReader d.State)
      → r.finished ≡ true
      → cobs_read d file r buffer ≡ some (r, buffer, false)
  unfolding cobs_read
  cobs_read-finished file buffer r e = rw e refl

  read_more-finished :
      (file output : List ℕ) (b : BlockReader d.State)
      → cobs_read d file b.cobs_reader b.buffer ≡ some (b.cobs_reader, b.buffer, false)
      → read_more d file b output ≡ some (b, output, false)
  unfolding read_more
  read_more-finished file output b e = rw (e, read_more) refl

  -- A block that is over gives nothing more.
  pub read_more-over :
      (file bytes output l : List ℕ) (start : ℕ) (b : BlockReader d.State)
      → Reading file start bytes 0 b l
      → (l ≡ []) × (read_more d file b output ≡ some (b, output, false))
  read_more-over file bytes output l start b (beyond, out, tail, ed, prog, eg, facts, over) = (
    over refl,
    read_more-finished file output b (cobs_read-finished file b.buffer b.cobs_reader prog.0),
  )
