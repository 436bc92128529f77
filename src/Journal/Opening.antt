-- ===== src/Journal/Opening.antt =====
-- worker/journal.rs: opening a block, whose first piece holds its header.
use haunted_house.Common.{
  ℕ, suc, ◌+◌, ◌-◌, ◌%◌, ◌^◌, ◌≤◌, ◌<◌, ◌≡◌, refl, sym, ap, ◌∙◌, arith, List, [], ◌∷◌, ◌++◌,
  append_assoc, Option, none, some, Bool, true, drop, length, length-append, drop-length-append,
  ◌==◌, if◌then◌else◌, ◌⊎◌, inl, inr,
}
use haunted_house.Encoding.{IsU64, sub_u64, try_decode_value}
use haunted_house.Encoding.Varint.{varint, varint_shape}
use haunted_house.Encoding.Sequence.{gaps, fall, Falling}
use haunted_house.Journal.Blocks.{Cobs, address_offset}
use haunted_house.Journal.Addresses.{word_of_address}
use haunted_house.Journal.Chain.{plain, offset-IsU64, IsBefore}
use haunted_house.Journal.Cursor.{
  CobsDecoder, CobsReader, BlockReader, feed_bytes, read_values, read_bytes, cobs_new, cobs_read,
  block_read,
}
use haunted_house.Journal.Progress.{code, Progress, cobs_read-Progress}
use haunted_house.Journal.Feed.{DecoderLaws, cut_cases, drop-add}
use haunted_house.Journal.Pieces.{Reading, try_decode_value-varint, read_values-gaps, tail_over}

header_cut :
    (offset first : ℕ) (o tail beyond : List ℕ)
    → IsU64 offset
    → IsU64 first
    → (tail ≡ []) ⊎ (20 ≤ length o)
    → o ++ tail ≡ varint offset ++ (varint first ++ beyond)
    → (more : List ℕ) × (o ≡ varint offset ++ (varint first ++ more)) × (more ++ tail ≡ beyond)
header_cut offset first o tail beyond ho hf enough e =
    let v = varint offset in
    let w = varint first in
    elim (cut_cases o tail (v ++ w) beyond (e ∙ sym (append_assoc v w beyond))) [
      | inl (more, eo, eb) ↦ (more, eo ∙ append_assoc v w more, sym eb)
      | inr (z, back, ev, et) ↦ elim enough [
        | inl none_left ↦ absurd (cc)
        | inr long ↦ absurd (
            omega (
              arith,
              (varint_shape offset ho).1,
              (varint_shape first hf).1,
              ap length ev,
              length-append v w,
              length-append o (z ∷ back),
              long,
            ))
      ]
    ]

module _ (cobs : Cobs) (d : CobsDecoder) (laws : DecoderLaws cobs d) where
  block_read-run :
      (file output buffer buffer' output' : List ℕ) (address offset first y n m : ℕ) (c : Bool)
      (r : CobsReader d.State)
      → cobs_read d file (cobs_new d address) [] ≡ some (r, buffer, c)
      → try_decode_value buffer ≡ some (offset, n)
      → try_decode_value (drop n buffer) ≡ some (first, m)
      → read_bytes (n + m) first buffer (output ++ (first ∷ [])) ≡ (buffer', y, output')
      → block_read d file address output
        ≡ some (
          record { cobs_reader = r; buffer = buffer'; last_value = y },
          output',
          if offset == 0 then offset else sub_u64 address offset,
        )
  unfolding block_read
  block_read-run file output buffer buffer' output' address offset first y n m c r e f g h =
      rw (e, block_read, f, g, h) refl

  snoc_cons : (l : List ℕ) (z : ℕ) → (x : ℕ) × (back : List ℕ) × (l ++ (z ∷ []) ≡ x ∷ back)
  snoc_cons [] z = (z, [], refl)
  snoc_cons (x ∷ l) z = (x, l ++ (z ∷ []), refl)

  new-Progress :
      (start : ℕ) (bytes : List ℕ)
      → (n : ℕ) × (suc n ≡ length (code cobs d laws bytes))
        × Progress cobs d laws start bytes (suc n) (cobs_new d start) [] bytes
  unfolding cobs_new feed_bytes
  new-Progress start bytes =
      let (x, back, e) = snoc_cons (cobs.encode bytes) 0 in
      (
        length back,
        omega (arith, ap length e),
        ([], x, back, refl, e, refl, omega arith, refl, refl),
      )

  next_word :
      (old : Option ℕ) (address : ℕ)
      → IsU64 address
      → IsBefore old address
      → (let offset = address_offset old address in
          (if offset == 0 then offset else sub_u64 address offset) ≡ word_of_address old)
  unfolding address_offset word_of_address
  next_word none address h before = refl
  next_word (some old) address h before =
      let exact : (address + 2 ^ 64 - old) % 2 ^ 64 ≡ address - old = omega arith in
      let back : (address + 2 ^ 64 - (address - old)) % 2 ^ 64 ≡ old = omega arith in
      rw exact (ground (arith, back))

  -- Opening a block gives its first values, and the address of the block before.
  pub block_read-Reading :
      (file beyond output rest : List ℕ) (old : Option ℕ) (address first : ℕ)
      → IsU64 address × (0 < address) × IsBefore old address × IsU64 first × Falling first rest
      → (let bytes = plain old address first rest in
          drop address file ≡ code cobs d laws bytes ++ beyond
          → (b : BlockReader d.State) × (m : ℕ) × (l1 : List ℕ) × (l2 : List ℕ) × (block_read d file
                address output
              ≡ some (b, output ++ (first ∷ l1), word_of_address old))
            × (m < length (code cobs d laws bytes))
            × (rest ≡ l1 ++ l2)
            × Reading cobs d laws file address bytes m b l2)
  unfolding read_bytes
  block_read-Reading file beyond output rest old address first (ha, pos, before, hf, f) ed =
      let offset = address_offset old address in
      let bytes = plain old address first rest in
      let (n, en, prog) = new-Progress address bytes in
      let (r, o, tail, m, run, less, et, prog', enough) =
        cobs_read-Progress cobs d laws bytes file beyond [] [] bytes address n (cobs_new d address)
          ed prog in
      let ho = offset-IsU64 old address in
      let (more, eo, em) =
        header_cut offset first o tail (gaps fall first rest) ho hf enough (sym et) in
      let (buffer', y, l1, l2, er, el, eg, facts, done) =
        read_values-gaps rest more tail (output ++ (first ∷ [])) (suc (length o)) first hf f
          (omega (
            arith,
            ap length eo,
            length-append (varint offset) (varint first ++ more),
            length-append (varint first) more,
          ))
          em in
      let v = varint offset in
      let w = varint first in
      let at : drop (length v) o ≡ w ++ more =
        ap (drop (length v)) eo ∙ drop-length-append v (w ++ more) in
      let past : drop (length v + length w) o ≡ more =
        drop-add (length v) (length w) o ∙ ap (drop (length w)) at ∙ drop-length-append w more in
      let b : BlockReader d.State = record { cobs_reader = r; buffer = buffer'; last_value = y } in
      (
        b,
        m,
        l1,
        l2,
        block_read-run file output o buffer' (output ++ (first ∷ l1)) address offset first y
              (length v) (length w) true r run
              (ap try_decode_value eo ∙ try_decode_value-varint offset (w ++ more) ho)
              (ap try_decode_value at ∙ try_decode_value-varint first more hf)
              (ap (λ t. read_values (suc (length o)) t first (output ++ (first ∷ []))) past
                ∙ er
                ∙ rw append_assoc refl)
            ∙ ap (λ n. some (b, output ++ (first ∷ l1), n)) (next_word old address ha before),
        omega (arith, less, en),
        el,
        (
          beyond,
          o,
          tail,
          ed,
          prog',
          eg,
          facts,
          λ e. done (tail_over cobs d laws address m bytes o tail r prog' e),
        ),
      )
