-- ===== src/Journal/Cursor.antt =====
-- worker/journal.rs: the reader of one trigram, which decodes its blocks while it reads the data
-- file in pieces. A file is a list of bytes that does not change meanwhile, and a read gives as many
-- bytes as the buffer and the file allow. An offset in a file is no u64 that wraps around.
use haunted_house.Common.{
  ℕ, zero, suc, ◌+◌, ◌*◌, ◌^◌, List, [], ◌∷◌, ◌++◌, Option, none, some, Bool, true, false, take,
  drop, length, ltb, ◌==◌, if◌then◌else◌,
}
use haunted_house.Encoding.{add_u64, sub_u64, try_decode_value}

-- DecodeResult of the crate cobs.
pub data Fed : Type 0 where
  data_start : Fed
  no_data : Fed
  data_complete : Fed
  data_continue : ℕ → Fed

-- DecoderState of the crate cobs: the state after a byte, and what the byte gave; `none` is the
-- error of corrupt data.
pub record CobsDecoder : Type 1 where
  pub State : Type 0
  pub idle : State
  pub feed : State → ℕ → Option (State × Fed)

abbrev pub read_size : ℕ
read_size = 2 ^ 13

pub record CobsReader (S : Type 0) : Type 0 where
  pub address : ℕ
  pub decoder : S
  pub finished : Bool

pub record BlockReader (S : Type 0) : Type 0 where
  pub cobs_reader : CobsReader S
  pub buffer : List ℕ
  pub last_value : ℕ

pub record TrigramCursor (S : Type 0) : Type 0 where
  pub values : List ℕ
  pub finished : Bool
  pub next_address : ℕ
  pub block_reader : Option (BlockReader S)

-- The loop of read_bytes over the rest of the buffer: what stays of it, the last value and the
-- output. Fuel: each value takes a byte.
unfoldable pub read_values : ℕ → List ℕ → ℕ → List ℕ → List ℕ × ℕ × List ℕ
read_values zero buffer last_value output = (buffer, last_value, output)
read_values (suc fuel) buffer last_value output = elim (try_decode_value buffer) [
  | none ↦ (buffer, last_value, output)
  | some (value, bytes_read) ↦
      let value' = sub_u64 last_value (add_u64 value 1) in
      read_values fuel (drop bytes_read buffer) value' (output ++ (value' ∷ []))
]

-- BlockReader::read_bytes; what is left behind the cursor is moved to the front of the buffer.
unfoldable pub read_bytes : ℕ → ℕ → List ℕ → List ℕ → List ℕ × ℕ × List ℕ
read_bytes cursor last_value buffer output =
    read_values (suc (length buffer)) (drop cursor buffer) last_value output

module _ (d : CobsDecoder) where
  -- The loop of CobsReader::read over the bytes that were read. The flag says that the data is
  -- complete.
  unfoldable pub feed_bytes : d.State → List ℕ → List ℕ → Option (d.State × List ℕ × Bool)
  feed_bytes s [] output = some (s, output, false)
  feed_bytes s (byte ∷ bytes) output = elim (d.feed s byte) [
    | none ↦ none
    | some (s', data_start) ↦ feed_bytes s' bytes output
    | some (s', no_data) ↦ feed_bytes s' bytes output
    | some (s', data_complete) ↦ some (s', output, true)
    | some (s', data_continue out) ↦ feed_bytes s' bytes (output ++ (out ∷ []))
  ]

  unfoldable pub cobs_new : ℕ → CobsReader d.State
  cobs_new address = record { address = address; decoder = d.idle; finished = false }

  -- CobsReader::read of a piece of the file that is not empty.
  unfoldable pub cobs_feed :
      CobsReader d.State → List ℕ → List ℕ → Option (CobsReader d.State × List ℕ × Bool)
  cobs_feed r piece output = elim (feed_bytes r.decoder piece output) [
    | none ↦ none
    | some (s, output', complete) ↦ some (
      record { address = r.address + length piece; decoder = s; finished = complete },
      output',
      true,
    )
  ]

  -- CobsReader::read
  unfoldable pub cobs_read :
      List ℕ → CobsReader d.State → List ℕ → Option (CobsReader d.State × List ℕ × Bool)
  cobs_read file r output =
      let piece = take read_size (drop r.address file) in
      let read : Option (CobsReader d.State × List ℕ × Bool) =
        if length piece == 0
        then some (record r { finished = true }, output, false)
        else cobs_feed r piece output in
      if r.finished then some (r, output, false) else read

  -- BlockReader::read: the reader, the values with those of the block so far, and the address of the
  -- block before, 0 where there is none.
  unfoldable pub block_read : List ℕ → ℕ → List ℕ → Option (BlockReader d.State × List ℕ × ℕ)
  block_read file address output = elim (cobs_read file (cobs_new address) []) [
    | none ↦ none
    | some (r, buffer, more) ↦ elim (try_decode_value buffer) [
      | none ↦ none
      | some (offset, offset_len) ↦ elim (try_decode_value (drop offset_len buffer)) [
        | none ↦ none
        | some (first_id, id_len) ↦
            let (buffer', last_value, output') =
              read_bytes (offset_len + id_len) first_id buffer (output ++ (first_id ∷ [])) in
            some (
              record { cobs_reader = r; buffer = buffer'; last_value = last_value },
              output',
              if offset == 0 then offset else sub_u64 address offset,
            )
      ]
    ]
  ]

  -- BlockReader::read_more
  unfoldable pub read_more :
      List ℕ → BlockReader d.State → List ℕ → Option (BlockReader d.State × List ℕ × Bool)
  read_more file b output = elim (cobs_read file b.cobs_reader b.buffer) [
    | none ↦ none
    | some (r, buffer, false) ↦
        some (record { cobs_reader = r; buffer = buffer; last_value = b.last_value }, output, false)
    | some (r, buffer, true) ↦
        let (buffer', last_value, output') = read_bytes 0 b.last_value buffer output in
        some (record { cobs_reader = r; buffer = buffer'; last_value = last_value }, output', true)
  ]

  unfoldable pub cursor_new : ℕ → TrigramCursor d.State
  cursor_new address = record {
    values = [];
    finished = false;
    next_address = address;
    block_reader = none;
  }

  -- TrigramCursor::load_batch once no block is under way.
  unfoldable pub open_next : List ℕ → TrigramCursor d.State → Option (TrigramCursor d.State)
  open_next file c =
      let opened : Option (TrigramCursor d.State) = elim (block_read file c.next_address c.values) [
        | none ↦ none
        | some (b, values, next) ↦ some (record {
          values = values;
          finished = c.finished;
          next_address = next;
          block_reader = some b;
        })
      ] in
      if ltb 0 c.next_address then opened else some (record c { finished = true })

  unfoldable pub load_batch : List ℕ → TrigramCursor d.State → Option (TrigramCursor d.State)
  load_batch file c = elim c.block_reader [
    | none ↦ open_next file c
    | some b ↦ elim (read_more file b c.values) [
      | none ↦ none
      | some (b', values, false) ↦
          open_next file (record c { values = values; block_reader = none })
      | some (b', values, true) ↦ some (record c { values = values; block_reader = some b' })
    ]
  ]

  -- The loop of _trigram_reader: what it has sent, and whether it returned without an error. Each
  -- round sends the values of a batch. Fuel: the rounds.
  unfoldable pub reader_loop : ℕ → List ℕ → TrigramCursor d.State → List ℕ → List ℕ × Bool
  reader_loop zero file c sent = (sent, false)
  reader_loop (suc fuel) file c sent =
      let read : List ℕ × Bool = elim (load_batch file c) [
        | none ↦ (sent, false)
        | some c' ↦ reader_loop fuel file (record c' { values = [] }) (sent ++ c'.values)
      ] in
      if c.finished then (sent, true) else read

  -- _trigram_reader. A block takes one round for its first piece, one for each further piece, and
  -- one to find that it is over; there are no more blocks, and none with more pieces, than the file
  -- has bytes.
  unfoldable pub trigram_reader : List ℕ → ℕ → List ℕ × Bool
  trigram_reader file start =
      reader_loop ((length file + 2) * (length file + 2)) file (cursor_new start) []
