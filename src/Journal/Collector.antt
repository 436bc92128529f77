-- ===== src/Journal/Collector.antt =====
-- worker/journal.rs: IdCollector, which merges the trigrams of a batch of files.
use haunted_house.Common.{
  ℕ, zero, suc, ◌+◌, ◌-◌, ◌%◌, ◌^◌, List, [], ◌∷◌, ◌++◌, map, Option, none, some, length, ltb, ◌==◌,
  if◌then◌else◌,
}
use haunted_house.Encoding.{StreamDecode, stream_new, peek, skip_one}
use haunted_house.Journal.Union.{elem}

pub record IdCollector : Type 0 where
  pub acceptable : ℕ
  pub iterators : List (ℕ × StreamDecode)

unfoldable pub collector_new : List (ℕ × List ℕ) → IdCollector
collector_new rows = record {
  acceptable = 0;
  iterators = map (λ (row : ℕ × List ℕ). (row.0, stream_new row.1)) rows;
}

-- `while let Some(value) = input.peek()` up to a value that is acceptable, cast to a u32. Fuel: each
-- round takes a byte at least, or ends the stream.
unfoldable pub skip_passed : ℕ → ℕ → StreamDecode → StreamDecode
skip_passed zero acceptable input = input
skip_passed (suc fuel) acceptable input = elim (peek input) [
  | none ↦ input
  | some value ↦
      let more = skip_passed fuel acceptable (skip_one input) in
      if ltb (value % 2 ^ 32) acceptable then more else input
]

-- What a pass over the iterators gathers.
pub record Selection : Type 0 where
  pub selected_trigram : ℕ
  pub hits : List ℕ
  pub remove : List ℕ

-- The three cases of `value.cmp(&selected_trigram)`, and the push to `remove` at the end of an input.
unfoldable pub select : ℕ → Option ℕ → Selection → Selection
select id none s = record s { remove = s.remove ++ (id ∷ []) }
select id (some value) s =
    if ltb value s.selected_trigram
    then record s { selected_trigram = value; hits = id ∷ [] }
    else (if value == s.selected_trigram then record s { hits = s.hits ++ (id ∷ []) } else s)

unfoldable pub select_all :
    ℕ → List (ℕ × StreamDecode) → Selection → List (ℕ × StreamDecode) × Selection
select_all acceptable [] s = ([], s)
select_all acceptable ((id, input) ∷ iterators) s =
    let input' = skip_passed (suc (length input.bytes)) acceptable input in
    let shown : Option ℕ = elim (peek input') [
      | none ↦ none
      | some value ↦ some (value % 2 ^ 32)
    ] in
    let (iterators', s') = select_all acceptable iterators (select id shown s) in
    ((id, input') ∷ iterators', s')

-- `self.iterators.retain(|(id, _)| !self.remove.contains(id))`
unfoldable pub retain : List ℕ → List (ℕ × StreamDecode) → List (ℕ × StreamDecode)
retain remove [] = []
retain remove ((id, input) ∷ iterators) =
    let rest = retain remove iterators in if elem id remove then rest else (id, input) ∷ rest

-- IdCollector::next. `hits` is what the caller's vector holds, which is only replaced when a trigram
-- is selected.
unfoldable pub collector_next : IdCollector → List ℕ → IdCollector × List ℕ × Option ℕ
collector_next c hits =
    let (iterators, s) =
      select_all c.acceptable c.iterators
        (record { selected_trigram = 2 ^ 32 - 1; hits = hits; remove = [] }) in
    let kept = retain s.remove iterators in
    if s.selected_trigram == 2 ^ 32 - 1
    then (record { acceptable = c.acceptable; iterators = kept }, s.hits, none)
    else (
      record { acceptable = s.selected_trigram + 1; iterators = kept },
      s.hits,
      some s.selected_trigram,
    )
