-- ===== src/Journal/Network.antt =====
-- worker/journal.rs: JournalFilter::query, which answers a TrigramQuery by a network of tasks, one for
-- each expression and each trigram. A channel is the list of the values that are sent through it,
-- which every listener receives. The root listens to the end, so a task has the rounds that its
-- inputs can give. `none` is an error or a panic.
use haunted_house.Common.{
  ℕ, zero, suc, List, [], ◌∷◌, ◌++◌, map, Option, none, some, Bool, true, false, ◌&&◌, ◌==◌,
  if◌then◌else◌, all, any, length,
}
use mathlib.Core.Option
use haunted_house.Common.Sort.{nat_ord, sort, dedup}
use haunted_house.Query.Builder.{
  Reference, trigram, expression, TrigramQueryExpression, or_of, and_of, min_of_refs, references,
  TrigramQuery,
}
use haunted_house.Journal.Nodes.{Inputs, query_or, query_and, query_min_of}
use haunted_house.Journal.Union.{total}
use haunted_house.Journal.Addresses.{read_set}
use haunted_house.Journal.Batch.{Journal}
use haunted_house.Journal.Cursor.{CobsDecoder, trigram_reader}

-- The trigrams among the references.
unfoldable pub dep_trigrams : List Reference → List ℕ
dep_trigrams [] = []
dep_trigrams (trigram t ∷ refs) = t ∷ dep_trigrams refs
dep_trigrams (expression i ∷ refs) = dep_trigrams refs

unfoldable pub query_trigrams : List (ℕ × TrigramQueryExpression) → List ℕ
query_trigrams [] = []
query_trigrams ((index, e) ∷ expressions) =
    dep_trigrams (references e) ++ query_trigrams expressions

unfoldable pub find_node : ℕ → List (ℕ × TrigramQueryExpression) → Option TrigramQueryExpression
find_node i [] = none
find_node i ((k, e) ∷ expressions) = if k == i then some e else find_node i expressions

-- There is a channel for the reference.
unfoldable pub has_channel : List ℕ → List (ℕ × TrigramQueryExpression) → Reference → Bool
has_channel trigrams expressions (trigram t) = any (λ s. s == t) trigrams
has_channel trigrams expressions (expression i) = elim (find_node i expressions) [
  | none ↦ false
  | some e ↦ true
]

-- The node can subscribe to each of its inputs.
unfoldable pub can_subscribe :
    List ℕ → List (ℕ × TrigramQueryExpression) → ℕ × TrigramQueryExpression → Bool
can_subscribe trigrams expressions (index, e) =
    all (has_channel trigrams expressions) (references e)

-- `trigram_channels.remove(&trigram).unwrap()`
unfoldable pub remove_channel : ℕ → List ℕ → Option (List ℕ)
remove_channel t [] = none
remove_channel t (s ∷ channels) =
    let rest = remove_channel t channels in
    if s == t then some channels else Option.map (λ left. s ∷ left) rest

-- The loop that launches the readers, and the channels that it leaves.
unfoldable pub launch_readers : List (ℕ × Option ℕ × ℕ) → List ℕ → Option (List ℕ)
launch_readers [] channels = some channels
launch_readers ((t, address, size) ∷ info) channels = elim (remove_channel t channels) [
  | none ↦ none
  | some left ↦ launch_readers info left
]

-- The task of a node.
unfoldable pub run_node : TrigramQueryExpression → Inputs → List ℕ
run_node (or_of refs) inputs = query_or (total inputs) inputs
run_node (and_of refs) inputs = query_and (total inputs) inputs
run_node (min_of_refs count refs weights) inputs = query_min_of (total inputs) count inputs weights

-- What a listener of the reference receives, given what the readers send. Fuel: a node waits for its
-- inputs, so nothing comes out of a chain of more nodes than there are.
unfoldable pub delivered : (ℕ → List ℕ) → List (ℕ × TrigramQueryExpression) → ℕ → Reference → List ℕ
delivered sent expressions fuel (trigram t) = sent t
delivered sent expressions zero (expression i) = []
delivered sent expressions (suc fuel) (expression i) = elim (find_node i expressions) [
  | none ↦ []
  | some e ↦ run_node e (map (delivered sent expressions fuel) (references e))
]

module _ (d : CobsDecoder) where
  -- What the reader of the trigram sends, if one was launched: what an error leaves unread is
  -- missing. Without a reader the channel is closed at once.
  unfoldable pub sent_by : List ℕ → List (ℕ × Option ℕ × ℕ) → ℕ → List ℕ
  sent_by file [] t = []
  sent_by file ((s, address, size) ∷ info) t =
      let here : List ℕ = elim address [
        | none ↦ []
        | some start ↦ (trigram_reader d file start).0
      ] in
      if s == t then here else sent_by file info t

  -- JournalFilter::query
  unfoldable pub query : Journal → TrigramQuery → Option (List ℕ)
  query j q =
      let trigrams = dedup (sort (query_trigrams q.expressions)) in
      let answer : Option (List ℕ) = elim (read_set j.tail trigrams) [
        | none ↦ none
        | some info ↦ elim (launch_readers info trigrams) [
          | none ↦ none
          | some [] ↦
              some (delivered (sent_by j.file info) q.expressions (length q.expressions) q.root)
          | some (left ∷ more) ↦ none
        ]
      ] in
      if has_channel trigrams q.expressions q.root
        && (all (can_subscribe trigrams q.expressions) q.expressions && j.running)
      then answer
      else none
