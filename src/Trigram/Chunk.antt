-- ===== src/Trigram/Chunk.antt =====
-- worker/trigrams.rs: TrigramSet, a set of trigrams in 256 chunks, each of which picks the encoding
-- that suits it. The boxed array of chunks is a list.
use haunted_house.Common.{
  ℕ, zero, suc, ◌+◌, ◌-◌, ◌/◌, ◌%◌, ◌^◌, List, [], ◌∷◌, ◌++◌, Option, none, some, length, leb, ltb,
  ◌==◌, if◌then◌else◌, ◌*◌,
}
use haunted_house.Common.Sort.{sort, dedup, nat_ord}
use Prim.Native.Nat.{bit_or}
use haunted_house.Trigram.{BitArr, first_two, push_byte}

pub data Chunk (B : Type 0) : Type 0 where
  empty : Chunk B
  added : List ℕ → Chunk B
  mask : ℕ → B → Chunk B
  removed : List ℕ → Chunk B

-- `items.remove(index)` at the first item that is equal.
unfoldable pub remove_item : ℕ → List ℕ → List ℕ
remove_item item [] = []
remove_item item (value ∷ items) =
    let rest = remove_item item items in if item == value then items else value ∷ rest

-- ChunkIter; the range of Removed is its next index, up to 2 ^ 16 where it is over.
pub data ChunkIter : Type 0 where
  over : ChunkIter
  listed : List ℕ → ChunkIter
  skipping : ℕ → List ℕ → ChunkIter

-- The loop of ChunkIter::next over the range; fuel: the indices that are left.
unfoldable pub skip_loop : ℕ → ℕ → List ℕ → ChunkIter × Option ℕ
skip_loop zero next skip_list = (skipping next skip_list, none)
skip_loop (suc fuel) next [] = (skipping (next + 1) [], some next)
skip_loop (suc fuel) next (skip ∷ skip_list) =
    let continued = skip_loop fuel (next + 1) skip_list in
    if ltb next skip
    then (skipping (next + 1) (skip ∷ skip_list), some next)
    else (if next == skip then continued else (skipping (next + 1) (skip ∷ skip_list), none))

unfoldable pub chunk_iter_next : ChunkIter → ChunkIter × Option ℕ
chunk_iter_next over = (over, none)
chunk_iter_next (listed []) = (listed [], none)
chunk_iter_next (listed (x ∷ items)) = (listed items, some x)
chunk_iter_next (skipping next skip_list) = skip_loop (2 ^ 16 - next) next skip_list

module _ (b : BitArr) where
  unfoldable pub chunk_iter : Chunk b.Bits → ChunkIter
  chunk_iter empty = over
  chunk_iter (added items) = listed items
  chunk_iter (mask count bits) = listed (b.iter_ones bits)
  chunk_iter (removed items) = skipping 0 items

  -- Chunk::insert; the count of a mask is a u16.
  unfoldable pub chunk_insert : Chunk b.Bits → ℕ → Chunk b.Bits
  chunk_insert empty item = added (item ∷ [])
  chunk_insert (added items) item = added (items ++ (item ∷ []))
  chunk_insert (mask count bits) item =
      mask (if b.get bits item then count else (count + 1) % 2 ^ 16) (b.set bits item)
  chunk_insert (removed items) item = removed (remove_item item items)

  unfoldable pub set_all : b.Bits → List ℕ → b.Bits
  set_all bits [] = bits
  set_all bits (item ∷ items) = set_all (b.set bits item) items

  -- Chunk::compact on a mask.
  unfoldable pub compact_mask : ℕ → b.Bits → Chunk b.Bits
  compact_mask count bits =
      if ltb (2 ^ 16 - 1 - 4096) count then removed (b.iter_zeros bits) else mask count bits

  unfoldable pub chunk_compact : Chunk b.Bits → Chunk b.Bits
  chunk_compact empty = empty
  chunk_compact (added items) =
      let items' = dedup (sort items) in
      if leb 4096 (length items')
      then compact_mask (length items' % 2 ^ 16) (set_all b.zeroed items')
      else added items'
  chunk_compact (mask count bits) = compact_mask count bits
  chunk_compact (removed items) = removed items

  abbrev pub TrigramSet : Type 0
  TrigramSet = List (Chunk b.Bits)

  abbrev pub repeat_empty : ℕ → TrigramSet
  repeat_empty zero = []
  repeat_empty (suc n) = empty ∷ repeat_empty n

  unfoldable pub set_new : TrigramSet
  set_new = repeat_empty 256

  -- `self.chunks[bin]`; an index out of range would panic, which no u32 below 2 ^ 24 reaches.
  unfoldable pub insert_at : ℕ → ℕ → TrigramSet → TrigramSet
  insert_at bin item [] = []
  insert_at zero item (chunk ∷ chunks) = chunk_insert chunk item ∷ chunks
  insert_at (suc bin) item (chunk ∷ chunks) = chunk ∷ insert_at bin item chunks

  unfoldable pub set_insert : TrigramSet → ℕ → TrigramSet
  set_insert s item = insert_at (item / 2 ^ 16) (item % 2 ^ 16) s

  unfoldable pub set_compact : TrigramSet → TrigramSet
  set_compact [] = []
  set_compact (chunk ∷ chunks) = chunk_compact chunk ∷ set_compact chunks

  -- The loop of build_buffer.
  unfoldable pub buffer_loop : ℕ → ℕ → List ℕ → TrigramSet → TrigramSet
  buffer_loop byte_index trigram [] s = s
  buffer_loop byte_index trigram (byte ∷ bytes) s =
      let trigram' = push_byte trigram byte in
      let s' = set_insert s trigram' in
      buffer_loop (byte_index + 1) trigram' bytes
        (if byte_index % 16000 == 0 then set_compact s' else s')

  unfoldable pub build_buffer : List ℕ → TrigramSet
  build_buffer [] = set_new
  build_buffer (x ∷ []) = set_new
  build_buffer (x ∷ y ∷ []) = set_new
  build_buffer (x ∷ y ∷ z ∷ bytes) = set_compact (buffer_loop 0 (first_two x y) (z ∷ bytes) set_new)

  -- TrigramIterator: the chunks that are left, and the one under way.
  pub record SetIter : Type 0 where
    pub iter : TrigramSet
    pub current_index : ℕ
    pub current : ChunkIter

  unfoldable pub set_iter : TrigramSet → Option SetIter
  set_iter [] = none
  set_iter (chunk ∷ chunks) =
      some (record { iter = chunks; current_index = 0; current = chunk_iter chunk })

  -- The loop of TrigramIterator::next.
  unfoldable pub iter_loop : TrigramSet → ℕ → ChunkIter → SetIter × Option ℕ
  iter_loop [] index current =
      let (current', item) = chunk_iter_next current in
      elim item [
        | none ↦ (record { iter = []; current_index = index; current = current' }, none)
        | some value ↦ (
          record { iter = []; current_index = index; current = current' },
          some (bit_or (index * 2 ^ 16 % 2 ^ 32) value),
        )
      ]
  iter_loop (chunk ∷ chunks) index current =
      let (current', item) = chunk_iter_next current in
      let more = iter_loop chunks (index + 1) (chunk_iter chunk) in
      elim item [
        | none ↦ more
        | some value ↦ (
          record { iter = chunk ∷ chunks; current_index = index; current = current' },
          some (bit_or (index * 2 ^ 16 % 2 ^ 32) value),
        )
      ]

  unfoldable pub set_iter_next : SetIter → SetIter × Option ℕ
  set_iter_next it = iter_loop it.iter it.current_index it.current
