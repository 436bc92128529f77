-- ===== src/Trigram/Keeps.antt =====
-- worker/trigrams.rs: a chunk keeps what is inserted, whatever its encoding.
use haunted_house.Common.{
  ℕ, ◌-◌, ◌%◌, ◌^◌, ◌≤◌, ◌<◌, ◌≡◌, refl, sym, ◌∙◌, arith, List, [], ◌∷◌, ◌++◌, Bool, true, false,
  not, length, leb, ltb, ◌==◌, ◌||◌, if◌then◌else◌, All, all, any, Bool-cases, inl, inr,
}
use haunted_house.Common.Sort.{sort, dedup, nat_ord, any-sort, any-dedup, all-sort, all-dedup}
use haunted_house.Encoding.Sequence.{Rising}
use haunted_house.Journal.Union.{elem}
use haunted_house.Trigram.{BitArr, BitArrLaws, Indices}
use haunted_house.Trigram.Chunk.{
  Chunk, empty, added, mask, removed, remove_item, chunk_insert, set_all, compact_mask,
  chunk_compact,
}

elem-any : (x : ℕ) (l : List ℕ) → elem x l ≡ any (λ y. x == y) l
elem-any x [] = refl
elem-any x (y ∷ l) = rw (elem-any x l) refl

elem-append : (x : ℕ) (l m : List ℕ) → elem x (l ++ m) ≡ (elem x l || elem x m)
elem-append x [] m = refl
elem-append x (y ∷ l) m = ground (arith, elem-append x l m)

elem-dedup-sort : (x : ℕ) (l : List ℕ) → elem x (dedup (sort l)) ≡ elem x l
elem-dedup-sort x l =
    elem-any x (dedup (sort l))
    ∙ any-dedup (λ y. x == y) (sort l)
    ∙ any-sort (λ y. x == y) l
    ∙ sym (elem-any x l)

-- What stands below does not stand in a list that rises.
elem_under : (x y : ℕ) (l : List ℕ) → Rising y l → x ≤ y → elem x l ≡ false
elem_under x y [] h le = refl
elem_under x y (z ∷ l) h le = ground (arith, elem_under x z l h.2, h.0)

elem-remove_item :
    (x item y : ℕ) (l : List ℕ)
    → Rising y l
    → elem x (remove_item item l) ≡ (if x == item then false else elem x l)
unfolding remove_item
elem-remove_item x item y [] h = ground arith
elem-remove_item x item y (z ∷ l) h =
    ground (arith, elem-remove_item x item z l h.2, elem_under x z l h.2)

all_below : (n : ℕ) (l : List ℕ) → All (λ x. x < n) l → all (λ x. ltb x n) l ≡ true
all_below n [] h = refl
all_below n (x ∷ l) h = ground (arith, all_below n l h.1, h.0)

below_all : (n : ℕ) (l : List ℕ) → all (λ x. ltb x n) l ≡ true → All (λ x. x < n) l
below_all n [] h = tt
below_all n (x ∷ l) h = elim (Bool-cases (ltb x n)) [
  | inl lt ↦ (ground arith, below_all n l (ground (arith, h)))
  | inr ge ↦ absurd (ground (arith, h))
]

dedup-sort-All : (l : List ℕ) → All (λ x. x < 2 ^ 16) l → All (λ x. x < 2 ^ 16) (dedup (sort l))
dedup-sort-All l h =
    let test = λ (x : ℕ). ltb x (2 ^ 16) in
    below_all (2 ^ 16) (dedup (sort l))
      (all-dedup test (sort l) ∙ all-sort test l ∙ all_below (2 ^ 16) l h)

append-below :
    (l : List ℕ) (x : ℕ)
    → All (λ y. y < 2 ^ 16) l
    → x < 2 ^ 16
    → All (λ y. y < 2 ^ 16) (l ++ (x ∷ []))
append-below [] x ok h = (h, tt)
append-below (y ∷ l) x ok h = (ok.0, append-below l x ok.1 h)

Rising-weaken : (y z : ℕ) (l : List ℕ) → y < z → Rising z l → Rising y l
Rising-weaken y z [] lt h = tt
Rising-weaken y z (x ∷ l) lt h = (omega (arith, h.0), h.1, h.2)

remove_item-Rising : (item y : ℕ) (l : List ℕ) → Rising y l → Rising y (remove_item item l)
unfolding remove_item
remove_item-Rising item y [] h = tt
remove_item-Rising item y (z ∷ l) h = elim (Bool-cases (item == z)) [
  | inl here ↦ rw here (Rising-weaken y z l h.0 h.2)
  | inr behind ↦ rw behind (h.0, h.1, remove_item-Rising item z l h.2)
]

remove_item-below :
    (item : ℕ) (l : List ℕ) → All (λ y. y < 2 ^ 16) l → All (λ y. y < 2 ^ 16) (remove_item item l)
unfolding remove_item
remove_item-below item [] h = tt
remove_item-below item (z ∷ l) h = elim (Bool-cases (item == z)) [
  | inl here ↦ rw here h.1
  | inr behind ↦ rw behind (h.0, remove_item-below item l h.1)
]

Indices-of : (l : List ℕ) (x : ℕ) → Rising x l → All (λ y. y < 2 ^ 16) l → Indices (2 ^ 16) l
Indices-of [] x h k = tt
Indices-of (y ∷ l) x h k = (k.0, h.2, k.1)

remove_item-Indices :
    (item : ℕ) (l : List ℕ) → Indices (2 ^ 16) l → Indices (2 ^ 16) (remove_item item l)
unfolding remove_item
remove_item-Indices item [] h = tt
remove_item-Indices item (z ∷ l) h = elim (Bool-cases (item == z)) [
  | inl here ↦ rw here (Indices-of l z h.1 h.2)
  | inr behind ↦ rw behind (h.0, remove_item-Rising item z l h.1, remove_item-below item l h.2)
]

module _ (b : BitArr) (laws : BitArrLaws (2 ^ 16) b) where
  -- The values that a chunk holds.
  abbrev pub has_value : Chunk b.Bits → ℕ → Bool
  has_value empty x = false
  has_value (added items) x = elem x items
  has_value (mask count bits) x = b.get bits x
  has_value (removed items) x = not (elem x items)

  -- Values are u16, and the removed ones rise.
  abbrev pub ChunkOk : Chunk b.Bits → Type 0
  ChunkOk empty = Unit {0}
  ChunkOk (added items) = All (λ x. x < 2 ^ 16) items
  ChunkOk (mask count bits) = Unit {0}
  ChunkOk (removed items) = Indices (2 ^ 16) items

  get-set_all :
      (items : List ℕ) (bits : b.Bits) (x : ℕ)
      → All (λ y. y < 2 ^ 16) items
      → x < 2 ^ 16
      → b.get (set_all b bits items) x ≡ (elem x items || b.get bits x)
  unfolding set_all
  get-set_all [] bits x ok h = refl
  get-set_all (item ∷ items) bits x ok h =
      get-set_all items (b.set bits item) x ok.1 h
      ∙ rw (laws.get-set bits item x ok.0 h) (ground arith)

  -- Inserting a u16 in a chunk adds that value and no other, whatever the encoding of the chunk.
  pub chunk_insert_lem :
      (c : Chunk b.Bits) (item x : ℕ)
      → ChunkOk c
      → item < 2 ^ 16
      → x < 2 ^ 16
      → has_value (chunk_insert b c item) x ≡ (x == item || has_value c x)
  unfolding chunk_insert
  chunk_insert_lem empty item x ok i h = ground arith
  chunk_insert_lem (added items) item x ok i h = ground (arith, elem-append x items (item ∷ []))
  chunk_insert_lem (mask count bits) item x ok i h = laws.get-set bits item x i h
  chunk_insert_lem (removed []) item x ok i h = unfold remove_item in ground arith
  chunk_insert_lem (removed (y ∷ items)) item x ok i h =
      unfold remove_item in
      ground (arith, elem-remove_item x item y items ok.1, elem_under x y items ok.1)

  get-set_all_new :
      (items : List ℕ) (x : ℕ)
      → All (λ y. y < 2 ^ 16) items
      → x < 2 ^ 16
      → b.get (set_all b b.zeroed items) x ≡ elem x items
  get-set_all_new items x ok h =
      get-set_all items b.zeroed x ok h ∙ rw (laws.get-zeroed x h) (ground arith)

  compact_mask_lem :
      (count : ℕ) (bits : b.Bits) (x : ℕ)
      → x < 2 ^ 16
      → (has_value (compact_mask b count bits) x ≡ b.get bits x)
        × ChunkOk (compact_mask b count bits)
  unfolding compact_mask
  compact_mask_lem count bits x h = elim (Bool-cases (ltb (2 ^ 16 - 1 - 4096) count)) [
    | inl most ↦
        rw most (rw (laws.elem-iter_zeros bits x h) (ground arith), laws.iter_zeros-Indices bits)
    | inr fewer ↦ rw fewer (refl, tt)
  ]

  -- Compacting a chunk keeps its values, whatever encoding it changes to.
  pub chunk_compact_lem :
      (c : Chunk b.Bits) (x : ℕ)
      → ChunkOk c
      → x < 2 ^ 16
      → has_value (chunk_compact b c) x ≡ has_value c x
  unfolding chunk_compact
  chunk_compact_lem empty x ok h = refl
  chunk_compact_lem (added items) x ok h =
      let items' = dedup (sort items) in
      elim (Bool-cases (leb 4096 (length items'))) [
        | inl many ↦ rw many (
            (compact_mask_lem (length items' % 2 ^ 16) (set_all b b.zeroed items') x h).0
            ∙ get-set_all_new items' x (dedup-sort-All items ok) h
            ∙ elem-dedup-sort x items)
        | inr few ↦ rw few (elem-dedup-sort x items)
      ]
  chunk_compact_lem (mask count bits) x ok h = (compact_mask_lem count bits x h).0
  chunk_compact_lem (removed items) x ok h = refl

  pub chunk_compact-ChunkOk : (c : Chunk b.Bits) → ChunkOk c → ChunkOk (chunk_compact b c)
  unfolding chunk_compact
  chunk_compact-ChunkOk empty ok = tt
  chunk_compact-ChunkOk (added items) ok =
      let items' = dedup (sort items) in
      elim (Bool-cases (leb 4096 (length items'))) [
        | inl many ↦
            rw many
              (compact_mask_lem (length items' % 2 ^ 16) (set_all b b.zeroed items') 0
                (omega arith)).1
        | inr few ↦ rw few (dedup-sort-All items ok)
      ]
  chunk_compact-ChunkOk (mask count bits) ok = (compact_mask_lem count bits 0 (omega arith)).1
  chunk_compact-ChunkOk (removed items) ok = ok

  pub chunk_insert-ChunkOk :
      (c : Chunk b.Bits) (item : ℕ) → ChunkOk c → item < 2 ^ 16 → ChunkOk (chunk_insert b c item)
  unfolding chunk_insert
  chunk_insert-ChunkOk empty item ok h = (h, tt)
  chunk_insert-ChunkOk (added items) item ok h = append-below items item ok h
  chunk_insert-ChunkOk (mask count bits) item ok h = tt
  chunk_insert-ChunkOk (removed items) item ok h = remove_item-Indices item items ok
