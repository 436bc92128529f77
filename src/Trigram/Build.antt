-- ===== src/Trigram/Build.antt =====
-- worker/trigrams.rs: build_file finds exactly the trigrams of a file.
use haunted_house.Common.{
  ℕ, ◌+◌, ◌*◌, ◌%◌, ◌^◌, ◌≤◌, ◌<◌, ◌≡◌, refl, sym, ap, ◌∙◌, arith, List, [], ◌∷◌, ◌++◌,
  append_assoc, append-nil, length, leb, ◌||◌, All, flat, Bool-cases, inl, inr,
}
use haunted_house.Common.Bits.{bit_or_disjoint, bit_or_comm}
use haunted_house.Encoding.{encode_into_increasing}
use haunted_house.Encoding.Stream.{finish-add_all_list, encode_into_increasing_empty}
use haunted_house.Encoding.Sequence.{Rising-Ascending}
use haunted_house.Query.Adds.{IsByte}
use haunted_house.Query.Eval.{has_trigram}
use haunted_house.Journal.Union.{elem}
use haunted_house.Journal.Merge.{Trigrams}
use haunted_house.Trigram.{
  BitArr, Indices, BitArrLaws, Received, buffer, broken, Built, deltas, failed, first_two,
  push_byte, mark, to_deltas, build_loop, build_main, build_start, build_file,
}

pub push_byte_low : (t byte : ℕ) → byte < 256 → push_byte t byte ≡ t % 65536 * 256 + byte
unfolding push_byte
push_byte_low t byte k =
    rw (bit_or_comm (t % 2 ^ 16 * 2 ^ 8) byte, bit_or_disjoint 8 byte (t % 2 ^ 16) k) (omega arith)

pub first_two_low : (x y : ℕ) → y < 256 → first_two x y ≡ x * 256 + y
unfolding first_two
first_two_low x y k = rw (bit_or_comm (x * 2 ^ 8) y, bit_or_disjoint 8 y x k) (omega arith)

Indices-Trigrams : (l : List ℕ) → Indices (2 ^ 24) l → Trigrams l
Indices-Trigrams [] h = (tt, tt)
Indices-Trigrams (x ∷ l) h = ((h.0, h.2), (omega (arith, h.0), Rising-Ascending x l h.1))

-- The trigrams of a file: from low to high, in range, and exactly those that stand in its bytes.
abbrev pub Finds : List ℕ → List ℕ → Type 0
Finds bytes l = Trigrams l × ((t : ℕ) → t < 2 ^ 24 → elem t l ≡ has_trigram bytes t)

-- No buffer is empty.
abbrev pub Full : List (List ℕ) → Type 0
Full buffers = All (λ (bytes : List ℕ). 0 < length bytes) buffers

module _ (b : BitArr) (laws : BitArrLaws (2 ^ 24) b) where
  -- Marking adds the trigrams that end in the bytes.
  get-mark :
      (bytes : List ℕ) (mask : b.Bits) (x y t u : ℕ)
      → All IsByte (y ∷ bytes)
      → t % 65536 ≡ x * 256 + y
      → u < 2 ^ 24
      → b.get (mark b mask t bytes).0 u ≡ (b.get mask u || has_trigram (x ∷ y ∷ bytes) u)
  unfolding mark has_trigram
  get-mark [] mask x y t u ok low h = ground arith
  get-mark (z ∷ bytes) mask x y t u ok low h =
      let next = push_byte_low t z ok.1.0 in
      let t' = t % 65536 * 256 + z in
      rw (next, mark)
        (get-mark bytes (b.set mask t') y z t' u ok.1 (omega (arith, ok.0, ok.1.0)) h
          ∙ rw (laws.get-set mask t' u (omega (arith, ok.1.0)) h, low) (ground arith))

  mark-append :
      (l m : List ℕ) (mask : b.Bits) (t : ℕ)
      → mark b mask t (l ++ m) ≡ mark b (mark b mask t l).0 (mark b mask t l).1 m
  unfolding mark
  mark-append [] m mask t = refl
  mark-append (z ∷ l) m mask t = mark-append l m (b.set mask (push_byte t z)) (push_byte t z)

  module _ {ℓ} {E : Type ℓ} where
    -- The buffers of a stream.
    abbrev pub received : List (List ℕ) → List (Received E)
    received [] = []
    received (bytes ∷ buffers) = buffer bytes ∷ received buffers

    build_loop-received :
        (buffers : List (List ℕ)) (mask : b.Bits) (t : ℕ)
        → Full buffers
        → build_loop b mask t (received buffers)
          ≡ deltas (to_deltas b (mark b mask t (flat buffers)).0)
    unfolding build_loop
    build_loop-received [] mask t full = unfold mark in refl
    build_loop-received ([] ∷ buffers) mask t full = absurd (omega (arith, full.0))
    build_loop-received ((z ∷ bytes) ∷ buffers) mask t full =
        rw (mark-append (z ∷ bytes) (flat buffers) mask t) (
          build_loop-received buffers (mark b mask t (z ∷ bytes)).0 (mark b mask t (z ∷ bytes)).1
            full.1)

    -- What is built of the bytes of a file.
    abbrev whole : List ℕ → Built E
    whole [] = deltas []
    whole (x ∷ []) = deltas []
    whole (x ∷ y ∷ []) = deltas []
    whole (x ∷ y ∷ z ∷ bytes) = deltas (to_deltas b (mark b b.zeroed (first_two x y) (z ∷ bytes)).0)

    whole_short : (bytes : List ℕ) → length bytes ≤ 2 → whole bytes ≡ deltas []
    whole_short [] h = refl
    whole_short (x ∷ []) h = refl
    whole_short (x ∷ y ∷ []) h = refl
    whole_short (x ∷ y ∷ z ∷ bytes) h = absurd (omega arith)

    build_main-whole :
        (start : List ℕ) (buffers : List (List ℕ))
        → 2 < length start
        → Full buffers
        → build_main b start (received buffers) ≡ whole (start ++ flat buffers)
    unfolding build_main
    build_main-whole [] buffers h full = absurd (omega arith)
    build_main-whole (x ∷ []) buffers h full = absurd (omega arith)
    build_main-whole (x ∷ y ∷ []) buffers h full = absurd (omega arith)
    build_main-whole (x ∷ y ∷ z ∷ bytes) buffers h full =
        let (mask, t) = mark b b.zeroed (first_two x y) (z ∷ bytes) in
        rw (mark-append (z ∷ bytes) (flat buffers) b.zeroed (first_two x y))
          (build_loop-received buffers mask t full)

    build_start-whole :
        (buffers : List (List ℕ)) (start : List ℕ)
        → Full buffers
        → build_start b start (received buffers) ≡ whole (start ++ flat buffers)
    unfolding build_start
    build_start-whole [] start full = elim (Bool-cases (leb (length start) 2)) [
      | inl short ↦ rw (short, append-nil start) (sym (whole_short start (ground arith)))
      | inr long ↦ rw long (build_main-whole start [] (ground arith) full)
    ]
    build_start-whole (bytes ∷ buffers) start full = elim (Bool-cases (leb (length start) 2)) [
      | inl short ↦
          rw short (build_start-whole buffers (start ++ bytes) full.1 ∙ rw append_assoc refl)
      | inr long ↦ rw long (build_main-whole start (bytes ∷ buffers) (ground arith) full)
    ]

    whole-Finds :
        (bytes : List ℕ)
        → All IsByte bytes
        → (l : List ℕ) × (whole bytes ≡ deltas (encode_into_increasing l [])) × Finds bytes l
    unfolding to_deltas has_trigram
    whole-Finds [] ok = ([], ap deltas (sym encode_into_increasing_empty), ((tt, tt), λ t h. refl))
    whole-Finds (x ∷ []) ok =
        ([], ap deltas (sym encode_into_increasing_empty), ((tt, tt), λ t h. refl))
    whole-Finds (x ∷ y ∷ []) ok =
        ([], ap deltas (sym encode_into_increasing_empty), ((tt, tt), λ t h. refl))
    whole-Finds (x ∷ y ∷ z ∷ bytes) ok =
        let mask = (mark b b.zeroed (first_two x y) (z ∷ bytes)).0 in
        let l = b.iter_ones mask in
        let sorted = Indices-Trigrams l (laws.iter_ones-Indices mask) in
        let first = first_two_low x y ok.1.0 in
        (
          l,
          ap deltas (finish-add_all_list l sorted.1),
          (
            sorted,
            λ t h.
                laws.elem-iter_ones mask t h
                ∙ get-mark (z ∷ bytes) b.zeroed x y (first_two x y) t ok.1
                    (omega (arith, first, ok.0, ok.1.0)) h
                ∙ rw (laws.get-zeroed t h) refl,
          ),
        )

    -- From a stream of buffers, none of them empty, the trigrams of the file are built: the encoding
    -- of exactly those that stand in its bytes, also across two buffers, from low to high. A file of
    -- fewer than three bytes has none.
    pub build_file-Finds :
        (buffers : List (List ℕ))
        → Full buffers
        → All IsByte (flat buffers)
        → (l : List ℕ) × (build_file b (received buffers) ≡ deltas (encode_into_increasing l []))
          × Finds (flat buffers) l
    unfolding build_file
    build_file-Finds buffers full ok =
        let (l, e, found) = whole-Finds (flat buffers) ok in
        (l, build_start-whole buffers [] full ∙ e, found)

    build_loop-broken :
        (buffers : List (List ℕ)) (mask : b.Bits) (t : ℕ) (e : E) (rest : List (Received E))
        → Full buffers
        → build_loop b mask t (received buffers ++ (broken e ∷ rest)) ≡ failed e
    unfolding build_loop
    build_loop-broken [] mask t e rest full = refl
    build_loop-broken ([] ∷ buffers) mask t e rest full = absurd (omega (arith, full.0))
    build_loop-broken ((z ∷ bytes) ∷ buffers) mask t e rest full =
        build_loop-broken buffers (mark b mask t (z ∷ bytes)).0 (mark b mask t (z ∷ bytes)).1 e rest
          full.1

    build_main-broken :
        (start : List ℕ) (buffers : List (List ℕ)) (e : E) (rest : List (Received E))
        → 2 < length start
        → Full buffers
        → build_main b start (received buffers ++ (broken e ∷ rest)) ≡ failed e
    unfolding build_main
    build_main-broken [] buffers e rest h full = absurd (omega arith)
    build_main-broken (x ∷ []) buffers e rest h full = absurd (omega arith)
    build_main-broken (x ∷ y ∷ bytes) buffers e rest h full =
        build_loop-broken buffers (mark b b.zeroed (first_two x y) bytes).0
          (mark b b.zeroed (first_two x y) bytes).1 e rest full

    build_start-broken :
        (buffers : List (List ℕ)) (start : List ℕ) (e : E) (rest : List (Received E))
        → Full buffers
        → build_start b start (received buffers ++ (broken e ∷ rest)) ≡ failed e
    unfolding build_start
    build_start-broken [] start e rest full = elim (Bool-cases (leb (length start) 2)) [
      | inl short ↦ rw short refl
      | inr long ↦ rw long (build_main-broken start [] e rest (ground arith) full)
    ]
    build_start-broken (bytes ∷ buffers) start e rest full =
        elim (Bool-cases (leb (length start) 2)) [
          | inl short ↦ rw short (build_start-broken buffers (start ++ bytes) e rest full.1)
          | inr long ↦
              rw long (build_main-broken start (bytes ∷ buffers) e rest (ground arith) full)
        ]

    -- An error of the storage behind buffers none of which is empty is returned, however much of the
    -- file came before it.
    pub build_file-broken :
        (buffers : List (List ℕ)) (e : E) (rest : List (Received E))
        → Full buffers
        → build_file b (received buffers ++ (broken e ∷ rest)) ≡ failed e
    unfolding build_file
    build_file-broken buffers e rest full = build_start-broken buffers [] e rest full
