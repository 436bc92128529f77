-- ===== src/Encoding/Stream.antt =====
-- worker/encoding.rs: the streaming encoder and decoder.
use haunted_house.Common.{
  ℕ, zero, suc, ◌+◌, ◌-◌, ◌*◌, ◌/◌, ◌%◌, ◌^◌, ◌≤◌, ◌<◌, ◌≡◌, refl, sym, ◌∙◌, arith, List, [], ◌∷◌,
  ◌++◌, append_assoc, append-nil, Option, none, some, length, leb, Bool, true, false, subst,
}
use haunted_house.Encoding.{
  IsU64, add_group, encode_value_into, encode_into_increasing, StreamDecode, raw_loop,
  decode_raw_next, stream_new, peek, skip_one, stream_next, StreamEncode, stream_encode_new,
  stream_encode_add, finish,
}
use haunted_house.Encoding.Varint.{lead, behind, varint, encode_value_into-varint}
use haunted_house.Encoding.Read.{split_low, low_below, lead_low, add_group-lead}
use haunted_house.Encoding.Sequence.{gaps, rise, Ascending, encode_into_increasing-gaps}
use native.Mathlib.Decide.{dec_lt}

-- Collecting the iterator, for at most `n` values.
unfoldable pub collect : ℕ → StreamDecode → List ℕ
collect zero s = []
collect (suc n) s =
    let (s', item) = stream_next s in elim item [ none ↦ [] | some value ↦ value ∷ collect n s' ]

unfoldable pub add_all : StreamEncode → List ℕ → StreamEncode
add_all e [] = e
add_all e (value ∷ values) = add_all (stream_encode_add e value) values

raw_loop_stop :
    (rest : List ℕ) (value offset : ℕ) → raw_loop rest value false offset ≡ (rest, value)
unfolding raw_loop
raw_loop_stop [] value offset = refl
raw_loop_stop (byte ∷ rest) value offset = refl

raw_loop-varint :
    (k w base s : ℕ) (rest : List ℕ)
    → w < 128 ^ suc k
    → base < 2 ^ s
    → base + w * 2 ^ s < 2 ^ 64
    → raw_loop (behind k w ++ rest) (base + w % 128 * 2 ^ s) (leb 128 (lead w)) (s + 7)
      ≡ (rest, base + w * 2 ^ s)
unfolding behind raw_loop
raw_loop-varint zero w base s rest h low fits =
    ground (arith, raw_loop_stop rest (base + w * 2 ^ s) (s + 7))
raw_loop-varint (suc k) w base s rest h low fits = elim (dec_lt w 128) [
  | yes small ↦ ground (arith, raw_loop_stop rest (base + w * 2 ^ s) (s + 7))
  | no large ↦ ground (
    arith,
    split_low w s,
    low_below w s,
    add_group-lead w base s,
    raw_loop-varint k (w / 128) (base + w % 128 * 2 ^ s) (s + 7) rest,
  )
]

pub decode_raw_next-varint :
    (v : ℕ) (rest : List ℕ) → IsU64 v → decode_raw_next (varint v ++ rest) ≡ (rest, some v)
unfolding decode_raw_next
decode_raw_next-varint v rest h = ground (arith, lead_low v, raw_loop-varint 9 v 0 0 rest)

-- A stream that is about to give `x`, with the distances of `l` behind it.
abbrev pub stream_at : ℕ → List ℕ → StreamDecode
stream_at x l = record { bytes = gaps rise x l; next_value = some x }

pub stream_new-gaps :
    (x : ℕ) (l : List ℕ)
    → IsU64 x
    → Ascending x l
    → stream_new (encode_into_increasing (x ∷ l) []) ≡ stream_at x l
unfolding stream_new
stream_new-gaps x l hx h =
    rw (encode_into_increasing-gaps x l [] hx h)
      (ground (arith, decode_raw_next-varint x (gaps rise x l) hx))

collect-gaps :
    (l : List ℕ) (x n : ℕ)
    → IsU64 x
    → Ascending x l
    → length l < n
    → collect n (stream_at x l) ≡ x ∷ l
unfolding collect stream_next gaps
collect-gaps l x zero hx h f = absurd (omega arith)
collect-gaps [] x (suc zero) hx h f = unfold decode_raw_next in refl
collect-gaps [] x (suc (suc n)) hx h f = unfold decode_raw_next in refl
collect-gaps (y ∷ rest) x (suc n) hx h f =
    ground (
      arith,
      decode_raw_next-varint (y - x) (gaps rise y rest) (omega arith),
      collect-gaps rest y n,
    )

-- StreamDecode yields exactly the values that encode_into_increasing was given, in order and with
-- their repetitions, for u64 values that do not fall, when at least as many items are asked for.
pub collect-encode_into_increasing :
    (x n : ℕ) (l : List ℕ)
    → IsU64 x
    → Ascending x l
    → length l < n
    → collect n (stream_new (encode_into_increasing (x ∷ l) [])) ≡ x ∷ l
collect-encode_into_increasing x n l hx h f =
    rw (stream_new-gaps x l hx h) (collect-gaps l x n hx h f)

add_all-gaps :
    (l : List ℕ) (x : ℕ) (buffer : List ℕ)
    → Ascending x l
    → (add_all (record { buffer = buffer; last_value = x }) l).buffer ≡ buffer ++ gaps rise x l
unfolding add_all stream_encode_add gaps
add_all-gaps [] x buffer h = sym (append-nil buffer)
add_all-gaps (y ∷ rest) x buffer h =
    let exact : (y + 2 ^ 64 - x) % 2 ^ 64 ≡ y - x = omega arith in
    rw (exact, add_all)
      (add_all-gaps rest y (encode_value_into (y - x) buffer) h.2
        ∙ rw (encode_value_into-varint (y - x) buffer (omega arith), append_assoc))

-- Adding u64 values that do not fall to a new StreamEncode one at a time and finishing it gives the
-- bytes that encode_into_increasing writes for the whole list.
pub finish-add_all :
    (x : ℕ) (l : List ℕ)
    → IsU64 x
    → Ascending x l
    → finish (add_all stream_encode_new (x ∷ l)) ≡ encode_into_increasing (x ∷ l) []
unfolding finish stream_encode_new
finish-add_all x l hx h =
    add_all-gaps (x ∷ l) 0 [] (omega arith, hx, h)
    ∙ rw (encode_into_increasing-gaps x l [] hx h)
        (unfold gaps in let first : x - 0 ≡ x = omega arith in rw first)

abbrev pub Sorted : List ℕ → Type 0
Sorted [] = Unit {0}
Sorted (x ∷ l) = IsU64 x × Ascending x l

pub encode_into_increasing_empty : encode_into_increasing [] [] ≡ []
unfolding encode_into_increasing
encode_into_increasing_empty = refl

pub finish-add_all_list :
    (l : List ℕ) → Sorted l → finish (add_all stream_encode_new l) ≡ encode_into_increasing l []
finish-add_all_list [] h = unfold finish stream_encode_new add_all encode_into_increasing in refl
finish-add_all_list (x ∷ l) h = finish-add_all x l h.0 h.1

-- skip_one moves the stream exactly as next does, and peek shows what next would yield.
pub skip_one-stream_next :
    (s : StreamDecode) → (skip_one s ≡ (stream_next s).0) × (peek s ≡ (stream_next s).1)
unfolding skip_one stream_next peek
skip_one-stream_next s = (ground arith, ground arith)

-- The stream yields the values of the list, one after the other.
abbrev pub Holds : StreamDecode → List ℕ → Type 0
Holds s [] = peek s ≡ none
Holds s (x ∷ l) = (peek s ≡ some x) × Holds (skip_one s) l

stream_at-Holds : (l : List ℕ) (x : ℕ) → IsU64 x → Ascending x l → Holds (stream_at x l) (x ∷ l)
unfolding peek skip_one gaps
stream_at-Holds [] x hx h = (refl, unfold decode_raw_next in refl)
stream_at-Holds (y ∷ rest) x hx h =
    let gap = decode_raw_next-varint (y - x) (gaps rise y rest) (omega arith) in
    let next : skip_one (stream_at x (y ∷ rest)) ≡ stream_at y rest = ground (arith, gap) in
    (refl, subst (λ s. Holds s (y ∷ rest)) (sym next) (stream_at-Holds rest y h.1 h.2))

-- A list of u64 that does not fall.
pub stream_new-Holds : (l : List ℕ) → Sorted l → Holds (stream_new (encode_into_increasing l [])) l
stream_new-Holds [] h = unfold stream_new peek encode_into_increasing decode_raw_next in refl
stream_new-Holds (x ∷ l) h = rw (stream_new-gaps x l h.0 h.1) (stream_at-Holds l x h.0 h.1)

raw_loop-length :
    (bytes : List ℕ) (value : ℕ) (continued : Bool) (offset : ℕ)
    → length (raw_loop bytes value continued offset).0 ≤ length bytes
unfolding raw_loop
raw_loop-length [] value continued offset = omega arith
raw_loop-length (byte ∷ rest) value true offset =
    omega (arith, raw_loop-length rest (add_group value byte offset) (leb 128 byte) (offset + 7))
raw_loop-length (byte ∷ rest) value false offset = omega arith

decode_raw_next-length :
    (byte : ℕ) (rest : List ℕ) → length (decode_raw_next (byte ∷ rest)).0 ≤ length rest
unfolding decode_raw_next
decode_raw_next-length byte rest = raw_loop-length rest (byte % 128) (leb 128 byte) 7

skip_one-length :
    (bytes : List ℕ) (next : Option ℕ) (x y : ℕ)
    → next ≡ some x
    → peek (skip_one (record { bytes = bytes; next_value = next })) ≡ some y
    → length (skip_one (record { bytes = bytes; next_value = next })).bytes < length bytes
unfolding peek skip_one decode_raw_next
skip_one-length bytes none x y e h = cc
skip_one-length [] (some c) x y e h = cc
skip_one-length (byte ∷ rest) (some c) x y e h = omega (arith, decode_raw_next-length byte rest)

-- A stream yields at most one value more than it has bytes.
pub Holds-length : (l : List ℕ) (s : StreamDecode) → Holds s l → length l ≤ suc (length s.bytes)
Holds-length [] s h = omega arith
Holds-length (x ∷ []) s h = omega arith
Holds-length (x ∷ y ∷ l) s h = omega (
  arith,
  Holds-length (y ∷ l) (skip_one s) h.1,
  skip_one-length s.bytes s.next_value x y (unfold peek in h.0) h.1.0,
)
