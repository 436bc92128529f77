-- ===== src/Encoding/Sequence.antt =====
-- worker/encoding.rs: whole sequences, ascending and descending.
use haunted_house.Common.{
  ℕ, zero, suc, ◌+◌, ◌-◌, ◌%◌, ◌^◌, ◌≤◌, ◌<◌, ◌≡◌, refl, sym, ◌∙◌, arith, List, [], ◌∷◌, ◌++◌,
  append_assoc, append-nil, some, length, length-append,
}
use haunted_house.Encoding.{
  IsU64, encode_value_into, encode_windows, encode_into_increasing, decreasing_new, decreasing_push,
  decreasing_write, decode_value, decreasing_loop, decode_decreasing_into, decode_loop, decode_into,
}
use haunted_house.Encoding.Varint.{behind, varint, encode_value_into-varint}
use haunted_house.Encoding.Read.{read_group-u64, decode_value-encode_value_into}

-- The varints of the distances along a list.
unfoldable pub gaps : (ℕ → ℕ → ℕ) → ℕ → List ℕ → List ℕ
gaps distance x [] = []
gaps distance x (y ∷ rest) = varint (distance x y) ++ gaps distance y rest

abbrev pub rise : ℕ → ℕ → ℕ
rise x y = y - x

abbrev pub fall : ℕ → ℕ → ℕ
fall x y = x - y - 1

-- u64 values behind `x` that do not fall; that rise; that fall.
abbrev pub Ascending : ℕ → List ℕ → Type 0
Ascending x [] = Unit {0}
Ascending x (y ∷ rest) = (x ≤ y) × IsU64 y × Ascending y rest

abbrev pub Rising : ℕ → List ℕ → Type 0
Rising x [] = Unit {0}
Rising x (y ∷ rest) = (x < y) × IsU64 y × Rising y rest

abbrev pub Falling : ℕ → List ℕ → Type 0
Falling x [] = Unit {0}
Falling x (y ∷ rest) = (y < x) × Falling y rest

pub Rising-Ascending : (x : ℕ) (l : List ℕ) → Rising x l → Ascending x l
Rising-Ascending x [] h = tt
Rising-Ascending x (y ∷ rest) h = (omega arith, h.1, Rising-Ascending y rest h.2)

encode_windows-gaps :
    (x : ℕ) (l buffer : List ℕ)
    → Ascending x l
    → encode_windows (x ∷ l) buffer ≡ buffer ++ gaps rise x l
unfolding encode_windows gaps
encode_windows-gaps x [] buffer h = sym (append-nil buffer)
encode_windows-gaps x (y ∷ rest) buffer h =
    let exact : (y + 2 ^ 64 - x) % 2 ^ 64 ≡ y - x = omega arith in
    rw exact (
      encode_windows-gaps y rest (encode_value_into (y - x) buffer) h.2
      ∙ rw (encode_value_into-varint (y - x) buffer (omega arith), append_assoc))

pub encode_into_increasing-gaps :
    (x : ℕ) (l buffer : List ℕ)
    → IsU64 x
    → Ascending x l
    → encode_into_increasing (x ∷ l) buffer ≡ buffer ++ (varint x ++ gaps rise x l)
unfolding encode_into_increasing gaps
encode_into_increasing-gaps x [] buffer hx h =
    ground (arith, encode_value_into-varint x buffer hx, append-nil (varint x))
encode_into_increasing-gaps x (y ∷ rest) buffer hx h =
    encode_windows-gaps x (y ∷ rest) (encode_value_into x buffer) h
    ∙ rw (encode_value_into-varint x buffer hx, append_assoc)

-- One round of decode_into on a varint that is not 0.
decode_loop_step :
    (fuel d last used : ℕ) (rest values : List ℕ)
    → IsU64 d
    → 0 < d
    → d + last < 2 ^ 64
    → used + length (varint d) < 2 ^ 32
    → decode_loop (suc fuel) (varint d ++ rest) last used values
      ≡ decode_loop fuel rest (d + last) (used + length (varint d)) (values ++ ((d + last) ∷ []))
unfolding decode_loop
decode_loop_step fuel d last used rest values h pos fits short =
    let sum : (d + last) % 2 ^ 64 ≡ d + last = omega arith in
    let count : (used + (0 + length (behind 9 d) + 1)) % 2 ^ 32 ≡ used + length (varint d) =
      omega arith in
    ground (arith, read_group-u64 d 0 rest h)

decode_loop-gaps :
    (l : List ℕ) (fuel x used : ℕ) (values : List ℕ)
    → Rising x l
    → length (gaps rise x l) ≤ fuel
    → used + length (gaps rise x l) < 2 ^ 32
    → decode_loop fuel (gaps rise x l) x used values
      ≡ some (values ++ l, used + length (gaps rise x l))
unfolding gaps
decode_loop-gaps [] fuel x used values h f s = rw append-nil (unfold decode_loop in ground arith)
decode_loop-gaps (y ∷ rest) zero x used values h f s = absurd (omega arith)
decode_loop-gaps (y ∷ rest) (suc fuel) x used values h f s =
    let back : y - x + x ≡ y = omega arith in
    let size = length-append (varint (y - x)) (gaps rise y rest) in
    decode_loop_step fuel (y - x) x used (gaps rise y rest) values (omega arith) (omega arith)
      (omega arith) (omega arith)
    ∙ rw back (
        decode_loop-gaps rest fuel y (used + length (varint (y - x))) (values ++ (y ∷ [])) h.2
          (omega arith) (omega arith)
        ∙ rw append_assoc (ground arith))

-- decode_into returns what encode_into_increasing wrote, and the count of its bytes, for a list of
-- u64 that rises strictly from a first value other than 0, if the bytes number less than 2 ^ 32.
pub decode_into-encode_into_increasing :
    (x : ℕ) (l : List ℕ)
    → 0 < x
    → IsU64 x
    → Rising x l
    → length (encode_into_increasing (x ∷ l) []) < 2 ^ 32
    → decode_into (encode_into_increasing (x ∷ l) []) []
      ≡ some (x ∷ l, length (encode_into_increasing (x ∷ l) []))
unfolding decode_into gaps
decode_into-encode_into_increasing x l pos hx h s =
    let whole = encode_into_increasing-gaps x l [] hx (Rising-Ascending x l h) in
    let small : length (varint x ++ gaps rise x l) < 2 ^ 32 = rw whole at s in
    let first : x - 0 ≡ x = omega arith in
    let run = rw first at (
      decode_loop-gaps (x ∷ l) (length (varint x ++ gaps rise x l)) 0 0 [] (pos, hx, h)
        (rw first (omega arith)) (rw first (omega arith))) in
    rw whole (ground (arith, run))

pub decreasing_write-gaps :
    (l : List ℕ) (x : ℕ) (buffer : List ℕ)
    → IsU64 x
    → Falling x l
    → (decreasing_write (decreasing_new x buffer) l).buffer ≡ buffer ++ gaps fall x l
unfolding decreasing_write decreasing_new decreasing_push gaps
decreasing_write-gaps [] x buffer hx h = sym (append-nil buffer)
decreasing_write-gaps (y ∷ rest) x buffer hx h =
    let exact : ((x + 2 ^ 64 - y) % 2 ^ 64 + 2 ^ 64 - 1) % 2 ^ 64 ≡ x - y - 1 = omega arith in
    rw (exact, decreasing_write)
      (decreasing_write-gaps rest y (encode_value_into (x - y - 1) buffer) (omega arith) h.1
        ∙ rw (encode_value_into-varint (x - y - 1) buffer (omega arith), append_assoc))

pub decode_value-varint :
    (d : ℕ) (rest : List ℕ) → IsU64 d → decode_value (varint d ++ rest) ≡ some (d, rest)
decode_value-varint d rest h =
    rw (encode_value_into-varint d [] h) at (decode_value-encode_value_into d rest h)

decreasing_loop_step :
    (fuel d value : ℕ) (rest values : List ℕ)
    → IsU64 value
    → d < value
    → decreasing_loop (suc fuel) (varint d ++ rest) value values
      ≡ decreasing_loop fuel rest (value - d - 1) (values ++ ((value - d - 1) ∷ []))
unfolding decreasing_loop
decreasing_loop_step fuel d value rest values hv h =
    let next : (value + 2 ^ 64 - (d + 1) % 2 ^ 64) % 2 ^ 64 ≡ value - d - 1 = omega arith in
    rw (decode_value-varint d rest (omega arith), decreasing_loop) (rw (next, decreasing_loop))

decreasing_loop-gaps :
    (l : List ℕ) (fuel x : ℕ) (values : List ℕ)
    → IsU64 x
    → Falling x l
    → length (gaps fall x l) ≤ fuel
    → decreasing_loop fuel (gaps fall x l) x values ≡ some (values ++ l)
unfolding gaps
decreasing_loop-gaps [] fuel x values hx h f = rw append-nil (unfold decreasing_loop in refl)
decreasing_loop-gaps (y ∷ rest) zero x values hx h f = absurd (omega arith)
decreasing_loop-gaps (y ∷ rest) (suc fuel) x values hx h f =
    let back : x - (x - y - 1) - 1 ≡ y = omega arith in
    let size = length-append (varint (x - y - 1)) (gaps fall y rest) in
    decreasing_loop_step fuel (x - y - 1) x (gaps fall y rest) values hx (omega arith)
    ∙ rw back (
        decreasing_loop-gaps rest fuel y (values ++ (y ∷ [])) (omega arith) h.1 (omega arith)
        ∙ rw append_assoc refl)

pub decode_decreasing_into-gaps :
    (x : ℕ) (l values : List ℕ)
    → IsU64 x
    → Falling x l
    → decode_decreasing_into (gaps fall x l) x values ≡ some (values ++ (x ∷ l))
unfolding decode_decreasing_into
decode_decreasing_into-gaps x l values hx h =
    decreasing_loop-gaps l (length (gaps fall x l)) x (values ++ (x ∷ [])) hx h (omega arith)
    ∙ rw append_assoc refl

-- decode_decreasing_into, given the first value, returns it and what DecreasingEncoder wrote behind
-- it, for u64 values that fall strictly.
pub decode_decreasing_into-decreasing_write :
    (x : ℕ) (l : List ℕ)
    → IsU64 x
    → Falling x l
    → decode_decreasing_into (decreasing_write (decreasing_new x []) l).buffer x [] ≡ some (x ∷ l)
decode_decreasing_into-decreasing_write x l hx h =
    rw (decreasing_write-gaps l x [] hx h) (decode_decreasing_into-gaps x l [] hx h)
