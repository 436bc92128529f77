-- ===== src/Encoding/Tests.antt =====
-- Runs of the encoder and decoders of worker/encoding.rs, and the theorems at concrete inputs.
use haunted_house.Common.{ℕ, ◌≤◌, ◌≡◌, refl, arith, List, [], ◌∷◌, ◌++◌, none, some, length, All}
use haunted_house.Common.Order.{lt_wf}
use haunted_house.Encoding.{
  IsByte, encode_value_into, encode_loop, fragment, encode_into_increasing, decreasing_new,
  decreasing_write, decode_value, try_decode_value, decode_decreasing_into, decode_into,
  decode_loop, read_group, add_group, stream_new, encode_windows, StreamDecode,
}
use haunted_house.Encoding.Varint.{encode_value_into_shape}
use haunted_house.Encoding.Read.{decode_value-encode_value_into, try_decode_value-encode_value_into}
use haunted_house.Encoding.Prefix.{try_decode_value_prefix}
use haunted_house.Encoding.Sequence.{
  decode_into-encode_into_increasing, decode_decreasing_into-decreasing_write,
}
use haunted_house.Encoding.Stream.{collect, collect-encode_into_increasing}
use native.Mathlib.Decide.{dec_lt}

encode_300 : encode_value_into 300 (7 ∷ []) ≡ 7 ∷ 0xac ∷ 0x02 ∷ []
unfolding encode_value_into encode_loop fragment lt_wf dec_lt
encode_300 = refl

-- The test incomplete_write of the source.
abbrev written : List ℕ
written = 1 ∷ 0xf3 ∷ 0x03 ∷ 0xfd ∷ 0x92 ∷ 0x8b ∷ 0x25 ∷ []

incomplete_write_full : encode_into_increasing (1 ∷ 500 ∷ 77777777 ∷ []) [] ≡ written
unfolding encode_into_increasing encode_windows encode_value_into encode_loop fragment lt_wf dec_lt
incomplete_write_full = refl

incomplete_write_decoded : decode_into written [] ≡ some (1 ∷ 500 ∷ 77777777 ∷ [], 7)
unfolding decode_into decode_loop read_group add_group
incomplete_write_decoded = refl

incomplete_write_cut :
    decode_into (1 ∷ 0xf3 ∷ 0x03 ∷ 0xfd ∷ 0x92 ∷ 0x8b ∷ 0 ∷ []) [] ≡ some (1 ∷ 500 ∷ [], 3)
unfolding decode_into decode_loop read_group add_group
incomplete_write_cut = refl

encode_value_into_shape_example :
    (bytes : List ℕ) × (encode_value_into 300 (7 ∷ []) ≡ (7 ∷ []) ++ bytes)
    × All IsByte bytes
    × (1 ≤ length bytes)
    × (length bytes ≤ 10)
encode_value_into_shape_example = encode_value_into_shape 300 (7 ∷ []) (omega arith)

decode_value-encode_value_into_example :
    decode_value (encode_value_into 300 [] ++ (9 ∷ [])) ≡ some (300, 9 ∷ [])
decode_value-encode_value_into_example = decode_value-encode_value_into 300 (9 ∷ []) (omega arith)

try_decode_value-encode_value_into_example :
    try_decode_value (encode_value_into 300 [] ++ (0xff ∷ []))
    ≡ some (300, length (encode_value_into 300 []))
try_decode_value-encode_value_into_example =
    try_decode_value-encode_value_into 300 (0xff ∷ []) (omega arith)

encode_alone : encode_value_into 300 [] ≡ (0xac ∷ []) ++ (0x02 ∷ [])
unfolding encode_value_into encode_loop fragment lt_wf dec_lt
encode_alone = refl

try_decode_value_prefix_example : try_decode_value (0xac ∷ []) ≡ none
try_decode_value_prefix_example =
    try_decode_value_prefix 300 0x02 (0xac ∷ []) [] (omega arith) encode_alone

decode_into-encode_into_increasing_example :
    decode_into (encode_into_increasing (1 ∷ 500 ∷ 77777777 ∷ []) []) []
    ≡ some (1 ∷ 500 ∷ 77777777 ∷ [], length (encode_into_increasing (1 ∷ 500 ∷ 77777777 ∷ []) []))
decode_into-encode_into_increasing_example =
    decode_into-encode_into_increasing 1 (500 ∷ 77777777 ∷ []) (omega arith) (omega arith)
      (omega arith) (rw incomplete_write_full (omega arith))

decode_decreasing_into-decreasing_write_example :
    decode_decreasing_into (decreasing_write (decreasing_new 500 []) (300 ∷ 2 ∷ [])).buffer 500 []
    ≡ some (500 ∷ 300 ∷ 2 ∷ [])
decode_decreasing_into-decreasing_write_example =
    decode_decreasing_into-decreasing_write 500 (300 ∷ 2 ∷ []) (omega arith) (omega arith)

collect-encode_into_increasing_example :
    collect 9 (stream_new (encode_into_increasing (0 ∷ 5 ∷ 5 ∷ 500 ∷ []) [])) ≡ 0 ∷ 5 ∷ 5 ∷ 500 ∷ []
collect-encode_into_increasing_example =
    collect-encode_into_increasing 0 9 (5 ∷ 5 ∷ 500 ∷ []) (omega arith) (omega arith) (omega arith)

abbrev three_then_four : StreamDecode
three_then_four = record { bytes = 1 ∷ []; next_value = some 3 }
