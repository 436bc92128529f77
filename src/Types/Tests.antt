-- ===== src/Types/Tests.antt =====
-- Runs of types.rs, and the theorems at concrete inputs.
use haunted_house.Common.{
  ℕ, ◌+◌, ◌-◌, ◌*◌, ◌/◌, ◌%◌, ◌<◌, ◌≡◌, refl, ap, arith, List, [], ◌∷◌, Option, none, some, length,
  All, inl,
}
use haunted_house.Common.Int.{ℤ, pos}
use haunted_house.Query.Adds.{IsByte}
use haunted_house.Types.{
  Hex, filter_id_text, filter_id_from_str, Chrono, expiry_create, as_timestamp, before_archive,
  expiry_min, expiry_max,
}
use haunted_house.Types.Text.{HexLaws, filter_id_from_str-filter_id_text}
use haunted_house.Types.Expiry.{ChronoLaws, as_timestamp-expiry_create, expiry_create-order}

-- Stands for the crate hex, with two digits for a byte.
abbrev write_digits : List ℕ → List ℕ
write_digits [] = []
write_digits (b ∷ bytes) = (b / 16) ∷ (b % 16) ∷ write_digits bytes

abbrev read_digits : List ℕ → List ℕ
read_digits [] = []
read_digits (d ∷ []) = []
read_digits (d ∷ e ∷ digits) = (d * 16 + e) ∷ read_digits digits

abbrev digits : Hex
digits = record {
  encode = write_digits;
  decode = λ s. some (read_digits s);
  decode_to_slice = λ s n. some (read_digits s);
}

length-write_digits : (bytes : List ℕ) → length (write_digits bytes) ≡ 2 * length bytes
length-write_digits [] = refl
length-write_digits (b ∷ bytes) = omega (arith, length-write_digits bytes)

read_digits-write_digits : (bytes : List ℕ) → read_digits (write_digits bytes) ≡ bytes
read_digits-write_digits [] = refl
read_digits-write_digits (b ∷ bytes) =
    let whole : b / 16 * 16 + b % 16 ≡ b = omega arith in
    rw (whole, read_digits-write_digits bytes) refl

abbrev digits_laws : HexLaws digits
digits_laws = record {
  length-encode = length-write_digits;
  decode-encode = λ bytes ok. ap some (read_digits-write_digits bytes);
  decode_to_slice-encode = λ bytes ok. ap some (read_digits-write_digits bytes);
}

abbrev repeat_byte : ℕ → List ℕ → List ℕ
repeat_byte b l = b ∷ b ∷ b ∷ b ∷ b ∷ b ∷ b ∷ b ∷ l

abbrev some_sha : List ℕ
some_sha = repeat_byte 171 (repeat_byte 5 (repeat_byte 255 (repeat_byte 0 [])))

repeat_byte-All : (b : ℕ) (l : List ℕ) → IsByte b → All IsByte l → All IsByte (repeat_byte b l)
repeat_byte-All b l h ok = (h, (h, (h, (h, (h, (h, (h, (h, ok))))))))

filter_id_from_str-filter_id_text_example :
    filter_id_from_str digits (filter_id_text digits (record { value = pos 300 }))
    ≡ some (record { value = pos 300 })
filter_id_from_str-filter_id_text_example =
    filter_id_from_str-filter_id_text digits digits_laws (record { value = pos 300 }) (omega arith)

-- Stands for the crate chrono: a year, a day from 0, and the second of that day.
abbrev calendar : Chrono
calendar = record {
  DateTime = ℕ × ℕ × ℕ;
  year = λ d. pos d.0;
  ordinal = λ d. d.1 % 366 + 1;
  from_yo_opt = λ y o. some (y, o - 1, 0);
}

same_day :
    (d : ℕ × ℕ × ℕ) (y : ℕ)
    → ◌≡◌ {A = ℤ} (pos d.0) (pos y)
    → ◌≡◌ {A = Option (ℕ × ℕ × ℕ)} (some (y, d.1 % 366 + 1 - 1, 0)) (some (d.0, d.1 % 366, 0))
same_day d y e =
    let day : d.1 % 366 + 1 - 1 ≡ d.1 % 366 = omega arith in
    let year : d.0 ≡ y = cc in rw (day, year) refl

abbrev calendar_laws : ChronoLaws calendar
calendar_laws = record {
  ordinal-range = λ d. (omega arith, omega arith);
  day_start = λ d. (d.0, d.1 % 366, 0);
  from_yo_opt-year = same_day;
}

as_timestamp-expiry_create_example :
    (as_timestamp calendar (expiry_create calendar (some (2024, 100, 7))) ≡ some (2024, 100, 0))
    × (as_timestamp calendar (expiry_create calendar none) ≡ none)
as_timestamp-expiry_create_example =
    as_timestamp-expiry_create calendar calendar_laws (2024, 100, 7) 2024 (refl, omega arith)

expiry_create-order_example :
    (expiry_min.packed < (expiry_create calendar (some (2023, 300, 0))).packed)
    × ((expiry_create calendar (some (2023, 300, 0))).packed
        < (expiry_create calendar (some (2024, 100, 7))).packed)
    × ((expiry_create calendar (some (2024, 100, 7))).packed < before_archive.packed)
    × (before_archive.packed < (expiry_create calendar none).packed)
    × ((expiry_create calendar none).packed < expiry_max.packed)
expiry_create-order_example =
    expiry_create-order calendar calendar_laws (2023, 300, 0) (2024, 100, 7) 2023 2024
      (refl, omega arith) (refl, omega arith) (inl (omega arith))
