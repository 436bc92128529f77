-- ===== src/Types/Expiry.antt =====
-- types.rs: the groups of files by their day of expiry are in the order of the days.
use haunted_house.Common.{
  ℕ, ◌+◌, ◌*◌, ◌/◌, ◌%◌, ◌^◌, ◌≤◌, ◌<◌, ◌≡◌, refl, arith, none, some, ◌⊎◌, inl, inr,
}
use haunted_house.Common.Bits.{bit_or_disjoint, bit_or_comm}
use haunted_house.Common.Int.{pos}
use haunted_house.Types.{
  Chrono, expiry_create, as_timestamp, before_archive, expiry_min, expiry_max,
}

-- What the crate documents: the day of a year is from 1 to 366, and a day that an instant has is a
-- valid one, which begins at `day_start`.
pub record ChronoLaws (chrono : Chrono) : Type 0 where
  pub ordinal-range : (d : chrono.DateTime) → (0 < chrono.ordinal d) × (chrono.ordinal d ≤ 366)
  pub day_start : chrono.DateTime → chrono.DateTime
  pub from_yo_opt-year :
      (d : chrono.DateTime) (y : ℕ)
      → chrono.year d ≡ pos y
      → chrono.from_yo_opt y (chrono.ordinal d) ≡ some (day_start d)

module _ (chrono : Chrono) (laws : ChronoLaws chrono) where
  -- The year of an instant, below the one that stands for no expiry.
  abbrev pub InYear : ℕ → chrono.DateTime → Type 0
  InYear y d = (chrono.year d ≡ pos y) × (y < 65535)

  expiry_create-packed :
      (d : chrono.DateTime) (y : ℕ)
      → InYear y d
      → (expiry_create chrono (some d)).packed ≡ chrono.ordinal d + y * 65536
  unfolding expiry_create
  expiry_create-packed d y (e, h) =
      let range = laws.ordinal-range d in
      let high : y % 2 ^ 32 * 2 ^ 16 % 2 ^ 32 ≡ y * 2 ^ 16 = omega (arith, h) in
      rw
        (
          e,
          high,
          bit_or_comm (y * 2 ^ 16) (chrono.ordinal d),
          bit_or_disjoint 16 (chrono.ordinal d) y (omega (arith, range.1)),
        )
        refl

  -- The group of an instant in a year from 0 to 65534 tells the day, and the group of no expiry tells
  -- none.
  pub as_timestamp-expiry_create :
      (d : chrono.DateTime) (y : ℕ)
      → InYear y d
      → (as_timestamp chrono (expiry_create chrono (some d)) ≡ some (laws.day_start d))
        × (as_timestamp chrono (expiry_create chrono none) ≡ none)
  unfolding as_timestamp
  as_timestamp-expiry_create d y h =
      let range = laws.ordinal-range d in
      let packed = expiry_create-packed d y h in
      let year : (chrono.ordinal d + y * 65536) / 2 ^ 16 ≡ y = omega (arith, range.1) in
      let day : (chrono.ordinal d + y * 65536) % 2 ^ 16 ≡ chrono.ordinal d =
        omega (arith, range.1) in
      (
        rw (packed, as_timestamp, year, day) (ground (arith, laws.from_yo_opt-year d y h.0, h.1)),
        unfold expiry_create in refl,
      )

  -- Groups of instants in years from 0 to 65534 are in the order of their years, and of their days
  -- within a year, and all of them stand above the least group and below the point before no expiry,
  -- which stands below no expiry, and that below the greatest group.
  pub expiry_create-order :
      (d d' : chrono.DateTime) (y y' : ℕ)
      → InYear y d
      → InYear y' d'
      → (y < y') ⊎ ((y ≡ y') × (chrono.ordinal d < chrono.ordinal d'))
      → (expiry_min.packed < (expiry_create chrono (some d)).packed)
        × ((expiry_create chrono (some d)).packed < (expiry_create chrono (some d')).packed)
        × ((expiry_create chrono (some d')).packed < before_archive.packed)
        × (before_archive.packed < (expiry_create chrono none).packed)
        × ((expiry_create chrono none).packed < expiry_max.packed)
  unfolding expiry_min before_archive expiry_max
  expiry_create-order d d' y y' h h' before =
      let range = laws.ordinal-range d in
      let range' = laws.ordinal-range d' in
      (
        omega (arith, expiry_create-packed d y h, range.0),
        rw (expiry_create-packed d y h, expiry_create-packed d' y' h')
            (lower before range.1 range'.1),
        omega (arith, expiry_create-packed d' y' h', range'.1, h'.1),
        unfold expiry_create in omega arith,
        unfold expiry_create in omega arith,
      )
    where
      lower :
          {y y' o o' : ℕ}
          → (y < y') ⊎ ((y ≡ y') × (o < o'))
          → o ≤ 366
          → o' ≤ 366
          → o + y * 65536 < o' + y' * 65536
      lower (inl less) a c = omega arith
      lower (inr (same, less)) a c = omega (arith, same, less)
