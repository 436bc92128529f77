-- ===== src/Common/Int.antt =====
-- Signed integers over the native numbers, for i32 counts.
use Prim.Native.Nat.{ℕ, suc, ◌-◌, ◌%◌, ◌^◌, compare, Ordering}
use mathlib.Core.Path.{◌≡◌}
use mathlib.Core.Bool.{Bool, true}
use native.Mathlib.Omega.{arith}
use haunted_house.Common.Tests.{ltb, leb, if◌then◌else◌}
use haunted_house.Common.Sort.{Ord}

-- `negsuc n` is -(n + 1).
pub data ℤ : Type 0 where
  pos : ℕ → ℤ
  negsuc : ℕ → ℤ

abbrev pub int_cmp : ℤ → ℤ → Ordering
int_cmp (pos a) (pos b) = compare a b
int_cmp (pos a) (negsuc b) = Ordering.gt
int_cmp (negsuc a) (pos b) = Ordering.lt
int_cmp (negsuc a) (negsuc b) = compare b a

pub int_cmp_eq : (a b : ℤ) → int_cmp a b ≡ Ordering.eq → a ≡ b
int_cmp_eq a b h = ground arith

pub int_cmp_refl : (a : ℤ) → int_cmp a a ≡ Ordering.eq
int_cmp_refl a = ground arith

instance abbrev pub int_ord : Ord ℤ
int_ord = record { cmp = int_cmp; cmp_eq = int_cmp_eq; cmp_refl = int_cmp_refl }

-- `n as i32` of a usize.
abbrev pub as_i32 : ℕ → ℤ
as_i32 n = if ltb (n % 2 ^ 32) (2 ^ 31) then pos (n % 2 ^ 32) else negsuc (2 ^ 32 - n % 2 ^ 32 - 1)

-- `z as usize` of an i32, on a 64-bit machine.
abbrev pub as_usize : ℤ → ℕ
as_usize (pos n) = n
as_usize (negsuc n) = 2 ^ 64 - suc n

-- z ≤ n.
abbrev pub leb_ℤ : ℤ → ℕ → Bool
leb_ℤ (pos m) n = leb m n
leb_ℤ (negsuc m) n = true
