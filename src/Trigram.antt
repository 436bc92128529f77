-- ===== src/Trigram.antt =====
-- worker/trigrams.rs: the trigrams of a file, from the buffers that the storage sends.

pub mod Build
pub mod Chunk
pub mod Keeps
pub mod Iterate
pub mod Walk
pub mod Whole
pub mod Search
mod Tests
use haunted_house.Common.{
  ℕ, ◌+◌, ◌*◌, ◌%◌, ◌^◌, ◌<◌, ◌≡◌, List, [], ◌∷◌, ◌++◌, Bool, true, false, not, length, leb, ◌==◌,
  ◌||◌, All, if◌then◌else◌,
}
use Prim.Native.Nat.{bit_or}
use haunted_house.Encoding.{stream_encode_new, finish}
use haunted_house.Encoding.Stream.{add_all}
use haunted_house.Encoding.Sequence.{Rising}
use haunted_house.Journal.Union.{elem}

-- An array of bits of the crate bitvec, as far as it is used.
pub record BitArr : Type 1 where
  pub Bits : Type 0
  pub zeroed : Bits
  pub get : Bits → ℕ → Bool
  pub set : Bits → ℕ → Bits
  pub iter_ones : Bits → List ℕ
  pub iter_zeros : Bits → List ℕ

-- Numbers below `n` that rise strictly.
abbrev pub Indices : ℕ → List ℕ → Type 0
Indices n [] = Unit {0}
Indices n (x ∷ l) = (x < n) × Rising x l × All (λ y. y < n) l

-- What the crate documents of an array of `n` bits: `set` sets one bit, and the iterators give the
-- indices of the ones and of the zeros in order.
pub record BitArrLaws (n : ℕ) (b : BitArr) : Type 0 where
  pub get-zeroed : (i : ℕ) → i < n → b.get b.zeroed i ≡ false
  pub get-set : (m : b.Bits) (i j : ℕ) → i < n → j < n → b.get (b.set m i) j ≡ (j == i || b.get m j)
  pub elem-iter_ones : (m : b.Bits) (i : ℕ) → i < n → elem i (b.iter_ones m) ≡ b.get m i
  pub iter_ones-Indices : (m : b.Bits) → Indices n (b.iter_ones m)
  pub elem-iter_zeros : (m : b.Bits) (i : ℕ) → i < n → elem i (b.iter_zeros m) ≡ not (b.get m i)
  pub iter_zeros-Indices : (m : b.Bits) → Indices n (b.iter_zeros m)

-- What the storage sends: a buffer or an error.
pub data Received {ℓ} (E : Type ℓ) : Type ℓ where
  buffer : List ℕ → Received E
  broken : E → Received E

-- What build_file returns, or its panic on an index out of range. The deltas stand for
-- TrigramFile::Deltas.
pub data Built {ℓ} (E : Type ℓ) : Type ℓ where
  deltas : List ℕ → Built E
  failed : E → Built E
  panicked : Built E

-- `(data[0] as u32) << 8 | (data[1] as u32)`
unfoldable pub first_two : ℕ → ℕ → ℕ
first_two x y = bit_or (x * 2 ^ 8) y

-- `(trigram & 0x00FFFF) << 8 | (*byte as u32)`
unfoldable pub push_byte : ℕ → ℕ → ℕ
push_byte trigram byte = bit_or (trigram % 2 ^ 16 * 2 ^ 8) byte

module _ (b : BitArr) where
  -- `for byte in &buffer[index_start..]`
  unfoldable pub mark : b.Bits → ℕ → List ℕ → b.Bits × ℕ
  mark mask trigram [] = (mask, trigram)
  mark mask trigram (byte ∷ bytes) =
      let trigram' = push_byte trigram byte in mark (b.set mask trigram') trigram' bytes

  -- The mask as offsets.
  unfoldable pub to_deltas : b.Bits → List ℕ
  to_deltas mask = finish (add_all stream_encode_new (b.iter_ones mask))

  module _ {ℓ} {E : Type ℓ} where
    -- The main loop, once a buffer was marked.
    unfoldable pub build_loop : b.Bits → ℕ → List (Received E) → Built E
    build_loop mask trigram [] = deltas (to_deltas mask)
    build_loop mask trigram (broken e ∷ input) = failed e
    build_loop mask trigram (buffer [] ∷ input) = deltas (to_deltas mask)
    build_loop mask trigram (buffer (byte ∷ bytes) ∷ input) =
        let (mask', trigram') = mark mask trigram (byte ∷ bytes) in build_loop mask' trigram' input

    unfoldable pub build_main : List ℕ → List (Received E) → Built E
    build_main [] input = panicked
    build_main (x ∷ []) input = panicked
    build_main (x ∷ y ∷ bytes) input =
        let (mask, trigram) = mark b.zeroed (first_two x y) bytes in build_loop mask trigram input

    -- `while buffer.len() <= 2`, and what follows it.
    unfoldable pub build_start : List ℕ → List (Received E) → Built E
    build_start start [] = if leb (length start) 2 then deltas [] else build_main start []
    build_start start (broken e ∷ input) =
        if leb (length start) 2 then failed e else build_main start (broken e ∷ input)
    build_start start (buffer more ∷ input) =
        let extended = build_start (start ++ more) input in
        if leb (length start) 2 then extended else build_main start (buffer more ∷ input)

    unfoldable pub build_file : List (Received E) → Built E
    build_file input = build_start [] input
