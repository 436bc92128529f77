-- ===== src/Journal/Launch.antt =====
-- worker/journal.rs: the readers that a query launches give what the journal holds.
use haunted_house.Common.{
  ℕ, zero, suc, ◌+◌, ◌-◌, ◌<◌, ◌≡◌, refl, ap, ◌∙◌, arith, List, [], ◌∷◌, Option, none, some, Bool,
  true, ◌==◌, All, any, drop, length, flat, inl, inr, Bool-cases, length-drop,
}
use haunted_house.Common.Sort.Rising.{Climbs}
use haunted_house.Journal.Addresses.{trigram_range, address_of_word, word_of_address, read_set_loop}
use haunted_house.Journal.Blocks.{Cobs}
use haunted_house.Journal.Chain.{CobsLaws, Chain}
use haunted_house.Journal.Table.{View, RowsOk}
use haunted_house.Journal.Cursor.{CobsDecoder, trigram_reader}
use haunted_house.Journal.Feed.{DecoderLaws}
use haunted_house.Journal.Reader.{trigram_reader-Chain}
use haunted_house.Journal.Network.{remove_channel, launch_readers, sent_by}

abbrev pub Info : Type 0
Info = List (ℕ × Option ℕ × ℕ)

abbrev pub trigrams_of : Info → List ℕ
trigrams_of [] = []
trigrams_of ((t, address, size) ∷ info) = t ∷ trigrams_of info

remove_channel-head : (t : ℕ) (l : List ℕ) → remove_channel t (t ∷ l) ≡ some l
unfolding remove_channel
remove_channel-head t l = ground arith

pub launch_readers-trigrams_of : (info : Info) → launch_readers info (trigrams_of info) ≡ some []
unfolding launch_readers
launch_readers-trigrams_of [] = refl
launch_readers-trigrams_of ((t, address, size) ∷ info) =
    rw (remove_channel-head t (trigrams_of info), launch_readers) (launch_readers-trigrams_of info)

module _ (cobs : Cobs) (laws : CobsLaws cobs) where
  -- Each row leads to the blocks of its trigram.
  abbrev pub InfoOk : List ℕ → View → Info → Type 0
  InfoOk file view [] = Unit {0}
  InfoOk file view ((t, address, size) ∷ info) =
      Chain cobs laws file address (view t) × InfoOk file view info

  RowsOk-drop :
      (file : List ℕ) (k n : ℕ) (rows : List (ℕ × ℕ)) (view : View)
      → RowsOk cobs laws file n rows view
      → RowsOk cobs laws file (n + k) (drop k rows) view
  RowsOk-drop file zero n rows view r = let same : n + 0 ≡ n = omega arith in rw same r
  RowsOk-drop file (suc k) n [] view r = tt
  RowsOk-drop file (suc k) n (row ∷ rows) view r =
      let same : n + suc k ≡ n + 1 + k = omega arith in
      rw same (RowsOk-drop file k (n + 1) rows view r.1)

  abbrev Found : List ℕ → View → List ℕ → Option Info → Type 0
  Found file view trigrams found =
      (info : Info) × (found ≡ some info) × (trigrams_of info ≡ trigrams) × InfoOk file view info

  read_row :
      (file : List ℕ) (view : View) (t location : ℕ) (rows left : List (ℕ × ℕ)) (trigrams : List ℕ)
      → drop (t - location) rows ≡ left
      → 0 < length left
      → RowsOk cobs laws file t left view
      → ((row : ℕ × ℕ) (behind : List (ℕ × ℕ))
          → left ≡ row ∷ behind
          → RowsOk cobs laws file (t + 1) behind view
          → Found file view trigrams (read_set_loop behind (t + 1) trigrams))
      → Found file view (t ∷ trigrams) (read_set_loop rows location (t ∷ trigrams))
  unfolding read_set_loop
  read_row file view t location rows [] trigrams e pos held rest = absurd (omega arith)
  read_row file view t location rows (row ∷ behind) trigrams e pos held rest =
      let (info, found, same, ok) = rest row behind refl held.1 in
      (
        (t, address_of_word row.0, row.1) ∷ info,
        rw (e, read_set_loop, found) refl,
        ap (◌∷◌ t) same,
        (held.0.0, ok),
      )

  -- The rows of trigrams that rise lead to their blocks.
  pub read_set_loop-Found :
      (trigrams : List ℕ) (file : List ℕ) (view : View) (location : ℕ) (rows : List (ℕ × ℕ))
      → Climbs location trigrams
      → All (λ t. t < trigram_range) trigrams
      → location + length rows ≡ trigram_range
      → RowsOk cobs laws file location rows view
      → Found file view trigrams (read_set_loop rows location trigrams)
  read_set_loop-Found [] file view location rows c low full held =
      ([], unfold read_set_loop in refl, refl, tt)
  read_set_loop-Found (t ∷ trigrams) file view location rows c low full held =
      let past : location + (t - location) ≡ t = omega (arith, c.0) in
      let left = length-drop (t - location) rows in
      read_row file view t location rows (drop (t - location) rows) trigrams refl
        (omega (arith, left, low.0, c.0))
        (rw past at (RowsOk-drop file (t - location) location rows view held))
        (λ row behind e held'.
          read_set_loop-Found trigrams file view (t + 1) behind c.1 low.1
            (omega (arith, left, ap length e, low.0, c.0)) held')

  Chain-none :
      (file : List ℕ) (chunks : List (List ℕ)) → Chain cobs laws file none chunks → chunks ≡ []
  Chain-none file [] c = refl
  Chain-none file (ids ∷ older) (current, old, e, b, c) = absurd (cc)

  module _ (d : CobsDecoder) (fed : DecoderLaws cobs d) where
    reader_of-Chain :
        (file : List ℕ) (chunks : List (List ℕ)) (address : Option ℕ)
        → Chain cobs laws file address chunks
        → ◌≡◌ {A = List ℕ}
            (elim address [ none ↦ [] | some start ↦ (trigram_reader d file start).0 ])
            (flat chunks)
    unfolding word_of_address
    reader_of-Chain file chunks none c = rw (Chain-none file chunks c) refl
    reader_of-Chain file chunks (some start) c =
        ap (λ (r : List ℕ × Bool). r.0)
          (trigram_reader-Chain cobs laws d fed chunks file (some start) c)

    -- A trigram of the query is sent with all of its ids, the latest block first.
    pub sent_by-flat :
        (file : List ℕ) (view : View) (info : Info) (t : ℕ)
        → InfoOk file view info
        → any (λ s. s == t) (trigrams_of info) ≡ true
        → sent_by d file info t ≡ flat (view t)
    unfolding sent_by
    sent_by-flat file view [] t ok h = cc
    sent_by-flat file view ((s, address, size) ∷ info) t ok h = elim (Bool-cases (s == t)) [
      | inl here ↦
          let same : s ≡ t = ground arith in
          rw here (reader_of-Chain file (view s) address ok.0 ∙ ap (λ x. flat (view x)) same)
      | inr other ↦ rw other (sent_by-flat file view info t ok.1 (rw other at h))
    ]
