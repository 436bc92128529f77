-- ===== src/Journal/Feed.antt =====
-- worker/journal.rs: the data of a block is the same in whatever pieces it is read.
use haunted_house.Common.{
  ℕ, zero, suc, ◌+◌, ◌/◌, ◌≤◌, ◌<◌, ◌≡◌, refl, sym, ap, ◌∙◌, arith, List, [], ◌∷◌, ◌++◌,
  append_assoc, append-nil, Option, none, some, Bool, true, false, take, drop, length, ◌==◌, ◌⊎◌,
  inl, inr,
}
use haunted_house.Journal.Blocks.{Cobs}
use haunted_house.Journal.Cursor.{
  Fed, data_start, no_data, data_complete, data_continue, CobsDecoder, feed_bytes,
}

-- What the crate documents of its decoder, which is fed one byte at a time: a whole encoding gives
-- the data, and is complete at the zero byte and not before; and what was decoded of a part of it
-- lags behind by a byte in 254, and by the bytes at the start.
pub record DecoderLaws (cobs : Cobs) (d : CobsDecoder) : Type 0 where
  pub feed-whole :
      (bytes : List ℕ)
      → (s : d.State) × (feed_bytes d d.idle (cobs.encode bytes ++ (0 ∷ [])) []
          ≡ some (s, bytes, true))
  pub feed-front :
      (bytes front back : List ℕ) (x : ℕ)
      → cobs.encode bytes ++ (0 ∷ []) ≡ front ++ (x ∷ back)
      → (s : d.State) × (out : List ℕ) × (rest : List ℕ) × (feed_bytes d d.idle front []
          ≡ some (s, out, false))
        × (bytes ≡ out ++ rest)
        × (length front ≤ length out + length out / 254 + 2)

-- Two ways to cut a list.
pub cut_cases :
    (a t b c : List ℕ)
    → a ++ t ≡ b ++ c
    → ((a' : List ℕ) × (a ≡ b ++ a') × (c ≡ a' ++ t))
      ⊎ ((z : ℕ) × (b' : List ℕ) × (b ≡ a ++ (z ∷ b')) × (t ≡ (z ∷ b') ++ c))
cut_cases a t [] c e = inl (a, refl, sym e)
cut_cases [] t (z ∷ b) c e = inr (z, b, refl, e)
cut_cases (y ∷ a) t (z ∷ b) c e =
    let same : y ≡ z = cc in
    elim (cut_cases a t b c cc) [
      | inl (a', f, g) ↦ inl (a', rw same (ap (◌∷◌ z) f), g)
      | inr (w, b', f, g) ↦ inr (w, b', rw same (ap (◌∷◌ z) f), g)
    ]

pub append-cancel : (a b c : List ℕ) → a ++ b ≡ a ++ c → b ≡ c
append-cancel [] b c e = e
append-cancel (x ∷ a) b c e = append-cancel a b c cc

drop-add_nil : (m n : ℕ) → drop {A = ℕ} (suc m + n) [] ≡ drop n []
drop-add_nil m zero = let same : suc m + 0 ≡ suc m = omega arith in rw same refl
drop-add_nil m (suc n) = let same : suc m + suc n ≡ suc (m + suc n) = omega arith in rw same refl

pub drop-add : (m n : ℕ) (l : List ℕ) → drop (m + n) l ≡ drop n (drop m l)
drop-add zero n l = let same : 0 + n ≡ n = omega arith in rw same refl
drop-add (suc m) n [] = drop-add_nil m n
drop-add (suc m) n (x ∷ l) =
    let same : suc m + n ≡ suc (m + n) = omega arith in rw same (drop-add m n l)

pub take_some : (n x : ℕ) (l : List ℕ) → 0 < n → (length (take n (x ∷ l)) == 0) ≡ false
take_some zero x l h = absurd (omega arith)
take_some (suc n) x l h = ground arith

-- The first bytes of a list, where it has as many, and otherwise all of it.
pub take_cases :
    (n : ℕ) (l m : List ℕ)
    → ((y : ℕ) × (back : List ℕ) × (l ≡ take n (l ++ m) ++ (y ∷ back))
        × (length (take n (l ++ m)) ≡ n))
      ⊎ ((more : List ℕ) × (take n (l ++ m) ≡ l ++ more))
take_cases n [] m = inr (take n m, refl)
take_cases zero (x ∷ l) m = inl (x, l, refl, refl)
take_cases (suc n) (x ∷ l) m = elim (take_cases n l m) [
  | inl (y, back, e, f) ↦ inl (y, back, ap (◌∷◌ x) e, ap suc f)
  | inr (more, e) ↦ inr (more, ap (◌∷◌ x) e)
]

module _ (d : CobsDecoder) where
  -- What feeding some bytes gives, behind any output.
  abbrev Feeds : d.State → List ℕ → Type 0
  Feeds s p =
      ((out : List ℕ) → feed_bytes d s p out ≡ none)
      ⊎ ((s' : d.State) × (o : List ℕ) × (c : Bool) × ((out : List ℕ)
            → feed_bytes d s p out ≡ some (s', out ++ o, c)))

  feed_step :
      (s : d.State) (x : ℕ) (p : List ℕ) (fed : Option (d.State × Fed))
      → d.feed s x ≡ fed
      → ((s' : d.State) → Feeds s' p)
      → Feeds s (x ∷ p)
  unfolding feed_bytes
  feed_step s x p none e h = inl (λ out. rw (e, feed_bytes) refl)
  feed_step s x p (some (s', data_start)) e h = elim (h s') [
    | inl f ↦ inl (λ out. rw (e, feed_bytes) (f out))
    | inr (t, o, c, f) ↦ inr (t, o, c, λ out. rw (e, feed_bytes) (f out))
  ]
  feed_step s x p (some (s', no_data)) e h = elim (h s') [
    | inl f ↦ inl (λ out. rw (e, feed_bytes) (f out))
    | inr (t, o, c, f) ↦ inr (t, o, c, λ out. rw (e, feed_bytes) (f out))
  ]
  feed_step s x p (some (s', data_complete)) e h =
      inr (s', [], true, λ out. rw (e, feed_bytes, append-nil out) refl)
  feed_step s x p (some (s', data_continue v)) e h = elim (h s') [
    | inl f ↦ inl (λ out. rw (e, feed_bytes) (f (out ++ (v ∷ []))))
    | inr (t, o, c, f) ↦
        inr (t, v ∷ o, c, λ out. rw (e, feed_bytes) (f (out ++ (v ∷ [])) ∙ rw append_assoc refl))
  ]

  feed_bytes-Feeds : (p : List ℕ) (s : d.State) → Feeds s p
  unfolding feed_bytes
  feed_bytes-Feeds [] s = inr (s, [], false, λ out. rw (append-nil out) refl)
  feed_bytes-Feeds (x ∷ p) s = feed_step s x p (d.feed s x) refl (λ s'. feed_bytes-Feeds p s')

  append_step :
      (s s' : d.State) (x : ℕ) (p q out out' : List ℕ) (fed : Option (d.State × Fed))
      → d.feed s x ≡ fed
      → ((t : d.State) (o : List ℕ)
          → feed_bytes d t p o ≡ some (s', out', false)
          → feed_bytes d t (p ++ q) o ≡ feed_bytes d s' q out')
      → feed_bytes d s (x ∷ p) out ≡ some (s', out', false)
      → feed_bytes d s (x ∷ (p ++ q)) out ≡ feed_bytes d s' q out'
  unfolding feed_bytes
  append_step s s' x p q out out' none f ih e = absurd (cc (rw (f, feed_bytes) at e))
  append_step s s' x p q out out' (some (t, data_start)) f ih e =
      rw (f, feed_bytes) (ih t out (rw (f, feed_bytes) at e))
  append_step s s' x p q out out' (some (t, no_data)) f ih e =
      rw (f, feed_bytes) (ih t out (rw (f, feed_bytes) at e))
  append_step s s' x p q out out' (some (t, data_complete)) f ih e =
      absurd (cc (rw (f, feed_bytes) at e))
  append_step s s' x p q out out' (some (t, data_continue v)) f ih e =
      rw (f, feed_bytes) (ih t (out ++ (v ∷ [])) (rw (f, feed_bytes) at e))

  -- Bytes behind those that left the data incomplete are fed to the state they left.
  pub feed_bytes-append :
      (p q : List ℕ) (s s' : d.State) (out out' : List ℕ)
      → feed_bytes d s p out ≡ some (s', out', false)
      → feed_bytes d s (p ++ q) out ≡ feed_bytes d s' q out'
  unfolding feed_bytes
  feed_bytes-append [] q s s' out out' e =
      let a : s ≡ s' = cc in let b : out ≡ out' = cc in rw (a, b) refl
  feed_bytes-append (x ∷ p) q s s' out out' e =
      append_step s s' x p q out out' (d.feed s x) refl
        (λ t o h. feed_bytes-append p q t s' o out' h) e

  complete_step :
      (s s' : d.State) (x : ℕ) (p q out out' : List ℕ) (fed : Option (d.State × Fed))
      → d.feed s x ≡ fed
      → ((t : d.State) (o : List ℕ)
          → feed_bytes d t p o ≡ some (s', out', true)
          → feed_bytes d t (p ++ q) o ≡ some (s', out', true))
      → feed_bytes d s (x ∷ p) out ≡ some (s', out', true)
      → feed_bytes d s (x ∷ (p ++ q)) out ≡ some (s', out', true)
  unfolding feed_bytes
  complete_step s s' x p q out out' none f ih e = absurd (cc (rw (f, feed_bytes) at e))
  complete_step s s' x p q out out' (some (t, data_start)) f ih e =
      rw (f, feed_bytes) (ih t out (rw (f, feed_bytes) at e))
  complete_step s s' x p q out out' (some (t, no_data)) f ih e =
      rw (f, feed_bytes) (ih t out (rw (f, feed_bytes) at e))
  complete_step s s' x p q out out' (some (t, data_complete)) f ih e =
      rw (f, feed_bytes) (rw (f, feed_bytes) at e)
  complete_step s s' x p q out out' (some (t, data_continue v)) f ih e =
      rw (f, feed_bytes) (ih t (out ++ (v ∷ [])) (rw (f, feed_bytes) at e))

  -- Bytes behind the end of the data are not fed.
  pub feed_bytes_complete :
      (p q : List ℕ) (s s' : d.State) (out out' : List ℕ)
      → feed_bytes d s p out ≡ some (s', out', true)
      → feed_bytes d s (p ++ q) out ≡ some (s', out', true)
  unfolding feed_bytes
  feed_bytes_complete [] q s s' out out' e = absurd (cc e)
  feed_bytes_complete (x ∷ p) q s s' out out' e =
      complete_step s s' x p q out out' (d.feed s x) refl
        (λ t o h. feed_bytes_complete p q t s' o out' h) e

  -- A run that gives something behind one output gives the same behind any other.
  pub feed_bytes-delta :
      (p : List ℕ) (s s' : d.State) (out out' : List ℕ) (c : Bool)
      → feed_bytes d s p out ≡ some (s', out', c)
      → (o : List ℕ) × (out' ≡ out ++ o)
        × ((buffer : List ℕ) → feed_bytes d s p buffer ≡ some (s', buffer ++ o, c))
  feed_bytes-delta p s s' out out' c e = elim (feed_bytes-Feeds p s) [
    | inl f ↦ let bad = f out in absurd (cc)
    | inr (t, o, b, f) ↦
        let one = f out in
        let same_s : t ≡ s' = cc in
        let same_b : b ≡ c = cc in (o, cc, λ buffer. rw (← same_s, ← same_b) (f buffer))
  ]
