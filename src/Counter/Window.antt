-- ===== src/Counter/Window.antt =====
-- counters.rs: the counter gives the events of the window, whenever it is cleaned.
use haunted_house.Common.{
  ℕ, ◌+◌, ◌-◌, ◌%◌, ◌^◌, ◌≤◌, ◌≡◌, refl, ap, ◌∙◌, arith, List, [], ◌∷◌, ◌==◌, leb, ltb,
  if◌then◌else◌, Bool-cases, inl, inr,
}
use haunted_house.Encoding.{IsU64, sub_u64}
use haunted_house.Counter.{
  WindowCounter, counter_new, clean_loop, clean, add_back, increment, counter_value,
}

-- The events from a time on.
abbrev pub total_from : ℕ → List (ℕ × ℕ) → ℕ
total_from oldest [] = 0
total_from oldest ((time, value) ∷ events) =
    if leb oldest time then value + total_from oldest events else total_from oldest events

-- Entries from `low` to `high`, in order, of u64 counts.
abbrev Entries : ℕ → ℕ → List (ℕ × ℕ) → Type 0
Entries low high [] = low ≤ high
Entries low high ((time, value) ∷ buffer) = (low ≤ time) × IsU64 value × Entries time high buffer

Entries-high : (low high : ℕ) (l : List (ℕ × ℕ)) → Entries low high l → low ≤ high
Entries-high low high [] h = h
Entries-high low high ((t, v) ∷ l) h = omega (arith, h.0, Entries-high t high l h.2)

Entries-low :
    (low low' high : ℕ) (l : List (ℕ × ℕ)) → low' ≤ low → Entries low high l → Entries low' high l
Entries-low low low' high [] le h = omega arith
Entries-low low low' high ((t, v) ∷ l) le h = (omega (arith, h.0), h.1, h.2)

Entries-later :
    (low high high' : ℕ) (l : List (ℕ × ℕ))
    → high ≤ high'
    → Entries low high l
    → Entries low high' l
Entries-later low high high' [] le h = omega arith
Entries-later low high high' ((t, v) ∷ l) le h = (h.0, h.1, Entries-later t high high' l le h.2)

-- Entries that all are recent are all counted.
total_recent :
    (o o' low high : ℕ) (l : List (ℕ × ℕ))
    → Entries low high l
    → o ≤ low
    → o' ≤ low
    → total_from o l ≡ total_from o' l
total_recent o o' low high [] h a b = refl
total_recent o o' low high ((t, v) ∷ l) h a b = ground (arith, h.0, total_recent o o' t high l h.2)

clean_loop_lem :
    (o low high : ℕ) (l : List (ℕ × ℕ)) (count : ℕ)
    → Entries low high l
    → count ≡ total_from 0 l % 2 ^ 64
    → (let (l', count') = clean_loop o l count in
        Entries low high l'
        × (count' ≡ total_from o l % 2 ^ 64)
        × (count' ≡ total_from 0 l' % 2 ^ 64)
        × ((o' : ℕ) → o ≤ o' → total_from o' l' ≡ total_from o' l))
unfolding clean_loop
clean_loop_lem o low high [] count h e = (h, e, e, λ o' le. refl)
clean_loop_lem o low high ((t, v) ∷ l) count h e = elim (Bool-cases (ltb t o)) [
  | inl old ↦
      let whole : total_from 0 ((t, v) ∷ l) ≡ v + total_from 0 l = ground arith in
      let rest : sub_u64 count v ≡ total_from 0 l % 2 ^ 64 = omega (arith, h.1, e, whole) in
      let (a, b, c, d) = clean_loop_lem o t high l (sub_u64 count v) h.2 rest in
      rw old (Entries-low t low high _ h.0 a, b ∙ ground arith, c, λ o' le. d o' le ∙ ground arith)
  | inr recent ↦ rw recent (
    h,
    e
        ∙ ap (λ n. n % 2 ^ 64)
            (total_recent 0 o t high ((t, v) ∷ l) (omega arith, h.1, h.2) (omega arith)
              (ground arith)),
    e,
    λ o' le. refl,
  )
]

add_back_lem :
    (low high time value : ℕ) (l : List (ℕ × ℕ))
    → Entries low high l
    → high ≤ time
    → IsU64 value
    → Entries low time (add_back time value l)
      × ((o : ℕ)
          → total_from o (add_back time value l) % 2 ^ 64
            ≡ (total_from o l + total_from o ((time, value) ∷ [])) % 2 ^ 64)
unfolding add_back
add_back_lem low high time value [] h le u = ((omega arith, u, omega arith), λ o. ground arith)
add_back_lem low high time value ((t, v) ∷ []) h le u = elim (Bool-cases (t == time)) [
  | inl same ↦
      let e : t ≡ time = ground arith in
      rw (same, e) ((omega (arith, h.0), omega arith, omega arith), λ o. ground arith)
  | inr other ↦ rw other ((h.0, h.1, (omega (arith, h.2), u, omega arith)), λ o. ground arith)
]
add_back_lem low high time value ((t, v) ∷ entry ∷ l) h le u =
    let (a, b) = add_back_lem t high time value (entry ∷ l) h.2 le u in
    ((h.0, h.1, a), λ o. ground (arith, b o))

-- The counters that increments and readings lead to, with the clock and the events so far, the latest
-- first. The clock does not go back.
pub data Counted : WindowCounter → ℕ → List (ℕ × ℕ) → Type 0 where
  made : (window : ℕ) → Counted (counter_new window) 0 []
  incremented :
      (c : WindowCounter) (clock now time value : ℕ) (events : List (ℕ × ℕ))
      → Counted c clock events
      → clock ≤ now
      → now ≤ time
      → IsU64 value
      → Counted (increment now time value c) time ((time, value) ∷ events)
  read :
      (c : WindowCounter) (clock now : ℕ) (events : List (ℕ × ℕ))
      → Counted c clock events
      → clock ≤ now
      → Counted (counter_value now c).0 now events

-- The buffer is in order, its counts are in the total, and it has the events of every window from now
-- on.
abbrev Good : WindowCounter → ℕ → List (ℕ × ℕ) → Type 0
Good c clock events =
    Entries 0 clock c.buffer
    × (c.count ≡ total_from 0 c.buffer % 2 ^ 64)
    × ((o : ℕ)
        → clock - c.window ≤ o
        → total_from o c.buffer % 2 ^ 64 ≡ total_from o events % 2 ^ 64)

clean-Good :
    (c : WindowCounter) (clock now : ℕ) (events : List (ℕ × ℕ))
    → Good c clock events
    → clock ≤ now
    → Good (clean now c) now events
      × ((clean now c).count ≡ total_from (now - c.window) events % 2 ^ 64)
unfolding clean
clean-Good c clock now events (h, e, k) le =
    let (a, b, d, f) = clean_loop_lem (now - c.window) 0 clock c.buffer c.count h e in
    (
      (
        Entries-later 0 clock now _ le a,
        d,
        λ o p. ap (λ n. n % 2 ^ 64) (f o p) ∙ k o (omega arith),
      ),
      b ∙ k (now - c.window) (omega arith),
    )

clean_window : (now : ℕ) (c : WindowCounter) → (clean now c).window ≡ c.window
unfolding clean
clean_window now c = refl

increment-Good :
    (c : WindowCounter) (clock now time value : ℕ) (events : List (ℕ × ℕ))
    → Good c clock events
    → clock ≤ now
    → now ≤ time
    → IsU64 value
    → Good (increment now time value c) time ((time, value) ∷ events)
unfolding increment
increment-Good c clock now time value events good le le' u =
    let ((h, e, k), b) = clean-Good c clock now events good le in
    let (order, sums) = add_back_lem 0 now time value (clean now c).buffer h le' u in
    (
      order,
      ground (arith, sums 0, e),
      λ o p. ground (arith, sums o, k o (omega (arith, p, clean_window now c))),
    )

read-Good :
    (c : WindowCounter) (clock now : ℕ) (events : List (ℕ × ℕ))
    → Good c clock events
    → clock ≤ now
    → Good (counter_value now c).0 now events
unfolding counter_value
read-Good c clock now events good le = (clean-Good c clock now events good le).0

Counted-Good :
    (c : WindowCounter) (clock : ℕ) (events : List (ℕ × ℕ))
    → Counted c clock events
    → Good c clock events
Counted-Good _ _ _ (made window) = unfold counter_new in (omega arith, refl, λ o p. refl)
Counted-Good _ _ _ (incremented c clock now time value events h le le' u) =
    increment-Good c clock now time value events (Counted-Good c clock events h) le le' u
Counted-Good _ _ _ (read c clock now events h le) =
    read-Good c clock now events (Counted-Good c clock events h) le

-- Whatever increments and readings a counter went through, as long as the clock does not go back, its
-- value is the number of events, modulo 2 ^ 64, of the window that ends now.
pub counter_value-Counted :
    (c : WindowCounter) (clock now : ℕ) (events : List (ℕ × ℕ))
    → Counted c clock events
    → clock ≤ now
    → (counter_value now c).1 ≡ total_from (now - c.window) events % 2 ^ 64
unfolding counter_value
counter_value-Counted c clock now events h le =
    (clean-Good c clock now events (Counted-Good c clock events h) le).1
