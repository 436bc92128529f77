-- ===== src/Counter.antt =====
-- counters.rs: the number of events in a window of time. The clock is an argument: the seconds that
-- each call of `chrono::Utc::now` gives. Seconds and the window are not negative, so a difference
-- that stops at 0 passes the same tests as the source's. Counts are u64.
pub mod Window
mod Tests
use haunted_house.Common.{ℕ, ◌+◌, ◌-◌, ◌%◌, ◌^◌, List, [], ◌∷◌, ◌==◌, ltb, if◌then◌else◌}
use haunted_house.Encoding.{add_u64, sub_u64}

pub record WindowCounter : Type 0 where
  pub buffer : List (ℕ × ℕ)
  pub window : ℕ
  pub count : ℕ

unfoldable pub counter_new : ℕ → WindowCounter
counter_new window = record { buffer = []; window = window; count = 0 }

-- The loop of clean.
unfoldable pub clean_loop : ℕ → List (ℕ × ℕ) → ℕ → List (ℕ × ℕ) × ℕ
clean_loop oldest [] count = ([], count)
clean_loop oldest ((time, value) ∷ buffer) count =
    let cleaned = clean_loop oldest buffer (sub_u64 count value) in
    if ltb time oldest then cleaned else ((time, value) ∷ buffer, count)

unfoldable pub clean : ℕ → WindowCounter → WindowCounter
clean now c =
    let (buffer, count) = clean_loop (now - c.window) c.buffer c.count in
    record { buffer = buffer; window = c.window; count = count }

-- `self.buffer.back_mut()`, and the push where it is of another time.
unfoldable pub add_back : ℕ → ℕ → List (ℕ × ℕ) → List (ℕ × ℕ)
add_back time value [] = (time, value) ∷ []
add_back time value ((window, counter) ∷ []) =
    if window == time
    then (window, add_u64 counter value) ∷ []
    else (window, counter) ∷ (time, value) ∷ []
add_back time value ((window, counter) ∷ entry ∷ buffer) =
    (window, counter) ∷ add_back time value (entry ∷ buffer)

-- The clock is read in clean, and again.
unfoldable pub increment : ℕ → ℕ → ℕ → WindowCounter → WindowCounter
increment now time value c =
    let cleaned = clean now c in
    record {
      buffer = add_back time value cleaned.buffer;
      window = cleaned.window;
      count = add_u64 cleaned.count value;
    }

unfoldable pub counter_value : ℕ → WindowCounter → WindowCounter × ℕ
counter_value now c = let cleaned = clean now c in (cleaned, cleaned.count)
