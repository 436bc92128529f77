-- ===== src/Counter/Tests.antt =====
-- Runs of counters.rs, and the theorem at a concrete input.
use haunted_house.Common.{◌≡◌, refl, arith, [], ◌∷◌}
use haunted_house.Counter.{
  WindowCounter, counter_new, increment, counter_value, clean, clean_loop, add_back,
}
use haunted_house.Counter.Window.{Counted, made, incremented, counter_value-Counted}

-- Three events, the first of which leaves the window.
abbrev busy : WindowCounter
busy = increment 70 70 5 (increment 62 62 2 (increment 5 5 9 (counter_new 60)))

busy_run : (counter_value 71 busy).1 ≡ 7
unfolding counter_value clean clean_loop increment add_back counter_new
busy_run = refl

busy-Counted : Counted busy 70 ((70, 5) ∷ (62, 2) ∷ (5, 9) ∷ [])
busy-Counted =
    incremented _ 62 70 70 5 _
      (incremented _ 5 62 62 2 _
        (incremented _ 0 5 5 9 _ (made 60) (omega arith) (omega arith) (omega arith)) (omega arith)
        (omega arith) (omega arith))
      (omega arith) (omega arith) (omega arith)

counter_value-Counted_example : (counter_value 71 busy).1 ≡ 7
unfolding increment clean counter_new
counter_value-Counted_example =
    counter_value-Counted busy 70 71 ((70, 5) ∷ (62, 2) ∷ (5, 9) ∷ []) busy-Counted (omega arith)
