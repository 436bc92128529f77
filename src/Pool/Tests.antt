-- ===== src/Pool/Tests.antt =====
-- A run of pool.rs, and the theorem at it.
use haunted_house.Common.{ℕ, ◌≡◌, refl, arith, [], ◌∷◌, ◌==◌}
use haunted_house.Pool.{Pool, pool_new, get, wake, drop_lease}
use haunted_house.Pool.Steps.{Reached, fresh, got, woken, dropped, present, present-Reached}

-- Two items, three threads: one waits, and gets the item that is given back first.
abbrev crowded : Pool ℕ
crowded = get (get (get (pool_new (7 ∷ 8 ∷ []))))

abbrev relieved : Pool ℕ
relieved = wake (drop_lease [] 8 (7 ∷ []) crowded)

relieved_run : relieved ≡ record { items = []; leased = 8 ∷ 7 ∷ []; waiting = 0 }
unfolding get wake drop_lease pool_new
relieved_run = refl

relieved-Reached : Reached (7 ∷ 8 ∷ []) relieved
unfolding get wake drop_lease pool_new
relieved-Reached =
    woken (drop_lease [] 8 (7 ∷ []) crowded)
      (dropped crowded [] 8 (7 ∷ []) (got _ (got _ (got _ fresh))) refl) (omega arith)

present-Reached_example : present (λ n. n == 8) relieved ≡ 1
present-Reached_example = present-Reached (λ n. n == 8) (7 ∷ 8 ∷ []) relieved relieved-Reached
