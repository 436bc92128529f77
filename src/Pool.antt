-- ===== src/Pool.antt =====
-- pool.rs: a pool of resources that threads lease and give back. Each section that holds the lock is
-- one step; a thread that waits on the signal is counted. The end of the vector, where it pops and
-- pushes, is the head of the list.
pub mod Steps
mod Tests
use haunted_house.Common.{ℕ, suc, ◌-◌, ◌+◌, List, [], ◌∷◌, ◌++◌, Option, none, some}

-- The items of the pool, those that leases hold, and the threads in `signal.wait`.
pub record Pool {ℓ} (T : Type ℓ) : Type ℓ where
  pub items : List T
  pub leased : List T
  pub waiting : ℕ

module _ {ℓ} {T : Type ℓ} where
  unfoldable pub pool_new : List T → Pool T
  pool_new items = record { items = items; leased = []; waiting = 0 }

  -- Pool::get up to the loop: an item, or the thread waits.
  unfoldable pub get : Pool T → Pool T
  get p = elim p.items [
    | [] ↦ record { items = []; leased = p.leased; waiting = p.waiting + 1 }
    | item ∷ items ↦ record { items = items; leased = item ∷ p.leased; waiting = p.waiting }
  ]

  -- A round of the loop, once a waiting thread has the lock again.
  unfoldable pub wake : Pool T → Pool T
  wake p = elim p.items [
    | [] ↦ p
    | item ∷ items ↦ record { items = items; leased = item ∷ p.leased; waiting = p.waiting - 1 }
  ]

  -- Lease::drop of the item between the other leases.
  unfoldable pub drop_lease : List T → T → List T → Pool T → Pool T
  drop_lease before item behind p = record {
    items = item ∷ p.items;
    leased = before ++ behind;
    waiting = p.waiting;
  }
