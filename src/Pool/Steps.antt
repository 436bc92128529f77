-- ===== src/Pool/Steps.antt =====
-- pool.rs: the pool neither loses nor doubles a resource.
use haunted_house.Common.{
  ℕ, ◌+◌, ◌<◌, ◌≡◌, refl, ap, ◌∙◌, arith, List, [], ◌∷◌, ◌++◌, Bool, count_if,
}
use haunted_house.Pool.{Pool, pool_new, get, wake, drop_lease}

module _ {ℓ} {T : Type ℓ} where
  -- The pools that any interleaving of threads leads to.
  pub data Reached (initial : List T) : Pool T → Type ℓ where
    fresh : Reached initial (pool_new initial)
    got : (p : Pool T) → Reached initial p → Reached initial (get p)
    woken : (p : Pool T) → Reached initial p → 0 < p.waiting → Reached initial (wake p)
    dropped :
        (p : Pool T) (before : List T) (item : T) (behind : List T)
        → Reached initial p
        → p.leased ≡ before ++ (item ∷ behind)
        → Reached initial (drop_lease before item behind p)

  module _ (test : T → Bool) where
    -- How many items, in the pool or leased, pass the test.
    abbrev pub present : Pool T → ℕ
    present p = count_if test p.items + count_if test p.leased

    count_if-append :
        (xs ys : List T) → count_if test (xs ++ ys) ≡ count_if test xs + count_if test ys
    count_if-append [] ys = omega arith
    count_if-append (x ∷ xs) ys = ground (arith, count_if-append xs ys)

    get-present :
        (items leased : List T) (w : ℕ)
        → present (get (record { items = items; leased = leased; waiting = w }))
          ≡ count_if test items + count_if test leased
    unfolding get
    get-present [] leased w = refl
    get-present (x ∷ items) leased w = ground arith

    wake-present :
        (items leased : List T) (w : ℕ)
        → present (wake (record { items = items; leased = leased; waiting = w }))
          ≡ count_if test items + count_if test leased
    unfolding wake
    wake-present [] leased w = refl
    wake-present (x ∷ items) leased w = ground arith

    drop_lease-present :
        (p : Pool T) (before : List T) (item : T) (behind : List T)
        → p.leased ≡ before ++ (item ∷ behind)
        → present (drop_lease before item behind p) ≡ present p
    unfolding drop_lease
    drop_lease-present p before item behind e =
        let old = ap (count_if test) e in
        ground (arith, old, count_if-append before (item ∷ behind), count_if-append before behind)

    -- Whatever threads do with a pool, and in whatever order, the items in it and those that leases
    -- hold are together the initial ones: as many of each kind as at the start.
    pub present-Reached :
        (initial : List T) (p : Pool T) → Reached initial p → present p ≡ count_if test initial
    unfolding pool_new
    present-Reached initial _ fresh = omega arith
    present-Reached initial _ (got p r) =
        get-present p.items p.leased p.waiting ∙ present-Reached initial p r
    present-Reached initial _ (woken p r h) =
        wake-present p.items p.leased p.waiting ∙ present-Reached initial p r
    present-Reached initial _ (dropped p before item behind r e) =
        drop_lease-present p before item behind e ∙ present-Reached initial p r
