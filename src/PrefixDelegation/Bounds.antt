-- ===== src/PrefixDelegation/Bounds.antt =====
-- pkg/prefixdelegation/timers.go: bounds on the timers.
use minuteman.Base.{
  ℕ, ◌≤◌, ◌<◌, ◌^◌, ◌≡◌, refl, arith, List, [], ◌∷◌, ltb, if◌then◌else◌, All, ◌⊎◌, inl,
}
use minuteman.PrefixDelegation.{IaPrefix, Iapd, second, infinite_lifetime}
use minuteman.PrefixDelegation.Timers.{
  timers_of, effective_timers, shortest_preferred_lifetime, shortest_valid_lifetime,
  shortest_valid_from, shortest_preferred_from,
}

-- A prefix as the wire format carries it and `usableIAPD` lets through: whole seconds, the
-- preferred lifetime within the valid one.
pub record IsUsable (p : IaPrefix) : Type 0 where
  pub preferred_fits : p.preferred_lifetime ≤ p.valid_lifetime
  pub valid_fits : p.valid_lifetime ≤ infinite_lifetime
  pub valid_whole : (p.valid_lifetime ≡ 0) ⊎ (second ≤ p.valid_lifetime)

-- An IA_PD as `usableIAPD` lets through.
pub record IsUsableIapd (a : Iapd) : Type 0 where
  pub t1_fits : a.t1 ≤ infinite_lifetime
  pub t2_fits : a.t2 ≤ infinite_lifetime
  pub t2_whole : (a.t2 ≡ 0) ⊎ (second ≤ a.t2)
  pub ordered : (a.t2 ≡ 0) ⊎ (a.t1 ≤ a.t2)
  pub all_usable : All IsUsable a.prefixes

-- The four timer bounds, on the two shortest lifetimes.
module _ (t1 t2 preferred valid : ℕ) where
  timers_ordered :
      preferred ≤ infinite_lifetime
      → t2 ≤ infinite_lifetime
      → (t2 ≡ 0) ⊎ (t1 ≤ t2)
      → (timers_of t1 t2 preferred valid).0 ≤ (timers_of t1 t2 preferred valid).1
  unfolding timers_of
  timers_ordered hp h2 h = ground arith

  timers_pos :
      (t2 ≡ 0) ⊎ (second ≤ t2)
      → (valid ≡ 0) ⊎ (second ≤ valid)
      → 0 < (timers_of t1 t2 preferred valid).0
  unfolding timers_of
  timers_pos h hv = ground arith

  timers_within :
      0 < valid
      → preferred ≤ valid
      → valid ≤ infinite_lifetime
      → t2 ≡ 0
      → (t1 ≡ 0) ⊎ (t1 < valid)
      → ((timers_of t1 t2 preferred valid).0 ≤ valid)
        × ((timers_of t1 t2 preferred valid).1 ≤ valid)
  unfolding timers_of
  timers_within pos hp hv e h = ground arith

  timers_served :
      ((t1 ≡ 0) ⊎ ((timers_of t1 t2 preferred valid).0 ≡ t1))
      × ((t2 ≡ 0) ⊎ ((timers_of t1 t2 preferred valid).1 ≡ t2))
  unfolding timers_of
  timers_served = ground arith

  timers_fit :
      t1 ≤ infinite_lifetime
      → t2 ≤ infinite_lifetime
      → preferred ≤ infinite_lifetime
      → (timers_of t1 t2 preferred valid).1 < 2 ^ 63
  unfolding timers_of
  timers_fit h1 h2 hp = ground arith

-- The shortest lifetimes of a list of usable prefixes, from usable ones on.
module _ (n m : ℕ) where
  abbrev Near : Type 0
  Near = (n ≤ m) × (m ≤ infinite_lifetime) × ((m ≡ 0) ⊎ (second ≤ m))

shortest_near :
    (n m : ℕ) (ps : List IaPrefix)
    → All IsUsable ps
    → Near n m
    → Near (shortest_preferred_from n ps) (shortest_valid_from m ps)
unfolding shortest_preferred_from shortest_valid_from
shortest_near n m [] us h = h
shortest_near n m (p ∷ ps) (u, us) h =
    shortest_near (if ltb p.preferred_lifetime n then p.preferred_lifetime else n)
      (if ltb p.valid_lifetime m then p.valid_lifetime else m) ps us
      (ground arith, ground arith, ground arith)

shortest_lifetimes :
    (ps : List IaPrefix)
    → All IsUsable ps
    → Near (shortest_preferred_lifetime ps) (shortest_valid_lifetime ps)
unfolding shortest_preferred_lifetime shortest_valid_lifetime
shortest_lifetimes [] us = (omega arith, omega arith, inl refl)
shortest_lifetimes (p ∷ ps) (u, us) =
    shortest_near _ _ ps us (u.preferred_fits, u.valid_fits, u.valid_whole)

-- Of a usable IA_PD, T1 is positive and at most T2, and T2 fits an int64 of nanoseconds, whatever
-- the server left open.
pub effective_timers_ordered :
    (a : Iapd)
    → IsUsableIapd a
    → (0 < (effective_timers a).0)
      × ((effective_timers a).0 ≤ (effective_timers a).1)
      × ((effective_timers a).1 < 2 ^ 63)
unfolding effective_timers
effective_timers_ordered a u =
    let (near, top, whole) = shortest_lifetimes a.prefixes u.all_usable in
    let preferred : ℕ = shortest_preferred_lifetime a.prefixes in
    let valid : ℕ = shortest_valid_lifetime a.prefixes in
    (
      timers_pos a.t1 a.t2 preferred valid u.t2_whole whole,
      timers_ordered a.t1 a.t2 preferred valid (omega arith) u.t2_fits u.ordered,
      timers_fit a.t1 a.t2 preferred valid u.t1_fits u.t2_fits (omega arith),
    )

-- Where the server of a usable IA_PD left T2 open, and T1 open or below the shortest valid
-- lifetime, which is not 0, both times are within that lifetime.
pub effective_timers_within :
    (a : Iapd)
    → IsUsableIapd a
    → 0 < shortest_valid_lifetime a.prefixes
    → a.t2 ≡ 0
    → (a.t1 ≡ 0) ⊎ (a.t1 < shortest_valid_lifetime a.prefixes)
    → ((effective_timers a).0 ≤ shortest_valid_lifetime a.prefixes)
      × ((effective_timers a).1 ≤ shortest_valid_lifetime a.prefixes)
unfolding effective_timers
effective_timers_within a u pos left within =
    let (near, top, whole) = shortest_lifetimes a.prefixes u.all_usable in
    timers_within a.t1 a.t2 (shortest_preferred_lifetime a.prefixes)
      (shortest_valid_lifetime a.prefixes) pos near top left within

-- A T1 or T2 that the server sent is used as it is.
pub effective_timers_served :
    (a : Iapd)
    → ((a.t1 ≡ 0) ⊎ ((effective_timers a).0 ≡ a.t1))
      × ((a.t2 ≡ 0) ⊎ ((effective_timers a).1 ≡ a.t2))
unfolding effective_timers
effective_timers_served a =
    timers_served a.t1 a.t2 (shortest_preferred_lifetime a.prefixes)
      (shortest_valid_lifetime a.prefixes)
