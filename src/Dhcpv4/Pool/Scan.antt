-- ===== src/Dhcpv4/Pool/Scan.antt =====
-- pkg/dhcpv4/lease.go: `nextFree` finds the lowest address of the subnet that is open to a client,
-- and finds none only if there is none; 2 ^ (32 - bits) rounds are enough.
use native.Mathlib.Nat.{div-eq_of_lt-le, le-div_iff_mul-le, mul-div_cancel}
use minuteman.Base.{
  ℕ, zero, suc, ◌+◌, ◌-◌, ◌*◌, ◌/◌, ◌^◌, ◌≤◌, ◌<◌, ◌∙◌, Bool-cases, true, false, Option, none, some,
  ◌≡◌, refl, sym, arith, inl, inr, ltb, if◌then◌else◌, ◌==◌, ==_iff, ltb→lt, ge→ltb,
}
use minuteman.Netip.{Addr, v4, v6, invalid, next, contains}
use minuteman.Dhcpv4.Pool.{Pool, ClientId, in_range, eligible, free_from, next_free}
use minuteman.Dhcpv4.Pool.Frames.{
  Frame, Frame-refl, Frame-trans, eligible-Frame, eligible_lem, open_to, open_to-Frame,
}

-- The number of addresses of the subnet.
abbrev pub size : Pool → ℕ
size p = 2 ^ (32 - p.subnet.bits)

-- A pool as `NewPool` makes it: an IPv4 subnet of 4 addresses at least, whose network address
-- starts a block and whose broadcast address ends it.
pub record IsServing (p : Pool) : Type 0 where
  pub block : ℕ
  pub at : p.subnet.addr ≡ v4 (block * size p)
  pub first : p.network ≡ v4 (block * size p)
  pub last : p.broadcast ≡ v4 (block * size p + (size p - 1))
  pub fits : block * size p + size p ≤ 2 ^ 32
  pub room : 4 ≤ size p

div_block : (a k d : ℕ) → 0 < d → k * d ≤ a → (a / d == k) ≡ ltb a (k * d + d)
div_block a k d pos low = elim (Bool-cases (ltb a (k * d + d))) [
  | inl h ↦ rw h ((==_iff _ _).1 (div-eq_of_lt-le d low (below h)))
  | inr h ↦ rw h (ground (arith, (le-div_iff_mul-le {x = k + 1} {y = a} pos).1 (above h)))
]
  where
    below : ltb a (k * d + d) ≡ true → a < (k + 1) * d
    below h = omega (arith, ltb→lt _ _ h)

    above : ltb a (k * d + d) ≡ false → (k + 1) * d ≤ a
    above h = ground arith

-- From the network address on, the subnet holds the addresses below the block's end.
contains_block :
    (p : Pool) (s : IsServing p) (a : ℕ)
    → s.block * size p ≤ a
    → contains p.subnet (v4 a) ≡ ltb a (s.block * size p + size p)
contains_block p s a low =
    rw (s.at, contains)
      (ground (
        arith,
        div_block a s.block (size p) (omega arith) low,
        s.room,
        mul-div_cancel s.block {n = size p} (omega arith),
      ))

-- What a scan from the address `from` on may answer.
abbrev pub Found : Pool → ClientId → ℕ → ℕ → ℕ → Option Addr → Type 0
Found p c now from end none = (b : ℕ) → from ≤ b → b < end → open_to p c now (v4 b) ≡ false
Found p c now from end (some x) =
    (b : ℕ) × (x ≡ v4 b)
    × (from ≤ b)
    × (b < end)
    × (open_to p c now (v4 b) ≡ true)
    × ((j : ℕ) → from ≤ j → j < b → open_to p c now (v4 j) ≡ false)

Found-further :
    (p : Pool) (c : ClientId) (now a end : ℕ) (r : Option Addr)
    → open_to p c now (v4 a) ≡ false
    → Found p c now (a + 1) end r
    → Found p c now a end r
Found-further p c now a end none shut f = λ b low high. elim (Bool-cases (a == b)) [
  | inl h ↦ rw (← (==_iff a b).0 h) shut
  | inr h ↦ f b (ground arith) high
]
Found-further p c now a end (some x) shut (b, e, low, high, fits, least) = (
  b,
  e,
  omega arith,
  high,
  fits,
  λ j hj kj. elim (Bool-cases (a == j)) [
    | inl h ↦ rw (← (==_iff a j).0 h) shut
    | inr h ↦ least j (ground arith) kj
  ],
)

-- One round of the loop, at an address of the subnet and past it.
free_from_inside :
    (fuel : ℕ) (q : Pool) (a : ℕ) (c : ClientId) (now : ℕ)
    → contains q.subnet (v4 a) ≡ true
    → (free_from (suc fuel) q (v4 a) c now).0 ≡ (
        if (eligible q (v4 a) c now).0
        then some (v4 a)
        else (free_from fuel (eligible q (v4 a) c now).1 (next (v4 a)) c now).0)
unfolding free_from
free_from_inside fuel q a c now h = rw h (ground arith)

free_from_outside :
    (fuel : ℕ) (q : Pool) (ip : Addr) (c : ClientId) (now : ℕ)
    → contains q.subnet ip ≡ false
    → (free_from fuel q ip c now).0 ≡ none
unfolding free_from
free_from_outside zero q ip c now h = refl
free_from_outside (suc fuel) q ip c now h = ground arith

contains_invalid : (q : Pool) → contains q.subnet invalid ≡ false
contains_invalid q = ground arith

module _ (p : Pool) (s : IsServing p) (c : ClientId) (now : ℕ) where
  abbrev end : ℕ
  end = s.block * size p + size p

  contains-end :
      {q : Pool} (a : ℕ)
      → Frame now p q
      → s.block * size p ≤ a
      → contains q.subnet (v4 a) ≡ ltb a end
  contains-end a f low = rw f.rest (contains_block p s a low)

  Found-past : (a : ℕ) → end ≤ a → Found p c now a end none
  Found-past a h = λ b hb kb. absurd (omega arith)

  free_from_past :
      (fuel : ℕ) (q : Pool) (a : ℕ)
      → Frame now p q
      → s.block * size p ≤ a
      → end ≤ a
      → Found p c now a end (free_from fuel q (v4 a) c now).0
  free_from_past fuel q a f low past =
      rw (free_from_outside fuel q (v4 a) c now (contains-end a f low ∙ ge→ltb a end past))
        (Found-past a past)

  free_from-next :
      (fuel : ℕ) (q : Pool) (a : ℕ)
      → ((a + 1 < 2 ^ 32) → Found p c now (a + 1) end (free_from fuel q (v4 (a + 1)) c now).0)
      → Found p c now (a + 1) end (free_from fuel q (next (v4 a)) c now).0
  free_from-next fuel q a ih = elim (Bool-cases (ltb (a + 1) (2 ^ 32))) [
    | inl h ↦ rw h (ih (ltb→lt _ _ h))
    | inr h ↦
        rw (h, free_from_outside fuel q invalid c now (contains_invalid q))
          (Found-past (a + 1) (ground (arith, s.fits)))
  ]

  free_from_lem :
      (fuel : ℕ) (q : Pool) (a : ℕ)
      → Frame now p q
      → s.block * size p ≤ a
      → end ≤ a + fuel
      → Found p c now a end (free_from fuel q (v4 a) c now).0
  free_from_lem zero q a f low enough = free_from_past zero q a f low (omega arith)
  free_from_lem (suc fuel) q a f low enough = elim (Bool-cases (ltb a end)) [
    | inr past ↦ free_from_past (suc fuel) q a f low (ground arith)
    | inl inside ↦
        rw (free_from_inside fuel q a c now (contains-end a f low ∙ inside), test)
          (elim (Bool-cases (open_to p c now (v4 a))) [
            | inl fits ↦
                rw fits
                  (a, refl, omega arith, ltb→lt _ _ inside, fits, λ j hj kj. absurd (omega arith))
            | inr shut ↦ rw shut (
                Found-further p c now a end _ shut (
                  free_from-next fuel _ a (λ _.
                    free_from_lem fuel (eligible q (v4 a) c now).1 (a + 1)
                      (Frame-trans f (eligible-Frame q (v4 a) c now)) (omega arith) (omega arith))))
          ])
  ]
    where
      test : (eligible q (v4 a) c now).0 ≡ open_to p c now (v4 a)
      test = eligible_lem q (v4 a) c now ∙ open_to-Frame c (v4 a) f

  -- The subnet's addresses, its network address left out, are the ones that are ever open.
  contains_bounds : (b : ℕ) → contains p.subnet (v4 b) ≡ true → (s.block * size p ≤ b) × (b < end)
  contains_bounds b h = (low, ltb→lt _ _ (sym (contains_block p s b low) ∙ h))
    where
      same : b / size p ≡ s.block
      same =
          ground (arith, s.at, s.room, mul-div_cancel s.block {n = size p} (omega (arith, s.room)))

      low : s.block * size p ≤ b
      low =
          (le-div_iff_mul-le {x = s.block} {y = b} (omega (arith, s.room))).0 (omega (arith, same))

  open_bounds : (b : ℕ) → open_to p c now (v4 b) ≡ true → (s.block * size p < b) × (b < end)
  unfolding open_to in_range
  open_bounds b h = ground (arith, contains_bounds b, s.first)

  open_v4 : (a : Addr) → open_to p c now a ≡ true → (b : ℕ) × (a ≡ v4 b)
  unfolding open_to in_range
  open_v4 invalid h = ground arith
  open_v4 (v4 b) h = (b, refl)
  open_v4 (v6 b) h = ground arith

  -- The lowest open address, if there is one.
  abbrev pub Lowest : Option Addr → Type 0
  Lowest none = (a : Addr) → open_to p c now a ≡ false
  Lowest (some x) =
      (open_to p c now x ≡ true)
      × (b : ℕ) × (x ≡ v4 b)
      × ((j : ℕ) → open_to p c now (v4 j) ≡ true → b ≤ j)

  Found→Lowest : (r : Option Addr) → Found p c now (s.block * size p + 1) end r → Lowest r
  Found→Lowest none f = λ a. elim (Bool-cases (open_to p c now a)) [
    | inr shut ↦ shut
    | inl fits ↦
        let (b, e) = open_v4 a fits in
        let (low, high) = open_bounds b (rw e at fits) in rw e (f b (omega arith) high)
  ]
  Found→Lowest (some x) (b, e, low, high, fits, least) =
      (rw e fits, b, e, λ j h. ground (arith, least j, open_bounds j h))

  -- On a pool that serves a subnet, `nextFree` answers the lowest IPv4 address that is open to the
  -- client, and answers none only if no address is.
  pub next_free-Lowest : Lowest (next_free p c now).0
  unfolding next_free
  next_free-Lowest = Found→Lowest _ (
      simp s.first (
        free_from-next (size p) p (s.block * size p) (λ _.
          free_from_lem (size p) p (s.block * size p + 1) (Frame-refl now p) (omega arith)
            (omega arith))))
