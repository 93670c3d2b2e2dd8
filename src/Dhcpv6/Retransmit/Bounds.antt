-- ===== src/Dhcpv6/Retransmit/Bounds.antt =====
-- pkg/dhcpv6/retransmit.go: the timeouts stay near what RFC 3315 asks for.
use minuteman.Base.{ℕ, ◌+◌, ◌-◌, ◌*◌, ◌^◌, ◌≤◌, ◌<◌, ◌≢◌, ◌⊎◌, arith, leb, if◌then◌else◌}
use minuteman.Dhcpv6.Retransmit.{half, jitter_size, add_jitter, first_rt, next_rt}
use native.Mathlib.Nat.{mul-le-mul_left}

-- A draw of `Float64`.
abbrev pub IsDraw : ℕ → Type 0
IsDraw r = r < 2 ^ 53

-- How far a draw is from the middle, doubled.
swing : ℕ → ℕ
swing r = if leb half r then 2 * (r - half) else 2 * (half - r)

swing-le : (r : ℕ) → IsDraw r → swing r ≤ 2 ^ 53
unfolding swing
swing-le r h = ground arith

jitter_size-le : (base r : ℕ) → IsDraw r → 10 * jitter_size base r ≤ base
unfolding jitter_size
jitter_size-le base r h =
    let small : swing r ≤ 2 ^ 53 = swing-le r h in
    let most : base * swing r ≤ base * 2 ^ 53 = mul-le-mul_left base small in
    unfold swing in omega (arith, most)

-- A jittered value is within a tenth of the base.
pub add_jitter_bounds :
    (x base r : ℕ)
    → IsDraw r
    → (10 * add_jitter x base r ≤ 10 * x + base) × (10 * x ≤ 10 * add_jitter x base r + base)
unfolding add_jitter
add_jitter_bounds x base r h = ground (arith, jitter_size-le base r h)

pub first_rt_bounds :
    (irt r : ℕ) → IsDraw r → (10 * first_rt irt r ≤ 11 * irt) × (9 * irt ≤ 10 * first_rt irt r)
unfolding first_rt
first_rt_bounds irt r h = omega (arith, add_jitter_bounds irt irt r h)

-- The next timeout is not far below twice the previous one, or below the ceiling.
pub next_rt-ge :
    (prev mrt r s : ℕ)
    → IsDraw r
    → IsDraw s
    → (19 * prev ≤ 10 * next_rt prev mrt r s) ⊎ ((mrt ≢ 0) × (9 * mrt ≤ 10 * next_rt prev mrt r s))
unfolding next_rt
next_rt-ge prev mrt r s hr hs =
    ground (arith, add_jitter_bounds (2 * prev) prev r hr, add_jitter_bounds mrt mrt s hs)

-- It is at most a tenth beyond a ceiling.
pub next_rt-le : (prev mrt r s : ℕ) → IsDraw s → mrt ≢ 0 → 10 * next_rt prev mrt r s ≤ 11 * mrt
unfolding next_rt
next_rt-le prev mrt r s hs h = ground (arith, add_jitter_bounds mrt mrt s hs)
