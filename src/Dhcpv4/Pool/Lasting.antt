-- ===== src/Dhcpv4/Pool/Lasting.antt =====
-- pkg/dhcpv4/lease.go: a committed lease in the course of time.
use minuteman.Base.{
  ℕ, ◌≤◌, ◌≡◌, refl, sym, ap, ◌∙◌, arith, ltb, if◌then◌else◌, Option, none, some, Option-cases, inl,
  inr,
}
use minuteman.Dhcpv4.Pool.{Pool, Hold, Lease, ClientId, BindingState, offered, committed, expired}
use minuteman.Dhcpv4.Pool.Calls.{committed_lease, kept}

-- The lease, while it is good.
unfoldable pub good : ℕ → Option Lease → Option Lease
good t none = none
good t (some l) = if ltb t l.expiry then some l else none

pub good_later : (t u : ℕ) (l : Option Lease) → t ≤ u → good u (good t l) ≡ good u l
unfolding good
good_later t u none h = refl
good_later t u (some l) h = ground arith

-- What is committed to the client, whatever the time.
held_lease : Pool → ClientId → Option Lease
held_lease p c = elim (p.by_client c) [ none ↦ none | some l ↦ kept l l.state ]

kept-good :
    (l : Hold) (state : BindingState) (t : ℕ)
    → (if expired l t then none else kept l state) ≡ good t (kept l state)
unfolding kept good expired
kept-good l offered t = ground arith
kept-good l committed t = ground arith

committed_lease-good :
    (p : Pool) (c : ClientId) (t : ℕ) → committed_lease p c t ≡ good t (held_lease p c)
unfolding committed_lease held_lease
committed_lease-good p c t = elim (Option-cases (p.by_client c)) [
  | inl e ↦ rw (e, committed_lease, held_lease) (unfold good in refl)
  | inr (l, e) ↦ rw (e, committed_lease, held_lease) (kept-good l l.state t)
]

-- A committed lease is good, and stays the client's for as long as it is.
pub committed_lease_later :
    (p : Pool) (c : ClientId) (t u : ℕ)
    → t ≤ u
    → good u (committed_lease p c t) ≡ committed_lease p c u
committed_lease_later p c t u h =
    ap (good u) (committed_lease-good p c t)
    ∙ good_later t u (held_lease p c) h
    ∙ sym (committed_lease-good p c u)
