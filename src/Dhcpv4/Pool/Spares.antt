-- ===== src/Dhcpv4/Pool/Spares.antt =====
-- pkg/dhcpv4/lease.go: what an operation for one client leaves of the others' committed leases.
use minuteman.Base.{
  ℕ, ◌∙◌, true, none, some, ◌≡◌, ◌≢◌, ◌⊎◌, Option, refl, sym, subst, ap, arith, inl, inr,
  Option-cases,
}
use minuteman.Netip.{Addr, bytes_discrete}
use minuteman.Dhcpv4.Pool.{
  Pool, ClientId, BindingState, committed, is_free, hold, clear, evict, enter, expired_hold,
}
use minuteman.Dhcpv4.Pool.Calls.{
  offer, binding, commit, release, decline, cancel_offer, clear_offer, committed_lease, kept,
}
use minuteman.Dhcpv4.Pool.Invariant.{IsPaired}
use minuteman.Dhcpv4.Pool.Frames.{Frame, open_to}
use minuteman.Dhcpv4.Pool.Offers.{refuses, grants, offer-Offers}
use minuteman.Dhcpv4.Pool.Valid.{IsValid}

-- Every other client's committed lease is the same at this instant.
abbrev pub Spares : ClientId → ℕ → Pool → Pool → Type 0
Spares c now p q = (d : ClientId) → d ≢ c → committed_lease q d now ≡ committed_lease p d now

pub Spares-refl : (c : ClientId) (now : ℕ) (p : Pool) → Spares c now p p
Spares-refl c now p d far = refl

same_hold :
    (p q : Pool) (d : ClientId) (now : ℕ)
    → q.by_client d ≡ p.by_client d
    → committed_lease q d now ≡ committed_lease p d now
unfolding committed_lease
same_hold p q d now e = rw (e, committed_lease) refl

no_hold :
    (q : Pool) (d : ClientId) (now : ℕ) → q.by_client d ≡ none → committed_lease q d now ≡ none
unfolding committed_lease
no_hold q d now e = rw (e, committed_lease) refl

stale_hold :
    (p : Pool) (d : ClientId) (now : ℕ)
    → expired_hold (p.by_client d) now ≡ true
    → committed_lease p d now ≡ none
unfolding committed_lease expired_hold
stale_hold p d now e = elim (Option-cases (p.by_client d)) [
  | inl f ↦ rw (f, committed_lease) refl
  | inr (l, f) ↦ ground (arith, f)
]

pub clear-Spares : (p : Pool) (c : ClientId) (now : ℕ) → Spares c now p (clear p c)
clear-Spares p c now d far = same_hold p (clear p c) d now (unfold clear in ground arith)

-- What becomes of another client's lease: it stays, or its address is taken.
hold_other :
    (p : Pool) (c d : ClientId) (a : Addr) (now : ℕ) (state : BindingState)
    → d ≢ c
    → ((hold p c a now state).by_client d ≡ p.by_client d)
      ⊎ ((p.by_ip a ≡ some d) × ((hold p c a now state).by_client d ≡ none))
unfolding hold clear evict enter
hold_other p c d a now state far = ground arith

hold-Spares :
    (p : Pool) (c : ClientId) (a : Addr) (now : ℕ) (state : BindingState)
    → ((d : ClientId) → d ≢ c → p.by_ip a ≡ some d → committed_lease p d now ≡ none)
    → Spares c now p (hold p c a now state)
hold-Spares p c a now state free d far = elim (hold_other p c d a now state far) [
  | inl e ↦ same_hold p (hold p c a now state) d now e
  | inr (e, f) ↦ no_hold (hold p c a now state) d now f ∙ sym (free d far e)
]

-- The owner of an open address is the client, or its lease has expired.
open_stale :
    (p : Pool) (c d : ClientId) (now : ℕ) (a : Addr)
    → open_to p c now a ≡ true
    → d ≢ c
    → p.by_ip a ≡ some d
    → expired_hold (p.by_client d) now ≡ true
unfolding open_to is_free
open_stale p c d now a fits far e = ground arith

pub offer-Spares :
    (p : Pool) (c : ClientId) (requested : Addr) (now : ℕ)
    → IsValid p
    → Spares c now p (offer p c requested now).1
offer-Spares p c requested now v d far = elim (offer-Offers p v.serving v.paired c requested now) [
  | refuses f r shut ↦ same_hold p _ d now (ap (λ (q : Pool). q.by_client d) f.rest)
  | grants q a state f r fits ↦
      let own : q.by_client d ≡ p.by_client d = ap (λ (q : Pool). q.by_client d) f.rest in
      ap (λ (o : Option Addr × Pool). committed_lease o.1 d now) r
      ∙ hold-Spares q c a now state (λ e k h. stale q a e f fits k h) d far
      ∙ same_hold p q d now own
]
  where
    stale :
        (q : Pool) (a : Addr) (e : ClientId)
        → Frame now p q
        → open_to p c now a ≡ true
        → e ≢ c
        → q.by_ip a ≡ some e
        → committed_lease q e now ≡ none
    stale q a e f fits k h =
        same_hold p q e now (ap (λ (q : Pool). q.by_client e) f.rest)
        ∙ stale_hold p e now
            (open_stale p c e now a fits k (sym (ap (λ (q : Pool). q.by_ip a) f.rest) ∙ h))

-- The client's own address is no other's.
bound_owner :
    (p : Pool) (c : ClientId) (a : Addr) (now : ℕ)
    → IsPaired p
    → binding p c now ≡ some a
    → p.by_ip a ≡ some c
unfolding binding
bound_owner p c a now v e = ground (arith, v.owned c a)

pub commit-Spares :
    (p : Pool) (c : ClientId) (a : Addr) (now : ℕ)
    → IsPaired p
    → binding p c now ≡ some a
    → Spares c now p (commit p c a now)
unfolding commit
commit-Spares p c a now v e =
    let own : p.by_ip a ≡ some c = bound_owner p c a now v e in
    hold-Spares p c a now committed (λ d far h. absurd (far cc))

pub cancel_offer-Spares : (p : Pool) (c : ClientId) (now : ℕ) → Spares c now p (cancel_offer p c)
unfolding cancel_offer clear_offer
cancel_offer-Spares p c now d far =
    same_hold p (cancel_offer p c) d now (unfold clear in ground arith)

pub release-Spares : (p : Pool) (c : ClientId) (a : Addr) (now : ℕ) → Spares c now p (release p c a)
unfolding release
release-Spares p c a now d far = same_hold p (release p c a) d now (unfold clear in ground arith)

pub decline-Spares :
    (p : Pool) (c : ClientId) (a : Addr) (at now : ℕ) → Spares c now p (decline p c a at)
unfolding decline
decline-Spares p c a at now d far =
    same_hold p (decline p c a at) d now (unfold clear in ground arith)

cancelled_own :
    (p : Pool) (c : ClientId) (now : ℕ)
    → committed_lease (cancel_offer p c) c now ≡ committed_lease p c now
unfolding committed_lease cancel_offer clear_offer clear kept
cancelled_own p c now = ground arith

-- An offer that is cancelled is nobody's committed lease.
pub cancel_offer-committed :
    (p : Pool) (c d : ClientId) (now : ℕ)
    → committed_lease (cancel_offer p c) d now ≡ committed_lease p d now
cancel_offer-committed p c d now = elim (bytes_discrete d c) [
  | no far ↦ cancel_offer-Spares p c now d far
  | yes same ↦
      subst (λ (e : ClientId). committed_lease (cancel_offer p c) e now ≡ committed_lease p e now)
        (sym same) (cancelled_own p c now)
]
