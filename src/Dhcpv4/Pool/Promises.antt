-- ===== src/Dhcpv4/Pool/Promises.antt =====
-- pkg/dhcpv4/lease.go: what a pool promises its clients.
use minuteman.Base.{
  ℕ, ◌+◌, ◌≤◌, ◌<◌, ◌∙◌, true, false, none, some, ◌≡◌, refl, sym, ap, arith, ◌↔◌, ◌≢◌,
}
use minuteman.Netip.{Addr}
use minuteman.Dhcpv4.Pool.{
  Pool, Hold, ClientId, BindingState, committed, is_free, hold, expired, clear, evict, enter,
  hold_time, offer_hold_time, expired_hold,
}
use minuteman.Dhcpv4.Pool.Calls.{offer, binding, commit}
use minuteman.Dhcpv4.Pool.Frames.{Frame, open_to}
use minuteman.Dhcpv4.Pool.Offers.{refuses, grants, offer-Offers}
use minuteman.Dhcpv4.Pool.Valid.{IsValid}

hold_others :
    (p : Pool) (c d : ClientId) (a : Addr) (now : ℕ) (state : BindingState)
    → d ≢ c
    → p.by_ip a ≢ some d
    → (hold p c a now state).by_client d ≡ p.by_client d
unfolding hold clear evict enter
hold_others p c d a now state far free = ground arith

pub hold_own :
    (p : Pool) (c : ClientId) (a : Addr) (now : ℕ) (state : BindingState)
    → (hold p c a now state).by_client c
      ≡ some (record { ip = a; expiry = now + hold_time p state; state = state })
unfolding hold clear evict enter hold_time
hold_own p c a now state = ground arith

-- A well-formed pool refuses an offer exactly when no address is open to the client.
pub offer-none_iff :
    (p : Pool) (c : ClientId) (requested : Addr) (now : ℕ)
    → IsValid p
    → ((offer p c requested now).0 ≡ none) ↔ ((a : Addr) → open_to p c now a ≡ false)
offer-none_iff p c requested now v = elim (offer-Offers p v.serving v.paired c requested now) [
  | refuses f e shut ↦ (λ h. shut, λ h. e)
  | grants q a state f e fits ↦ (λ h. ground arith, λ h. ground (arith, h a))
]

-- Only an expired lease of another client leaves its address open.
open-lapsed :
    (p : Pool) (c d : ClientId) (now : ℕ) (a : Addr) (l : Hold)
    → open_to p c now a ≡ true
    → d ≢ c
    → p.by_client d ≡ some l
    → expired l now ≡ false
    → p.by_ip a ≢ some d
unfolding open_to is_free expired_hold
open-lapsed p c d now a l fits far e good = λ h. ground arith

-- An offer of a well-formed pool leaves the unexpired lease of every other client as it was.
pub offer-keeps_others :
    (p : Pool) (c d : ClientId) (requested : Addr) (now : ℕ) (l : Hold)
    → IsValid p
    → d ≢ c
    → p.by_client d ≡ some l
    → expired l now ≡ false
    → (offer p c requested now).1.by_client d ≡ some l
offer-keeps_others p c d requested now l v far e good =
    elim (offer-Offers p v.serving v.paired c requested now) [
      | refuses f r shut ↦ ap (λ (q : Pool). q.by_client d) f.rest ∙ e
      | grants q a state f r fits ↦
          rw (r, hold_others q c d a now state far (unowned q a f fits))
            (ap (λ (q : Pool). q.by_client d) f.rest ∙ e)
    ]
  where
    unowned : (q : Pool) (a : Addr) → Frame now p q → open_to p c now a ≡ true → q.by_ip a ≢ some d
    unowned q a f fits h =
        open-lapsed p c d now a l fits far e good (sym (ap (λ (q : Pool). q.by_ip a) f.rest) ∙ h)

-- Where a well-formed pool leases for the hold time at least, a client has the address that it was
-- offered until the hold time is over, and the address was open to it.
pub binding-offer :
    (p : Pool) (c : ClientId) (requested a : Addr) (now t : ℕ)
    → IsValid p
    → offer_hold_time ≤ p.duration
    → (offer p c requested now).0 ≡ some a
    → t < now + offer_hold_time
    → (binding (offer p c requested now).1 c t ≡ some a) × (open_to p c now a ≡ true)
unfolding binding expired
binding-offer p c requested a now t v long e h =
    elim (offer-Offers p v.serving v.paired c requested now) [
      | refuses f r shut ↦ cc
      | grants q b state f r fits ↦
          ground (arith, r, hold_own q c b now state, f.rest, hold_time_least q state)
    ]
  where
    hold_time_least :
        (q : Pool) (state : BindingState)
        → offer_hold_time ≤ q.duration
        → offer_hold_time ≤ hold_time q state
    hold_time_least q state k = unfold hold_time in ground arith

-- A committed address is the client's for the lease time.
pub binding-commit :
    (p : Pool) (c : ClientId) (a : Addr) (now t : ℕ)
    → t < now + p.duration
    → binding (commit p c a now) c t ≡ some a
unfolding binding commit expired
binding-commit p c a now t h = ground (arith, hold_own p c a now committed, hold_time_committed)
  where
    hold_time_committed : hold_time p committed ≡ p.duration
    hold_time_committed = unfold hold_time in refl
