-- ===== src/Dhcpv4/Pool/Offers.antt =====
-- pkg/dhcpv4/lease.go: what `Offer` answers and does to the pool.
use minuteman.Base.{
  ℕ, ◌∙◌, Bool-cases, true, false, Option, none, some, ◌≡◌, refl, sym, arith, inl, inr,
  Option-cases,
}
use minuteman.Netip.{Addr}
use minuteman.Dhcpv4.Pool.{
  Pool, Hold, ClientId, BindingState, offered, allocatable, is_free, eligible, next_free, hold,
  expired,
}
use minuteman.Dhcpv4.Pool.Calls.{offer_lowest, offer_requested, offer_held, offer}
use minuteman.Dhcpv4.Pool.Invariant.{IsPaired}
use minuteman.Dhcpv4.Pool.Frames.{
  Frame, Frame-trans, eligible-Frame, eligible_lem, allocatable-Frame, allocatable_lem,
  next_free-Frame, open_to, open_to-Frame,
}
use minuteman.Dhcpv4.Pool.Scan.{IsServing, Lowest, next_free-Lowest}

-- An offer either finds nothing and forgets elapsed quarantines at most, or holds an address that
-- was open to the client.
pub data Offers (p : Pool) (c : ClientId) (now : ℕ) (r : Option Addr × Pool) : Type 0 where
  refuses :
      Frame now p r.1 → r.0 ≡ none → ((a : Addr) → open_to p c now a ≡ false) → Offers p c now r
  grants :
      (q : Pool) (a : Addr) (state : BindingState)
      → Frame now p q
      → r ≡ (some a, hold q c a now state)
      → open_to p c now a ≡ true
      → Offers p c now r

Offers-Frame :
    {p q : Pool} {c : ClientId} {now : ℕ} {r : Option Addr × Pool}
    → Frame now p q
    → Offers q c now r
    → Offers p c now r
Offers-Frame {c = c} f (refuses g e shut) =
    refuses (Frame-trans f g) e (λ a. sym (open_to-Frame c a f) ∙ shut a)
Offers-Frame {c = c} f (grants q a state g e fits) =
    grants q a state (Frame-trans f g) e (sym (open_to-Frame c a f) ∙ fits)

module _ (p : Pool) (s : IsServing p) (c : ClientId) (now : ℕ) where
  Lowest-step :
      (r : Option Addr)
      → (next_free p c now).0 ≡ r
      → Lowest p s c now r
      → Offers p c now (offer_lowest p c now)
  unfolding offer_lowest
  Lowest-step none e shut = rw (e, offer_lowest) (refuses (next_free-Frame p c now) refl shut)
  Lowest-step (some a) e least =
      rw (e, offer_lowest) (grants _ a offered (next_free-Frame p c now) refl least.0)

  offer_lowest-Offers : Offers p c now (offer_lowest p c now)
  offer_lowest-Offers = Lowest-step _ refl (next_free-Lowest p s c now)

pub IsServing-Frame : {now : ℕ} {p q : Pool} → Frame now p q → IsServing p → IsServing q
IsServing-Frame f s = rw f.rest (record {
  block = s.block;
  at = s.at;
  first = s.first;
  last = s.last;
  fits = s.fits;
  room = s.room;
})

module _ (p : Pool) (s : IsServing p) (c : ClientId) (requested : Addr) (now : ℕ) where
  offer_requested-Offers : Offers p c now (offer_requested p c requested now)
  unfolding offer_requested
  offer_requested-Offers = elim (Bool-cases (eligible p requested c now).0) [
    | inl h ↦ rw h (grants _ requested offered f refl (sym (eligible_lem p requested c now) ∙ h))
    | inr h ↦ rw h (Offers-Frame f (offer_lowest-Offers _ (IsServing-Frame f s) c now))
  ]
    where
      f : Frame now p (eligible p requested c now).1
      f = eligible-Frame p requested c now

-- The address that a client holds is free for it.
held-open :
    (p : Pool) (c : ClientId) (now : ℕ) (l : Hold)
    → IsPaired p
    → p.by_client c ≡ some l
    → (allocatable p l.ip now).0 ≡ true
    → open_to p c now l.ip ≡ true
unfolding open_to is_free
held-open p c now l v e h = ground (arith, allocatable_lem p l.ip now, v.owned c l.ip)

module _ (p : Pool) (s : IsServing p) (v : IsPaired p) (c : ClientId) (requested : Addr)
    (now : ℕ) where
  offer_held-Offers :
      (l : Hold) → p.by_client c ≡ some l → Offers p c now (offer_held p c l requested now)
  unfolding offer_held
  offer_held-Offers l e = elim (Bool-cases (allocatable p l.ip now).0) [
    | inl h ↦ rw h (grants _ l.ip l.state f refl (held-open p c now l v e h))
    | inr h ↦ rw h (Offers-Frame f (offer_requested-Offers _ (IsServing-Frame f s) c requested now))
  ]
    where
      f : Frame now p (allocatable p l.ip now).1
      f = allocatable-Frame p l.ip now

  -- Every offer is one of the two.
  pub offer-Offers : Offers p c now (offer p c requested now)
  unfolding offer
  offer-Offers = elim (Option-cases (p.by_client c)) [
    | inl e ↦ rw (e, offer) (offer_requested-Offers p s c requested now)
    | inr (l, e) ↦ elim (Bool-cases (expired l now)) [
      | inl h ↦ rw (e, offer, h) (offer_requested-Offers p s c requested now)
      | inr h ↦ rw (e, offer, h) (offer_held-Offers l e)
    ]
  ]
