-- ===== src/PrefixDelegation/Exchanges/Acquired.antt =====
-- pkg/prefixdelegation/acquire.go and renew.go: what leases the exchanges come to.
use minuteman.Base.{
  ℕ, zero, suc, ◌≤◌, ◌<◌, ◌≡◌, ◌≢◌, refl, subst, List, [], All, Option, none, some, Bool-cases, inl,
  inr, ◌⊎◌,
}
use minuteman.Base.Bytes.{IsByte}
use minuteman.Dhcpv6.Options.{DhcpOption}
use minuteman.Dhcpv6.Message.{Message, Exchange}
use minuteman.PrefixDelegation.{Iapd}
use minuteman.PrefixDelegation.Bounds.{IsUsable}
use minuteman.PrefixDelegation.Lease.{
  Lease, Outcome-cases, >>=-eq_accepted, accepted, usable_iapd, lease_from_reply, new_lease,
  usable_dns,
}
use minuteman.PrefixDelegation.Lease.Wire.{usable_iapd-wire, new_lease-ordered, accepted-injective}
use minuteman.PrefixDelegation.Exchanges.{
  Exchanger, Response, message, exhausted, over, Result, ok, Round, settled, again, retry,
  request_of, grant, offer, acquire_round, acquire, renewed, renew_lease, rebind_lease,
}

-- The messages of an exchanger hold bytes.
abbrev pub HoldsBytes : Response → Type 0
HoldsBytes (message m) = All (λ (o : DhcpOption). All IsByte o.payload) m.options
HoldsBytes r = Unit {0}

abbrev pub IsWired : Exchanger → Type 0
IsWired e = (s : e.State) (d : Option ℕ) (x : Exchange) → HoldsBytes (e.exchange s d x).0

-- A lease that can be run on.
pub record IsRunning (l : Lease) : Type 0 where
  pub has_prefix : l.prefixes ≢ []
  pub usable : All IsUsable l.prefixes
  pub positive : 0 < l.t1
  pub ordered : l.t1 ≤ l.t2

abbrev IsSettled : Round → Type 0
IsSettled (settled (ok l)) = IsRunning l
IsSettled r = Unit {0}

Round-cases : (r : Round) → ((l : Result Lease) × (r ≡ settled l)) ⊎ (r ≡ again)
Round-cases (settled l) = inl (l, refl)
Round-cases again = inr refl

module _ (e : Exchanger) (wired : IsWired e) where
  retry-IsSettled : (s : e.State) → IsSettled (retry e s)
  unfolding retry
  retry-IsSettled s = elim (Bool-cases (e.is_done s)) [ inl h ↦ rw h tt | inr h ↦ rw h tt ]

  new_lease-IsRunning :
      (sid own : List ℕ) (m : Message) (granted : Iapd) (now : ℕ)
      → HoldsBytes (message m)
      → usable_iapd m ≡ accepted (granted, own)
      → IsRunning (new_lease sid granted (usable_dns m.options) now)
  new_lease-IsRunning sid own m granted now bs found =
      let (usable, nonempty) = usable_iapd-wire m granted own bs found in
      let (positive, ordered) = new_lease-ordered sid granted (usable_dns m.options) now usable in
      unfold new_lease in
      (record {
        has_prefix = nonempty;
        usable = usable.all_usable;
        positive = positive;
        ordered = ordered;
      })

  grant-IsSettled :
      (sid : List ℕ) (r : Response) (s : e.State) → HoldsBytes r → IsSettled (grant e sid (r, s)).0
  unfolding grant
  grant-IsSettled sid (message m) s bs = elim (Outcome-cases (usable_iapd m)) [
    | inl ((granted, own), found) ↦
        rw (found, IsSettled) (new_lease-IsRunning sid own m granted (e.now s) bs found)
    | inr (inl (r, found)) ↦ rw (found, IsSettled) (retry-IsSettled s)
    | inr (inr found) ↦ rw (found, IsSettled) tt
  ]
  grant-IsSettled sid exhausted s bs = retry-IsSettled s
  grant-IsSettled sid over s bs = retry-IsSettled s

  offer-IsSettled : (r : Response) (s : e.State) → IsSettled (offer e (r, s)).0
  unfolding offer
  offer-IsSettled (message m) s = elim (Outcome-cases (usable_iapd m)) [
    | inl ((offered, sid), found) ↦
        rw (found, IsSettled) (grant-IsSettled sid _ _ (wired s none (request_of e sid offered)))
    | inr (inl (r, found)) ↦ rw (found, IsSettled) (retry-IsSettled s)
    | inr (inr found) ↦ rw (found, IsSettled) tt
  ]
  offer-IsSettled exhausted s = tt
  offer-IsSettled over s = tt

  acquire_round-IsSettled : (s : e.State) → IsSettled (acquire_round e s).0
  unfolding acquire_round
  acquire_round-IsSettled s = offer-IsSettled _ _

  -- Whatever a network of byte strings answers, and after however many rounds, a lease that `Acquire`
  -- returns has a prefix, none of its prefixes is preferred for longer than it is valid, and it renews
  -- after a positive time, no later than it rebinds.
  pub acquire-IsRunning :
      (rounds : ℕ) (s : e.State) (l : Lease) → (acquire e rounds s).0 ≡ some (ok l) → IsRunning l
  unfolding acquire
  acquire-IsRunning zero s l h = cc
  acquire-IsRunning (suc rounds) s l h = elim (Round-cases (acquire_round e s).0) [
    | inl (r, first) ↦
        let same : r ≡ ok l = cc (rw (first, acquire) at h) in
        rw (first, same) at (acquire_round-IsSettled s)
    | inr later ↦ acquire-IsRunning rounds (acquire_round e s).1 l (rw (later, acquire) at h)
  ]

  lease_from_reply-IsRunning :
      (sid : Option (List ℕ)) (m : Message) (now : ℕ) (l : Lease)
      → HoldsBytes (message m)
      → lease_from_reply sid m now ≡ accepted l
      → IsRunning l
  unfolding lease_from_reply
  lease_from_reply-IsRunning sid m now l bs h =
      let ((granted, own), found, later) = >>=-eq_accepted (usable_iapd m) _ h in
      subst IsRunning (accepted-injective later) (new_lease-IsRunning _ own m granted now bs found)

  renewed-IsRunning :
      (sid : Option (List ℕ)) (r : Response) (s : e.State) (l : Lease)
      → HoldsBytes r
      → (renewed e sid (r, s)).0 ≡ ok l
      → IsRunning l
  unfolding renewed
  renewed-IsRunning sid (message m) s l bs h =
      elim (Outcome-cases (lease_from_reply sid m (e.now s))) [
        | inl (l', found) ↦
            let same : l' ≡ l = cc (rw (found, renewed) at h) in
            subst IsRunning same (lease_from_reply-IsRunning sid m (e.now s) l' bs found)
        | inr (inl (r, found)) ↦ cc (rw (found, renewed) at h)
        | inr (inr found) ↦ cc (rw (found, renewed) at h)
      ]
  renewed-IsRunning sid exhausted s l bs h = cc
  renewed-IsRunning sid over s l bs h = cc

  -- So does a lease that a Renew or a Rebind returns.
  pub renewal-IsRunning :
      (held : Lease) (s : e.State) (l : Lease)
      → ((renew_lease e held s).0 ≡ ok l) ⊎ ((rebind_lease e held s).0 ≡ ok l)
      → IsRunning l
  unfolding renew_lease rebind_lease
  renewal-IsRunning held s l (inl h) = renewed-IsRunning _ _ _ l (wired s _ _) h
  renewal-IsRunning held s l (inr h) = renewed-IsRunning _ _ _ l (wired s _ _) h
