-- ===== src/PdLease/Leases.antt =====
-- internal/pdlease/pdlease.go with pkg/prefixdelegation: the leases that the process comes to hold.
use minuteman.Base.{ℕ, ◌<◌, ◌≤◌, ◌≡◌, arith, subst, sym, some, inl, inr}
use minuteman.PrefixDelegation.Lease.{Lease, renew_at, rebind_at}
use minuteman.PrefixDelegation.Exchanges.{Exchanger, ok, acquire, renew_lease, rebind_lease}
use minuteman.PrefixDelegation.Exchanges.Acquired.{
  IsWired, IsRunning, acquire-IsRunning, renewal-IsRunning,
}
use minuteman.PdLease.{Run, renew, rebind}
use minuteman.PdLease
use minuteman.PdLease.Ladder.{World, Reach, here, next, Step-lease, started-lease}

module _ (e : Exchanger) where
  -- What `Spec` runs for an exchange: at some state of the Exchanger it returns the lease.
  pub Grants : Run → Lease → Type 0
  Grants (renew held) l = (s : e.State) × ((renew_lease e held s).0 ≡ ok l)
  Grants (rebind held) l = (s : e.State) × ((rebind_lease e held s).0 ≡ ok l)
  Grants PdLease.acquire l = (rounds : ℕ) × (s : e.State) × ((acquire e rounds s).0 ≡ some (ok l))

  module _ (wired : IsWired e) where
    Grants-IsRunning : (r : Run) (l : Lease) → Grants r l → IsRunning l
    unfolding Grants
    Grants-IsRunning (renew held) l (s, h) = renewal-IsRunning e wired held s l (inl h)
    Grants-IsRunning (rebind held) l (s, h) = renewal-IsRunning e wired held s l (inr h)
    Grants-IsRunning PdLease.acquire l (rounds, s, h) = acquire-IsRunning e wired rounds s l h

    held_runs :
        {first : Lease} {w : World} → IsRunning first → Reach Grants first w → IsRunning w.lease
    held_runs {first} v here = subst IsRunning (sym (started-lease first)) v
    held_runs v (next r s st) = elim (Step-lease st) [
      | inl same ↦ subst IsRunning (sym same) (held_runs v r)
      | inr (run, running, g) ↦ Grants-IsRunning run _ g
    ]

    -- The exchanges of prefix delegation over a network of byte strings, run by the lease process: if the
    -- first lease can be run on, every lease that the process comes to hold can be: it has a prefix, and
    -- it is renewed only some time after it was granted, no later than it is to be rebound.
    pub Reach-IsRunning :
        (first : Lease) (w : World)
        → IsRunning first
        → Reach Grants first w
        → IsRunning w.lease
          × (w.lease.acquired_at < renew_at w.lease)
          × (renew_at w.lease ≤ rebind_at w.lease)
    unfolding renew_at rebind_at
    Reach-IsRunning first w v r =
        let lives = held_runs v r in
        (lives, omega (arith, lives.positive), omega (arith, lives.ordered))
