-- ===== src/PdLease/Examples.antt =====
-- internal/pdlease: a lease whose Renew fails.
use minuteman.Base.{◌≤◌, ◌<◌, refl, none}
use minuteman.PrefixDelegation.Lease.{renew_at, rebind_at}
use minuteman.PrefixDelegation.Exchanges.Examples.{steady, steady-IsWired, first, first_acquired}
use minuteman.PrefixDelegation.Exchanges.Acquired.{IsRunning, acquire-IsRunning}
use minuteman.PdLease.{renew_now, failed, init, handle_event}
use minuteman.PdLease.Ladder.{
  World, Reach, here, next, fires, fails, started, react, IsOnRung, Reach-IsOnRung,
}
use minuteman.PdLease.Leases.{Grants, Reach-IsRunning}

abbrev due : World
due = react (record (started first) { timer = none }) renew_now

abbrev refused : World
refused = react (record due { running = none }) failed

refused-Reach : Reach (Grants steady) first refused
unfolding react started init handle_event
refused-Reach = next (next here refl (fires refl)) refl (fails refl)

Reach-IsOnRung_example : IsOnRung refused
Reach-IsOnRung_example = Reach-IsOnRung refused-Reach

Reach-IsRunning_example :
    IsRunning refused.lease
    × (refused.lease.acquired_at < renew_at refused.lease)
    × (renew_at refused.lease ≤ rebind_at refused.lease)
Reach-IsRunning_example =
    Reach-IsRunning steady steady-IsWired first refused
      (acquire-IsRunning steady steady-IsWired 1 100 first first_acquired) refused-Reach
