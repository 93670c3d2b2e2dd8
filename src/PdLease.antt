-- ===== src/PdLease.antt =====
-- internal/pdlease/lease.go and pdlease.go: the process that keeps a delegated prefix, as a pure step on
-- the rung of the renewal ladder that it is on.
pub mod Ladder
pub mod Leases
mod Examples
use minuteman.Base.{ℕ, List, [], ◌∷◌, Bool, true, false, not, ◌&&◌, if◌then◌else◌}
use minuteman.PrefixDelegation.Lease.{Lease, renew_at}

pub data Phase : Type 0 where
  bound renewing rebinding soliciting : Phase

-- The exchanges that run as an Async.
pub data Run : Type 0 where
  renew : Lease → Run
  rebind : Lease → Run
  acquire : Run

-- The outcome of the running exchange: a lease, or an error. A timeout and an outcome of another key,
-- and any other message, are one event.
pub data Event : Type 0 where
  renew_now : Event
  granted : Lease → Event
  failed : Event
  other : Event

pub data Effect : Type 0 where
  trap_exit : Effect
  start_timeout : ℕ → Effect
  exchange : Run → Effect
  apply : Lease → Effect
  stop : Effect
  release : Lease → Effect

abbrev pub Outcome : Type 0
Outcome = Phase × Lease × List Effect

until_t1 : Lease → Effect
until_t1 l = start_timeout (renew_at l)

pub init : Lease → Outcome
unfolding until_t1
init l = (bound, l, trap_exit ∷ until_t1 l ∷ [])

-- `leaser.bound`.
hold : Lease → Outcome
unfolding until_t1
hold l = (bound, l, apply l ∷ until_t1 l ∷ [])

pub handle_event : Phase → Lease → Event → Outcome
unfolding hold
handle_event bound l renew_now = (renewing, l, exchange (renew l) ∷ [])
handle_event ph l renew_now = (ph, l, [])
handle_event ph l (granted l') = hold l'
handle_event renewing l failed = (rebinding, l, exchange (rebind l) ∷ [])
handle_event rebinding l failed = (soliciting, l, exchange acquire ∷ [])
handle_event soliciting l failed = (soliciting, l, stop ∷ [])
handle_event bound l failed = (bound, l, [])
handle_event ph l other = (ph, l, [])

abbrev is_soliciting : Phase → Bool
is_soliciting soliciting = true
is_soliciting ph = false

-- `Terminate`, of a reason that is abnormal or not.
pub terminate : Phase → Lease → Bool → List Effect
terminate ph l abnormal = if not (is_soliciting ph) && not abnormal then release l ∷ [] else []
