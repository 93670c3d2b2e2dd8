-- ===== src/PdLease/Ladder.antt =====
-- internal/pdlease/lease.go: the process with its state timeout and its exchange, as molecule runs them.
use minuteman.Base.{
  ℕ, ◌≡◌, ◌⊎◌, refl, arith, List, [], ◌∷◌, Bool, true, false, Option, none, some, inl, inr,
  if◌then◌else◌,
}
use minuteman.PrefixDelegation.Lease.{Lease, renew_at}
use minuteman.PdLease.{
  Phase, bound, renewing, rebinding, soliciting, Run, renew, rebind, acquire, Event, renew_now,
  granted, failed, other, Effect, trap_exit, start_timeout, exchange, apply, stop, release, init,
  handle_event,
}

-- The process from outside: its phase and lease, the instant of its state timeout, the exchange that
-- runs, the lease last applied to the LAN, and whether it has stopped.
pub record World : Type 0 where
  pub phase : Phase
  pub lease : Lease
  pub timer : Option ℕ
  pub running : Option Run
  pub applied : Lease
  pub stopped : Bool

perform_one : World → Effect → World
perform_one w trap_exit = w
perform_one w (start_timeout at) = record w { timer = some at }
perform_one w (exchange r) = record w { running = some r }
perform_one w (apply l) = record w { applied = l }
perform_one w stop = record w { stopped = true }
perform_one w (release l) = w

perform : World → List Effect → World
unfolding perform_one
perform w [] = w
perform w (e ∷ es) = perform (perform_one w e) es

-- A state timeout ends with the phase that set it.
abbrev same_phase : Phase → Phase → Bool
same_phase bound bound = true
same_phase renewing renewing = true
same_phase rebinding rebinding = true
same_phase soliciting soliciting = true
same_phase p q = false

enter : World → Phase → Lease → World
enter w ph l = record w {
  phase = ph;
  lease = l;
  timer = if same_phase w.phase ph then w.timer else none;
}

-- One event, and its effects.
unfoldable pub react : World → Event → World
unfolding enter perform
react w e = let (ph, l, effs) = handle_event w.phase w.lease e in perform (enter w ph l) effs

-- The caller has applied the first lease.
unfoldable pub started : Lease → World
unfolding perform
started l =
    let (ph, l', effs) = init l in
    perform
      (record {
        phase = ph;
        lease = l';
        timer = none;
        running = none;
        applied = l;
        stopped = false;
      })
      effs

-- What may happen to a process that has not stopped: its timeout fires, its exchange ends, with a
-- lease that such an exchange may grant or without one, or some other message comes.
pub data Step (Grants : Run → Lease → Type 0) (w : World) : World → Type 0 where
  fires : {at : ℕ} → w.timer ≡ some at → Step Grants w (react (record w { timer = none }) renew_now)
  succeeds :
      {r : Run} (l : Lease)
      → w.running ≡ some r
      → Grants r l
      → Step Grants w (react (record w { running = none }) (granted l))
  fails :
      {r : Run} → w.running ≡ some r → Step Grants w (react (record w { running = none }) failed)
  hears : Step Grants w (react w other)

pub data Reach (Grants : Run → Lease → Type 0) (l : Lease) : World → Type 0 where
  here : Reach Grants l (started l)
  next :
      {w w' : World} → Reach Grants l w → w.stopped ≡ false → Step Grants w w' → Reach Grants l w'

-- The exchange that belongs to a rung.
abbrev pub run_of : Phase → Lease → Option Run
run_of bound l = none
run_of renewing l = some (renew l)
run_of rebinding l = some (rebind l)
run_of soliciting l = some acquire

abbrev pub timer_of : Phase → Lease → Option ℕ
timer_of bound l = some (renew_at l)
timer_of ph l = none

pub record IsOnRung (w : World) : Type 0 where
  pub waits : w.timer ≡ timer_of w.phase w.lease
  pub runs : (w.stopped ≡ true) ⊎ (w.running ≡ run_of w.phase w.lease)
  pub held : w.applied ≡ w.lease

pub started-lease : (l : Lease) → (started l).lease ≡ l
unfolding started perform init
started-lease l = refl

module _ {Grants : Run → Lease → Type 0} where
  Step-IsOnRung : {w w' : World} → Step Grants w w' → w.stopped ≡ false → IsOnRung w → IsOnRung w'
  unfolding react handle_event perform enter
  Step-IsOnRung {w} (fires e) s v = ground arith
  Step-IsOnRung {w} (succeeds l e g) s v = ground arith
  Step-IsOnRung {w} (fails e) s v = ground arith
  Step-IsOnRung {w} hears s v = ground arith

  -- In every state that the process comes to, unless it has stopped, exactly the exchange of its rung
  -- runs, with the lease held: none when bound, a Renew, a Rebind or a new acquisition; the timeout is
  -- set when bound, for the T1 of the lease, and only then; and the lease held is the one last
  -- applied.
  pub Reach-IsOnRung : {l : Lease} {w : World} → Reach Grants l w → IsOnRung w
  Reach-IsOnRung here =
      unfold started perform init in (record { waits = refl; runs = inr refl; held = refl })
  Reach-IsOnRung (next r s st) = Step-IsOnRung st s (Reach-IsOnRung r)

  -- A step keeps the lease, or takes one that the running exchange granted.
  pub Step-lease :
      {w w' : World}
      → Step Grants w w'
      → (w'.lease ≡ w.lease) ⊎ ((r : Run) × (w.running ≡ some r) × Grants r w'.lease)
  unfolding react handle_event perform enter
  Step-lease {w} (fires e) = inl (ground arith)
  Step-lease {w} (succeeds {r} l e g) = inr (r, e, g)
  Step-lease {w} (fails e) = inl (ground arith)
  Step-lease {w} hears = inl (ground arith)
