-- ===== src/Datapath/Refines.antt =====
-- pkg/datapath/config.go and migration.go: every operation, whichever system calls fail,
-- refines the specification.
use minuteman.Base.{ℕ, ◌≡◌, refl, arith, Bool, some}
use minuteman.Base.{List, [], ◌∷◌}
use minuteman.Datapath.{
  Act, Result, install, zeroed, Loader, Endpoints, begin_migration, cutover, complete_migration,
  abort_migration, switch_aftr, mig_steady, mig_priming, mig_draining, slot_key,
}
use minuteman.Datapath.Ends.{complete-At, abort-At, cutover-Refined}
use minuteman.Datapath.Starts.{begin-Refined, switch-Refined}
use minuteman.Datapath.Phases.{
  Phase, steady, priming, draining, At, live, written, Operation, begins, switches, cuts_over,
  completes, aborts, to_new, back, Refined, Unmoved, in_use,
}
use minuteman.Datapath.Triples.{
  Ensures, returns, faults, next-Ensures, Ensures-weaken, ctrl, write_ctrl-Ensures,
  write_next_hop-Ensures, validate-Ensures,
}

pub operate : (ℕ → Bool) → Operation → Act (Unit {0})
operate fails (begins e) = begin_migration fails e
operate fails (switches e) = switch_aftr fails e
operate fails cuts_over = cutover fails
operate fails completes = complete_migration fails
operate fails aborts = abort_migration fails

completed :
    (s t : Loader) (p : Phase)
    → At s p
    → (ctrl s).state ≡ mig_draining
    → At t (steady (live p))
    → Refined completes p t
unfolding live
completed s t (steady e) v k w = absurd (omega (arith, k, v.holds.0))
completed s t (priming e new) v k w = absurd (omega (arith, k, v.holds.0))
completed s t (draining e old) v k w = (steady e, to_new, w)

aborted :
    (s t : Loader) (p : Phase)
    → At s p
    → (ctrl s).state ≡ mig_priming
    → At t (steady (live p))
    → Refined aborts p t
unfolding live
aborted s t (steady e) v k w = absurd (omega (arith, k, v.holds.0))
aborted s t (priming e new) v k w = (steady e, back, w)
aborted s t (draining e old) v k w = absurd (omega (arith, k, v.holds.0))

-- On a datapath at a phase of a migration, an operation that succeeds makes a move of the
-- specification; one that fails, at whatever system call, keeps the phase or ends the migration on
-- the endpoints that new flows already had.
pub operate-Refined :
    (fails : ℕ → Bool) (o : Operation) (s : Loader) (p : Phase)
    → At s p
    → Ensures (λ _ t. Refined o p t) (Unmoved p) (operate fails o s)
unfolding operate
operate-Refined fails (begins e) s p v = begin-Refined fails s p v e
operate-Refined fails (switches e) s p v = switch-Refined fails s p v e
operate-Refined fails cuts_over s p v = cutover-Refined fails s p v
operate-Refined fails completes s p v =
    Ensures-weaken (complete-At fails s p v) (λ t h. h) (λ _ t h. completed s t p v h.0 h.1)
operate-Refined fails aborts s p v =
    Ensures-weaken (abort-At fails s p v) (λ t h. h) (λ _ t h. aborted s t p v h.0 h.1)

-- Operations in turn, each one's error going to the log.
pub operate_all : (ℕ → Bool) → List Operation → Loader → Loader
unfolding operate
operate_all fails [] s = s
operate_all fails (o ∷ os) s = operate_all fails os (operate fails o s).1

phase_after :
    {o : Operation} {p : Phase} {r : Result (Unit {0}) × Loader}
    → Ensures (λ _ t. Refined o p t) (Unmoved p) r
    → (q : Phase) × At r.1 q
phase_after (returns (q, m, v)) = (q, v)
phase_after (faults (q, k, v)) = (q, v)

-- From any phase on, the datapath has endpoints for new flows, whatever operations follow and
-- whichever system calls fail.
pub operate_all-live :
    (fails : ℕ → Bool) (os : List Operation) (s : Loader) (p : Phase)
    → At s p
    → (e : Endpoints) × ((operate_all fails os s).next_hops
          (ctrl (operate_all fails os s)).active_slot
        ≡ some e)
unfolding operate_all
operate_all-live fails [] s p v = (live p, in_use (ctrl s) s.next_hops p v.holds)
operate_all-live fails (o ∷ os) s p v =
    let (q, w) = phase_after (operate-Refined fails o s p v) in
    operate_all-live fails os (operate fails o s).1 q w

-- Installing endpoints on maps that are all zero either fails or leaves the datapath steady on them.
pub install-At :
    (fails : ℕ → Bool) (e : Endpoints)
    → Ensures (λ _ t. At t (steady e)) (λ t. Unit {0}) (install fails e zeroed)
unfolding install zeroed
install-At fails e =
    next-Ensures (validate-Ensures fails zeroed e) (λ t h. tt)
      (λ _ t (x, y, st).
        next-Ensures (write_next_hop-Ensures fails t 0 e) (λ u h. tt)
          (λ _ u (dead, a, b).
            Ensures-weaken (write_ctrl-Ensures fails u _) (λ w h. tt)
              (λ _ w (word, h).
                written w (record { active_slot = 0; old_slot = 0; state = mig_steady; epoch = 0 })
                  (steady e)
                  (record {
                    active_fits = omega arith;
                    old_fits = omega arith;
                    state_fits = omega arith;
                    epoch_fits = omega arith;
                  })
                  (omega arith) word (rw (h, b) (refl, ground arith)))))
