-- ===== src/Datapath/Examples.antt =====
-- pkg/datapath: a migration from one AFTR to another, on a kernel whose third call fails.
use minuteman.Base.{ℕ, ◌*◌, ◌^◌, ◌+◌, ◌≡◌, refl, arith, List, [], ◌∷◌, some, Bool, ◌==◌}
use minuteman.Netip.{v6}
use minuteman.Base.Maps.{empty, insert}
use minuteman.Datapath.{Loader, Endpoints, Ctrl, unpack, slot_key}
use minuteman.Datapath.Triples.{Ensures, ctrl}
use minuteman.Datapath.Phases.{
  steady, At, Operation, begins, cuts_over, completes, Refined, Unmoved,
}
use minuteman.Datapath.Refines.{operate, operate-Refined, operate_all, operate_all-live}
use minuteman.Datapath.Flows.{
  gc_flow_affinity, gc_flow_affinity-IsReclaimed, IsReclaimed, IsUntouched,
}

abbrev third_fails : ℕ → Bool
third_fails n = n == 2

abbrev first_pair : Endpoints
first_pair = record { b4 = v6 1; aftr = v6 2 }

abbrev second_pair : Endpoints
second_pair = record { b4 = v6 1; aftr = v6 3 }

-- Steady in slot 1, with one flow of epoch 7 and one of epoch 6.
abbrev running : Loader
running = record {
  migration_ctrl = 257 + 7 * 2 ^ 24;
  next_hops = insert 1 first_pair empty;
  tunnel_pmtus = empty;
  flow_affinity =
      record { proto = 6; epoch = 7; last_seen_ns = 100 }
      ∷ record { proto = 17; epoch = 6; last_seen_ns = 100 }
      ∷ [];
  calls = 0;
}

running-At : At running (steady first_pair)
running-At = unfold unpack in record { slot_fits = omega arith; holds = (refl, ground arith) }

operate-Refined_example :
    Ensures
      (λ _ t. Refined (begins second_pair) (steady first_pair) t)
      (Unmoved (steady first_pair))
      (operate third_fails (begins second_pair) running)
operate-Refined_example =
    operate-Refined third_fails (begins second_pair) running (steady first_pair) running-At

abbrev whole : List Operation
whole = begins second_pair ∷ begins second_pair ∷ cuts_over ∷ completes ∷ []

operate_all-live_example :
    (e : Endpoints) × ((operate_all third_fails whole running).next_hops
        (ctrl (operate_all third_fails whole running)).active_slot
      ≡ some e)
operate_all-live_example = operate_all-live third_fails whole running (steady first_pair) running-At

gc_flow_affinity-IsReclaimed_example :
    Ensures
      (IsReclaimed running (record { tcp = 50; others = 10 }) 200)
      (IsUntouched running)
      (gc_flow_affinity third_fails (record { tcp = 50; others = 10 }) 200 running)
gc_flow_affinity-IsReclaimed_example =
    gc_flow_affinity-IsReclaimed third_fails (record { tcp = 50; others = 10 }) 200 running

abbrev some_ctrl : Ctrl
some_ctrl = record { active_slot = 1; old_slot = 0; state = 2; epoch = 255 }
