-- ===== src/Softwire/Server/Carried.antt =====
-- internal/softwirectl/softwire.go: the softwire knows where the datapath sends new flows.
use minuteman.Base.{ℕ, Bool, true, false, ◌≡◌, refl, sym, ap, ◌∙◌, List, [], ◌∷◌, inl, inr, some}
use minuteman.Datapath.{Endpoints, Loader, Result, ok, err}
use minuteman.Datapath.Phases.{
  Phase, steady, priming, draining, At, live, begins, switches, cuts_over, Moves, to_priming,
  to_draining, at_once, Kept, Refined, Unmoved, Same-At, in_use,
}
use minuteman.Datapath.Triples.{ctrl, Ensures, Ensures-weaken, returns, faults}
use minuteman.Datapath.Starts.{begin-Refined, switch-Refined}
use minuteman.Datapath.Ends.{cutover-Refined, complete-At, abort-At}
use minuteman.Datapath.Flows.{gc_flow_affinity-IsReclaimed, IsReclaimed, IsUntouched}
use minuteman.Softwire.Server.{
  Machine, Outside, Request, recover, source, switch, begin, counts, abort, cutover_now, gc,
  complete, handle, handle_recover, handle_begin, after_recover, after_switch, after_begin,
  after_end, after_cutover, after_gc, serve, set_tunnel, flow_idle, Counts,
}

-- What the softwire has noted of a phase: the endpoints of new flows, those to move to, and whether
-- it is migrating.
abbrev pub Notes : Endpoints → Endpoints → Bool → Phase → Type 0
Notes active target migrating (steady e) = active ≡ e
Notes active target migrating (priming e new) = (active ≡ e) × (target ≡ new) × (migrating ≡ true)
Notes active target migrating (draining e old) = (active ≡ e) × (migrating ≡ true)

-- The datapath is at a phase, and the softwire knows it.
pub record IsCarried {T : Type 0} (m : Machine T) : Type 0 where
  pub phase : Phase
  pub at : At m.dp phase
  pub notes : Notes m.active m.target m.migrating phase

noted_live :
    (active target : Endpoints) (migrating : Bool) (p : Phase)
    → Notes active target migrating p
    → active ≡ live p
unfolding live
noted_live active target migrating (steady e) n = n
noted_live active target migrating (priming e new) n = n.0
noted_live active target migrating (draining e old) n = n.0

Kept-Notes :
    (active target : Endpoints) (migrating : Bool) (p q : Phase)
    → Notes active target migrating p
    → Kept p q
    → Notes active target migrating q
Kept-Notes active target migrating p q n (inl h) = rw h n
Kept-Notes active target migrating p q n (inr h) = rw h (noted_live active target migrating p n)

module _ {T : Type 0} (o : Outside T) (m : Machine T) (v : IsCarried m) where
  -- An operation that fails leaves the notes true.
  failed : (dp : Loader) → Unmoved v.phase dp → IsCarried (record m { dp = dp })
  failed dp (q, k, w) = record {
    phase = q;
    at = w;
    notes = Kept-Notes m.active m.target m.migrating v.phase q v.notes k;
  }

  recover-IsCarried :
      (r : Result (Unit {0}) × Loader)
      → Ensures (λ _ t. Refined (switches m.active) v.phase t) (Unmoved v.phase) r
      → IsCarried (after_recover o m r).1
  unfolding after_recover set_tunnel
  recover-IsCarried _ (faults {s = dp} h) = failed dp h
  recover-IsCarried _ (returns {s = dp} (q, at_once, w)) = record {
    phase = q;
    at = w;
    notes = refl;
  }

  switch-IsCarried :
      (to : Endpoints) (r : Result (Unit {0}) × Loader)
      → Ensures (λ _ t. Refined (switches to) v.phase t) (Unmoved v.phase) r
      → IsCarried (after_switch o to m r).1
  unfolding after_switch set_tunnel
  switch-IsCarried to _ (faults {s = dp} h) = failed dp h
  switch-IsCarried to _ (returns {s = dp} (q, at_once, w)) = record {
    phase = q;
    at = w;
    notes = refl;
  }

  begin-IsCarried :
      (to : Endpoints) (c : Counts) (r : Result (Unit {0}) × Loader)
      → Ensures (λ _ t. Refined (begins to) v.phase t) (Unmoved v.phase) r
      → IsCarried (after_begin o to c m r).1
  unfolding after_begin
  begin-IsCarried to c _ (faults {s = dp} h) = failed dp h
  begin-IsCarried to c _ (returns {s = dp} (q, move, w)) = record {
    phase = q;
    at = w;
    notes = noted v.phase q v.notes move;
  }
    where
      noted :
          (p q : Phase)
          → Notes m.active m.target m.migrating p
          → Moves (begins to) p q
          → Notes m.active to true q
      noted p r n to_priming = (n, refl, refl)

  cutover-IsCarried :
      (r : Result (Unit {0}) × Loader)
      → Ensures (λ _ t. Refined cuts_over v.phase t) (Unmoved v.phase) r
      → IsCarried (after_cutover o m r).1
  unfolding after_cutover set_tunnel
  cutover-IsCarried _ (faults {s = dp} h) = failed dp h
  cutover-IsCarried _ (returns {s = dp} (q, move, w)) = record {
    phase = q;
    at = w;
    notes = noted v.phase q v.notes move;
  }
    where
      noted :
          (p q : Phase)
          → Notes m.active m.target m.migrating p
          → Moves cuts_over p q
          → Notes m.target m.target m.migrating q
      noted p r n to_draining = (n.1, n.2)

  -- The two ends of a migration.
  end-IsCarried :
      (r : Result (Unit {0}) × Loader)
      → Ensures (λ _ t. At t (steady (live v.phase))) (Unmoved v.phase) r
      → IsCarried (after_end o m r).1
  unfolding after_end
  end-IsCarried _ (faults {s = dp} h) = failed dp h
  end-IsCarried _ (returns {s = dp} w) = record {
    phase = steady (live v.phase);
    at = w;
    notes = noted_live m.active m.target m.migrating v.phase v.notes;
  }

  gc-IsCarried :
      (r : Result ℕ × Loader)
      → Ensures (IsReclaimed m.dp flow_idle o.clock) (IsUntouched m.dp) r
      → IsCarried (after_gc o m r).1
  unfolding after_gc
  gc-IsCarried _ (faults {s = dp} h) = record {
    phase = v.phase;
    at = Same-At m.dp dp v.phase h.same v.at;
    notes = v.notes;
  }
  gc-IsCarried _ (returns {s = dp} h) = record {
    phase = v.phase;
    at = Same-At m.dp dp v.phase h.same v.at;
    notes = v.notes;
  }

  -- Whatever the controller asks and whichever system calls fail, the softwire knows which endpoints
  -- the datapath sends new flows to, and what a migration is moving them to.
  pub handle-IsCarried : (r : Request) → IsCarried (handle o r m).1
  unfolding handle
  handle-IsCarried recover = recovering m.migrating
    where
      recovering : (b : Bool) → IsCarried (handle_recover o b m).1
      recovering false = unfold handle_recover in v
      recovering true =
          unfold handle_recover in
          recover-IsCarried _ (switch-Refined o.fails m.dp v.phase v.at m.active)
  handle-IsCarried (source aftr) = v
  handle-IsCarried (switch to) = switch-IsCarried to _ (switch-Refined o.fails m.dp v.phase v.at to)
  handle-IsCarried (begin to) = started (o.stats m.dp)
    where
      started : (c : Result Counts) → IsCarried (handle_begin o to c m).1
      started (err x) = unfold handle_begin in v
      started (ok c) =
          unfold handle_begin in begin-IsCarried to c _ (begin-Refined o.fails m.dp v.phase v.at to)
  handle-IsCarried counts = v
  handle-IsCarried abort =
      end-IsCarried _
        (Ensures-weaken (abort-At o.fails m.dp v.phase v.at) (λ t h. h) (λ _ t h. h.1))
  handle-IsCarried cutover_now = cutover-IsCarried _ (cutover-Refined o.fails m.dp v.phase v.at)
  handle-IsCarried gc = gc-IsCarried _ (gc_flow_affinity-IsReclaimed o.fails flow_idle o.clock m.dp)
  handle-IsCarried complete =
      end-IsCarried _
        (Ensures-weaken (complete-At o.fails m.dp v.phase v.at) (λ t h. h) (λ _ t h. h.1))

module _ {T : Type 0} (o : Outside T) where
  -- The requests of a whole run.
  serve-IsCarried : (rs : List Request) (m : Machine T) → IsCarried m → IsCarried (serve o rs m)
  unfolding serve
  serve-IsCarried [] m v = v
  serve-IsCarried (r ∷ rs) m v = serve-IsCarried rs (handle o r m).1 (handle-IsCarried o m v r)

  -- From a softwire that knows the phase of its datapath, after any requests and whichever system
  -- calls fail, the endpoints that the softwire calls active are those in the slot that the
  -- datapath sends new flows to.
  pub serve-active :
      (rs : List Request) (m : Machine T)
      → IsCarried m
      → (serve o rs m).dp.next_hops (ctrl (serve o rs m).dp).active_slot
        ≡ some (serve o rs m).active
  serve-active rs m v =
      let w = serve-IsCarried rs m v in
      in_use (ctrl (serve o rs m).dp) (serve o rs m).dp.next_hops w.phase w.at.holds
      ∙ ap some (
          sym (
            noted_live (serve o rs m).active (serve o rs m).target (serve o rs m).migrating w.phase
              w.notes))
