-- ===== src/Datapath/Flows.antt =====
-- pkg/datapath/migration.go: `GCFlowAffinity`, the reclaiming of flow-affinity entries.
use minuteman.Base.{
  ℕ, suc, ◌+◌, ◌≡◌, ◌≢◌, refl, sym, ◌∙◌, arith, ◌≤◌, List, [], ◌∷◌, ltb, ◌==◌, not, ◌&&◌,
  if◌then◌else◌, Bool, true, false, Bool-cases, inl, inr,
}
use minuteman.Datapath.{Loader, Act, ok, Flow, Ctrl, read_ctrl, reads, mig_priming, ◌>>=◌}
use minuteman.Datapath.Triples.{Ensures, returns, faults, next-Ensures, Same, ctrl}

-- FlowIdleTimeouts.
pub record IdleTimeouts : Type 0 where
  pub tcp : ℕ
  pub others : ℕ

abbrev proto_tcp : ℕ
proto_tcp = 6

pub idle_timeout : IdleTimeouts → Flow → ℕ
idle_timeout timeouts f = if f.proto == proto_tcp then timeouts.tcp else timeouts.others

-- An entry of an earlier epoch, or outside PRIMING one that is idle.
pub is_stale : Ctrl → IdleTimeouts → ℕ → Flow → Bool
is_stale c timeouts now f =
    if not (f.epoch == c.epoch)
    then true
    else not (c.state == mig_priming) && ltb (f.last_seen_ns + idle_timeout timeouts f) now

pub count_kept : (Flow → Bool) → List Flow → ℕ
count_kept stale [] = 0
count_kept stale (f ∷ fs) = if stale f then count_kept stale fs else suc (count_kept stale fs)

-- The deletes, one system call each from number `n` on: an entry whose delete fails stays.
pub delete_stale : (ℕ → Bool) → (Flow → Bool) → ℕ → List Flow → List Flow
delete_stale fails stale n [] = []
delete_stale fails stale n (f ∷ fs) =
    let tried = delete_stale fails stale (n + 1) fs in
    let untried = delete_stale fails stale n fs in
    if stale f then if fails n then f ∷ tried else tried else f ∷ untried

pub count_stale : (Flow → Bool) → List Flow → ℕ
count_stale stale [] = 0
count_stale stale (f ∷ fs) = if stale f then suc (count_stale stale fs) else count_stale stale fs

pub reclaim : (ℕ → Bool) → (Flow → Bool) → Act ℕ
reclaim fails stale s = (
  ok (count_kept stale s.flow_affinity),
  record s {
    flow_affinity = delete_stale fails stale s.calls s.flow_affinity;
    calls = s.calls + count_stale stale s.flow_affinity;
  },
)

-- `clock` is what CLOCK_MONOTONIC says. The walk over the table counts as one system call.
pub gc_flow_affinity : (ℕ → Bool) → IdleTimeouts → ℕ → Act ℕ
gc_flow_affinity fails timeouts clock = do
  c ← read_ctrl fails
  now ← reads fails (λ s. clock)
  _ ← reads fails (λ s. s.flow_affinity)
  reclaim fails (is_stale c timeouts now)

-- An entry of a list.
pub data Member (f : Flow) : List Flow → Type 0 where
  here : {fs : List Flow} → Member f (f ∷ fs)
  there : {g : Flow} {fs : List Flow} → Member f fs → Member f (g ∷ fs)

pub delete_stale-Member :
    (fails : ℕ → Bool) (stale : Flow → Bool) (n : ℕ) (f : Flow) (fs : List Flow)
    → Member f fs
    → stale f ≡ false
    → Member f (delete_stale fails stale n fs)
unfolding delete_stale
delete_stale-Member fails stale n f [] m h = elim m [ ]
delete_stale-Member fails stale n f (g ∷ fs) here h = rw h here
delete_stale-Member fails stale n f (g ∷ fs) (there m) h = elim (Bool-cases (stale g)) [
  | inr k ↦ rw k (there (delete_stale-Member fails stale n f fs m h))
  | inl k ↦ elim (Bool-cases (fails n)) [
    | inl d ↦ rw (k, d) (there (delete_stale-Member fails stale (n + 1) f fs m h))
    | inr d ↦ rw (k, d) (delete_stale-Member fails stale (n + 1) f fs m h)
  ]
]

-- When nothing is counted as kept, every entry was stale.
pub count_kept-zero :
    (stale : Flow → Bool) (f : Flow) (fs : List Flow)
    → count_kept stale fs ≡ 0
    → Member f fs
    → stale f ≡ true
unfolding count_kept
count_kept-zero stale f [] e m = elim m [ ]
count_kept-zero stale f (g ∷ fs) e here = ground arith
count_kept-zero stale f (g ∷ fs) e (there m) = elim (Bool-cases (stale g)) [
  | inl k ↦ count_kept-zero stale f fs (rw k at e) m
  | inr k ↦ absurd (ground (arith, k, e))
]

true-ne-false : true ≢ false
true-ne-false e = cc

-- A flow that the drain still holds: of the current epoch and, outside PRIMING, seen lately enough.
pub record IsPinned (c : Ctrl) (timeouts : IdleTimeouts) (now : ℕ) (f : Flow) : Type 0 where
  pub current : f.epoch ≡ c.epoch
  pub lately : c.state ≢ mig_priming → now ≤ f.last_seen_ns + idle_timeout timeouts f

pinned-is_stale :
    (c : Ctrl) (timeouts : IdleTimeouts) (now : ℕ) (f : Flow)
    → IsPinned c timeouts now f
    → is_stale c timeouts now f ≡ false
unfolding is_stale
pinned-is_stale c timeouts now f v = ground (arith, v.current, v.lately)

-- The state of the flows after a walk that found `n` of them still pinned.
pub record IsReclaimed (s : Loader) (timeouts : IdleTimeouts) (now n : ℕ) (t : Loader)
    : Type 0 where
  pub same : Same s t
  pub kept :
      (f : Flow)
      → Member f s.flow_affinity
      → IsPinned (ctrl s) timeouts now f
      → Member f t.flow_affinity
  pub drained : n ≡ 0 → (f : Flow) → Member f s.flow_affinity → ¬ (IsPinned (ctrl s) timeouts now f)

-- The part of a state that a failed walk leaves alone.
pub record IsUntouched (s t : Loader) : Type 0 where
  pub same : Same s t
  pub flows : t.flow_affinity ≡ s.flow_affinity

reads-Ensures :
    {A : Type 0} (fails : ℕ → Bool) (s : Loader) (f : Loader → A)
    → Ensures
        (λ a t. (a ≡ f s) × (t ≡ record s { calls = s.calls + 1 }))
        (λ t. t ≡ record s { calls = s.calls + 1 })
        (reads fails f s)
unfolding reads
reads-Ensures fails s f = elim (Bool-cases (fails s.calls)) [
  | inl h ↦ rw h (faults refl)
  | inr h ↦ rw h (returns (refl, refl))
]

-- The walk either fails and leaves the endpoints and the flows alone, or it leaves the endpoints
-- alone and reclaims no flow of the current epoch that is not idle, in PRIMING none of the current
-- epoch at all; and a result of 0 says that there was no such flow.
pub gc_flow_affinity-IsReclaimed :
    (fails : ℕ → Bool) (timeouts : IdleTimeouts) (clock : ℕ) (s : Loader)
    → Ensures
        (IsReclaimed s timeouts clock)
        (IsUntouched s)
        (gc_flow_affinity fails timeouts clock s)
unfolding gc_flow_affinity read_ctrl
gc_flow_affinity-IsReclaimed fails timeouts clock s =
    next-Ensures (reads-Ensures fails s _) (λ t h. step s t (untouched s) h)
      (λ c t (ec, st).
        let kt = step s t (untouched s) st in
        next-Ensures (reads-Ensures fails t _) (λ u h. step t u kt h)
          (λ now u (en, tu).
            let ku = step t u kt tu in
            next-Ensures (reads-Ensures fails u _) (λ w h. step u w ku h)
              (λ fs w (ef, uw). let kw = step u w ku uw in done c now w kw (ec) (en))))
  where
    done :
        (c : Ctrl) (now : ℕ) (w : Loader)
        → IsUntouched s w
        → c ≡ ctrl s
        → now ≡ clock
        → Ensures
            (IsReclaimed s timeouts clock)
            (IsUntouched s)
            (reclaim fails (is_stale c timeouts now) w)
    done c now w kw ec en =
        unfold reclaim in
        returns (record {
          same = kw.same;
          kept = λ f m v.
              delete_stale-Member fails (is_stale c timeouts now) w.calls f w.flow_affinity
                (rw kw.flows m) (rw (ec, en) (pinned-is_stale (ctrl s) timeouts clock f v));
          drained = λ z f m v. true-ne-false (
              sym (count_kept-zero (is_stale c timeouts now) f w.flow_affinity z (rw kw.flows m))
              ∙ rw (ec, en) (pinned-is_stale (ctrl s) timeouts clock f v));
        })

    untouched : (x : Loader) → IsUntouched x x
    untouched x = record { same = (refl, refl); flows = refl }

    step : (x y : Loader) → IsUntouched s x → y ≡ record x { calls = x.calls + 1 } → IsUntouched s y
    step x y v e = rw e (record { same = v.same; flows = v.flows })
