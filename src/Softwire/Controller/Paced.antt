-- ===== src/Softwire/Controller/Paced.antt =====
-- internal/softwirectl/controller.go: a failed move is not tried again at once.
use minuteman.Base.{ℕ, ◌<◌, ◌≡◌, ◌≢◌, subst, ==_iff, arith, ◌⊎◌, inl, inr, Bool-cases, ◌==◌}
use minuteman.Datapath.{Endpoints}
use minuteman.Softwire.Events.{
  Controller, Phase, steady, Data, Event, entered, other, state_timed_out, timed_out, attempted,
  responded, Response, on_recover, on_source, on_switch, on_begin, on_counts, on_abort, on_cutover,
  on_gc, on_complete, ok, failed, found, retry_in,
}
use minuteman.Softwire.Controller.{
  next_refresh_wait, handle_event, response, enter, hard_switch, migration_failed, abort, sourced,
  discovered, counted, aborted, tick_again, reclaimed, state_timed, polled, timed,
}

-- What calls for a re-discovery at once: the endpoints were recovered, or a hard switch has landed.
pub data Landed (d : Data) : Event → Type 0 where
  after_recovery : {e : Endpoints} → Landed d (responded d.gen (on_recover (ok e)))
  after_switch : Landed d (responded d.gen (on_switch (ok tt)))

wait_pos : (reported : ℕ) → 0 < next_refresh_wait reported
unfolding next_refresh_wait
wait_pos reported = ground arith

abbrev Paces : Data → Event → Phase → Data → Type 0
Paces d ev st d' = st ≡ steady → (0 < d'.wait) ⊎ Landed d ev

response-Paces :
    (c : Controller) (st : Phase) (d : Data) (r : Response)
    → st ≢ steady
    → Paces d (responded d.gen r) (response c st d r).0 (response c st d r).1
unfolding response migration_failed abort counted aborted tick_again reclaimed hard_switch sourced
response-Paces c st d (on_recover (failed e)) far h = absurd (far h)
response-Paces c st d (on_recover (ok e)) far h = inr after_recovery
response-Paces c st d (on_source (failed e)) far h = absurd (far h)
response-Paces c st d (on_source (ok (a, known))) far h = absurd (ground arith)
response-Paces c st d (on_switch (failed e)) far h = inl (omega arith)
response-Paces c st d (on_switch (ok tt)) far h = inr after_switch
response-Paces c st d (on_begin (failed e)) far h = inl (omega arith)
response-Paces c st d (on_begin (ok n)) far h = absurd (far h)
response-Paces c st d (on_counts (failed e)) far h = absurd (ground arith)
response-Paces c st d (on_counts (ok n)) far h = absurd (ground arith)
response-Paces c st d (on_cutover (failed e)) far h = absurd (ground arith)
response-Paces c st d (on_cutover (ok u)) far h = absurd (ground arith)
response-Paces c st d (on_abort (failed e)) far h = inl (omega arith)
response-Paces c st d (on_abort (ok u)) far h = inl (ground arith)
response-Paces c st d (on_gc (failed e)) far h = absurd (far h)
response-Paces c st d (on_gc (ok n)) far h = absurd (ground arith)
response-Paces c st d (on_complete (failed e)) far h = absurd (far h)
response-Paces c st d (on_complete (ok u)) far h = inl (wait_pos d.next.refresh)

-- A step into Steady from another phase leaves a positive wait for the next discovery, unless the
-- endpoints were just recovered or a hard switch has just landed.
pub handle_event-paced :
    (c : Controller) (st : Phase) (d : Data) (ev : Event)
    → st ≢ steady
    → (handle_event c st d ev).0 ≡ steady
    → (0 < (handle_event c st d ev).1.wait) ⊎ Landed d ev
unfolding handle_event enter polled state_timed timed discovered
handle_event-paced c st d entered far h = absurd (ground arith)
handle_event-paced c st d other far h = absurd (far h)
handle_event-paced c st d (state_timed_out m) far h = absurd (ground arith)
handle_event-paced c st d (timed_out m) far h = absurd (ground arith)
handle_event-paced c st d (attempted (retry_in wait)) far h = inl (wait_pos wait)
handle_event-paced c st d (attempted (found new)) far h = inl (ground (arith, wait_pos new.refresh))
handle_event-paced c st d (responded gen r) far h = elim (Bool-cases (gen == d.gen)) [
  | inr e ↦ absurd (far (rw e at h))
  | inl e ↦ rw e (
      subst (λ g. (0 < (response c st d r).1.wait) ⊎ Landed d (responded g r))
        (let same : d.gen ≡ gen = omega (arith, (==_iff gen d.gen).0 e) in same)
        (response-Paces c st d r far (rw e at h)))
]
