-- ===== src/Softwire/Controller/Confirmed.antt =====
-- internal/softwirectl/controller.go: the AFTR changes when the softwire says so, and requests are of
-- the current generation.
use minuteman.Base.{
  ℕ, ◌≡◌, refl, ap, arith, All, inl, inr, Bool, true, false, Bool-cases, ◌==◌, if◌then◌else◌, List,
  [], ◌∷◌,
}
use minuteman.Netip.{Addr, same_addr}
use minuteman.Datapath.{Endpoints}
use minuteman.Softwire.Server.{Counts}
use minuteman.Softwire.Events.{
  Controller, Phase, Data, Event, entered, other, state_timed_out, timed_out, attempted, responded,
  Response, on_recover, on_source, on_switch, on_begin, on_counts, on_abort, on_cutover, on_gc,
  on_complete, ok, failed, Attempt, found, retry_in, Effect, request,
}
use minuteman.Softwire.Controller.{
  handle_event, response, enter, recovered, hard_switch, cancelled, migration_failed, abort,
  sourced, discovered, counted, aborted, tick_again, reclaimed, state_timed, polled, timed,
  poll_effects, next_b4,
}

-- What the softwire's server has confirmed by a response: the endpoints that it recovered, those that
-- it was asked to switch to, or the AFTR of the migration that it completed, at the B4 in use.
pub confirmed : Data → Response → Endpoints
confirmed d (on_recover (ok e)) = e
confirmed d (on_switch (ok _)) = record { b4 = d.switch_b4; aftr = d.switch_to.aftr }
confirmed d (on_complete (ok _)) = record { b4 = d.b4; aftr = d.next.aftr }
confirmed d _ = record { b4 = d.b4; aftr = d.current.aftr }

-- The endpoints that an event leaves the controller on: those confirmed, if it is a response of the
-- current generation, and else the ones that it was on.
pub confirmed_by : Data → Event → Endpoints
unfolding confirmed
confirmed_by d (responded gen r) =
    if gen == d.gen then confirmed d r else record { b4 = d.b4; aftr = d.current.aftr }
confirmed_by d _ = record { b4 = d.b4; aftr = d.current.aftr }

abbrev pub endpoints : Data → Endpoints
endpoints d = record { b4 = d.b4; aftr = d.current.aftr }

recovered_lem : (c : Controller) (d : Data) (e : Endpoints) → endpoints (recovered c d e).1 ≡ e
unfolding recovered
recovered_lem c d e = elim (Bool-cases (same_addr e.aftr c.initial.aftr)) [
  | inl h ↦ rw h (
      let same : c.initial.aftr ≡ e.aftr = ground arith in
      ap (λ a. record { b4 = e.b4; aftr = a }) same)
  | inr h ↦ rw h refl
]

sourced_lem : (st : Phase) (d : Data) (n : Addr × Bool) → endpoints (sourced st d n).1 ≡ endpoints d
unfolding sourced hard_switch
sourced_lem st d (b4, true) = refl
sourced_lem st d (b4, false) = refl

counted_lem : (st : Phase) (d : Data) (n : Counts) → endpoints (counted st d n).1 ≡ endpoints d
unfolding counted abort
counted_lem st d n = ground arith

aborted_lem : (d : Data) (why : List ℕ) → endpoints (aborted d why).1 ≡ endpoints d
unfolding aborted migration_failed
aborted_lem d [] = refl
aborted_lem d (w ∷ why) = refl

reclaimed_lem : (st : Phase) (d : Data) (n : ℕ) → endpoints (reclaimed st d n).1 ≡ endpoints d
unfolding reclaimed tick_again
reclaimed_lem st d n = ground arith

response-confirmed :
    (c : Controller) (st : Phase) (d : Data) (r : Response)
    → endpoints (response c st d r).1 ≡ confirmed d r
unfolding response confirmed migration_failed abort tick_again
response-confirmed c st d (on_recover (failed e)) = refl
response-confirmed c st d (on_recover (ok e)) = recovered_lem c d e
response-confirmed c st d (on_source (failed e)) = refl
response-confirmed c st d (on_source (ok (a, known))) = sourced_lem st d (next_b4 d.b4 a known)
response-confirmed c st d (on_switch (failed e)) = refl
response-confirmed c st d (on_switch (ok u)) = refl
response-confirmed c st d (on_begin (failed e)) = refl
response-confirmed c st d (on_begin (ok n)) = refl
response-confirmed c st d (on_counts (failed e)) = refl
response-confirmed c st d (on_counts (ok n)) = counted_lem st d n
response-confirmed c st d (on_cutover (failed e)) = refl
response-confirmed c st d (on_cutover (ok u)) = refl
response-confirmed c st d (on_abort (failed e)) = refl
response-confirmed c st d (on_abort (ok u)) = aborted_lem d d.abort_why
response-confirmed c st d (on_gc (failed e)) = refl
response-confirmed c st d (on_gc (ok n)) = reclaimed_lem st d n
response-confirmed c st d (on_complete (failed e)) = refl
response-confirmed c st d (on_complete (ok u)) = refl

discovered_lem : (d : Data) (a : Attempt) → endpoints (discovered d a).1 ≡ endpoints d
unfolding discovered
discovered_lem d (retry_in wait) = refl
discovered_lem d (found new) = elim (Bool-cases (same_addr new.aftr d.current.aftr)) [
  | inl h ↦ rw h (
      let same : new.aftr ≡ d.current.aftr = ground arith in
      ap (λ a. record { b4 = d.b4; aftr = a }) same)
  | inr h ↦ rw h refl
]

-- The softwire's confirmations alone move the controller. A response of the current generation that
-- endpoints were recovered, that a hard switch was made or that a migration was completed leaves it on
-- the endpoints recovered, on those of the switch, or on the AFTR of the migration at the same B4.
-- Every other event, a late response among them, leaves its B4 and its AFTR as they were.
pub handle_event-confirmed_by :
    (c : Controller) (st : Phase) (d : Data) (ev : Event)
    → endpoints (handle_event c st d ev).1 ≡ confirmed_by d ev
unfolding handle_event confirmed_by enter polled state_timed timed
handle_event-confirmed_by c st d entered = ground arith
handle_event-confirmed_by c st d other = refl
handle_event-confirmed_by c st d (state_timed_out m) = ground arith
handle_event-confirmed_by c st d (timed_out m) = ground arith
handle_event-confirmed_by c st d (attempted a) = discovered_lem d a
handle_event-confirmed_by c st d (responded gen r) = elim (Bool-cases (gen == d.gen)) [
  | inr h ↦ rw h refl
  | inl h ↦ rw h (response-confirmed c st d r)
]

-- A request among the effects is tagged with a generation.
abbrev pub IsTagged : ℕ → Effect → Type 0
IsTagged gen (request g r) = g ≡ gen
IsTagged gen _ = Unit {0}

module _ (c : Controller) (st : Phase) (d : Data) where
  poll_effects-IsTagged : (gen : ℕ) → All (IsTagged gen) (poll_effects c)
  unfolding poll_effects
  poll_effects-IsTagged gen = ground arith

  recovered-IsTagged : (e : Endpoints) → All (IsTagged (recovered c d e).1.gen) (recovered c d e).2
  unfolding recovered
  recovered-IsTagged e = elim (Bool-cases (same_addr e.aftr c.initial.aftr)) [
    | inl h ↦ rw h (poll_effects-IsTagged d.gen)
    | inr h ↦ rw h (poll_effects-IsTagged d.gen)
  ]

  hard_switch-IsTagged :
      (b4 : Addr) → All (IsTagged (hard_switch st d b4).1.gen) (hard_switch st d b4).2
  unfolding hard_switch cancelled
  hard_switch-IsTagged b4 = ground arith

  response-IsTagged :
      (r : Response) → All (IsTagged (response c st d r).1.gen) (response c st d r).2
  unfolding response migration_failed abort sourced counted aborted tick_again reclaimed
  response-IsTagged (on_recover (failed e)) = (tt, tt)
  response-IsTagged (on_recover (ok e)) = recovered-IsTagged e
  response-IsTagged (on_source (failed e)) = tt
  response-IsTagged (on_source (ok (a, known))) = elim (Bool-cases (next_b4 d.b4 a known).1) [
    | inl h ↦ rw h (hard_switch-IsTagged (next_b4 d.b4 a known).0)
    | inr h ↦ rw h tt
  ]
  response-IsTagged (on_switch (failed e)) = tt
  response-IsTagged (on_switch (ok u)) = tt
  response-IsTagged (on_begin (failed e)) = tt
  response-IsTagged (on_begin (ok n)) = (tt, tt)
  response-IsTagged (on_counts (failed e)) = (refl, tt)
  response-IsTagged (on_counts (ok n)) = ground arith
  response-IsTagged (on_cutover (failed e)) = (refl, tt)
  response-IsTagged (on_cutover (ok u)) = tt
  response-IsTagged (on_abort (failed e)) = tt
  response-IsTagged (on_abort (ok u)) = ground arith
  response-IsTagged (on_gc (failed e)) = (tt, tt)
  response-IsTagged (on_gc (ok n)) = ground arith
  response-IsTagged (on_complete (failed e)) = (tt, tt)
  response-IsTagged (on_complete (ok u)) = (tt, tt)

  -- Every request that an event makes is tagged with the generation that the data have after it.
  pub handle_event-IsTagged :
      (ev : Event) → All (IsTagged (handle_event c st d ev).1.gen) (handle_event c st d ev).2
  unfolding handle_event enter polled state_timed timed discovered
  handle_event-IsTagged entered = ground arith
  handle_event-IsTagged other = tt
  handle_event-IsTagged (state_timed_out m) = ground arith
  handle_event-IsTagged (timed_out m) = ground arith
  handle_event-IsTagged (attempted a) = ground arith
  handle_event-IsTagged (responded gen r) = elim (Bool-cases (gen == d.gen)) [
    | inr h ↦ rw h tt
    | inl h ↦ rw h (response-IsTagged r)
  ]
