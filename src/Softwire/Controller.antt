-- ===== src/Softwire/Controller.antt =====
-- internal/softwirectl/controller.go: the state machine that owns the softwire's endpoints. An event
-- takes a phase and its data to the next ones and to effects: requests to the softwire server, timers
-- and discovery attempts. Log lines are left out; an error is its text.
pub mod Confirmed
pub mod Paced
mod Examples
use minuteman.Base.{
  ℕ, zero, suc, ◌+◌, ◌-◌, ◌*◌, ◌/◌, ◌%◌, ◌^◌, List, [], ◌∷◌, ◌++◌, ltb, ◌==◌, not, ◌&&◌, ◌||◌,
  if◌then◌else◌, Bool, true, false, Option, none, some,
}
use minuteman.Netip.{Addr, invalid, v4, v6, same_addr, is_6, is_4_in_6}
use minuteman.Datapath.{Endpoints}
use minuteman.Softwire.Server.{Counts}
use minuteman.Softwire.Events.{
  Phase, recovering, steady, discovering, priming, draining, switching, Discovery, no_discovery,
  Data, Controller, Answer, ok, failed, Response, on_recover, on_source, on_switch, on_abort,
  on_cutover, on_complete, on_begin, on_counts, on_gc, Attempt, found, retry_in, Message, refresh,
  primed, drain_tick, b4_poll, drain_cap, Request, ask_recover, ask_counts, ask_abort, ask_cutover,
  ask_gc, ask_complete, ask_source, ask_switch, ask_begin, Effect, request, state_timeout,
  poll_timer, cap_timer, cancel_cap, cancel_discovery, postpone, stop, discover, Event, entered,
  other, state_timed_out, timed_out, attempted, responded, Step,
}

abbrev second : ℕ
second = 1_000_000_000

abbrev priming_duration : ℕ
priming_duration = 60 * second

abbrev drain_interval : ℕ
drain_interval = 30 * second

abbrev max_drain_duration : ℕ
max_drain_duration = 7200 * second

abbrev pub switch_retry : ℕ
switch_retry = 300 * second

abbrev b4_poll_interval : ℕ
b4_poll_interval = 30 * second

pub next_refresh_wait : ℕ → ℕ
next_refresh_wait reported = if reported == 0 then switch_retry else reported

-- netip's IsGlobalUnicast of an IPv6 address; of a v4-mapped one it is asked of the IPv4 address.
is_global_unicast : Addr → Bool
is_global_unicast (v6 a) =
    if is_4_in_6 (v6 a)
    then not (a % 2 ^ 32 == 0)
      && not (a % 2 ^ 32 == 0xffffffff)
      && not (a / 2 ^ 24 % 2 ^ 8 == 127)
      && not (a / 2 ^ 28 % 2 ^ 4 == 14)
      && not (a / 2 ^ 16 % 2 ^ 16 == 43518)
    else not (a == 0) && not (a == 1) && not (a / 2 ^ 120 == 0xff) && not (a / 2 ^ 118 == 0x3fa)
is_global_unicast _ = false

usable_b4 : Addr → Bool
usable_b4 a = is_6 a && is_global_unicast a

-- The B4 to use, and whether it is a change.
pub next_b4 : Addr → Addr → Bool → Addr × Bool
next_b4 current queried known =
    if not known || not (usable_b4 queried) || same_addr queried current
    then (current, false)
    else (queried, true)

-- A count that goes up, on uint64.
abbrev bump : ℕ → ℕ
bump n = (n + 1) % 2 ^ 64

-- A difference of cumulative counters, on uint64.
abbrev since : ℕ → ℕ → ℕ
since total base = (total + 2 ^ 64 - base) % 2 ^ 64

enter : Controller → Phase → Data → Step
enter c steady d =
    if c.dynamic_aftr then (steady, d, state_timeout d.wait refresh ∷ []) else (steady, d, [])
enter c draining d = (
  draining,
  record d { cap_reached = false },
  state_timeout drain_interval drain_tick
      ∷ cap_timer max_drain_duration (drain_cap d.migration)
      ∷ [],
)
enter c recovering d = (recovering, d, [])
enter c discovering d = (discovering, d, [])
enter c priming d = (priming, d, [])
enter c switching d = (switching, d, [])

poll_effects : Controller → List Effect
poll_effects c = if c.dynamic_b4 then poll_timer b4_poll_interval b4_poll ∷ [] else []

recovered : Controller → Data → Endpoints → Step
recovered c d e =
    if same_addr e.aftr c.initial.aftr
    then (
      steady,
      record d { b4 = e.b4; current = c.initial; wait = next_refresh_wait c.initial.refresh },
      poll_effects c,
    )
    else (
      steady,
      record d { b4 = e.b4; current = record no_discovery { aftr = e.aftr }; wait = 0 },
      poll_effects c,
    )

-- Where the new flows are: in a drain on the new AFTR already.
switch_target : Phase → Data → Discovery
switch_target draining d = d.next
switch_target _ d = d.current

cancelled : Phase → List Effect
cancelled discovering = cancel_discovery ∷ []
cancelled _ = []

pub hard_switch : Phase → Data → Addr → Step
hard_switch st d b4 =
    let to = switch_target st d in
    let gen : ℕ = bump d.gen in
    (
      switching,
      record d { gen = gen; switch_b4 = b4; switch_to = to; next = no_discovery },
      cancelled st ++ request gen (ask_switch (record { b4 = b4; aftr = to.aftr })) ∷ [],
    )

migration_failed : Data → Step
migration_failed d = (steady, record d { next = no_discovery; wait = switch_retry }, [])

abort : Data → List ℕ → Step
abort d why = (priming, record d { abort_why = why }, request d.gen ask_abort ∷ [])

-- "reading datapath stats: "
reading_stats : List ℕ
reading_stats =
    114 ∷ 101 ∷ 97 ∷ 100 ∷ 105 ∷ 110 ∷ 103 ∷ 32 ∷ 100 ∷ 97 ∷ 116 ∷ 97 ∷ 112 ∷ 97 ∷ 116 ∷ 104 ∷ 32
    ∷ 115 ∷ 116 ∷ 97 ∷ 116 ∷ 115 ∷ 58 ∷ 32 ∷ []

sourced : Phase → Data → Addr × Bool → Step
sourced st d (b4, changed) = if changed then hard_switch st d b4 else (st, d, [])

discovered : Data → Attempt → Step
discovered d (retry_in wait) = (
  steady,
  record d { current = record d.current { refresh = wait }; wait = next_refresh_wait wait },
  [],
)
discovered d (found new) =
    if same_addr new.aftr d.current.aftr
    then (steady, record d { current = new; wait = next_refresh_wait new.refresh }, [])
    else (
      priming,
      record d { next = new; migration = bump d.migration },
      request d.gen (ask_begin (record { b4 = d.b4; aftr = new.aftr })) ∷ [],
    )

counted : Phase → Data → Counts → Step
counted st d n =
    if ltb 0 (since n.affinity_insert_fail d.baseline.affinity_insert_fail) then abort d [] else (
      st,
      record d { recorded = since n.affinity_insert d.baseline.affinity_insert },
      request d.gen ask_cutover ∷ [],
    )

-- The end of a rollback, on why it was made.
aborted : Data → List ℕ → Step
aborted d [] = (steady, record d { wait = switch_retry }, [])
aborted d (w ∷ why) = migration_failed d

tick_again : Phase → Data → Step
tick_again st d = (st, d, state_timeout drain_interval drain_tick ∷ [])

reclaimed : Phase → Data → ℕ → Step
reclaimed st d remaining =
    if ltb 0 remaining && not d.cap_reached
    then tick_again st d
    else (st, d, request d.gen ask_complete ∷ [])

pub response : Controller → Phase → Data → Response → Step
response c st d (on_recover (failed e)) = (st, d, stop ∷ [])
response c st d (on_recover (ok e)) = recovered c d e
response c st d (on_source (failed e)) = (st, d, [])
response c st d (on_source (ok (a, known))) = sourced st d (next_b4 d.b4 a known)
response c st d (on_switch (failed e)) = (steady, record d { wait = switch_retry }, [])
response c st d (on_switch (ok _)) =
    (steady, record d { b4 = d.switch_b4; current = d.switch_to; wait = 0 }, [])
response c st d (on_begin (failed e)) = migration_failed d
response c st d (on_begin (ok n)) =
    (st, record d { baseline = n }, state_timeout priming_duration primed ∷ [])
response c st d (on_counts (failed e)) = abort d (reading_stats ++ e)
response c st d (on_counts (ok n)) = counted st d n
response c st d (on_cutover (failed e)) = abort d e
response c st d (on_cutover (ok _)) = (draining, d, [])
response c st d (on_abort (failed e)) = migration_failed d
response c st d (on_abort (ok _)) = aborted d d.abort_why
response c st d (on_gc (failed e)) = tick_again st d
response c st d (on_gc (ok n)) = reclaimed st d n
response c st d (on_complete (failed e)) = tick_again st d
response c st d (on_complete (ok _)) = (
  steady,
  record d { current = d.next; next = no_discovery; wait = next_refresh_wait d.next.refresh },
  cancel_cap ∷ [],
)

state_timed : Phase → Data → Message → Step
state_timed st d refresh = (discovering, d, discover d.current.hb46pp_token ∷ [])
state_timed st d primed = (st, d, request d.gen ask_counts ∷ [])
state_timed st d drain_tick = (st, d, request d.gen ask_gc ∷ [])
state_timed st d b4_poll = (st, d, [])
state_timed st d (drain_cap m) = (st, d, [])

-- A poll waits for a hard switch to land.
polled : Phase → Data → Step
polled switching d = (switching, d, postpone ∷ [])
polled st d =
    (st, d, request d.gen (ask_source d.current.aftr) ∷ poll_timer b4_poll_interval b4_poll ∷ [])

timed : Phase → Data → Message → Step
timed st d b4_poll = polled st d
timed st d (drain_cap m) = (st, if m == d.migration then record d { cap_reached = true } else d, [])
timed st d refresh = (st, d, [])
timed st d primed = (st, d, [])
timed st d drain_tick = (st, d, [])

-- A response of an earlier generation is dropped.
pub handle_event : Controller → Phase → Data → Event → Step
handle_event c st d entered = enter c st d
handle_event c st d (state_timed_out m) = state_timed st d m
handle_event c st d (timed_out m) = timed st d m
handle_event c st d (attempted a) = discovered d a
handle_event c st d (responded gen r) = if gen == d.gen then response c st d r else (st, d, [])
handle_event c st d other = (st, d, [])
