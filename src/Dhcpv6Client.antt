-- ===== src/Dhcpv6Client.antt =====
-- internal/dhcpv6client/machine.go: the DHCPv6 exchanges of one interface, one at a time, as a pure
-- step from a phase, the data and an event to those after it and the effects.
pub mod Valid
pub mod Exhausted
pub mod Replies
mod Examples
use minuteman.Base.{
  ℕ, ◌+◌, ◌^◌, ◌<◌, List, [], ◌∷◌, ltb, leb, ◌==◌, not, ◌&&◌, if◌then◌else◌, Bool, true, false,
  Option, none, some, ◌≡◌,
}
use minuteman.Dhcpv6.Options.{Result, ok, err, stuck}
use minuteman.Dhcpv6.Message.{
  Message, Exchange, Timing, marshal_binary, parse_message, exchange_message, answers,
}
use minuteman.Dhcpv6.Retransmit.{initial_delay, first_rt, next_rt, draws_twice}

-- math/rand, as far as the client draws from it: a transaction ID, and a numerator of `Float64`.
pub record Generator : Type 1 where
  pub State : Type 0
  pub transaction_id : State → List ℕ × State
  pub float : State → ℕ × State

pub data Phase : Type 0 where
  idle delaying waiting : Phase

pub data Answer : Type 0 where
  message : Message → Answer
  exhausted : Answer

pub data TimeoutMsg : Type 0 where
  transmit retransmit : TimeoutMsg

pub data Reason : Type 0 where
  socket_error socket_closed : Reason

-- A caller is a number. A call of another request and a message of another kind have their own
-- constructors.
pub data Event : Type 0 where
  call : Exchange → ℕ → Event
  other_call : ℕ → Event
  state_timeout : TimeoutMsg → Event
  abandoned : ℕ → Event
  received : List ℕ → Event
  socket_failed : Event
  socket_closed : Event
  other_info : Event

pub data Effect : Type 0 where
  postpone : Effect
  start_timeout : ℕ → TimeoutMsg → Effect
  send : List ℕ → Effect
  set_active : Effect
  reply : ℕ → Answer → Effect
  stop : Reason → Effect

-- The source's `exchange`.
pub record Running : Type 0 where
  pub caller : ℕ
  pub x : Exchange
  pub xid : List ℕ
  pub rt : ℕ
  pub elapsed : ℕ
  pub sent : ℕ

-- Go's zero value of it.
abbrev pub no_exchange : Running
no_exchange = record {
  caller = 0;
  x = record {
    type_code = 0;
    expect = 0;
    options = [];
    timing = record { initial_delay_max = 0; irt = 0; mrt = 0; mrc = 0 };
  };
  xid = 0 ∷ 0 ∷ 0 ∷ [];
  rt = 0;
  elapsed = 0;
  sent = 0;
}

pub record Data (g : Generator) : Type 0 where
  pub rng : g.State
  pub cur : Running

module _ (g : Generator) (duid : List ℕ) where
  abbrev pub Outcome : Type 0
  Outcome = Phase × Data g × List Effect

  -- Answers the running exchange.
  pub finish : Data g → Answer → Outcome
  finish d answer = (idle, record d { cur = no_exchange }, reply d.cur.caller answer ∷ [])

  pub transmitted : Data g → Outcome
  transmitted d = (
    waiting,
    record d { cur = record d.cur { sent = d.cur.sent + 1 } },
    send (marshal_binary (exchange_message d.cur.x d.cur.xid duid d.cur.elapsed))
        ∷ start_timeout d.cur.rt retransmit
        ∷ [],
  )

  -- The delay before the first transmission, if there is one.
  delayed : Data g → ℕ → Outcome
  unfolding transmitted
  delayed d delay =
      if ltb 0 delay then (delaying, d, start_timeout delay transmit ∷ []) else transmitted d

  -- `InitialDelay` draws nothing at a ceiling of 0.
  draw_delay : ℕ → g.State → ℕ × g.State
  draw_delay most rng =
      if most == 0 then (0, rng) else (initial_delay most (g.float rng).0, (g.float rng).1)

  pub start : g.State → Exchange → ℕ → Outcome
  start rng x caller =
      let (xid, rng1) = g.transaction_id rng in
      let (r, rng2) = g.float rng1 in
      let (delay, rng3) = draw_delay x.timing.initial_delay_max rng2 in
      delayed
        (record {
          rng = rng3;
          cur = record {
            caller = caller;
            x = x;
            xid = xid;
            rt = first_rt x.timing.irt r;
            elapsed = 0;
            sent = 0;
          };
        })
        delay

  -- The next timeout, and the generator after its draws.
  draw_next_rt : ℕ → ℕ → g.State → ℕ × g.State
  draw_next_rt prev mrt rng =
      let (r, rng1) = g.float rng in
      let (s, rng2) = g.float rng1 in
      (next_rt prev mrt r s, if draws_twice prev mrt r then rng2 else rng1)

  -- The exchange at its next transmission.
  again : Data g → Data g
  unfolding draw_next_rt
  again d =
      let (rt, rng) = draw_next_rt d.cur.rt d.cur.x.timing.mrt d.rng in
      record { rng = rng; cur = record d.cur { elapsed = d.cur.elapsed + d.cur.rt; rt = rt } }

  pub retransmitted : Data g → Outcome
  retransmitted d =
      if not (d.cur.x.timing.mrc == 0) && leb d.cur.x.timing.mrc d.cur.sent
      then finish d exhausted
      else transmitted (again d)

  -- The exchange's answer, or a message to ignore.
  pub judged : Data g → Result Message → Outcome
  unfolding finish
  judged d (ok m) =
      if answers d.cur.x m d.cur.xid duid
      then finish d (message m)
      else (waiting, d, set_active ∷ [])
  judged d _ = (waiting, d, set_active ∷ [])

  -- Who gave up, against who runs an exchange.
  abandon : Phase → Data g → ℕ → Outcome
  abandon ph d caller =
      if caller == d.cur.caller then (idle, record d { cur = no_exchange }, []) else (ph, d, [])

  pub handle_event : Phase → Data g → Event → Outcome
  handle_event idle d (call x caller) = start d.rng x caller
  handle_event ph d (call x caller) = (ph, d, postpone ∷ [])
  handle_event ph d (state_timeout transmit) = transmitted d
  handle_event ph d (state_timeout retransmit) = retransmitted d
  handle_event idle d (abandoned caller) = (idle, d, [])
  handle_event ph d (abandoned caller) = abandon ph d caller
  handle_event waiting d (received b) = judged d (parse_message b)
  handle_event ph d (received b) = (ph, d, [])
  handle_event ph d socket_failed = (ph, d, stop socket_error ∷ [])
  handle_event ph d Event.socket_closed = (ph, d, stop Reason.socket_closed ∷ [])
  handle_event ph d (other_call caller) = (ph, d, [])
  handle_event ph d other_info = (ph, d, [])
