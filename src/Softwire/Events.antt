-- ===== src/Softwire/Events.antt =====
-- internal/softwirectl/controller.go: the phases, data, events and effects of the controller.
use minuteman.Base.{ℕ, List, [], Bool}
use minuteman.Netip.{Addr, invalid}
use minuteman.Datapath.{Endpoints}
use minuteman.Softwire.Server.{Counts}

pub data Phase : Type 0 where
  recovering steady discovering priming draining switching : Phase

pub record Discovery : Type 0 where
  pub aftr : Addr
  pub dns_servers : List Addr
  pub refresh : ℕ
  pub hb46pp_token : List ℕ

-- Go's zero Discovery.
abbrev pub no_discovery : Discovery
no_discovery = record { aftr = invalid; dns_servers = []; refresh = 0; hb46pp_token = [] }

pub record Data : Type 0 where
  pub current : Discovery
  pub b4 : Addr
  pub wait : ℕ
  pub gen : ℕ
  pub next : Discovery
  pub migration : ℕ
  pub baseline : Counts
  pub recorded : ℕ
  pub cap_reached : Bool
  pub abort_why : List ℕ
  pub switch_b4 : Addr
  pub switch_to : Discovery

pub record Controller : Type 0 where
  pub dynamic_aftr : Bool
  pub dynamic_b4 : Bool
  pub initial : Discovery

-- A value, or the text of an error.
pub data Answer {ℓ} (A : Type ℓ) : Type ℓ where
  ok : A → Answer A
  failed : List ℕ → Answer A

-- The response to each request of the source's `op`, its tag's Op.
pub data Response : Type 0 where
  on_recover : Answer Endpoints → Response
  on_source : Answer (Addr × Bool) → Response
  on_switch on_abort on_cutover on_complete : Answer (Unit {0}) → Response
  on_begin on_counts : Answer Counts → Response
  on_gc : Answer ℕ → Response

-- A discovery attempt that fails says how soon to try again.
pub data Attempt : Type 0 where
  found : Discovery → Attempt
  retry_in : ℕ → Attempt

pub data Message : Type 0 where
  refresh primed drain_tick b4_poll : Message
  drain_cap : ℕ → Message

pub data Request : Type 0 where
  ask_recover ask_counts ask_abort ask_cutover ask_gc ask_complete : Request
  ask_source : Addr → Request
  ask_switch ask_begin : Endpoints → Request

-- `request` carries the generation of its tag; its Op is the request's own.
pub data Effect : Type 0 where
  request : ℕ → Request → Effect
  state_timeout : ℕ → Message → Effect
  poll_timer cap_timer : ℕ → Message → Effect
  cancel_cap cancel_discovery postpone stop : Effect
  discover : List ℕ → Effect

-- The part of genstatem's events that HandleEvent takes; the rest leave everything as it is.
pub data Event : Type 0 where
  entered other : Event
  state_timed_out : Message → Event
  timed_out : Message → Event
  attempted : Attempt → Event
  responded : ℕ → Response → Event

abbrev pub Step : Type 0
Step = Phase × Data × List Effect
