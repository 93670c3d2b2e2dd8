-- ===== src/Softwire/Server.antt =====
-- internal/softwirectl/softwire.go: the requests of the controller, carried out on the datapath and
-- on the tunnel.
pub mod Carried
mod Examples
use minuteman.Base.{ℕ, Option, none, some, Bool, true, false, ◌*◌, List, [], ◌∷◌}
use minuteman.Netip.{Addr}
use minuteman.Datapath.{
  Endpoints, Loader, Result, ok, err, Fault, switch_aftr, begin_migration, cutover, abort_migration,
  complete_migration, Act,
}
use minuteman.Datapath.Flows.{IdleTimeouts, gc_flow_affinity}

abbrev second : ℕ
second = 1_000_000_000

-- flowIdle.
flow_idle : IdleTimeouts
flow_idle = record { tcp = 1800 * second; others = 300 * second }

pub record Counts : Type 0 where
  pub affinity_insert : ℕ
  pub affinity_insert_fail : ℕ

pub data Request : Type 0 where
  recover counts abort cutover_now gc complete : Request
  source : Addr → Request
  switch begin : Endpoints → Request

-- A reply of each kind, with its error or its value.
pub data Reply : Type 0 where
  recovered : Result Endpoints → Reply
  sourced : Option (Addr × Bool) → Reply
  counted : Result Counts → Reply
  reclaimed : Result ℕ → Reply
  done : Result (Unit {0}) → Reply

-- The softwire, the datapath under it and the tunnel, of whatever kind `T` its state is.
pub record Machine (T : Type 0) : Type 0 where
  pub active : Endpoints
  pub target : Endpoints
  pub migrating : Bool
  pub dp : Loader
  pub tun : T

-- What is not code of the program: the system calls that fail, the tunnel's SetEndpoints, the
-- kernel's source selection, the datapath's counters and the clock.
pub record Outside (T : Type 0) : Type 0 where
  pub fails : ℕ → Bool
  pub set_endpoints : Endpoints → T → T
  pub source_for_dest : Addr → Option (Addr × Bool)
  pub stats : Loader → Result Counts
  pub clock : ℕ

module _ {T : Type 0} (o : Outside T) where
  -- Best effort: an error of the tunnel goes to the log.
  set_tunnel : Endpoints → Machine T → Machine T
  set_tunnel e m = record m { tun = o.set_endpoints e m.tun }

  after_recover : Machine T → Result (Unit {0}) × Loader → Reply × Machine T
  after_recover m (err x, dp) = (recovered (err x), record m { dp = dp })
  after_recover m (ok _, dp) =
      (recovered (ok m.active), set_tunnel m.active (record m { migrating = false; dp = dp }))

  handle_recover : Bool → Machine T → Reply × Machine T
  handle_recover false m = (recovered (ok m.active), m)
  handle_recover true m = after_recover m (switch_aftr o.fails m.active m.dp)

  after_switch : Endpoints → Machine T → Result (Unit {0}) × Loader → Reply × Machine T
  after_switch to m (err x, dp) = (done (err x), record m { dp = dp })
  after_switch to m (ok _, dp) =
      (done (ok tt), set_tunnel to (record m { active = to; migrating = false; dp = dp }))

  after_begin : Endpoints → Counts → Machine T → Result (Unit {0}) × Loader → Reply × Machine T
  after_begin to c m (err x, dp) = (counted (err x), record m { dp = dp })
  after_begin to c m (ok _, dp) =
      (counted (ok c), record m { target = to; migrating = true; dp = dp })

  handle_begin : Endpoints → Result Counts → Machine T → Reply × Machine T
  handle_begin to (err x) m = (counted (err x), m)
  handle_begin to (ok c) m = after_begin to c m (begin_migration o.fails to m.dp)

  -- The end of `abortReq` and of `completeReq`.
  after_end : Machine T → Result (Unit {0}) × Loader → Reply × Machine T
  after_end m (err x, dp) = (done (err x), record m { dp = dp })
  after_end m (ok _, dp) = (done (ok tt), record m { migrating = false; dp = dp })

  after_cutover : Machine T → Result (Unit {0}) × Loader → Reply × Machine T
  after_cutover m (err x, dp) = (done (err x), record m { dp = dp })
  after_cutover m (ok _, dp) =
      (done (ok tt), set_tunnel m.target (record m { active = m.target; dp = dp }))

  after_gc : Machine T → Result ℕ × Loader → Reply × Machine T
  after_gc m (r, dp) = (reclaimed r, record m { dp = dp })

  pub handle : Request → Machine T → Reply × Machine T
  handle recover m = handle_recover m.migrating m
  handle (source aftr) m = (sourced (o.source_for_dest aftr), m)
  handle (switch to) m = after_switch to m (switch_aftr o.fails to m.dp)
  handle (begin to) m = handle_begin to (o.stats m.dp) m
  handle counts m = (counted (o.stats m.dp), m)
  handle abort m = after_end m (abort_migration o.fails m.dp)
  handle cutover_now m = after_cutover m (cutover o.fails m.dp)
  handle gc m = after_gc m (gc_flow_affinity o.fails flow_idle o.clock m.dp)
  handle complete m = after_end m (complete_migration o.fails m.dp)

  -- Requests in turn.
  pub serve : List Request → Machine T → Machine T
  serve [] m = m
  serve (r ∷ rs) m = serve rs (handle r m).1
