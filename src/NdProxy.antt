-- ===== src/NdProxy.antt =====
-- pkg/ndproxy/state.go: which targets the Neighbor Discovery proxy is probing on the LANs, and which
-- it has confirmed. Go maps are tables, lists of keys and values, since Sweep goes through them; the
-- order of a table stands for Go's unspecified one.
pub mod Sweeps
pub mod Answers
pub mod Entries
pub mod Wire
mod Examples
use minuteman.Base.{
  ℕ, ◌+◌, ◌*◌, List, [], ◌∷◌, ltb, leb, if◌then◌else◌, Bool, true, false, not, ◌&&◌, Option, none,
  some,
}
use minuteman.Netip.{Addr, same_addr}

abbrev second : ℕ
second = 1_000_000_000

abbrev pub max_multicast_solicit : ℕ
max_multicast_solicit = 3

abbrev pub probe_retrans_timer : ℕ
probe_retrans_timer = second

abbrev pub active_ttl : ℕ
active_ttl = 300 * second

pub record PendingProbe : Type 0 where
  pub attempts : ℕ
  pub next_probe : ℕ
  pub solicitor : Addr

pub record ActiveEntry : Type 0 where
  pub iface : List ℕ
  pub confirmed_at : ℕ

pub record Reply : Type 0 where
  pub target : Addr
  pub solicitor : Addr
  pub iface : List ℕ

pub record Expired : Type 0 where
  pub target : Addr
  pub iface : List ℕ

abbrev pub Table {ℓ} : Type ℓ → Type ℓ
Table V = List (Addr × V)

pub lookup {ℓ} : {V : Type ℓ} → Table V → Addr → Option V
lookup [] k = none
lookup ((j, v) ∷ rest) k = if same_addr j k then some v else lookup rest k

pub remove {ℓ} : {V : Type ℓ} → Table V → Addr → Table V
remove [] k = []
remove ((j, v) ∷ rest) k =
    let later = remove rest k in if same_addr j k then later else (j, v) ∷ later

pub store {ℓ} : {V : Type ℓ} → Table V → Addr → V → Table V
unfolding remove
store t k v = (k, v) ∷ remove t k

pub record State : Type 0 where
  pub pending : Table PendingProbe
  pub active : Table ActiveEntry

pub is_fresh : ℕ → ActiveEntry → Bool
is_fresh now a = ltb now (a.confirmed_at + active_ttl)

-- Known and fresh: the reply to send at once.
answer_known : Addr → Addr → ℕ → Option ActiveEntry → Option Reply
answer_known target solicitor now none = none
answer_known target solicitor now (some a) =
    if is_fresh now a
    then some (record { target = target; solicitor = solicitor; iface = a.iface })
    else none

-- Not known: a probe starts, or the one in flight gets the new solicitor.
start_probe : State → Addr → Addr → ℕ → Option PendingProbe → Bool × State
start_probe s target solicitor now none = (
  true,
  record s {
    pending =
        store s.pending target
          (record { attempts = 1; next_probe = now + probe_retrans_timer; solicitor = solicitor });
  },
)
start_probe s target solicitor now (some p) =
    (false, record s { pending = store s.pending target (record p { solicitor = solicitor }) })

-- An answer that is known leaves the state alone.
prefer : State → Option Reply → Bool × State → Option Reply × Bool × State
prefer s (some r) probing = (some r, false, s)
prefer s none (probe, after) = (none, probe, after)

-- The reply, whether to probe, and the new state.
pub on_wan_solicit : State → ℕ → Addr → Addr → Option Reply × Bool × State
on_wan_solicit s now target solicitor =
    prefer s (answer_known target solicitor now (lookup s.active target))
      (start_probe s target solicitor now (lookup s.pending target))

confirm : State → ℕ → List ℕ → Addr → Option PendingProbe → Option Reply × State
confirm s now iface target none = (none, s)
confirm s now iface target (some p) = (
  some (record { target = target; solicitor = p.solicitor; iface = iface }),
  record {
    pending = remove s.pending target;
    active = store s.active target (record { iface = iface; confirmed_at = now });
  },
)

pub on_lan_advert : State → ℕ → List ℕ → Addr → Option Reply × State
on_lan_advert s now iface target = confirm s now iface target (lookup s.pending target)

-- One target of the first loop: kept as it is, sent again, or given up.
pub sweep_pending : ℕ → Table PendingProbe → Table PendingProbe × List Addr × List Addr
sweep_pending now [] = ([], [], [])
sweep_pending now ((target, p) ∷ rest) =
    let (kept, again, gone) = sweep_pending now rest in
    if ltb now p.next_probe
    then ((target, p) ∷ kept, again, gone)
    else if leb max_multicast_solicit p.attempts
    then (kept, again, target ∷ gone)
    else (
      (target, record p { attempts = p.attempts + 1; next_probe = now + probe_retrans_timer })
          ∷ kept,
      target ∷ again,
      gone,
    )

pub sweep_active : ℕ → Table ActiveEntry → Table ActiveEntry × List Expired
sweep_active now [] = ([], [])
sweep_active now ((target, a) ∷ rest) =
    let (kept, gone) = sweep_active now rest in
    if is_fresh now a
    then ((target, a) ∷ kept, gone)
    else (kept, record { target = target; iface = a.iface } ∷ gone)

-- The targets to probe again, those given up, the entries expired, and the new state.
pub sweep : State → ℕ → List Addr × List Addr × List Expired × State
sweep s now =
    let (pending, again, gone) = sweep_pending now s.pending in
    let (active, expired) = sweep_active now s.active in
    (again, gone, expired, record { pending = pending; active = active })
