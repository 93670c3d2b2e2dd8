-- ===== src/Ndppd.antt =====
-- internal/ndppd/proxy.go and routes.go: the process around the proxy's state, as a pure step to the
-- state and the effects, and the host routes that its casts ask for. Sockets are numbers.
pub mod Casts
pub mod InStep
mod Examples
use minuteman.Base.{
  ℕ, List, [], ◌∷◌, ◌++◌, ◌==◌, if◌then◌else◌, Bool, true, false, Option, none, some, ite,
}
use minuteman.Base.Maps.{Map, insert, delete}
use minuteman.Netip.{Addr, addr_key, bytes_discrete}
use minuteman.NdProxy.{
  State, Reply, Expired, on_wan_solicit, on_lan_advert, sweep, probe_retrans_timer,
}
use minuteman.NdProxy.Wire.{
  solicitation, advertisement, parse_advertisement, parse_solicitation_packet,
}

pub record Lan : Type 0 where
  pub name : List ℕ
  pub index : ℕ
  pub mac : List ℕ
  pub sock : ℕ

-- The source's `proxy`, its clock apart.
pub record Proxy : Type 0 where
  pub wan_rx : ℕ
  pub wan_tx : ℕ
  pub wan_index : ℕ
  pub wan_mac : List ℕ
  pub lans : List Lan

pub data Message : Type 0 where
  received : ℕ → List ℕ → Message
  swept : Message
  send_failed read_failed socket_closed other : Message

-- `send` is of a socket, an address with the interface's index for its zone, and the bytes.
pub data Effect : Type 0 where
  send : ℕ → Addr → ℕ → List ℕ → Effect
  arm : ℕ → Effect
  install : Addr → List ℕ → Effect
  remove : Addr → List ℕ → Effect
  next_sweep : ℕ → Effect
  stop : Effect

abbrev pub new_state : State
new_state = record { pending = []; active = [] }

pub init : State × List Effect
init = (new_state, next_sweep probe_retrans_timer ∷ [])

module _ (p : Proxy) where
  -- The Advertisement on the WAN.
  pub advertise : Reply → Effect
  advertise r =
      let (msg, dst) = advertisement r.target r.solicitor p.wan_mac in
      send p.wan_tx dst p.wan_index msg

  pub advertise_all : Option Reply → List Effect
  unfolding advertise
  advertise_all none = []
  advertise_all (some r) = advertise r ∷ []

  -- A Solicitation out every LAN.
  pub probe_from : List Lan → Addr → List Effect
  probe_from [] target = []
  probe_from (l ∷ ls) target =
      let (msg, dst) = solicitation target l.mac in
      send l.sock dst l.index msg ∷ probe_from ls target

  pub probe : Addr → List Effect
  unfolding probe_from
  probe target = probe_from p.lans target

  pub probe_each : List Addr → List Effect
  unfolding probe
  probe_each [] = []
  probe_each (t ∷ ts) = probe t ++ probe_each ts

  pub remove_each : List Expired → List Effect
  remove_each [] = []
  remove_each (e ∷ es) = remove e.target e.iface ∷ remove_each es

  pub solicited : State → ℕ → List ℕ → State × List Effect
  unfolding advertise_all probe
  solicited st now packet = elim (parse_solicitation_packet packet) [
    | none ↦ (st, [])
    | some (target, source) ↦
        let (reply, probing, st') = on_wan_solicit st now target source in
        (st', advertise_all reply ++ (if probing then probe target else []))
  ]

  -- An answer to no probe changes nothing.
  pub confirmed : State → Option Reply × State → State × List Effect
  unfolding advertise
  confirmed st (none, st') = (st, [])
  confirmed st (some r, st') = (st', advertise r ∷ install r.target r.iface ∷ [])

  pub advertised : State → ℕ → Lan → List ℕ → State × List Effect
  unfolding confirmed
  advertised st now l msg = elim (parse_advertisement msg) [
    | none ↦ (st, [])
    | some target ↦ confirmed st (on_lan_advert st now l.name target)
  ]

  pub sweep_now : State → ℕ → State × List Effect
  unfolding probe_each remove_each
  sweep_now st now =
      let (again, gone, expired, st') = sweep st now in
      (st', probe_each again ++ (remove_each expired ++ next_sweep probe_retrans_timer ∷ []))

  pub armed : ℕ → State × List Effect → State × List Effect
  armed sock (st, effs) = (st, effs ++ arm sock ∷ [])

  -- The first LAN whose socket it is.
  pub from_lan : State → ℕ → ℕ → List ℕ → List Lan → State × List Effect
  unfolding armed advertised
  from_lan st now sock b [] = (st, [])
  from_lan st now sock b (l ∷ ls) =
      if sock == l.sock then armed l.sock (advertised st now l b) else from_lan st now sock b ls

  pub handle_info : State → ℕ → Message → State × List Effect
  unfolding from_lan solicited armed sweep_now
  handle_info st now (received sock b) =
      if sock == p.wan_rx
      then armed p.wan_rx (solicited st now b)
      else from_lan st now sock b p.lans
  handle_info st now swept = sweep_now st now
  handle_info st now send_failed = (st, [])
  handle_info st now read_failed = (st, stop ∷ [])
  handle_info st now socket_closed = (st, stop ∷ [])
  handle_info st now other = (st, [])

-- The host routes, one for a host at most: an installation replaces the host's route, and a removal is
-- of the route out that interface.
abbrev pub HostRoutes : Type 0
HostRoutes = Map Addr (List ℕ)

drop_route : Addr → List ℕ → HostRoutes → Option (List ℕ) → HostRoutes
drop_route target iface routes none = routes
drop_route target iface routes (some i) =
    if ite (bytes_discrete i iface) true false then delete target routes else routes

pub handle_cast : HostRoutes → Effect → HostRoutes
unfolding drop_route
handle_cast routes (install target iface) = insert target iface routes
handle_cast routes (remove target iface) = drop_route target iface routes (routes target)
handle_cast routes e = routes

pub handle_casts : HostRoutes → List Effect → HostRoutes
unfolding handle_cast
handle_casts routes [] = routes
handle_casts routes (e ∷ es) = handle_casts (handle_cast routes e) es
