-- ===== src/Dhcpv4/Handler.antt =====
-- pkg/dhcpv4/handler.go: the reply to a request. `handle` returns the reply, `none` for silence, and
-- the pool, which it alone changes.
pub mod Valid
pub mod Answers
pub mod Others
pub mod Elsewhere
pub mod Examples
use Prim.Native.Nat.{bit_or}
use minuteman.Base.{
  ℕ, zero, suc, ◌+◌, ◌-◌, ◌*◌, ◌/◌, ◌%◌, ◌^◌, List, [], ◌∷◌, ◌++◌, ltb, ◌==◌, not, ◌&&◌, ◌||◌,
  if◌then◌else◌, Bool, true, false, Option as Maybe, none, some,
}
use minuteman.Netip.{Addr, invalid, v4, Prefix, masked, same_addr, is_valid, is_unspecified}
use minuteman.Dhcpv4.Options.{
  DhcpOption, Options, Message, message_type, requested_ip, server_id, client_id, new_message_type,
  new_addr, new_addrs, new_seconds, new_mtu,
}
use minuteman.Dhcpv4.Opt
use minuteman.Dhcpv4.Kind
use minuteman.Dhcpv4.Pool.{Pool, ClientId, last_addr}
use minuteman.Dhcpv4.Pool.Calls.{offer, binding, commit, cancel_offer, release, decline}

abbrev boot_request : ℕ
boot_request = 1

abbrev boot_reply : ℕ
boot_reply = 2

abbrev flag_broadcast : ℕ
flag_broadcast = 0x8000

pub record InterfaceConfig : Type 0 where
  pub iface : List ℕ
  pub server_ip : Addr
  pub subnet : Prefix
  pub dns_servers : List Addr
  pub mtu : ℕ
  pub lease_time : ℕ

subnet_mask : ℕ → Addr
subnet_mask bits = if ltb 0 bits then v4 ((2 ^ 32 - 1) * 2 ^ (32 - bits) % 2 ^ 32) else v4 0

dns_option : List Addr → Options
dns_option [] = []
dns_option (a ∷ addrs) = new_addrs Opt.dns_servers (a ∷ addrs) ∷ []

mtu_option : ℕ → Options
mtu_option mtu = if mtu == 0 then [] else new_mtu mtu ∷ []

config_options : InterfaceConfig → Options
config_options cfg =
    new_addr Opt.subnet_mask (subnet_mask cfg.subnet.bits)
    ∷ new_addr Opt.router cfg.server_ip
    ∷ new_addr Opt.broadcast_addr (last_addr (masked cfg.subnet))
    ∷ (dns_option cfg.dns_servers ++ mtu_option cfg.mtu)

base_reply : Message → Message
base_reply req = record {
  op = boot_reply;
  htype = 1;
  hlen = 6;
  hops = 0;
  xid = req.xid;
  secs = 0;
  flags = req.flags;
  ciaddr = invalid;
  yiaddr = invalid;
  siaddr = invalid;
  giaddr = req.giaddr;
  chaddr = req.chaddr;
  sname = [];
  file = [];
  options = [];
}

-- `d * 7 / 8` on int64: a product that wraps below zero is sent as no time at all.
seven_eighths : ℕ → ℕ
seven_eighths d = let wrapped = d * 7 % 2 ^ 64 in if ltb wrapped (2 ^ 63) then wrapped / 8 else 0

build_reply : InterfaceConfig → Pool → Message → ℕ → Addr → Message
build_reply cfg pool req mt yip = record (base_reply req) {
  yiaddr = yip;
  options =
      new_message_type mt
      ∷ new_addr Opt.server_id cfg.server_ip
      ∷ new_seconds Opt.lease_time pool.duration
      ∷ new_seconds Opt.renewal_time (pool.duration / 2)
      ∷ new_seconds Opt.rebinding_time (seven_eighths pool.duration)
      ∷ config_options cfg;
}

pub build_inform_ack : InterfaceConfig → Message → Message
build_inform_ack cfg req = record (base_reply req) {
  ciaddr = req.ciaddr;
  options = new_message_type Kind.ack ∷ new_addr Opt.server_id cfg.server_ip ∷ config_options cfg;
}

build_nak : InterfaceConfig → Message → Message
build_nak cfg req = record (base_reply req) {
  flags = bit_or req.flags flag_broadcast;
  options = new_message_type Kind.nak ∷ new_addr Opt.server_id cfg.server_ip ∷ [];
}

-- The end of both branches of `handleRequest`: a NAK of an address that is not the bound one, else
-- a commit and an ACK.
settle : InterfaceConfig → Pool → Message → ClientId → ℕ → Addr → Addr → Maybe Message × Pool
settle cfg pool req client now target bound =
    if same_addr bound target
    then (
      some (build_reply cfg (commit pool client target now) req Kind.ack target),
      commit pool client target now,
    )
    else (some (build_nak cfg req), pool)

-- SELECTING: the request names a server.
selecting : InterfaceConfig → Pool → Message → ClientId → ℕ → Addr → Maybe Message × Pool
selecting cfg pool req client now sid =
    if same_addr sid cfg.server_ip
    then elim (requested_ip req.options) [
      | none ↦ (none, pool)
      | some target ↦ elim (binding pool client now) [
        | none ↦ (some (build_nak cfg req), pool)
        | some bound ↦ settle cfg pool req client now target bound
      ]
    ]
    else (none, cancel_offer pool client)

-- The address in question: the requested one, or `ciaddr`.
request_target : Message → Addr
request_target req = elim (requested_ip req.options) [ none ↦ req.ciaddr | some a ↦ a ]

-- INIT-REBOOT, RENEWING and REBINDING: the request names no server.
renewing : InterfaceConfig → Pool → Message → ClientId → ℕ → Maybe Message × Pool
renewing cfg pool req client now =
    let target = request_target req in
    if not (is_valid target) || is_unspecified target
    then (none, pool)
    else elim (binding pool client now) [
      | none ↦ (none, pool)
      | some bound ↦ settle cfg pool req client now target bound
    ]

pub handle_request : InterfaceConfig → Pool → Message → ClientId → ℕ → Maybe Message × Pool
handle_request cfg pool req client now = elim (server_id req.options) [
  | none ↦ renewing cfg pool req client now
  | some sid ↦ selecting cfg pool req client now sid
]

or_invalid : Maybe Addr → Addr
or_invalid none = invalid
or_invalid (some a) = a

handle_discover : InterfaceConfig → Pool → Message → ClientId → ℕ → Maybe Message × Pool
handle_discover cfg pool req client now =
    let (found, after) = offer pool client (or_invalid (requested_ip req.options)) now in
    elim found [
      | none ↦ (none, after)
      | some ip ↦ (some (build_reply cfg after req Kind.offer ip), after)
    ]

-- A release that names no server is taken, too.
handle_release : InterfaceConfig → Pool → Message → ClientId → Pool
handle_release cfg pool req client = elim (server_id req.options) [
  | none ↦ release pool client req.ciaddr
  | some sid ↦ if same_addr sid cfg.server_ip then release pool client req.ciaddr else pool
]

decline_named : Pool → Message → ClientId → ℕ → Pool
decline_named pool req client now = elim (requested_ip req.options) [
  | none ↦ pool
  | some declined ↦ decline pool client declined now
]

handle_decline : InterfaceConfig → Pool → Message → ClientId → ℕ → Pool
handle_decline cfg pool req client now = elim (server_id req.options) [
  | none ↦ pool
  | some sid ↦ if same_addr sid cfg.server_ip then decline_named pool req client now else pool
]

-- The switch on the message type.
dispatch : InterfaceConfig → Pool → Message → ClientId → ℕ → ℕ → Maybe Message × Pool
dispatch cfg pool req client now mt =
    if mt == Kind.discover
    then handle_discover cfg pool req client now
    else if mt == Kind.request
    then handle_request cfg pool req client now
    else if mt == Kind.release
    then (none, handle_release cfg pool req client)
    else if mt == Kind.decline
    then (none, handle_decline cfg pool req client now)
    else if mt == Kind.inform
    then (some (build_inform_ack cfg req), pool)
    else (none, pool)

-- Whether the message is for this server to look at: a request that no relay has forwarded.
pub addressed : Message → Bool
addressed req =
    req.op == boot_request && not (is_valid req.giaddr && not (is_unspecified req.giaddr))

pub handle : InterfaceConfig → Pool → Message → ℕ → Maybe Message × Pool
handle cfg pool req now =
    if addressed req
    then elim (message_type req.options) [
      | none ↦ (none, pool)
      | some mt ↦ dispatch cfg pool req (client_id req.options req.chaddr) now mt
    ]
    else (none, pool)
