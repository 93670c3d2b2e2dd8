-- ===== src/Dhcpv4Server.antt =====
-- internal/dhcpv4server/server.go: the server of one LAN interface, as a pure step from a pool to a
-- pool and the effects. The kvs table of its leases is a parameter.
pub mod Tables
pub mod Kept
pub mod Waits
mod Examples
use minuteman.Base.{
  ℕ, ◌-◌, ◌%◌, ◌^◌, List, [], ◌∷◌, ◌++◌, length, take, replicate, ltb, ◌==◌, not, ◌&&◌,
  if◌then◌else◌, Bool, true, false, Option as Maybe, none, some,
}
use minuteman.Netip.{Addr, same_addr}
use minuteman.Dhcpv4.Options.{client_id}
use minuteman.Dhcpv4.Options.{Message as DhcpMessage}
use minuteman.Dhcpv4.Pool.{Pool, Lease, ClientId}
use minuteman.Dhcpv4.Pool.Calls.{committed_lease}
use minuteman.Dhcpv4.Handler.{InterfaceConfig, handle}
use minuteman.Dhcpv4.Packet.{parse_request, frame}

-- The link-layer address in 8 bytes, with its length.
pub record Sockaddr : Type 0 where
  pub halen : ℕ
  pub addr : List ℕ

-- A reply that is framed, and where it goes.
pub record Held : Type 0 where
  pub to : Sockaddr
  pub packet : List ℕ

-- `keeps` is whether there is a table of leases.
pub record Server : Type 0 where
  pub cfg : InterfaceConfig
  pub keeps : Bool

-- `durable` is of a put with a reply that waits for it, whether the put failed or not.
pub data Message : Type 0 where
  received : List ℕ → Message
  durable : Bool → Held → Message
  expire_due send_failed read_failed socket_closed other : Message

pub data Effect : Type 0 where
  set_active next_expire stop : Effect
  send send_active : Held → Effect
  put : ClientId → Lease → Maybe Held → Effect
  delete : ClientId → Effect
  expire : ℕ → Effect

-- What a request has changed of its client's committed lease.
pub data Change : Type 0 where
  unchanged removed : Change
  changed : Lease → Change

pub same_lease : Lease → Lease → Bool
same_lease a b = same_addr a.ip b.ip && (a.expiry == b.expiry)

pub change : Maybe Lease → Maybe Lease → Change
unfolding same_lease
change none none = unchanged
change none (some is) = changed is
change (some was) none = removed
change (some was) (some is) = if same_lease is was then unchanged else changed is

pub is_empty : ClientId → Bool
is_empty [] = true
is_empty (b ∷ bs) = false

pub to_mac : List ℕ → Sockaddr
to_mac mac = record {
  halen = length mac % 2 ^ 8;
  addr = take 8 mac ++ replicate (8 - length mac) 0;
}

module _ (s : Server) where
  pub init : Pool → Pool × List Effect
  init pool = (pool, if s.keeps then next_expire ∷ [] else [])

  pub keep : Pool → Pool → ClientId → ℕ → Change
  unfolding change
  keep pool next id now =
      if not s.keeps
      then unchanged
      else if is_empty id
      then unchanged
      else change (committed_lease pool id now) (committed_lease next id now)

  pub framed : Maybe DhcpMessage → Maybe Held
  unfolding to_mac
  framed none = none
  framed (some reply) =
      let (packet, mac) = frame s.cfg.server_ip reply in
      some (record { to = to_mac mac; packet = packet })

  pub answer : Pool → ℕ → List ℕ → Pool × Maybe Held × ClientId
  unfolding framed
  answer pool now packet = elim (parse_request packet) [
    | none ↦ (pool, none, [])
    | some req ↦
        let (reply, next) = handle s.cfg pool req now in
        (next, framed reply, client_id req.options req.chaddr)
  ]

  pub reply : Maybe Held → List Effect
  reply none = set_active ∷ []
  reply (some held) = send_active held ∷ []

  -- A reply that grants a lease waits until the lease is on disk.
  pub respond : Change → ClientId → Maybe Held → List Effect
  unfolding reply
  respond (changed l) id (some held) = set_active ∷ put id l (some held) ∷ []
  respond (changed l) id none = put id l none ∷ reply none
  respond removed id held = delete id ∷ reply held
  respond unchanged id held = reply held

  pub requested : Pool → ℕ → List ℕ → Pool × List Effect
  unfolding answer respond
  requested pool now packet =
      let (next, held, id) = answer pool now packet in
      (next, respond (keep pool next id now) id held)

  pub handle_info : Pool → ℕ → Message → Pool × List Effect
  unfolding requested
  handle_info pool now (received packet) = requested pool now packet
  handle_info pool now (durable failed held) = (pool, send held ∷ [])
  handle_info pool now expire_due = (pool, expire now ∷ next_expire ∷ [])
  handle_info pool now read_failed = (pool, stop ∷ [])
  handle_info pool now socket_closed = (pool, stop ∷ [])
  handle_info pool now m = (pool, [])
