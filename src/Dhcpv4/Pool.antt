-- ===== src/Dhcpv4/Pool.antt =====
-- pkg/dhcpv4/lease.go: the address pool of one LAN. Instants and durations are natural numbers of
-- nanoseconds, client identifiers are byte strings, and Go maps are functions into Option.
pub mod Calls
pub mod Invariant
pub mod Frames
pub mod Scan
pub mod Offers
pub mod Valid
pub mod Promises
pub mod Spares
pub mod Lasting
pub mod Restore
pub mod Decline
pub mod Start
pub mod Examples
use Prim.Native.Nat.{bit_or}
use minuteman.Base.{
  ℕ, zero, suc, ◌+◌, ◌-◌, ◌*◌, ◌^◌, ite, Bool, true, false, not, ◌&&◌, ◌||◌, Option, none, some,
  List, ltb, if◌then◌else◌,
}
use minuteman.Base.Maps.{Map, empty, insert, delete}
use minuteman.Netip.{
  Addr, v4, Prefix, addr_key, bytes_key, bytes_discrete, same_addr, is_4, is_valid, contains,
  masked, next, number,
}

-- time.Second, in nanoseconds.
abbrev pub second : ℕ
second = 1_000_000_000

abbrev pub offer_hold_time : ℕ
offer_hold_time = 60 * second

abbrev pub decline_quarantine : ℕ
decline_quarantine = 3600 * second

pub data BindingState : Type 0 where
  offered committed : BindingState

-- The unexported `lease`.
pub record Hold : Type 0 where
  pub ip : Addr
  pub expiry : ℕ
  pub state : BindingState

-- The exported `Lease`, which a caller keeps across restarts.
pub record Lease : Type 0 where
  pub ip : Addr
  pub expiry : ℕ

abbrev pub ClientId : Type 0
ClientId = List ℕ

pub record Pool : Type 0 where
  pub subnet : Prefix
  pub server_ip : Addr
  pub network : Addr
  pub broadcast : Addr
  pub duration : ℕ
  pub by_client : Map ClientId Hold
  pub by_ip : Map Addr ClientId
  pub declined : Map Addr ℕ

-- The last address of an IPv4 prefix: the network address with every host bit set.
pub last_addr : Prefix → Addr
last_addr p = v4 (bit_or (number p.addr) (2 ^ (32 - p.bits) - 1))

pub data Error : Type 0 where
  not_ipv4 no_host_range server_outside : Error

pub data Result {ℓ} (A : Type ℓ) : Type ℓ where
  ok : A → Result A
  err : Error → Result A

pub new_pool : Prefix → Addr → ℕ → Result Pool
new_pool s server_ip duration =
    let subnet = masked s in
    if not (is_4 subnet.addr)
    then err not_ipv4
    else if ltb subnet.bits 1 || ltb 30 subnet.bits
    then err no_host_range
    else if not (is_4 server_ip) || not (contains subnet server_ip)
    then err server_outside
    else ok (record {
      subnet = subnet;
      server_ip = server_ip;
      network = subnet.addr;
      broadcast = last_addr subnet;
      duration = duration;
      by_client = empty;
      by_ip = empty;
      declined = empty;
    })

pub expired : Hold → ℕ → Bool
expired l now = not (ltb now l.expiry)

-- Removes the client's lease and its reverse index, if any.
pub clear : Pool → ClientId → Pool
clear p client = elim (p.by_client client) [
  | none ↦ p
  | some l ↦ record p { by_ip = delete l.ip p.by_ip; by_client = delete client p.by_client }
]

-- Drops whoever else holds `ip`.
pub evict : Pool → Addr → Pool
evict p ip = elim (p.by_ip ip) [
  | none ↦ p
  | some prev ↦ record p { by_client = delete prev p.by_client }
]

pub hold_time : Pool → BindingState → ℕ
hold_time p offered = offer_hold_time
hold_time p committed = p.duration

pub enter : Pool → ClientId → Hold → Pool
enter p client l = record p {
  by_client = insert client l p.by_client;
  by_ip = insert l.ip client p.by_ip;
}

-- The address that `hold` returns is its argument.
pub hold : Pool → ClientId → Addr → ℕ → BindingState → Pool
hold p client ip now state =
    enter (evict (clear p client) ip) client
      (record { ip = ip; expiry = now + hold_time p state; state = state })

-- An address of the subnet's host range, not the server's own.
pub in_range : Pool → Addr → Bool
in_range p ip =
    is_4 ip
    && contains p.subnet ip
    && not (same_addr ip p.network)
    && not (same_addr ip p.broadcast)
    && not (same_addr ip p.server_ip)

-- The test, and the pool without the quarantine that has elapsed.
pub allocatable : Pool → Addr → ℕ → Bool × Pool
allocatable p ip now = elim (p.declined ip) [
  | none ↦ (in_range p ip, p)
  | some until ↦
      if ltb now until
      then (false, p)
      else (in_range p ip, record p { declined = delete ip p.declined })
]

pub expired_hold : Option Hold → ℕ → Bool
unfolding expired
expired_hold (some l) now = expired l now
-- Go's zero lease, whose expiry is the zero time.
expired_hold none now = true

pub is_free : Pool → Addr → ClientId → ℕ → Bool
unfolding expired_hold
is_free p ip client now = elim (p.by_ip ip) [
  | none ↦ true
  | some owner ↦ ite (bytes_discrete owner client) true (expired_hold (p.by_client owner) now)
]

-- `allocatable` and then, if it holds, `isFree`.
pub eligible : Pool → Addr → ClientId → ℕ → Bool × Pool
eligible p ip client now =
    let (fits, q) = allocatable p ip now in (fits && is_free q ip client now, q)

-- The loop of `nextFree`, on fuel: `none` when it has left the subnet.
pub free_from : ℕ → Pool → Addr → ClientId → ℕ → Option Addr × Pool
free_from zero p ip client now = (none, p)
free_from (suc fuel) p ip client now =
    let (fits, q) = eligible p ip client now in
    let rest = free_from fuel q (next ip) client now in
    if is_valid ip && contains p.subnet ip then if fits then (some ip, q) else rest else (none, p)

-- The subnet has 2 ^ (32 - bits) addresses.
pub next_free : Pool → ClientId → ℕ → Option Addr × Pool
next_free p client now = free_from (2 ^ (32 - p.subnet.bits)) p (next p.network) client now
