-- ===== src/Dhcpv4/Pool/Calls.antt =====
-- pkg/dhcpv4/lease.go: the exported methods of Pool. A method that mutates its pool returns the
-- new pool beside its result.
use minuteman.Base.{
  ℕ, ◌+◌, Bool, true, false, Option, none, some, ite, if◌then◌else◌, ltb, List, [], ◌∷◌,
}
use minuteman.Base.Maps.{insert}
use minuteman.Netip.{Addr, addr_key, bytes_key, bytes_discrete}
use minuteman.Dhcpv4.Pool.{
  Pool, Hold, Lease, ClientId, BindingState, offered, committed, decline_quarantine, hold, clear,
  enter, expired, allocatable, eligible, next_free,
}

unfoldable pub offer_lowest : Pool → ClientId → ℕ → Option Addr × Pool
offer_lowest p client now =
    let (found, q) = next_free p client now in
    elim found [ none ↦ (none, q) | some ip ↦ (some ip, hold q client ip now offered) ]

unfoldable pub offer_requested : Pool → ClientId → Addr → ℕ → Option Addr × Pool
offer_requested p client requested now =
    let (fits, q) = eligible p requested client now in
    if fits
    then (some requested, hold q client requested now offered)
    else offer_lowest q client now

-- Keeps a lease that is still good, in the state that it has.
unfoldable pub offer_held : Pool → ClientId → Hold → Addr → ℕ → Option Addr × Pool
offer_held p client l requested now =
    let (fits, q) = allocatable p l.ip now in
    if fits
    then (some l.ip, hold q client l.ip now l.state)
    else offer_requested q client requested now

unfoldable pub offer : Pool → ClientId → Addr → ℕ → Option Addr × Pool
offer p client requested now = elim (p.by_client client) [
  | none ↦ offer_requested p client requested now
  | some l ↦
      if expired l now
      then offer_requested p client requested now
      else offer_held p client l requested now
]

unfoldable pub binding : Pool → ClientId → ℕ → Option Addr
binding p client now = elim (p.by_client client) [
  | none ↦ none
  | some l ↦ if expired l now then none else some l.ip
]

unfoldable pub commit : Pool → ClientId → Addr → ℕ → Pool
commit p client ip now = hold p client ip now committed

unfoldable pub clear_offer : Pool → ClientId → BindingState → Pool
clear_offer p client offered = clear p client
clear_offer p client committed = p

unfoldable pub cancel_offer : Pool → ClientId → Pool
cancel_offer p client = elim (p.by_client client) [
  | none ↦ p
  | some l ↦ clear_offer p client l.state
]

unfoldable pub release : Pool → ClientId → Addr → Pool
release p client ip = elim (p.by_ip ip) [
  | none ↦ p
  | some owner ↦ ite (bytes_discrete owner client) (clear p client) p
]

unfoldable pub decline : Pool → ClientId → Addr → ℕ → Pool
decline p client ip now = elim (p.by_ip ip) [
  | none ↦ p
  | some owner ↦
      ite (bytes_discrete owner client)
        (clear (record p { declined = insert ip (now + decline_quarantine) p.declined }) client) p
]

unfoldable pub kept : Hold → BindingState → Option Lease
kept l offered = none
kept l committed = some (record { ip = l.ip; expiry = l.expiry })

-- `Committed`: the client's committed lease, as a caller keeps it.
unfoldable pub committed_lease : Pool → ClientId → ℕ → Option Lease
committed_lease p client now = elim (p.by_client client) [
  | none ↦ none
  | some l ↦ if expired l now then none else kept l l.state
]

-- Whether the lease was taken, and the pool: the three tests are made in turn.
unfoldable pub restore : Pool → ClientId → Lease → ℕ → Bool × Pool
restore p client l now =
    let (fits, q) = eligible p l.ip client now in
    if ltb now l.expiry
    then if fits
      then (
        true,
        enter (clear q client) client (record { ip = l.ip; expiry = l.expiry; state = committed }),
      )
      else (false, q)
    else (false, p)

-- A server's calls of its pool, in the order in which they are made. `restores` is made of a lease
-- of an earlier run.
pub data Call : Type 0 where
  offers : ClientId → Addr → ℕ → Call
  commits : ClientId → Addr → ℕ → Call
  cancels : ClientId → Call
  releases : ClientId → Addr → Call
  declines : ClientId → Addr → ℕ → Call

unfoldable pub call : Pool → Call → Pool
call p (offers client requested now) = (offer p client requested now).1
call p (commits client ip now) = commit p client ip now
call p (cancels client) = cancel_offer p client
call p (releases client ip) = release p client ip
call p (declines client ip now) = decline p client ip now

unfoldable pub run : Pool → List Call → Pool
run p [] = p
run p (c ∷ cs) = run (call p c) cs
