-- ===== src/PrefixDelegation/Exchanges.antt =====
-- pkg/prefixdelegation/acquire.go and renew.go: the calls that run exchanges. What runs them is a
-- parameter with a state of its own; an exchange may be given a deadline.
pub mod Acquired
pub mod Examples
use minuteman.Base.{
  ℕ, zero, suc, List, [], ◌∷◌, Bool, true, false, if◌then◌else◌, Option, none, some,
}
use minuteman.Dhcpv6.Options.{DhcpOption, Options}
use minuteman.Dhcpv6.Message.{Message, Exchange, new_oro, option_dns_servers, option_server_id}
use minuteman.Dhcpv6.Retransmit.{solicit, request, renew, rebind, release}
use minuteman.PrefixDelegation.{Iapd}
use minuteman.PrefixDelegation.Options.{new_iapd_option, iapd_option}
use minuteman.PrefixDelegation.Lease.{
  Refusal, Outcome, accepted, refused, out_of_fuel, Lease, usable_iapd, new_lease, client_iaid,
  lease_option, rebind_at, expires_at, usable_dns, lease_from_reply,
}

-- What an exchange returns. `over` is the context's error.
pub data Response : Type 0 where
  message : Message → Response
  exhausted over : Response

-- An Exchanger with the context and the clock: whether the context is done, and the time.
pub record Exchanger : Type 1 where
  pub State : Type 0
  pub exchange : State → Option ℕ → Exchange → Response × State
  pub is_done : State → Bool
  pub now : State → ℕ

pub data Failure : Type 0 where
  exhausted over stuck : Failure
  unusable : Refusal → Failure

pub data Result {ℓ} (A : Type ℓ) : Type ℓ where
  ok : A → Result A
  err : Failure → Result A

requested_options : DhcpOption
requested_options = new_oro (option_dns_servers ∷ [])

server_id_option : List ℕ → DhcpOption
server_id_option sid = record { code = option_server_id; payload = sid }

-- What a round of `Acquire` comes to. `parse_fails` is no Go value.
pub data Round : Type 0 where
  settled : Result Lease → Round
  again : Round

module _ (e : Exchanger) where
  -- `continue`, or the context's error.
  retry : e.State → Round
  retry s = if e.is_done s then settled (err Failure.over) else again

  -- The Reply, to the Request for what a server offered.
  grant : List ℕ → Response × e.State → Round × e.State
  unfolding retry
  grant sid (message reply, s) = elim (usable_iapd reply) [
    | accepted (granted, _) ↦
        (settled (ok (new_lease sid granted (usable_dns reply.options) (e.now s))), s)
    | refused r ↦ (retry s, s)
    | out_of_fuel ↦ (settled (err stuck), s)
  ]
  grant sid (exhausted, s) = (retry s, s)
  grant sid (over, s) = (retry s, s)

  unfoldable pub request_of : List ℕ → Iapd → Exchange
  unfolding server_id_option requested_options
  request_of sid offered =
      request (server_id_option sid ∷ iapd_option offered ∷ requested_options ∷ [])

  -- The Advertise.
  offer : Response × e.State → Round × e.State
  unfolding retry
  offer (message advertise, s) = elim (usable_iapd advertise) [
    | accepted (offered, sid) ↦ grant sid (e.exchange s none (request_of sid offered))
    | refused r ↦ (retry s, s)
    | out_of_fuel ↦ (settled (err stuck), s)
  ]
  offer (exhausted, s) = (settled (err Failure.exhausted), s)
  offer (over, s) = (settled (err Failure.over), s)

  pub acquire_round : e.State → Round × e.State
  unfolding requested_options
  acquire_round s =
      offer (e.exchange s none (solicit (new_iapd_option client_iaid ∷ requested_options ∷ [])))

  -- `Acquire` for a number of rounds; `none` when it still tries then.
  pub acquire : ℕ → e.State → Option (Result Lease) × e.State
  acquire zero s = (none, s)
  acquire (suc rounds) s =
      let (round, s') = acquire_round s in
      elim round [ settled r ↦ (some r, s') | again ↦ acquire rounds s' ]

  renewed : Option (List ℕ) → Response × e.State → Result Lease × e.State
  renewed sid (message reply, s) = elim (lease_from_reply sid reply (e.now s)) [
    | accepted l ↦ (ok l, s)
    | refused r ↦ (err (unusable r), s)
    | out_of_fuel ↦ (err stuck, s)
  ]
  renewed sid (exhausted, s) = (err Failure.exhausted, s)
  renewed sid (over, s) = (err Failure.over, s)

  pub renew_lease : Lease → e.State → Result Lease × e.State
  unfolding renewed server_id_option requested_options
  renew_lease l s = renewed (some l.server_id) (
      e.exchange s (some (rebind_at l))
        (renew (server_id_option l.server_id ∷ lease_option l ∷ requested_options ∷ [])))

  pub rebind_lease : Lease → e.State → Result Lease × e.State
  unfolding renewed requested_options
  rebind_lease l s =
      renewed none
        (e.exchange s (some (expires_at l)) (rebind (lease_option l ∷ requested_options ∷ [])))

  -- Nobody's answer is as good as one.
  acknowledged : Response × e.State → Result (Unit {0}) × e.State
  acknowledged (message reply, s) = (ok tt, s)
  acknowledged (exhausted, s) = (ok tt, s)
  acknowledged (over, s) = (err Failure.over, s)

  pub release_lease : Lease → e.State → Result (Unit {0}) × e.State
  unfolding acknowledged server_id_option
  release_lease l s =
      acknowledged
        (e.exchange s none (release (server_id_option l.server_id ∷ lease_option l ∷ [])))
