-- ===== src/Dhcpv4/Pool/Decline.antt =====
-- pkg/dhcpv4/lease.go: declined addresses, and leases restored from an earlier run.
use minuteman.Base.{ℕ, ◌+◌, ◌<◌, true, some, ◌≡◌, arith, ◌≢◌}
use minuteman.Netip.{Addr, addr_key, bytes_key}
use minuteman.Dhcpv4.Pool.{Pool, ClientId, clear, decline_quarantine}
use minuteman.Dhcpv4.Pool.Calls.{offer, decline}
use minuteman.Dhcpv4.Pool.Frames.{open_to, quarantined}
use minuteman.Dhcpv4.Pool.Offers.{refuses, grants, offer-Offers}
use minuteman.Dhcpv4.Pool.Valid.{IsValid, decline-IsValid}

quarantined-decline :
    (p : Pool) (c : ClientId) (a : Addr) (now t : ℕ)
    → p.by_ip a ≡ some c
    → t < now + decline_quarantine
    → quarantined (decline p c a now) a t ≡ true
unfolding quarantined decline clear
quarantined-decline p c a now t e h = ground arith

-- An address of a well-formed pool that its holder declines is offered to nobody for the time of
-- the quarantine.
pub offer-decline :
    (p : Pool) (c d : ClientId) (a requested : Addr) (now t : ℕ)
    → IsValid p
    → p.by_ip a ≡ some c
    → t < now + decline_quarantine
    → (offer (decline p c a now) d requested t).0 ≢ some a
offer-decline p c d a requested now t v e h =
    elim (offer-Offers (decline p c a now) w.serving w.paired d requested t) [
      | refuses f r shut ↦ λ k. cc
      | grants q b state f r fits ↦
          λ k. unfold open_to in ground (arith, quarantined-decline p c a now t e h)
    ]
  where
    w : IsValid (decline p c a now)
    w = decline-IsValid p c a now v

-- A decline of an address that the client does not hold changes nothing.
pub decline_stranger :
    (p : Pool) (c : ClientId) (a : Addr) (now : ℕ) → p.by_ip a ≢ some c → decline p c a now ≡ p
unfolding decline
decline_stranger p c a now h = ground arith
