-- ===== src/Dhcpv4/Pool/Invariant.antt =====
-- pkg/dhcpv4/lease.go: the two maps of a pool stay inverse to each other.
use minuteman.Base.{ℕ, Option, none, some, ◌≡◌, arith, inl, inr, Option-cases}
use minuteman.Netip.{Addr}
use minuteman.Dhcpv4.Pool.{Pool, Hold, ClientId, BindingState, hold, clear, enter, evict}

abbrev pub address : Option Hold → Option Addr
address none = none
address (some l) = some l.ip

-- A client's lease is the owner's of its address, and the owner of an address holds it.
pub record IsPaired (p : Pool) : Type 0 where
  pub owned : (c : ClientId) (a : Addr) → address (p.by_client c) ≡ some a → p.by_ip a ≡ some c
  pub held : (c : ClientId) (a : Addr) → p.by_ip a ≡ some c → address (p.by_client c) ≡ some a

pub clear-IsPaired : (p : Pool) (client : ClientId) → IsPaired p → IsPaired (clear p client)
unfolding clear
clear-IsPaired p client v = elim (Option-cases (p.by_client client)) [
  | inl e ↦ rw (e, clear) v
  | inr (x, e) ↦ record {
    owned = λ c a h. ground (arith, e, v.owned c a, v.owned client x.ip);
    held = λ c a h. ground (arith, e, v.held c a, v.held client a);
  }
]

enter-evict-IsPaired :
    (p : Pool) (client : ClientId) (l : Hold)
    → p.by_client client ≡ none
    → IsPaired p
    → IsPaired (enter (evict p l.ip) client l)
unfolding enter evict
enter-evict-IsPaired p client l fresh v = elim (Option-cases (p.by_ip l.ip)) [
  | inl e ↦ record {
    owned = λ c a h. ground (arith, e, v.owned c a, v.owned c l.ip);
    held = λ c a h. ground (arith, e, v.held c a, v.held client a);
  }
  | inr (prev, e) ↦ record {
    owned = λ c a h. ground (arith, e, v.owned c a, v.owned c l.ip);
    held = λ c a h. ground (arith, e, v.held c a, v.held client a, v.held prev l.ip);
  }
]

clear-none : (p : Pool) (client : ClientId) → (clear p client).by_client client ≡ none
unfolding clear
clear-none p client = ground arith

pub hold-IsPaired :
    (p : Pool) (client : ClientId) (ip : Addr) (now : ℕ) (state : BindingState)
    → IsPaired p
    → IsPaired (hold p client ip now state)
unfolding hold
hold-IsPaired p client ip now state v =
    enter-evict-IsPaired (clear p client) client _ (clear-none p client) (clear-IsPaired p client v)
