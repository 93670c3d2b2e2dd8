-- ===== src/Dhcpv4/Pool/Valid.antt =====
-- pkg/dhcpv4/lease.go: every method keeps a pool well formed, and `NewPool` makes it so.
use minuteman.Base.{ℕ, ◌+◌, ◌≡◌, refl, arith, List, [], ◌∷◌}
use minuteman.Base.Maps.{Map, insert}
use minuteman.Netip.{Addr, addr_key, bytes_key}
use minuteman.Dhcpv4.Pool.{
  Pool, ClientId, BindingState, committed, hold, clear, evict, enter, decline_quarantine,
}
use minuteman.Dhcpv4.Pool.Calls.{
  offer, commit, cancel_offer, clear_offer, release, decline, Call, offers, commits, cancels,
  releases, declines, call, run,
}
use minuteman.Dhcpv4.Pool.Invariant.{IsPaired, hold-IsPaired, clear-IsPaired}
use minuteman.Dhcpv4.Pool.Frames.{Frame, Frame-IsPaired}
use minuteman.Dhcpv4.Pool.Scan.{IsServing}
use minuteman.Dhcpv4.Pool.Offers.{refuses, grants, offer-Offers, IsServing-Frame}

-- The subnet is one that `NewPool` accepts, and the two maps are inverse to each other.
pub record IsValid (p : Pool) : Type 0 where
  pub serving : IsServing p
  pub paired : IsPaired p

pub same-IsServing :
    {p q : Pool}
    → q.subnet ≡ p.subnet
    → q.network ≡ p.network
    → q.broadcast ≡ p.broadcast
    → IsServing p
    → IsServing q
same-IsServing {p} {q} e f g s = record {
  block = s.block;
  at = ground (arith, s.at);
  first = ground (arith, s.first);
  last = ground (arith, s.last);
  fits = ground (arith, s.fits);
  room = ground (arith, s.room);
}

pub hold-IsValid :
    (p : Pool) (c : ClientId) (a : Addr) (now : ℕ) (state : BindingState)
    → IsValid p
    → IsValid (hold p c a now state)
hold-IsValid p c a now state v = record {
  serving = same-IsServing subnet_same network_same broadcast_same v.serving;
  paired = hold-IsPaired p c a now state v.paired;
}
  where
    subnet_same : (hold p c a now state).subnet ≡ p.subnet
    subnet_same = unfold hold enter evict clear in ground arith

    broadcast_same : (hold p c a now state).broadcast ≡ p.broadcast
    broadcast_same = unfold hold enter evict clear in ground arith

    network_same : (hold p c a now state).network ≡ p.network
    network_same = unfold hold enter evict clear in ground arith

pub clear-IsValid : (p : Pool) (c : ClientId) → IsValid p → IsValid (clear p c)
clear-IsValid p c v = record {
  serving = same-IsServing subnet_same network_same broadcast_same v.serving;
  paired = clear-IsPaired p c v.paired;
}
  where
    subnet_same : (clear p c).subnet ≡ p.subnet
    subnet_same = unfold clear in ground arith

    broadcast_same : (clear p c).broadcast ≡ p.broadcast
    broadcast_same = unfold clear in ground arith

    network_same : (clear p c).network ≡ p.network
    network_same = unfold clear in ground arith

pub Frame-IsValid : {now : ℕ} {p q : Pool} → Frame now p q → IsValid p → IsValid q
Frame-IsValid f v = record {
  serving = IsServing-Frame f v.serving;
  paired = Frame-IsPaired f v.paired;
}

offer-IsValid :
    (p : Pool) (c : ClientId) (r : Addr) (now : ℕ) → IsValid p → IsValid (offer p c r now).1
offer-IsValid p c r now v = elim (offer-Offers p v.serving v.paired c r now) [
  | refuses f e shut ↦ Frame-IsValid f v
  | grants q a state f e fits ↦ rw e (hold-IsValid q c a now state (Frame-IsValid f v))
]

-- A method that clears a client's lease or leaves the pool alone.
cancel_offer-IsValid : (p : Pool) (c : ClientId) → IsValid p → IsValid (cancel_offer p c)
unfolding cancel_offer clear_offer
cancel_offer-IsValid p c v = ground (arith, clear-IsValid p c v)

release-IsValid : (p : Pool) (c : ClientId) (a : Addr) → IsValid p → IsValid (release p c a)
unfolding release
release-IsValid p c a v = ground (arith, clear-IsValid p c v)

pub declined-IsValid : (p : Pool) (m : Map Addr ℕ) → IsValid p → IsValid (record p { declined = m })
declined-IsValid p m v = record {
  serving = same-IsServing refl refl refl v.serving;
  paired = record { owned = v.paired.owned; held = v.paired.held };
}

pub decline-IsValid :
    (p : Pool) (c : ClientId) (a : Addr) (now : ℕ) → IsValid p → IsValid (decline p c a now)
unfolding decline
decline-IsValid p c a now v =
    let later : Map Addr ℕ = insert a (now + decline_quarantine) p.declined in
    ground (arith, clear-IsValid (record p { declined = later }) c (declined-IsValid p later v))

-- One call keeps a pool well formed.
pub call-IsValid : (p : Pool) (m : Call) → IsValid p → IsValid (call p m)
unfolding call commit
call-IsValid p (offers c r now) v = offer-IsValid p c r now v
call-IsValid p (commits c a now) v = hold-IsValid p c a now committed v
call-IsValid p (cancels c) v = cancel_offer-IsValid p c v
call-IsValid p (releases c a) v = release-IsValid p c a v
call-IsValid p (declines c a now) v = decline-IsValid p c a now v

-- Any offers, commits, cancellations, releases and declines in any order leave a well-formed pool
-- well formed.
pub run-IsValid : (p : Pool) (ms : List Call) → IsValid p → IsValid (run p ms)
unfolding run
run-IsValid p [] v = v
run-IsValid p (m ∷ ms) v = run-IsValid (call p m) ms (call-IsValid p m v)
