-- ===== src/PrefixDelegation/Exchanges/Examples.antt =====
-- pkg/prefixdelegation: a network that answers every exchange with the same message.
use minuteman.Base.{ℕ, ◌≡◌, refl, [], ◌∷◌, false, some}
use minuteman.PrefixDelegation.Lease.{Lease, new_lease, usable_dns}
use minuteman.PrefixDelegation.Lease.Examples.{reply, reply_bytes, reply_usable, granted}
use minuteman.PrefixDelegation.Exchanges.{
  Exchanger, message, ok, acquire, acquire_round, offer, grant,
}
use minuteman.PrefixDelegation.Exchanges.Acquired.{IsWired}

abbrev pub steady : Exchanger
steady = record {
  State = ℕ;
  exchange = λ s d x. (message reply, s);
  is_done = λ s. false;
  now = λ s. s;
}

pub steady-IsWired : IsWired steady
steady-IsWired s d x = reply_bytes

abbrev pub first : Lease
first = new_lease (9 ∷ []) granted (usable_dns reply.options) 100

pub first_acquired : (acquire steady 1 100).0 ≡ some (ok first)
unfolding acquire acquire_round offer grant
first_acquired = rw (reply_usable, acquire, acquire_round, offer) (rw (reply_usable, grant) refl)
