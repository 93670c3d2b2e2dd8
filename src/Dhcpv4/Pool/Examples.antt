-- ===== src/Dhcpv4/Pool/Examples.antt =====
-- pkg/dhcpv4/lease.go: a pool of 10.0.0.0/29 whose server is 10.0.0.1, and two clients.
use minuteman.Base.{
  ℕ, ◌*◌, ◌+◌, ◌≡◌, ◌↔◌, refl, arith, [], ◌∷◌, none, some, true, false, ℕ_discrete,
}
use minuteman.Base.Maps.{empty}
use minuteman.Netip.{Addr, v4, invalid, Prefix, Addr-discrete, bytes_discrete}
use minuteman.Dhcpv4.Pool.{
  Pool, Hold, Lease, ClientId, ok, new_pool, last_addr, second, offered, committed, hold, expired,
  next_free, eligible, allocatable, in_range, is_free, free_from, enter, evict, clear, hold_time,
  expired_hold,
}
use minuteman.Dhcpv4.Pool.Calls.{
  offer, binding, restore, offers, commits, run, call, commit, committed_lease, kept,
  offer_requested, offer_lowest,
}
use minuteman.Dhcpv4.Pool.Invariant.{IsPaired}
use minuteman.Dhcpv4.Pool.Frames.{open_to}
use minuteman.Dhcpv4.Pool.Scan.{next_free-Lowest, Lowest}
use minuteman.Dhcpv4.Pool.Valid.{IsValid, run-IsValid, call-IsValid}
use minuteman.Dhcpv4.Pool.Start.{new_pool-IsValid}
use minuteman.Dhcpv4.Pool.Promises.{offer-none_iff, offer-keeps_others, binding-offer}
use minuteman.Dhcpv4.Pool.Restore.{
  restore_each, restore_each-IsRestored, IsRestored, restore_unpaired,
}

abbrev pub lan : Prefix
lan = record { addr = v4 167772162; bits = 29 }

abbrev pub server : Addr
server = v4 167772161

abbrev pub hour : ℕ
hour = 3600 * second

abbrev pub anna : ClientId
anna = 1 ∷ []

abbrev bert : ClientId
bert = 2 ∷ []

abbrev pub fresh : Pool
fresh = record {
  subnet = record { addr = v4 167772160; bits = 29 };
  server_ip = server;
  network = v4 167772160;
  broadcast = v4 167772167;
  duration = hour;
  by_client = empty;
  by_ip = empty;
  declined = empty;
}

made : new_pool lan server hour ≡ ok fresh
unfolding new_pool last_addr
made = refl

pub fresh-IsValid : IsValid fresh
fresh-IsValid = new_pool-IsValid lan server hour fresh (omega arith) made

next_free-Lowest_example : Lowest fresh fresh-IsValid.serving anna 7 (next_free fresh anna 7).0
next_free-Lowest_example = next_free-Lowest fresh fresh-IsValid.serving anna 7

offer-none_iff_example :
    ((offer fresh anna invalid 7).0 ≡ none) ↔ ((a : Addr) → open_to fresh anna 7 a ≡ false)
offer-none_iff_example =
    offer-none_iff fresh anna invalid 7 (new_pool-IsValid lan server hour fresh (omega arith) made)

-- Anna has been offered 10.0.0.2.
abbrev one_offer : Pool
one_offer = run fresh (offers anna invalid 7 ∷ [])

run-IsValid_example :
    IsValid (run fresh (offers anna invalid 7 ∷ commits anna (v4 167772162) 8 ∷ []))
run-IsValid_example =
    run-IsValid fresh (offers anna invalid 7 ∷ commits anna (v4 167772162) 8 ∷ [])
      (new_pool-IsValid lan server hour fresh (omega arith) made)

abbrev annas : Hold
annas = record { ip = v4 167772162; expiry = 7 + 60 * second; state = offered }

one_offer_lease : one_offer.by_client anna ≡ some annas
unfolding run call offer offer_requested offer_lowest eligible allocatable in_range is_free
    next_free free_from hold enter evict clear hold_time expired_hold expired Addr-discrete
    ℕ_discrete bytes_discrete
one_offer_lease = refl

one_offer_owner : one_offer.by_ip (v4 167772162) ≡ some anna
unfolding run call offer offer_requested offer_lowest eligible allocatable in_range is_free
    next_free free_from hold enter evict clear hold_time expired_hold expired Addr-discrete
    ℕ_discrete bytes_discrete
one_offer_owner = refl

one_offer-IsValid : IsValid one_offer
one_offer-IsValid = run-IsValid fresh (offers anna invalid 7 ∷ []) fresh-IsValid

annas_good : expired annas 8 ≡ false
unfolding expired
annas_good = refl

offer-keeps_others_example : (offer one_offer bert (v4 167772162) 8).1.by_client anna ≡ some annas
offer-keeps_others_example =
    offer-keeps_others one_offer bert anna (v4 167772162) 8 annas one_offer-IsValid (λ h. cc)
      one_offer_lease annas_good

anna_offered : (offer fresh anna invalid 7).0 ≡ some (v4 167772162)
unfolding offer offer_requested offer_lowest eligible allocatable in_range is_free next_free
    free_from hold enter evict clear hold_time expired_hold expired Addr-discrete ℕ_discrete
anna_offered = refl

binding-offer_example :
    (binding (offer fresh anna invalid 7).1 anna 20 ≡ some (v4 167772162))
    × (open_to fresh anna 7 (v4 167772162) ≡ true)
binding-offer_example =
    binding-offer fresh anna invalid (v4 167772162) 7 20 fresh-IsValid (omega arith) anna_offered
      (omega arith)

abbrev annas_lease : Lease
annas_lease = record { ip = v4 167772165; expiry = 100 }

fresh-IsRestored : IsRestored 50 fresh
fresh-IsRestored = record { valid = fresh-IsValid; current = λ c l h. cc }

restore_each-IsRestored_example :
    IsRestored 50 (restore_each fresh ((anna, annas_lease) ∷ (bert, annas_lease) ∷ []) 50).0
restore_each-IsRestored_example =
    restore_each-IsRestored fresh ((anna, annas_lease) ∷ (bert, annas_lease) ∷ []) 50
      fresh-IsRestored

-- Anna's offer of 10.0.0.2 has run out, and Bert's lease of it is restored.
abbrev late : ℕ
late = 3600 * second

abbrev berts_lease : Lease
berts_lease = record { ip = v4 167772162; expiry = late + 1 }

bert_restored : (restore one_offer bert berts_lease late).0 ≡ true
unfolding restore run call offer offer_requested offer_lowest eligible allocatable in_range is_free
    next_free free_from hold enter evict clear hold_time expired_hold expired Addr-discrete
    ℕ_discrete bytes_discrete
bert_restored = refl

restore_unpaired_example :
    ((restore one_offer bert berts_lease late).1.by_ip (v4 167772162) ≡ some bert)
    × ((restore one_offer bert berts_lease late).1.by_client bert
        ≡ some (record { ip = v4 167772162; expiry = late + 1; state = committed }))
    × ((restore one_offer bert berts_lease late).1.by_client anna ≡ some annas)
    × (¬ IsPaired (restore one_offer bert berts_lease late).1)
restore_unpaired_example =
    restore_unpaired one_offer bert anna annas berts_lease late (λ h. cc) one_offer_owner
      one_offer_lease refl bert_restored

-- Anna has a lease of 10.0.0.2.
abbrev pub one_lease : Pool
one_lease = commit fresh anna (v4 167772162) 8

pub one_lease-IsValid : IsValid one_lease
one_lease-IsValid = unfold call in call-IsValid fresh (commits anna (v4 167772162) 8) fresh-IsValid

pub one_lease_lem :
    committed_lease one_lease anna 9 ≡ some (record { ip = v4 167772162; expiry = 8 + hour })
unfolding commit committed_lease kept hold clear evict enter hold_time expired bytes_discrete
    ℕ_discrete
one_lease_lem = refl
