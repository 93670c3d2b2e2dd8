-- ===== src/Dhcpv4/Pool/Restore.antt =====
-- pkg/dhcpv4/lease.go and internal/dhcpv4server/server.go: leases restored from an earlier run.
use minuteman.Base.{
  ℕ, ◌<◌, ◌∙◌, Bool-cases, Bool, true, false, none, some, ◌≡◌, refl, sym, ap, arith, inl, inr,
  Option-cases, ltb, if◌then◌else◌, ltb→lt, ◌≢◌, List, [], ◌∷◌,
}
use minuteman.Netip.{Addr, addr_key, bytes_key}
use minuteman.Dhcpv4.Pool.{
  Pool, Hold, Lease, ClientId, committed, expired, clear, enter, eligible, expired_hold, is_free,
}
use minuteman.Dhcpv4.Pool.Calls.{restore, committed_lease, kept}
use minuteman.Dhcpv4.Pool.Invariant.{IsPaired}
use minuteman.Dhcpv4.Pool.Frames.{
  Frame, Frame-refl, eligible-Frame, eligible_lem, open_to, open_to-Frame,
}
use minuteman.Dhcpv4.Pool.Scan.{IsServing}
use minuteman.Dhcpv4.Pool.Valid.{IsValid, clear-IsValid, Frame-IsValid, same-IsServing}

-- `restore` puts the leases kept back into the pool; the clients whose leases it did not take are
-- answered, for the caller to delete them from its table. The list is the table's contents.
pub restore_each : Pool → List (ClientId × Lease) → ℕ → Pool × List ClientId
restore_each p [] now = (p, [])
restore_each p ((c, l) ∷ kept) now =
    let (taken, q) = restore p c l now in
    let (r, gone) = restore_each q kept now in (r, if taken then gone else c ∷ gone)

-- Every lease of the pool is still good.
abbrev pub IsCurrent : ℕ → Pool → Type 0
IsCurrent now p = (c : ClientId) (l : Hold) → p.by_client c ≡ some l → expired l now ≡ false

-- An address held by nobody else gets its lease without harm to the maps.
enter-IsPaired :
    (p : Pool) (c : ClientId) (l : Hold)
    → IsPaired p
    → p.by_client c ≡ none
    → p.by_ip l.ip ≡ none
    → IsPaired (enter p c l)
unfolding enter
enter-IsPaired p c l v fresh free = record {
  owned = λ d a h. ground (arith, v.owned d a, v.owned d l.ip);
  held = λ d a h. ground (arith, v.held d a, v.held c a);
}

enter-IsServing : (p : Pool) (c : ClientId) (l : Hold) → IsServing p → IsServing (enter p c l)
unfolding enter
enter-IsServing p c l s = same-IsServing refl refl refl s

clear-fresh : (p : Pool) (c : ClientId) → (clear p c).by_client c ≡ none
unfolding clear
clear-fresh p c = ground arith

-- An address that is open to the client is nobody's once the client's own lease is cleared, if no
-- lease has expired.
clear-free :
    (p : Pool) (c : ClientId) (a : Addr) (now : ℕ)
    → IsPaired p
    → IsCurrent now p
    → open_to p c now a ≡ true
    → (clear p c).by_ip a ≡ none
unfolding open_to is_free expired_hold clear
clear-free p c a now v good fits = elim (Option-cases (p.by_ip a)) [
  | inl e ↦ ground arith
  | inr (d, e) ↦ elim (Option-cases (p.by_client d)) [
    | inl k ↦ ground (arith, v.held d a)
    | inr (l, k) ↦ ground (arith, v.held d a, good d l)
  ]
]

-- The two ends of a restoration.
restore_cases {ℓ} :
    (P : Bool × Pool → Type ℓ) (p : Pool) (c : ClientId) (l : Lease) (now : ℕ)
    → ((q : Pool) → Frame now p q → P (false, q))
    → ((q : Pool)
        → Frame now p q
        → now < l.expiry
        → open_to p c now l.ip ≡ true
        → P (
          true,
          enter (clear q c) c (record { ip = l.ip; expiry = l.expiry; state = committed }),
        ))
    → P (restore p c l now)
unfolding restore
restore_cases P p c l now refused taken = elim (Bool-cases (ltb now l.expiry)) [
  | inr h ↦ rw h (refused p (Frame-refl now p))
  | inl h ↦ elim (Bool-cases (eligible p l.ip c now).0) [
    | inr k ↦ rw (h, k) (refused _ (eligible-Frame p l.ip c now))
    | inl k ↦
        rw (h, k)
          (taken _ (eligible-Frame p l.ip c now) (ltb→lt _ _ h)
            (sym (eligible_lem p l.ip c now) ∙ k))
  ]
]

pub record IsRestored (now : ℕ) (p : Pool) : Type 0 where
  pub valid : IsValid p
  pub current : IsCurrent now p

Frame-IsCurrent : {now : ℕ} {p q : Pool} → Frame now p q → IsCurrent now p → IsCurrent now q
Frame-IsCurrent f good = λ c l e. good c l (sym (ap (λ (q : Pool). q.by_client c) f.rest) ∙ e)

clear-IsCurrent : (p : Pool) (c : ClientId) (now : ℕ) → IsCurrent now p → IsCurrent now (clear p c)
unfolding clear
clear-IsCurrent p c now good = λ d l e. ground (arith, good d l)

enter-IsCurrent :
    (p : Pool) (c : ClientId) (l : Hold) (now : ℕ)
    → IsCurrent now p
    → now < l.expiry
    → IsCurrent now (enter p c l)
unfolding enter expired
enter-IsCurrent p c l now good later = λ d k e. ground (arith, good d k)

-- A restoration into a pool without expired leases keeps it well formed and without them.
restore-IsRestored :
    (p : Pool) (c : ClientId) (l : Lease) (now : ℕ)
    → IsRestored now p
    → IsRestored now (restore p c l now).1
restore-IsRestored p c l now v =
    restore_cases (λ r. IsRestored now r.1) p c l now
      (λ q f. record { valid = Frame-IsValid f v.valid; current = Frame-IsCurrent f v.current })
      (λ q f later fits.
        taken q (Frame-IsValid f v.valid) (Frame-IsCurrent f v.current) later
          (open_to-Frame c l.ip f ∙ fits))
  where
    taken :
        (q : Pool)
        → IsValid q
        → IsCurrent now q
        → now < l.expiry
        → open_to q c now l.ip ≡ true
        → IsRestored now
            (enter (clear q c) c (record { ip = l.ip; expiry = l.expiry; state = committed }))
    taken q w good later fits = record {
      valid = record {
        serving = enter-IsServing (clear q c) c _ (clear-IsValid q c w).serving;
        paired =
            enter-IsPaired (clear q c) c _ (clear-IsValid q c w).paired (clear-fresh q c)
              (clear-free q c l.ip now w.paired good fits);
      };
      current = enter-IsCurrent (clear q c) c _ now (clear-IsCurrent q c now good) later;
    }

-- Leases restored one after the other at one instant, as at start, leave a pool well formed and
-- without expired leases that was so before.
pub restore_each-IsRestored :
    (p : Pool) (kept : List (ClientId × Lease)) (now : ℕ)
    → IsRestored now p
    → IsRestored now (restore_each p kept now).0
unfolding restore_each
restore_each-IsRestored p [] now v = v
restore_each-IsRestored p ((c, l) ∷ kept) now v =
    restore_each-IsRestored (restore p c l now).1 kept now (restore-IsRestored p c l now v)

-- A lease that the pool says it restored is the client's committed lease, as it was kept.
pub committed_lease-restore :
    (p : Pool) (c : ClientId) (l : Lease) (now : ℕ)
    → (restore p c l now).0 ≡ true
    → committed_lease (restore p c l now).1 c now ≡ some l
committed_lease-restore p c l now =
    restore_cases (λ r. r.0 ≡ true → committed_lease r.1 c now ≡ some l) p c l now (λ q f h. cc)
      (λ q f later fits h. unfold committed_lease kept enter expired in ground arith)

-- Where a restoration succeeds on an address that another client holds in both maps, it gives the
-- address to the client and leaves the other client's lease of it in the pool beside the new one, so
-- that the two maps are no longer inverse to each other.
pub restore_unpaired :
    (p : Pool) (c d : ClientId) (k : Hold) (l : Lease) (now : ℕ)
    → d ≢ c
    → p.by_ip l.ip ≡ some d
    → p.by_client d ≡ some k
    → k.ip ≡ l.ip
    → (restore p c l now).0 ≡ true
    → ((restore p c l now).1.by_ip l.ip ≡ some c)
      × ((restore p c l now).1.by_client c
          ≡ some (record { ip = l.ip; expiry = l.expiry; state = committed }))
      × ((restore p c l now).1.by_client d ≡ some k)
      × (¬ IsPaired (restore p c l now).1)
unfolding enter clear
restore_unpaired p c d k l now far owner holds same =
    restore_cases (λ r. r.0 ≡ true → Both r.1) p c l now (λ q f h. cc)
      (λ q f later fits h.
        (given q, own q, left q f, λ v. taken_twice (after q) v (given q) (left q f)))
  where
    after : Pool → Pool
    after q = enter (clear q c) c (record { ip = l.ip; expiry = l.expiry; state = committed })

    Both : Pool → Type 0
    Both r =
        (r.by_ip l.ip ≡ some c)
        × (r.by_client c ≡ some (record { ip = l.ip; expiry = l.expiry; state = committed }))
        × (r.by_client d ≡ some k)
        × (¬ IsPaired r)

    given : (q : Pool) → (after q).by_ip l.ip ≡ some c
    given q = ground arith

    own :
        (q : Pool)
        → (after q).by_client c ≡ some (record { ip = l.ip; expiry = l.expiry; state = committed })
    own q = ground arith

    left : (q : Pool) → Frame now p q → (after q).by_client d ≡ some k
    left q f = ground (arith, ap (λ (r : Pool). r.by_client d) f.rest)

    taken_twice : (r : Pool) → IsPaired r → r.by_ip l.ip ≡ some c → r.by_client d ≡ some k → ⊥
    taken_twice r v e g = ground (arith, v.owned d l.ip)
