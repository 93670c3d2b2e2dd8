-- ===== src/Dhcpv4/Pool/Frames.antt =====
-- pkg/dhcpv4/lease.go: the tests `allocatable` and `isFree` and the scan of `nextFree` change a pool
-- by nothing but quarantines that have elapsed, so they may be read as tests of the pool as it was.
use minuteman.Base.{
  ℕ, zero, suc, ◌≤◌, ◌∙◌, Bool-cases, Bool, false, not, ◌&&◌, none, some, ◌≡◌, refl, arith, inl,
  inr, Option-cases, ltb,
}
use minuteman.Base.Maps.{delete}
use minuteman.Netip.{Addr, addr_key, next, contains, is_valid}
use minuteman.Dhcpv4.Pool.{
  Pool, ClientId, in_range, allocatable, is_free, eligible, free_from, next_free,
}
use minuteman.Dhcpv4.Pool.Invariant.{IsPaired}

-- The quarantine of a declined address is in force.
unfoldable pub quarantined : Pool → Addr → ℕ → Bool
quarantined p a now = elim (p.declined a) [ none ↦ false | some until ↦ ltb now until ]

-- `q` is `p` but for quarantines that have elapsed at `now`.
pub record Frame (now : ℕ) (p q : Pool) : Type 0 where
  pub rest : q ≡ record p { declined = q.declined }
  pub quarantine : (a : Addr) (t : ℕ) → now ≤ t → quarantined q a t ≡ quarantined p a t

pub Frame-refl : (now : ℕ) (p : Pool) → Frame now p p
Frame-refl now p = record { rest = refl; quarantine = λ a t h. refl }

pub Frame-trans : {now : ℕ} {p q r : Pool} → Frame now p q → Frame now q r → Frame now p r
Frame-trans f g = record {
  rest = ground (arith, f.rest, g.rest);
  quarantine = λ a t h. g.quarantine a t h ∙ f.quarantine a t h;
}

pub Frame-IsPaired : {now : ℕ} {p q : Pool} → Frame now p q → IsPaired p → IsPaired q
Frame-IsPaired {q = q} f v = rw f.rest (record { owned = v.owned; held = v.held })

quarantined-delete :
    (p : Pool) (a b : Addr) (u now t : ℕ)
    → p.declined a ≡ some u
    → ltb now u ≡ false
    → now ≤ t
    → quarantined (record p { declined = delete a p.declined }) b t ≡ quarantined p b t
unfolding quarantined
quarantined-delete p a b u now t e h k = ground arith

pub allocatable-Frame : (p : Pool) (a : Addr) (now : ℕ) → Frame now p (allocatable p a now).1
unfolding allocatable
allocatable-Frame p a now = elim (Option-cases (p.declined a)) [
  | inl e ↦ rw (e, allocatable) (Frame-refl now p)
  | inr (u, e) ↦ elim (Bool-cases (ltb now u)) [
    | inl h ↦ rw (e, allocatable, h) (Frame-refl now p)
    | inr h ↦
        rw (e, allocatable, h)
          (record { rest = refl; quarantine = λ b t k. quarantined-delete p a b u now t e h k })
  ]
]

pub eligible-Frame :
    (p : Pool) (a : Addr) (c : ClientId) (now : ℕ) → Frame now p (eligible p a c now).1
unfolding eligible
eligible-Frame p a c now = allocatable-Frame p a now

-- The address may be given to the client at this instant.
unfoldable pub open_to : Pool → ClientId → ℕ → Addr → Bool
open_to p c now a = (not (quarantined p a now) && in_range p a) && is_free p a c now

-- What `allocatable` answers.
pub allocatable_lem :
    (p : Pool) (a : Addr) (now : ℕ)
    → (allocatable p a now).0 ≡ (not (quarantined p a now) && in_range p a)
unfolding allocatable quarantined
allocatable_lem p a now = ground arith

in_range-Frame : {now : ℕ} {p q : Pool} (a : Addr) → Frame now p q → in_range q a ≡ in_range p a
unfolding in_range
in_range-Frame a f = rw f.rest

is_free-Frame :
    {now : ℕ} {p q : Pool} (a : Addr) (c : ClientId)
    → Frame now p q
    → is_free q a c now ≡ is_free p a c now
unfolding is_free
is_free-Frame a c f = rw f.rest

pub open_to-Frame :
    {now : ℕ} {p q : Pool} (c : ClientId) (a : Addr)
    → Frame now p q
    → open_to q c now a ≡ open_to p c now a
unfolding open_to
open_to-Frame {now} c a f =
    rw (f.quarantine a now (omega arith), in_range-Frame a f, is_free-Frame a c f)

pub eligible_lem :
    (p : Pool) (a : Addr) (c : ClientId) (now : ℕ) → (eligible p a c now).0 ≡ open_to p c now a
unfolding eligible open_to
eligible_lem p a c now = rw (allocatable_lem p a now, is_free-Frame a c (allocatable-Frame p a now))

free_from-Frame :
    (fuel : ℕ) (p : Pool) (ip : Addr) (c : ClientId) (now : ℕ)
    → Frame now p (free_from fuel p ip c now).1
unfolding free_from
free_from-Frame zero p ip c now = Frame-refl now p
free_from-Frame (suc fuel) p ip c now =
    let q : Pool = (eligible p ip c now).1 in
    let first : Frame now p q = eligible-Frame p ip c now in
    let all : Frame now p (free_from fuel q (next ip) c now).1 =
      Frame-trans first (free_from-Frame fuel q (next ip) c now) in
    elim (Bool-cases (is_valid ip && contains p.subnet ip)) [
      | inr h ↦ rw h (Frame-refl now p)
      | inl h ↦
          rw h (elim (Bool-cases (eligible p ip c now).0) [ inl k ↦ rw k first | inr k ↦ rw k all ])
    ]

pub next_free-Frame : (p : Pool) (c : ClientId) (now : ℕ) → Frame now p (next_free p c now).1
unfolding next_free
next_free-Frame p c now = free_from-Frame _ p (next p.network) c now
