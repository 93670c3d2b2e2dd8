-- ===== src/Dhcpv4Server/Tables.antt =====
-- internal/dhcpv4server: the table of leases, and what the effects of the server do to it.
use minuteman.Base.{
  ℕ, ◌≡◌, ◌≢◌, refl, sym, ap, ◌∙◌, arith, List, [], ◌∷◌, true, Option as Maybe, none, some,
  Bool-cases, inl, inr,
}
use minuteman.Dhcpv4.Pool.{Lease, ClientId}
use minuteman.Dhcpv4.Pool.Lasting.{good}
use minuteman.Dhcpv4Server.{
  Server, Held, Effect, put, delete, expire, Change, unchanged, removed, changed, same_lease,
  change, reply, respond,
}

-- A table of the kvs library.
pub record Table : Type 1 where
  pub Store : Type 0
  pub entry : Store → ClientId → Maybe Lease
  pub insert : Store → ClientId → Lease → Store
  pub erase : Store → ClientId → Store
  pub prune : Store → ℕ → Store

-- What the server relies on of a table: an insertion and an erasure are of their own client alone,
-- and pruning at an instant loses no lease that is good then.
pub record IsTable (T : Table) : Type 0 where
  pub insert_own : (s : T.Store) (c : ClientId) (l : Lease) → T.entry (T.insert s c l) c ≡ some l
  pub insert_other :
      (s : T.Store) (c d : ClientId) (l : Lease) → d ≢ c → T.entry (T.insert s c l) d ≡ T.entry s d
  pub erase_own : (s : T.Store) (c : ClientId) → T.entry (T.erase s c) c ≡ none
  pub erase_other : (s : T.Store) (c d : ClientId) → d ≢ c → T.entry (T.erase s c) d ≡ T.entry s d
  pub prune_good :
      (s : T.Store) (t : ℕ) (c : ClientId) → good t (T.entry (T.prune s t) c) ≡ good t (T.entry s c)

same_lease-eq : (a b : Lease) → same_lease a b ≡ true → a ≡ b
unfolding same_lease
same_lease-eq a b e = ground arith

module _ (T : Table) where
  unfoldable pub carry_out : T.Store → Effect → T.Store
  carry_out store (put c l held) = T.insert store c l
  carry_out store (delete c) = T.erase store c
  carry_out store (expire t) = T.prune store t
  carry_out store e = store

  unfoldable pub carry_all : T.Store → List Effect → T.Store
  unfolding carry_out
  carry_all store [] = store
  carry_all store (e ∷ es) = carry_all (carry_out store e) es

  -- The table after the one write, if any, that a change asks for.
  abbrev pub written : T.Store → ClientId → Change → T.Store
  written store id unchanged = store
  written store id removed = T.erase store id
  written store id (changed l) = T.insert store id l

module _ (s : Server) (T : Table) (law : IsTable T) where
  pub carry_all-reply :
      (store : T.Store) (held : Maybe Held) → carry_all T store (reply s held) ≡ store
  unfolding carry_all reply
  carry_all-reply store none = refl
  carry_all-reply store (some h) = refl

  pub carry_all-respond :
      (store : T.Store) (ch : Change) (id : ClientId) (held : Maybe Held)
      → carry_all T store (respond s ch id held) ≡ written T store id ch
  unfolding respond
  carry_all-respond store (changed l) id (some held) = unfold carry_all in refl
  carry_all-respond store (changed l) id none = unfold carry_all reply in refl
  carry_all-respond store removed id held =
      unfold carry_all in carry_all-reply (T.erase store id) held
  carry_all-respond store unchanged id held = carry_all-reply store held

  -- What is written is what the client has after the request.
  pub written_own :
      (store : T.Store) (id : ClientId) (t : ℕ) (was is : Maybe Lease)
      → good t (T.entry store id) ≡ was
      → good t is ≡ is
      → good t (T.entry (written T store id (change was is)) id) ≡ is
  unfolding change
  written_own store id t none none v g = v
  written_own store id t none (some l) v g = ap (good t) (law.insert_own store id l) ∙ g
  written_own store id t (some w) none v g =
      ap (good t) (law.erase_own store id) ∙ (unfold good in refl)
  written_own store id t (some w) (some l) v g = elim (Bool-cases (same_lease l w)) [
    | inl e ↦ rw e (v ∙ ap (λ x. some x) (sym (same_lease-eq l w e)))
    | inr e ↦ rw e (ap (good t) (law.insert_own store id l) ∙ g)
  ]

  pub written_other :
      (store : T.Store) (id c : ClientId) (ch : Change)
      → c ≢ id
      → T.entry (written T store id ch) c ≡ T.entry store c
  written_other store id c unchanged far = refl
  written_other store id c removed far = law.erase_other store id c far
  written_other store id c (changed l) far = law.insert_other store id c l far
