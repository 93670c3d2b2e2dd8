-- ===== src/NdProxy/Entries.antt =====
-- pkg/ndproxy/state.go: the confirmed targets as a map, and how each operation changes it.
use minuteman.Base.{
  ℕ, ◌≡◌, ◌≢◌, refl, sym, ◌∙◌, arith, List, [], ◌∷◌, true, false, Bool-cases, inl, inr, ◌⊎◌, Option,
  Option-cases, none, some, if◌then◌else◌, ite, ◌&&◌,
}
use minuteman.Netip.{Addr, same_addr, bytes_discrete}
use minuteman.NdProxy.{
  State, Table, ActiveEntry, Reply, Expired, lookup, remove, store, is_fresh, start_probe, prefer,
  on_wan_solicit, confirm, on_lan_advert, sweep_active, sweep,
}

pub same_addr-eq : (a b : Addr) → same_addr a b ≡ true → a ≡ b
same_addr-eq a b h = ground arith

pub same_addr_self : (a : Addr) → same_addr a a ≡ true
same_addr_self a = ground arith

pub same_addr-ne : (a b : Addr) → same_addr a b ≡ false → a ≢ b
same_addr-ne a b h = ground arith

-- The interface behind which a target is confirmed.
unfoldable pub iface_of : Table ActiveEntry → Addr → Option (List ℕ)
iface_of [] t = none
iface_of ((j, a) ∷ rest) t = if same_addr j t then some a.iface else iface_of rest t

pub iface_of-remove :
    (T : Table ActiveEntry) (k t : Addr)
    → iface_of (remove T k) t ≡ (if same_addr k t then none else iface_of T t)
unfolding iface_of remove
iface_of-remove [] k t = ground arith
iface_of-remove ((j, a) ∷ rest) k t = ground (arith, iface_of-remove rest k t)

pub iface_of-store :
    (T : Table ActiveEntry) (k t : Addr) (a : ActiveEntry)
    → iface_of (store T k a) t ≡ (if same_addr k t then some a.iface else iface_of T t)
unfolding store iface_of
iface_of-store T k t a = ground (arith, iface_of-remove T k t)

-- Each target has one entry.
unfoldable pub IsMap : Table ActiveEntry → Type 0
IsMap [] = Unit {0}
IsMap ((j, a) ∷ rest) = (iface_of rest j ≡ none) × IsMap rest

remove-IsMap : (T : Table ActiveEntry) (k : Addr) → IsMap T → IsMap (remove T k)
unfolding IsMap remove
remove-IsMap [] k v = tt
remove-IsMap ((j, a) ∷ rest) k (h, v) = elim (Bool-cases (same_addr j k)) [
  | inl e ↦ rw e (remove-IsMap rest k v)
  | inr e ↦ rw e ((iface_of-remove rest k j ∙ ground arith), remove-IsMap rest k v)
]

pub store-IsMap :
    (T : Table ActiveEntry) (k : Addr) (a : ActiveEntry) → IsMap T → IsMap (store T k a)
unfolding IsMap store
store-IsMap T k a v = (iface_of-remove T k k ∙ ground (arith, same_addr_self k), remove-IsMap T k v)

-- What the removals that a sweep asks for leave of a host's route.
unfoldable pub left_by : List Expired → Addr → Option (List ℕ) → Option (List ℕ)
left_by [] t r = r
left_by (e ∷ es) t none = none
left_by (e ∷ es) t (some i) =
    left_by es t
      (if same_addr e.target t && ite (bytes_discrete i e.iface) true false then none else some i)

pub left_by-none : (es : List Expired) (t : Addr) → left_by es t none ≡ none
unfolding left_by
left_by-none [] t = refl
left_by-none (e ∷ es) t = refl

pub left_by-other :
    (e : Expired) (es : List Expired) (t : Addr) (r : Option (List ℕ))
    → same_addr e.target t ≡ false
    → left_by (e ∷ es) t r ≡ left_by es t r
unfolding left_by
left_by-other e es t none h = sym (left_by-none es t)
left_by-other e es t (some i) h = rw h refl

absent_sweep :
    (now : ℕ) (T : Table ActiveEntry) (t : Addr) (r : Option (List ℕ))
    → iface_of T t ≡ none
    → (iface_of (sweep_active now T).0 t ≡ none) × (left_by (sweep_active now T).1 t r ≡ r)
unfolding iface_of sweep_active left_by
absent_sweep now [] t r h = (refl, refl)
absent_sweep now ((j, a) ∷ rest) t none h =
    ground (arith, absent_sweep now rest t none, left_by-none (sweep_active now rest).1 t)
absent_sweep now ((j, a) ∷ rest) t (some i) h = ground (arith, absent_sweep now rest t (some i))

-- After the removals that a sweep asks for, a host's route is that of its entry after the sweep.
pub left_by-sweep_active :
    (now : ℕ) (T : Table ActiveEntry) (t : Addr)
    → IsMap T
    → left_by (sweep_active now T).1 t (iface_of T t) ≡ iface_of (sweep_active now T).0 t
unfolding iface_of sweep_active left_by IsMap
left_by-sweep_active now [] t v = refl
left_by-sweep_active now ((j, a) ∷ rest) t (h, v) = elim (Bool-cases (same_addr j t)) [
  | inl e ↦
      let own = same_addr-eq j t e in
      let (gone, kept) = absent_sweep now rest t (some a.iface) (rw own at h) in
      let none_left = left_by-none (sweep_active now rest).1 t in
      elim (Bool-cases (is_fresh now a)) [
        | inl f ↦ ground (arith, e, f, kept)
        | inr f ↦ ground (arith, e, f, gone, none_left)
      ]
  | inr e ↦ elim (Bool-cases (is_fresh now a)) [
    | inl f ↦ rw (e, f, iface_of) (rw e (left_by-sweep_active now rest t v))
    | inr f ↦
        rw (e, f)
          (left_by-other (record { target = j; iface = a.iface }) (sweep_active now rest).1 t
              (iface_of rest t) e
            ∙ left_by-sweep_active now rest t v)
  ]
]

-- A Solicitation changes no entry.
pub active-on_wan_solicit :
    (s : State) (now : ℕ) (target solicitor : Addr)
    → (on_wan_solicit s now target solicitor).2.active ≡ s.active
unfolding on_wan_solicit prefer start_probe
active-on_wan_solicit s now target solicitor = ground arith

-- An Advertisement that answers no probe is not passed on; one that does enters its interface.
pub on_lan_advert-cases :
    (s : State) (now : ℕ) (iface : List ℕ) (target : Addr)
    → ((on_lan_advert s now iface target).0 ≡ none)
      ⊎ ((r : Reply) × ((on_lan_advert s now iface target).0 ≡ some r)
          × (r.target ≡ target)
          × (r.iface ≡ iface)
          × ((on_lan_advert s now iface target).1.active
              ≡ store s.active target (record { iface = iface; confirmed_at = now })))
unfolding on_lan_advert
on_lan_advert-cases s now iface target = elim (Option-cases (lookup s.pending target)) [
  | inl e ↦ rw e (unfold confirm in inl refl)
  | inr (p, e) ↦ rw e (unfold confirm in inr (_, refl, refl, refl, refl))
]

pub sweep-active :
    (s : State) (now : ℕ)
    → ((sweep s now).3.active ≡ (sweep_active now s.active).0)
      × ((sweep s now).2 ≡ (sweep_active now s.active).1)
unfolding sweep
sweep-active s now = (refl, refl)

pub sweep_active-IsMap : (now : ℕ) (T : Table ActiveEntry) → IsMap T → IsMap (sweep_active now T).0
unfolding IsMap sweep_active
sweep_active-IsMap now [] v = tt
sweep_active-IsMap now ((j, a) ∷ rest) (h, v) = elim (Bool-cases (is_fresh now a)) [
  | inl f ↦ rw f ((absent_sweep now rest j none h).0, sweep_active-IsMap now rest v)
  | inr f ↦ rw f (sweep_active-IsMap now rest v)
]
