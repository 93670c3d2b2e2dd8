-- ===== src/NdProxy/Answers.antt =====
-- pkg/ndproxy/state.go: a target is answered for on the WAN once it was verified on a LAN.
use minuteman.Base.{
  ℕ, ◌+◌, ◌<◌, ◌≡◌, refl, arith, List, [], ◌∷◌, false, Bool-cases, inl, inr, none, some,
}
use minuteman.Netip.{Addr, same_addr}
use minuteman.NdProxy.{
  State, Table, PendingProbe, active_ttl, lookup, remove, store, is_fresh, answer_known, prefer,
  on_wan_solicit, confirm, on_lan_advert,
}

lookup-store {ℓ} : {V : Type ℓ} (t : Table V) (k : Addr) (v : V) → lookup (store t k v) k ≡ some v
unfolding lookup store
lookup-store t k v = ground arith

lookup-remove {ℓ} : {V : Type ℓ} (t : Table V) (k : Addr) → lookup (remove t k) k ≡ none
unfolding lookup remove
lookup-remove [] k = refl
lookup-remove ((j, v) ∷ rest) k = elim (Bool-cases (same_addr j k)) [
  | inl e ↦ rw e (lookup-remove rest k)
  | inr e ↦ rw (e, e) (lookup-remove rest k)
]

-- A probed target that a LAN answers for is answered for on the WAN: at once to the solicitor that
-- waits, and for the time to live to any other without another probe.
pub on_wan_solicit-on_lan_advert :
    (s : State) (now later : ℕ) (iface : List ℕ) (target solicitor : Addr) (p : PendingProbe)
    → lookup s.pending target ≡ some p
    → later < now + active_ttl
    → ((on_lan_advert s now iface target).0
        ≡ some (record { target = target; solicitor = p.solicitor; iface = iface }))
      × ((on_wan_solicit (on_lan_advert s now iface target).1 later target solicitor).0
          ≡ some (record { target = target; solicitor = solicitor; iface = iface }))
      × ((on_wan_solicit (on_lan_advert s now iface target).1 later target solicitor).1 ≡ false)
unfolding on_lan_advert on_wan_solicit prefer confirm answer_known is_fresh
on_wan_solicit-on_lan_advert s now later iface target solicitor p e h =
    ground (arith, e, lookup-store s.active target (record { iface = iface; confirmed_at = now }))

-- An advertisement that no probe has asked for changes nothing and is not passed on.
pub on_lan_advert_stray :
    (s : State) (now : ℕ) (iface : List ℕ) (target : Addr)
    → lookup s.pending target ≡ none
    → on_lan_advert s now iface target ≡ (none, s)
unfolding on_lan_advert confirm
on_lan_advert_stray s now iface target e = rw e refl
