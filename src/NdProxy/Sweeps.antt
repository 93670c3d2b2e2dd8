-- ===== src/NdProxy/Sweeps.antt =====
-- pkg/ndproxy/state.go: what the sweeps leave.
use minuteman.Base.{
  ℕ, ◌+◌, ◌≤◌, ◌≡◌, refl, arith, List, [], ◌∷◌, All, Bool, Bool-cases, inl, inr, Option, none, some,
}
use minuteman.Netip.{Addr, same_addr}
use minuteman.NdProxy.{
  State, Table, PendingProbe, max_multicast_solicit, probe_retrans_timer, lookup, remove, store,
  start_probe, prefer, Reply, on_wan_solicit, confirm, on_lan_advert, sweep_pending, sweep,
}

-- A target has been probed once at least, and no more often than allowed.
abbrev pub IsProbed : Addr × PendingProbe → Type 0
IsProbed (target, p) = (1 ≤ p.attempts) × (p.attempts ≤ max_multicast_solicit)

remove-All {ℓ κ} :
    {V : Type ℓ} (P : Addr × V → Type κ) (t : Table V) (k : Addr) → All P t → All P (remove t k)
unfolding remove
remove-All P [] k h = tt
remove-All P ((j, v) ∷ rest) k h = elim (Bool-cases (same_addr j k)) [
  | inl e ↦ rw e (remove-All P rest k h.1)
  | inr e ↦ rw e (h.0, remove-All P rest k h.1)
]

lookup-IsProbed :
    (t : Table PendingProbe) (k : Addr) (p : PendingProbe)
    → All IsProbed t
    → lookup t k ≡ some p
    → IsProbed (k, p)
unfolding lookup
lookup-IsProbed [] k p h e = cc
lookup-IsProbed ((j, v) ∷ rest) k p h e = elim (Bool-cases (same_addr j k)) [
  | inl f ↦ ground (arith, rw f at e, h.0)
  | inr f ↦ lookup-IsProbed rest k p h.1 (rw f at e)
]

sweep_pending-IsProbed :
    (now : ℕ) (t : Table PendingProbe) → All IsProbed t → All IsProbed (sweep_pending now t).0
unfolding sweep_pending
sweep_pending-IsProbed now [] h = tt
sweep_pending-IsProbed now ((k, p) ∷ rest) h =
    ground (arith, h.0, sweep_pending-IsProbed now rest h.1)

-- An event of the proxy.
pub data Happening : Type 0 where
  solicited : ℕ → Addr → Addr → Happening
  advertised : ℕ → List ℕ → Addr → Happening
  swept : ℕ → Happening

pub happen : State → Happening → State
happen s (solicited now target solicitor) = (on_wan_solicit s now target solicitor).2
happen s (advertised now iface target) = (on_lan_advert s now iface target).1
happen s (swept now) = (sweep s now).3

pub happen_all : State → List Happening → State
unfolding happen
happen_all s [] = s
happen_all s (h ∷ hs) = happen_all (happen s h) hs

confirm-IsProbed :
    (s : State) (now : ℕ) (iface : List ℕ) (target : Addr) (o : Option PendingProbe)
    → All IsProbed s.pending
    → All IsProbed (confirm s now iface target o).1.pending
unfolding confirm
confirm-IsProbed s now iface target none v = v
confirm-IsProbed s now iface target (some p) v = remove-All IsProbed s.pending target v

start_probe-IsProbed :
    (s : State) (now : ℕ) (target solicitor : Addr) (o : Option PendingProbe)
    → lookup s.pending target ≡ o
    → All IsProbed s.pending
    → All IsProbed (start_probe s target solicitor now o).1.pending
unfolding start_probe store
start_probe-IsProbed s now target solicitor none e v =
    ((omega arith, omega arith), remove-All IsProbed s.pending target v)
start_probe-IsProbed s now target solicitor (some p) e v =
    (lookup-IsProbed s.pending target p v e, remove-All IsProbed s.pending target v)

prefer-IsProbed :
    (s : State) (known : Option Reply) (probing : Bool × State)
    → All IsProbed s.pending
    → All IsProbed probing.1.pending
    → All IsProbed (prefer s known probing).2.pending
unfolding prefer
prefer-IsProbed s (some r) probing v w = v
prefer-IsProbed s none probing v w = w

happen-IsProbed :
    (s : State) (h : Happening) → All IsProbed s.pending → All IsProbed (happen s h).pending
unfolding happen on_wan_solicit on_lan_advert sweep
happen-IsProbed s (solicited now target solicitor) v =
    prefer-IsProbed s _ _ v
      (start_probe-IsProbed s now target solicitor (lookup s.pending target) refl v)
happen-IsProbed s (advertised now iface target) v =
    confirm-IsProbed s now iface target (lookup s.pending target) v
happen-IsProbed s (swept now) v = sweep_pending-IsProbed now s.pending v

-- From a state in which each pending target has been probed once at least and at most
-- MAX_MULTICAST_SOLICIT times, that stays so, whatever happens.
pub happen_all-IsProbed :
    (s : State) (hs : List Happening)
    → All IsProbed s.pending
    → All IsProbed (happen_all s hs).pending
unfolding happen_all
happen_all-IsProbed s [] v = v
happen_all-IsProbed s (h ∷ hs) v = happen_all-IsProbed (happen s h) hs (happen-IsProbed s h v)

-- Probed so often, and due.
abbrev IsDue : ℕ → ℕ → Addr × PendingProbe → Type 0
IsDue k now (target, p) = (k ≤ p.attempts) × (p.next_probe ≤ now)

sweep_pending-IsDue :
    (k now later : ℕ) (t : Table PendingProbe)
    → All (IsDue k now) t
    → now + probe_retrans_timer ≤ later
    → All (IsDue (k + 1) later) (sweep_pending now t).0
unfolding sweep_pending
sweep_pending-IsDue k now later [] h le = tt
sweep_pending-IsDue k now later ((j, p) ∷ rest) h le =
    ground (arith, h.0, sweep_pending-IsDue k now later rest h.1 le)

sweep_pending-done :
    (now : ℕ) (t : Table PendingProbe)
    → All (IsDue max_multicast_solicit now) t
    → (sweep_pending now t).0 ≡ []
unfolding sweep_pending
sweep_pending-done now [] h = refl
sweep_pending-done now ((j, p) ∷ rest) h = ground (arith, h.0, sweep_pending-done now rest h.1)

IsProbed-IsDue :
    (now : ℕ) (t : Table PendingProbe)
    → All IsProbed t
    → All (λ (e : Addr × PendingProbe). e.1.next_probe ≤ now) t
    → All (IsDue 1 now) t
IsProbed-IsDue now [] v d = tt
IsProbed-IsDue now (e ∷ rest) v d = ((v.0.0, d.0), IsProbed-IsDue now rest v.1 d.1)

-- Targets that have been probed once to three times and whose probes are all due are given up by
-- the third sweep, the sweeps a second apart, if nothing else happens: no target is pending then.
pub sweep-gives_up :
    (s : State) (t1 t2 t3 : ℕ)
    → All IsProbed s.pending
    → All (λ (e : Addr × PendingProbe). e.1.next_probe ≤ t1) s.pending
    → t1 + probe_retrans_timer ≤ t2
    → t2 + probe_retrans_timer ≤ t3
    → (happen_all s (swept t1 ∷ swept t2 ∷ swept t3 ∷ [])).pending ≡ []
unfolding happen_all happen sweep
sweep-gives_up s t1 t2 t3 v d h k =
    let first = sweep_pending-IsDue 1 t1 t2 s.pending (IsProbed-IsDue t1 s.pending v d) h in
    let again = sweep_pending-IsDue 2 t2 t3 (sweep_pending t1 s.pending).0 first k in
    sweep_pending-done t3 (sweep_pending t2 (sweep_pending t1 s.pending).0).0 again
