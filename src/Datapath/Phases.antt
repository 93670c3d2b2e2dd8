-- ===== src/Datapath/Phases.antt =====
-- pkg/datapath/config.go and migration.go: the phases of a migration and what the operations
-- do to them.
use minuteman.Base.{ℕ, ◌+◌, ◌%◌, ◌<◌, ◌≡◌, refl, ap, ◌∙◌, arith, ◌⊎◌, inl, some}
use minuteman.Base.Maps.{Map}
use minuteman.Datapath.{
  Loader, Ctrl, Endpoints, pack, unpack, mig_steady, mig_priming, mig_draining, slot_key,
}
use minuteman.Datapath.Words.{IsCtrl, unpack-pack, unpack-IsCtrl}
use minuteman.Datapath.Triples.{Same, ctrl}

-- The phases of a migration: the endpoints of new flows, and beside them those that are prepared
-- for the cutover or those that hold the pinned flows.
pub data Phase : Type 0 where
  steady : Endpoints → Phase
  priming draining : Endpoints → Endpoints → Phase

abbrev pub other : ℕ → ℕ
other slot = (slot + 1) % 2

-- The control word and the slots are at a phase.
abbrev pub Holds : Ctrl → Map ℕ Endpoints → Phase → Type 0
Holds c hops (steady e) = (c.state ≡ mig_steady) × (hops c.active_slot ≡ some e)
Holds c hops (priming e new) =
    (c.state ≡ mig_priming)
    × (hops c.active_slot ≡ some e)
    × (hops (other c.active_slot) ≡ some new)
Holds c hops (draining e old) =
    (c.state ≡ mig_draining)
    × (hops c.active_slot ≡ some e)
    × (c.old_slot ≡ other c.active_slot)
    × (hops c.old_slot ≡ some old)

pub record At (s : Loader) (p : Phase) : Type 0 where
  pub slot_fits : (ctrl s).active_slot < 2
  pub holds : Holds (ctrl s) s.next_hops p

-- Where new flows go.
unfoldable pub live : Phase → Endpoints
live (steady e) = e
live (priming e new) = e
live (draining e old) = e

pub Same-At : (s t : Loader) (p : Phase) → Same s t → At s p → At t p
Same-At s t p st v = record { slot_fits = rw st.0 v.slot_fits; holds = rw (st.0, st.1) v.holds }

-- A control word just written, and slots that agree where it looks.
pub written :
    (t : Loader) (c : Ctrl) (p : Phase)
    → IsCtrl c
    → c.active_slot < 2
    → t.migration_ctrl ≡ pack c
    → Holds c t.next_hops p
    → At t p
written t c p fits low e h =
    let same : ctrl t ≡ c = ap unpack e ∙ (unpack-pack c fits).0 in
    record { slot_fits = rw same low; holds = rw same h }

-- What is read of the control word.
pub record Read (c : Ctrl) (hops : Map ℕ Endpoints) (p : Phase) : Type 0 where
  pub fits : IsCtrl c
  pub low : c.active_slot < 2
  pub holds : Holds c hops p

pub reading : (s : Loader) (c : Ctrl) (p : Phase) → c ≡ ctrl s → At s p → Read c s.next_hops p
reading s c p e v =
    rw e (record { fits = unpack-IsCtrl s.migration_ctrl; low = v.slot_fits; holds = v.holds })

-- What the operations do: the specification.
pub data Operation : Type 0 where
  begins switches : Endpoints → Operation
  cuts_over completes aborts : Operation

pub data Moves : Operation → Phase → Phase → Type 0 where
  to_priming : {e new : Endpoints} → Moves (begins new) (steady e) (priming e new)
  to_draining : {e new : Endpoints} → Moves cuts_over (priming e new) (draining new e)
  to_new : {e old : Endpoints} → Moves completes (draining e old) (steady e)
  back : {e new : Endpoints} → Moves aborts (priming e new) (steady e)
  at_once : {e : Endpoints} {p : Phase} → Moves (switches e) p (steady e)

-- A failed operation keeps its phase, or ends the migration where new flows go.
abbrev pub Kept : Phase → Phase → Type 0
Kept p q = (q ≡ p) ⊎ (q ≡ steady (live p))

abbrev pub Refined : Operation → Phase → Loader → Type 0
Refined o p t = (q : Phase) × Moves o p q × At t q

abbrev pub Unmoved : Phase → Loader → Type 0
Unmoved p t = (q : Phase) × Kept p q × At t q

pub unmoved : (s t : Loader) (p : Phase) → At s p → Same s t → Unmoved p t
unmoved s t p v h = (p, inl refl, Same-At s t p h v)

-- The control word of a datapath that is steady on the slot of `c`.
abbrev pub steady_on : ℕ → Ctrl → Ctrl
steady_on slot c = record {
  active_slot = slot;
  old_slot = slot;
  state = mig_steady;
  epoch = c.epoch;
}

pub in_use :
    (c : Ctrl) (hops : Map ℕ Endpoints) (p : Phase)
    → Holds c hops p
    → hops c.active_slot ≡ some (live p)
unfolding live
in_use c hops (steady e) (at, now) = now
in_use c hops (priming e new) (at, now, later) = now
in_use c hops (draining e old) (at, now, which, pinned) = now

pub settled :
    (t : Loader) (slot : ℕ) (c : Ctrl) (e : Endpoints)
    → IsCtrl c
    → slot < 2
    → t.migration_ctrl ≡ pack (steady_on slot c)
    → t.next_hops slot ≡ some e
    → At t (steady e)
settled t slot c e fits low word now =
    written t (steady_on slot c) (steady e)
      (record {
        active_fits = omega arith;
        old_fits = omega arith;
        state_fits = omega arith;
        epoch_fits = fits.epoch_fits;
      })
      low word (refl, now)
