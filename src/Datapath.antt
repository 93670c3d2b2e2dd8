-- ===== src/Datapath.antt =====
-- pkg/datapath/config.go, migration.go and pmtu.go: the next-hop slots of the BPF datapath and the
-- control word that says which of them are in use. The maps are the state; every map operation is a
-- system call of its own, and `fails` says which of the calls, counted from the start, the kernel
-- refuses.
pub mod Words
pub mod Triples
pub mod Phases
pub mod Ends
pub mod Starts
pub mod Refines
pub mod Flows
mod Examples
use Prim.Native.Nat.{bit_and, bit_or}
use minuteman.Base.{
  ℕ, zero, suc, ◌+◌, ◌-◌, ◌*◌, ◌/◌, ◌%◌, ◌^◌, ltb, ◌==◌, not, ◌&&◌, ◌||◌, if◌then◌else◌, Bool, true,
  false, Option, none, some, ite, ℕ_discrete, List, [], ◌∷◌,
}
use minuteman.Base.Maps.{Map, Key, empty, insert, delete}
use minuteman.Netip.{Addr, is_6, is_4_in_6}

instance abbrev pub slot_key : Key ℕ
slot_key = record { same = ℕ_discrete }

pub record Endpoints : Type 0 where
  pub b4 : Addr
  pub aftr : Addr

abbrev pub mig_steady : ℕ
mig_steady = 0

abbrev pub mig_priming : ℕ
mig_priming = 1

abbrev pub mig_draining : ℕ
mig_draining = 2

abbrev num_next_hops : ℕ
num_next_hops = 2

-- migrationCtrl.
pub record Ctrl : Type 0 where
  pub active_slot : ℕ
  pub old_slot : ℕ
  pub state : ℕ
  pub epoch : ℕ

pub pack : Ctrl → ℕ
pack c =
    bit_or
      (bit_or (bit_or (bit_and c.active_slot 0xff) (bit_and c.old_slot 0xff * 2 ^ 8))
        (bit_and c.state 0xff * 2 ^ 16))
      (bit_and c.epoch 0xff * 2 ^ 24)

unfoldable pub unpack : ℕ → Ctrl
unpack v = record {
  active_slot = bit_and v 0xff;
  old_slot = bit_and (v / 2 ^ 8) 0xff;
  state = bit_and (v / 2 ^ 16) 0xff;
  epoch = bit_and (v / 2 ^ 24) 0xff;
}

-- A path MTU that the datapath learned for a slot.
pub record Reading : Type 0 where
  pub mtu : ℕ
  pub updated_ns : ℕ

-- An entry of the flow-affinity table: what the program reads of its key and of its value.
pub record Flow : Type 0 where
  pub proto : ℕ
  pub epoch : ℕ
  pub last_seen_ns : ℕ

-- The BPF maps; a slot without endpoints is not valid. `calls` counts the system calls made.
pub record Loader : Type 0 where
  pub migration_ctrl : ℕ
  pub next_hops : Map ℕ Endpoints
  pub tunnel_pmtus : Map ℕ Reading
  pub flow_affinity : List Flow
  pub calls : ℕ

pub data Fault : Type 0 where
  kernel not_ipv6 in_progress wrong_state slot_live : Fault

pub data Result {ℓ} (A : Type ℓ) : Type ℓ where
  ok : A → Result A
  err : Fault → Result A

abbrev pub Act {ℓ} : Type ℓ → Type ℓ
Act A = Loader → Result A × Loader

pub pure {ℓ} : {A : Type ℓ} → A → Act A
pure a s = (ok a, s)

pub refuse {ℓ} : {A : Type ℓ} → Fault → Act A
refuse x s = (err x, s)

pub next {ℓ κ} : {A : Type ℓ} {B : Type κ} → (A → Act B) → Result A × Loader → Result B × Loader
next f (ok a, s) = f a s
next f (err x, s) = (err x, s)

infixl 5 ◌>>=◌
abbrev pub ◌>>=◌ {ℓ κ} : {A : Type ℓ} {B : Type κ} → Act A → (A → Act B) → Act B
(m >>= f) s = next f (m s)

pub require : Bool → Fault → Act (Unit {0})
require true x = pure tt
require false x = refuse x

abbrev pub resolvable : Ctrl → ℕ → Bool
resolvable c slot = slot == c.active_slot || (c.state == mig_draining && slot == c.old_slot)

is_some : Option Endpoints → Bool
is_some none = false
is_some (some e) = true

pub validate_softwire_addrs : Endpoints → Act (Unit {0})
validate_softwire_addrs e = do
  _ ← require (is_6 e.b4 && not (is_4_in_6 e.b4)) not_ipv6
  require (is_6 e.aftr && not (is_4_in_6 e.aftr)) not_ipv6

module _ (fails : ℕ → Bool) where
  -- One system call that reads.
  pub reads {ℓ} : {A : Type ℓ} → (Loader → A) → Act A
  reads f s = (if fails s.calls then err kernel else ok (f s), record s { calls = s.calls + 1 })

  -- One system call that writes.
  pub writes : (Loader → Loader) → Act (Unit {0})
  writes f s =
      if fails s.calls
      then (err kernel, record s { calls = s.calls + 1 })
      else (ok tt, record (f s) { calls = s.calls + 1 })

  pub read_ctrl : Act Ctrl
  read_ctrl = reads (λ s. unpack s.migration_ctrl)

  pub write_ctrl : Ctrl → Act (Unit {0})
  write_ctrl c = writes (λ s. record s { migration_ctrl = pack c })

  pub slot_is_live : Ctrl → ℕ → Act Bool
  slot_is_live c slot =
      if resolvable c slot then reads (λ s. is_some (s.next_hops slot)) else pure false

  clear_tunnel_pmtu : ℕ → Act (Unit {0})
  clear_tunnel_pmtu slot = writes (λ s. record s { tunnel_pmtus = delete slot s.tunnel_pmtus })

  pub write_next_hop : ℕ → Endpoints → Act (Unit {0})
  write_next_hop slot e = do
    c ← read_ctrl
    live ← slot_is_live c slot
    _ ← require (not live) slot_live
    _ ← clear_tunnel_pmtu slot
    writes (λ s. record s { next_hops = insert slot e s.next_hops })

  pub clear_next_hop : ℕ → Act (Unit {0})
  clear_next_hop slot = do
    _ ← writes (λ s. record s { next_hops = delete slot s.next_hops })
    clear_tunnel_pmtu slot

  pub begin_migration : Endpoints → Act (Unit {0})
  begin_migration e = do
    _ ← validate_softwire_addrs e
    c ← read_ctrl
    _ ← require (c.state == mig_steady) in_progress
    _ ← write_next_hop ((c.active_slot + 1) % num_next_hops) e
    write_ctrl (record {
      active_slot = c.active_slot;
      old_slot = c.active_slot;
      state = mig_priming;
      epoch = bit_and (c.epoch + 1) 0xff;
    })

  pub cutover : Act (Unit {0})
  cutover = do
    c ← read_ctrl
    _ ← require (c.state == mig_priming) wrong_state
    write_ctrl (record {
      active_slot = (c.active_slot + 1) % num_next_hops;
      old_slot = c.active_slot;
      state = mig_draining;
      epoch = c.epoch;
    })

  pub complete_migration : Act (Unit {0})
  complete_migration = do
    c ← read_ctrl
    _ ← require (c.state == mig_draining) wrong_state
    _ ← write_ctrl (record {
      active_slot = c.active_slot;
      old_slot = c.active_slot;
      state = mig_steady;
      epoch = c.epoch;
    })
    clear_next_hop c.old_slot

  pub abort_migration : Act (Unit {0})
  abort_migration = do
    c ← read_ctrl
    _ ← require (c.state == mig_priming) wrong_state
    _ ← write_ctrl (record {
      active_slot = c.active_slot;
      old_slot = c.active_slot;
      state = mig_steady;
      epoch = c.epoch;
    })
    clear_next_hop ((c.active_slot + 1) % num_next_hops)

  -- The switch of `SwitchAFTR` on the state that it finds.
  end_migration : ℕ → Act (Unit {0})
  end_migration state =
      if state == mig_priming
      then abort_migration
      else if state == mig_draining
      then complete_migration
      else pure tt

  pub switch_aftr : Endpoints → Act (Unit {0})
  switch_aftr e = do
    _ ← validate_softwire_addrs e
    found ← read_ctrl
    _ ← end_migration found.state
    c ← read_ctrl
    let free : ℕ = (c.active_slot + 1) % num_next_hops
    _ ← write_next_hop free e
    write_ctrl (record { active_slot = free; old_slot = free; state = mig_steady; epoch = c.epoch })

  -- The slots' part of `SetB4Config`, which the program calls once, on maps that are all zero.
  pub install : Endpoints → Act (Unit {0})
  install e = do
    _ ← validate_softwire_addrs e
    _ ← write_next_hop 0 e
    write_ctrl (record { active_slot = 0; old_slot = 0; state = mig_steady; epoch = 0 })

pub zeroed : Loader
zeroed = record {
  migration_ctrl = 0;
  next_hops = empty;
  tunnel_pmtus = empty;
  flow_affinity = [];
  calls = 0;
}
