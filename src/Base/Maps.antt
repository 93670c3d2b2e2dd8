-- ===== src/Base/Maps.antt =====
-- Go maps as functions into Option: reading, writing and deleting a key.
use mathlib.Core.Option.{Option, none, some}
use mathlib.Core.Logic.{ite}

-- The keys' equality test.
pub record Key {ℓ} (K : Type ℓ) : Type ℓ where
  pub same : Discrete K

abbrev pub Map {ℓ κ} : Type ℓ → Type κ → Type (ℓ ⊔ κ)
Map K V = K → Option V

module _ {ℓ κ} {K : Type ℓ} {V : Type κ} where
  abbrev pub empty : Map K V
  empty k = none

module _ {ℓ κ} {K : Type ℓ} {V : Type κ} ⦃e : Key K⦄ where
  abbrev pub insert : K → V → Map K V → Map K V
  insert k v m j = ite (e.same j k) (some v) (m j)

  abbrev pub delete : K → Map K V → Map K V
  delete k m j = ite (e.same j k) none (m j)
