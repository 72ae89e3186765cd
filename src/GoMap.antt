-- ===== src/GoMap.antt =====
-- Go's maps: association lists with at most one entry for a key. The order of the list is the
-- order in which a `range` loop meets the entries, which Go leaves open: the lists of a
-- theorem are arbitrary.
pub mod Laws
use coinnews_indexer.Prelude.{ℕ, ◌≡◌, List, [], ◌∷◌, Option, none, some, Bool, if◌then◌else◌, Eq}

abbrev pub GoMap {ℓ κ} : Type ℓ → Type κ → Type (ℓ ⊔ κ)
GoMap K V = List (K × V)

module _ {ℓ κ} {K : Type ℓ} {V : Type κ} ⦃e : Eq K⦄ where
  -- `v, ok := m[k]`
  unfoldable pub get : GoMap K V → K → Option V
  get [] k = none
  get ((j, v) ∷ m) k = if e.beq j k then some v else get m k

  -- `m[k] = v`
  unfoldable pub put : GoMap K V → K → V → GoMap K V
  put [] k v = (k, v) ∷ []
  put ((j, w) ∷ m) k v = if e.beq j k then (k, v) ∷ m else (j, w) ∷ put m k v

  -- `delete(m, k)`
  unfoldable pub delete : GoMap K V → K → GoMap K V
  delete [] k = []
  delete ((j, w) ∷ m) k = let rest = delete m k in if e.beq j k then rest else (j, w) ∷ rest

  -- A `range` loop that deletes the entries whose value fails the test.
  unfoldable pub retain : (V → Bool) → GoMap K V → GoMap K V
  retain p [] = []
  retain p ((j, w) ∷ m) = let rest = retain p m in if p w then (j, w) ∷ rest else rest

  -- No key has two entries.
  abbrev pub Distinct : GoMap K V → Type (ℓ ⊔ κ)
  Distinct [] = Unit
  Distinct ((j, v) ∷ m) = (get m j ≡ none) × Distinct m

module _ {ℓ κ μ} {K : Type ℓ} {V : Type κ} where
  -- Every entry has the property.
  abbrev pub Holds : (K → V → Type μ) → GoMap K V → Type μ
  Holds P [] = Unit
  Holds P ((j, v) ∷ m) = P j v × Holds P m
