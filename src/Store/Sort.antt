-- ===== src/Store/Sort.antt =====
-- sort.SliceStable of Go's standard library: the stable sort by a `less` function.
pub mod First
pub mod Laws
pub mod Mapped
pub mod Unique
use coinnews_indexer.Prelude.{ℕ, List, [], ◌∷◌, Bool, if◌then◌else◌}

module _ {ℓ} {A : Type ℓ} (less : A → A → Bool) where
  pub insert : A → List A → List A
  insert x [] = x ∷ []
  insert x (y ∷ ys) = if less y x then y ∷ insert x ys else x ∷ y ∷ ys

  unfoldable pub slice_stable : List A → List A
  unfolding insert
  slice_stable [] = []
  slice_stable (x ∷ xs) = insert x (slice_stable xs)
