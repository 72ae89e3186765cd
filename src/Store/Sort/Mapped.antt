-- ===== src/Store/Sort/Mapped.antt =====
-- sort.SliceStable on a list whose elements are mapped.
use coinnews_indexer.Prelude.{◌≡◌, refl, ap, ◌∙◌, List, [], ◌∷◌, Bool, map, Bool-cases, inl, inr}
use coinnews_indexer.Store.Sort.{insert, slice_stable}

module _ {ℓ κ} {A : Type ℓ} {B : Type κ} (f : A → B) where
  module _ (less : B → B → Bool) (less' : A → A → Bool)
      (same : (x y : A) → less (f x) (f y) ≡ less' x y) where
    insert-map : (x : A) (l : List A) → insert less (f x) (map f l) ≡ map f (insert less' x l)
    unfolding insert
    insert-map x [] = refl
    insert-map x (y ∷ l) = elim (Bool-cases (less' y x)) [
      | inl e ↦ rw (same y x, e) (ap (◌∷◌ (f y)) (insert-map x l))
      | inr e ↦ rw (same y x, e) refl
    ]

    -- A stable sort by an order that the map keeps.
    pub slice_stable-map : (l : List A) → slice_stable less (map f l) ≡ map f (slice_stable less' l)
    unfolding slice_stable
    slice_stable-map [] = refl
    slice_stable-map (x ∷ l) =
        ap (insert less (f x)) (slice_stable-map l) ∙ insert-map x (slice_stable less' l)
