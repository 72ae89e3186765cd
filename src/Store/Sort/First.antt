-- ===== src/Store/Sort/First.antt =====
-- The first of a sorted list, ORDER BY ... LIMIT 1, against a loop that keeps the least so far.
use coinnews_indexer.Prelude.{
  ◌≡◌, refl, sym, ap, ◌∙◌, List, [], ◌∷◌, All, Option, none, some, Bool, if◌then◌else◌, arith,
  Bool-cases, inl, inr,
}
use coinnews_indexer.Store.Sort.{insert, slice_stable}
use coinnews_indexer.Store.Sort.Laws.{IsWeakOrder}

abbrev pub first {ℓ} : {A : Type ℓ} → List A → Option A
first [] = none
first (x ∷ xs) = some x

module _ {ℓ} {A : Type ℓ} (less : A → A → Bool) where
  abbrev pub lesser : Option A → A → A
  lesser none b = b
  lesser (some h) b = if less h b then h else b

  unfoldable pub keep_least : A → List A → A
  keep_least b [] = b
  keep_least b (x ∷ xs) = keep_least (if less x b then x else b) xs

  first-insert : (x : A) (l : List A) → first (insert less x l) ≡ some (lesser (first l) x)
  unfolding insert
  first-insert x [] = refl
  first-insert x (y ∷ ys) = ground arith

  module _ (w : IsWeakOrder less) where
    lesser-lesser :
        (h x b : A)
        → lesser (some h) (if less x b then x else b) ≡ lesser (some (lesser (some h) x)) b
    lesser-lesser h x b = ground (arith, w.asym x b, w.trans x b h, w.trans b x h)

    keep_least-first :
        (b : A) (xs : List A) → keep_least b xs ≡ lesser (first (slice_stable less xs)) b
    unfolding keep_least slice_stable
    keep_least-first b [] = refl
    keep_least-first b (x ∷ xs) =
        keep_least-first (if less x b then x else b) xs
        ∙ both_ways (first (slice_stable less xs))
        ∙ ap (λ o. lesser o b) (sym (first-insert x (slice_stable less xs)))
      where
        both_ways :
            (o : Option A) → lesser o (if less x b then x else b) ≡ lesser (some (lesser o x)) b
        both_ways none = refl
        both_ways (some h) = lesser-lesser h x b

    pub first-slice_stable :
        (b : A) (xs : List A) → first (slice_stable less (b ∷ xs)) ≡ some (keep_least b xs)
    unfolding slice_stable
    first-slice_stable b xs =
        first-insert b (slice_stable less xs) ∙ ap some (sym (keep_least-first b xs))

  insert-All : (P : A → Type 0) (x : A) (l : List A) → P x → All P l → All P (insert less x l)
  unfolding insert
  insert-All P x [] h k = (h, tt)
  insert-All P x (y ∷ ys) h (hy, k) = elim (Bool-cases (less y x)) [
    | inl e ↦ rw e (hy, insert-All P x ys h k)
    | inr e ↦ rw e (h, (hy, k))
  ]

  pub slice_stable-All : (P : A → Type 0) (l : List A) → All P l → All P (slice_stable less l)
  unfolding slice_stable
  slice_stable-All P [] h = tt
  slice_stable-All P (x ∷ xs) (hx, h) =
      insert-All P x (slice_stable less xs) hx (slice_stable-All P xs h)
