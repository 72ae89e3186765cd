-- ===== src/Store/Ranking/Mapped.antt =====
-- store/store.go: paging and filters on lists whose rows are mapped.
use coinnews_indexer.Prelude.{
  ℕ, zero, suc, ◌≡◌, refl, ap, List, [], ◌∷◌, Bool, true, false, if◌then◌else◌, map, keep, length,
  take, drop, Bool-cases, inl, inr, ◌&&◌,
}
use coinnews_indexer.Prelude.Int.{ℤ, pos, pos_part, ltz, lez}
use coinnews_indexer.Store.Ranking.{page}

module _ {ℓ κ} {A : Type ℓ} {B : Type κ} (f : A → B) where
  length-map : (l : List A) → length (map f l) ≡ length l
  length-map [] = refl
  length-map (x ∷ l) = ap suc (length-map l)

  take-map : (n : ℕ) (l : List A) → take n (map f l) ≡ map f (take n l)
  take-map zero l = refl
  take-map (suc n) [] = refl
  take-map (suc n) (x ∷ l) = ap (◌∷◌ (f x)) (take-map n l)

  drop-map : (n : ℕ) (l : List A) → drop n (map f l) ≡ map f (drop n l)
  drop-map zero l = refl
  drop-map (suc n) [] = refl
  drop-map (suc n) (x ∷ l) = drop-map n l

  map-if : (b : Bool) (l r : List A) → (if b then map f l else map f r) ≡ map f (if b then l else r)
  map-if true l r = refl
  map-if false l r = refl

  pub page-map :
      (l : List A) (limit offset : ℤ) → page (map f l) limit offset ≡ map f (page l limit offset)
  unfolding page
  page-map l limit offset =
      let from = if ltz offset (pos 0) then pos 0 else offset in
      let rest = drop (pos_part from) l in
      rw
        (
          length-map l,
          drop-map (pos_part from) l,
          length-map rest,
          take-map (pos_part limit) rest,
          map-if (ltz (pos 0) limit && ltz limit (pos (length rest))) (take (pos_part limit) rest)
              rest,
        )
        (map-if (lez (pos (length l)) from) [] _)

  -- A filter on the mapped rows.
  pub keep-map :
      (p : B → Bool) (q : A → Bool)
      → ((x : A) → p (f x) ≡ q x)
      → (l : List A) → keep p (map f l) ≡ map f (keep q l)
  keep-map p q h [] = refl
  keep-map p q h (x ∷ l) = elim (Bool-cases (q x)) [
    | inl e ↦ rw (h x, e) (ap (◌∷◌ (f x)) (keep-map p q h l))
    | inr e ↦ rw (h x, e) (keep-map p q h l)
  ]
