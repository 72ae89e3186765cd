-- ===== src/Store/Sort/Laws.antt =====
-- The contract of Go's sort.SliceStable, and its model.
use mathlib.Core.List.{Perm}
use mathlib.Core.List.Perm
use coinnews_indexer.Prelude.{
  ◌≡◌, refl, ap, ◌∙◌, List, [], ◌∷◌, Bool, true, false, not, ◌&&◌, if◌then◌else◌, keep, All, arith,
  Bool-cases, inl, inr,
}
use coinnews_indexer.Store.Sort.{insert, slice_stable}

-- A strict weak order: `less` is asymmetric, and "not after" is transitive.
pub record IsWeakOrder {ℓ} {A : Type ℓ} (less : A → A → Bool) : Type ℓ where
  pub asym : (a b : A) → less a b ≡ true → less b a ≡ false
  pub trans : (a b c : A) → less b a ≡ false → less c b ≡ false → less c a ≡ false

module _ {ℓ} {A : Type ℓ} (less : A → A → Bool) where
  -- No element stands behind one that it should stand before.
  abbrev pub IsSorted : List A → Type ℓ
  IsSorted [] = Unit
  IsSorted (x ∷ xs) = All (λ y. less y x ≡ false) xs × IsSorted xs

  -- Neither stands before the other.
  abbrev pub ties : A → A → Bool
  ties a b = not (less a b) && not (less b a)

  -- The output is sorted, has the same elements, and keeps ties in the order of the input.
  pub record IsStableSort (input output : List A) : Type ℓ where
    pub sorted : IsSorted output
    pub perm : Perm output input
    pub stable : (a : A) → keep (ties a) output ≡ keep (ties a) input

  module _ (order : IsWeakOrder less) where
    All-insert :
        (z x : A) (ys : List A)
        → less x z ≡ false
        → All (λ y. less y z ≡ false) ys
        → All (λ y. less y z ≡ false) (insert less x ys)
    unfolding insert
    All-insert z x [] hx h = (hx, tt)
    All-insert z x (y ∷ ys) hx (hy, h) = elim (Bool-cases (less y x)) [
      | inl e ↦ rw e (hy, All-insert z x ys hx h)
      | inr e ↦ rw e (hx, (hy, h))
    ]

    All-weaken :
        (x y : A) (ys : List A)
        → less y x ≡ false
        → All (λ z. less z y ≡ false) ys
        → All (λ z. less z x ≡ false) ys
    All-weaken x y [] h hs = tt
    All-weaken x y (z ∷ ys) h (hz, hs) = (order.trans x y z h hz, All-weaken x y ys h hs)

    insert-IsSorted : (x : A) (ys : List A) → IsSorted ys → IsSorted (insert less x ys)
    unfolding insert
    insert-IsSorted x [] h = (tt, tt)
    insert-IsSorted x (y ∷ ys) (hy, h) = elim (Bool-cases (less y x)) [
      | inl e ↦ rw e (All-insert y x ys (order.asym y x e) hy, insert-IsSorted x ys h)
      | inr e ↦ rw e ((e, All-weaken x y ys e hy), (hy, h))
    ]

    insert-perm : (x : A) (ys : List A) → Perm (insert less x ys) (x ∷ ys)
    unfolding insert
    insert-perm x [] = Perm.refl (x ∷ [])
    insert-perm x (y ∷ ys) = elim (Bool-cases (less y x)) [
      | inl e ↦ rw e (Perm.trans (Perm.cons y (insert-perm x ys)) (Perm.swap x y ys))
      | inr e ↦ rw e (Perm.refl (x ∷ y ∷ ys))
    ]

    not_both : (a x y : A) → less y x ≡ true → (ties a x && ties a y) ≡ false
    not_both a x y e = ground (arith, order.trans x a y)

    keep-insert :
        (a x : A) (ys : List A) → keep (ties a) (insert less x ys) ≡ keep (ties a) (x ∷ ys)
    unfolding insert
    keep-insert a x [] = refl
    keep-insert a x (y ∷ ys) = elim (Bool-cases (less y x)) [
      | inl e ↦ rw e (rw (keep-insert a x ys) (swap_kept (ties a) x y ys (not_both a x y e)))
      | inr e ↦ rw e
    ]
      where
        swap_kept :
            (p : A → Bool) (x y : A) (ys : List A)
            → (p x && p y) ≡ false
            → keep p (y ∷ x ∷ ys) ≡ keep p (x ∷ y ∷ ys)
        swap_kept p x y ys h = ground arith

    pub slice_stable-IsStableSort : (l : List A) → IsStableSort l (slice_stable less l)
    unfolding slice_stable
    slice_stable-IsStableSort [] = record { sorted = tt; perm = Perm.refl []; stable = λ a. refl }
    slice_stable-IsStableSort (x ∷ xs) =
        let ih = slice_stable-IsStableSort xs in
        record {
          sorted = insert-IsSorted x (slice_stable less xs) ih.sorted;
          perm = Perm.trans (insert-perm x (slice_stable less xs)) (Perm.cons x ih.perm);
          stable = λ a.
              keep-insert a x (slice_stable less xs)
              ∙ keep_cons (ties a) x (slice_stable less xs) xs (ih.stable a);
        }
      where
        keep_cons :
            (p : A → Bool) (x : A) (l m : List A)
            → keep p l ≡ keep p m
            → keep p (x ∷ l) ≡ keep p (x ∷ m)
        keep_cons p x l m h = ap (λ r. if p x then x ∷ r else r) h
