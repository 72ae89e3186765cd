-- ===== src/Store/Sort/Unique.antt =====
-- sort.SliceStable of lists without ties: the result does not depend on the order of the input.
use mathlib.Core.List.{Perm, Mem}
use mathlib.Core.List as List
use mathlib.Core.List.Perm
use mathlib.Core.Path.{subst}
use mathlib.Core.Bool.{Bool-set}
use mathlib.Core.Logic.{∥∥₁_elim}
use coinnews_indexer.Prelude.{
  inl, inr, ◌≡◌, sym, ap, ◌∙◌, List, [], ◌∷◌, Bool, true, false, All, arith,
}
use coinnews_indexer.Store.Sort.{slice_stable}
use coinnews_indexer.Store.Sort.Laws.{IsWeakOrder, IsSorted, ties, slice_stable-IsStableSort}

-- Level elements are equal.
abbrev pub NoTies {ℓ} : {A : Type ℓ} → (A → A → Bool) → List A → Type ℓ
NoTies {A} level l = (a b : A) → Mem a l → Mem b l → level a b ≡ true → a ≡ b

module _ {ℓ} {A : Type ℓ} (less : A → A → Bool) (order : IsWeakOrder less) where
  irrefl : (a : A) → less a a ≡ false
  irrefl a = ground (arith, order.asym a a)

  not_before : (x y : A) (l : List A) → All (λ z. less z x ≡ false) l → Mem y l → less y x ≡ false
  not_before x y [] h m = absurd (List.not-mem-nil m)
  not_before x y (z ∷ l) (hz, h) m =
      ∥∥₁_elim (List.eq-or-mem_of_mem-cons m) (Bool-set (less y x) false)
        (λ o. elim o [ inl e ↦ ap (λ u. less u x) e ∙ hz | inr i ↦ not_before x y l h i ])

  pub sorted_unique :
      (l l' : List A)
      → IsSorted less l
      → IsSorted less l'
      → Perm l l'
      → NoTies (ties less) l
      → l ≡ l'
  sorted_unique [] l' h h' p t = Perm.nil-eq p
  sorted_unique (x ∷ xs) [] h h' p t = Perm.eq-nil p
  sorted_unique (x ∷ xs) (y ∷ ys) (hx, h) (hy, h') p t =
      let in_first : Mem y (x ∷ xs) = (Perm.mem_iff p).1 List.mem-cons_self in
      let in_second : Mem x (y ∷ ys) = (Perm.mem_iff p).0 List.mem-cons_self in
      let one = not_before x y (x ∷ xs) (irrefl x, hx) in_first in
      let two = not_before y x (y ∷ ys) (irrefl y, hy) in_second in
      let same : x ≡ y = t x y List.mem-cons_self in_first (ground (arith, one, two)) in
      let rest : Perm xs ys = Perm.cons_inv (subst (λ z. Perm (x ∷ xs) (z ∷ ys)) (sym same) p) in
      ap (λ z. z ∷ xs) same
      ∙ ap (λ l. y ∷ l)
          (sorted_unique xs ys h h' rest
            (λ a b i j. t a b (List.mem-cons_of_mem x i) (List.mem-cons_of_mem x j)))

  pub slice_stable-Perm :
      (l l' : List A)
      → Perm l l'
      → NoTies (ties less) l
      → slice_stable less l ≡ slice_stable less l'
  slice_stable-Perm l l' p t =
      let s = slice_stable-IsStableSort less order l in
      let s' = slice_stable-IsStableSort less order l' in
      sorted_unique _ _ s.sorted s'.sorted (Perm.trans s.perm (Perm.trans p (Perm.symm s'.perm)))
        (λ a b i j. t a b ((Perm.mem_iff s.perm).0 i) ((Perm.mem_iff s.perm).0 j))
