-- ===== src/GoMap/Laws.antt =====
-- What the operations of Go's maps do to lookups and to keys.
use coinnews_indexer.Prelude.{
  ◌≡◌, ◌≢◌, refl, ap, [], ◌∷◌, Option, none, some, Bool, if◌then◌else◌, Eq, arith, refl_beq,
  Bool-cases, inl, inr, beq_sym,
}
use mathlib.Core.Path.{subst}
use coinnews_indexer.GoMap.{GoMap, get, put, delete, retain, Distinct, Holds}

abbrev pub if_kept {ℓ} : {V : Type ℓ} → (V → Bool) → Option V → Option V
if_kept p none = none
if_kept p (some v) = if p v then some v else none

module _ {ℓ κ} {K : Type ℓ} {V : Type κ} ⦃e : Eq K⦄ where
  pub get-put :
      (m : GoMap K V) (k j : K) (v : V)
      → get (put m k v) j ≡ (if e.beq k j then some v else get m j)
  unfolding get put
  get-put [] k j v = refl
  get-put ((i, w) ∷ m) k j v =
      ground (arith, e.beq_iff i k, e.beq_iff i j, e.beq_iff k j, get-put m k j v)

  pub put-put : (m : GoMap K V) (k : K) (v : V) → put (put m k v) k v ≡ put m k v
  unfolding put
  put-put [] k v = ground (arith, refl_beq k)
  put-put ((j, w) ∷ m) k v = ground (arith, refl_beq k, put-put m k v)

  pub put-get : (m : GoMap K V) (k : K) (v : V) → get m k ≡ some v → put m k v ≡ m
  unfolding get put
  put-get [] k v h = ground (arith, h)
  put-get ((j, w) ∷ m) k v h = elim (Bool-cases (e.beq j k)) [
    | inl same ↦ let q : w ≡ v = cc (rw same at h) in rw (same, (e.beq_iff j k).0 same, q) refl
    | inr other ↦ rw other (ap (λ l. (j, w) ∷ l) (put-get m k v (rw other at h)))
  ]

  pub put-kept : (m : GoMap K V) (k j : K) (v : V) → get m j ≢ none → get (put m k v) j ≢ none
  put-kept m k j v h = ground (arith, h, get-put m k j v)

  pub get-delete :
      (m : GoMap K V) (k j : K) → get (delete m k) j ≡ (if e.beq k j then none else get m j)
  unfolding get delete
  get-delete [] k j = ground arith
  get-delete ((i, w) ∷ m) k j =
      ground (arith, e.beq_iff i k, e.beq_iff i j, e.beq_iff k j, get-delete m k j)

  pub Distinct-put : (m : GoMap K V) (k : K) (v : V) → Distinct m → Distinct (put m k v)
  unfolding get put
  Distinct-put [] k v h = (refl, tt)
  Distinct-put ((i, w) ∷ m) k v (fresh, h) = elim (Bool-cases (e.beq i k)) [
    | inl same ↦ rw same (rw ((e.beq_iff i k).0 same) at fresh, h)
    | inr other ↦ rw other (rw (get-put m k i v, beq_sym k i, other) fresh, Distinct-put m k v h)
  ]

  pub Distinct-delete : (m : GoMap K V) (k : K) → Distinct m → Distinct (delete m k)
  unfolding get delete
  Distinct-delete [] k h = tt
  Distinct-delete ((i, w) ∷ m) k (fresh, h) = elim (Bool-cases (e.beq i k)) [
    | inl same ↦ rw same (Distinct-delete m k h)
    | inr other ↦ rw other (rw (get-delete m k i, beq_sym k i, other) fresh, Distinct-delete m k h)
  ]

  get-retain-none :
      (p : V → Bool) (m : GoMap K V) (k : K) → get m k ≡ none → get (retain p m) k ≡ none
  unfolding get retain
  get-retain-none p [] k h = refl
  get-retain-none p ((i, w) ∷ m) k h = ground (arith, get-retain-none p m k)

  -- After a loop that deletes what fails the test, a key has its value if it passes.
  pub get-retain :
      (p : V → Bool) (m : GoMap K V) (k : K) → Distinct m → get (retain p m) k ≡ if_kept p (get m k)
  unfolding get retain
  get-retain p [] k h = refl
  get-retain p ((i, w) ∷ m) k (fresh, h) = elim (Bool-cases (e.beq i k)) [
    | inl same ↦ ground (arith, get-retain-none p m k (rw ((e.beq_iff i k).0 same) at fresh))
    | inr other ↦ ground (arith, get-retain p m k h)
  ]

  pub Distinct-retain : (p : V → Bool) (m : GoMap K V) → Distinct m → Distinct (retain p m)
  unfolding retain
  Distinct-retain p [] h = tt
  Distinct-retain p ((i, w) ∷ m) (fresh, h) = elim (Bool-cases (p w)) [
    | inl kept ↦ rw kept (get-retain-none p m i fresh, Distinct-retain p m h)
    | inr gone ↦ rw gone (Distinct-retain p m h)
  ]

module _ {ℓ κ μ} {K : Type ℓ} {V : Type κ} ⦃e : Eq K⦄ (P : K → V → Type μ) where
  pub Holds-put : (m : GoMap K V) (k : K) (v : V) → P k v → Holds P m → Holds P (put m k v)
  unfolding put
  Holds-put [] k v h hm = (h, tt)
  Holds-put ((i, w) ∷ m) k v h (hw, hm) = elim (Bool-cases (e.beq i k)) [
    | inl same ↦ rw same (h, hm)
    | inr other ↦ rw other (hw, Holds-put m k v h hm)
  ]

  pub Holds-delete : (m : GoMap K V) (k : K) → Holds P m → Holds P (delete m k)
  unfolding delete
  Holds-delete [] k hm = tt
  Holds-delete ((i, w) ∷ m) k (hw, hm) = elim (Bool-cases (e.beq i k)) [
    | inl same ↦ rw same (Holds-delete m k hm)
    | inr other ↦ rw other (hw, Holds-delete m k hm)
  ]

  pub Holds-retain : (p : V → Bool) (m : GoMap K V) → Holds P m → Holds P (retain p m)
  unfolding retain
  Holds-retain p [] hm = tt
  Holds-retain p ((i, w) ∷ m) (hw, hm) = elim (Bool-cases (p w)) [
    | inl kept ↦ rw kept (hw, Holds-retain p m hm)
    | inr gone ↦ rw gone (Holds-retain p m hm)
  ]

  pub Holds-get : (m : GoMap K V) (k : K) {v : V} → Holds P m → get m k ≡ some v → P k v
  unfolding get
  Holds-get [] k hm h = cc
  Holds-get ((i, w) ∷ m) k {v} (hw, hm) h = elim (Bool-cases (e.beq i k)) [
    | inl same ↦
        let found : w ≡ v = cc (rw same at h) in
        subst (P k) found (rw ((e.beq_iff i k).0 same) at hw)
    | inr other ↦ Holds-get m k hm (rw other at h)
  ]
