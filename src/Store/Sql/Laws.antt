-- ===== src/Store/Sql/Laws.antt =====
-- Tables read as Go's maps.
use coinnews_indexer.Prelude.{
  ◌≡◌, refl, sym, ap, ◌∙◌, List, [], ◌∷◌, ◌++◌, Option, none, some, Bool, false, not, ◌&&◌, arith,
  if◌then◌else◌, keep, All, Eq, refl_beq, Bool-cases, Option-cases, All-map, inl, inr,
}
use coinnews_indexer.GoMap.{GoMap, get, put, delete, retain, Distinct, Holds}
use coinnews_indexer.Store.Sql.{find_by, upsert, any}

module _ {ℓ κ μ} {K : Type ℓ} {A : Type κ} {B : Type μ} ⦃e : Eq K⦄ (key : A → K)
    (read : A → B) where
  -- The rows under their keys.
  unfoldable pub keyed : List A → GoMap K B
  keyed [] = []
  keyed (r ∷ rows) = (key r, read r) ∷ keyed rows

  abbrev pub read_row : Option A → Option B
  read_row none = none
  read_row (some r) = some (read r)

  pub get-keyed : (rows : List A) (k : K) → get (keyed rows) k ≡ read_row (find_by key rows k)
  unfolding get keyed find_by
  get-keyed [] k = refl
  get-keyed (r ∷ rows) k = ground (arith, get-keyed rows k)

  pub keyed-append :
      (rows : List A) (r : A)
      → find_by key rows (key r) ≡ none
      → put (keyed rows) (key r) (read r) ≡ keyed (rows ++ (r ∷ []))
  unfolding put keyed find_by
  keyed-append [] r h = refl
  keyed-append (x ∷ rows) r h = ground (arith, keyed-append rows r)

  pub keyed-retain :
      (p : B → Bool) (rows : List A) → retain p (keyed rows) ≡ keyed (keep (λ r. p (read r)) rows)
  unfolding retain keyed
  keyed-retain p [] = refl
  keyed-retain p (r ∷ rows) = ground (arith, keyed-retain p rows)

  pub keyed-delete :
      (k : K) (rows : List A)
      → delete (keyed rows) k ≡ keyed (keep (λ r. not (e.beq (key r) k)) rows)
  unfolding delete keyed
  keyed-delete k [] = refl
  keyed-delete k (r ∷ rows) = ground (arith, keyed-delete k rows)

  abbrev pub put_if : (A → A → Bool) → A → List A → Option A → GoMap K B
  put_if guard new rows none = put (keyed rows) (key new) (read new)
  put_if guard new rows (some old) =
      if guard new old then put (keyed rows) (key new) (read new) else keyed rows

  pub keyed-upsert :
      (guard : A → A → Bool) (new : A) (rows : List A)
      → put_if guard new rows (find_by key rows (key new)) ≡ keyed (upsert key guard new rows)
  unfolding put keyed find_by upsert
  keyed-upsert guard new [] = refl
  keyed-upsert guard new (r ∷ rows) = elim (Option-cases (find_by key rows (key new))) [
    | inl h ↦ ground (arith, keyed-upsert guard new rows)
    | inr (old, h) ↦ ground (arith, keyed-upsert guard new rows)
  ]

  find_later :
      (r x : A) (rows : List A)
      → get (keyed rows) (key r) ≡ none
      → find_by key rows (key x) ≡ some x
      → find_by key (r ∷ rows) (key x) ≡ some x
  unfolding find_by
  find_later r x rows fresh m = elim (Bool-cases (e.beq (key r) (key x))) [
    | inl same ↦ cc (
        sym fresh
        ∙ get-keyed rows (key r)
        ∙ ap read_row (ap (find_by key rows) ((e.beq_iff (key r) (key x)).0 same) ∙ m))
    | inr other ↦ rw other m
  ]

  -- With distinct keys, a row is found under its key.
  pub Distinct-find :
      (rows : List A) → Distinct (keyed rows) → All (λ r. find_by key rows (key r) ≡ some r) rows
  unfolding keyed find_by
  Distinct-find [] h = tt
  Distinct-find (r ∷ rows) (fresh, h) = (
    ground (arith, refl_beq (key r)),
    All-map _ _ (λ x m. find_later r x rows fresh m) rows (Distinct-find rows h),
  )

module _ {ℓ} {A : Type ℓ} where
  pub keep-keep :
      (p q : A → Bool) (rows : List A) → keep p (keep q rows) ≡ keep (λ r. q r && p r) rows
  keep-keep p q [] = refl
  keep-keep p q (r ∷ rows) = ground (arith, keep-keep p q rows)

  pub keep_congr :
      (p q : A → Bool) (rows : List A) → All (λ r. p r ≡ q r) rows → keep p rows ≡ keep q rows
  keep_congr p q [] h = refl
  keep_congr p q (r ∷ rows) (hr, h) = rw (hr, keep_congr p q rows h)

  pub keep_ext :
      (p q : A → Bool) → ((r : A) → p r ≡ q r) → (rows : List A) → keep p rows ≡ keep q rows
  keep_ext p q h [] = refl
  keep_ext p q h (r ∷ rows) = rw (h r, keep_ext p q h rows)

  pub any-keep : (p : A → Bool) (rows : List A) → any p (keep (λ r. not (p r)) rows) ≡ false
  unfolding any
  any-keep p [] = refl
  any-keep p (r ∷ rows) = ground (arith, any-keep p rows)

module _ {R V K : Type 0} ⦃e : Eq K⦄ (key : R → K) (val : R → V) where
  -- No row has a key under which nothing is kept.
  pub keys_kept :
      (F : K → Type 0) (rows : List R)
      → ((k : K) → F k → get (keyed key val rows) k ≡ none)
      → All (λ r. ¬ F (key r)) rows
  unfolding keyed get
  keys_kept F [] h = tt
  keys_kept F (r ∷ rows) h = (
    λ f. ground (arith, h (key r) f, refl_beq (key r)),
    keys_kept F rows λ k f. ground (arith, h k f),
  )

  pub keyed-All :
      (P : K → V → Type 0) (rows : List R)
      → Holds P (keyed key val rows)
      → All (λ r. P (key r) (val r)) rows
  unfolding keyed
  keyed-All P [] h = tt
  keyed-All P (r ∷ rows) (hr, h) = (hr, keyed-All P rows h)
