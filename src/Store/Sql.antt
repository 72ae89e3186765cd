-- ===== src/Store/Sql.antt =====
-- What the SQL statements of store/sqlite.go do to a table: a list of rows in the order of insertion,
-- which is also the order in which a SELECT with no ORDER BY lists them here.
pub mod Laws
use coinnews_indexer.Prelude.{
  ℕ, zero, suc, List, [], ◌∷◌, ◌++◌, Option, none, some, Bool, true, false, not, ◌||◌,
  if◌then◌else◌, Eq,
}

module _ {ℓ κ} {K : Type ℓ} {A : Type κ} ⦃e : Eq K⦄ (key : A → K) where
  -- SELECT * FROM t WHERE key = ?
  unfoldable pub find_by : List A → K → Option A
  find_by [] k = none
  find_by (r ∷ rows) k = if e.beq (key r) k then some r else find_by rows k

  -- INSERT INTO t VALUES ... ON CONFLICT(key) DO UPDATE SET all columns WHERE guard(new, old)
  unfoldable pub upsert : (A → A → Bool) → A → List A → List A
  upsert guard new [] = new ∷ []
  upsert guard new (r ∷ rows) =
      if e.beq (key r) (key new)
      then (if guard new r then new ∷ rows else r ∷ rows)
      else r ∷ upsert guard new rows

module _ {ℓ} {A : Type ℓ} where
  -- EXISTS (SELECT 1 FROM t WHERE test)
  unfoldable pub any : (A → Bool) → List A → Bool
  any p [] = false
  any p (r ∷ rows) = p r || any p rows

  -- SELECT COUNT(*) FROM t WHERE test
  unfoldable pub count : (A → Bool) → List A → ℕ
  count p [] = 0
  count p (r ∷ rows) = let n = count p rows in if p r then suc n else n
