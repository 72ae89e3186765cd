-- ===== src/Store/Sqlite/Refines/Engine.antt =====
-- store/sqlite.go: the statements, the transactions and the failures of the engine.
use coinnews_indexer.Prelude.{
  ℕ, ◌≡◌, refl, List, [], ◌∷◌, ◌++◌, Option, none, some, length, bytes_eq, Option-cases, inl, inr,
}
use coinnews_indexer.Prelude.Int.{ℤ}
use coinnews_indexer.Codec.Types.{Error, Result, ok, err}
use coinnews_indexer.Store.Interface.{◌>>=◌}
use coinnews_indexer.Store.Memory.{MemoryStore}
use coinnews_indexer.Store.Sqlite.{
  Db, statement, all_of, transaction, boundary, rolled_back, delete_statements,
}
use coinnews_indexer.Store.Sqlite.Schema.{Tables}
use coinnews_indexer.Store.Sqlite.Atomic.{attempt, guarded}
use coinnews_indexer.Store.Sqlite.Refines.Rewinds.{Runs, rewound, delete_statements-Runs}

module _ {E : Type 0} (engine : E → Option Error × E) where
  pub statement-fails :
      {T A : Type 0} (f : T → Result (A × T)) (e : E) (t : T) (x : Error)
      → (engine e).0 ≡ some x
      → statement engine f (record { engine = e; tables = t })
        ≡ (err x, record { engine = (engine e).1; tables = t })
  unfolding statement
  statement-fails f e t x h = rw h

  pub statement-runs :
      {T A : Type 0} (f : T → Result (A × T)) (e : E) (t u : T) (a : A)
      → (engine e).0 ≡ none
      → f t ≡ ok (a, u)
      → statement engine f (record { engine = e; tables = t })
        ≡ (ok a, record { engine = (engine e).1; tables = u })
  unfolding statement
  statement-runs f e t u a h k = rw (h, k)

  pub guarded-fails :
      {A : Type 0} (n : ℕ) (g : MemoryStore → A × MemoryStore) (e : E) (m : MemoryStore) (x : Error)
      → (attempt engine n e).0 ≡ some x
      → guarded engine n g (record { engine = e; tables = m })
        ≡ (err x, record { engine = (attempt engine n e).1; tables = m })
  unfolding guarded
  guarded-fails n g e m x h = rw h

  pub guarded-runs :
      {A : Type 0} (n : ℕ) (g : MemoryStore → A × MemoryStore) (e : E) (m : MemoryStore)
      → (attempt engine n e).0 ≡ none
      → guarded engine n g (record { engine = e; tables = m })
        ≡ (ok (g m).0, record { engine = (attempt engine n e).1; tables = (g m).1 })
  unfolding guarded
  guarded-runs n g e m h = rw h

  pub attempt-one : (e : E) → attempt engine 1 e ≡ engine e
  unfolding attempt
  attempt-one e = elim (Option-cases (engine e).0) [
    | inr (x, h) ↦ rw (attempt, h)
    | inl h ↦ rw (attempt, h)
  ]

  -- Statements that would all succeed stand or fall together.
  abbrev pub settles : {T : Type 0} → T → T → Option Error × E → Result (Unit {0}) × Db E T
  settles before after (some x, e) = (err x, record { engine = e; tables = before })
  settles before after (none, e) = (ok tt, record { engine = e; tables = after })

  pub all_of-attempt :
      {T : Type 0} (fs : List (T → Result (Unit {0} × T))) (e : E) (before t u : T)
      → Runs fs t u
      → rolled_back engine before (all_of engine fs (record { engine = e; tables = t }))
        ≡ settles before u (attempt engine (length fs) e)
  unfolding all_of attempt Runs ◌>>=◌
  all_of-attempt [] e before t u h = rw h
  all_of-attempt (f ∷ fs) e before t u (v, k, h) = elim (Option-cases (engine e).0) [
    | inr (x, fails) ↦ rw (statement-fails f e t x fails, fails)
    | inl fine ↦
        rw (statement-runs f e t v tt fine k, fine) (all_of-attempt fs (engine e).1 before v u h)
  ]

  pub Runs-boundary :
      {T : Type 0} (fs : List (T → Result (Unit {0} × T))) (t u : T)
      → Runs fs t u
      → Runs (fs ++ (boundary engine ∷ [])) t u
  unfolding Runs
  Runs-boundary [] t u h = (t, refl, h)
  Runs-boundary (f ∷ fs) t u (v, k, h) = (v, k, Runs-boundary fs v u h)

  -- `DeleteFromHeight` of the SQLite backend is atomic: it runs BEGIN, its six statements and
  -- COMMIT, and if the engine fails one of these the tables are as they were and the engine's error
  -- is returned; else all rows on the height or above are gone, the stories and comments of the
  -- items that go with them, and no foreign key is violated on the way.
  pub delete_from_height-atomic :
      (h : ℤ) (e : E) (t : Tables)
      → transaction engine (delete_statements h) (record { engine = e; tables = t })
        ≡ settles t (rewound h t) (attempt engine 8 e)
  unfolding transaction Runs delete_statements
  delete_from_height-atomic h e t =
      all_of-attempt (boundary engine ∷ (delete_statements h ++ (boundary engine ∷ []))) e t t
        (rewound h t)
        (t, refl, Runs-boundary (delete_statements h) t (rewound h t) (delete_statements-Runs h t))
