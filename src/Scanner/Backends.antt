-- ===== src/Scanner/Backends.antt =====
-- scanner/scanner.go over the two backends, store/sqlite.go and store/memory.go.
pub mod Refined
pub mod InMemory
use coinnews_indexer.Prelude.{
  ℕ, zero, suc, ◌≡◌, refl, sym, ap, ◌∙◌, List, [], ◌∷◌, ◌++◌, Option, none, some, Bool, true, false,
  not, ◌&&◌, length, arith, bytes_beq, bytes_eq, refl_beq, Option-cases, Bool-cases, inl, inr,
}
use coinnews_indexer.Prelude.Int.{ℤ}
use coinnews_indexer.Codec.Types.{Bytes, Error, Result, ok, err}
use coinnews_indexer.Codec.Crypto.{Crypto}
use coinnews_indexer.Store.Types.{Item, Topic, Story, Comment, Vote, Continuation}
use coinnews_indexer.Store.Interface.{Io, ◌>>=◌, ◌>>◌, continue}
use coinnews_indexer.Store.Sql.{any, find_by}
use coinnews_indexer.Store.Memory as Memory
use coinnews_indexer.Store.Memory.{MemoryStore, new_memory}
use coinnews_indexer.Store.Sqlite.{
  Db, statement, all_of, transaction, boundary, rolled_back, on_db, sqlite_store, put_item,
  put_story, put_comment, no_item, delete_statements,
}
use coinnews_indexer.Store.Sqlite.Schema.{Tables, empty_tables}
use coinnews_indexer.Store.Sqlite.Atomic.{attempt, guarded, atomic_store}
use coinnews_indexer.Store.Sqlite.Refines.{Stored}
use coinnews_indexer.Store.Sqlite.Refines.Calls.{Does}
use coinnews_indexer.Store.Sqlite.Refines.Engine.{
  statement-fails, statement-runs, guarded-fails, guarded-runs, attempt-one,
  delete_from_height-atomic, settles,
}
use coinnews_indexer.Store.Sqlite.Refines.Rewinds.{
  Runs, rewound, delete_statements-Runs, rewound-Stored,
}
use coinnews_indexer.Scanner.{BlockSource, with_node, beside, exists, is_some, run}
use coinnews_indexer.Scanner.Simulate.{
  Both, both, Sim, Sim-bind, Sim-pure, StoresAlike, NodesAlike, HasId, run-Sim,
}

module _ {N E : Type 0} (crypto : Crypto) (engine : E → Option Error × E) where
  -- The worlds agree on the node and the engine, and the tables hold what the other backend holds.
  pub data Side : N × Db E Tables → N × Db E MemoryStore → Type 0 where
    side :
        (n : N) (e : E) (t : Tables) (m : MemoryStore)
        → Stored crypto t m
        → Side (n, record { engine = e; tables = t }) (n, record { engine = e; tables = m })

  -- A statement that does what the method does.
  pub alone :
      {A : Type 0} (f : Tables → Result (A × Tables)) (g : MemoryStore → A × MemoryStore) (n : N)
      (e : E) (t : Tables) (m : MemoryStore)
      → Stored crypto t m
      → Does crypto (f t) (g m)
      → Both Side
          (on_db (statement engine f) (n, record { engine = e; tables = t }))
          (on_db (guarded engine 1 g) (n, record { engine = e; tables = m }))
  unfolding Does
  alone f g n e t m s (u, k, s') = elim (Option-cases (engine e).0) [
    | inr (x, h) ↦
        rw
          (
            statement-fails engine f e t x h,
            guarded-fails engine 1 g e m x (ap (λ r. r.0) (attempt-one engine e) ∙ h),
            attempt-one engine e,
          )
          (both (err x) _ _ (side n (engine e).1 t m s))
    | inl h ↦
        rw
          (
            statement-runs engine f e t u (g m).0 h k,
            guarded-runs engine 1 g e m (ap (λ r. r.0) (attempt-one engine e) ∙ h),
            attempt-one engine e,
          )
          (both (ok (g m).0) _ _ (side n (engine e).1 u (g m).1 s'))
  ]

  -- A statement that does what the method does, and what comes behind it.
  pub behind :
      {A B : Type 0} (f : Tables → Result (A × Tables)) (g : MemoryStore → A × MemoryStore)
      (F : A → Io (N × Db E Tables) B) (G : A → Io (N × Db E MemoryStore) B) (n : N) (e : E)
      (t : Tables) (m : MemoryStore)
      → Stored crypto t m
      → Does crypto (f t) (g m)
      → ((d : E) (u : Tables)
          → Stored crypto u (g m).1
          → Both Side
              (F (g m).0 (n, record { engine = d; tables = u }))
              (G (g m).0 (n, record { engine = d; tables = (g m).1 })))
      → Both Side
          ((on_db (statement engine f) >>= F) (n, record { engine = e; tables = t }))
          ((on_db (guarded engine 1 g) >>= G) (n, record { engine = e; tables = m }))
  unfolding Does ◌>>=◌
  behind f g F G n e t m s (u, k, s') next = elim (Option-cases (engine e).0) [
    | inr (x, h) ↦
        rw
          (
            statement-fails engine f e t x h,
            guarded-fails engine 1 g e m x (ap (λ r. r.0) (attempt-one engine e) ∙ h),
            attempt-one engine e,
          )
          (both (err x) _ _ (side n (engine e).1 t m s))
    | inl h ↦
        rw
          (
            statement-runs engine f e t u (g m).0 h k,
            guarded-runs engine 1 g e m (ap (λ r. r.0) (attempt-one engine e) ∙ h),
            attempt-one engine e,
          )
          (next (engine e).1 u s')
  ]

  pub statement-Sim :
      {A : Type 0} (f : Tables → Result (A × Tables)) (g : MemoryStore → A × MemoryStore)
      → ((t : Tables) (m : MemoryStore) → Stored crypto t m → Does crypto (f t) (g m))
      → Sim Side (on_db (statement engine f)) (on_db (guarded engine 1 g))
  statement-Sim {A} f g does = record { at = at }
    where
      at :
          (v : N × Db E Tables) (w : N × Db E MemoryStore)
          → Side v w
          → Both Side (on_db (statement engine f) v) (on_db (guarded engine 1 g) w)
      at v w (side n e t m s) = alone f g n e t m s (does t m s)

  pub delete-Sim :
      (h : ℤ)
      → Sim Side
          (on_db (transaction engine (delete_statements h)))
          (on_db (guarded engine 8 λ m. (tt, Memory.delete_from_height h m)))
  delete-Sim h = record { at = at }
    where
      at :
          (v : N × Db E Tables) (w : N × Db E MemoryStore)
          → Side v w
          → Both Side
              (on_db (transaction engine (delete_statements h)) v)
              (on_db (guarded engine 8 λ m. (tt, Memory.delete_from_height h m)) w)
      at v w (side n e t m s) = elim (Option-cases (attempt engine 8 e).0) [
        | inr (x, f) ↦
            rw
              (
                delete_from_height-atomic engine h e t,
                guarded-fails engine 8 (λ m. (tt, Memory.delete_from_height h m)) e m x f,
                f,
              )
              (both (err x) _ _ (side n (attempt engine 8 e).1 t m s))
        | inl f ↦
            rw
              (
                delete_from_height-atomic engine h e t,
                guarded-runs engine 8 (λ m. (tt, Memory.delete_from_height h m)) e m f,
                f,
              )
              (both (ok tt) _ _ (
                side n (attempt engine 8 e).1 (rewound h t) (Memory.delete_from_height h m)
                  (rewound-Stored crypto h t m s)))
      ]
