-- ===== src/Store/Sqlite/Atomic.antt =====
-- What the on-disk backend promises: each call is the in-memory backend's, done whole, or fails with
-- the engine's error and changes nothing.
use coinnews_indexer.Prelude.{ℕ, zero, suc, Option, none, some}
use coinnews_indexer.Codec.Types.{Error, Result, ok, err}
use coinnews_indexer.Store.Interface.{Store, Io}
use coinnews_indexer.Store.Memory
use coinnews_indexer.Store.Memory.{MemoryStore}
use coinnews_indexer.Store.Sqlite.{Db, on_db}

module _ {E : Type 0} (engine : E → Option Error × E) where
  -- The engine runs so many statements, or stops at the first that fails.
  unfoldable pub attempt : ℕ → E → Option Error × E
  attempt zero e = (none, e)
  attempt (suc n) e =
      let r = engine e in
      let rest = attempt n r.1 in elim r.0 [ some x ↦ (some x, r.1) | none ↦ rest ]

  abbrev pub settled :
      {A : Type 0} → Db E MemoryStore → Option Error → A × MemoryStore → Result A × Db E MemoryStore
  settled s (some x) r = (err x, s)
  settled s none r = (ok r.0, record s { tables = r.1 })

  -- A call that takes `n` statements.
  unfoldable pub guarded :
      {A : Type 0} → ℕ → (MemoryStore → A × MemoryStore) → Io (Db E MemoryStore) A
  guarded n f s = let r = attempt n s.engine in settled (record s { engine = r.1 }) r.0 (f s.tables)

-- `DeleteFromHeight` is BEGIN, six statements and COMMIT.
abbrev pub atomic_store :
    {E : Type 0} → (E → Option Error × E) → (N : Type 0) → Store (N × Db E MemoryStore)
atomic_store engine N = record {
  save_cursor = λ h hash. on_db (guarded engine 1 λ m. (tt, Memory.save_cursor h hash m));
  load_cursor = on_db (guarded engine 1 λ m. (Memory.load_cursor m, m));
  delete_from_height = λ h. on_db (guarded engine 8 λ m. (tt, Memory.delete_from_height h m));
  put_item = λ it. on_db (guarded engine 1 λ m. (tt, Memory.put_item it m));
  insert_topic_if_absent = λ t. on_db (guarded engine 1 (Memory.insert_topic_if_absent t));
  put_story = λ s. on_db (guarded engine 1 λ m. (tt, Memory.put_story s m));
  put_comment = λ c. on_db (guarded engine 1 λ m. (tt, Memory.put_comment c m));
  put_vote = λ v. on_db (guarded engine 1 λ m. (tt, Memory.put_vote v m));
  put_continuation = λ c. on_db (guarded engine 1 λ m. (tt, Memory.put_continuation c m));
  item_by_id = λ id. on_db (guarded engine 1 λ m. (Memory.item_by_id id m, m));
}
