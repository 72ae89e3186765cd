-- ===== src/Scanner/Backends/InMemory.antt =====
-- scanner/scanner.go over store/sqlite.go with an engine that never fails, and over store/memory.go.
use coinnews_indexer.Prelude.{ℕ, zero, suc, ◌≡◌, refl, Option, none, Bool}
use coinnews_indexer.Prelude.Int.{ℤ}
use coinnews_indexer.Codec.Types.{Error, Result, ok}
use coinnews_indexer.Codec.Crypto.{Crypto}
use coinnews_indexer.Store.Interface.{Io}
use coinnews_indexer.Store.Memory as Memory
use coinnews_indexer.Store.Memory.{MemoryStore, new_memory}
use coinnews_indexer.Store.Memory.Backend.{World, memory_store}
use coinnews_indexer.Store.Sql.Laws.{keyed}
use coinnews_indexer.Store.Sqlite.{Db, on_db, sqlite_store}
use coinnews_indexer.Store.Sqlite.Schema.{Tables, empty_tables}
use coinnews_indexer.Store.Sqlite.Atomic.{attempt, guarded, atomic_store}
use coinnews_indexer.Store.Sqlite.Refines.{Stored}
use coinnews_indexer.Store.Sqlite.Refines.Engine.{guarded-runs}
use coinnews_indexer.Scanner.{BlockSource, with_node, beside, exists, is_some, run}
use coinnews_indexer.Scanner.Simulate.{
  Both, both, Sim, Sim-bind, Sim-pure, StoresAlike, NodesAlike, run-Sim,
}
use coinnews_indexer.Scanner.Backends.{Side, side}
use coinnews_indexer.Scanner.Backends.Refined.{run-refines}

module _ {E : Type 0} (engine : E → Option Error × E) (fine : (e : E) → (engine e).0 ≡ none) where
  attempt-fine : (k : ℕ) (e : E) → (attempt engine k e).0 ≡ none
  unfolding attempt
  attempt-fine zero e = refl
  attempt-fine (suc k) e = rw (attempt, fine e) (attempt-fine k (engine e).1)

-- One result, one node, and tables that hold the store.
unfoldable pub EndsAlike :
    {N E : Type 0}
    → Crypto
    → Result (Unit {0}) × (N × Db E Tables)
    → Result (Unit {0}) × World N
    → Type 0
EndsAlike crypto x y = (x.0 ≡ y.0) × (x.1.0 ≡ y.1.0) × Stored crypto x.1.1.tables y.1.1

module _ {N E : Type 0} (crypto : Crypto) (engine : E → Option Error × E)
    (fine : (e : E) → (engine e).0 ≡ none) where
  -- The worlds agree on the node and the store.
  data Same : N × Db E MemoryStore → World N → Type 0 where
    same : (n : N) (e : E) (m : MemoryStore) → Same (n, record { engine = e; tables = m }) (n, m)

  guarded-Sim :
      {A : Type 0} (k : ℕ) (g : MemoryStore → A × MemoryStore)
      → Sim Same (on_db (guarded engine k g)) (λ w. (ok (g w.1).0, (w.0, (g w.1).1)))
  guarded-Sim {A} k g = record { at = at }
    where
      at :
          (v : N × Db E MemoryStore) (w : World N)
          → Same v w
          → Both Same (on_db (guarded engine k g) v) (ok (g w.1).0, (w.0, (g w.1).1))
      at v w (same n e m) =
          rw (guarded-runs engine k g e m (attempt-fine engine fine k e))
            (both (ok (g m).0) _ _ (same n (attempt engine k e).1 (g m).1))

  memory_alike : StoresAlike crypto Same (atomic_store engine N) (memory_store N)
  unfolding exists
  memory_alike = record {
    save_cursor = λ h hash. guarded-Sim 1 _;
    load_cursor = guarded-Sim 1 _;
    delete_from_height = λ h. guarded-Sim 8 _;
    put_item = λ it h. guarded-Sim 1 _;
    insert_topic = λ topic z small. guarded-Sim 1 _;
    story = λ it row h e small. Sim-bind _ _ _ _ (guarded-Sim 1 _) (λ _. guarded-Sim 1 _);
    comment = λ it row h e sized. Sim-bind _ _ _ _ (guarded-Sim 1 _) (λ _. guarded-Sim 1 _);
    put_vote = λ v. guarded-Sim 1 _;
    put_continuation = λ c. guarded-Sim 1 _;
    found = λ id. Sim-bind _ _ _ _ (guarded-Sim 1 _) (λ found. Sim-pure (is_some found));
  }

  node_call : {A : Type 0} (f : Io N A) → Sim Same (beside f) (beside f)
  node_call f = record { at = at }
    where
      at : (v : N × Db E MemoryStore) (w : World N) → Same v w → Both Same (beside f v) (beside f w)
      at v w (same n e m) = both (f n).0 _ _ (same (f n).1 e m)

  nodes-Same : (node : BlockSource N) → NodesAlike Same (with_node node) (with_node node)
  nodes-Same node = record {
    ctx_err = node_call node.ctx_err;
    count = node_call node.get_block_count;
    hash_at = λ h. node_call (node.get_block_hash h);
    block_at = λ hash. node_call (node.get_block hash);
  }

  ends_alike :
      (x : Result (Unit {0}) × (N × Db E Tables)) (y : Result (Unit {0}) × (N × Db E MemoryStore))
      (z : Result (Unit {0}) × World N)
      → Both (Side crypto engine) x y
      → Both Same y z
      → EndsAlike crypto x z
  unfolding EndsAlike
  ends_alike x y z (both r v w (side n e t m s)) q = read_off z q
    where
      read_off :
          (z : Result (Unit {0}) × World N)
          → Both Same (r, (n, record { engine = e; tables = m })) z
          → EndsAlike crypto (r, (n, record { engine = e; tables = t })) z
      read_off z (both r' v' w' (same n' e' m')) = (refl, refl, s)

pub new_tables : (crypto : Crypto) (on : Bool) → Stored crypto (empty_tables on) new_memory
unfolding keyed Memory.load_cursor
new_tables crypto on = record {
  items = refl;
  topics = refl;
  stories = refl;
  comments = refl;
  votes = refl;
  cursor = refl;
  distinct = tt;
  ids = tt;
}

-- Over an engine that never fails, a run from the empty tables of the schema gives the result of a
-- run over a new in-memory backend, leaves the node in the same state, and leaves tables that hold
-- what the in-memory backend holds, whatever the node answers and whether foreign keys are enforced
-- or not. What the tables are compared in: items, topics, stories, comments, votes and the cursor;
-- not continuations, which no call reads.
pub run_on_disk :
    {N E : Type 0} (crypto : Crypto) (engine : E → Option Error × E)
    (fine : (e : E) → (engine e).0 ≡ none) (node : BlockSource N) (depth : ℤ) (fuel : ℕ) (start : ℤ)
    (n : N) (e : E) (on : Bool)
    → EndsAlike crypto
        (run crypto
          (sqlite_store engine N)
          (with_node node)
          depth
          fuel
          start
          (n, record { engine = e; tables = empty_tables on }))
        (run crypto (memory_store N) (with_node node) depth fuel start (n, new_memory))
run_on_disk crypto engine fine node depth fuel start n e on =
    ends_alike crypto engine fine _ _ _
      (run-refines crypto engine node depth fuel start _ _
        (side n e (empty_tables on) new_memory (new_tables crypto on)))
      ((run-Sim crypto _ _ (memory_alike crypto engine fine) _ _
          (nodes-Same crypto engine fine node) depth fuel start).at
        _ _ (same n e new_memory))
