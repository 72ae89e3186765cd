-- ===== src/Main/Follows.antt =====
-- main.go over store/sqlite.go: what the loops leave in the database.
use coinnews_indexer.Prelude.{ℕ, suc, ◌<◌, ◌≡◌, refl, sym, Option, none, Bool, false, arith}
use mathlib.Core.Path.{subst}
use coinnews_indexer.Prelude.Int.{ℤ, pos, ◌≤ℤ◌}
use coinnews_indexer.Codec.Types.{Bytes, Error, Result, ok, err}
use coinnews_indexer.Codec.Crypto.{Crypto}
use coinnews_indexer.Rpc.{Block}
use coinnews_indexer.Store.Memory.{MemoryStore, new_memory}
use coinnews_indexer.Store.Memory.Backend.{memory_store}
use coinnews_indexer.Store.Sqlite.{Db, sqlite_store}
use coinnews_indexer.Store.Sqlite.Schema.{Tables, empty_tables}
use coinnews_indexer.Store.Sqlite.Refines.{Stored}
use coinnews_indexer.Scanner.{BlockSource, with_node, default_reorg_depth, run}
use coinnews_indexer.Scanner.CatchUp.{IsStatic, indexed_from, run-indexes_chain}
use coinnews_indexer.Scanner.Backends.InMemory.{EndsAlike, run_on_disk}
use coinnews_indexer.Main.{Exit, caught_up, cmd_run, cmd_index, after_scan}

-- The clock and the signals are beside the store.
abbrev pub beside_store : {N S : Type 0} → (N → Bool × N) → N × S → Bool × (N × S)
beside_store done w = ((done w.0).0, ((done w.0).1, w.1))

scanned :
    {N E : Type 0} (crypto : Crypto) (engine : E → Option Error × E) (node : BlockSource N)
    (done : N → Bool × N) (fuel : ℕ) (start poll : ℤ)
    (again : N × Db E Tables → Exit × (N × Db E Tables)) (x : Result (Unit {0}) × (N × Db E Tables))
    → poll ≤ℤ pos 0
    → x.0 ≡ ok tt
    → after_scan crypto
        (sqlite_store engine N)
        (with_node node)
        (beside_store done)
        fuel
        start
        poll
        again
        x
      ≡ (caught_up, x.1)
scanned crypto engine node done fuel start poll again (ok u, w) h e = ground arith
scanned crypto engine node done fuel start poll again (err f, w) h e = ground (arith, e)

-- `cmdIndex` without polling, over a new SQLite database whose engine never fails and a node whose
-- chain does not change, exits as caught up after one round, with a fuel of the run of more than
-- one round a block, and the tables then hold what indexing the blocks 0 to `tip` one after the
-- other gives. What the tables are compared in: items, topics, stories, comments, votes and the
-- cursor; not continuations, which no call reads. The start height is 0.
pub cmd_index-indexes_chain :
    {N E : Type 0} (crypto : Crypto) (engine : E → Option Error × E)
    (fine : (e : E) → (engine e).0 ≡ none) (node : BlockSource N) (done : N → Bool × N) (tip : ℕ)
    (hash : ℕ → Bytes) (block : ℕ → Block)
    → IsStatic node tip hash block
    → (fuel : ℕ) (poll : ℤ) (n : N) (e : E) (on : Bool) → suc tip < fuel
    → poll ≤ℤ pos 0
    → let r =
        cmd_index crypto
          (sqlite_store engine N)
          (with_node node)
          (beside_store done)
          fuel
          (pos 0)
          poll
          1
          (n, record { engine = e; tables = empty_tables on }) in
      (r.0 ≡ caught_up)
      × Stored crypto r.1.1.tables (indexed_from crypto hash block n 0 (suc tip) new_memory)
unfolding cmd_index EndsAlike
cmd_index-indexes_chain {N} {E} crypto engine fine node done tip hash block static fuel poll n e on
      l p =
    let x =
      run crypto (sqlite_store engine N) (with_node node) default_reorg_depth fuel (pos 0)
        (n, record { engine = e; tables = empty_tables on }) in
    let ends = run_on_disk crypto engine fine node default_reorg_depth fuel (pos 0) n e on in
    let chain = run-indexes_chain crypto node default_reorg_depth tip hash block static fuel n l in
    let at_tip : EndsAlike crypto x
        (ok tt, (n, indexed_from crypto hash block n 0 (suc tip) new_memory)) =
      subst (EndsAlike crypto x) chain ends in
    subst
      (λ r.
        (r.0 ≡ caught_up)
        × Stored crypto r.1.1.tables (indexed_from crypto hash block n 0 (suc tip) new_memory))
      (sym (
        scanned crypto engine node done fuel (pos 0) poll
          (cmd_index crypto (sqlite_store engine N) (with_node node) (beside_store done) fuel
            (pos 0) poll 0)
          x p at_tip.0))
      (refl, at_tip.2)

module _ {N : Type 0} (crypto : Crypto) (node : BlockSource N) (done : N → Bool × N)
    (ticks : (n : N) → (done n).0 ≡ false) (tip : ℕ) (hash : ℕ → Bytes) (block : ℕ → Block)
    (st : IsStatic node tip hash block) (fuel : ℕ) where
  abbrev rounds_of : ℕ → N × MemoryStore → N × MemoryStore
  rounds_of = cmd_run crypto (memory_store N) (with_node node) (beside_store done) fuel (pos 0)

  abbrev one_scan : N × MemoryStore → Result (Unit {0}) × (N × MemoryStore)
  one_scan = run crypto (memory_store N) (with_node node) default_reorg_depth fuel (pos 0)
