-- ===== src/Tests/Main.antt =====
-- The loops of main.go at concrete inputs.
use coinnews_indexer.Prelude.{◌≡◌, refl, Bool, true, false, arith}
use coinnews_indexer.Prelude.Int.{pos}
use coinnews_indexer.Store.Memory.{new_memory}
use coinnews_indexer.Store.Sqlite.{sqlite_store}
use coinnews_indexer.Store.Sqlite.Schema.{empty_tables}
use coinnews_indexer.Store.Sqlite.Refines.{Stored}
use coinnews_indexer.Scanner.{with_node}
use coinnews_indexer.Scanner.CatchUp.{indexed_from}
use coinnews_indexer.Main.{caught_up, cmd_index}
use coinnews_indexer.Main.Follows.{beside_store, cmd_index-indexes_chain}
use coinnews_indexer.Tests.Data.{a_crypto}
use coinnews_indexer.Tests.Scanner.{node_to, hash_of, block_of, node-IsStatic}
use coinnews_indexer.Tests.Sqlite.{sound}

-- The context is never done.
abbrev ticks : Unit {0} → Bool × Unit {0}
ticks n = (false, n)

cmd_index-indexes_chain_example :
    let r =
      cmd_index a_crypto
        (sqlite_store sound (Unit {0}))
        (with_node (node_to 1))
        (beside_store ticks)
        3
        (pos 0)
        (pos 0)
        1
        (tt, record { engine = tt; tables = empty_tables true }) in
    (r.0 ≡ caught_up)
    × Stored a_crypto r.1.1.tables (indexed_from a_crypto hash_of block_of tt 0 2 new_memory)
cmd_index-indexes_chain_example =
    cmd_index-indexes_chain a_crypto sound (λ e. refl) (node_to 1) ticks 1 hash_of block_of
      (node-IsStatic 1) 3 (pos 0) tt tt true (omega arith) (omega arith)
