-- ===== src/Api/OnDisk.antt =====
-- api/ over the database that scanner/scanner.go leaves.
use coinnews_indexer.Prelude.{ℕ, ◌≡◌, Option, none, Bool}
use coinnews_indexer.Prelude.Int.{ℤ}
use coinnews_indexer.Codec.Types.{Bytes, Error}
use coinnews_indexer.Codec.Crypto.{Crypto}
use coinnews_indexer.Store.Ranking.{Floats}
use coinnews_indexer.Store.Memory.{new_memory}
use coinnews_indexer.Store.Memory.Consistent.{IsConsistent, new_memory-IsConsistent}
use coinnews_indexer.Store.Memory.Bounded.{IsBounded, new_memory-IsBounded}
use coinnews_indexer.Store.Memory.Backend.{World, memory_store}
use coinnews_indexer.Store.Memory.Reads.{Ranges, IsRange, inserted, inserted-IsRange}
use coinnews_indexer.Store.Memory.Queries.{memory_queries}
use coinnews_indexer.Store.Sqlite.{Db, sqlite_store}
use coinnews_indexer.Store.Sqlite.Schema.{Tables, empty_tables}
use coinnews_indexer.Store.Sqlite.Queries.{sqlite_queries}
use coinnews_indexer.Store.Sqlite.Refines.{Stored}
use coinnews_indexer.Scanner.{BlockSource, with_node, run}
use coinnews_indexer.Scanner.Keeps.{run-IsConsistent, run-IsBounded}
use coinnews_indexer.Scanner.Backends.InMemory.{EndsAlike, run_on_disk}
use coinnews_indexer.Api.Rest.{Route, serve}
use coinnews_indexer.Api.Rest.Backends.{Ordered, serve_alike}
use coinnews_indexer.Api.Connect.Handlers.{Procedure, connect_serve}
use coinnews_indexer.Api.Connect.Handlers.Backends.{OrderedProcedure, connect_alike}

module _ {N E : Type 0} (crypto : Crypto) (engine : E → Option Error × E)
    (fine : (e : E) → (engine e).0 ≡ none) (node : BlockSource N) (depth : ℤ) (fuel : ℕ) (start : ℤ)
    (n : N) (e : E) (on : Bool) where
  -- A run from the empty tables, and the same run over a new in-memory backend.
  abbrev pub disk : N × Db E Tables
  disk =
      (run crypto (sqlite_store engine N) (with_node node) depth fuel start
        (n, record { engine = e; tables = empty_tables on })).1

  abbrev pub memory : World N
  memory = (run crypto (memory_store N) (with_node node) depth fuel start (n, new_memory)).1

  disk-Stored : Stored crypto disk.1.tables memory.1
  unfolding EndsAlike
  disk-Stored = (run_on_disk crypto engine fine node depth fuel start n e on).2

  memory-IsConsistent : IsConsistent memory.1
  memory-IsConsistent =
      run-IsConsistent crypto node depth fuel start (n, new_memory) new_memory-IsConsistent

  memory-IsBounded : IsBounded memory.1
  memory-IsBounded = run-IsBounded crypto node depth fuel start (n, new_memory) new_memory-IsBounded

  -- After a run from the empty tables, over an engine that never fails and with any node, the
  -- answer over the SQLite backend of the REST endpoints of the front page, the newest items, an
  -- item, the items of an author, the topics, the items of a topic and the health check, whatever
  -- their parameters, is one that the in-memory backend may give after the same run: the one for
  -- some order in which `range` meets the entries of the maps of stories and topics, where Go
  -- allows every order.
  pub serve_on_disk :
      (fl : Floats) (clock : ℤ) (route : Route) (get : Bytes → Bytes)
      → Ordered route
      → (rg : Ranges) × IsRange rg
        × ((serve (sqlite_queries fl clock engine N) route get disk).0
            ≡ (serve (memory_queries fl clock rg N) route get memory).0)
  serve_on_disk fl clock route get o = (
    inserted,
    inserted-IsRange,
    serve_alike engine fine crypto fl clock disk memory disk-Stored memory-IsConsistent
        memory-IsBounded route get o,
  )

  -- After a run from the empty tables, over an engine that never fails and with any node, the
  -- answer over the SQLite backend of each Connect procedure but ListThread, whatever is sent, is
  -- one that the in-memory backend may give after the same run: the one for some order in which
  -- `range` meets the entries of the maps of stories and topics, where Go allows every order.
  pub connect_on_disk :
      (fl : Floats) (clock : ℤ) (rfc3339 : ℤ → Bytes) (p : Procedure)
      → OrderedProcedure p
      → (rg : Ranges) × IsRange rg
        × ((connect_serve rfc3339 (sqlite_queries fl clock engine N) p disk).0
            ≡ (connect_serve rfc3339 (memory_queries fl clock rg N) p memory).0)
  connect_on_disk fl clock rfc3339 p o = (
    inserted,
    inserted-IsRange,
    connect_alike engine fine crypto fl clock rfc3339 disk memory disk-Stored memory-IsConsistent
        memory-IsBounded p o,
  )
