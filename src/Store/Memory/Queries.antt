-- ===== src/Store/Memory/Queries.antt =====
-- `var _ Store = (*MemoryStore)(nil)`: the reads of the in-memory backend, with no error.
use coinnews_indexer.Prelude.Int.{ℤ}
use coinnews_indexer.Store.Interface.{Queries}
use coinnews_indexer.Store.Ranking.{Floats}
use coinnews_indexer.Store.Memory.Reads as Reads
use coinnews_indexer.Store.Memory.Reads.{Ranges}
use coinnews_indexer.Store.Memory.Thread as Thread
use coinnews_indexer.Store.Memory.Backend.{World, read}

abbrev pub memory_queries : (fl : Floats) → ℤ → Ranges → (N : Type 0) → Queries fl.F (World N)
memory_queries fl clock rg N = record {
  front_page = λ q. read (Reads.front_page fl clock rg q);
  new_feed = λ q. read (Reads.new_feed fl clock rg q);
  get_item = λ id. read (Reads.get_item fl clock id);
  thread = λ root. read (Thread.thread fl clock root);
  by_author = λ author limit offset. read (Thread.by_author fl clock author limit offset);
  items_by_author =
      λ author limit offset. read (Reads.items_by_author fl clock rg author limit offset);
  by_topic = λ topic limit offset. read (Reads.by_topic fl clock rg topic limit offset);
  list_topics = read (Reads.list_topics rg);
}
