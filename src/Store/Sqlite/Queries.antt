-- ===== src/Store/Sqlite/Queries.antt =====
-- `var _ Store = (*SQLiteStore)(nil)`: the reads of the SQLite backend. The rows of a query are read
-- at once.
use coinnews_indexer.Prelude.{[], List, Option, none, some}
use coinnews_indexer.Prelude.Int.{ℤ}
use coinnews_indexer.Codec.Types.{Error, external, ok}
use coinnews_indexer.Store.Types.{Topic}
use coinnews_indexer.Store.Interface.{Queries, Io, ◌>>=◌, pure, fail}
use coinnews_indexer.Store.Ranking.{Floats}
use coinnews_indexer.Store.Sqlite.{Db, statement, on_db}
use coinnews_indexer.Store.Sqlite.Schema.{Tables}
use coinnews_indexer.Store.Sqlite.Reads as Reads
use coinnews_indexer.Store.Sqlite.Comments as Comments
use coinnews_indexer.Store.Sqlite.Thread as Thread
use coinnews_indexer.Store.Sqlite.Topics.{scan_topics, group_stories, listing}

-- A panic on a nil pointer.
abbrev nil_pointer : Error
nil_pointer = external 2

module _ {E : Type 0} (engine : E → Option Error × E) where
  -- `QueryContext` and the loop over its rows.
  abbrev pub query : {N A : Type 0} → (Tables → A) → Io (N × Db E Tables) A
  query f = on_db (statement engine λ t. ok (f t, t))

  listed : {N : Type 0} → Option (List Topic) → Io (N × Db E Tables) (List Topic)
  listed none = fail nil_pointer
  listed (some ts) = pure ts

  unfoldable pub list_topics : {N : Type 0} → Io (N × Db E Tables) (List Topic)
  unfolding listed
  list_topics = do
    scanned ← query λ t. scan_topics t.cn_topics [] []
    groups ← query λ t. group_stories t.cn_stories
    listed (listing scanned groups)

abbrev pub sqlite_queries :
    (fl : Floats)
    → ℤ
    → {E : Type 0} → (E → Option Error × E)
    → (N : Type 0) → Queries fl.F (N × Db E Tables)
sqlite_queries fl clock engine N = record {
  front_page = λ q. query engine (Reads.front_page fl clock q);
  new_feed = λ q. query engine (Reads.new_feed fl clock q);
  get_item = λ id. query engine (Reads.get_item fl clock id);
  thread = λ root. query engine (Thread.thread fl clock root);
  by_author = λ author limit offset. query engine (Comments.by_author fl clock author limit offset);
  items_by_author =
      λ author limit offset. query engine (Reads.items_by_author fl clock author limit offset);
  by_topic = λ topic limit offset. query engine (Reads.by_topic fl clock topic limit offset);
  list_topics = list_topics engine;
}
