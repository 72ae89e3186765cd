-- ===== src/Store/Sqlite/Reads/AnyOrder.antt =====
-- store/sqlite.go against store/memory.go: the feeds, for any order in which `range` meets the
-- stories.
use coinnews_indexer.Prelude.{◌≡◌, ap, sym, ◌∙◌, map}
use coinnews_indexer.Prelude.Int.{ℤ}
use coinnews_indexer.Codec.Crypto.{Crypto}
use coinnews_indexer.Store.Types.{FeedQuery}
use coinnews_indexer.Store.Sort.Unique.{NoTies}
use coinnews_indexer.Store.Ranking.{Floats}
use coinnews_indexer.Store.Ranking.Orders.{IsTotal}
use coinnews_indexer.Store.Ranking.Listings.{same_rank, same_place}
use coinnews_indexer.Store.Memory.{MemoryStore}
use coinnews_indexer.Store.Memory.Reads as Memory
use coinnews_indexer.Store.Memory.Reads.{Ranges, IsRange}
use coinnews_indexer.Store.Memory.Reads.AnyOrder.{front_page_any_order, new_feed_any_order}
use coinnews_indexer.Store.Sqlite.Schema.{Tables}
use coinnews_indexer.Store.Sqlite.Refines.{Stored}
use coinnews_indexer.Store.Sqlite.Reads.Rows.{Readable, retag}
use coinnews_indexer.Store.Sqlite.Reads.Feeds.{feeds_alike}
use coinnews_indexer.Store.Sqlite.Reads.{front_page, new_feed}

module _ (crypto : Crypto) (t : Tables) (m : MemoryStore) (s : Stored crypto t m) (ok : Readable t)
    (fl : Floats) (clock : ℤ) (rg : Ranges) (every : IsRange rg) (q : FeedQuery) where
  -- On tables that hold what the in-memory backend holds, `FrontPage` gives the same list over both
  -- backends, each item with the tag of a story, for every query and for every order in which
  -- `range` may meet the entries of the map of stories, if no two of the stories that pass the
  -- filter have the same score and height, and the comparisons of scores are those of a total
  -- order, as float64's are if no score is a NaN. Needed: each story's subtype is a byte, each
  -- comment's author key has 32 bytes, and each has its item.
  pub front_page_alike :
      IsTotal fl
      → NoTies (same_rank fl) (Memory.filtered_feed fl clock rg q m)
      → front_page fl clock q t ≡ map retag (Memory.front_page fl clock rg q m)
  front_page_alike total distinct =
      (feeds_alike crypto t m s ok fl clock q).0
      ∙ ap (map retag) (sym (front_page_any_order fl clock total rg q m every distinct))

  -- On tables that hold what the in-memory backend holds, `NewFeed` gives the same list over both
  -- backends, each item with the tag of a story, for every query and for every order in which
  -- `range` may meet the entries of the map of stories, if no two of the stories that pass the
  -- filter have the same height, transaction index and output index. Needed: each story's subtype
  -- is a byte, each comment's author key has 32 bytes, and each has its item.
  pub new_feed_alike :
      NoTies same_place (Memory.filtered_feed fl clock rg q m)
      → new_feed fl clock q t ≡ map retag (Memory.new_feed fl clock rg q m)
  new_feed_alike distinct =
      (feeds_alike crypto t m s ok fl clock q).1
      ∙ ap (map retag) (sym (new_feed_any_order fl clock rg q m every distinct))
