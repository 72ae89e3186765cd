-- ===== src/Api/Rest/Backends.antt =====
-- api/api.go over store/sqlite.go and over store/memory.go: the answers of the endpoints.
use coinnews_indexer.Prelude.{◌≡◌, refl, ap, ◌∙◌, [], ◌∷◌, List, map, Option, none, some, bytes_eq}
use mathlib.Core.Option as Options
use coinnews_indexer.Prelude.Int.{ℤ}
use coinnews_indexer.Codec.Types.{Bytes, Error}
use coinnews_indexer.Codec.Crypto.{Crypto}
use coinnews_indexer.Codec.ItemId.{parse_item_id}
use coinnews_indexer.Store.Types.{FeedItem}
use coinnews_indexer.Store.Ranking.{Floats}
use coinnews_indexer.Store.Memory.Consistent.{IsConsistent}
use coinnews_indexer.Store.Memory.Bounded.{IsBounded}
use coinnews_indexer.Store.Memory.Reads as Memory
use coinnews_indexer.Store.Memory.Reads.{inserted}
use coinnews_indexer.Store.Memory.Backend.{World}
use coinnews_indexer.Store.Memory.Queries.{memory_queries}
use coinnews_indexer.Store.Sqlite.{Db}
use coinnews_indexer.Store.Sqlite.Schema.{Tables}
use coinnews_indexer.Store.Sqlite.Queries.{query, sqlite_queries}
use coinnews_indexer.Store.Sqlite.Queries as Sqlite
use coinnews_indexer.Store.Sqlite.Refines.{Stored}
use coinnews_indexer.Store.Sqlite.Reads.Rows.{Readable, retag}
use coinnews_indexer.Store.Sqlite.Reads.Feeds.{
  feeds_alike, by_topic_alike, items_by_author_alike, get_item_alike,
}
use coinnews_indexer.Store.Sqlite.Topics.Alike.{list_topics_alike}
use coinnews_indexer.Store.Sqlite.Reads.Runs.{Stored-Readable}
use coinnews_indexer.Api.{answered, parsed_id, invalid_item_id}
use coinnews_indexer.Api.Backends.{answered-ok, answered-query, queried_topics, parsed_alike}
use coinnews_indexer.Api.Dto.{to_item}
use coinnews_indexer.Api.Request.{feed_query, parse_topic, parse_x_only}
use coinnews_indexer.Api.Rest.{
  Body, failed, feed_ok, item_found, bad_request, Route, v1_frontpage, v1_new, v1_item, v1_thread,
  v1_author_comments, v1_author_items, v1_topics, v1_topic_items, healthz, serve, handle_front_page,
  handle_new_feed, handle_get_item, handle_author_items, handle_topics, handle_by_topic,
}

-- The routes whose answer does not depend on how the backend orders the comments.
abbrev pub Ordered : Route → Type 0
Ordered (v1_thread id) = ⊥
Ordered (v1_author_comments xpk) = ⊥
Ordered _ = Unit

module _ {F : Type 0} where
  to_item-retag : (f : FeedItem F) → to_item (retag f) ≡ to_item f
  unfolding to_item
  to_item-retag f = refl

  items-retag : (fs : List (FeedItem F)) → feed_ok (map retag fs) ≡ feed_ok fs
  items-retag fs = ap (λ l. record { status = 200; body = Body.items l }) (same fs)
    where
      same : (l : List (FeedItem F)) → map to_item (map retag l) ≡ map to_item l
      same [] = refl
      same (f ∷ l) = rw (to_item-retag f, same l) refl

  found-retag : (o : Option (FeedItem F)) → item_found (Options.map retag o) ≡ item_found o
  found-retag none = refl
  found-retag (some f) = rw (to_item-retag f) refl

module _ {E N : Type 0} (engine : E → Option Error × E) (fine : (e : E) → (engine e).0 ≡ none)
    (crypto : Crypto) (fl : Floats) (clock : ℤ) (v : N × Db E Tables) (w : World N)
    (s : Stored crypto v.1.tables w.1) (c : IsConsistent w.1) (b : IsBounded w.1) where
  readable : Readable v.1.tables
  readable = Stored-Readable crypto v.1.tables w.1 s c b

  -- The answers of a database are those of the in-memory backend that it holds.
  pub serve_alike :
      (route : Route) (get : Bytes → Bytes)
      → Ordered route
      → (serve (sqlite_queries fl clock engine N) route get v).0
        ≡ (serve (memory_queries fl clock inserted N) route get w).0
  unfolding serve handle_front_page handle_new_feed handle_get_item handle_author_items
      handle_topics handle_by_topic answered
  serve_alike v1_frontpage get o = parsed_alike bad_request (feed_query get) _ _ v w λ q.
      answered-query engine fine failed feed_ok _ v
      ∙ ap feed_ok (feeds_alike crypto v.1.tables w.1 s readable fl clock q).0
      ∙ items-retag _
  serve_alike v1_new get o = parsed_alike bad_request (feed_query get) _ _ v w λ q.
      answered-query engine fine failed feed_ok _ v
      ∙ ap feed_ok (feeds_alike crypto v.1.tables w.1 s readable fl clock q).1
      ∙ items-retag _
  serve_alike (v1_item text) get o =
      parsed_alike bad_request (parsed_id invalid_item_id (parse_item_id text)) _ _ v w λ id.
        answered-query engine fine failed item_found _ v
        ∙ ap item_found (get_item_alike crypto v.1.tables w.1 s readable fl clock id)
        ∙ found-retag _
  serve_alike (v1_author_items text) get o =
      parsed_alike bad_request (parse_x_only text) _ _ v w λ xpk.
        answered-query engine fine failed feed_ok _ v
        ∙ ap feed_ok (items_by_author_alike crypto v.1.tables w.1 s readable fl clock xpk _ _)
        ∙ items-retag _
  serve_alike v1_topics get o =
      answered-ok failed _ (Sqlite.list_topics engine v) (Memory.list_topics inserted w.1) (
        queried_topics engine fine v (Memory.list_topics inserted w.1)
          (list_topics_alike crypto v.1.tables w.1 s b c.topics))
  serve_alike (v1_thread text) get o = elim o [ ]
  serve_alike (v1_author_comments text) get o = elim o [ ]
  serve_alike (v1_topic_items text) get o =
      parsed_alike bad_request (parse_topic text) _ _ v w λ topic.
        answered-query engine fine failed feed_ok _ v
        ∙ ap feed_ok (by_topic_alike crypto v.1.tables w.1 s readable fl clock topic _ _)
        ∙ items-retag _
  serve_alike healthz get o = refl
