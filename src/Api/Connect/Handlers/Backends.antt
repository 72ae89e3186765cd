-- ===== src/Api/Connect/Handlers/Backends.antt =====
-- api/connect.go over store/sqlite.go and over store/memory.go: the answers of the procedures.
use coinnews_indexer.Prelude.{◌≡◌, refl, ap, ◌∙◌, [], ◌∷◌, List, map, Option, none, some, bytes_eq}
use mathlib.Core.Option as Options
use coinnews_indexer.Prelude.Int.{ℤ}
use coinnews_indexer.Codec.Types.{Bytes, Error}
use coinnews_indexer.Codec.Crypto.{Crypto}
use coinnews_indexer.Codec.ItemId.{parse_item_id}
use coinnews_indexer.Store.Types.{FeedItem}
use coinnews_indexer.Store.Interface.{Queries}
use coinnews_indexer.Store.Ranking.{Floats}
use coinnews_indexer.Store.Memory.Consistent.{IsConsistent}
use coinnews_indexer.Store.Memory.Bounded.{IsBounded}
use coinnews_indexer.Store.Memory.Reads as Memory
use coinnews_indexer.Store.Memory.Reads.{inserted}
use coinnews_indexer.Store.Memory.Backend.{World}
use coinnews_indexer.Store.Memory.Queries.{memory_queries}
use coinnews_indexer.Store.Sqlite.{Db}
use coinnews_indexer.Store.Sqlite.Schema.{Tables}
use coinnews_indexer.Store.Sqlite.Queries.{query, sqlite_queries}
use coinnews_indexer.Store.Sqlite.Queries as Sqlite
use coinnews_indexer.Store.Sqlite.Refines.{Stored}
use coinnews_indexer.Store.Sqlite.Reads.Rows.{Readable, retag}
use coinnews_indexer.Store.Sqlite.Reads.Feeds.{
  feeds_alike, by_topic_alike, items_by_author_alike, get_item_alike,
}
use coinnews_indexer.Store.Sqlite.Topics.Alike.{list_topics_alike}
use coinnews_indexer.Store.Sqlite.Reads.Runs.{Stored-Readable}
use coinnews_indexer.Api.{answered, parsed_id, invalid_item_id}
use coinnews_indexer.Api.Backends.{answered-ok, answered-query, queried_topics, parsed_alike}
use coinnews_indexer.Api.Request.{parse_topic, parse_x_only}
use coinnews_indexer.Api.Connect.{to_connect_item}
use coinnews_indexer.Api.Connect.Handlers.{
  Procedure, list_front_page, list_new_feed, get_item, list_thread, list_by_author, list_by_topic,
  list_topics, no_feed_req, no_page_req, connect_serve, connect_front_page, connect_new_feed,
  connect_get_item, connect_by_author, connect_by_topic, decode_connect, connect_list_topics,
  connect_bad, connect_failed, items_ok, connect_found, connect_items,
}

-- The procedures whose answer does not depend on how the backend orders the comments.
abbrev pub OrderedProcedure : Procedure → Type 0
OrderedProcedure (list_thread body) = ⊥
OrderedProcedure _ = Unit

module _ {F : Type 0} (rfc3339 : ℤ → Bytes) where
  to_connect-retag :
      (f : FeedItem F) → to_connect_item rfc3339 (retag f) ≡ to_connect_item rfc3339 f
  unfolding to_connect_item
  to_connect-retag f = refl

  module _ {W : Type 0} (st : Queries F W) where
    connect_items-retag :
        (fs : List (FeedItem F)) → items_ok rfc3339 st (map retag fs) ≡ items_ok rfc3339 st fs
    connect_items-retag fs = ap (λ l. record { status = 200; body = connect_items l }) (same fs)
      where
        same :
            (l : List (FeedItem F))
            → map (to_connect_item rfc3339) (map retag l) ≡ map (to_connect_item rfc3339) l
        same [] = refl
        same (f ∷ l) = rw (to_connect-retag f, same l) refl

    connect_found-retag :
        (o : Option (FeedItem F))
        → connect_found rfc3339 st (Options.map retag o) ≡ connect_found rfc3339 st o
    connect_found-retag none = refl
    connect_found-retag (some f) = rw (to_connect-retag f) refl

module _ {E N : Type 0} (engine : E → Option Error × E) (fine : (e : E) → (engine e).0 ≡ none)
    (crypto : Crypto) (fl : Floats) (clock : ℤ) (rfc3339 : ℤ → Bytes) (v : N × Db E Tables)
    (w : World N) (s : Stored crypto v.1.tables w.1) (c : IsConsistent w.1)
    (b : IsBounded w.1) where
  readable : Readable v.1.tables
  readable = Stored-Readable crypto v.1.tables w.1 s c b

  abbrev disk : Queries fl.F (N × Db E Tables)
  disk = sqlite_queries fl clock engine N

  -- The answers of a database are those of the in-memory backend that it holds.
  pub connect_alike :
      (p : Procedure)
      → OrderedProcedure p
      → (connect_serve rfc3339 disk p v).0
        ≡ (connect_serve rfc3339 (memory_queries fl clock inserted N) p w).0
  unfolding connect_serve connect_front_page connect_new_feed connect_get_item connect_by_author
      connect_by_topic connect_list_topics answered
  connect_alike (list_front_page body) o =
      parsed_alike connect_bad (decode_connect no_feed_req body) _ _ v w λ q.
        answered-query engine fine connect_failed (items_ok rfc3339 disk) _ v
        ∙ ap (items_ok rfc3339 disk) (feeds_alike crypto v.1.tables w.1 s readable fl clock _).0
        ∙ connect_items-retag rfc3339 disk _
  connect_alike (list_new_feed body) o =
      parsed_alike connect_bad (decode_connect no_feed_req body) _ _ v w λ q.
        answered-query engine fine connect_failed (items_ok rfc3339 disk) _ v
        ∙ ap (items_ok rfc3339 disk) (feeds_alike crypto v.1.tables w.1 s readable fl clock _).1
        ∙ connect_items-retag rfc3339 disk _
  connect_alike (get_item body) o =
      parsed_alike connect_bad (decode_connect [] body) _ _ v w λ text.
        parsed_alike connect_bad (parsed_id invalid_item_id (parse_item_id text)) _ _ v w λ id.
          answered-query engine fine connect_failed (connect_found rfc3339 disk) _ v
          ∙ ap (connect_found rfc3339 disk)
              (get_item_alike crypto v.1.tables w.1 s readable fl clock id)
          ∙ connect_found-retag rfc3339 disk _
  connect_alike (list_thread body) o = elim o [ ]
  connect_alike (list_by_author body) o =
      parsed_alike connect_bad (decode_connect no_page_req body) _ _ v w λ req.
        parsed_alike connect_bad (parse_x_only req.hex) _ _ v w λ xpk.
          answered-query engine fine connect_failed (items_ok rfc3339 disk) _ v
          ∙ ap (items_ok rfc3339 disk)
              (items_by_author_alike crypto v.1.tables w.1 s readable fl clock xpk _ _)
          ∙ connect_items-retag rfc3339 disk _
  connect_alike (list_by_topic body) o =
      parsed_alike connect_bad (decode_connect no_page_req body) _ _ v w λ req.
        parsed_alike connect_bad (parse_topic req.hex) _ _ v w λ topic.
          answered-query engine fine connect_failed (items_ok rfc3339 disk) _ v
          ∙ ap (items_ok rfc3339 disk)
              (by_topic_alike crypto v.1.tables w.1 s readable fl clock topic _ _)
          ∙ connect_items-retag rfc3339 disk _
  connect_alike list_topics o =
      answered-ok connect_failed _ (Sqlite.list_topics engine v) (Memory.list_topics inserted w.1) (
        queried_topics engine fine v (Memory.list_topics inserted w.1)
          (list_topics_alike crypto v.1.tables w.1 s b c.topics))
