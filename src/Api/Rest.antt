-- ===== src/Api/Rest.antt =====
-- api/api.go: the routes and the handlers of the REST endpoints.
pub mod Backends
use coinnews_indexer.Prelude.{ℕ, List, map, Option, none, some, Bool}
use coinnews_indexer.Prelude.Int.{ℤ}
use coinnews_indexer.Codec.Types.{Bytes, Error}
use coinnews_indexer.Codec.ItemId.{id_string, parse_item_id}
use coinnews_indexer.Store.Types.{Topic, FeedItem, ThreadComment}
use coinnews_indexer.Store.Interface.{Queries}
use coinnews_indexer.Api.{
  Problem, store_error, invalid_item_id, item_not_found, Response, Handler, answered, with_parsed,
  parsed_id, status_ok, status_bad_request, status_not_found, status_internal_server_error,
}
use coinnews_indexer.Api.Request.{feed_query, page_params, parse_topic, parse_x_only}
use coinnews_indexer.Api.Dto.{ItemDto, CommentDto, TopicDto, to_item, to_comment, to_topic}

-- The JSON objects of the answers, by their keys.
pub data Body (F : Type 0) : Type 0 where
  error : Problem → Body F
  items : List (ItemDto F) → Body F
  item : ItemDto F → Body F
  thread : Bytes → List (CommentDto F) → Body F
  comments : List (CommentDto F) → Body F
  topics : List TopicDto → Body F
  healthy : Body F

module _ {F : Type 0} where
  abbrev pub write_json : ℕ → Body F → Response (Body F)
  write_json status body = record { status = status; body = body }

  abbrev pub write_err : ℕ → Problem → Response (Body F)
  write_err status p = write_json status (error p)

  abbrev pub feed_response : List (FeedItem F) → Body F
  feed_response fs = items (map to_item fs)

  abbrev pub thread_response : Bytes → List (ThreadComment F) → Body F
  thread_response root cs = thread (id_string root) (map to_comment cs)

  abbrev pub bad_request : Problem → Response (Body F)
  bad_request p = write_err status_bad_request p

  abbrev pub failed : Error → Response (Body F)
  failed e = write_err status_internal_server_error (store_error e)

  abbrev pub feed_ok : List (FeedItem F) → Response (Body F)
  feed_ok fs = write_json status_ok (feed_response fs)

  abbrev pub item_found : Option (FeedItem F) → Response (Body F)
  item_found none = write_err status_not_found item_not_found
  item_found (some f) = write_json status_ok (item (to_item f))

module _ {F W : Type 0} (st : Queries F W) where
  unfoldable pub handle_front_page : (Bytes → Bytes) → Handler W (Body F)
  handle_front_page get =
      with_parsed bad_request (feed_query get) λ q w. answered failed feed_ok (st.front_page q w)

  unfoldable pub handle_new_feed : (Bytes → Bytes) → Handler W (Body F)
  handle_new_feed get =
      with_parsed bad_request (feed_query get) λ q w. answered failed feed_ok (st.new_feed q w)

  unfoldable pub handle_get_item : Bytes → Handler W (Body F)
  handle_get_item text =
      with_parsed bad_request (parsed_id invalid_item_id (parse_item_id text))
        λ id w. answered failed item_found (st.get_item id w)

  unfoldable pub handle_thread : Bytes → Handler W (Body F)
  handle_thread text =
      with_parsed bad_request (parsed_id invalid_item_id (parse_item_id text)) λ id w.
        answered failed (λ cs. write_json status_ok (thread_response id cs)) (st.thread id w)

  unfoldable pub handle_by_author : Bytes → (Bytes → Bytes) → Handler W (Body F)
  handle_by_author text get = with_parsed bad_request (parse_x_only text) λ xpk w.
      let (limit, offset) = page_params get in
      answered failed (λ cs. write_json status_ok (comments (map to_comment cs)))
        (st.by_author xpk limit offset w)

  unfoldable pub handle_author_items : Bytes → (Bytes → Bytes) → Handler W (Body F)
  handle_author_items text get = with_parsed bad_request (parse_x_only text) λ xpk w.
      let (limit, offset) = page_params get in
      answered failed feed_ok (st.items_by_author xpk limit offset w)

  unfoldable pub handle_topics : Handler W (Body F)
  handle_topics w =
      answered failed (λ ts. write_json status_ok (topics (map to_topic ts))) (st.list_topics w)

  unfoldable pub handle_by_topic : Bytes → (Bytes → Bytes) → Handler W (Body F)
  handle_by_topic text get = with_parsed bad_request (parse_topic text) λ topic w.
      let (limit, offset) = page_params get in
      answered failed feed_ok (st.by_topic topic limit offset w)

-- The patterns of the GET routes, with the values of their wildcards.
pub data Route : Type 0 where
  v1_frontpage : Route
  v1_new : Route
  v1_item : Bytes → Route
  v1_thread : Bytes → Route
  v1_author_comments : Bytes → Route
  v1_author_items : Bytes → Route
  v1_topics : Route
  v1_topic_items : Bytes → Route
  healthz : Route

-- `routes`
unfoldable pub serve : {F W : Type 0} → Queries F W → Route → (Bytes → Bytes) → Handler W (Body F)
serve st v1_frontpage get = handle_front_page st get
serve st v1_new get = handle_new_feed st get
serve st (v1_item id) get = handle_get_item st id
serve st (v1_thread id) get = handle_thread st id
serve st (v1_author_comments xpk) get = handle_by_author st xpk get
serve st (v1_author_items xpk) get = handle_author_items st xpk get
serve st v1_topics get = handle_topics st
serve st (v1_topic_items topic) get = handle_by_topic st topic get
serve st healthz get = λ w. (write_json status_ok healthy, w)
