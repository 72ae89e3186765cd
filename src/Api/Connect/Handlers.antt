-- ===== src/Api/Connect/Handlers.antt =====
-- api/connect.go: the requests and the handlers of the Connect endpoints. `Sent` is what the JSON
-- decoder makes of the body of a request.
pub mod Agree
pub mod Backends
pub mod Paging
use coinnews_indexer.Prelude.{
  ℕ, List, [], ◌∷◌, length, take, drop, map, Option, none, some, Bool, true, ◌&&◌, if◌then◌else◌,
}
use coinnews_indexer.Prelude.Int.{ℤ, pos, pos_part, ltz, lez}
use coinnews_indexer.Codec.Types.{Bytes, Error}
use coinnews_indexer.Codec.ItemId.{parse_item_id}
use coinnews_indexer.Store.Types.{Topic, FeedItem, ThreadComment, FeedQuery}
use coinnews_indexer.Store.Interface.{Queries}
use coinnews_indexer.Api.{
  Problem, store_error, invalid_item_id, invalid_root_id, invalid_json, item_not_found, Parsed,
  parsed, refused, Response, Handler, answered, with_parsed, parsed_id, status_ok,
  status_bad_request, status_not_found, status_internal_server_error,
}
use coinnews_indexer.Api.Request.{parse_topic, parse_x_only}
use coinnews_indexer.Api.Connect.{
  SubtypeJson, unmarshal_json, limit_or_default, ConnectItem, ConnectComment, ConnectTopic,
  to_connect_item, to_connect_comment, to_connect_topic,
}

-- The body: none at all, one that does not decode, or a decoded request.
pub data Sent (A : Type 0) : Type 0 where
  no_body : Sent A
  garbled : Sent A
  sent : A → Sent A

-- The numbers are `uint32`s. A field that is missing is its zero value, and a pointer then nil.
pub record FeedReq : Type 0 where
  pub limit : ℕ
  pub offset : ℕ
  pub subtype : Option SubtypeJson
  pub topic_hex : Option Bytes

-- The requests of ListByAuthor and ListByTopic: the hex text, limit and offset.
pub record PageReq : Type 0 where
  pub hex : Bytes
  pub limit : ℕ
  pub offset : ℕ

abbrev pub no_feed_req : FeedReq
no_feed_req = record { limit = 0; offset = 0; subtype = none; topic_hex = none }

abbrev pub no_page_req : PageReq
no_page_req = record { hex = []; limit = 0; offset = 0 }

-- `decodeConnect`: an empty body leaves the request as it is.
unfoldable pub decode_connect : {A : Type 0} → A → Sent A → Parsed A
decode_connect req no_body = parsed req
decode_connect req garbled = refused invalid_json
decode_connect req (sent a) = parsed a

abbrev subtype_sent : Option SubtypeJson → Option ℕ
subtype_sent none = none
subtype_sent (some j) = some (unmarshal_json j)

-- An invalid topic is no filter.
abbrev valid_topic : Parsed Bytes → Option Bytes
valid_topic (parsed t) = some t
valid_topic (refused p) = none

abbrev pub topic_sent : Option Bytes → Option Bytes
topic_sent none = none
topic_sent (some []) = none
topic_sent (some (c ∷ s)) = valid_topic (parse_topic (c ∷ s))

unfoldable pub to_query : FeedReq → FeedQuery
to_query r = record {
  topic = topic_sent r.topic_hex;
  subtype = subtype_sent r.subtype;
  include_nsfw = true;
  limit = limit_or_default r.limit;
  offset = pos r.offset;
  now_unix = pos 0;
}

-- "invalid_argument", "internal" and "not_found"
pub data Code : Type 0 where
  invalid_argument : Code
  internal : Code
  not_found : Code

pub data ConnectBody (F : Type 0) : Type 0 where
  connect_error : Code → Problem → ConnectBody F
  connect_items : List (ConnectItem F) → ConnectBody F
  connect_item : ConnectItem F → ConnectBody F
  connect_comments : List (ConnectComment F) → ConnectBody F
  connect_topics : List ConnectTopic → ConnectBody F

module _ {F : Type 0} where
  abbrev pub connect_json : ℕ → ConnectBody F → Response (ConnectBody F)
  connect_json status body = record { status = status; body = body }

  abbrev pub connect_err : Code → ℕ → Problem → Response (ConnectBody F)
  connect_err code status p = connect_json status (connect_error code p)

  abbrev pub connect_bad : Problem → Response (ConnectBody F)
  connect_bad p = connect_err invalid_argument status_bad_request p

  abbrev pub connect_failed : Error → Response (ConnectBody F)
  connect_failed e = connect_err internal status_internal_server_error (store_error e)

module _ {F W : Type 0} (rfc3339 : ℤ → Bytes) (st : Queries F W) where
  abbrev pub items_ok : List (FeedItem F) → Response (ConnectBody F)
  items_ok fs = connect_json status_ok (connect_items (map (to_connect_item rfc3339) fs))

  abbrev pub comments_ok : List (ThreadComment F) → Response (ConnectBody F)
  comments_ok cs = connect_json status_ok (connect_comments (map (to_connect_comment rfc3339) cs))

  abbrev pub connect_found : Option (FeedItem F) → Response (ConnectBody F)
  connect_found none = connect_err not_found status_not_found item_not_found
  connect_found (some f) = connect_json status_ok (connect_item (to_connect_item rfc3339 f))

  unfoldable pub connect_front_page : Sent FeedReq → Handler W (ConnectBody F)
  connect_front_page body =
      with_parsed connect_bad (decode_connect no_feed_req body)
        λ req w. answered connect_failed items_ok (st.front_page (to_query req) w)

  unfoldable pub connect_new_feed : Sent FeedReq → Handler W (ConnectBody F)
  connect_new_feed body =
      with_parsed connect_bad (decode_connect no_feed_req body)
        λ req w. answered connect_failed items_ok (st.new_feed (to_query req) w)

  -- The request is the field `itemIdHex`.
  unfoldable pub connect_get_item : Sent Bytes → Handler W (ConnectBody F)
  connect_get_item body = with_parsed connect_bad (decode_connect [] body) λ text.
      with_parsed connect_bad (parsed_id invalid_item_id (parse_item_id text))
        λ id w. answered connect_failed connect_found (st.get_item id w)

  -- The request is the field `rootIdHex`.
  unfoldable pub connect_thread : Sent Bytes → Handler W (ConnectBody F)
  connect_thread body = with_parsed connect_bad (decode_connect [] body) λ text.
      with_parsed connect_bad (parsed_id invalid_root_id (parse_item_id text))
        λ id w. answered connect_failed comments_ok (st.thread id w)

  unfoldable pub connect_by_author : Sent PageReq → Handler W (ConnectBody F)
  connect_by_author body = with_parsed connect_bad (decode_connect no_page_req body) λ req.
      with_parsed connect_bad (parse_x_only req.hex) λ xpk w.
        answered connect_failed items_ok
          (st.items_by_author xpk (limit_or_default req.limit) (pos req.offset) w)

  unfoldable pub connect_by_topic : Sent PageReq → Handler W (ConnectBody F)
  connect_by_topic body = with_parsed connect_bad (decode_connect no_page_req body) λ req.
      with_parsed connect_bad (parse_topic req.hex) λ topic w.
        answered connect_failed items_ok
          (st.by_topic topic (limit_or_default req.limit) (pos req.offset) w)

  unfoldable pub connect_list_topics : Handler W (ConnectBody F)
  connect_list_topics w =
      answered connect_failed
        (λ ts. connect_json status_ok (connect_topics (map to_connect_topic ts))) (st.list_topics w)

-- The procedures behind `connectPrefix`, with the request that is sent.
pub data Procedure : Type 0 where
  list_front_page : Sent FeedReq → Procedure
  list_new_feed : Sent FeedReq → Procedure
  get_item : Sent Bytes → Procedure
  list_thread : Sent Bytes → Procedure
  list_by_author : Sent PageReq → Procedure
  list_by_topic : Sent PageReq → Procedure
  list_topics : Procedure

-- `connectRoutes`
unfoldable pub connect_serve :
    {F W : Type 0} → (ℤ → Bytes) → Queries F W → Procedure → Handler W (ConnectBody F)
connect_serve rfc3339 st (list_front_page body) = connect_front_page rfc3339 st body
connect_serve rfc3339 st (list_new_feed body) = connect_new_feed rfc3339 st body
connect_serve rfc3339 st (get_item body) = connect_get_item rfc3339 st body
connect_serve rfc3339 st (list_thread body) = connect_thread rfc3339 st body
connect_serve rfc3339 st (list_by_author body) = connect_by_author rfc3339 st body
connect_serve rfc3339 st (list_by_topic body) = connect_by_topic rfc3339 st body
connect_serve rfc3339 st list_topics = connect_list_topics rfc3339 st

-- `none` is a panic: a slice from a negative offset.
unfoldable pub page_connect : {A : Type 0} → List A → ℤ → ℤ → Option (List A)
page_connect items limit offset =
    if lez (pos (length items)) offset
    then some []
    else if ltz offset (pos 0)
    then none
    else let rest = drop (pos_part offset) items in
      some (
        if ltz (pos 0) limit && ltz limit (pos (length rest))
        then take (pos_part limit) rest
        else rest)
