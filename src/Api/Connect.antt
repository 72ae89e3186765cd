-- ===== src/Api/Connect.antt =====
-- api/connect.go: the rows of the Connect endpoints, and their conversions.
pub mod Subtypes
pub mod Handlers
use coinnews_indexer.Prelude.{
  ℕ, zero, suc, ◌+◌, ◌-◌, ◌%◌, ◌^◌, ◌==◌, ltb, List, [], ◌∷◌, length, take, drop, map, Option, none,
  some, Bool, true, false, ◌&&◌, if◌then◌else◌, bytes_beq,
}
use coinnews_indexer.Prelude.Int.{ℤ, pos, negsuc, pos_part, neg_part, ltz, lez, ◌-ℤ◌}
use coinnews_indexer.Codec.Types.{Bytes, Error}
use coinnews_indexer.Codec.Hex.{encode_to_string}
use coinnews_indexer.Codec.ItemId.{id_string, parse_item_id}
use coinnews_indexer.Store.Types.{Topic, FeedItem, ThreadComment, FeedQuery}
use coinnews_indexer.Store.Interface.{Queries}
use coinnews_indexer.Api.{
  Problem, store_error, invalid_item_id, invalid_root_id, invalid_json, item_not_found, Parsed,
  parsed, refused, Response, Handler, answered, with_parsed, parsed_id, status_ok,
  status_bad_request, status_not_found, status_internal_server_error,
}
use coinnews_indexer.Api.Request.{parse_topic, parse_x_only}
use coinnews_indexer.Api.Dto.{author_hex}

abbrev connect_default_limit : ℤ
connect_default_limit = pos 50

unfoldable pub limit_or_default : ℕ → ℤ
limit_or_default n = if n == 0 then connect_default_limit else pos n

abbrev pub subtype_names : List Bytes
subtype_names =
    (b'S' ∷ b'U' ∷ b'B' ∷ b'T' ∷ b'Y' ∷ b'P' ∷ b'E' ∷ b'_' ∷ b'L' ∷ b'I' ∷ b'N' ∷ b'K' ∷ [])
    ∷ (b'S' ∷ b'U' ∷ b'B' ∷ b'T' ∷ b'Y' ∷ b'P' ∷ b'E' ∷ b'_' ∷ b'T' ∷ b'E' ∷ b'X' ∷ b'T' ∷ [])
    ∷ (b'S' ∷ b'U' ∷ b'B' ∷ b'T' ∷ b'Y' ∷ b'P' ∷ b'E' ∷ b'_' ∷ b'A' ∷ b'S' ∷ b'K' ∷ [])
    ∷ (b'S' ∷ b'U' ∷ b'B' ∷ b'T' ∷ b'Y' ∷ b'P' ∷ b'E' ∷ b'_' ∷ b'S' ∷ b'H' ∷ b'O' ∷ b'W' ∷ [])
    ∷ (b'S' ∷ b'U' ∷ b'B' ∷ b'T' ∷ b'Y' ∷ b'P' ∷ b'E' ∷ b'_' ∷ b'P' ∷ b'O' ∷ b'L' ∷ b'L' ∷ [])
    ∷ (b'S' ∷ b'U' ∷ b'B' ∷ b'T' ∷ b'Y' ∷ b'P' ∷ b'E' ∷ b'_' ∷ b'J' ∷ b'O' ∷ b'B' ∷ [])
    ∷ []

-- `subtypeNames[i]`, and the first of them where there is none.
name_at : List Bytes → ℕ → Option Bytes
name_at [] i = none
name_at (n ∷ ns) zero = some n
name_at (n ∷ ns) (suc i) = name_at ns i

abbrev name_or : Bytes → Option Bytes → Bytes
name_or first none = first
name_or first (some n) = n

unfoldable pub subtype_name : ℕ → Bytes
unfolding name_at
subtype_name s =
    name_or (b'S' ∷ b'U' ∷ b'B' ∷ b'T' ∷ b'Y' ∷ b'P' ∷ b'E' ∷ b'_' ∷ b'L' ∷ b'I' ∷ b'N' ∷ b'K' ∷ [])
      (name_at subtype_names s)

from_name_loop : List Bytes → ℕ → Bytes → ℕ
from_name_loop [] i name = 0
from_name_loop (n ∷ ns) i name =
    let rest = from_name_loop ns (suc i) name in if bytes_beq n name then i else rest

unfoldable pub subtype_from_name : Bytes → ℕ
unfolding from_name_loop
subtype_from_name name = from_name_loop subtype_names 0 name

-- `uint32(n)` and `int32(n)`
unfoldable pub to_uint32 : ℤ → ℕ
to_uint32 (pos n) = n % 2 ^ 32
to_uint32 (negsuc n) = 2 ^ 32 - 1 - n % 2 ^ 32

unfoldable pub to_int32 : ℤ → ℤ
to_int32 n = let u = to_uint32 n in if ltb u (2 ^ 31) then pos u else pos u -ℤ pos (2 ^ 32)

-- `codec.Subtype(n)`, a byte
unfoldable pub to_subtype : ℤ → ℕ
to_subtype (pos n) = n % 256
to_subtype (negsuc n) = 255 - n % 256

-- The JSON value of a subtype: an integer, a string or neither.
pub data SubtypeJson : Type 0 where
  number : ℤ → SubtypeJson
  name : Bytes → SubtypeJson
  neither : SubtypeJson

unfoldable pub unmarshal_json : SubtypeJson → ℕ
unmarshal_json (number n) = to_subtype n
unmarshal_json (name s) = subtype_from_name s
unmarshal_json neither = 0

pub record ConnectItem (F : Type 0) : Type 0 where
  pub item_id_hex : Bytes
  pub topic_hex : Bytes
  pub headline : Bytes
  pub url : Bytes
  pub body : Bytes
  pub subtype : Bytes
  pub lang : Bytes
  pub nsfw : Bool
  pub author_xpk_hex : Bytes
  pub block_height : ℕ
  pub block_time : Bytes
  pub points : ℤ
  pub comment_count : ℤ
  pub score : F

pub record ConnectComment (F : Type 0) : Type 0 where
  pub item_id_hex : Bytes
  pub parent_id_hex : Bytes
  pub author_xpk_hex : Bytes
  pub body : Bytes
  pub url : Bytes
  pub lang : Bytes
  pub reply_quote : Bytes
  pub block_height : ℕ
  pub block_time : Bytes
  pub points : ℤ
  pub score : F

pub record ConnectTopic : Type 0 where
  pub topic_hex : Bytes
  pub name : Bytes
  pub retention_days : ℕ
  pub created_height : ℕ
  pub txid : Bytes

-- `rfc3339` formats a Unix time in UTC.
module _ {F : Type 0} (rfc3339 : ℤ → Bytes) where
  unfoldable pub to_connect_item : FeedItem F → ConnectItem F
  to_connect_item f = record {
    item_id_hex = id_string f.item.id;
    topic_hex = encode_to_string f.topic;
    headline = f.headline;
    url = f.url;
    body = f.body;
    subtype = subtype_name f.subtype;
    lang = f.lang;
    nsfw = f.nsfw;
    author_xpk_hex = author_hex f.author_xpk;
    block_height = to_uint32 f.item.height;
    block_time = rfc3339 f.item.block_time;
    points = to_int32 f.points;
    comment_count = to_int32 (pos f.comment_count);
    score = f.score;
  }

  unfoldable pub to_connect_comment : ThreadComment F → ConnectComment F
  to_connect_comment c = record {
    item_id_hex = id_string c.id;
    parent_id_hex = id_string c.parent_id;
    author_xpk_hex = encode_to_string c.author_xpk;
    body = c.body;
    url = c.url;
    lang = c.lang;
    reply_quote = c.reply_quote;
    block_height = to_uint32 c.height;
    block_time = rfc3339 c.block_time;
    points = to_int32 c.points;
    score = c.score;
  }

unfoldable pub to_connect_topic : Topic → ConnectTopic
to_connect_topic t = record {
  topic_hex = encode_to_string t.topic;
  name = t.name;
  retention_days = t.retention_days;
  created_height = to_uint32 t.created_height;
  txid = t.txid;
}
