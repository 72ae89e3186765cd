-- ===== src/Api/Dto.antt =====
-- api/dto.go: the rows of the answers. A field that is left out where it is empty is the empty string
-- here.
pub mod Links
use coinnews_indexer.Prelude.{ℕ, List, [], ◌∷◌, Bool, if◌then◌else◌, bytes_beq, map}
use coinnews_indexer.Prelude.Int.{ℤ}
use coinnews_indexer.Codec.Types.{Bytes}
use coinnews_indexer.Codec.Hex.{encode_to_string}
use coinnews_indexer.Codec.ItemId.{id_string}
use coinnews_indexer.Store.Types.{Topic, FeedItem, ThreadComment}
use coinnews_indexer.Store.Memory.Reads.{zero_key}

pub record ItemDto (F : Type 0) : Type 0 where
  pub item_id : Bytes
  pub topic : Bytes
  pub headline : Bytes
  pub url : Bytes
  pub body : Bytes
  pub subtype : ℕ
  pub lang : Bytes
  pub nsfw : Bool
  pub author_xpk : Bytes
  pub txid : Bytes
  pub vout : ℕ
  pub block_height : ℤ
  pub block_time : ℤ
  pub points : ℤ
  pub comment_count : ℕ
  pub score : F

pub record CommentDto (F : Type 0) : Type 0 where
  pub item_id : Bytes
  pub parent_id : Bytes
  pub author_xpk : Bytes
  pub body : Bytes
  pub url : Bytes
  pub lang : Bytes
  pub reply_quote : Bytes
  pub block_height : ℤ
  pub block_time : ℤ
  pub points : ℤ
  pub score : F

pub record TopicDto : Type 0 where
  pub topic : Bytes
  pub name : Bytes
  pub story_count : ℕ
  pub retention_days : ℕ
  pub created_height : ℤ
  pub txid : Bytes

unfoldable pub author_hex : Bytes → Bytes
author_hex xpk = if bytes_beq xpk zero_key then [] else encode_to_string xpk

unfoldable pub to_item : {F : Type 0} → FeedItem F → ItemDto F
to_item f = record {
  item_id = id_string f.item.id;
  topic = encode_to_string f.topic;
  headline = f.headline;
  url = f.url;
  body = f.body;
  subtype = f.subtype;
  lang = f.lang;
  nsfw = f.nsfw;
  author_xpk = author_hex f.author_xpk;
  txid = f.item.txid;
  vout = f.item.vout;
  block_height = f.item.height;
  block_time = f.item.block_time;
  points = f.points;
  comment_count = f.comment_count;
  score = f.score;
}

unfoldable pub to_comment : {F : Type 0} → ThreadComment F → CommentDto F
to_comment c = record {
  item_id = id_string c.id;
  parent_id = id_string c.parent_id;
  author_xpk = encode_to_string c.author_xpk;
  body = c.body;
  url = c.url;
  lang = c.lang;
  reply_quote = c.reply_quote;
  block_height = c.height;
  block_time = c.block_time;
  points = c.points;
  score = c.score;
}

unfoldable pub to_topic : Topic → TopicDto
to_topic t = record {
  topic = encode_to_string t.topic;
  name = t.name;
  story_count = t.story_count;
  retention_days = t.retention_days;
  created_height = t.created_height;
  txid = t.txid;
}
