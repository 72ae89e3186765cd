-- ===== src/Store/Sqlite/Refines.antt =====
-- store/sqlite.go against store/memory.go: the tables as the maps of the in-memory backend.
pub mod Gone
pub mod Calls
pub mod Stories
pub mod Votes
pub mod Rewinds
pub mod Engine
use coinnews_indexer.Prelude.{
  ℕ, ◌≡◌, refl, sym, ap, ◌∙◌, List, [], ◌∷◌, ◌++◌, Option, none, some, Bool, true, false, not, ◌&&◌,
  ◌||◌, arith, if◌then◌else◌, ◌==◌, keep, All, bytes_eq, bytes_beq, bytes_beq_iff, refl_beq,
  Option-cases, Bool-cases, inl, inr,
}
use coinnews_indexer.Prelude.Int.{ℤ, pos, lez}
use coinnews_indexer.Codec.Types.{Bytes, Result, ok, err}
use coinnews_indexer.Codec.Crypto.{Crypto}
use coinnews_indexer.Codec.ItemId.{item_id_from_rpc}
use coinnews_indexer.GoMap.{GoMap, get, Distinct}
use coinnews_indexer.Store.Types.{
  Item, Topic, Story, Comment, Vote, Continuation, VoteKey, vote_key_eq,
}
use coinnews_indexer.Store.Sql.{find_by, any}
use coinnews_indexer.Store.Sql.Laws.{keyed}
use coinnews_indexer.Store.Memory.{MemoryStore, load_cursor}
use coinnews_indexer.Store.Sqlite.{cursor_found}
use coinnews_indexer.Store.Sqlite.Schema.{
  Tables, TopicRow, StoryRow, CommentRow, topic_row, story_row, comment_row, coalesce,
  coalesce-null_str, coalesce-null_bytes, null_str, vote_key_of,
}
use coinnews_indexer.Scanner.Simulate.{HasId}

-- The rows read back as the structs that were written.
unfoldable pub topic_of : TopicRow → Topic
topic_of r = record {
  topic = r.topic;
  name = r.name;
  retention_days = r.retention_days;
  created_height = r.created_height;
  txid = r.txid;
  story_count = 0;
}

unfoldable pub story_of : StoryRow → Story
story_of r = record {
  id = r.item_id;
  topic = r.topic;
  headline = r.headline;
  subtype = r.subtype;
  url = coalesce r.url;
  body = coalesce r.body;
  lang = coalesce r.lang;
  nsfw = not (r.nsfw == 0);
  media_hash = coalesce r.media_hash;
  raw_tlv = r.raw_tlv;
}

unfoldable pub comment_of : CommentRow → Comment
comment_of r = record {
  id = r.item_id;
  parent_id = r.parent_id;
  author_xpk = r.author_xpk;
  body = coalesce r.body;
  url = coalesce r.url;
  lang = coalesce r.lang;
  reply_quote = coalesce r.reply_quote;
  raw_tlv = r.raw_tlv;
}

pub topic_of-topic_row : (t : Topic) → t.story_count ≡ 0 → topic_of (topic_row t) ≡ t
unfolding topic_of topic_row
topic_of-topic_row t h = ground arith

pub story_of-story_row : (s : Story) → story_of (story_row s) ≡ s
unfolding story_of story_row
story_of-story_row s = ground (
  arith,
  coalesce-null_str s.url,
  coalesce-null_str s.body,
  coalesce-null_str s.lang,
  coalesce-null_bytes s.media_hash,
)

pub comment_of-comment_row : (c : Comment) → comment_of (comment_row c) ≡ c
unfolding comment_of comment_row
comment_of-comment_row c = ground (
  arith,
  coalesce-null_str c.body,
  coalesce-null_str c.url,
  coalesce-null_str c.lang,
  coalesce-null_str c.reply_quote,
)

-- The tables hold what the in-memory backend holds. Continuations are left out: no call reads them.
pub record Stored (crypto : Crypto) (t : Tables) (m : MemoryStore) : Type 0 where
  pub items : m.items ≡ keyed (λ r. r.id) (λ r. r) t.cn_items
  pub topics : m.topics ≡ keyed (λ r. r.topic) topic_of t.cn_topics
  pub stories : m.stories ≡ keyed (λ r. r.item_id) story_of t.cn_stories
  pub comments : m.comments ≡ keyed (λ r. r.item_id) comment_of t.cn_comments
  pub votes : m.votes ≡ keyed vote_key_of (λ v. v) t.cn_votes
  pub cursor : load_cursor m ≡ cursor_found t.cn_scanner_cursor
  pub distinct : Distinct m.items
  pub ids : All (HasId crypto) t.cn_items
