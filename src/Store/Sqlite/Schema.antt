-- ===== src/Store/Sqlite/Schema.antt =====
-- store/schema.sql, and how store/sqlite.go writes rows to columns and reads them back.
use coinnews_indexer.Prelude.{
  ℕ, List, [], ◌∷◌, Option, none, some, Bool, true, false, not, ◌==◌, ◌≡◌, ◌&&◌, ◌||◌, ◌↔◌, Eq,
  arith, bytes_beq, bytes_beq_iff, refl,
}
use coinnews_indexer.Prelude.Int.{ℤ}
use coinnews_indexer.Codec.Types.{Bytes}
use coinnews_indexer.Store.Types.{Item, Topic, Story, Comment, Vote, Continuation, VoteKey}

-- A column that may be NULL is an Option.
pub record TopicRow : Type 0 where
  pub topic : Bytes
  pub name : Bytes
  pub retention_days : ℕ
  pub created_height : ℤ
  pub txid : Bytes

pub record StoryRow : Type 0 where
  pub item_id : Bytes
  pub topic : Bytes
  pub headline : Bytes
  pub subtype : ℕ
  pub url : Option Bytes
  pub body : Option Bytes
  pub lang : Option Bytes
  pub nsfw : ℕ
  pub media_hash : Option Bytes
  pub raw_tlv : Bytes

pub record CommentRow : Type 0 where
  pub item_id : Bytes
  pub parent_id : Bytes
  pub author_xpk : Bytes
  pub body : Option Bytes
  pub url : Option Bytes
  pub lang : Option Bytes
  pub reply_quote : Option Bytes
  pub raw_tlv : Bytes

-- The rows of cn_items, cn_votes and cn_continuations have the fields of the Go structs. The flag
-- is the pragma `foreign_keys`, which a database in a file has on and one in memory has off.
pub record Tables : Type 0 where
  pub cn_items : List Item
  pub cn_topics : List TopicRow
  pub cn_stories : List StoryRow
  pub cn_comments : List CommentRow
  pub cn_votes : List Vote
  pub cn_continuations : List Continuation
  pub cn_scanner_cursor : Option (ℤ × Bytes)
  pub foreign_keys : Bool

-- The tables that the schema creates.
abbrev pub empty_tables : Bool → Tables
empty_tables on = record {
  cn_items = [];
  cn_topics = [];
  cn_stories = [];
  cn_comments = [];
  cn_votes = [];
  cn_continuations = [];
  cn_scanner_cursor = none;
  foreign_keys = on;
}

-- strings.HasPrefix
has_prefix : Bytes → Bytes → Bool
has_prefix s [] = true
has_prefix [] (p ∷ prefix) = false
has_prefix (c ∷ s) (p ∷ prefix) = (c == p) && has_prefix s prefix

-- ":memory:" and "file::memory:"
unfoldable pub in_memory : Bytes → Bool
unfolding has_prefix
in_memory path =
    bytes_beq path (b':' ∷ b'm' ∷ b'e' ∷ b'm' ∷ b'o' ∷ b'r' ∷ b'y' ∷ b':' ∷ [])
    || has_prefix path (
        b'f' ∷ b'i' ∷ b'l' ∷ b'e' ∷ b':' ∷ b':' ∷ b'm' ∷ b'e' ∷ b'm' ∷ b'o' ∷ b'r' ∷ b'y' ∷ b':'
        ∷ [])

-- The tables at a path, made by the schema where they are not there. The pragma is in the DSN of a file.
unfoldable pub open_sqlite : Bytes → Option Tables → Tables
open_sqlite path none = empty_tables (not (in_memory path))
open_sqlite path (some t) = record t { foreign_keys = not (in_memory path) }

abbrev pub null_str : Bytes → Option Bytes
null_str [] = none
null_str (b ∷ s) = some (b ∷ s)

-- `nullBytes`: the same test of the length.
abbrev pub null_bytes : Bytes → Option Bytes
null_bytes [] = none
null_bytes (b ∷ s) = some (b ∷ s)

abbrev pub bool_int : Bool → ℕ
bool_int true = 1
bool_int false = 0

-- COALESCE(column, '')
abbrev pub coalesce : Option Bytes → Bytes
coalesce none = []
coalesce (some s) = s

pub coalesce-null_str : (s : Bytes) → coalesce (null_str s) ≡ s
coalesce-null_str [] = refl
coalesce-null_str (b ∷ s) = refl

pub coalesce-null_bytes : (s : Bytes) → coalesce (null_bytes s) ≡ s
coalesce-null_bytes [] = refl
coalesce-null_bytes (b ∷ s) = refl

-- The values of the INSERT statements.
unfoldable pub topic_row : Topic → TopicRow
topic_row t = record {
  topic = t.topic;
  name = t.name;
  retention_days = t.retention_days;
  created_height = t.created_height;
  txid = t.txid;
}

unfoldable pub story_row : Story → StoryRow
story_row s = record {
  item_id = s.id;
  topic = s.topic;
  headline = s.headline;
  subtype = s.subtype;
  url = null_str s.url;
  body = null_str s.body;
  lang = null_str s.lang;
  nsfw = bool_int s.nsfw;
  media_hash = null_bytes s.media_hash;
  raw_tlv = s.raw_tlv;
}

unfoldable pub comment_row : Comment → CommentRow
comment_row c = record {
  item_id = c.id;
  parent_id = c.parent_id;
  author_xpk = c.author_xpk;
  body = null_str c.body;
  url = null_str c.url;
  lang = null_str c.lang;
  reply_quote = null_str c.reply_quote;
  raw_tlv = c.raw_tlv;
}

-- PRIMARY KEY (target_id, author_xpk)
abbrev pub vote_key_of : Vote → VoteKey
vote_key_of v = record { target = v.target_id; author = v.author_xpk }

-- PRIMARY KEY (head_id, seq), and (txid, vout)
abbrev pub chunk_key : Continuation → Bytes × ℕ
chunk_key c = (c.head_id, c.seq)

abbrev pub pair_beq : Bytes × ℕ → Bytes × ℕ → Bool
pair_beq a b = bytes_beq a.0 b.0 && (a.1 == b.1)

pub pair_beq_iff : (a b : Bytes × ℕ) → (pair_beq a b ≡ true) ↔ (a ≡ b)
pair_beq_iff (a, n) (b, m) = ground (arith, bytes_beq_iff a b)

instance abbrev pub pair_eq : Eq (Bytes × ℕ)
pair_eq = record { beq = pair_beq; beq_iff = pair_beq_iff }
