-- ===== src/Tests/Data.antt =====
-- Messages, rows and parameters to run the definitions on.
use coinnews_indexer.Prelude.{
  ℕ, zero, suc, ◌<◌, ◌≡◌, refl, ap, [], ◌∷◌, some, false, bytes_beq, arith, ltb, length, ◌==◌, ◌+◌,
}
use coinnews_indexer.Prelude.Int.{ℤ, pos, pos_part}
use coinnews_indexer.Codec.Types.{Bytes, AllBytes, IsArray, Tlv, Story, Comment, Vote}
use coinnews_indexer.Codec.Crypto.{Crypto}
use coinnews_indexer.Store.Ranking.{Floats}
use coinnews_indexer.Store.Ranking.Orders.{IsTotal}
use coinnews_indexer.Store.Types as Row

abbrev pub fill : ℕ → ℕ → Bytes
fill zero k = []
fill (suc n) k = k ∷ fill n k

fill_bytes : (n k : ℕ) → k < 256 → AllBytes (fill n k)
fill_bytes zero k h = tt
fill_bytes (suc n) k h = (h, fill_bytes n k h)

pub fill-IsArray : (n k : ℕ) → k < 256 → IsArray n (fill n k)
fill-IsArray n k h = record { bytes = fill_bytes n k h; size = fill_size n }
  where
    fill_size : (i : ℕ) → length (fill i k) ≡ i
    fill_size zero = refl
    fill_size (suc i) = ap suc (fill_size i)

abbrev pub a_tlv : Tlv
a_tlv = record { tag = 1; value = b'u' ∷ [] }

abbrev pub a_story : Story
a_story = record { topic = fill 4 7; headline = b'h' ∷ b'i' ∷ []; tlvs = a_tlv ∷ [] }

abbrev pub a_vote : Vote
a_vote = record { kind = 4; target_id = fill 12 1; author_xpk = fill 32 2; sig = fill 64 3 }

abbrev pub a_comment : Comment
a_comment = record {
  parent_id = fill 12 1;
  author_xpk = fill 32 2;
  sig = fill 64 3;
  tlv_blob = [];
  tlvs = [];
}

-- Keys and signatures that always parse, and a signature that verifies if it is the digest.
abbrev pub a_crypto : Crypto
a_crypto = record {
  PubKey = Bytes;
  Signature = Bytes;
  sha256 = λ b. fill 32 9;
  parse_pub_key = λ b. some b;
  parse_signature = λ b. some b;
  verify = λ sig digest key. bytes_beq sig digest;
}

-- A hash that is the identity: the id of a txid of one repeated byte has that byte.
abbrev pub mirror_crypto : Crypto
mirror_crypto = record a_crypto { sha256 = λ b. b }

-- Natural numbers in the place of float64.
abbrev pub a_floats : Floats
a_floats = record {
  F = ℕ;
  of_int = pos_part;
  add = ◌+◌;
  div = λ a b. a;
  pow = λ a b. a;
  lt = ltb;
  eq = ◌==◌;
  c3600 = 3600;
  c0 = 0;
  c2 = 2;
  c1_8 = 1;
}

pub a_floats-IsTotal : IsTotal a_floats
a_floats-IsTotal = record {
  irrefl = λ a. ground arith;
  trans = λ a b c h k. ground arith;
  total = λ a b h k. ground arith;
  eq_sound = λ a b h. ground arith;
  eq_refl = λ a. ground arith;
}

abbrev pub item_at : ℕ → ℤ → Row.Item
item_at i height = record {
  id = fill 12 i;
  txid = fill 4 i;
  vout = 0;
  height = height;
  tx_index = 0;
  vout_index = 0;
  type_tag = 2;
  block_time = pos 1700;
}

abbrev pub vote_at_height : ℕ → Row.Vote
vote_at_height h = record {
  target_id = fill 12 1;
  author_xpk = fill 32 2;
  kind = 4;
  height = pos h;
  tx_index = 0;
  vout_index = 0;
  block_time = pos 1700;
}

abbrev pub topic_at : ℕ → Row.Topic
topic_at h = record {
  topic = fill 4 7;
  name = b't' ∷ [];
  retention_days = 7;
  created_height = pos h;
  txid = [];
  story_count = 0;
}

abbrev pub story_row : ℕ → Row.Story
story_row i = record {
  id = fill 12 i;
  topic = fill 4 7;
  headline = b'h' ∷ [];
  subtype = 0;
  url = [];
  body = [];
  lang = [];
  nsfw = false;
  media_hash = [];
  raw_tlv = [];
}

abbrev pub comment_row : ℕ → ℕ → Row.Comment
comment_row i parent = record {
  id = fill 12 i;
  parent_id = fill 12 parent;
  author_xpk = fill 32 2;
  body = b'b' ∷ [];
  url = [];
  lang = [];
  reply_quote = [];
  raw_tlv = [];
}

abbrev pub feed_row : ℕ → ℕ → Row.FeedItem ℕ
feed_row i score = record {
  item = item_at i (pos i);
  topic = fill 4 7;
  headline = [];
  url = [];
  body = [];
  lang = [];
  subtype = 0;
  nsfw = false;
  author_xpk = [];
  points = pos 0;
  comment_count = 0;
  score = score;
}

abbrev pub thread_row : ℕ → ℕ → Row.ThreadComment ℕ
thread_row i height = record {
  id = fill 12 i;
  parent_id = [];
  author_xpk = [];
  body = [];
  url = [];
  lang = [];
  reply_quote = [];
  height = pos height;
  block_time = pos 0;
  points = pos 0;
  score = 0;
}
