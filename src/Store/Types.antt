-- ===== src/Store/Types.antt =====
-- store/store.go: the rows, the queries and the answers. An `int` or `int64` that the program
-- subtracts from or that may be negative is a ℤ; a `uint32`, a byte and an index are ℕ.
use coinnews_indexer.Prelude.{
  ℕ, Option, [], Bool, Eq, ◌≡◌, ◌↔◌, ◌&&◌, true, bytes_beq, bytes_beq_iff, arith,
}
use coinnews_indexer.Prelude.Int.{ℤ, pos}
use coinnews_indexer.Codec.Types.{Bytes}

pub record Item : Type 0 where
  pub id : Bytes
  pub txid : Bytes
  pub vout : ℕ
  pub height : ℤ
  pub tx_index : ℕ
  pub vout_index : ℕ
  pub type_tag : ℕ
  pub block_time : ℤ

pub record Topic : Type 0 where
  pub topic : Bytes
  pub name : Bytes
  pub retention_days : ℕ
  pub created_height : ℤ
  pub txid : Bytes
  pub story_count : ℕ

pub record Story : Type 0 where
  pub id : Bytes
  pub topic : Bytes
  pub headline : Bytes
  pub subtype : ℕ
  pub url : Bytes
  pub body : Bytes
  pub lang : Bytes
  pub nsfw : Bool
  pub media_hash : Bytes
  pub raw_tlv : Bytes

pub record Comment : Type 0 where
  pub id : Bytes
  pub parent_id : Bytes
  pub author_xpk : Bytes
  pub body : Bytes
  pub url : Bytes
  pub lang : Bytes
  pub reply_quote : Bytes
  pub raw_tlv : Bytes

pub record Vote : Type 0 where
  pub target_id : Bytes
  pub author_xpk : Bytes
  pub kind : ℕ
  pub height : ℤ
  pub tx_index : ℕ
  pub vout_index : ℕ
  pub block_time : ℤ

pub record Continuation : Type 0 where
  pub head_id : Bytes
  pub seq : ℕ
  pub chunk : Bytes
  pub height : ℤ

-- A pointer that may be nil is an Option.
pub record FeedQuery : Type 0 where
  pub topic : Option Bytes
  pub subtype : Option ℕ
  pub include_nsfw : Bool
  pub limit : ℤ
  pub offset : ℤ
  pub now_unix : ℤ

-- `F` is the type of the scores, Go's float64.
pub record FeedItem (F : Type 0) : Type 0 where
  pub item : Item
  pub topic : Bytes
  pub headline : Bytes
  pub url : Bytes
  pub body : Bytes
  pub lang : Bytes
  pub subtype : ℕ
  pub nsfw : Bool
  pub author_xpk : Bytes
  pub points : ℤ
  pub comment_count : ℕ
  pub score : F

pub record ThreadComment (F : Type 0) : Type 0 where
  pub id : Bytes
  pub parent_id : Bytes
  pub author_xpk : Bytes
  pub body : Bytes
  pub url : Bytes
  pub lang : Bytes
  pub reply_quote : Bytes
  pub height : ℤ
  pub block_time : ℤ
  pub points : ℤ
  pub score : F

-- `Item{}`
abbrev pub zero_item : Item
zero_item = record {
  id = [];
  txid = [];
  vout = 0;
  height = pos 0;
  tx_index = 0;
  vout_index = 0;
  type_tag = 0;
  block_time = pos 0;
}

-- store/memory.go: the key of the votes.
pub record VoteKey : Type 0 where
  pub target : Bytes
  pub author : Bytes

unfoldable pub vote_key_beq : VoteKey → VoteKey → Bool
vote_key_beq a b = bytes_beq a.target b.target && bytes_beq a.author b.author

pub vote_key_beq_iff : (a b : VoteKey) → (vote_key_beq a b ≡ true) ↔ (a ≡ b)
unfolding vote_key_beq
vote_key_beq_iff a b =
    ground (arith, bytes_beq_iff a.target b.target, bytes_beq_iff a.author b.author)

instance abbrev pub vote_key_eq : Eq VoteKey
vote_key_eq = record { beq = vote_key_beq; beq_iff = vote_key_beq_iff }
