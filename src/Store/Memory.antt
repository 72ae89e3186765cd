-- ===== src/Store/Memory.antt =====
-- store/memory.go: the in-memory backend, its state and its writes. The mutex is not modelled: the
-- methods are atomic. No method returns an error, so none is modelled here.
pub mod Reads
pub mod Backend
pub mod Queries
pub mod Decimal
pub mod Writes
pub mod Consistent
pub mod Bounded
pub mod Grows
pub mod Rewind
pub mod Deletes
pub mod Replay
pub mod Thread
use coinnews_indexer.Prelude.{
  ℕ, zero, suc, ◌+◌, ◌/◌, ◌%◌, List, [], ◌∷◌, ◌++◌, Option, none, some, Bool, true, false, not,
  ◌||◌, if◌then◌else◌, ltb, ◌==◌, bytes_eq, nat_eq,
}
use coinnews_indexer.Prelude.Int.{ℤ, pos, pos_part, neg_part, ltz, lez, eqz}
use coinnews_indexer.Codec.Types.{Bytes}
use coinnews_indexer.GoMap.{GoMap, get, put, delete, retain}
use coinnews_indexer.Store.Types.{
  Item, Topic, Story, Comment, Vote, Continuation, VoteKey, vote_key_eq, zero_item,
}

pub record MemoryStore : Type 0 where
  pub items : GoMap Bytes Item
  pub by_out : GoMap Bytes Bytes
  pub topics : GoMap Bytes Topic
  pub stories : GoMap Bytes Story
  pub comments : GoMap Bytes Comment
  pub votes : GoMap VoteKey Vote
  pub conts : GoMap Bytes (GoMap ℕ Continuation)
  pub cursor_h : ℤ
  pub cursor_hs : Bytes
  pub has_cur : Bool

abbrev pub new_memory : MemoryStore
new_memory = record {
  items = [];
  by_out = [];
  topics = [];
  stories = [];
  comments = [];
  votes = [];
  conts = [];
  cursor_h = pos 0;
  cursor_hs = [];
  has_cur = false;
}

-- The loop of `itoa`, in front of the digits that it has written. A uint32 has 10 digits at most.
itoa_loop : ℕ → ℕ → Bytes → Bytes
itoa_loop zero v digits = digits
itoa_loop (suc fuel) v digits =
    let rest = itoa_loop fuel (v / 10) ((b'0' + v % 10) ∷ digits) in
    if ltb 0 v then rest else digits

unfoldable pub itoa : ℕ → Bytes
unfolding itoa_loop
itoa v = if v == 0 then b'0' ∷ [] else itoa_loop 10 v []

unfoldable pub out_key : Bytes → ℕ → Bytes
unfolding itoa
out_key txid vout = txid ++ (b':' ∷ itoa vout)

unfoldable pub save_cursor : ℤ → Bytes → MemoryStore → MemoryStore
save_cursor height hash m = record m { cursor_h = height; cursor_hs = hash; has_cur = true }

unfoldable pub load_cursor : MemoryStore → ℤ × Bytes × Bool
load_cursor m = (m.cursor_h, m.cursor_hs, m.has_cur)

-- One round of the first loop of `DeleteFromHeight`.
delete_item : ℤ → MemoryStore → Bytes → Item → MemoryStore
unfolding out_key
delete_item height m id it =
    if lez height it.height
    then record m {
      items = delete m.items id;
      by_out = delete m.by_out (out_key it.txid it.vout);
      stories = delete m.stories id;
      comments = delete m.comments id;
      conts = delete m.conts id;
    }
    else m

-- The loop ranges over the items that are there when it starts.
pub delete_items : ℤ → GoMap Bytes Item → MemoryStore → MemoryStore
unfolding delete_item
delete_items height [] m = m
delete_items height ((id, it) ∷ rest) m = delete_items height rest (delete_item height m id it)

unfoldable pub delete_from_height : ℤ → MemoryStore → MemoryStore
unfolding delete_items
delete_from_height height m =
    let m' = delete_items height m.items m in
    record m' {
      votes = retain (λ v. not (lez height v.height)) m'.votes;
      topics = retain (λ t. not (lez height t.created_height)) m'.topics;
    }

unfoldable pub put_item : Item → MemoryStore → MemoryStore
unfolding out_key
put_item it m = elim (get m.items it.id) [
  | some _ ↦ m
  | none ↦ record m {
    items = put m.items it.id it;
    by_out = put m.by_out (out_key it.txid it.vout) it.id;
  }
]

unfoldable pub insert_topic_if_absent : Topic → MemoryStore → Bool × MemoryStore
insert_topic_if_absent t m = elim (get m.topics t.topic) [
  | some _ ↦ (false, m)
  | none ↦ (true, record m { topics = put m.topics t.topic t })
]

unfoldable pub put_story : Story → MemoryStore → MemoryStore
put_story s m = elim (get m.stories s.id) [
  | some _ ↦ m
  | none ↦ record m { stories = put m.stories s.id s }
]

unfoldable pub put_comment : Comment → MemoryStore → MemoryStore
put_comment c m = elim (get m.comments c.id) [
  | some _ ↦ m
  | none ↦ record m { comments = put m.comments c.id c }
]

-- a comes after b in canonical scan order
unfoldable pub later_than : Vote → Vote → Bool
later_than a b =
    if not (eqz a.height b.height)
    then ltz b.height a.height
    else if not (a.tx_index == b.tx_index)
    then ltb b.tx_index a.tx_index
    else ltb b.vout_index a.vout_index

abbrev pub vote_key : Vote → VoteKey
vote_key v = record { target = v.target_id; author = v.author_xpk }

-- The vote that is kept where `cur` is the one that is there.
abbrev pub newer : Vote → Option Vote → Vote
newer v none = v
newer v (some cur) = if not (later_than v cur) then cur else v

unfoldable pub put_vote : Vote → MemoryStore → MemoryStore
put_vote v m = elim (get m.votes (vote_key v)) [
  | none ↦ record m { votes = put m.votes (vote_key v) v }
  | some cur ↦ if not (later_than v cur) then m else record m { votes = put m.votes (vote_key v) v }
]

-- `seqs == nil`: the inner map is made where it is missing.
seqs_of : Option (GoMap ℕ Continuation) → GoMap ℕ Continuation
seqs_of none = []
seqs_of (some seqs) = seqs

insert_chunk : Continuation → GoMap ℕ Continuation → GoMap ℕ Continuation
insert_chunk c seqs = elim (get seqs c.seq) [ some _ ↦ seqs | none ↦ put seqs c.seq c ]

unfoldable pub put_continuation : Continuation → MemoryStore → MemoryStore
unfolding seqs_of insert_chunk
put_continuation c m = record m {
  conts = put m.conts c.head_id (insert_chunk c (seqs_of (get m.conts c.head_id)));
}

-- `m.items[id]`, with Go's zero value where there is none.
unfoldable pub item_or_zero : Option Item → Item
item_or_zero none = zero_item
item_or_zero (some it) = it

unfoldable pub item_by_outpoint : Bytes → ℕ → MemoryStore → Option Item
unfolding out_key item_or_zero
item_by_outpoint txid vout m = elim (get m.by_out (out_key txid vout)) [
  | none ↦ none
  | some id ↦ some (item_or_zero (get m.items id))
]

unfoldable pub item_by_id : Bytes → MemoryStore → Option Item
item_by_id id m = get m.items id
