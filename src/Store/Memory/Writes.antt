-- ===== src/Store/Memory/Writes.antt =====
-- store/memory.go: what InsertTopicIfAbsent and PutVote leave for a key.
use coinnews_indexer.Prelude.{
  ◌≡◌, refl, ap, ◌∙◌, List, [], ◌∷◌, Option, none, some, Bool, true, false, arith, if◌then◌else◌,
  bytes_eq, bytes_beq, bytes_beq_iff,
}
use coinnews_indexer.Prelude.Int.{eqz}
use coinnews_indexer.Codec.Types.{Bytes}
use coinnews_indexer.GoMap.{get, Distinct}
use coinnews_indexer.GoMap.Laws.{get-put, Distinct-put}
use coinnews_indexer.Store.Types.{Topic, Vote, VoteKey, vote_key_eq, vote_key_beq, vote_key_beq_iff}
use coinnews_indexer.Store.Memory.{
  MemoryStore, insert_topic_if_absent, later_than, vote_key, newer, put_vote,
}

abbrev pub topic_of : Bytes → MemoryStore → Option Topic
topic_of id m = get m.topics id

-- All creations in scan order.
pub insert_topics : List Topic → MemoryStore → MemoryStore
insert_topics [] m = m
insert_topics (t ∷ ts) m = insert_topics ts (insert_topic_if_absent t m).1

-- The first creation of a topic in a list.
pub first_creation : Bytes → List Topic → Option Topic
first_creation id [] = none
first_creation id (t ∷ ts) = if bytes_beq t.topic id then some t else first_creation id ts

abbrev pub or_else : {A : Type 0} → Option A → Option A → Option A
or_else none o = o
or_else (some a) o = some a

insert_topic_lem :
    (t : Topic) (m : MemoryStore) (id : Bytes)
    → topic_of id (insert_topic_if_absent t m).1
      ≡ or_else (topic_of id m) (if bytes_beq t.topic id then some t else none)
unfolding insert_topic_if_absent
insert_topic_lem t m id = ground (arith, get-put m.topics t.topic id t, bytes_beq_iff t.topic id)

-- After a list of topic creations, the topic that is kept under an id is the one that was there
-- before, else the first creation of that id in the list.
pub topics_first_wins :
    (ts : List Topic) (m : MemoryStore) (id : Bytes)
    → topic_of id (insert_topics ts m) ≡ or_else (topic_of id m) (first_creation id ts)
unfolding insert_topics first_creation
topics_first_wins [] m id = ground arith
topics_first_wins (t ∷ ts) m id =
    topics_first_wins ts (insert_topic_if_absent t m).1 id
    ∙ rw (insert_topic_lem t m id) (ground arith)

abbrev pub vote_at : VoteKey → MemoryStore → Option Vote
vote_at k m = get m.votes k

-- The vote that stands under a key after one more vote.
pub put_vote_lem :
    (v : Vote) (m : MemoryStore) (k : VoteKey)
    → vote_at k (put_vote v m)
      ≡ (if vote_key_beq (vote_key v) k then some (newer v (vote_at k m)) else vote_at k m)
unfolding put_vote
put_vote_lem v m k =
    ground (arith, get-put m.votes (vote_key v) k v, vote_key_beq_iff (vote_key v) k)

-- Two votes at one place of the chain.
abbrev pub SamePlace : Vote → Vote → Type 0
SamePlace a b =
    (eqz a.height b.height ≡ true) × (a.tx_index ≡ b.tx_index) × (a.vout_index ≡ b.vout_index)

pub later_asym : (a b : Vote) → later_than a b ≡ true → later_than b a ≡ false
unfolding later_than
later_asym a b h = ground arith

later_irrefl : (a : Vote) → later_than a a ≡ false
unfolding later_than
later_irrefl a = ground arith

pub later_ntrans :
    (a b c : Vote) → later_than a b ≡ false → later_than b c ≡ false → later_than a c ≡ false
unfolding later_than
later_ntrans a b c h k = ground arith

later_total : (a b : Vote) → ¬ SamePlace a b → later_than a b ≡ false → later_than b a ≡ true
unfolding later_than
later_total a b h k = ground (arith, h)

newer_comm :
    (a b : Vote) (o : Option Vote)
    → ¬ SamePlace a b
    → newer a (some (newer b o)) ≡ newer b (some (newer a o))
newer_comm a b none h = ground (arith, later_total a b h, later_asym a b)
newer_comm a b (some c) h = ground (
  arith,
  later_total a b h,
  later_asym a b,
  later_ntrans a b c,
  later_ntrans b a c,
  later_asym a c,
  later_asym b c,
  later_ntrans a c b,
  later_ntrans b c a,
)

-- Two votes that do not share a place in the chain may be put in either order: the vote that is
-- kept for each target and author is the same.
pub put_vote_order :
    (a b : Vote) (m : MemoryStore) (k : VoteKey)
    → ¬ SamePlace a b
    → vote_at k (put_vote a (put_vote b m)) ≡ vote_at k (put_vote b (put_vote a m))
put_vote_order a b m k h =
    rw
      (
        put_vote_lem a (put_vote b m) k,
        put_vote_lem b (put_vote a m) k,
        put_vote_lem a m k,
        put_vote_lem b m k,
      )
      (both_orders (vote_key_beq (vote_key a) k) (vote_key_beq (vote_key b) k) (vote_at k m)
        (newer_comm a b (vote_at k m) h))
  where
    both_orders :
        (ka kb : Bool) (o : Option Vote)
        → newer a (some (newer b o)) ≡ newer b (some (newer a o))
        → (if ka
            then some (newer a (if kb then some (newer b o) else o))
            else if kb
            then some (newer b o)
            else o)
          ≡ (if kb
              then some (newer b (if ka then some (newer a o) else o))
              else if ka
              then some (newer a o)
              else o)
    both_orders true true o e = ap some e
    both_orders true false o e = refl
    both_orders false true o e = refl
    both_orders false false o e = refl

unfoldable pub put_votes : List Vote → MemoryStore → MemoryStore
put_votes [] m = m
put_votes (v ∷ vs) m = put_votes vs (put_vote v m)

pub newer-ge_self : (w : Vote) (o : Option Vote) → later_than w (newer w o) ≡ false
newer-ge_self w none = later_irrefl w
newer-ge_self w (some c) = ground (arith, later_irrefl w)

pub put_vote-Distinct :
    (v : Vote) (m : MemoryStore) → Distinct m.votes → Distinct (put_vote v m).votes
unfolding put_vote
put_vote-Distinct v m d = ground (arith, Distinct-put m.votes (vote_key v) v)
