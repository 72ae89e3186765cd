-- ===== src/Store/Memory/Replay.antt =====
-- store/memory.go: writing a row a second time.
use coinnews_indexer.Prelude.{ℕ, ◌≡◌, arith, bytes_eq, nat_eq, refl_beq, false}
use coinnews_indexer.GoMap.{GoMap, get}
use coinnews_indexer.GoMap.Laws.{get-put, put-put}
use coinnews_indexer.Store.Types.{Item, Topic, Story, Comment, Vote, Continuation, vote_key_eq}
use coinnews_indexer.Store.Memory.{
  MemoryStore, put_item, insert_topic_if_absent, put_story, put_comment, put_vote, put_continuation,
  vote_key, later_than, insert_chunk, seqs_of,
}

put_item_again : (it : Item) (m : MemoryStore) → put_item it (put_item it m) ≡ put_item it m
unfolding put_item
put_item_again it m = ground (arith, get-put m.items it.id it.id it, refl_beq it.id)

insert_topic_again :
    (t : Topic) (m : MemoryStore)
    → insert_topic_if_absent t (insert_topic_if_absent t m).1
      ≡ (false, (insert_topic_if_absent t m).1)
unfolding insert_topic_if_absent
insert_topic_again t m = ground (arith, get-put m.topics t.topic t.topic t, refl_beq t.topic)

put_story_again : (s : Story) (m : MemoryStore) → put_story s (put_story s m) ≡ put_story s m
unfolding put_story
put_story_again s m = ground (arith, get-put m.stories s.id s.id s, refl_beq s.id)

put_comment_again :
    (c : Comment) (m : MemoryStore) → put_comment c (put_comment c m) ≡ put_comment c m
unfolding put_comment
put_comment_again c m = ground (arith, get-put m.comments c.id c.id c, refl_beq c.id)

put_vote_again : (v : Vote) (m : MemoryStore) → put_vote v (put_vote v m) ≡ put_vote v m
unfolding put_vote later_than
put_vote_again v m =
    ground (arith, get-put m.votes (vote_key v) (vote_key v) v, refl_beq (vote_key v))

insert_chunk_again :
    (c : Continuation) (seqs : GoMap ℕ Continuation)
    → insert_chunk c (insert_chunk c seqs) ≡ insert_chunk c seqs
unfolding insert_chunk
insert_chunk_again c seqs = ground (arith, get-put seqs c.seq c.seq c, refl_beq c.seq)

put_continuation_again :
    (c : Continuation) (m : MemoryStore)
    → put_continuation c (put_continuation c m) ≡ put_continuation c m
unfolding put_continuation seqs_of
put_continuation_again c m =
    let seqs : GoMap ℕ Continuation = insert_chunk c (seqs_of (get m.conts c.head_id)) in
    ground (
      arith,
      get-put m.conts c.head_id c.head_id seqs,
      put-put m.conts c.head_id seqs,
      refl_beq c.head_id,
      insert_chunk_again c (seqs_of (get m.conts c.head_id)),
    )

-- Each write of a row, made a second time at once, leaves the in-memory backend as the first left
-- it, and a topic that is inserted again is reported as there.
pub writes_again :
    (it : Item) (t : Topic) (s : Story) (c : Comment) (v : Vote) (k : Continuation)
    (m : MemoryStore)
    → (put_item it (put_item it m) ≡ put_item it m)
      × (insert_topic_if_absent t (insert_topic_if_absent t m).1
          ≡ (false, (insert_topic_if_absent t m).1))
      × (put_story s (put_story s m) ≡ put_story s m)
      × (put_comment c (put_comment c m) ≡ put_comment c m)
      × (put_vote v (put_vote v m) ≡ put_vote v m)
      × (put_continuation k (put_continuation k m) ≡ put_continuation k m)
writes_again it t s c v k m = (
  put_item_again it m,
  insert_topic_again t m,
  put_story_again s m,
  put_comment_again c m,
  put_vote_again v m,
  put_continuation_again k m,
)
