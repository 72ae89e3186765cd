-- ===== src/Store/Memory/Grows.antt =====
-- store/memory.go: writes take nothing away, and a write of what is there changes nothing.
use coinnews_indexer.Prelude.{
  ℕ, ◌≡◌, ◌≢◌, refl, sym, ap, ◌∙◌, none, some, false, arith, bytes_eq, nat_eq, refl_beq, Bool-cases,
  Option-cases, inl, inr,
}
use mathlib.Core.Path.{subst}
use coinnews_indexer.Codec.Types.{Bytes}
use coinnews_indexer.GoMap.{GoMap, get}
use coinnews_indexer.GoMap.Laws.{get-put, put-get, put-kept}
use coinnews_indexer.Store.Types.{
  Item, Topic, Story, Comment, Vote, Continuation, vote_key_eq, vote_key_beq,
}
use coinnews_indexer.Store.Memory.{
  MemoryStore, put_item, insert_topic_if_absent, put_story, put_comment, put_vote, put_continuation,
  vote_key, later_than, newer, insert_chunk, seqs_of,
}
use coinnews_indexer.Store.Memory.Writes.{
  vote_at, put_vote_lem, later_asym, later_ntrans, newer-ge_self,
}

abbrev pub HasItem : Bytes → MemoryStore → Type 0
HasItem id m = get m.items id ≢ none

abbrev pub HasStory : Bytes → MemoryStore → Type 0
HasStory id m = get m.stories id ≢ none

abbrev pub HasComment : Bytes → MemoryStore → Type 0
HasComment id m = get m.comments id ≢ none

abbrev pub HasTopic : Bytes → MemoryStore → Type 0
HasTopic id m = get m.topics id ≢ none

-- A vote of the same author on the same target is there that is not before this one.
abbrev pub HasVote : Vote → MemoryStore → Type 0
HasVote v m = (cur : Vote) × (vote_at (vote_key v) m ≡ some cur) × (later_than v cur ≡ false)

abbrev pub HasChunk : Continuation → MemoryStore → Type 0
HasChunk c m =
    (seqs : GoMap ℕ Continuation) × (get m.conts c.head_id ≡ some seqs) × (get seqs c.seq ≢ none)

-- What is there stays there.
pub record Grows (m m' : MemoryStore) : Type 0 where
  pub items : (k : Bytes) → HasItem k m → HasItem k m'
  pub stories : (k : Bytes) → HasStory k m → HasStory k m'
  pub comments : (k : Bytes) → HasComment k m → HasComment k m'
  pub topics : (k : Bytes) → HasTopic k m → HasTopic k m'
  pub votes : (v : Vote) → HasVote v m → HasVote v m'
  pub chunks : (c : Continuation) → HasChunk c m → HasChunk c m'

pub Grows-refl : (m : MemoryStore) → Grows m m
Grows-refl m = record {
  items = λ k h. h;
  stories = λ k h. h;
  comments = λ k h. h;
  topics = λ k h. h;
  votes = λ v h. h;
  chunks = λ c h. h;
}

pub Grows-trans : (a b c : MemoryStore) → Grows a b → Grows b c → Grows a c
Grows-trans a b c g h = record {
  items = λ k x. h.items k (g.items k x);
  stories = λ k x. h.stories k (g.stories k x);
  comments = λ k x. h.comments k (g.comments k x);
  topics = λ k x. h.topics k (g.topics k x);
  votes = λ v x. h.votes v (g.votes v x);
  chunks = λ k x. h.chunks k (g.chunks k x);
}

pub put_item-Grows : (it : Item) (m : MemoryStore) → Grows m (put_item it m)
unfolding put_item
put_item-Grows it m = elim (Option-cases (get m.items it.id)) [
  | inr (old, e) ↦ rw (put_item, e) (Grows-refl m)
  | inl e ↦
      rw (put_item, e)
        (record {
          items = λ k h. put-kept m.items it.id k it h;
          stories = λ k h. h;
          comments = λ k h. h;
          topics = λ k h. h;
          votes = λ v h. h;
          chunks = λ c h. h;
        })
]

pub insert_topic-Grows : (t : Topic) (m : MemoryStore) → Grows m (insert_topic_if_absent t m).1
unfolding insert_topic_if_absent
insert_topic-Grows t m = elim (Option-cases (get m.topics t.topic)) [
  | inr (old, e) ↦ rw (insert_topic_if_absent, e) (Grows-refl m)
  | inl e ↦
      rw (insert_topic_if_absent, e)
        (record {
          items = λ k h. h;
          stories = λ k h. h;
          comments = λ k h. h;
          topics = λ k h. put-kept m.topics t.topic k t h;
          votes = λ v h. h;
          chunks = λ c h. h;
        })
]

pub put_story-Grows : (s : Story) (m : MemoryStore) → Grows m (put_story s m)
unfolding put_story
put_story-Grows s m = elim (Option-cases (get m.stories s.id)) [
  | inr (old, e) ↦ rw (put_story, e) (Grows-refl m)
  | inl e ↦
      rw (put_story, e)
        (record {
          items = λ k h. h;
          stories = λ k h. put-kept m.stories s.id k s h;
          comments = λ k h. h;
          topics = λ k h. h;
          votes = λ v h. h;
          chunks = λ c h. h;
        })
]

pub put_comment-Grows : (c : Comment) (m : MemoryStore) → Grows m (put_comment c m)
unfolding put_comment
put_comment-Grows c m = elim (Option-cases (get m.comments c.id)) [
  | inr (old, e) ↦ rw (put_comment, e) (Grows-refl m)
  | inl e ↦
      rw (put_comment, e)
        (record {
          items = λ k h. h;
          stories = λ k h. h;
          comments = λ k h. put-kept m.comments c.id k c h;
          topics = λ k h. h;
          votes = λ v h. h;
          chunks = λ c h. h;
        })
]

-- The vote that is kept is not before any that was kept.
newer_kept : (v w cur : Vote) → later_than w cur ≡ false → later_than w (newer v (some cur)) ≡ false
newer_kept v w cur h = elim (Bool-cases (later_than v cur)) [
  | inl e ↦ rw e (later_ntrans w cur v h (later_asym v cur e))
  | inr e ↦ rw e h
]

vote_stays : (v w : Vote) (m : MemoryStore) → HasVote w m → HasVote w (put_vote v m)
vote_stays v w m (cur, there, h) = elim (Bool-cases (vote_key_beq (vote_key v) (vote_key w))) [
  | inl same ↦ (
    newer v (some cur),
    put_vote_lem v m (vote_key w) ∙ rw (same, there) refl,
    newer_kept v w cur h,
  )
  | inr other ↦ (cur, put_vote_lem v m (vote_key w) ∙ rw other there, h)
]

votes_only :
    (v : Vote) (m : MemoryStore)
    → ((put_vote v m).items ≡ m.items)
      × ((put_vote v m).stories ≡ m.stories)
      × ((put_vote v m).comments ≡ m.comments)
      × ((put_vote v m).topics ≡ m.topics)
      × ((put_vote v m).conts ≡ m.conts)
unfolding put_vote
votes_only v m = elim (Option-cases (get m.votes (vote_key v))) [
  | inl e ↦ rw (put_vote, e) (refl, refl, refl, refl, refl)
  | inr (cur, e) ↦ elim (Bool-cases (later_than v cur)) [
    | inl later ↦ rw (put_vote, e, later) (refl, refl, refl, refl, refl)
    | inr kept ↦ rw (put_vote, e, kept) (refl, refl, refl, refl, refl)
  ]
]

pub put_vote-Grows : (v : Vote) (m : MemoryStore) → Grows m (put_vote v m)
put_vote-Grows v m =
    let f = votes_only v m in
    record {
      items = λ k. subst (λ l. get l k ≢ none) (sym f.0);
      stories = λ k. subst (λ l. get l k ≢ none) (sym f.1);
      comments = λ k. subst (λ l. get l k ≢ none) (sym f.2);
      topics = λ k. subst (λ l. get l k ≢ none) (sym f.3);
      votes = λ w. vote_stays v w m;
      chunks = λ c.
          subst
            (λ l.
              (seqs : GoMap ℕ Continuation) × (get l c.head_id ≡ some seqs)
              × (get seqs c.seq ≢ none))
            (sym f.4);
    }

chunk_stays :
    (k c : Continuation) (seqs : GoMap ℕ Continuation)
    → get seqs c.seq ≢ none
    → get (insert_chunk k seqs) c.seq ≢ none
unfolding insert_chunk
chunk_stays k c seqs h = elim (Option-cases (get seqs k.seq)) [
  | inl e ↦ rw (insert_chunk, e) (put-kept seqs k.seq c.seq k h)
  | inr (old, e) ↦ rw (insert_chunk, e) h
]

pub put_continuation-Grows : (k : Continuation) (m : MemoryStore) → Grows m (put_continuation k m)
unfolding put_continuation seqs_of
put_continuation-Grows k m = record {
  items = λ k h. h;
  stories = λ k h. h;
  comments = λ k h. h;
  topics = λ k h. h;
  votes = λ v h. h;
  chunks = λ c (seqs, there, h). elim (Bool-cases (bytes_eq.beq k.head_id c.head_id)) [
    | inl same ↦
        let q = (bytes_eq.beq_iff k.head_id c.head_id).0 same in
        (
          insert_chunk k seqs,
          get-put m.conts k.head_id c.head_id _ ∙ rw (same, q, there) refl,
          chunk_stays k c seqs h,
        )
    | inr other ↦ (seqs, get-put m.conts k.head_id c.head_id _ ∙ rw other there, h)
  ];
}

-- What is there after its own write.
pub put_item-HasItem : (it : Item) (m : MemoryStore) → HasItem it.id (put_item it m)
unfolding put_item
put_item-HasItem it m = ground (arith, get-put m.items it.id it.id it, refl_beq it.id)

pub insert_topic-HasTopic :
    (t : Topic) (m : MemoryStore) → HasTopic t.topic (insert_topic_if_absent t m).1
unfolding insert_topic_if_absent
insert_topic-HasTopic t m = ground (arith, get-put m.topics t.topic t.topic t, refl_beq t.topic)

pub put_story-HasStory : (s : Story) (m : MemoryStore) → HasStory s.id (put_story s m)
unfolding put_story
put_story-HasStory s m = ground (arith, get-put m.stories s.id s.id s, refl_beq s.id)

pub put_comment-HasComment : (c : Comment) (m : MemoryStore) → HasComment c.id (put_comment c m)
unfolding put_comment
put_comment-HasComment c m = ground (arith, get-put m.comments c.id c.id c, refl_beq c.id)

pub put_vote-HasVote : (v : Vote) (m : MemoryStore) → HasVote v (put_vote v m)
put_vote-HasVote v m = (
  newer v (vote_at (vote_key v) m),
  put_vote_lem v m (vote_key v) ∙ rw (refl_beq (vote_key v)) refl,
  newer-ge_self v (vote_at (vote_key v) m),
)

pub put_continuation-HasChunk :
    (c : Continuation) (m : MemoryStore) → HasChunk c (put_continuation c m)
unfolding put_continuation insert_chunk
put_continuation-HasChunk c m =
    let seqs : GoMap ℕ Continuation = insert_chunk c (seqs_of (get m.conts c.head_id)) in
    (
      seqs,
      ground (arith, get-put m.conts c.head_id c.head_id seqs, refl_beq c.head_id),
      ground (arith, get-put (seqs_of (get m.conts c.head_id)) c.seq c.seq c, refl_beq c.seq),
    )

-- A write of what is there.
pub put_item_kept : (it : Item) (m : MemoryStore) → HasItem it.id m → put_item it m ≡ m
unfolding put_item
put_item_kept it m h = ground (arith, h)

pub insert_topic_kept :
    (t : Topic) (m : MemoryStore) → HasTopic t.topic m → (insert_topic_if_absent t m).1 ≡ m
unfolding insert_topic_if_absent
insert_topic_kept t m h = ground (arith, h)

pub put_story_kept : (s : Story) (m : MemoryStore) → HasStory s.id m → put_story s m ≡ m
unfolding put_story
put_story_kept s m h = ground (arith, h)

pub put_comment_kept : (c : Comment) (m : MemoryStore) → HasComment c.id m → put_comment c m ≡ m
unfolding put_comment
put_comment_kept c m h = ground (arith, h)

pub put_vote_kept : (v : Vote) (m : MemoryStore) → HasVote v m → put_vote v m ≡ m
unfolding put_vote
put_vote_kept v m (cur, there, h) = rw (put_vote, there, h) refl

chunk_kept :
    (c : Continuation) (seqs : GoMap ℕ Continuation) (old : Continuation)
    → get seqs c.seq ≡ some old
    → insert_chunk c seqs ≡ seqs
unfolding insert_chunk
chunk_kept c seqs old e = rw (insert_chunk, e) refl

pub put_continuation_kept :
    (c : Continuation) (m : MemoryStore) → HasChunk c m → put_continuation c m ≡ m
unfolding put_continuation seqs_of
put_continuation_kept c m (seqs, there, h) =
    ap (λ l. record m { conts = l })
      (elim (Option-cases (get seqs c.seq)) [
        | inl e ↦ absurd (h e)
        | inr (old, e) ↦ rw (there, chunk_kept c seqs old e) (put-get m.conts c.head_id seqs there)
      ])
