-- ===== src/Store/Memory/Bounded.antt =====
-- store/memory.go: the bounds of Go's types in the rows of the in-memory backend, and its writes.
use coinnews_indexer.Prelude.{
  ◌<◌, ◌≡◌, sym, [], ◌∷◌, length, not, bytes_eq, Option-cases, Bool-cases, inl, inr,
}
use mathlib.Core.Path.{subst}
use coinnews_indexer.Prelude.Int.{ℤ, lez}
use coinnews_indexer.Codec.Types.{Bytes}
use coinnews_indexer.GoMap.{GoMap, get, Holds, delete, retain}
use coinnews_indexer.GoMap.Laws.{Holds-put, Holds-delete, Holds-retain}
use coinnews_indexer.Store.Types.{Item, Topic, Story, Comment, Vote, Continuation, vote_key_eq}
use coinnews_indexer.Store.Memory.{
  MemoryStore, new_memory, save_cursor, delete_from_height, put_item, insert_topic_if_absent,
  put_story, put_comment, put_vote, vote_key, later_than, put_continuation,
}
use coinnews_indexer.Store.Memory.Deletes.{deletes, delete_items-IsDeleted}

abbrev pub ByteSubtype : Bytes → Story → Type 0
ByteSubtype k s = s.subtype < 256

abbrev pub SizedAuthor : Bytes → Comment → Type 0
SizedAuthor k c = length c.author_xpk ≡ 32

abbrev pub ByteRetention : Bytes → Topic → Type 0
ByteRetention k t = t.retention_days < 256

-- What Go's types say of the rows: bytes, and keys of 32 bytes.
pub record IsBounded (m : MemoryStore) : Type 0 where
  pub stories : Holds ByteSubtype m.stories
  pub comments : Holds SizedAuthor m.comments
  pub topics : Holds ByteRetention m.topics

pub new_memory-IsBounded : IsBounded new_memory
new_memory-IsBounded = record { stories = tt; comments = tt; topics = tt }

deletes-Holds :
    {B : Type 0} (P : Bytes → B → Type 0) (h : ℤ) (items : GoMap Bytes Item) (l : GoMap Bytes B)
    → Holds P l
    → Holds P (deletes h items l)
unfolding deletes
deletes-Holds P h [] l d = d
deletes-Holds P h ((id, it) ∷ items) l d = elim (Bool-cases (lez h it.height)) [
  | inl e ↦ rw e (deletes-Holds P h items (delete l id) (Holds-delete P l id d))
  | inr e ↦ rw e (deletes-Holds P h items l d)
]

pub delete_from_height-IsBounded :
    (h : ℤ) (m : MemoryStore) → IsBounded m → IsBounded (delete_from_height h m)
unfolding delete_from_height
delete_from_height-IsBounded h m b =
    let gone = delete_items-IsDeleted h m.items m in
    record {
      stories =
          subst (Holds ByteSubtype) (sym gone.stories)
            (deletes-Holds ByteSubtype h m.items m.stories b.stories);
      comments =
          subst (Holds SizedAuthor) (sym gone.comments)
            (deletes-Holds SizedAuthor h m.items m.comments b.comments);
      topics =
          subst (λ l. Holds ByteRetention (retain (λ t. not (lez h t.created_height)) l))
            (sym gone.topics) (Holds-retain ByteRetention _ m.topics b.topics);
    }

pub put_item-IsBounded : (it : Item) (m : MemoryStore) → IsBounded m → IsBounded (put_item it m)
unfolding put_item
put_item-IsBounded it m b = elim (Option-cases (get m.items it.id)) [
  | inl e ↦
      rw (put_item, e) (record { stories = b.stories; comments = b.comments; topics = b.topics })
  | inr (old, e) ↦ rw (put_item, e) b
]

pub insert_topic-IsBounded :
    (t : Topic)
    → t.retention_days < 256
    → (m : MemoryStore) → IsBounded m
    → IsBounded (insert_topic_if_absent t m).1
unfolding insert_topic_if_absent
insert_topic-IsBounded t small m b = elim (Option-cases (get m.topics t.topic)) [
  | inl e ↦
      rw (insert_topic_if_absent, e)
        (record {
          stories = b.stories;
          comments = b.comments;
          topics = Holds-put ByteRetention m.topics t.topic t small b.topics;
        })
  | inr (old, e) ↦ rw (insert_topic_if_absent, e) b
]

pub put_story-IsBounded :
    (s : Story) → s.subtype < 256 → (m : MemoryStore) → IsBounded m → IsBounded (put_story s m)
unfolding put_story
put_story-IsBounded s small m b = elim (Option-cases (get m.stories s.id)) [
  | inl e ↦
      rw (put_story, e)
        (record {
          stories = Holds-put ByteSubtype m.stories s.id s small b.stories;
          comments = b.comments;
          topics = b.topics;
        })
  | inr (old, e) ↦ rw (put_story, e) b
]

pub put_comment-IsBounded :
    (c : Comment)
    → length c.author_xpk ≡ 32
    → (m : MemoryStore) → IsBounded m
    → IsBounded (put_comment c m)
unfolding put_comment
put_comment-IsBounded c sized m b = elim (Option-cases (get m.comments c.id)) [
  | inl e ↦
      rw (put_comment, e)
        (record {
          stories = b.stories;
          comments = Holds-put SizedAuthor m.comments c.id c sized b.comments;
          topics = b.topics;
        })
  | inr (old, e) ↦ rw (put_comment, e) b
]

pub save_cursor-IsBounded :
    (h : ℤ) (hash : Bytes) (m : MemoryStore) → IsBounded m → IsBounded (save_cursor h hash m)
unfolding save_cursor
save_cursor-IsBounded h hash m b = record {
  stories = b.stories;
  comments = b.comments;
  topics = b.topics;
}

pub put_continuation-IsBounded :
    (c : Continuation) (m : MemoryStore) → IsBounded m → IsBounded (put_continuation c m)
unfolding put_continuation
put_continuation-IsBounded c m b = record {
  stories = b.stories;
  comments = b.comments;
  topics = b.topics;
}

pub put_vote-IsBounded : (v : Vote) (m : MemoryStore) → IsBounded m → IsBounded (put_vote v m)
unfolding put_vote
put_vote-IsBounded v m b = elim (Option-cases (get m.votes (vote_key v))) [
  | inl e ↦
      rw (put_vote, e) (record { stories = b.stories; comments = b.comments; topics = b.topics })
  | inr (cur, e) ↦ elim (Bool-cases (later_than v cur)) [
    | inl later ↦
        rw (put_vote, e, later)
          (record { stories = b.stories; comments = b.comments; topics = b.topics })
    | inr kept ↦ rw (put_vote, e, kept) b
  ]
]
