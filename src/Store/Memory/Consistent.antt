-- ===== src/Store/Memory/Consistent.antt =====
-- store/memory.go: the well-formedness of the in-memory backend, and its writes.
use coinnews_indexer.Prelude.{
  ◌≡◌, ◌≢◌, refl, sym, ◌∙◌, [], ◌∷◌, Option, none, some, arith, if◌then◌else◌, bytes_eq,
  bytes_beq_iff, refl_beq,
}
use coinnews_indexer.Prelude.Int.{ℤ}
use coinnews_indexer.Codec.Types.{Bytes}
use coinnews_indexer.GoMap.{GoMap, get, Distinct}
use coinnews_indexer.GoMap.Laws.{get-put, Distinct-put, Distinct-delete, Distinct-retain, if_kept}
use coinnews_indexer.Store.Types.{Item, Topic, Story, Comment, Vote, Continuation, vote_key_eq}
use coinnews_indexer.Store.Memory.{
  MemoryStore, new_memory, save_cursor, delete_item, delete_items, delete_from_height, put_item,
  insert_topic_if_absent, put_story, put_comment, put_vote, put_continuation, item_by_id,
}
use coinnews_indexer.Store.Memory.Writes.{put_vote-Distinct}
use coinnews_indexer.Store.Memory.Rewind.{
  rewind_items, rewind_stories, rewind_comments, delete_items_votes, delete_items_topics, below,
  from_height,
}

-- The maps of items, topics, votes, stories and comments have distinct keys, and no story or
-- comment is there without its item.
pub record IsConsistent (m : MemoryStore) : Type 0 where
  pub items : Distinct m.items
  pub topics : Distinct m.topics
  pub votes : Distinct m.votes
  pub stories : Distinct m.stories
  pub comments : Distinct m.comments
  pub story_items : (k : Bytes) → item_by_id k m ≡ none → get m.stories k ≡ none
  pub comment_items : (k : Bytes) → item_by_id k m ≡ none → get m.comments k ≡ none

pub new_memory-IsConsistent : IsConsistent new_memory
unfolding get
new_memory-IsConsistent = record {
  items = tt;
  topics = tt;
  votes = tt;
  stories = tt;
  comments = tt;
  story_items = λ k e. refl;
  comment_items = λ k e. refl;
}

pub save_cursor-IsConsistent :
    (h : ℤ) (hash : Bytes) (m : MemoryStore) → IsConsistent m → IsConsistent (save_cursor h hash m)
unfolding save_cursor item_by_id
save_cursor-IsConsistent h hash m c = record {
  items = c.items;
  topics = c.topics;
  votes = c.votes;
  stories = c.stories;
  comments = c.comments;
  story_items = c.story_items;
  comment_items = c.comment_items;
}

-- An item that is put stands for its id, and no item goes away.
pub put_item_self : (it : Item) (m : MemoryStore) → item_by_id it.id (put_item it m) ≢ none
unfolding put_item item_by_id
put_item_self it m = ground (arith, get-put m.items it.id it.id it, refl_beq it.id)

put_item_keeps :
    (it : Item) (m : MemoryStore) (k : Bytes)
    → item_by_id k (put_item it m) ≡ none
    → item_by_id k m ≡ none
unfolding put_item item_by_id
put_item_keeps it m k = ground (arith, get-put m.items it.id k it)

pub put_item-IsConsistent :
    (it : Item) (m : MemoryStore) → IsConsistent m → IsConsistent (put_item it m)
put_item-IsConsistent it m c = record {
  items = unfold put_item in ground (arith, Distinct-put m.items it.id it, c.items);
  topics = unfold put_item in ground (arith, c.topics);
  votes = unfold put_item in ground (arith, c.votes);
  stories = unfold put_item in ground (arith, c.stories);
  comments = unfold put_item in ground (arith, c.comments);
  story_items = λ k e. unfold put_item in ground (arith, c.story_items k (put_item_keeps it m k e));
  comment_items =
      λ k e. unfold put_item in ground (arith, c.comment_items k (put_item_keeps it m k e));
}

pub insert_topic-IsConsistent :
    (t : Topic) (m : MemoryStore) → IsConsistent m → IsConsistent (insert_topic_if_absent t m).1
insert_topic-IsConsistent t m c = record {
  items = unfold insert_topic_if_absent in ground (arith, c.items);
  topics =
      unfold insert_topic_if_absent in ground (arith, Distinct-put m.topics t.topic t, c.topics);
  votes = unfold insert_topic_if_absent in ground (arith, c.votes);
  stories = unfold insert_topic_if_absent in ground (arith, c.stories);
  comments = unfold insert_topic_if_absent in ground (arith, c.comments);
  story_items = λ k e. unfold insert_topic_if_absent item_by_id in ground (arith, c.story_items k);
  comment_items =
      λ k e. unfold insert_topic_if_absent item_by_id in ground (arith, c.comment_items k);
}

pub put_story-IsConsistent :
    (s : Story) (m : MemoryStore)
    → item_by_id s.id m ≢ none
    → IsConsistent m
    → IsConsistent (put_story s m)
put_story-IsConsistent s m there c = record {
  items = unfold put_story in ground (arith, c.items);
  topics = unfold put_story in ground (arith, c.topics);
  votes = unfold put_story in ground (arith, c.votes);
  stories = unfold put_story in ground (arith, Distinct-put m.stories s.id s, c.stories);
  comments = unfold put_story in ground (arith, c.comments);
  story_items = λ k e.
      unfold put_story item_by_id in
      ground (arith, c.story_items k, get-put m.stories s.id k s, bytes_beq_iff s.id k);
  comment_items = λ k e. unfold put_story item_by_id in ground (arith, c.comment_items k);
}

pub put_comment-IsConsistent :
    (r : Comment) (m : MemoryStore)
    → item_by_id r.id m ≢ none
    → IsConsistent m
    → IsConsistent (put_comment r m)
put_comment-IsConsistent r m there c = record {
  items = unfold put_comment in ground (arith, c.items);
  topics = unfold put_comment in ground (arith, c.topics);
  votes = unfold put_comment in ground (arith, c.votes);
  stories = unfold put_comment in ground (arith, c.stories);
  comments = unfold put_comment in ground (arith, Distinct-put m.comments r.id r, c.comments);
  story_items = λ k e. unfold put_comment item_by_id in ground (arith, c.story_items k);
  comment_items = λ k e.
      unfold put_comment item_by_id in
      ground (arith, c.comment_items k, get-put m.comments r.id k r, bytes_beq_iff r.id k);
}

pub put_vote-IsConsistent :
    (v : Vote) (m : MemoryStore) → IsConsistent m → IsConsistent (put_vote v m)
put_vote-IsConsistent v m c = record {
  items = unfold put_vote in ground (arith, c.items);
  topics = unfold put_vote in ground (arith, c.topics);
  votes = put_vote-Distinct v m c.votes;
  stories = unfold put_vote in ground (arith, c.stories);
  comments = unfold put_vote in ground (arith, c.comments);
  story_items = λ k e. unfold put_vote item_by_id in ground (arith, c.story_items k);
  comment_items = λ k e. unfold put_vote item_by_id in ground (arith, c.comment_items k);
}

pub put_continuation-IsConsistent :
    (r : Continuation) (m : MemoryStore) → IsConsistent m → IsConsistent (put_continuation r m)
unfolding put_continuation item_by_id
put_continuation-IsConsistent r m c = record {
  items = c.items;
  topics = c.topics;
  votes = c.votes;
  stories = c.stories;
  comments = c.comments;
  story_items = c.story_items;
  comment_items = c.comment_items;
}

record KeysDistinct (m : MemoryStore) : Type 0 where
  items : Distinct m.items
  stories : Distinct m.stories
  comments : Distinct m.comments

delete_items-KeysDistinct :
    (h : ℤ) (l : GoMap Bytes Item) (m : MemoryStore)
    → KeysDistinct m
    → KeysDistinct (delete_items h l m)
unfolding delete_items delete_item
delete_items-KeysDistinct h [] m d = d
delete_items-KeysDistinct h ((id, it) ∷ l) m d =
    delete_items-KeysDistinct h l (delete_item h m id it) (record {
      items = ground (arith, Distinct-delete m.items id, d.items);
      stories = ground (arith, Distinct-delete m.stories id, d.stories);
      comments = ground (arith, Distinct-delete m.comments id, d.comments);
    })

-- A rewind keeps the in-memory backend consistent: none of the maps of items, topics, votes,
-- stories and comments has a key twice, and no story or comment is left without its item.
pub delete_from_height-IsConsistent :
    (h : ℤ) (m : MemoryStore) → IsConsistent m → IsConsistent (delete_from_height h m)
delete_from_height-IsConsistent h m c =
    let d : KeysDistinct m = record {
      items = c.items;
      stories = c.stories;
      comments = c.comments;
    } in
    let d' = delete_items-KeysDistinct h m.items m d in
    record {
      items = unfold delete_from_height in d'.items;
      topics =
          unfold delete_from_height in
          Distinct-retain _ _ (rw (delete_items_topics h m.items m) c.topics);
      votes =
          unfold delete_from_height in
          Distinct-retain _ _ (rw (delete_items_votes h m.items m) c.votes);
      stories = unfold delete_from_height in d'.stories;
      comments = unfold delete_from_height in d'.comments;
      story_items = λ k e.
          rewind_stories h m k c.items
          ∙ gone (item_by_id k m) (get m.stories k) (c.story_items k)
              (sym (rewind_items h m k c.items) ∙ e);
      comment_items = λ k e.
          rewind_comments h m k c.items
          ∙ gone (item_by_id k m) (get m.comments k) (c.comment_items k)
              (sym (rewind_items h m k c.items) ∙ e);
    }
  where
    gone :
        {A : Type 0} (o : Option Item) (r : Option A)
        → (o ≡ none → r ≡ none)
        → if_kept (below h) o ≡ none
        → (if from_height h o then none else r) ≡ none
    gone none r f e = f refl
    gone (some it) r f e = ground arith
