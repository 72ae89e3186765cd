-- ===== src/Store/Memory/Rewind.antt =====
-- store/memory.go: what DeleteFromHeight leaves.
use coinnews_indexer.Prelude.{
  ◌≡◌, refl, sym, ◌∙◌, [], ◌∷◌, Option, none, some, Bool, true, false, not, ◌||◌, ◌&&◌, arith,
  if◌then◌else◌, bytes_eq, bytes_beq, bytes_beq_iff, Bool-cases, inl, inr, refl_beq,
}
use coinnews_indexer.Prelude.Int.{ℤ, lez}
use coinnews_indexer.Codec.Types.{Bytes}
use coinnews_indexer.GoMap.{GoMap, get, Distinct}
use coinnews_indexer.GoMap.Laws.{get-delete, get-retain, if_kept}
use coinnews_indexer.Store.Types.{Item, Topic, Vote, VoteKey, vote_key_eq}
use coinnews_indexer.Store.Memory.{
  MemoryStore, delete_item, delete_items, delete_from_height, later_than, vote_key, put_vote,
  item_by_id,
}
use coinnews_indexer.Store.Memory.Writes.{vote_at, put_vote_lem, put_vote-Distinct}

-- Some entry of the list has the key, and a height from `h` on.
doomed : ℤ → GoMap Bytes Item → Bytes → Bool
doomed h [] k = false
doomed h ((id, it) ∷ l) k = (lez h it.height && bytes_beq id k) || doomed h l k

record Deleted (h : ℤ) (l : GoMap Bytes Item) (m m' : MemoryStore) : Type 0 where
  items : (k : Bytes) → get m'.items k ≡ (if doomed h l k then none else get m.items k)
  stories : (k : Bytes) → get m'.stories k ≡ (if doomed h l k then none else get m.stories k)
  comments : (k : Bytes) → get m'.comments k ≡ (if doomed h l k then none else get m.comments k)
  conts : (k : Bytes) → get m'.conts k ≡ (if doomed h l k then none else get m.conts k)
  votes : m'.votes ≡ m.votes
  topics : m'.topics ≡ m.topics

delete_item-Deleted :
    (h : ℤ) (id : Bytes) (it : Item) (m : MemoryStore)
    → Deleted h ((id, it) ∷ []) m (delete_item h m id it)
unfolding delete_item doomed
delete_item-Deleted h id it m = record {
  items = λ k. ground (arith, get-delete m.items id k);
  stories = λ k. ground (arith, get-delete m.stories id k);
  comments = λ k. ground (arith, get-delete m.comments id k);
  conts = λ k. ground (arith, get-delete m.conts id k);
  votes = ground arith;
  topics = ground arith;
}

delete_items-Deleted :
    (h : ℤ) (l : GoMap Bytes Item) (m : MemoryStore) → Deleted h l m (delete_items h l m)
unfolding delete_items doomed
delete_items-Deleted h [] m = record {
  items = λ k. refl;
  stories = λ k. refl;
  comments = λ k. refl;
  conts = λ k. refl;
  votes = refl;
  topics = refl;
}
delete_items-Deleted h ((id, it) ∷ l) m =
    let one = delete_item-Deleted h id it m in
    let more = delete_items-Deleted h l (delete_item h m id it) in
    record {
      items = λ k. ground (arith, one.items k, more.items k);
      stories = λ k. ground (arith, one.stories k, more.stories k);
      comments = λ k. ground (arith, one.comments k, more.comments k);
      conts = λ k. ground (arith, one.conts k, more.conts k);
      votes = more.votes ∙ one.votes;
      topics = more.topics ∙ one.topics;
    }

pub delete_items_votes :
    (h : ℤ) (l : GoMap Bytes Item) (m : MemoryStore) → (delete_items h l m).votes ≡ m.votes
delete_items_votes h l m = (delete_items-Deleted h l m).votes

pub delete_items_topics :
    (h : ℤ) (l : GoMap Bytes Item) (m : MemoryStore) → (delete_items h l m).topics ≡ m.topics
delete_items_topics h l m = (delete_items-Deleted h l m).topics

-- Where keys are distinct, the doomed are those whose item is.
abbrev pub from_height : ℤ → Option Item → Bool
from_height h none = false
from_height h (some it) = lez h it.height

doomed_absent : (h : ℤ) (l : GoMap Bytes Item) (k : Bytes) → get l k ≡ none → doomed h l k ≡ false
unfolding doomed get
doomed_absent h [] k e = refl
doomed_absent h ((id, it) ∷ l) k e = ground (arith, doomed_absent h l k)

doomed_lem :
    (h : ℤ) (l : GoMap Bytes Item) (k : Bytes) → Distinct l → doomed h l k ≡ from_height h (get l k)
unfolding doomed get
doomed_lem h [] k d = refl
doomed_lem h ((id, it) ∷ l) k (fresh, d) = elim (Bool-cases (bytes_beq id k)) [
  | inl same ↦ ground (arith, doomed_absent h l k (rw ((bytes_beq_iff id k).0 same) at fresh))
  | inr other ↦ ground (arith, doomed_lem h l k d)
]

abbrev pub below : ℤ → Item → Bool
below h it = not (lez h it.height)

abbrev pub vote_below : ℤ → Vote → Bool
vote_below h v = not (lez h v.height)

abbrev pub topic_below : ℤ → Topic → Bool
topic_below h t = not (lez h t.created_height)

module _ (h : ℤ) (m : MemoryStore) where
  -- After a rewind to `h` of a store whose items have distinct keys exactly the items below `h` are
  -- left, unchanged.
  pub rewind_items :
      (k : Bytes)
      → Distinct m.items
      → item_by_id k (delete_from_height h m) ≡ if_kept (below h) (item_by_id k m)
  unfolding delete_from_height item_by_id
  rewind_items k d =
      (delete_items-Deleted h m.items m).items k ∙ rw (doomed_lem h m.items k d) (ground arith)

  -- After a rewind to `h` of a store whose items have distinct keys a story is left, unchanged,
  -- exactly if its item is not at `h` or above.
  pub rewind_stories :
      (k : Bytes)
      → Distinct m.items
      → get (delete_from_height h m).stories k
        ≡ (if from_height h (item_by_id k m) then none else get m.stories k)
  unfolding delete_from_height item_by_id
  rewind_stories k d = (delete_items-Deleted h m.items m).stories k ∙ rw (doomed_lem h m.items k d)

  -- After a rewind to `h` of a store whose items have distinct keys a comment is left, unchanged,
  -- exactly if its item is not at `h` or above.
  pub rewind_comments :
      (k : Bytes)
      → Distinct m.items
      → get (delete_from_height h m).comments k
        ≡ (if from_height h (item_by_id k m) then none else get m.comments k)
  unfolding delete_from_height item_by_id
  rewind_comments k d =
      (delete_items-Deleted h m.items m).comments k ∙ rw (doomed_lem h m.items k d)

  -- After a rewind to `h` of a store whose votes have distinct keys exactly the votes below `h` are
  -- left.
  pub rewind_votes :
      (k : VoteKey)
      → Distinct m.votes
      → vote_at k (delete_from_height h m) ≡ if_kept (vote_below h) (vote_at k m)
  unfolding delete_from_height
  rewind_votes k d =
      rw ((delete_items-Deleted h m.items m).votes) (get-retain (vote_below h) m.votes k d)

  -- After a rewind to `h` of a store whose topics have distinct keys exactly the topics created
  -- below `h` are left.
  pub rewind_topics :
      (k : Bytes)
      → Distinct m.topics
      → get (delete_from_height h m).topics k ≡ if_kept (topic_below h) (get m.topics k)
  unfolding delete_from_height
  rewind_topics k d =
      rw ((delete_items-Deleted h m.items m).topics) (get-retain (topic_below h) m.topics k d)

  -- A rewind to `h` of a store whose items have distinct keys keeps the chunks of a message
  -- together: they go if the head's item is at `h` or above, and all are left if it is below `h` or
  -- is not there, those at `h` and above too.
  pub rewind_conts :
      (k : Bytes)
      → Distinct m.items
      → get (delete_from_height h m).conts k
        ≡ (if from_height h (item_by_id k m) then none else get m.conts k)
  unfolding delete_from_height item_by_id
  rewind_conts k d = (delete_items-Deleted h m.items m).conts k ∙ rw (doomed_lem h m.items k d)

-- In a store whose votes have distinct keys, a vote below `h` that a later vote of the same author
-- on the same target, at `h` or above, had replaced is not there after the rewind to `h`, though it
-- is there in a store that never saw the later one.
pub rewind_loses_vote :
    (a b : Vote) (m : MemoryStore) (h : ℤ)
    → vote_key a ≡ vote_key b
    → vote_at (vote_key a) m ≡ none
    → Distinct m.votes
    → later_than b a ≡ true
    → vote_below h a ≡ true
    → vote_below h b ≡ false
    → (vote_at (vote_key a) (delete_from_height h (put_vote b (put_vote a m))) ≡ none)
      × (vote_at (vote_key a) (delete_from_height h (put_vote a m)) ≡ some a)
rewind_loses_vote a b m h same fresh d late old new =
    let first : vote_at (vote_key a) (put_vote a m) ≡ some a =
      put_vote_lem a m (vote_key a) ∙ rw (refl_beq (vote_key a), fresh) in
    let second : vote_at (vote_key a) (put_vote b (put_vote a m)) ≡ some b =
      put_vote_lem b (put_vote a m) (vote_key a)
      ∙ rw (sym same, refl_beq (vote_key a), first, late) in
    let d1 = put_vote-Distinct a m d in
    (
      rewind_votes h (put_vote b (put_vote a m)) (vote_key a)
            (put_vote-Distinct b (put_vote a m) d1)
          ∙ rw (second, new),
      rewind_votes h (put_vote a m) (vote_key a) d1 ∙ rw (first, old),
    )
