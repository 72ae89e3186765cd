-- ===== src/Scanner/Again.antt =====
-- scanner/scanner.go: `persist` over the in-memory backend, for messages that have been stored before.
pub mod Blocks
pub mod Late
use coinnews_indexer.Prelude.{
  ℕ, ◌≡◌, ◌≢◌, ◌⊎◌, inl, inr, refl, sym, ap, ◌∙◌, List, [], ◌∷◌, ◌++◌, Option, none, some, Bool,
  true, false, not, if◌then◌else◌, bytes_eq, Bool-cases, Option-cases, arith,
}
use mathlib.Core.Path.{subst}
use coinnews_indexer.Codec.Types as Wire
use coinnews_indexer.Codec.Types.{
  Bytes, ok, Message, topic_creation, story, comment, vote, continuation,
}
use coinnews_indexer.Codec.Crypto.{Crypto}
use coinnews_indexer.Codec.Sign.{verify_comment, verify_vote}
use coinnews_indexer.GoMap.{get}
use coinnews_indexer.Store.Types.{Item, Story}
use coinnews_indexer.Store.Interface.{◌>>=◌}
use coinnews_indexer.Store.Memory.{
  MemoryStore, put_item, insert_topic_if_absent, put_story, put_comment, put_vote, put_continuation,
  item_by_id,
}
use coinnews_indexer.Store.Memory.Backend.{memory_store}
use coinnews_indexer.Store.Memory.Grows.{
  HasItem, HasStory, HasComment, HasTopic, HasVote, HasChunk, Grows, Grows-refl, Grows-trans,
  put_item-Grows, insert_topic-Grows, put_story-Grows, put_comment-Grows, put_vote-Grows,
  put_continuation-Grows, put_item-HasItem, insert_topic-HasTopic, put_story-HasStory,
  put_comment-HasComment, put_vote-HasVote, put_continuation-HasChunk, put_item_kept,
  insert_topic_kept, put_story_kept, put_comment_kept, put_vote_kept, put_continuation_kept,
}
use coinnews_indexer.Scanner.Convert.{
  topic_from_msg, story_from_msg, comment_from_msg, vote_from_msg, continuation_from_msg,
}
use coinnews_indexer.Scanner.{is_some, persist, exists}

module _ (crypto : Crypto) where
  -- `exists`, over the in-memory backend.
  abbrev there : Bytes → MemoryStore → Bool
  there id m = is_some (item_by_id id m)

  -- What `persist` leaves of the in-memory backend.
  unfoldable pub step : Item → Message → MemoryStore → MemoryStore
  step it (topic_creation t) m = (insert_topic_if_absent (topic_from_msg it t) (put_item it m)).1
  step it (story s) m = put_story (story_from_msg it.id s) (put_item it m)
  step it (comment c) m =
      if not (verify_comment crypto c)
      then m
      else if not (there c.parent_id m)
      then m
      else put_comment (comment_from_msg it.id c) (put_item it m)
  step it (vote v) m =
      if not (verify_vote crypto v)
      then m
      else if not (there v.target_id m)
      then m
      else put_vote (vote_from_msg it v) (put_item it m)
  step it (continuation c) m = put_continuation (continuation_from_msg it c) (put_item it m)

  pub persist-step :
      {N : Type 0} (it : Item) (msg : Message) (n : N) (m : MemoryStore)
      → persist crypto (memory_store N) it msg (n, m) ≡ (ok tt, (n, step it msg m))
  unfolding persist step exists ◌>>=◌
  persist-step it (topic_creation t) n m = refl
  persist-step it (story s) n m = refl
  persist-step it (comment c) n m = elim (Bool-cases (verify_comment crypto c)) [
    | inr e ↦ rw e refl
    | inl e ↦ elim (Bool-cases (there c.parent_id m)) [
      | inr q ↦ rw (e, q) refl
      | inl q ↦ rw (e, q) refl
    ]
  ]
  persist-step it (vote v) n m = elim (Bool-cases (verify_vote crypto v)) [
    | inr e ↦ rw e refl
    | inl e ↦ elim (Bool-cases (there v.target_id m)) [
      | inr q ↦ rw (e, q) refl
      | inl q ↦ rw (e, q) refl
    ]
  ]
  persist-step it (continuation c) n m = refl

  -- A signed message whose parent or target is not there, so that it is dropped.
  abbrev pub Waits : Message → MemoryStore → Type 0
  Waits (comment c) m = (verify_comment crypto c ≡ true) × (there c.parent_id m ≡ false)
  Waits (vote v) m = (verify_vote crypto v ≡ true) × (there v.target_id m ≡ false)
  Waits _ m = ⊥

  -- Whatever comes later, storing it again changes nothing.
  abbrev pub Done : Item → Message → MemoryStore → Type 0
  Done it (topic_creation t) m = HasItem it.id m × HasTopic t.topic m
  Done it (story s) m = HasItem it.id m × HasStory it.id m
  Done it (comment c) m = (verify_comment crypto c ≡ false) ⊎ (HasItem it.id m × HasComment it.id m)
  Done it (vote v) m =
      (verify_vote crypto v ≡ false) ⊎ (HasItem it.id m × HasVote (vote_from_msg it v) m)
  Done it (continuation c) m = HasItem it.id m × HasChunk (continuation_from_msg it c) m

  pub Done-Grows :
      (it : Item) (msg : Message) (m m' : MemoryStore) → Grows m m' → Done it msg m → Done it msg m'
  Done-Grows it (topic_creation t) m m' g (i, h) = (g.items it.id i, g.topics t.topic h)
  Done-Grows it (story s) m m' g (i, h) = (g.items it.id i, g.stories it.id h)
  Done-Grows it (comment c) m m' g (inl e) = inl e
  Done-Grows it (comment c) m m' g (inr (i, h)) = inr (g.items it.id i, g.comments it.id h)
  Done-Grows it (vote v) m m' g (inl e) = inl e
  Done-Grows it (vote v) m m' g (inr (i, h)) = inr (g.items it.id i, g.votes (vote_from_msg it v) h)
  Done-Grows it (continuation c) m m' g (i, h) =
      (g.items it.id i, g.chunks (continuation_from_msg it c) h)

  put_two :
      (f : MemoryStore → MemoryStore) (it : Item) (m : MemoryStore)
      → HasItem it.id m
      → f m ≡ m
      → f (put_item it m) ≡ m
  put_two f it m i h = ap f (put_item_kept it m i) ∙ h

  kept :
      (a b : Bool) {x y : MemoryStore} → x ≡ y → (if not a then y else if not b then y else x) ≡ y
  kept false b e = refl
  kept true false e = refl
  kept true true e = e

  pub step-Done : (it : Item) (msg : Message) (m : MemoryStore) → Done it msg m → step it msg m ≡ m
  unfolding step topic_from_msg story_from_msg comment_from_msg
  step-Done it (topic_creation t) m (i, h) =
      put_two (λ u. (insert_topic_if_absent (topic_from_msg it t) u).1) it m i
        (insert_topic_kept (topic_from_msg it t) m h)
  step-Done it (story s) m (i, h) =
      put_two (put_story (story_from_msg it.id s)) it m i
        (put_story_kept (story_from_msg it.id s) m h)
  step-Done it (comment c) m (inl e) = rw e refl
  step-Done it (comment c) m (inr (i, h)) = kept (verify_comment crypto c) (there c.parent_id m) (
      put_two (put_comment (comment_from_msg it.id c)) it m i
        (put_comment_kept (comment_from_msg it.id c) m h))
  step-Done it (vote v) m (inl e) = rw e refl
  step-Done it (vote v) m (inr (i, h)) =
      kept (verify_vote crypto v) (there v.target_id m)
        (put_two (put_vote (vote_from_msg it v)) it m i (put_vote_kept (vote_from_msg it v) m h))
  step-Done it (continuation c) m (i, h) =
      put_two (put_continuation (continuation_from_msg it c)) it m i
        (put_continuation_kept (continuation_from_msg it c) m h)

  pub step-Waits : (it : Item) (msg : Message) (m : MemoryStore) → Waits msg m → step it msg m ≡ m
  unfolding step
  step-Waits it (topic_creation t) m h = elim h [ ]
  step-Waits it (story s) m h = elim h [ ]
  step-Waits it (comment c) m (v, h) = rw (v, h) refl
  step-Waits it (vote w) m (v, h) = rw (v, h) refl
  step-Waits it (continuation c) m h = elim h [ ]

  grown :
      (a b : Bool) (m n : MemoryStore)
      → Grows m n
      → Grows m (if not a then m else if not b then m else n)
  grown false b m n g = Grows-refl m
  grown true false m n g = Grows-refl m
  grown true true m n g = g

  pub step-Grows : (it : Item) (msg : Message) (m : MemoryStore) → Grows m (step it msg m)
  unfolding step
  step-Grows it (topic_creation t) m =
      Grows-trans _ _ _ (put_item-Grows it m)
        (insert_topic-Grows (topic_from_msg it t) (put_item it m))
  step-Grows it (story s) m =
      Grows-trans _ _ _ (put_item-Grows it m)
        (put_story-Grows (story_from_msg it.id s) (put_item it m))
  step-Grows it (comment c) m = grown (verify_comment crypto c) (there c.parent_id m) m _ (
      Grows-trans _ _ _ (put_item-Grows it m)
        (put_comment-Grows (comment_from_msg it.id c) (put_item it m)))
  step-Grows it (vote v) m = grown (verify_vote crypto v) (there v.target_id m) m _ (
      Grows-trans _ _ _ (put_item-Grows it m) (put_vote-Grows (vote_from_msg it v) (put_item it m)))
  step-Grows it (continuation c) m =
      Grows-trans _ _ _ (put_item-Grows it m)
        (put_continuation-Grows (continuation_from_msg it c) (put_item it m))

  -- A message is dropped for want of its parent or target, or is done.
  pub step_settles :
      (it : Item) (msg : Message) (m : MemoryStore) → Waits msg m ⊎ Done it msg (step it msg m)
  unfolding step topic_from_msg story_from_msg comment_from_msg
  step_settles it (topic_creation t) m =
      let u = put_item it m in
      inr (
        (insert_topic-Grows (topic_from_msg it t) u).items it.id (put_item-HasItem it m),
        insert_topic-HasTopic (topic_from_msg it t) u,
      )
  step_settles it (story s) m =
      let u = put_item it m in
      inr (
        (put_story-Grows (story_from_msg it.id s) u).items it.id (put_item-HasItem it m),
        put_story-HasStory (story_from_msg it.id s) u,
      )
  step_settles it (comment c) m = elim (Bool-cases (verify_comment crypto c)) [
    | inr e ↦ inr (inl e)
    | inl e ↦ elim (Bool-cases (there c.parent_id m)) [
      | inr q ↦ inl (e, q)
      | inl q ↦
          let u = put_item it m in
          inr (
            inr (
              rw (e, q)
                (
                  (put_comment-Grows (comment_from_msg it.id c) u).items it.id
                      (put_item-HasItem it m),
                  put_comment-HasComment (comment_from_msg it.id c) u,
                )))
    ]
  ]
  step_settles it (vote v) m = elim (Bool-cases (verify_vote crypto v)) [
    | inr e ↦ inr (inl e)
    | inl e ↦ elim (Bool-cases (there v.target_id m)) [
      | inr q ↦ inl (e, q)
      | inl q ↦
          let u = put_item it m in
          inr (
            inr (
              rw (e, q)
                (
                  (put_vote-Grows (vote_from_msg it v) u).items it.id (put_item-HasItem it m),
                  put_vote-HasVote (vote_from_msg it v) u,
                )))
    ]
  ]
  step_settles it (continuation c) m =
      let u = put_item it m in
      inr (
        (put_continuation-Grows (continuation_from_msg it c) u).items it.id (put_item-HasItem it m),
        put_continuation-HasChunk (continuation_from_msg it c) u,
      )
