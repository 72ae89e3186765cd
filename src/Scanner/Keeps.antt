-- ===== src/Scanner/Keeps.antt =====
-- scanner/scanner.go: Run over the in-memory backend and any node, and what every write of the scanner
-- keeps: a diagonal instance of the relation of two worlds.
use coinnews_indexer.Prelude.{ℕ, ◌<◌, ◌≡◌, ◌≢◌, none, length}
use mathlib.Core.Path.{subst}
use coinnews_indexer.Prelude.Int.{ℤ}
use coinnews_indexer.Codec.Types.{Bytes, Result}
use coinnews_indexer.Codec.Crypto.{Crypto}
use coinnews_indexer.Store.Types.{Item}
use coinnews_indexer.Store.Types as Row
use coinnews_indexer.Store.Interface.{Io, ◌>>=◌}
use coinnews_indexer.Store.Memory.{
  MemoryStore, delete_from_height, save_cursor, put_item, insert_topic_if_absent, put_story,
  put_comment, put_vote, put_continuation, item_by_id,
}
use coinnews_indexer.Store.Memory.Backend.{World, memory_store}
use coinnews_indexer.Store.Memory.Consistent.{
  IsConsistent, save_cursor-IsConsistent, put_item-IsConsistent, put_item_self,
  insert_topic-IsConsistent, put_story-IsConsistent, put_comment-IsConsistent,
  put_vote-IsConsistent, put_continuation-IsConsistent, delete_from_height-IsConsistent,
}
use coinnews_indexer.Store.Memory.Bounded.{
  IsBounded, save_cursor-IsBounded, delete_from_height-IsBounded, put_item-IsBounded,
  insert_topic-IsBounded, put_story-IsBounded, put_comment-IsBounded, put_vote-IsBounded,
  put_continuation-IsBounded,
}
use coinnews_indexer.Scanner.{BlockSource, beside, with_node, exists, run}
use coinnews_indexer.Scanner.Simulate.{Both, both, Sim, StoresAlike, NodesAlike, run-Sim}

-- A predicate of the store that the writes of the scanner keep, under the bounds that the decoder
-- keeps.
pub record Kept (P : MemoryStore → Type 0) : Type 0 where
  pub saves : (h : ℤ) (hash : Bytes) (m : MemoryStore) → P m → P (save_cursor h hash m)
  pub deletes : (h : ℤ) (m : MemoryStore) → P m → P (delete_from_height h m)
  pub puts_item : (it : Item) (m : MemoryStore) → P m → P (put_item it m)
  pub inserts_topic :
      (t : Row.Topic)
      → t.retention_days < 256
      → (m : MemoryStore) → P m
      → P (insert_topic_if_absent t m).1
  pub puts_story :
      (it : Item) (s : Row.Story)
      → it.id ≡ s.id
      → s.subtype < 256
      → (m : MemoryStore) → P m
      → P (put_story s (put_item it m))
  pub puts_comment :
      (it : Item) (c : Row.Comment)
      → it.id ≡ c.id
      → length c.author_xpk ≡ 32
      → (m : MemoryStore) → P m
      → P (put_comment c (put_item it m))
  pub puts_vote : (v : Row.Vote) (m : MemoryStore) → P m → P (put_vote v m)
  pub puts_continuation : (c : Row.Continuation) (m : MemoryStore) → P m → P (put_continuation c m)

module _ {N : Type 0} (P : MemoryStore → Type 0) where
  -- One world, whose store satisfies the predicate.
  data Diagonal : World N → World N → Type 0 where
    diagonal : (w : World N) → P w.1 → Diagonal w w

  held : {A : Type 0} {x y : Result A × World N} → Both Diagonal x y → P y.1.1
  held (both r v w (diagonal u h)) = h

  call-Sim :
      {A : Type 0} (f : Io (World N) A) → ((w : World N) → P w.1 → P (f w).1.1) → Sim Diagonal f f
  call-Sim {A} f k = record { at = at }
    where
      at : (v w : World N) → Diagonal v w → Both Diagonal (f v) (f w)
      at v w (diagonal u h) = both (f u).0 (f u).1 (f u).1 (diagonal (f u).1 (k u h))

  module _ (crypto : Crypto) (kept : Kept P) where
    store_alike : StoresAlike crypto Diagonal (memory_store N) (memory_store N)
    unfolding exists ◌>>=◌
    store_alike = record {
      save_cursor = λ h hash. call-Sim _ (λ w. kept.saves h hash w.1);
      load_cursor = call-Sim _ (λ w h. h);
      delete_from_height = λ h. call-Sim _ (λ w. kept.deletes h w.1);
      put_item = λ it i. call-Sim _ (λ w. kept.puts_item it w.1);
      insert_topic = λ t z small. call-Sim _ (λ w. kept.inserts_topic t small w.1);
      story = λ it s i e small. call-Sim _ (λ w. kept.puts_story it s e small w.1);
      comment = λ it c i e sized. call-Sim _ (λ w. kept.puts_comment it c e sized w.1);
      put_vote = λ v. call-Sim _ (λ w. kept.puts_vote v w.1);
      put_continuation = λ c. call-Sim _ (λ w. kept.puts_continuation c w.1);
      found = λ id. call-Sim _ (λ w h. h);
    }

    node_alike : (node : BlockSource N) → NodesAlike Diagonal (with_node node) (with_node node)
    node_alike node = record {
      ctx_err = call-Sim (beside node.ctx_err) (λ w h. h);
      count = call-Sim (beside node.get_block_count) (λ w h. h);
      hash_at = λ height. call-Sim (beside (node.get_block_hash height)) (λ w h. h);
      block_at = λ hash. call-Sim (beside (node.get_block hash)) (λ w h. h);
    }

    -- What every write keeps, a run keeps, whether it returns or fails.
    pub run-Kept :
        (node : BlockSource N) (depth : ℤ) (fuel : ℕ) (start : ℤ) (w : World N)
        → P w.1
        → P (run crypto (memory_store N) (with_node node) depth fuel start w).1.1
    run-Kept node depth fuel start w h = held (
        (run-Sim crypto _ _ store_alike _ _ (node_alike node) depth fuel start).at w w
          (diagonal w h))

IsConsistent-Kept : Kept IsConsistent
IsConsistent-Kept = record {
  saves = save_cursor-IsConsistent;
  deletes = delete_from_height-IsConsistent;
  puts_item = put_item-IsConsistent;
  inserts_topic = λ t small. insert_topic-IsConsistent t;
  puts_story = λ it s e small m h.
      put_story-IsConsistent s (put_item it m)
        (subst (λ k. item_by_id k (put_item it m) ≢ none) e (put_item_self it m))
        (put_item-IsConsistent it m h);
  puts_comment = λ it c e sized m h.
      put_comment-IsConsistent c (put_item it m)
        (subst (λ k. item_by_id k (put_item it m) ≢ none) e (put_item_self it m))
        (put_item-IsConsistent it m h);
  puts_vote = put_vote-IsConsistent;
  puts_continuation = put_continuation-IsConsistent;
}

IsBounded-Kept : Kept IsBounded
IsBounded-Kept = record {
  saves = save_cursor-IsBounded;
  deletes = delete_from_height-IsBounded;
  puts_item = put_item-IsBounded;
  inserts_topic = insert_topic-IsBounded;
  puts_story =
      λ it s e small m h. put_story-IsBounded s small (put_item it m) (put_item-IsBounded it m h);
  puts_comment =
      λ it c e sized m h. put_comment-IsBounded c sized (put_item it m) (put_item-IsBounded it m h);
  puts_vote = put_vote-IsBounded;
  puts_continuation = put_continuation-IsBounded;
}

module _ {N : Type 0} (crypto : Crypto) (node : BlockSource N) (depth : ℤ) where
  -- Whatever the node answers, whether its chain grows or reorganises, and wherever the run stops,
  -- with an error or not: if the in-memory backend is consistent before the run, it is consistent
  -- afterwards. Consistent: none of the maps of items, topics, votes, stories and comments has a
  -- key twice, and no story or comment is there without its item.
  pub run-IsConsistent :
      (fuel : ℕ) (start : ℤ) (w : World N)
      → IsConsistent w.1
      → IsConsistent (run crypto (memory_store N) (with_node node) depth fuel start w).1.1
  run-IsConsistent fuel start = run-Kept IsConsistent crypto IsConsistent-Kept node depth fuel start

  -- Whatever the node answers: the rows that are in the store after a run keep the bounds of Go's
  -- types if those that were there before do.
  pub run-IsBounded :
      (fuel : ℕ) (start : ℤ) (w : World N)
      → IsBounded w.1
      → IsBounded (run crypto (memory_store N) (with_node node) depth fuel start w).1.1
  run-IsBounded fuel start = run-Kept IsBounded crypto IsBounded-Kept node depth fuel start
