-- ===== src/Store/Memory/Backend.antt =====
-- `var _ Store = (*MemoryStore)(nil)`: the in-memory backend as a `Store`, with no error. The world
-- is the store beside whatever else there is, `N`, which the store does not touch.
use coinnews_indexer.Codec.Types.{ok}
use coinnews_indexer.Store.Interface.{Store, Io}
use coinnews_indexer.Store.Memory
use coinnews_indexer.Store.Memory.{MemoryStore}

abbrev pub World : Type 0 → Type 0
World N = N × MemoryStore

-- A method that returns nothing.
abbrev pub change : {N : Type 0} → (MemoryStore → MemoryStore) → Io (World N) (Unit {0})
change f w = (ok tt, (w.0, f w.1))

-- A method that only reads.
abbrev pub read : {N A : Type 0} → (MemoryStore → A) → Io (World N) A
read f w = (ok (f w.1), w)

abbrev pub memory_store : (N : Type 0) → Store (World N)
memory_store N = record {
  save_cursor = λ height hash. change (Memory.save_cursor height hash);
  load_cursor = read Memory.load_cursor;
  delete_from_height = λ height. change (Memory.delete_from_height height);
  put_item = λ it. change (Memory.put_item it);
  insert_topic_if_absent = λ t w.
      (ok (Memory.insert_topic_if_absent t w.1).0, (w.0, (Memory.insert_topic_if_absent t w.1).1));
  put_story = λ s. change (Memory.put_story s);
  put_comment = λ c. change (Memory.put_comment c);
  put_vote = λ v. change (Memory.put_vote v);
  put_continuation = λ c. change (Memory.put_continuation c);
  item_by_id = λ id. read (Memory.item_by_id id);
}
