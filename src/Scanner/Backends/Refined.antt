-- ===== src/Scanner/Backends/Refined.antt =====
-- scanner/scanner.go over store/sqlite.go and over its specification.
use coinnews_indexer.Prelude.{
  ℕ, ◌≡◌, ◌≢◌, refl, ap, ◌∙◌, List, [], ◌∷◌, Option, none, true, false, arith, bytes_beq, bytes_eq,
  Bool-cases, inl, inr,
}
use mathlib.Core.Path.{subst}
use coinnews_indexer.Prelude.Int.{ℤ}
use coinnews_indexer.Codec.Types.{Bytes, Error, Result}
use coinnews_indexer.Codec.Crypto.{Crypto}
use coinnews_indexer.GoMap.{get}
use coinnews_indexer.Store.Types.{Item}
use coinnews_indexer.Store.Interface.{Io, ◌>>◌}
use coinnews_indexer.Store.Sql.{any, find_by}
use coinnews_indexer.Store.Sql.Laws.{get-keyed}
use coinnews_indexer.Store.Memory as Memory
use coinnews_indexer.Store.Memory.{MemoryStore, new_memory}
use coinnews_indexer.Store.Memory.Consistent.{put_item_self}
use coinnews_indexer.Store.Sqlite.{
  Db, statement, on_db, sqlite_store, put_item, no_item, item_by_id,
}
use coinnews_indexer.Store.Sqlite.Schema.{Tables}
use coinnews_indexer.Store.Sqlite.Atomic.{guarded, atomic_store}
use coinnews_indexer.Store.Sqlite.Refines.{Stored}
use coinnews_indexer.Store.Sqlite.Refines.Calls.{
  Does, save_cursor-Does, load_cursor-Does, item_by_id-Does, put_item-Does, insert_topic-Does,
}
use coinnews_indexer.Store.Sqlite.Refines.Stories.{put_story-Does, put_comment-Does}
use coinnews_indexer.Store.Sqlite.Refines.Votes.{put_vote-Does, put_continuation-Does}
use coinnews_indexer.Scanner.{BlockSource, with_node, beside, exists, is_some, run}
use coinnews_indexer.Scanner.Simulate.{
  Both, both, Sim, Sim-bind, Sim-pure, StoresAlike, NodesAlike, HasId, run-Sim,
}
use coinnews_indexer.Scanner.Backends.{Side, side, behind, alone, statement-Sim, delete-Sim}

find-any :
    (rows : List Item) (id : Bytes)
    → find_by (λ r. r.id) rows id ≢ none
    → any (λ it. bytes_beq it.id id) rows ≡ true
unfolding find_by any
find-any [] id h = absurd (h refl)
find-any (r ∷ rows) id h = elim (Bool-cases (bytes_beq r.id id)) [
  | inl e ↦ rw e refl
  | inr e ↦ rw e (find-any rows id λ q. h (rw e q))
]

-- Behind its item, a row meets its foreign key.
put_item-no_item :
    (crypto : Crypto) (it : Item) (t : Tables) (m : MemoryStore)
    → Stored crypto t (Memory.put_item it m)
    → no_item it.id t ≡ false
unfolding no_item Memory.item_by_id
put_item-no_item crypto it t m s =
    let there = find-any t.cn_items it.id λ q. put_item_self it m (
      ap (λ l. get l it.id) s.items
      ∙ get-keyed (λ r. r.id) (λ r. r) t.cn_items it.id
      ∙ rw q refl) in
    ground (arith, there)

module _ {N E : Type 0} (crypto : Crypto) (engine : E → Option Error × E) where
  abbrev Related : N × Db E Tables → N × Db E MemoryStore → Type 0
  Related = Side crypto engine

  -- A row that refers to its item, right behind it.
  behind_item :
      (it : Item) (f : Tables → Result (Unit {0} × Tables))
      (g : MemoryStore → Unit {0} × MemoryStore)
      → HasId crypto it
      → ((t : Tables) (m : MemoryStore)
          → no_item it.id t ≡ false
          → Stored crypto t m
          → Does crypto (f t) (g m))
      → Sim Related
          (on_db (statement engine (put_item it)) >> on_db (statement engine f))
          (on_db (guarded engine 1 λ m. (tt, Memory.put_item it m)) >> on_db (guarded engine 1 g))
  behind_item it f g h does = record { at = at }
    where
      at :
          (v : N × Db E Tables) (w : N × Db E MemoryStore)
          → Related v w
          → Both Related
              ((on_db (statement engine (put_item it)) >> on_db (statement engine f)) v)
              ((on_db (guarded engine 1 λ m. (tt, Memory.put_item it m))
                  >> on_db (guarded engine 1 g))
                w)
      at v w (side n e t m s) =
          behind crypto engine (put_item it) (λ m. (tt, Memory.put_item it m)) _ _ n e t m s
            (put_item-Does crypto it t m h s)
            λ d u s'.
              alone crypto engine f g n d u (Memory.put_item it m) s'
                (does u (Memory.put_item it m) (put_item-no_item crypto it u m s') s')

  found-Sim :
      (id : Bytes)
      → Sim Related
          (exists crypto (sqlite_store engine N) id)
          (exists crypto (atomic_store engine N) id)
  unfolding exists
  found-Sim id =
      Sim-bind _ _ _ _
        (statement-Sim crypto engine (item_by_id id) (λ m. (Memory.item_by_id id m, m))
          (item_by_id-Does crypto id))
        (λ found. Sim-pure (is_some found))

  backends_alike : StoresAlike crypto Related (sqlite_store engine N) (atomic_store engine N)
  backends_alike = record {
    save_cursor = λ h hash. statement-Sim crypto engine _ _ (save_cursor-Does crypto h hash);
    load_cursor = statement-Sim crypto engine _ _ (load_cursor-Does crypto);
    delete_from_height = delete-Sim crypto engine;
    put_item = λ it h. statement-Sim crypto engine _ _ (λ t m. put_item-Does crypto it t m h);
    insert_topic = λ topic z small.
        statement-Sim crypto engine _ _ (λ t m. insert_topic-Does crypto topic t m z);
    story = λ it row h same small.
        behind_item it _ _ h λ t m there.
          put_story-Does crypto row t m (subst (λ id. no_item id t ≡ false) same there);
    comment = λ it row h same sized. behind_item it _ _ h λ t m there.
        put_comment-Does crypto row t m (subst (λ id. no_item id t ≡ false) same there);
    put_vote = λ v. statement-Sim crypto engine _ _ (put_vote-Does crypto v);
    put_continuation = λ c. statement-Sim crypto engine _ _ (put_continuation-Does crypto c);
    found = found-Sim;
  }

  node_call : {A : Type 0} (f : Io N A) → Sim Related (beside f) (beside f)
  node_call f = record { at = at }
    where
      at :
          (v : N × Db E Tables) (w : N × Db E MemoryStore)
          → Related v w
          → Both Related (beside f v) (beside f w)
      at v w (side n e t m s) = both (f n).0 _ _ (side (f n).1 e t m s)

  nodes_alike : (node : BlockSource N) → NodesAlike Related (with_node node) (with_node node)
  nodes_alike node = record {
    ctx_err = node_call node.ctx_err;
    count = node_call node.get_block_count;
    hash_at = λ h. node_call (node.get_block_hash h);
    block_at = λ hash. node_call (node.get_block hash);
  }

-- A run over the SQLite backend refines a run over its specification, the in-memory backend of
-- which each call is done whole or, if the engine fails one of its statements, not at all and gives
-- the engine's error. From worlds with the same node and engine whose tables hold what the
-- in-memory backend holds, both runs, with any node, engine and fuel, give the same result, an
-- error too, and end in such worlds. No constraint of the schema ever fails. What the tables are
-- compared in: items, topics, stories, comments, votes and the cursor; not continuations, which no
-- call reads.
pub run-refines :
    {N E : Type 0} (crypto : Crypto) (engine : E → Option Error × E) (node : BlockSource N)
    (depth : ℤ) (fuel : ℕ) (start : ℤ) (v : N × Db E Tables) (w : N × Db E MemoryStore)
    → Side crypto engine v w
    → Both
        (Side crypto engine)
        (run crypto (sqlite_store engine N) (with_node node) depth fuel start v)
        (run crypto (atomic_store engine N) (with_node node) depth fuel start w)
run-refines crypto engine node depth fuel start v w =
    (run-Sim crypto _ _ (backends_alike crypto engine) _ _ (nodes_alike crypto engine node) depth
        fuel start).at
      v w
