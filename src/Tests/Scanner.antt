-- ===== src/Tests/Scanner.antt =====
-- The scanner at concrete inputs: a chain of two blocks, the first with a story.
use coinnews_indexer.Prelude.{ℕ, zero, suc, ◌≡◌, refl, [], ◌∷◌, some, true, arith}
use coinnews_indexer.Prelude.Int.{ℤ, pos, negsuc}
use coinnews_indexer.Codec.Types.{Bytes, AllBytes, ok, err, external, story}
use coinnews_indexer.Codec.Hex.{encode_to_string}
use coinnews_indexer.Codec.Encode.{encode_message}
use coinnews_indexer.Store.Interface.{Io}
use coinnews_indexer.Store.Memory.{MemoryStore, new_memory, load_cursor, save_cursor}
use coinnews_indexer.Store.Memory.Backend.{World, memory_store}
use coinnews_indexer.Store.Memory.Consistent.{IsConsistent, new_memory-IsConsistent}
use coinnews_indexer.Rpc.{Block, Tx}
use coinnews_indexer.Scanner.{BlockSource, with_node, nulldata, default_reorg_depth, run}
use coinnews_indexer.Scanner.Script.{op_return_payload, parse_push}
use coinnews_indexer.Scanner.Script.Pushes.{push, op_return_payload-push}
use coinnews_indexer.Scanner.Keeps.{run-IsConsistent}
use coinnews_indexer.Scanner.CatchUp.{
  IsStatic, indexed_from, run-indexes_chain, run-resumes, run-restart,
}
use coinnews_indexer.Tests.Data.{fill, a_story, a_crypto}

payload_bytes : AllBytes (0x43 ∷ 0x4E ∷ [])
payload_bytes = ground arith

op_return_payload-push_example :
    op_return_payload (encode_to_string (0x6a ∷ push (0x43 ∷ 0x4E ∷ []))) ≡ some (0x43 ∷ 0x4E ∷ [])
op_return_payload-push_example =
    op_return_payload-push (0x43 ∷ 0x4E ∷ []) payload_bytes (omega arith) (omega arith)

push_found : parse_push (0x4c ∷ 1 ∷ 9 ∷ 8 ∷ []) ≡ some (9 ∷ [])
unfolding parse_push
push_found = refl

abbrev start_world : World (Unit {0})
start_world = (tt, new_memory)

abbrev pub hash_of : ℕ → Bytes
hash_of h = h ∷ []

abbrev a_tx : Tx
a_tx = record {
  txid = encode_to_string (fill 32 1);
  vout =
      record {
        n = 0;
        script_pub_key = record {
          hex = encode_to_string (0x6a ∷ push (encode_message (story a_story)));
          kind = nulldata;
          asm = [];
        };
      }
      ∷ [];
}

abbrev pub block_of : ℕ → Block
block_of zero = record {
  hash = hash_of zero;
  height = pos 0;
  time = pos 1700;
  previous_block_hash = [];
  tx = a_tx ∷ [];
}
block_of (suc h) = record {
  hash = hash_of (suc h);
  height = pos (suc h);
  time = pos 1800;
  previous_block_hash = hash_of h;
  tx = [];
}

-- `external 404` is what the node answers off its chain.
abbrev height_hash : ℤ → Io (Unit {0}) Bytes
height_hash (pos h) n = (ok (hash_of h), n)
height_hash (negsuc h) n = (err (external 404), n)

abbrev hash_block : Bytes → Io (Unit {0}) Block
hash_block (h ∷ []) n = (ok (block_of h), n)
hash_block _ n = (err (external 404), n)

abbrev pub node_to : ℕ → BlockSource (Unit {0})
node_to tip = record {
  ctx_err = λ n. (ok tt, n);
  get_block_count = λ n. (ok (pos tip), n);
  get_block_hash = height_hash;
  get_block = hash_block;
}

pub node-IsStatic : (tip : ℕ) → IsStatic (node_to tip) tip hash_of block_of
node-IsStatic tip = record {
  no_cancel = λ n. refl;
  count = λ n. refl;
  hash_at = λ h n i. refl;
  block_at = λ h n i. refl;
  linked = λ h i. refl;
}

run-IsConsistent_example :
    IsConsistent
      (run a_crypto
        (memory_store (Unit {0}))
        (with_node (node_to 1))
        default_reorg_depth
        5
        (pos 0)
        start_world).1.1
run-IsConsistent_example =
    run-IsConsistent a_crypto (node_to 1) default_reorg_depth 5 (pos 0) start_world
      new_memory-IsConsistent

run-indexes_chain_example :
    run a_crypto
      (memory_store (Unit {0}))
      (with_node (node_to 1))
      default_reorg_depth
      3
      (pos 0)
      (tt, new_memory)
    ≡ (ok tt, (tt, indexed_from a_crypto hash_of block_of tt 0 2 new_memory))
run-indexes_chain_example =
    run-indexes_chain a_crypto (node_to 1) default_reorg_depth 1 hash_of block_of (node-IsStatic 1)
      3 tt (omega arith)

cursor_at : load_cursor (save_cursor (pos 0) (hash_of 0) new_memory) ≡ (pos 0, hash_of 0, true)
unfolding load_cursor save_cursor
cursor_at = refl

run-resumes_example :
    run a_crypto
      (memory_store (Unit {0}))
      (with_node (node_to 1))
      default_reorg_depth
      2
      (pos 0)
      (tt, save_cursor (pos 0) (hash_of 0) new_memory)
    ≡ (
      ok tt,
      (
        tt,
        indexed_from a_crypto hash_of block_of tt 1 1 (save_cursor (pos 0) (hash_of 0) new_memory),
      ),
    )
run-resumes_example =
    run-resumes a_crypto (node_to 1) default_reorg_depth 1 hash_of block_of (node-IsStatic 1) 2 0 1
      tt (save_cursor (pos 0) (hash_of 0) new_memory) (omega arith) (omega arith) cursor_at

run-restart_example :
    run a_crypto
      (memory_store (Unit {0}))
      (with_node (node_to 1))
      default_reorg_depth
      3
      (pos 0)
      (run a_crypto
        (memory_store (Unit {0}))
        (with_node (node_to 0))
        default_reorg_depth
        2
        (pos 0)
        (tt, new_memory)).1
    ≡ run a_crypto
        (memory_store (Unit {0}))
        (with_node (node_to 1))
        default_reorg_depth
        4
        (pos 0)
        (tt, new_memory)
run-restart_example =
    run-restart a_crypto (node_to 0) (node_to 1) default_reorg_depth 0 1 hash_of block_of 2 3 4 tt
      (node-IsStatic 0) (node-IsStatic 1) (omega arith) (omega arith) (omega arith) (omega arith)

-- The store is at height 3 of another chain.
abbrev diverged : MemoryStore
diverged = save_cursor (pos 3) (9 ∷ []) new_memory
