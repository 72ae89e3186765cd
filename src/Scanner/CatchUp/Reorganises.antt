-- ===== src/Scanner/CatchUp/Reorganises.antt =====
-- scanner/scanner.go: Run from a cursor whose block is no longer on the node's chain.
use coinnews_indexer.Prelude.{ℕ, ◌-◌, leb, ltb, [], if◌then◌else◌}
use coinnews_indexer.Prelude.Int.{pos}
use coinnews_indexer.Codec.Types.{Bytes}
use coinnews_indexer.Codec.Crypto.{Crypto}
use coinnews_indexer.Store.Memory.{MemoryStore, save_cursor, delete_from_height}
use coinnews_indexer.Rpc.{Block}
use coinnews_indexer.Scanner.{BlockSource}
use coinnews_indexer.Scanner.CatchUp.{IsStatic}

-- The height that the scanner goes back to from height `h`: `depth` blocks, but not below `start`.
unfoldable pub back_to : ℕ → ℕ → ℕ → ℕ
back_to depth start h = if ltb (h - depth) start then start else h - depth

-- The store when the scanner is to index from height `t` on: nothing is left of that height or
-- above, and the cursor is on the block below, unless that block is below the start height.
unfoldable pub rewound : (ℕ → Bytes) → ℕ → ℕ → MemoryStore → MemoryStore
rewound hash start t m =
    let rest = delete_from_height (pos t) m in
    if leb t start then rest else save_cursor (pos (t - 1)) (hash (t - 1)) rest

module _ {N : Type 0} (crypto : Crypto) (node : BlockSource N) (depth start tip : ℕ)
    (hash : ℕ → Bytes) (block : ℕ → Block) (st : IsStatic node tip hash block) where
  -- The hash to chain onto.
  anchored : ℕ → Bytes
  anchored t = if leb t start then [] else hash (t - 1)
