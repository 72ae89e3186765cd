-- ===== src/Scanner/CatchUp.antt =====
-- scanner/scanner.go: Run against a node whose chain stands still while it runs.
pub mod Reorganises
use coinnews_indexer.Prelude.{
  ℕ, zero, suc, ◌+◌, ◌-◌, ◌<◌, ◌≤◌, not, ◌&&◌, ◌≡◌, refl, sym, ap, ◌∙◌, ◌⊎◌, inl, inr, Bool, true,
  false, if◌then◌else◌, [], arith, bytes_beq, bytes_beq_iff, bytes_eq, refl_beq,
}
use coinnews_indexer.Prelude.Int.{ℤ, pos, ltz, ◌+ℤ◌}
use coinnews_indexer.Codec.Types.{Bytes, ok}
use coinnews_indexer.Codec.Crypto.{Crypto}
use coinnews_indexer.Store.Interface.{Io, ◌>>=◌}
use coinnews_indexer.Store.Memory.{MemoryStore, new_memory, save_cursor, load_cursor}
use coinnews_indexer.Store.Memory.Backend.{World, memory_store}
use coinnews_indexer.Rpc.{Block}
use coinnews_indexer.Scanner.{BlockSource, beside, with_node, run_loop, run, resume}
use coinnews_indexer.Scanner.Returns.{indexed, process_block-indexed}

-- A node that answers every call, with one chain whose blocks name the block before them.
pub record IsStatic {N : Type 0} (node : BlockSource N) (tip : ℕ) (hash : ℕ → Bytes)
    (block : ℕ → Block) : Type 0 where
  pub no_cancel : (n : N) → node.ctx_err n ≡ (ok tt, n)
  pub count : (n : N) → node.get_block_count n ≡ (ok (pos tip), n)
  pub hash_at : (h : ℕ) (n : N) → h ≤ tip → node.get_block_hash (pos h) n ≡ (ok (hash h), n)
  pub block_at : (h : ℕ) (n : N) → h ≤ tip → node.get_block (hash h) n ≡ (ok (block h), n)
  pub linked : (h : ℕ) → suc h ≤ tip → (block (suc h)).previous_block_hash ≡ hash h

if_true : {W A : Type 0} (b : Bool) (x y : Io W A) (w : W) → b ≡ true → (if b then x else y) w ≡ x w
if_true b x y w e = rw e

if_false :
    {W A : Type 0} (b : Bool) (x y : Io W A) (w : W) → b ≡ false → (if b then x else y) w ≡ y w
if_false b x y w e = rw e

module _ {N : Type 0} where
  step :
      {A B : Type 0} (f : Io N A) (a : A) (k : A → Io (World N) B) (n : N) (m : MemoryStore)
      → f n ≡ (ok a, n)
      → (beside f >>= k) (n, m) ≡ k a (n, m)
  unfolding ◌>>=◌
  step f a k n m e = rw e

  then_step :
      {A B : Type 0} (f : Io (World N) A) (a : A) (k : A → Io (World N) B) (w v : World N)
      → f w ≡ (ok a, v)
      → (f >>= k) w ≡ k a v
  unfolding ◌>>=◌
  then_step f a k w v e = rw e

+-zero : (a : ℕ) → a + 0 ≡ a
+-zero a = omega arith

pub zero-+ : (a : ℕ) → 0 + a ≡ a
zero-+ a = omega arith

+-suc : (a b : ℕ) → a + suc b ≡ suc a + b
+-suc a b = omega arith

module _ {N : Type 0} (crypto : Crypto) (hash : ℕ → Bytes) (block : ℕ → Block) where
  -- The store once the `k` blocks from height `h` on are indexed in order.
  unfoldable pub indexed_from : N → ℕ → ℕ → MemoryStore → MemoryStore
  indexed_from n h zero m = m
  indexed_from n h (suc k) m =
      indexed_from n (suc h) k (save_cursor (pos h) (hash h) (indexed crypto (block h) n m))

  pub load_cursor-indexed_from :
      (n : N) (h k : ℕ) (m : MemoryStore)
      → load_cursor (indexed_from n h (suc k) m) ≡ (pos (h + k), hash (h + k), true)
  unfolding indexed_from load_cursor save_cursor
  load_cursor-indexed_from n h zero m = rw (+-zero h)
  load_cursor-indexed_from n h (suc k) m = rw (+-suc h k) (load_cursor-indexed_from n (suc h) k _)

  indexed_from_add :
      (n : N) (h j k mid all : ℕ) (m : MemoryStore)
      → j + k ≡ all
      → h + j ≡ mid
      → indexed_from n mid k (indexed_from n h j m) ≡ indexed_from n h all m
  unfolding indexed_from
  indexed_from_add n h zero k mid all m e e' =
      ap (λ i. indexed_from n i k m) {x = mid} {y = h} (ground arith)
      ∙ ap (λ i. indexed_from n h i m) {x = k} {y = all} (ground arith)
  indexed_from_add n h (suc j) k mid zero m e e' = ground arith
  indexed_from_add n h (suc j) k mid (suc all) m e e' =
      indexed_from_add n (suc h) j k mid all _ (ground arith) (ground arith)

module _ {N : Type 0} (crypto : Crypto) (node : BlockSource N) (depth : ℤ) (tip : ℕ)
    (hash : ℕ → Bytes) (block : ℕ → Block) (st : IsStatic node tip hash block) where
  beq_nil : bytes_beq [] [] ≡ true
  beq_nil = (bytes_beq_iff [] []).1 refl

  reorg_test :
      (h : ℕ) (prev : Bytes)
      → (prev ≡ []) ⊎ ((block h).previous_block_hash ≡ prev)
      → (not (bytes_beq prev []) && not (bytes_beq (block h).previous_block_hash prev)) ≡ false
  reorg_test h prev (inl e) = rw (e, beq_nil)
  reorg_test h prev (inr e) = ground (arith, refl_beq prev, ap (λ b. bytes_beq b prev) e)

  past_tip : (h : ℕ) → 0 + h ≡ suc tip → ltz (pos tip) (pos h) ≡ true
  past_tip h e = ground arith

  pos_suc : (h : ℕ) → pos h +ℤ pos 1 ≡ pos (suc h)
  unfolding ◌+ℤ◌
  pos_suc h = ground arith

  at_tip : (k h : ℕ) → k + h ≡ suc tip → 0 < k → ltz (pos tip) (pos h) ≡ false
  at_tip k h e l = ground arith

  run_loop-indexed :
      (k fuel h : ℕ) (start : ℤ) (prev : Bytes) (n : N) (m : MemoryStore)
      → k < fuel
      → k + h ≡ suc tip
      → (h ≤ tip → (prev ≡ []) ⊎ ((block h).previous_block_hash ≡ prev))
      → run_loop crypto (memory_store N) (with_node node) depth fuel start (pos h) prev (n, m)
        ≡ (ok tt, (n, indexed_from crypto hash block n h k m))
  unfolding run_loop indexed_from
  run_loop-indexed k zero h start prev n m l e p = ground arith
  run_loop-indexed zero (suc fuel) h start prev n m l e p =
      step _ tt _ n m (st.no_cancel n)
      ∙ step _ (pos tip) _ n m (st.count n)
      ∙ if_true _ _ _ (n, m) (past_tip h e)
  run_loop-indexed (suc k) (suc fuel) h start prev n m l e p =
      step _ tt _ n m (st.no_cancel n)
      ∙ step _ (pos tip) _ n m (st.count n)
      ∙ if_false _ _ _ (n, m) (at_tip (suc k) h e (ground arith))
      ∙ step _ (hash h) _ n m (st.hash_at h n (ground arith))
      ∙ step _ (block h) _ n m (st.block_at h n (ground arith))
      ∙ if_false _ _ _ (n, m) (reorg_test h prev (p (ground arith)))
      ∙ then_step _ tt _ (n, m) _ (process_block-indexed crypto (block h) n m)
      ∙ then_step _ tt _ (n, indexed crypto (block h) n m) _ refl
      ∙ ap
          (λ z.
            run_loop crypto (memory_store N) (with_node node) depth fuel start z (hash h)
              (n, save_cursor (pos h) (hash h) (indexed crypto (block h) n m)))
          (pos_suc h)
      ∙ run_loop-indexed k fuel (suc h) start (hash h) n _ (ground arith) (ground arith)
          (λ i. inr (st.linked h i))

  -- A run from an empty in-memory store against a node whose chain does not change, with fuel for
  -- more than one round a block, ends without an error; the store is the one that indexing the
  -- blocks 0 to `tip` one after the other gives, and the node is as it was. The start height is 0.
  pub run-indexes_chain :
      (fuel : ℕ) (n : N)
      → suc tip < fuel
      → run crypto (memory_store N) (with_node node) depth fuel (pos 0) (n, new_memory)
        ≡ (ok tt, (n, indexed_from crypto hash block n 0 (suc tip) new_memory))
  unfolding run resume ◌>>=◌ load_cursor
  run-indexes_chain fuel n l =
      run_loop-indexed (suc tip) fuel 0 (pos 0) [] n new_memory l (ground arith) (λ _. inl refl)

  resume-at :
      (h : ℕ) (n : N) (m : MemoryStore)
      → h ≤ tip
      → load_cursor m ≡ (pos h, hash h, true)
      → resume crypto (memory_store N) (with_node node) depth (pos 0) (n, m)
        ≡ (ok (pos (suc h), hash h), (n, m))
  unfolding resume
  resume-at h n m i c =
      then_step _ (pos h, hash h, true) _ (n, m) (n, m) (rw c)
      ∙ step _ (hash h) _ n m (st.hash_at h n i)
      ∙ if_true _ _ _ (n, m) (refl_beq (hash h))
      ∙ ap (λ z. (ok (z, hash h), (n, m))) (pos_suc h)

  -- A run over an in-memory store whose cursor is at height `h` with the node's hash of that height
  -- indexes the blocks after `h` up to the tip in order, and no other, if the node's chain does not
  -- change; one round for each such block, and one more, are enough. The start height is 0.
  pub run-resumes :
      (fuel h k : ℕ) (n : N) (m : MemoryStore)
      → k + h ≡ tip
      → k < fuel
      → load_cursor m ≡ (pos h, hash h, true)
      → run crypto (memory_store N) (with_node node) depth fuel (pos 0) (n, m)
        ≡ (ok tt, (n, indexed_from crypto hash block n (suc h) k m))
  unfolding run resume
  run-resumes fuel h k n m e l c =
      then_step _ (pos (suc h), hash h) _ (n, m) (n, m) (resume-at h n m (ground arith) c)
      ∙ run_loop-indexed k fuel (suc h) (pos 0) (hash h) n m l (ground arith)
          (λ i. inr (st.linked h i))

-- A run over the in-memory backend that stops at the tip and a later run against the longer chain
-- give the result that one run against the longer chain gives. The two nodes serve the same chain,
-- the first up to height `low`, the second up to height `high`, neither changes during a run or
-- cancels it, and each run has fuel for more than one round a block. The start height is 0.
pub run-restart :
    {N : Type 0} (crypto : Crypto) (node later : BlockSource N) (depth : ℤ) (low high : ℕ)
    (hash : ℕ → Bytes) (block : ℕ → Block) (fuel fuel' whole : ℕ) (n : N)
    → IsStatic node low hash block
    → IsStatic later high hash block
    → low ≤ high
    → suc low < fuel
    → suc high < fuel'
    → suc high < whole
    → run crypto
        (memory_store N)
        (with_node later)
        depth
        fuel'
        (pos 0)
        (run crypto (memory_store N) (with_node node) depth fuel (pos 0) (n, new_memory)).1
      ≡ run crypto (memory_store N) (with_node later) depth whole (pos 0) (n, new_memory)
run-restart crypto node later depth low high hash block fuel fuel' whole n st st' i l l' lw =
    let first = indexed_from crypto hash block n 0 (suc low) new_memory in
    ap (λ r. run crypto (memory_store _) (with_node later) depth fuel' (pos 0) r.1)
      (run-indexes_chain crypto node depth low hash block st fuel n l)
    ∙ run-resumes crypto later depth high hash block st' fuel' low (high - low) n first
        (ground arith) (ground arith)
        (load_cursor-indexed_from crypto hash block n 0 low new_memory
          ∙ ap (λ h. (pos h, hash h, true)) (zero-+ low))
    ∙ ap (λ m. (ok tt, (n, m)))
        (indexed_from_add crypto hash block n 0 (suc low) (high - low) (suc low) (suc high)
          new_memory (ground arith) (ground arith))
    ∙ sym (run-indexes_chain crypto later depth high hash block st' whole n lw)
