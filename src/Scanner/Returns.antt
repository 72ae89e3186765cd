-- ===== src/Scanner/Returns.antt =====
-- scanner/scanner.go: ProcessBlock over the in-memory backend, whose calls give no error.
use coinnews_indexer.Prelude.{
  ℕ, ◌+◌, not, ◌≡◌, refl, ◌∙◌, Bool, true, false, if◌then◌else◌, Option, none, some, List, [], ◌∷◌,
}
use coinnews_indexer.Codec.Types.{
  Bytes, Result, ok, err, Message, topic_creation, story, comment, vote, continuation,
}
use coinnews_indexer.Codec.Crypto.{Crypto}
use coinnews_indexer.Store.Types.{Item}
use coinnews_indexer.Store.Interface.{Io, continue, ◌>>=◌, ◌>>◌, pure}
use coinnews_indexer.Store.Memory.{MemoryStore, put_item, put_comment, put_vote}
use coinnews_indexer.Scanner.Convert.{comment_from_msg, vote_from_msg}
use coinnews_indexer.Store.Memory.Backend.{World, memory_store, change}
use coinnews_indexer.Rpc.{Vout, Tx, Block}
use coinnews_indexer.Scanner.{
  persist, exists, process_decoded, process_payload, process_vout, process_vouts, process_txs,
  process_block,
}

abbrev pub IsOk : {A : Type 0} → Result A → Type 0
IsOk (ok a) = Unit
IsOk (err e) = ⊥

-- The action returns without an error, and leaves what is beside the store as it was.
record Returns {N A : Type 0} (m : Io (World N) A) : Type 0 where
  returned : (w : World N) → IsOk (m w).0
  beside_kept : (w : World N) → (m w).1.0 ≡ w.0

module _ {N : Type 0} where
  continue-IsOk :
      {A B : Type 0} (r : Result A) (f : A → Io (World N) B)
      → IsOk r
      → ((a : A) → Returns (f a))
      → (w : World N) → IsOk (continue r f w).0
  continue-IsOk (ok a) f h rf w = (rf a).returned w
  continue-IsOk (err e) f h rf w = elim h [ ]

  continue_beside :
      {A B : Type 0} (r : Result A) (f : A → Io (World N) B)
      → ((a : A) → Returns (f a))
      → (w : World N) → (continue r f w).1.0 ≡ w.0
  continue_beside (ok a) f rf w = (rf a).beside_kept w
  continue_beside (err e) f rf w = refl

  Returns-bind :
      {A B : Type 0} (m : Io (World N) A) (f : A → Io (World N) B)
      → Returns m
      → ((a : A) → Returns (f a))
      → Returns (m >>= f)
  unfolding ◌>>=◌
  Returns-bind m f rm rf = record {
    returned = λ w. continue-IsOk (m w).0 f (rm.returned w) rf (m w).1;
    beside_kept = λ w. continue_beside (m w).0 f rf (m w).1 ∙ rm.beside_kept w;
  }

  Returns-pure : {A : Type 0} (a : A) → Returns {N = N} (pure a)
  Returns-pure a = record { returned = λ w. tt; beside_kept = λ w. refl }

  Returns-change : (f : MemoryStore → MemoryStore) → Returns {N = N} (change f)
  Returns-change f = record { returned = λ w. tt; beside_kept = λ w. refl }

  Returns-if :
      {A : Type 0} (b : Bool) (m n : Io (World N) A)
      → Returns m
      → Returns n
      → Returns (if b then m else n)
  Returns-if true m n rm rn = rm
  Returns-if false m n rm rn = rn

module _ {N : Type 0} (crypto : Crypto) where
  exists-Returns : (id : Bytes) → Returns (exists crypto (memory_store N) id)
  unfolding exists ◌>>=◌
  exists-Returns id = record { returned = λ w. tt; beside_kept = λ w. refl }

  two-Returns : (f g : MemoryStore → MemoryStore) → Returns {N = N} (change f >> change g)
  two-Returns f g = Returns-bind _ _ (Returns-change f) (λ _. Returns-change g)

  persist-Returns :
      (base : Item) (msg : Message) → Returns (persist crypto (memory_store N) base msg)
  unfolding persist
  persist-Returns base (topic_creation m) = Returns-bind _ _ (Returns-change _) λ _.
      Returns-bind _ _ (record { returned = λ w. tt; beside_kept = λ w. refl })
        (λ _. Returns-pure tt)
  persist-Returns base (story m) = two-Returns _ _
  persist-Returns base (comment m) = Returns-if _ _ _ (Returns-pure tt) (
      Returns-bind _ _ (exists-Returns m.parent_id) λ found.
        Returns-if (not found) _ _ (Returns-pure tt)
          (two-Returns (put_item base) (put_comment (comment_from_msg base.id m))))
  persist-Returns base (vote m) = Returns-if _ _ _ (Returns-pure tt) (
      Returns-bind _ _ (exists-Returns m.target_id) λ found.
        Returns-if (not found) _ _ (Returns-pure tt)
          (two-Returns (put_item base) (put_vote (vote_from_msg base m))))
  persist-Returns base (continuation m) = two-Returns _ _

  process_decoded-Returns :
      (b : Block) (i : ℕ) (t : Tx) (v : Vout) (msg : Result Message) (id : Result Bytes)
      → Returns (process_decoded crypto (memory_store N) b i t v msg id)
  unfolding process_decoded
  process_decoded-Returns b i t v (err e) id = Returns-pure tt
  process_decoded-Returns b i t v (ok msg) (err e) = Returns-pure tt
  process_decoded-Returns b i t v (ok msg) (ok id) = persist-Returns _ msg

  process_payload-Returns :
      (b : Block) (i : ℕ) (t : Tx) (v : Vout) (p : Option Bytes)
      → Returns (process_payload crypto (memory_store N) b i t v p)
  unfolding process_payload
  process_payload-Returns b i t v none = Returns-pure tt
  process_payload-Returns b i t v (some p) = process_decoded-Returns b i t v _ _

  process_vouts-Returns :
      (b : Block) (i : ℕ) (t : Tx) (vs : List Vout)
      → Returns (process_vouts crypto (memory_store N) b i t vs)
  unfolding process_vouts process_vout
  process_vouts-Returns b i t [] = Returns-pure tt
  process_vouts-Returns b i t (v ∷ vs) =
      Returns-bind _ _ (Returns-if _ _ _ (Returns-pure tt) (process_payload-Returns b i t v _))
        (λ _. process_vouts-Returns b i t vs)

  process_txs-Returns :
      (b : Block) (i : ℕ) (ts : List Tx) → Returns (process_txs crypto (memory_store N) b i ts)
  unfolding process_txs
  process_txs-Returns b i [] = Returns-pure tt
  process_txs-Returns b i (t ∷ ts) =
      Returns-bind _ _ (process_vouts-Returns b i t t.vout) (λ _. process_txs-Returns b (i + 1) ts)

  -- The store after a block.
  unfoldable pub indexed : Block → N → MemoryStore → MemoryStore
  indexed b n m = (process_block crypto (memory_store N) b (n, m)).1.1

  result_of :
      (r : Result (Unit {0}) × World N) (n : N) → IsOk r.0 → r.1.0 ≡ n → r ≡ (ok tt, (n, r.1.1))
  result_of (ok tt, (n', m)) n h e = rw e
  result_of (err x, w) n h e = elim h [ ]

  pub process_block-indexed :
      (b : Block) (n : N) (m : MemoryStore)
      → process_block crypto (memory_store N) b (n, m) ≡ (ok tt, (n, indexed b n m))
  unfolding indexed process_block
  process_block-indexed b n m =
      let r = process_txs-Returns b 0 b.tx in
      result_of _ n (r.returned (n, m)) (r.beside_kept (n, m))
