-- ===== src/Scanner/Again/Blocks.antt =====
-- scanner/scanner.go: a block that is processed again, after a run that was cut off within it.
use coinnews_indexer.Prelude.{
  ℕ, ◌+◌, ◌≡◌, ◌⊎◌, inl, inr, refl, sym, ap, ◌∙◌, List, [], ◌∷◌, ◌++◌, All, Option, none, some,
  Bool, true, false, not, if◌then◌else◌, bytes_eq, bytes_beq,
}
use mathlib.Core.Path.{subst}
use coinnews_indexer.Codec.Types.{Bytes, Result, ok, err, Message}
use coinnews_indexer.Codec.Crypto.{Crypto}
use coinnews_indexer.Codec.ItemId.{item_id_from_rpc}
use coinnews_indexer.Codec.Message.{decode_message}
use coinnews_indexer.Store.Types.{Item}
use coinnews_indexer.Store.Interface.{Io, continue, ◌>>=◌}
use coinnews_indexer.Store.Memory.{MemoryStore}
use coinnews_indexer.Store.Memory.Backend.{World, memory_store}
use coinnews_indexer.Store.Memory.Grows.{Grows, Grows-refl, Grows-trans}
use coinnews_indexer.Rpc.{Vout, Tx, Block}
use coinnews_indexer.Scanner.Script.{op_return_payload}
use coinnews_indexer.Scanner.Again.{
  step, persist-step, Waits, Done, Done-Grows, step-Done, step-Waits, step-Grows, step_settles,
}
use coinnews_indexer.Scanner.{
  nulldata, base_item, process_decoded, process_payload, process_vout, process_vouts, process_txs,
  process_block,
}

-- The messages of a block, each with its item row, in the order of their outputs.
abbrev Found : Type 0
Found = List (Item × Message)

module _ (crypto : Crypto) where
  unfoldable pub steps : Found → MemoryStore → MemoryStore
  steps [] m = m
  steps ((it, msg) ∷ l) m = steps l (step crypto it msg m)

  steps-append : (k l : Found) (m : MemoryStore) → steps (k ++ l) m ≡ steps l (steps k m)
  unfolding steps
  steps-append [] l m = refl
  steps-append ((it, msg) ∷ k) l m = steps-append k l (step crypto it msg m)

  steps-Grows : (l : Found) (m : MemoryStore) → Grows m (steps l m)
  unfolding steps
  steps-Grows [] m = Grows-refl m
  steps-Grows ((it, msg) ∷ l) m =
      Grows-trans _ _ _ (step-Grows crypto it msg m) (steps-Grows l (step crypto it msg m))

  -- The parent or target of a signed message that is dropped for want of it is not stored by the
  -- messages behind it either.
  unfoldable pub InOrder : Found → MemoryStore → Type 0
  InOrder [] m = Unit
  InOrder ((it, msg) ∷ l) m =
      (Waits crypto msg m → Waits crypto msg (steps l (step crypto it msg m)))
      × InOrder l (step crypto it msg m)

  abbrev Settled : MemoryStore → Item × Message → Type 0
  Settled m x = Waits crypto x.1 m ⊎ Done crypto x.0 x.1 m

  steps-Settled : (l : Found) (m : MemoryStore) → InOrder l m → All (Settled (steps l m)) l
  unfolding InOrder steps
  steps-Settled [] m o = tt
  steps-Settled ((it, msg) ∷ l) m (w, o) = (
    elim (step_settles crypto it msg m) [
      | inl h ↦ inl (w h)
      | inr d ↦ inr (
          Done-Grows crypto it msg (step crypto it msg m) (steps l (step crypto it msg m))
            (steps-Grows l (step crypto it msg m)) d)
    ],
    steps-Settled l (step crypto it msg m) o,
  )

  steps_same : (l : Found) (m : MemoryStore) → All (Settled m) l → steps l m ≡ m
  unfolding steps
  steps_same [] m h = refl
  steps_same ((it, msg) ∷ l) m (s, h) =
      let same : step crypto it msg m ≡ m = elim s [
        | inl w ↦ step-Waits crypto it msg m w
        | inr d ↦ step-Done crypto it msg m d
      ] in
      ap (steps l) same ∙ steps_same l m h

  steps_again :
      (k l : Found) (m : MemoryStore) → InOrder k m → steps (k ++ l) (steps k m) ≡ steps (k ++ l) m
  steps_again k l m o =
      steps-append k l (steps k m)
      ∙ ap (steps l) (steps_same k (steps k m) (steps-Settled k m o))
      ∙ sym (steps-append k l m)

  unfoldable pub decoded : Block → ℕ → Tx → Vout → Result Message → Result Bytes → Found
  decoded b i t v (ok msg) (ok id) =
      (base_item crypto (memory_store (Unit {0})) b i t v id msg, msg) ∷ []
  decoded b i t v _ _ = []

  unfoldable pub of_payload : Block → ℕ → Tx → Vout → Option Bytes → Found
  of_payload b i t v none = []
  of_payload b i t v (some p) =
      decoded b i t v (decode_message p) (item_id_from_rpc crypto t.txid v.n)

  unfoldable pub of_vouts : Block → ℕ → Tx → List Vout → Found
  of_vouts b i t [] = []
  of_vouts b i t (v ∷ vs) =
      (if not (bytes_beq v.script_pub_key.kind nulldata)
        then []
        else of_payload b i t v (op_return_payload v.script_pub_key.hex))
      ++ of_vouts b i t vs

  unfoldable pub of_txs : Block → ℕ → List Tx → Found
  of_txs b i [] = []
  of_txs b i (t ∷ ts) = of_vouts b i t t.vout ++ of_txs b (i + 1) ts

  unfoldable pub messages : Block → Found
  unfolding of_txs
  messages b = of_txs b 0 b.tx

  module _ {N : Type 0} (n : N) where
    -- The action stores these messages.
    record Stores (f : Io (World N) (Unit {0})) (l : Found) : Type 0 where
      at : (m : MemoryStore) → f (n, m) ≡ (ok tt, (n, steps l m))

    Stores-pure : Stores (λ w. (ok tt, w)) []
    unfolding steps
    Stores-pure = record { at = λ m. refl }

    Stores-bind :
        (f g : Io (World N) (Unit {0})) (k l : Found)
        → Stores f k
        → Stores g l
        → Stores (f >>= λ _. g) (k ++ l)
    unfolding ◌>>=◌
    Stores-bind f g k l hf hg = record {
      at = λ m.
          ap (λ r. continue r.0 (λ _. g) r.1) (hf.at m)
          ∙ hg.at (steps k m)
          ∙ ap (λ u. (ok tt, (n, u))) (sym (steps-append k l m));
    }

    decoded-Stores :
        (b : Block) (i : ℕ) (t : Tx) (v : Vout) (msg : Result Message) (id : Result Bytes)
        → Stores (process_decoded crypto (memory_store N) b i t v msg id) (decoded b i t v msg id)
    unfolding process_decoded decoded steps base_item
    decoded-Stores b i t v (err e) id = Stores-pure
    decoded-Stores b i t v (ok msg) (err e) = Stores-pure
    decoded-Stores b i t v (ok msg) (ok id) = record { at = λ m. persist-step crypto _ msg n m }

    payload-Stores :
        (b : Block) (i : ℕ) (t : Tx) (v : Vout) (p : Option Bytes)
        → Stores (process_payload crypto (memory_store N) b i t v p) (of_payload b i t v p)
    unfolding process_payload of_payload
    payload-Stores b i t v none = Stores-pure
    payload-Stores b i t v (some p) = decoded-Stores b i t v _ _

    Stores-if :
        (c : Bool) (f : Io (World N) (Unit {0})) (l : Found)
        → Stores f l
        → Stores (if c then (λ w. (ok tt, w)) else f) (if c then [] else l)
    Stores-if true f l h = Stores-pure
    Stores-if false f l h = h

    vouts-Stores :
        (b : Block) (i : ℕ) (t : Tx) (vs : List Vout)
        → Stores (process_vouts crypto (memory_store N) b i t vs) (of_vouts b i t vs)
    unfolding process_vouts process_vout of_vouts
    vouts-Stores b i t [] = Stores-pure
    vouts-Stores b i t (v ∷ vs) =
        Stores-bind _ _ _ _ (Stores-if _ _ _ (payload-Stores b i t v _)) (vouts-Stores b i t vs)

    txs-Stores :
        (b : Block) (i : ℕ) (ts : List Tx)
        → Stores (process_txs crypto (memory_store N) b i ts) (of_txs b i ts)
    unfolding process_txs of_txs
    txs-Stores b i [] = Stores-pure
    txs-Stores b i (t ∷ ts) =
        Stores-bind _ _ _ _ (vouts-Stores b i t t.vout) (txs-Stores b (i + 1) ts)

    -- What processing a block leaves.
    pub process_block-steps :
        (b : Block) (m : MemoryStore)
        → process_block crypto (memory_store N) b (n, m) ≡ (ok tt, (n, steps (messages b) m))
    unfolding process_block messages
    process_block-steps b m = (txs-Stores b 0 b.tx).at m

    -- A block that was processed up to some message over the in-memory backend, when the run was
    -- cut off before its cursor was saved, and is processed again as a whole, gives what processing
    -- it once gives, if none of the messages that were processed is a signed comment or vote whose
    -- parent or target was missing then and was stored by a message behind it.
    pub process_block_again :
        (b : Block) (k l : Found) (m : MemoryStore)
        → messages b ≡ k ++ l
        → InOrder k m
        → process_block crypto (memory_store N) b (n, steps k m)
          ≡ process_block crypto (memory_store N) b (n, m)
    process_block_again b k l m split o =
        process_block-steps b (steps k m)
        ∙ ap (λ u. (ok tt, (n, u)))
            (subst (λ x. steps x (steps k m) ≡ steps x m) (sym split) (steps_again k l m o))
        ∙ sym (process_block-steps b m)
