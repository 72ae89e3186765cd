-- ===== src/Scanner/Simulate.antt =====
-- scanner/scanner.go: the walk over two stores and two nodes that answer alike. A relation of their
-- worlds that every call keeps, and under which every call gives one result on both sides, is kept
-- by the whole walk, which gives one result.
use coinnews_indexer.Prelude.{
  ℕ, zero, suc, ◌+◌, ◌<◌, length, ◌≡◌, refl, not, ◌&&◌, Bool, true, false, if◌then◌else◌, Option,
  none, some, List, [], ◌∷◌, bytes_beq,
}
use coinnews_indexer.Prelude.Int.{ℤ, pos, ltz, lez, ◌-ℤ◌, ◌+ℤ◌}
use coinnews_indexer.Codec.Types.{
  Bytes, AllBytes, Result, Error, ok, err, Message, topic_creation, story, comment, vote,
  continuation,
}
use coinnews_indexer.Codec.Crypto.{Crypto}
use coinnews_indexer.Codec.Sign.{verify_comment, verify_vote}
use coinnews_indexer.Codec.ItemId.{item_id_from_rpc}
use coinnews_indexer.Store.Types as Row
use coinnews_indexer.Store.Types.{Item}
use coinnews_indexer.Store.Interface.{Store, Io, continue, ◌>>=◌, ◌>>◌, pure, fail}
use coinnews_indexer.Rpc.{Vout, Tx, Block}
use coinnews_indexer.Scanner.Convert.{
  topic_from_msg, story_from_msg, comment_from_msg, vote_from_msg, continuation_from_msg,
}
use coinnews_indexer.Scanner.Script.Payloads.{
  IsScanned, decode_message-IsScanned, op_return_payload-AllBytes, subtype-IsByte,
}
use coinnews_indexer.Scanner.{
  BlockSource, persist, exists, base_item, process_decoded, process_payload, process_vout,
  process_vouts, process_txs, process_block, rewind, resume, run_loop, run,
}

module _ {V W : Type 0} (R : V → W → Type 0) where
  -- One result on both sides, and worlds that are related.
  pub data Both {A : Type 0} : Result A × V → Result A × W → Type 0 where
    both : (r : Result A) (v : V) (w : W) → R v w → Both (r, v) (r, w)

  -- From related worlds to one result and related worlds.
  pub record Sim {A : Type 0} (m : Io V A) (n : Io W A) : Type 0 where
    pub at : (v : V) (w : W) → R v w → Both (m v) (n w)

module _ {V W : Type 0} {R : V → W → Type 0} where
  continue-Both :
      {A B : Type 0} {x : Result A × V} {y : Result A × W} (f : A → Io V B) (g : A → Io W B)
      → Both R x y
      → ((a : A) → Sim R (f a) (g a))
      → Both R (continue x.0 f x.1) (continue y.0 g y.1)
  continue-Both f g (both (ok a) v w h) s = (s a).at v w h
  continue-Both f g (both (err e) v w h) s = both (err e) v w h

  pub Sim-bind :
      {A B : Type 0} (m : Io V A) (n : Io W A) (f : A → Io V B) (g : A → Io W B)
      → Sim R m n
      → ((a : A) → Sim R (f a) (g a))
      → Sim R (m >>= f) (n >>= g)
  unfolding ◌>>=◌
  Sim-bind m n f g s k = record { at = λ v w h. continue-Both f g (s.at v w h) k }

  pub Sim-pure : {A : Type 0} (a : A) → Sim R (pure a) (pure a)
  Sim-pure a = record { at = λ v w h. both (ok a) v w h }

  Sim-fail : {A : Type 0} (e : Error) → Sim R (fail {A = A} e) (fail e)
  Sim-fail e = record { at = λ v w h. both (err e) v w h }

  pub Sim-if :
      {A : Type 0} (b : Bool) {m m' : Io V A} {n n' : Io W A}
      → Sim R m n
      → Sim R m' n'
      → Sim R (if b then m else m') (if b then n else n')
  Sim-if true s s' = s
  Sim-if false s s' = s'

-- An item whose id is the one of its outpoint.
unfoldable pub HasId : Crypto → Item → Type 0
HasId crypto it = item_id_from_rpc crypto it.txid it.vout ≡ ok it.id

-- The two stores answer alike to what the scanner does to them. A row of a story or a comment comes
-- right behind its item. The bounds are those that the decoder keeps.
pub record StoresAlike {V W : Type 0} (crypto : Crypto) (R : V → W → Type 0) (a : Store V)
    (b : Store W) : Type 0 where
  pub save_cursor : (h : ℤ) (hash : Bytes) → Sim R (a.save_cursor h hash) (b.save_cursor h hash)
  pub load_cursor : Sim R a.load_cursor b.load_cursor
  pub delete_from_height : (h : ℤ) → Sim R (a.delete_from_height h) (b.delete_from_height h)
  pub put_item : (it : Item) → HasId crypto it → Sim R (a.put_item it) (b.put_item it)
  pub insert_topic :
      (t : Row.Topic)
      → t.story_count ≡ 0
      → t.retention_days < 256
      → Sim R (a.insert_topic_if_absent t) (b.insert_topic_if_absent t)
  pub story :
      (it : Item) (s : Row.Story)
      → HasId crypto it
      → it.id ≡ s.id
      → s.subtype < 256
      → Sim R (a.put_item it >> a.put_story s) (b.put_item it >> b.put_story s)
  pub comment :
      (it : Item) (c : Row.Comment)
      → HasId crypto it
      → it.id ≡ c.id
      → length c.author_xpk ≡ 32
      → Sim R (a.put_item it >> a.put_comment c) (b.put_item it >> b.put_comment c)
  pub put_vote : (v : Row.Vote) → Sim R (a.put_vote v) (b.put_vote v)
  pub put_continuation :
      (c : Row.Continuation) → Sim R (a.put_continuation c) (b.put_continuation c)
  pub found : (id : Bytes) → Sim R (exists crypto a id) (exists crypto b id)

-- The two nodes answer alike.
pub record NodesAlike {V W : Type 0} (R : V → W → Type 0) (a : BlockSource V) (b : BlockSource W)
    : Type 0 where
  pub ctx_err : Sim R a.ctx_err b.ctx_err
  pub count : Sim R a.get_block_count b.get_block_count
  pub hash_at : (h : ℤ) → Sim R (a.get_block_hash h) (b.get_block_hash h)
  pub block_at : (hash : Bytes) → Sim R (a.get_block hash) (b.get_block hash)

module _ {V W : Type 0} {R : V → W → Type 0} (crypto : Crypto) (a : Store V) (b : Store W)
    (st : StoresAlike crypto R a b) where
  dropped :
      (found : Bool) {m : Io V (Unit {0})} {n : Io W (Unit {0})}
      → Sim R m n
      → Sim R (if not found then pure tt else m) (if not found then pure tt else n)
  dropped found s = Sim-if (not found) (Sim-pure tt) s

  persist-Sim :
      (base : Item) (msg : Message)
      → HasId crypto base
      → IsScanned msg
      → Sim R (persist crypto a base msg) (persist crypto b base msg)
  unfolding persist story_from_msg comment_from_msg topic_from_msg
  persist-Sim base (topic_creation m) h k = Sim-bind _ _ _ _ (st.put_item base h) λ _.
      Sim-bind _ _ _ _ (st.insert_topic (topic_from_msg base m) refl k.well_formed.1)
        (λ _. Sim-pure tt)
  persist-Sim base (story m) h k =
      st.story base (story_from_msg base.id m) h refl (subtype-IsByte base.id m k)
  persist-Sim base (comment m) h k = Sim-if (not (verify_comment crypto m)) (Sim-pure tt) (
      Sim-bind _ _ _ _ (st.found m.parent_id) λ found.
        dropped found (st.comment base (comment_from_msg base.id m) h refl k.well_formed.1.size))
  persist-Sim base (vote m) h k = Sim-if (not (verify_vote crypto m)) (Sim-pure tt) (
      Sim-bind _ _ _ _ (st.found m.target_id) λ found.
        dropped found
          (Sim-bind _ _ _ _ (st.put_item base h) (λ _. st.put_vote (vote_from_msg base m))))
  persist-Sim base (continuation m) h k =
      Sim-bind _ _ _ _ (st.put_item base h) λ _. st.put_continuation (continuation_from_msg base m)

  process_decoded-Sim :
      (k : Block) (i : ℕ) (t : Tx) (v : Vout) (msg : Result Message) (id : Result Bytes)
      → item_id_from_rpc crypto t.txid v.n ≡ id
      → ((m : Message) → msg ≡ ok m → IsScanned m)
      → Sim R (process_decoded crypto a k i t v msg id) (process_decoded crypto b k i t v msg id)
  unfolding process_decoded base_item
  process_decoded-Sim k i t v (err e) id h sc = Sim-pure tt
  process_decoded-Sim k i t v (ok msg) (err e) h sc = Sim-pure tt
  process_decoded-Sim k i t v (ok msg) (ok id) h sc =
      persist-Sim (base_item crypto a k i t v id msg) msg (unfold HasId in h) (sc msg refl)

  process_payload-Sim :
      (k : Block) (i : ℕ) (t : Tx) (v : Vout) (p : Option Bytes)
      → ((b : Bytes) → p ≡ some b → AllBytes b)
      → Sim R (process_payload crypto a k i t v p) (process_payload crypto b k i t v p)
  unfolding process_payload
  process_payload-Sim k i t v none hp = Sim-pure tt
  process_payload-Sim k i t v (some p) hp =
      process_decoded-Sim k i t v _ _ refl (λ m. decode_message-IsScanned p m (hp p refl))

  process_vouts-Sim :
      (k : Block) (i : ℕ) (t : Tx) (vs : List Vout)
      → Sim R (process_vouts crypto a k i t vs) (process_vouts crypto b k i t vs)
  unfolding process_vouts process_vout
  process_vouts-Sim k i t [] = Sim-pure tt
  process_vouts-Sim k i t (v ∷ vs) =
      Sim-bind _ _ _ _
        (Sim-if _ (Sim-pure tt)
          (process_payload-Sim k i t v _ (op_return_payload-AllBytes v.script_pub_key.hex)))
        (λ _. process_vouts-Sim k i t vs)

  process_txs-Sim :
      (k : Block) (i : ℕ) (ts : List Tx)
      → Sim R (process_txs crypto a k i ts) (process_txs crypto b k i ts)
  unfolding process_txs
  process_txs-Sim k i [] = Sim-pure tt
  process_txs-Sim k i (t ∷ ts) =
      Sim-bind _ _ _ _ (process_vouts-Sim k i t t.vout) (λ _. process_txs-Sim k (i + 1) ts)

  module _ (src : BlockSource V) (src' : BlockSource W) (nodes : NodesAlike R src src')
      (depth : ℤ) where
    rewind-Sim :
        (from start : ℤ)
        → Sim R (rewind crypto a src depth from start) (rewind crypto b src' depth from start)
    unfolding rewind
    rewind-Sim from start =
        let target = if ltz (from -ℤ depth) start then start else from -ℤ depth in
        let anchor = target -ℤ pos 1 in
        Sim-bind _ _ _ _ (st.delete_from_height target) λ _.
          Sim-if (lez target start) (Sim-pure (start, [])) (
            Sim-bind _ _ _ _ (nodes.hash_at anchor)
              λ hash. Sim-bind _ _ _ _ (st.save_cursor anchor hash) (λ _. Sim-pure (target, hash)))

    resume-Sim :
        (start : ℤ) → Sim R (resume crypto a src depth start) (resume crypto b src' depth start)
    unfolding resume
    resume-Sim start = Sim-bind _ _ _ _ st.load_cursor λ (h, hash, found).
        Sim-if (not found) (Sim-pure (start, [])) (
          Sim-bind _ _ _ _ (nodes.hash_at h) λ onchain.
            Sim-if (bytes_beq onchain hash) (Sim-pure (h +ℤ pos 1, hash)) (rewind-Sim h start))

    run_loop-Sim :
        (fuel : ℕ) (start next : ℤ) (prev : Bytes)
        → Sim R
            (run_loop crypto a src depth fuel start next prev)
            (run_loop crypto b src' depth fuel start next prev)
    unfolding run_loop process_block
    run_loop-Sim zero start next prev = Sim-fail _
    run_loop-Sim (suc fuel) start next prev = Sim-bind _ _ _ _ nodes.ctx_err λ _.
        Sim-bind _ _ _ _ nodes.count λ tip. Sim-if (ltz tip next) (Sim-pure tt) (
          Sim-bind _ _ _ _ (nodes.hash_at next) λ hash.
            Sim-bind _ _ _ _ (nodes.block_at hash) λ block.
              Sim-if (not (bytes_beq prev []) && not (bytes_beq block.previous_block_hash prev))
                (Sim-bind _ _ _ _ (rewind-Sim (next -ℤ pos 1) start)
                  λ (next', prev'). run_loop-Sim fuel start next' prev')
                (Sim-bind _ _ _ _ (process_txs-Sim block 0 block.tx) λ _.
                  Sim-bind _ _ _ _ (st.save_cursor next hash)
                    λ _. run_loop-Sim fuel start (next +ℤ pos 1) hash))

    -- Runs from related worlds give one result and related worlds.
    pub run-Sim :
        (fuel : ℕ) (start : ℤ)
        → Sim R (run crypto a src depth fuel start) (run crypto b src' depth fuel start)
    unfolding run
    run-Sim fuel start =
        Sim-bind _ _ _ _ (resume-Sim start) λ (next, prev). run_loop-Sim fuel start next prev
