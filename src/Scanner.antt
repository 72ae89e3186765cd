-- ===== src/Scanner.antt =====
-- scanner/scanner.go: the walk over the blocks. Logging is left out.
pub mod Script
pub mod Convert
pub mod Keeps
pub mod Again
pub mod Returns
pub mod CatchUp
pub mod Simulate
pub mod Backends
use coinnews_indexer.Prelude.{
  ℕ, zero, suc, ◌+◌, ◌&&◌, not, List, [], ◌∷◌, Option, none, some, Bool, true, false, if◌then◌else◌,
  bytes_beq,
}
use coinnews_indexer.Prelude.Int.{ℤ, pos, pos_part, neg_part, ltz, lez, ◌+ℤ◌, ◌-ℤ◌}
use coinnews_indexer.Codec.Types.{
  Bytes, Result, ok, err, out_of_fuel, Message, topic_creation, story, comment, vote, continuation,
  type_tag,
}
use coinnews_indexer.Codec.Crypto.{Crypto}
use coinnews_indexer.Codec.Sign.{verify_comment, verify_vote}
use coinnews_indexer.Codec.ItemId.{item_id_from_rpc}
use coinnews_indexer.Codec.Message.{decode_message}
use coinnews_indexer.Store.Types.{Item}
use coinnews_indexer.Store.Interface.{Store, Io, continue, ◌>>=◌, ◌>>◌, pure, fail}
use coinnews_indexer.Rpc.{Vout, Tx, Block}
use Script.{op_return_payload}
use Convert.{topic_from_msg, story_from_msg, comment_from_msg, vote_from_msg, continuation_from_msg}

-- The node (`BlockSource`) and the context: `ctx_err` is `ctx.Err()`.
pub record BlockSource (W : Type 0) : Type 0 where
  pub ctx_err : Io W (Unit {0})
  pub get_block_count : Io W ℤ
  pub get_block_hash : ℤ → Io W Bytes
  pub get_block : Bytes → Io W Block

-- A node with a state of its own, beside a store in `S`.
abbrev pub beside : {N S A : Type 0} → Io N A → Io (N × S) A
beside f w = let r = f w.0 in (r.0, (r.1, w.1))

abbrev pub with_node : {N S : Type 0} → BlockSource N → BlockSource (N × S)
with_node node = record {
  ctx_err = beside node.ctx_err;
  get_block_count = beside node.get_block_count;
  get_block_hash = λ height. beside (node.get_block_hash height);
  get_block = λ hash. beside (node.get_block hash);
}

abbrev pub default_reorg_depth : ℤ
default_reorg_depth = pos 6

-- "nulldata"
abbrev pub nulldata : Bytes
nulldata = b'n' ∷ b'u' ∷ b'l' ∷ b'l' ∷ b'd' ∷ b'a' ∷ b't' ∷ b'a' ∷ []

abbrev pub is_some : {A : Type 0} → Option A → Bool
is_some none = false
is_some (some a) = true

module _ {W : Type 0} (crypto : Crypto) (st : Store W) where
  pub exists : Bytes → Io W Bool
  exists id = do found ← st.item_by_id id; pure (is_some found)

  unfoldable pub persist : Item → Message → Io W (Unit {0})
  unfolding exists
  persist base (topic_creation m) = do
    st.put_item base
    _ ← st.insert_topic_if_absent (topic_from_msg base m)
    pure tt
  persist base (story m) = do st.put_item base; st.put_story (story_from_msg base.id m)
  persist base (comment m) = if not (verify_comment crypto m) then pure tt else do
    found ← exists m.parent_id
    if not found then pure tt else do st.put_item base; st.put_comment (comment_from_msg base.id m)
  persist base (vote m) = if not (verify_vote crypto m) then pure tt else do
    found ← exists m.target_id
    if not found then pure tt else do st.put_item base; st.put_vote (vote_from_msg base m)
  persist base (continuation m) = do
    st.put_item base
    st.put_continuation (continuation_from_msg base m)

  -- The item row of an output.
  unfoldable pub base_item : Block → ℕ → Tx → Vout → Bytes → Message → Item
  base_item block tx_index tx vout id msg = record {
    id = id;
    txid = tx.txid;
    vout = vout.n;
    height = block.height;
    tx_index = tx_index;
    vout_index = vout.n;
    type_tag = type_tag msg;
    block_time = block.time;
  }

  process_decoded : Block → ℕ → Tx → Vout → Result Message → Result Bytes → Io W (Unit {0})
  unfolding base_item
  process_decoded block tx_index tx vout (err _) id = pure tt
  process_decoded block tx_index tx vout (ok msg) (err _) = pure tt
  process_decoded block tx_index tx vout (ok msg) (ok id) =
      persist (base_item block tx_index tx vout id msg) msg

  process_payload : Block → ℕ → Tx → Vout → Option Bytes → Io W (Unit {0})
  unfolding process_decoded
  process_payload block tx_index tx vout none = pure tt
  process_payload block tx_index tx vout (some payload) =
      process_decoded block tx_index tx vout (decode_message payload)
        (item_id_from_rpc crypto tx.txid vout.n)

  -- One output: a branch that returns is the loop's `continue`.
  unfoldable pub process_vout : Block → ℕ → Tx → Vout → Io W (Unit {0})
  unfolding process_payload
  process_vout block tx_index tx vout =
      if not (bytes_beq vout.script_pub_key.kind nulldata)
      then pure tt
      else process_payload block tx_index tx vout (op_return_payload vout.script_pub_key.hex)

  unfoldable pub process_vouts : Block → ℕ → Tx → List Vout → Io W (Unit {0})
  process_vouts block tx_index tx [] = pure tt
  process_vouts block tx_index tx (vout ∷ vouts) = do
    process_vout block tx_index tx vout
    process_vouts block tx_index tx vouts

  unfoldable pub process_txs : Block → ℕ → List Tx → Io W (Unit {0})
  process_txs block tx_index [] = pure tt
  process_txs block tx_index (tx ∷ txs) = do
    process_vouts block tx_index tx tx.vout
    process_txs block (tx_index + 1) txs

  unfoldable pub process_block : Block → Io W (Unit {0})
  process_block block = process_txs block 0 block.tx

  module _ (src : BlockSource W) (reorg_depth : ℤ) where
    unfoldable pub rewind : ℤ → ℤ → Io W (ℤ × Bytes)
    rewind from start_height =
        let back = from -ℤ reorg_depth in
        let target = if ltz back start_height then start_height else back in
        do
          st.delete_from_height target
          if lez target start_height then pure (start_height, []) else do
            let anchor = target -ℤ pos 1
            anchor_hash ← src.get_block_hash anchor
            st.save_cursor anchor anchor_hash
            pure (target, anchor_hash)

    unfoldable pub resume : ℤ → Io W (ℤ × Bytes)
    resume start_height = do
      (h, hash, found) ← st.load_cursor
      if not found then pure (start_height, []) else do
        onchain ← src.get_block_hash h
        if bytes_beq onchain hash then pure (h +ℤ pos 1, hash) else rewind h start_height

    -- The `for` loop, on fuel: the chain may grow or reorganise at every call.
    unfoldable pub run_loop : ℕ → ℤ → ℤ → Bytes → Io W (Unit {0})
    run_loop zero start_height next prev_hash = fail out_of_fuel
    run_loop (suc fuel) start_height next prev_hash = do
      src.ctx_err
      tip ← src.get_block_count
      if ltz tip next then pure tt else do
        hash ← src.get_block_hash next
        block ← src.get_block hash
        if not (bytes_beq prev_hash []) && not (bytes_beq block.previous_block_hash prev_hash)
            then (do
              (next', prev') ← rewind (next -ℤ pos 1) start_height
              run_loop fuel start_height next' prev')
            else (do
              process_block block
              st.save_cursor next hash
              run_loop fuel start_height (next +ℤ pos 1) hash)

    unfoldable pub run : ℕ → ℤ → Io W (Unit {0})
    run fuel start_height = do
      (next, prev_hash) ← resume start_height
      run_loop fuel start_height next prev_hash
