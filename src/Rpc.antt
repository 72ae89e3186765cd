-- ===== src/Rpc.antt =====
-- rpc/client.go: the blocks that the node returns. The JSON-RPC calls themselves are the node's
-- interface `BlockSource` in Scanner.
pub mod Client
use coinnews_indexer.Prelude.{ℕ, List}
use coinnews_indexer.Prelude.Int.{ℤ}
use coinnews_indexer.Codec.Types.{Bytes}

pub record ScriptPubKey : Type 0 where
  pub hex : Bytes
  pub kind : Bytes
  pub asm : Bytes

pub record Vout : Type 0 where
  pub n : ℕ
  pub script_pub_key : ScriptPubKey

pub record Tx : Type 0 where
  pub txid : Bytes
  pub vout : List Vout

pub record Block : Type 0 where
  pub hash : Bytes
  pub height : ℤ
  pub time : ℤ
  pub previous_block_hash : Bytes
  pub tx : List Tx
