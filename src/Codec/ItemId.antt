-- ===== src/Codec/ItemId.antt =====
-- codec/itemid.go: item ids from outpoints, and their hex text.
use coinnews_indexer.Prelude.{
  ℕ, ◌≡◌, ◌++◌, ◌==◌, if◌then◌else◌, length, take, Option, none, some, arith,
}
use mathlib.Core.List.{reverse}
use coinnews_indexer.Codec.Types.{Bytes, IsArray, Result, ok, err, bad_item_id, item_id_len}
use coinnews_indexer.Codec.Crypto.{Crypto}
use coinnews_indexer.Codec.Varint.{put_uint32}
use coinnews_indexer.Codec.Hex.{encode_to_string, decode_string, decode_string-encode_to_string}

module _ (c : Crypto) where
  -- sha256(txid || vout)[0:12]
  unfoldable pub compute_item_id : Bytes → ℕ → Bytes
  compute_item_id txid_internal vout =
      take item_id_len (c.sha256 (txid_internal ++ put_uint32 vout))

  -- The result of hex.DecodeString, its length checked.
  item_id_of_raw : Option Bytes → ℕ → Result Bytes
  item_id_of_raw none vout = err bad_item_id
  item_id_of_raw (some raw) vout =
      if length raw == 32 then ok (compute_item_id (reverse raw) vout) else err bad_item_id

  unfoldable pub item_id_from_rpc : Bytes → ℕ → Result Bytes
  unfolding item_id_of_raw
  item_id_from_rpc txid_hex vout = item_id_of_raw (decode_string txid_hex) vout

-- The method `String` of ItemID.
pub id_string : Bytes → Bytes
id_string id = encode_to_string id

checked_id : Option Bytes → Result Bytes
checked_id none = err bad_item_id
checked_id (some b) = if length b == item_id_len then ok b else err bad_item_id

unfoldable pub parse_item_id : Bytes → Result Bytes
unfolding checked_id
parse_item_id s = checked_id (decode_string s)

-- The text of every item id of 12 bytes is read back as that id.
pub parse-id_string : (id : Bytes) → IsArray 12 id → parse_item_id (id_string id) ≡ ok id
unfolding parse_item_id id_string
parse-id_string id h = rw (decode_string-encode_to_string id h.bytes) (ground arith)
