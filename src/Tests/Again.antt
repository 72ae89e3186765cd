-- ===== src/Tests/Again.antt =====
-- A block of two transactions, each with a message, that is processed again.
use coinnews_indexer.Prelude.{ℕ, ◌≡◌, refl, [], ◌∷◌, none, some, true, arith, bytes_beq, bytes_eq}
use coinnews_indexer.Prelude.Int.{pos}
use coinnews_indexer.Codec.Types.{type_tag, ok, Message, Comment, comment, story}
use coinnews_indexer.Codec.Crypto.{Crypto}
use coinnews_indexer.Codec.Hex.{encode_to_string, decode_string, from_hex_char, hex_digit}
use coinnews_indexer.Codec.ItemId.{item_id_from_rpc, compute_item_id}
use coinnews_indexer.Codec.Encode.{encode_message}
use coinnews_indexer.Codec.Message.{decode_message}
use coinnews_indexer.Codec.Tlv.{encode_tlvs}
use coinnews_indexer.Codec.Varint.{put_compact_size}
use coinnews_indexer.Codec.Message.RoundTrip.{decode_message-encode_message}
use coinnews_indexer.Codec.Sign.{verify_comment, verify_schnorr}
use coinnews_indexer.GoMap.{get}
use coinnews_indexer.Store.Types.{Item}
use coinnews_indexer.Store.Memory.{new_memory, item_by_id}
use coinnews_indexer.Store.Memory.Backend.{memory_store}
use coinnews_indexer.Store.Memory.Grows.{HasComment}
use coinnews_indexer.Rpc.{Block, Tx}
use coinnews_indexer.Scanner.{nulldata, base_item, process_block}
use coinnews_indexer.Scanner.Script.{op_return_payload}
use coinnews_indexer.Scanner.Script.Pushes.{push, op_return_payload-push}
use coinnews_indexer.Scanner.Again.Blocks.{
  steps, InOrder, messages, of_txs, of_vouts, of_payload, decoded, process_block_again,
}
use coinnews_indexer.Scanner.Again.Late.{after, late_comment}
use coinnews_indexer.Tests.Data.{fill, fill-IsArray, a_story, mirror_crypto}

-- Every signature verifies.
abbrev trusting : Crypto
trusting = record mirror_crypto { verify = λ sig digest key. true }

abbrev reply : Comment
reply = record {
  parent_id = fill 12 1;
  author_xpk = fill 32 2;
  sig = fill 64 3;
  tlv_blob = [];
  tlvs = [];
}

abbrev tx_with : ℕ → Message → Tx
tx_with i msg = record {
  txid = encode_to_string (fill 32 i);
  vout =
      record {
        n = 0;
        script_pub_key = record {
          hex = encode_to_string (0x6a ∷ push (encode_message msg));
          kind = nulldata;
          asm = [];
        };
      }
      ∷ [];
}

abbrev block_with : Tx → Tx → Block
block_with s t = record {
  hash = 1 ∷ [];
  height = pos 5;
  time = pos 1700;
  previous_block_hash = [];
  tx = s ∷ t ∷ [];
}

abbrev item_in : ℕ → ℕ → ℕ → Item
item_in i k tag = record {
  id = fill 12 i;
  txid = encode_to_string (fill 32 i);
  vout = 0;
  height = pos 5;
  tx_index = k;
  vout_index = 0;
  type_tag = tag;
  block_time = pos 1700;
}

story_pushed :
    op_return_payload (encode_to_string (0x6a ∷ push (encode_message (story a_story))))
    ≡ some (encode_message (story a_story))
unfolding encode_message encode_tlvs put_compact_size
story_pushed =
    op_return_payload-push (encode_message (story a_story)) (ground arith) (omega arith)
      (omega arith)

comment_pushed :
    op_return_payload (encode_to_string (0x6a ∷ push (encode_message (comment reply))))
    ≡ some (encode_message (comment reply))
unfolding encode_message encode_tlvs
comment_pushed =
    op_return_payload-push (encode_message (comment reply)) (ground arith) (omega arith)
      (omega arith)

story_read : decode_message (encode_message (story a_story)) ≡ ok (story a_story)
story_read =
    decode_message-encode_message (story a_story)
      (fill-IsArray 4 7 (omega arith), ground arith, omega arith, (omega arith, tt))

comment_read : decode_message (encode_message (comment reply)) ≡ ok (comment reply)
unfolding encode_tlvs
comment_read = decode_message-encode_message (comment reply) (
  fill-IsArray 12 1 (omega arith),
  fill-IsArray 32 2 (omega arith),
  fill-IsArray 64 3 (omega arith),
  refl,
  tt,
)

story_id : item_id_from_rpc trusting (encode_to_string (fill 32 1)) 0 ≡ ok (fill 12 1)
unfolding item_id_from_rpc compute_item_id encode_to_string decode_string from_hex_char hex_digit
story_id = refl

comment_id : item_id_from_rpc trusting (encode_to_string (fill 32 2)) 0 ≡ ok (fill 12 2)
unfolding item_id_from_rpc compute_item_id encode_to_string decode_string from_hex_char hex_digit
comment_id = refl

replied_first :
    messages trusting (block_with (tx_with 2 (comment reply)) (tx_with 1 (story a_story)))
    ≡ (item_in 2 0 3, comment reply) ∷ (item_in 1 1 2, story a_story) ∷ []
unfolding type_tag messages of_txs of_vouts of_payload decoded base_item bytes_beq
replied_first =
    rw (comment_pushed, comment_read, comment_id, story_pushed, story_read, story_id) refl

replied_last :
    messages trusting (block_with (tx_with 1 (story a_story)) (tx_with 2 (comment reply)))
    ≡ (item_in 1 0 2, story a_story) ∷ (item_in 2 1 3, comment reply) ∷ []
unfolding type_tag messages of_txs of_vouts of_payload decoded base_item bytes_beq
replied_last =
    rw (comment_pushed, comment_read, comment_id, story_pushed, story_read, story_id) refl

signed : verify_comment trusting reply ≡ true
unfolding verify_comment verify_schnorr
signed = refl

head_absent : item_by_id (fill 12 1) new_memory ≡ none
unfolding item_by_id get
head_absent = refl

reply_absent : get new_memory.comments (fill 12 2) ≡ none
unfolding get
reply_absent = refl

late_comment_example :
    (get
        (after trusting tt
          (block_with (tx_with 2 (comment reply)) (tx_with 1 (story a_story)))
          new_memory).comments
        (fill 12 2)
      ≡ none)
    × HasComment (fill 12 2) (
        after trusting tt (block_with (tx_with 2 (comment reply)) (tx_with 1 (story a_story))) (
          after trusting tt
            (block_with (tx_with 2 (comment reply)) (tx_with 1 (story a_story)))
            new_memory))
late_comment_example =
    late_comment trusting tt (block_with (tx_with 2 (comment reply)) (tx_with 1 (story a_story)))
      (item_in 2 0 3) (item_in 1 1 2) reply a_story new_memory replied_first signed refl head_absent
      reply_absent

-- The run is cut off after the story, before the reply.
in_order : InOrder trusting ((item_in 1 0 2, story a_story) ∷ []) new_memory
unfolding InOrder
in_order = (λ w. w, tt)

process_block_again_example :
    process_block trusting
      (memory_store (Unit {0}))
      (block_with (tx_with 1 (story a_story)) (tx_with 2 (comment reply)))
      (tt, steps trusting ((item_in 1 0 2, story a_story) ∷ []) new_memory)
    ≡ process_block trusting
        (memory_store (Unit {0}))
        (block_with (tx_with 1 (story a_story)) (tx_with 2 (comment reply)))
        (tt, new_memory)
process_block_again_example =
    process_block_again trusting tt
      (block_with (tx_with 1 (story a_story)) (tx_with 2 (comment reply)))
      ((item_in 1 0 2, story a_story) ∷ []) ((item_in 2 1 3, comment reply) ∷ []) new_memory
      replied_last in_order
