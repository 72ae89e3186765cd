-- ===== src/Codec/Message.antt =====
-- codec/message.go: the decoder of payloads.
pub mod Shape
pub mod RoundTrip
pub mod Accepts
use coinnews_indexer.Prelude.{
  ℕ, ◌+◌, ◌||◌, ◌&&◌, not, List, [], ◌∷◌, ltb, ◌==◌, if◌then◌else◌, length, take, drop, get_or,
}
use coinnews_indexer.Codec.Types.{
  Bytes, Result, ok, err, ◌>>=◌, not_coin_news, unknown_type_tag, malformed, magic_0, magic_1,
  type_topic_creation, type_story, type_comment, type_upvote, type_downvote, type_continuation,
  topic_len, item_id_len, xonly_pub_key_len, schnorr_sig_len, continuation_chunk, headline_max_len,
  TopicCreation, Story, Comment, Vote, Continuation, Message, topic_creation, story, comment, vote,
  continuation,
}
use coinnews_indexer.Codec.Varint.{read_compact_size}
use coinnews_indexer.Codec.Tlv.{decode_tlvs}

unfoldable pub decode_topic_creation : Bytes → Result Message
decode_topic_creation b = if ltb (length b) (topic_len + 1) then err malformed else do
  let b1 = drop topic_len b
  let b2 = drop 1 b1
  (name_len, used) ← read_compact_size b2
  let b3 = drop used b2
  if length b3 == name_len
      then ok (
          topic_creation
            (record { topic = take topic_len b; retention_days = get_or b1 0 0; name = b3 }))
      else err malformed

pub decode_story : Bytes → Result Message
decode_story b = if ltb (length b) topic_len then err malformed else do
  let b1 = drop topic_len b
  (h_len, used) ← read_compact_size b1
  let b2 = drop used b1
  if ltb headline_max_len h_len || ltb (length b2) h_len then err malformed else do
    tlvs ← decode_tlvs (drop h_len b2)
    ok (story (record { topic = take topic_len b; headline = take h_len b2; tlvs = tlvs }))

abbrev fixed : ℕ
fixed = item_id_len + xonly_pub_key_len + schnorr_sig_len

pub decode_comment : Bytes → Result Message
decode_comment b = if ltb (length b) fixed then err malformed else do
  let b1 = drop item_id_len b
  let b2 = drop xonly_pub_key_len b1
  let b3 = drop schnorr_sig_len b2
  tlvs ← decode_tlvs b3
  ok (
      comment (record {
        parent_id = take item_id_len b;
        author_xpk = take xonly_pub_key_len b1;
        sig = take schnorr_sig_len b2;
        tlv_blob = b3;
        tlvs = tlvs;
      }))

pub decode_vote : ℕ → Bytes → Result Message
decode_vote tag b =
    if not (length b == fixed)
    then err malformed
    else let b1 = drop item_id_len b in
      let b2 = drop xonly_pub_key_len b1 in
      ok (
        vote (record {
          kind = tag;
          target_id = take item_id_len b;
          author_xpk = take xonly_pub_key_len b1;
          sig = take schnorr_sig_len b2;
        }))

pub decode_continuation : Bytes → Result Message
decode_continuation b =
    if ltb (length b) (item_id_len + 1)
    then err malformed
    else let b1 = drop item_id_len b in
      let b2 = drop 1 b1 in
      if ltb (length b2) 1 || ltb continuation_chunk (length b2)
      then err malformed
      else ok
          (continuation (record { head_id = take item_id_len b; seq = get_or b1 0 0; chunk = b2 }))

pub decode_body : ℕ → Bytes → Result Message
decode_body tag body =
    if tag == type_topic_creation
    then decode_topic_creation body
    else if tag == type_story
    then decode_story body
    else if tag == type_comment
    then decode_comment body
    else if (tag == type_upvote) || (tag == type_downvote)
    then decode_vote tag body
    else if tag == type_continuation
    then decode_continuation body
    else err unknown_type_tag

-- The patterns are the test `len(data) < MagicLen+TypeTagLen`.
unfoldable pub decode_message : Bytes → Result Message
unfolding decode_body
decode_message (m0 ∷ m1 ∷ tag ∷ body) =
    if not (m0 == magic_0) || not (m1 == magic_1) then err not_coin_news else decode_body tag body
decode_message _ = err not_coin_news
