-- ===== src/Scanner/Convert.antt =====
-- scanner/scanner.go: the rows that are stored for a decoded message. The model keeps the two
-- packages' types of one name apart by `Wire` and `Row`.
use coinnews_indexer.Prelude.{ℕ, [], ◌∷◌, Option, none, some, Bool, true, false}
use coinnews_indexer.Codec.Types as Wire
use coinnews_indexer.Codec.Types.{
  Bytes, tlv_url, tlv_body, tlv_lang, tlv_nsfw, tlv_subtype, tlv_media_hash, tlv_reply_quote,
}
use coinnews_indexer.Codec.Tlv.{encode_tlvs, find_first}
use coinnews_indexer.Store.Types as Row
use coinnews_indexer.Store.Types.{Item}

-- `if v, ok := FindFirst(...); ok { field = v }`, on a field that was empty before
text_or_empty : Option Bytes → Bytes
text_or_empty none = []
text_or_empty (some v) = v

present : Option Bytes → Bool
present none = false
present (some v) = true

-- `ok && len(v) >= 1`
unfoldable pub subtype_or_zero : Option Bytes → ℕ
subtype_or_zero none = 0
subtype_or_zero (some []) = 0
subtype_or_zero (some (b ∷ v)) = b

unfoldable pub story_from_msg : Bytes → Wire.Story → Row.Story
unfolding text_or_empty present subtype_or_zero
story_from_msg id m = record {
  id = id;
  topic = m.topic;
  headline = m.headline;
  subtype = subtype_or_zero (find_first m.tlvs tlv_subtype);
  url = text_or_empty (find_first m.tlvs tlv_url);
  body = text_or_empty (find_first m.tlvs tlv_body);
  lang = text_or_empty (find_first m.tlvs tlv_lang);
  nsfw = present (find_first m.tlvs tlv_nsfw);
  media_hash = text_or_empty (find_first m.tlvs tlv_media_hash);
  raw_tlv = encode_tlvs m.tlvs;
}

unfoldable pub comment_from_msg : Bytes → Wire.Comment → Row.Comment
unfolding text_or_empty
comment_from_msg id m = record {
  id = id;
  parent_id = m.parent_id;
  author_xpk = m.author_xpk;
  body = text_or_empty (find_first m.tlvs tlv_body);
  url = text_or_empty (find_first m.tlvs tlv_url);
  lang = text_or_empty (find_first m.tlvs tlv_lang);
  reply_quote = text_or_empty (find_first m.tlvs tlv_reply_quote);
  raw_tlv = m.tlv_blob;
}

-- The literals in `persist`.
unfoldable pub topic_from_msg : Item → Wire.TopicCreation → Row.Topic
topic_from_msg base m = record {
  topic = m.topic;
  name = m.name;
  retention_days = m.retention_days;
  created_height = base.height;
  txid = base.txid;
  story_count = 0;
}

unfoldable pub vote_from_msg : Item → Wire.Vote → Row.Vote
vote_from_msg base m = record {
  target_id = m.target_id;
  author_xpk = m.author_xpk;
  kind = m.kind;
  height = base.height;
  tx_index = base.tx_index;
  vout_index = base.vout_index;
  block_time = base.block_time;
}

unfoldable pub continuation_from_msg : Item → Wire.Continuation → Row.Continuation
continuation_from_msg base m = record {
  head_id = m.head_id;
  seq = m.seq;
  chunk = m.chunk;
  height = base.height;
}
