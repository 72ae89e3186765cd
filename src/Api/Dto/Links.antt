-- ===== src/Api/Dto/Links.antt =====
-- api/dto.go against the request parsing of api/api.go and codec/itemid.go.
use coinnews_indexer.Prelude.{◌≡◌, ◌≢◌, bytes_beq, bytes_beq_iff, Bool-cases, inl, inr}
use coinnews_indexer.Codec.Types.{Bytes, IsArray, ok}
use coinnews_indexer.Codec.ItemId.{parse_item_id, parse-id_string}
use coinnews_indexer.Store.Types.{FeedItem}
use coinnews_indexer.Store.Memory.Reads.{zero_key}
use coinnews_indexer.Api.{parsed}
use coinnews_indexer.Api.Request.{parse_topic, parse_x_only}
use coinnews_indexer.Api.Request.Parsing.{
  parse_topic-encode_to_string, parse_x_only-encode_to_string,
}
use coinnews_indexer.Api.Dto.{to_item, author_hex}

pub author_hex-parse :
    (x : Bytes) → IsArray 32 x → x ≢ zero_key → parse_x_only (author_hex x) ≡ parsed x
unfolding author_hex
author_hex-parse x h other = elim (Bool-cases (bytes_beq x zero_key)) [
  | inl e ↦ absurd (other ((bytes_beq_iff x zero_key).0 e))
  | inr e ↦ rw e (parse_x_only-encode_to_string x h)
]

-- The hex texts of an item in an answer are read back by the endpoints that take them: the item's
-- id, its topic and its author, for an id, a topic and an author of their lengths and an author
-- that is not the zero key.
pub to_item-links :
    {F : Type 0} (f : FeedItem F)
    → IsArray 12 f.item.id
    → IsArray 4 f.topic
    → IsArray 32 f.author_xpk
    → f.author_xpk ≢ zero_key
    → (parse_item_id (to_item f).item_id ≡ ok f.item.id)
      × (parse_topic (to_item f).topic ≡ parsed f.topic)
      × (parse_x_only (to_item f).author_xpk ≡ parsed f.author_xpk)
unfolding to_item
to_item-links f i t a other = (
  parse-id_string f.item.id i,
  parse_topic-encode_to_string f.topic t,
  author_hex-parse f.author_xpk a other,
)
