-- ===== src/Tests/Codec.antt =====
-- The codec at concrete inputs.
use coinnews_indexer.Prelude.{ℕ, ◌≡◌, none, refl, [], ◌∷◌, arith, ◌↔◌}
use coinnews_indexer.Codec.Types.{
  Bytes, AllBytes, Message, ok, err, story, topic_creation, not_coin_news, unknown_type_tag,
}
use coinnews_indexer.Codec.Varint.{read_compact_size}
use coinnews_indexer.Codec.Tlv.{decode_tlvs, find_first, find_all}
use coinnews_indexer.Codec.Encode.{encode_message}
use coinnews_indexer.Codec.Message.{decode_message, decode_topic_creation}
use coinnews_indexer.Codec.Message.Shape.{IsWellFormed}
use coinnews_indexer.Codec.Message.RoundTrip.{decode_message-encode_message}
use coinnews_indexer.Codec.Message.Accepts.{
  HasMagic, decode-canonical, Unknown, decode-not_coin_news, decode-unknown_type_tag,
}
use coinnews_indexer.Tests.Data.{fill, fill-IsArray, a_tlv, a_story}

a_story-IsWellFormed : IsWellFormed (story a_story)
a_story-IsWellFormed =
    (fill-IsArray 4 7 (omega arith), ground arith, omega arith, (omega arith, tt))

decode_message-encode_message_example :
    decode_message (encode_message (story a_story)) ≡ ok (story a_story)
decode_message-encode_message_example =
    decode_message-encode_message (story a_story) a_story-IsWellFormed

-- A topic creation on the wire: the magic, the tag, the topic, 7 days and a name of one byte.
abbrev wire : Bytes
wire = 0x43 ∷ 0x4E ∷ 1 ∷ 7 ∷ 7 ∷ 7 ∷ 7 ∷ 7 ∷ 1 ∷ b't' ∷ []

abbrev on_wire : Message
on_wire = topic_creation (record { topic = fill 4 7; retention_days = 7; name = b't' ∷ [] })

wire_bytes : AllBytes wire
wire_bytes = ground arith

wire_decodes : decode_message wire ≡ ok on_wire
unfolding decode_message decode_topic_creation read_compact_size
wire_decodes = refl

decode-canonical_example : (encode_message on_wire ≡ wire) × IsWellFormed on_wire
decode-canonical_example = decode-canonical wire on_wire wire_bytes wire_decodes

decode-not_coin_news_example : (decode_message wire ≡ err not_coin_news) ↔ (¬ HasMagic wire)
decode-not_coin_news_example = decode-not_coin_news wire wire_bytes

abbrev strange : Bytes
strange = 0x43 ∷ 0x4E ∷ 9 ∷ []

strange_bytes : AllBytes strange
strange_bytes = ground arith

strange_refused : decode_message strange ≡ err unknown_type_tag
unfolding decode_message
strange_refused = refl

abbrev tlv_wire : Bytes
tlv_wire = 1 ∷ 1 ∷ b'u' ∷ []

tlv_wire_bytes : AllBytes tlv_wire
tlv_wire_bytes = ground arith

tlv_wire_decodes : decode_tlvs tlv_wire ≡ ok (a_tlv ∷ [])
unfolding decode_tlvs read_compact_size
tlv_wire_decodes = refl

abbrev size_wire : Bytes
size_wire = 253 ∷ 44 ∷ 1 ∷ 5 ∷ []

size_wire_bytes : AllBytes size_wire
size_wire_bytes = ground arith

size_reads : read_compact_size size_wire ≡ ok (300, 3)
unfolding read_compact_size
size_reads = refl

-- Runs.
find_first_run : find_first (a_tlv ∷ []) 2 ≡ none
unfolding find_first
find_first_run = refl

find_all_run : find_all (a_tlv ∷ a_tlv ∷ []) 1 ≡ (b'u' ∷ []) ∷ (b'u' ∷ []) ∷ []
unfolding find_all
find_all_run = refl

decode-unknown_type_tag_example :
    (decode_message strange ≡ err unknown_type_tag)
    ↔ ((tag : ℕ) × (rest : Bytes) × (strange ≡ 0x43 ∷ 0x4E ∷ tag ∷ rest) × Unknown tag)
decode-unknown_type_tag_example = decode-unknown_type_tag strange strange_bytes
