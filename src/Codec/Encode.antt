-- ===== src/Codec/Encode.antt =====
-- codec/encode.go: the encoders of the messages.
use coinnews_indexer.Prelude.{ℕ, [], ◌∷◌, ◌++◌, length}
use coinnews_indexer.Codec.Types.{
  Bytes, magic_0, magic_1, type_topic_creation, type_story, type_comment, type_continuation,
  TopicCreation, Story, Comment, Vote, Continuation, Message, topic_creation, story, comment, vote,
  continuation,
}
use coinnews_indexer.Codec.Varint.{put_compact_size}
use coinnews_indexer.Codec.Tlv.{encode_tlvs}

header : ℕ → Bytes
header tag = magic_0 ∷ magic_1 ∷ tag ∷ []

encode_topic_creation : TopicCreation → Bytes
encode_topic_creation m =
    put_compact_size ((header type_topic_creation ++ m.topic) ++ (m.retention_days ∷ []))
      (length m.name)
    ++ m.name

encode_story : Story → Bytes
encode_story m =
    (put_compact_size (header type_story ++ m.topic) (length m.headline) ++ m.headline)
    ++ encode_tlvs m.tlvs

encode_comment : Comment → Bytes
encode_comment m =
    (((header type_comment ++ m.parent_id) ++ m.author_xpk) ++ m.sig) ++ encode_tlvs m.tlvs

encode_vote : Vote → Bytes
encode_vote m = ((header m.kind ++ m.target_id) ++ m.author_xpk) ++ m.sig

encode_continuation : Continuation → Bytes
encode_continuation m = ((header type_continuation ++ m.head_id) ++ (m.seq ∷ [])) ++ m.chunk

-- The encoder of each kind of message. (The program calls them one by one.)
unfoldable pub encode_message : Message → Bytes
unfolding header encode_topic_creation encode_story encode_comment encode_vote encode_continuation
encode_message (topic_creation m) = encode_topic_creation m
encode_message (story m) = encode_story m
encode_message (comment m) = encode_comment m
encode_message (vote m) = encode_vote m
encode_message (continuation m) = encode_continuation m
