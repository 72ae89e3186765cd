-- ===== src/Codec/Message/RoundTrip.antt =====
-- codec/encode.go and codec/message.go: the encoders against the decoder.
use coinnews_indexer.Prelude.{
  ℕ, ◌+◌, ◌≡◌, refl, sym, ap, ◌∙◌, [], ◌∷◌, ◌++◌, arith, length, drop, take, append-nil,
  append_assoc, length-append, ltb, false, take-append_length, drop-append_length, inl, inr, ◌⊎◌,
  take_all,
}
use coinnews_indexer.Codec.Types.{
  Bytes, IsArray, ok, TopicCreation, Story, Comment, Vote, Continuation, Message, topic_creation,
  story, comment, vote, continuation,
}
use coinnews_indexer.Codec.Varint.{put_compact_size}
use coinnews_indexer.Codec.Varint.RoundTrip.{read-put, put-append}
use coinnews_indexer.Codec.Tlv.{encode_tlvs}
use coinnews_indexer.Codec.Tlv.RoundTrip as Tlv
use coinnews_indexer.Codec.Encode.{encode_message}
use coinnews_indexer.Codec.Message.{
  decode_topic_creation, decode_story, decode_comment, decode_vote, decode_continuation,
  decode_body, decode_message,
}
use coinnews_indexer.Codec.Message.Shape.{IsWellFormed}

-- The fields of each message in the order of the wire.
unfoldable pub body : Message → Bytes
body (topic_creation m) =
    m.topic ++ (m.retention_days ∷ (put_compact_size [] (length m.name) ++ m.name))
body (story m) =
    m.topic ++ (put_compact_size [] (length m.headline) ++ (m.headline ++ encode_tlvs m.tlvs))
body (comment m) = m.parent_id ++ (m.author_xpk ++ (m.sig ++ encode_tlvs m.tlvs))
body (vote m) = m.target_id ++ (m.author_xpk ++ m.sig)
body (continuation m) = m.head_id ++ (m.seq ∷ m.chunk)

unfoldable pub tag_of : Message → ℕ
tag_of (topic_creation m) = 1
tag_of (story m) = 2
tag_of (comment m) = 3
tag_of (vote m) = m.kind
tag_of (continuation m) = 6

pub encode-body : (m : Message) → encode_message m ≡ 0x43 ∷ 0x4E ∷ tag_of m ∷ body m
unfolding encode_message body tag_of
encode-body (topic_creation m) = rw put-append (simp append_assoc)
encode-body (story m) = rw put-append (simp append_assoc)
encode-body (comment m) = simp append_assoc
encode-body (vote m) = simp append_assoc
encode-body (continuation m) = simp append_assoc

topic_creation-reads :
    (m : TopicCreation)
    → IsWellFormed (topic_creation m)
    → decode_topic_creation (body (topic_creation m)) ≡ ok (topic_creation m)
unfolding body decode_topic_creation
topic_creation-reads m (ht, hr, hn, small) =
    let tail : Bytes = m.retention_days ∷ (put_compact_size [] (length m.name) ++ m.name) in
    rw
      (
        drop-append_length 4 m.topic tail ht.size,
        take-append_length 4 m.topic tail ht.size,
        read-put (length m.name) m.name small,
      )
      (rw
        (drop-append_length (length (put_compact_size [] (length m.name)))
          (put_compact_size [] (length m.name)) m.name refl)
        (ground (arith, length-append m.topic tail, ht.size)))

story-reads : (m : Story) → IsWellFormed (story m) → decode_story (body (story m)) ≡ ok (story m)
unfolding body decode_story
story-reads m (ht, hh, small, hf) =
    let tail : Bytes = m.headline ++ encode_tlvs m.tlvs in
    let size : Bytes = put_compact_size [] (length m.headline) in
    rw
      (
        drop-append_length 4 m.topic (size ++ tail) ht.size,
        take-append_length 4 m.topic (size ++ tail) ht.size,
        read-put (length m.headline) tail (omega arith),
      )
      (rw (drop-append_length (length size) size tail refl) (
        rw
          (
            drop-append_length (length m.headline) m.headline (encode_tlvs m.tlvs) refl,
            take-append_length (length m.headline) m.headline (encode_tlvs m.tlvs) refl,
            Tlv.decode_tlvs-encode_tlvs m.tlvs hf,
          )
          (ground (
            arith,
            length-append m.topic (size ++ tail),
            length-append m.headline (encode_tlvs m.tlvs),
            ht.size,
          ))))

-- The three fixed fields of a signed message, and what follows them.
module _ (p a s rest : Bytes) (hp : IsArray 12 p) (ha : IsArray 32 a) (hs : IsArray 64 s) where
  signed_slices :
      (take 12 (p ++ (a ++ (s ++ rest))) ≡ p)
      × (drop 12 (p ++ (a ++ (s ++ rest))) ≡ a ++ (s ++ rest))
      × (take 32 (a ++ (s ++ rest)) ≡ a)
      × (drop 32 (a ++ (s ++ rest)) ≡ s ++ rest)
      × (take 64 (s ++ rest) ≡ s)
      × (drop 64 (s ++ rest) ≡ rest)
      × (length (p ++ (a ++ (s ++ rest))) ≡ 108 + length rest)
  signed_slices = (
    take-append_length 12 p _ hp.size,
    drop-append_length 12 p _ hp.size,
    take-append_length 32 a _ ha.size,
    drop-append_length 32 a _ ha.size,
    take-append_length 64 s _ hs.size,
    drop-append_length 64 s _ hs.size,
    omega (
      arith,
      length-append p (a ++ (s ++ rest)),
      length-append a (s ++ rest),
      length-append s rest,
      hp.size,
      ha.size,
      hs.size,
    ),
  )

not_short : (n : ℕ) → ltb (108 + n) 108 ≡ false
not_short n = ground arith

comment-reads :
    (m : Comment) → IsWellFormed (comment m) → decode_comment (body (comment m)) ≡ ok (comment m)
unfolding body decode_comment
comment-reads m (hp, ha, hs, blob, hf) =
    let (e1, e2, e3, e4, e5, e6, size) =
      signed_slices m.parent_id m.author_xpk m.sig (encode_tlvs m.tlvs) hp ha hs in
    rw (e1, e2)
      (rw (e3, e4)
        (rw (e5, e6)
          (rw (Tlv.decode_tlvs-encode_tlvs m.tlvs hf, size, not_short (length (encode_tlvs m.tlvs)))
            (ap (λ b. ok (comment (record m { tlv_blob = b }))) (sym blob)))))

vote-reads : (m : Vote) → IsWellFormed (vote m) → decode_vote m.kind (body (vote m)) ≡ ok (vote m)
unfolding body decode_vote
vote-reads m (hp, ha, hs, kind) =
    let (e1, e2, e3, e4, e5, e6, size) =
      rw append-nil at (signed_slices m.target_id m.author_xpk m.sig [] hp ha hs) in
    rw (e1, e2)
      (rw (e3, e4) (rw (take_all 64 m.sig (omega (arith, hs.size))) (ground (arith, size))))

continuation-reads :
    (m : Continuation)
    → IsWellFormed (continuation m)
    → decode_continuation (body (continuation m)) ≡ ok (continuation m)
unfolding body decode_continuation
continuation-reads m (hp, hq, lo, hi) =
    rw
      (
        drop-append_length 12 m.head_id (m.seq ∷ m.chunk) hp.size,
        take-append_length 12 m.head_id (m.seq ∷ m.chunk) hp.size,
      )
      (ground (arith, length-append m.head_id (m.seq ∷ m.chunk), hp.size))

pub vote_tag :
    (kind : ℕ) (b : Bytes) → (kind ≡ 4) ⊎ (kind ≡ 5) → decode_body kind b ≡ decode_vote kind b
unfolding decode_body
vote_tag kind b (inl k) = rw k
vote_tag kind b (inr k) = rw k

-- What the encoder writes of a well-formed message is decoded to that message. Well formed: arrays
-- have their length, bytes are below 256, a headline has at most 252 bytes, values and names fewer
-- than 2^32, a chunk 1 to 63, a vote's kind is upvote or downvote, and a comment's blob is the
-- encoding of its tuples.
pub decode_message-encode_message :
    (m : Message) → IsWellFormed m → decode_message (encode_message m) ≡ ok m
unfolding decode_message tag_of
decode_message-encode_message (topic_creation m) h = rw encode-body (topic_creation-reads m h)
decode_message-encode_message (story m) h = rw encode-body (story-reads m h)
decode_message-encode_message (comment m) h = rw encode-body (comment-reads m h)
decode_message-encode_message (vote m) h =
    rw encode-body (vote_tag m.kind (body (vote m)) h.3 ∙ vote-reads m h)
decode_message-encode_message (continuation m) h = rw encode-body (continuation-reads m h)
