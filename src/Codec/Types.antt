-- ===== src/Codec/Types.antt =====
-- codec/constants.go, the sentinel errors of codec/*.go and the message types of
-- codec/message.go.
use coinnews_indexer.Prelude.{
  ℕ, ◌≡◌, refl, ◌⊎◌, inl, inr, ◌<◌, List, [], ◌∷◌, length, All, Bool, true, false, if◌then◌else◌,
}
use coinnews_indexer.Prelude.{bytes_beq}

abbrev pub Bytes : Type 0
Bytes = List ℕ

abbrev pub IsByte : ℕ → Type 0
IsByte b = b < 256

-- What every Go byte slice is: each element is below 256.
abbrev pub AllBytes : Bytes → Type 0
AllBytes = All IsByte

-- A Go array of `n` bytes.
pub record IsArray (n : ℕ) (b : Bytes) : Type 0 where
  pub bytes : AllBytes b
  pub size : length b ≡ n

-- `Magic`, ASCII "CN"
abbrev pub magic_0 : ℕ
magic_0 = 0x43

abbrev pub magic_1 : ℕ
magic_1 = 0x4E

abbrev pub type_topic_creation : ℕ
type_topic_creation = 0x01

abbrev pub type_story : ℕ
type_story = 0x02

abbrev pub type_comment : ℕ
type_comment = 0x03

abbrev pub type_upvote : ℕ
type_upvote = 0x04

abbrev pub type_downvote : ℕ
type_downvote = 0x05

abbrev pub type_continuation : ℕ
type_continuation = 0x06

abbrev pub topic_len : ℕ
topic_len = 4

abbrev pub item_id_len : ℕ
item_id_len = 12

abbrev pub xonly_pub_key_len : ℕ
xonly_pub_key_len = 32

abbrev pub schnorr_sig_len : ℕ
schnorr_sig_len = 64

abbrev pub continuation_chunk : ℕ
continuation_chunk = 63

abbrev pub headline_max_len : ℕ
headline_max_len = 252

abbrev pub tlv_url : ℕ
tlv_url = 0x01

abbrev pub tlv_body : ℕ
tlv_body = 0x02

abbrev pub tlv_lang : ℕ
tlv_lang = 0x03

abbrev pub tlv_nsfw : ℕ
tlv_nsfw = 0x04

abbrev pub tlv_subtype : ℕ
tlv_subtype = 0x05

abbrev pub tlv_media_hash : ℕ
tlv_media_hash = 0x06

abbrev pub tlv_reply_quote : ℕ
tlv_reply_quote = 0x07

-- The errors of package codec. `out_of_fuel` is no Go error: it marks a loop of the model whose
-- fuel ran out. `external` is an error of the node, of the store or of the context.
pub data Error : Type 0 where
  truncated_tlv : Error
  short_buffer : Error
  non_canonical : Error
  varint_range : Error
  bad_item_id : Error
  not_coin_news : Error
  unknown_type_tag : Error
  malformed : Error
  out_of_fuel : Error
  external : ℕ → Error

-- The errors that parsing the body of a message can give.
abbrev pub IsParseError : Error → Type 0
IsParseError truncated_tlv = Unit
IsParseError short_buffer = Unit
IsParseError non_canonical = Unit
IsParseError varint_range = Unit
IsParseError malformed = Unit
IsParseError _ = ⊥

-- Go's (value, error).
pub data Result {ℓ} (A : Type ℓ) : Type ℓ where
  ok : A → Result A
  err : Error → Result A

infixl 5 ◌>>=◌
abbrev pub ◌>>=◌ {ℓ κ} : {A : Type ℓ} {B : Type κ} → Result A → (A → Result B) → Result B
ok a >>= f = f a
err e >>= f = err e

pub record Tlv : Type 0 where
  pub tag : ℕ
  pub value : Bytes

pub record TopicCreation : Type 0 where
  pub topic : Bytes
  pub retention_days : ℕ
  pub name : Bytes

pub record Story : Type 0 where
  pub topic : Bytes
  pub headline : Bytes
  pub tlvs : List Tlv

pub record Comment : Type 0 where
  pub parent_id : Bytes
  pub author_xpk : Bytes
  pub sig : Bytes
  pub tlv_blob : Bytes
  pub tlvs : List Tlv

pub record Vote : Type 0 where
  pub kind : ℕ
  pub target_id : Bytes
  pub author_xpk : Bytes
  pub sig : Bytes

pub record Continuation : Type 0 where
  pub head_id : Bytes
  pub seq : ℕ
  pub chunk : Bytes

-- The `Message` interface: one constructor for each type that implements it.
pub data Message : Type 0 where
  topic_creation : TopicCreation → Message
  story : Story → Message
  comment : Comment → Message
  vote : Vote → Message
  continuation : Continuation → Message

-- The method `Type`.
unfoldable pub type_tag : Message → ℕ
type_tag (topic_creation m) = type_topic_creation
type_tag (story m) = type_story
type_tag (comment m) = type_comment
type_tag (vote m) = m.kind
type_tag (continuation m) = type_continuation

abbrev pub zero_topic : Bytes
zero_topic = 0 ∷ 0 ∷ 0 ∷ 0 ∷ []

-- `Topic.IsZero`
unfoldable pub is_zero : Bytes → Bool
is_zero t = bytes_beq t zero_topic

pub Result-cases {ℓ} :
    {A : Type ℓ} (r : Result A) → ((a : A) × (r ≡ ok a)) ⊎ ((e : Error) × (r ≡ err e))
Result-cases (ok a) = inl (a, refl)
Result-cases (err e) = inr (e, refl)

-- A result that, if it is an error, is an error of the parser.
pub data ParseResult {ℓ} {A : Type ℓ} : Result A → Type ℓ where
  parsed : (a : A) → ParseResult (ok a)
  failed : (x : Error) → IsParseError x → ParseResult (err x)

pub ParseResult-err {ℓ} : {A : Type ℓ} {x : Error} → ParseResult {A = A} (err x) → IsParseError x
ParseResult-err (failed x h) = h

pub ParseResult-if {ℓ} :
    {A : Type ℓ} (b : Bool) (r s : Result A)
    → ParseResult r
    → ParseResult s
    → ParseResult (if b then r else s)
ParseResult-if true r s hr hs = hr
ParseResult-if false r s hr hs = hs
