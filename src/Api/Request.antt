-- ===== src/Api/Request.antt =====
-- api/api.go: the parameters of a request. `get` is `r.URL.Query().Get`.
pub mod Bounds
pub mod Parsing
use coinnews_indexer.Prelude.{
  ℕ, zero, suc, ◌+◌, ◌-◌, ◌*◌, ◌^◌, ◌==◌, ltb, leb, List, [], ◌∷◌, Option, none, some, Bool, true,
  false, ◌&&◌, ◌||◌, not, if◌then◌else◌, length, bytes_beq,
}
use coinnews_indexer.Prelude.Int.{ℤ, pos, negsuc, ltz}
use coinnews_indexer.Codec.Types.{Bytes, topic_len, xonly_pub_key_len}
use coinnews_indexer.Codec.Hex.{decode_string}
use coinnews_indexer.Store.Types.{FeedQuery}
use coinnews_indexer.Api.{
  Problem, Parsed, parsed, refused, invalid_subtype, invalid_topic, invalid_author,
}

abbrev is_digit : ℕ → Bool
is_digit c = leb b'0' c && leb c b'9'

-- Digits up to the end, behind those whose value is `n`.
digits : Bytes → ℕ → Option ℕ
digits [] n = some n
digits (c ∷ s) n = let rest = digits s (n * 10 + (c - b'0')) in if is_digit c then rest else none

-- An `int` has 64 bits.
positive : Option ℕ → Option ℤ
positive none = none
positive (some n) = if ltb n (2 ^ 63) then some (pos n) else none

abbrev minus : ℕ → ℤ
minus zero = pos 0
minus (suc n) = negsuc n

negative : Option ℕ → Option ℤ
negative none = none
negative (some n) = if leb n (2 ^ 63) then some (minus n) else none

unsigned : Bytes → Option ℕ
unfolding digits
unsigned [] = none
unsigned (c ∷ s) = digits (c ∷ s) 0

-- strconv.Atoi; `none` is its error
unfoldable pub atoi : Bytes → Option ℤ
unfolding positive negative unsigned
atoi [] = none
atoi (c ∷ s) =
    if c == b'-'
    then negative (unsigned s)
    else if c == b'+'
    then positive (unsigned s)
    else positive (unsigned (c ∷ s))

abbrev or_default : Option ℤ → ℤ → ℤ
or_default none default = default
or_default (some n) default = n

unfoldable pub atoi_default : Bytes → ℤ → ℤ
atoi_default [] default = default
atoi_default (c ∷ s) default = or_default (atoi (c ∷ s)) default

abbrev pub key_limit : Bytes
key_limit = b'l' ∷ b'i' ∷ b'm' ∷ b'i' ∷ b't' ∷ []

abbrev pub key_offset : Bytes
key_offset = b'o' ∷ b'f' ∷ b'f' ∷ b's' ∷ b'e' ∷ b't' ∷ []

abbrev pub key_topic : Bytes
key_topic = b't' ∷ b'o' ∷ b'p' ∷ b'i' ∷ b'c' ∷ []

abbrev pub key_subtype : Bytes
key_subtype = b's' ∷ b'u' ∷ b'b' ∷ b't' ∷ b'y' ∷ b'p' ∷ b'e' ∷ []

abbrev pub key_nsfw : Bytes
key_nsfw = b'n' ∷ b's' ∷ b'f' ∷ b'w' ∷ []

-- "1", "true" and "yes"
unfoldable pub bool_param : (Bytes → Bytes) → Bytes → Bool
bool_param get key =
    let v = get key in
    bytes_beq v (b'1' ∷ [])
    || (bytes_beq v (b't' ∷ b'r' ∷ b'u' ∷ b'e' ∷ []) || bytes_beq v (b'y' ∷ b'e' ∷ b's' ∷ []))

abbrev at_least_zero : ℤ → ℤ
at_least_zero n = if ltz n (pos 0) then pos 0 else n

unfoldable pub page_params : (Bytes → Bytes) → ℤ × ℤ
unfolding atoi_default
page_params get = (
  at_least_zero (atoi_default (get key_limit) (pos 50)),
  at_least_zero (atoi_default (get key_offset) (pos 0)),
)

array_of : ℕ → Problem → Option Bytes → Parsed Bytes
array_of n p none = refused p
array_of n p (some b) = if length b == n then parsed b else refused p

unfoldable pub parse_topic : Bytes → Parsed Bytes
unfolding array_of
parse_topic s = array_of topic_len invalid_topic (decode_string s)

unfoldable pub parse_x_only : Bytes → Parsed Bytes
unfolding array_of
parse_x_only s = array_of xonly_pub_key_len invalid_author (decode_string s)

-- `&t`
abbrev pub topic_filter : Parsed Bytes → Parsed (Option Bytes)
topic_filter (parsed t) = parsed (some t)
topic_filter (refused p) = refused p

unfoldable pub topic_param : Bytes → Parsed (Option Bytes)
topic_param [] = parsed none
topic_param (c ∷ v) = topic_filter (parse_topic (c ∷ v))

abbrev pub subtype_filter : Option ℤ → Parsed (Option ℕ)
subtype_filter none = refused invalid_subtype
subtype_filter (some (negsuc n)) = refused invalid_subtype
subtype_filter (some (pos n)) = if ltb 0xff n then refused invalid_subtype else parsed (some n)

unfoldable pub subtype_param : Bytes → Parsed (Option ℕ)
subtype_param [] = parsed none
subtype_param (c ∷ v) = subtype_filter (atoi (c ∷ v))

abbrev pub query_of : ℤ × ℤ → Bool → Parsed (Option Bytes) → Parsed (Option ℕ) → Parsed FeedQuery
query_of (limit, offset) nsfw (refused p) subtype = refused p
query_of (limit, offset) nsfw (parsed topic) (refused p) = refused p
query_of (limit, offset) nsfw (parsed topic) (parsed subtype) = parsed (record {
  topic = topic;
  subtype = subtype;
  include_nsfw = nsfw;
  limit = limit;
  offset = offset;
  now_unix = pos 0;
})

unfoldable pub feed_query : (Bytes → Bytes) → Parsed FeedQuery
unfolding topic_param subtype_param
feed_query get =
    query_of (page_params get) (bool_param get key_nsfw) (topic_param (get key_topic))
      (subtype_param (get key_subtype))
