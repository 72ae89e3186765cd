-- ===== src/Api/Connect/Handlers/Agree.antt =====
-- api/connect.go against api/api.go: the same requests to the two kinds of endpoints.
use coinnews_indexer.Prelude.{
  ℕ, ◌^◌, ◌<◌, ◌≡◌, ◌≢◌, refl, ap, ◌∙◌, [], ◌∷◌, List, Option, none, some, ◌⊎◌, inl, inr, arith,
  bytes_beq,
}
use coinnews_indexer.Prelude.Int.{ℤ, pos}
use coinnews_indexer.Codec.Types.{Bytes, IsArray, Result, ok, err}
use coinnews_indexer.Codec.Hex.{encode_to_string}
use coinnews_indexer.Codec.ItemId.{parse_item_id}
use coinnews_indexer.Store.Types.{FeedItem}
use coinnews_indexer.Store.Interface.{Queries}
use coinnews_indexer.Store.Memory.{itoa}
use coinnews_indexer.Store.Memory.Decimal.{itoa-nonempty}
use coinnews_indexer.Api.{parsed, parsed_id, invalid_item_id, Response, answered, with_parsed}
use coinnews_indexer.Api.Request.{
  feed_query, page_params, bool_param, key_limit, key_offset, key_topic, key_subtype, key_nsfw,
  atoi_default, topic_param, subtype_param, atoi,
}
use coinnews_indexer.Api.Request.Parsing.{atoi-itoa, parse_topic-encode_to_string}
use coinnews_indexer.Api.Rest.{
  handle_front_page, handle_get_item, item_found, failed, feed_ok, bad_request,
}
use coinnews_indexer.Api.Connect.{number, limit_or_default, unmarshal_json, to_subtype}
use coinnews_indexer.Api.Connect.Handlers.{
  topic_sent, FeedReq, sent, to_query, decode_connect, connect_front_page, connect_get_item,
  connect_found, connect_failed, connect_bad, items_ok,
}

-- The parameters of a GET and the JSON of a POST that ask for the same.
pub record SameRequest (get : Bytes → Bytes) (r : FeedReq) : Type 0 where
  pub limit : get key_limit ≡ itoa r.limit
  pub offset : get key_offset ≡ itoa r.offset
  pub positive : 0 < r.limit
  pub limit_bound : r.limit < 2 ^ 32
  pub offset_bound : r.offset < 2 ^ 32
  pub nsfw : get key_nsfw ≡ b'1' ∷ []
  pub topic :
      ((r.topic_hex ≡ none) × (get key_topic ≡ []))
      ⊎ ((t : Bytes) × IsArray 4 t
          × (r.topic_hex ≡ some (encode_to_string t))
          × (get key_topic ≡ encode_to_string t))
  pub subtype :
      ((r.subtype ≡ none) × (get key_subtype ≡ []))
      ⊎ ((s : ℕ) × (s < 256) × (r.subtype ≡ some (number (pos s))) × (get key_subtype ≡ itoa s))

default_spelled : (s : Bytes) (n d : ℤ) → s ≢ [] → atoi s ≡ some n → atoi_default s d ≡ n
unfolding atoi_default
default_spelled [] n d e q = absurd (e refl)
default_spelled (c ∷ s) n d e q = rw q refl

default-itoa : (n : ℕ) (d : ℤ) → n < 2 ^ 32 → atoi_default (itoa n) d ≡ pos n
default-itoa n d h = default_spelled (itoa n) (pos n) d (itoa-nonempty n h) (atoi-itoa n h)

topic_spelled :
    (s t : Bytes) → IsArray 4 t → s ≡ encode_to_string t → s ≢ [] → topic_param s ≡ parsed (some t)
unfolding topic_param
topic_spelled [] t h e n = absurd (n refl)
topic_spelled (c ∷ s) t h e n = rw (e, parse_topic-encode_to_string t h) refl

sent_spelled :
    (s t : Bytes) → IsArray 4 t → s ≡ encode_to_string t → s ≢ [] → topic_sent (some s) ≡ some t
sent_spelled [] t h e n = absurd (n refl)
sent_spelled (c ∷ s) t h e n = rw (e, parse_topic-encode_to_string t h) refl

encode-nonempty : (t : Bytes) → IsArray 4 t → encode_to_string t ≢ []
unfolding encode_to_string
encode-nonempty [] h = λ q. omega (arith, h.size)
encode-nonempty (b ∷ t) h = λ q. ground (arith, q)

same_topic :
    (get : Bytes → Bytes) (r : FeedReq)
    → SameRequest get r
    → topic_param (get key_topic) ≡ parsed (to_query r).topic
unfolding to_query topic_param
same_topic get r h = elim h.topic [
  | inl (a, b) ↦ rw (a, b) refl
  | inr (t, i, a, b) ↦
      rw
        (
          b,
          topic_spelled (encode_to_string t) t i refl (encode-nonempty t i),
          a,
          sent_spelled (encode_to_string t) t i refl (encode-nonempty t i),
        )
        refl
]

subtype_spelled :
    (s : Bytes) (n : ℕ)
    → n < 256
    → s ≢ []
    → atoi s ≡ some (pos n)
    → subtype_param s ≡ parsed (some n)
unfolding subtype_param
subtype_spelled [] n h e q = absurd (e refl)
subtype_spelled (c ∷ s) n h e q = rw q (ground arith)

same_subtype :
    (get : Bytes → Bytes) (r : FeedReq)
    → SameRequest get r
    → subtype_param (get key_subtype) ≡ parsed (to_query r).subtype
unfolding to_query subtype_param unmarshal_json to_subtype
same_subtype get r h = elim h.subtype [
  | inl (a, b) ↦ rw (a, b) refl
  | inr (n, l, a, b) ↦
      rw (a, b)
        (subtype_spelled (itoa n) n l (itoa-nonempty n (omega (arith, l)))
            (atoi-itoa n (omega (arith, l)))
          ∙ ap (λ m. parsed (some m)) (omega (arith, l)))
]

pub same_query :
    (get : Bytes → Bytes) (r : FeedReq) → SameRequest get r → feed_query get ≡ parsed (to_query r)
unfolding feed_query to_query page_params bool_param limit_or_default bytes_beq
same_query get r h =
    rw
      (
        same_topic get r h,
        same_subtype get r h,
        h.limit,
        h.offset,
        h.nsfw,
        default-itoa r.limit (pos 50) h.limit_bound,
        default-itoa r.offset (pos 0) h.offset_bound,
      )
      (ground (arith, h.positive))

-- One status and one state of the store.
abbrev pub Agree : {W A B : Type 0} → Response A × W → Response B × W → Type 0
Agree x y = (x.0.status ≡ y.0.status) × (x.1 ≡ y.1)

module _ {F W : Type 0} (rfc3339 : ℤ → Bytes) (st : Queries F W) where
  feeds-Agree :
      (r : Result (List (FeedItem F)) × W)
      → Agree (answered failed feed_ok r) (answered connect_failed (items_ok rfc3339 st) r)
  unfolding answered
  feeds-Agree (ok fs, w) = (refl, refl)
  feeds-Agree (err e, w) = (refl, refl)

  -- For any store, GET /v1/frontpage and the Connect call ListFrontPage answer with the same status
  -- and leave the store in the same state if they ask for the same: the decimal texts of the limit,
  -- which is not 0, and of the offset, both below 2^32, nsfw=1, and the same topic and subtype or
  -- none.
  pub front_page-Agree :
      (get : Bytes → Bytes) (r : FeedReq) (w : W)
      → SameRequest get r
      → Agree (handle_front_page st get w) (connect_front_page rfc3339 st (sent r) w)
  unfolding handle_front_page connect_front_page with_parsed decode_connect
  front_page-Agree get r w h = rw (same_query get r h) (feeds-Agree (st.front_page (to_query r) w))

  items-Agree :
      (r : Result (Option (FeedItem F)) × W)
      → Agree (answered failed item_found r) (answered connect_failed (connect_found rfc3339 st) r)
  unfolding answered
  items-Agree (ok none, w) = (refl, refl)
  items-Agree (ok (some f), w) = (refl, refl)
  items-Agree (err e, w) = (refl, refl)

  -- For any store and any text of an id, GET /v1/items/{id} and the Connect call GetItem answer
  -- with the same status and leave the store in the same state.
  pub get_item-Agree :
      (text : Bytes) (w : W)
      → Agree (handle_get_item st text w) (connect_get_item rfc3339 st (sent text) w)
  unfolding handle_get_item connect_get_item with_parsed decode_connect
  get_item-Agree text w = read_back (parse_item_id text)
    where
      read_back :
          (p : Result Bytes)
          → Agree
              (with_parsed bad_request
                (parsed_id invalid_item_id p)
                (λ id w. answered failed item_found (st.get_item id w))
                w)
              (with_parsed connect_bad
                (parsed_id invalid_item_id p)
                (λ id w. answered connect_failed (connect_found rfc3339 st) (st.get_item id w))
                w)
      read_back (err e) = (refl, refl)
      read_back (ok id) = items-Agree (st.get_item id w)
