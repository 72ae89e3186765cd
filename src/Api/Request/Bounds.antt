-- ===== src/Api/Request/Bounds.antt =====
-- api/api.go: the queries that the parameters of a request give.
use coinnews_indexer.Prelude.{
  ℕ, zero, suc, ◌^◌, ◌<◌, ◌≡◌, ◌==◌, ltb, leb, [], ◌∷◌, length, Option, none, some, true, false,
  arith, if◌then◌else◌, Option-cases, Bool-cases, inl, inr, ◌⊎◌,
}
use coinnews_indexer.Prelude.Int.{ℤ, pos, negsuc, ltz, ◌≤ℤ◌, ◌<ℤ◌}
use coinnews_indexer.Codec.Types.{Bytes, IsArray, AllBytes}
use coinnews_indexer.Codec.Hex.{decode_string, decode_string-AllBytes}
use coinnews_indexer.Store.Types.{FeedQuery}
use coinnews_indexer.Api.{Parsed, parsed, refused, invalid_topic}
use coinnews_indexer.Api.Request.{
  minus, atoi, unsigned, positive, negative, topic_filter, subtype_filter, query_of, atoi_default,
  page_params, parse_topic, array_of, topic_param, subtype_param, feed_query, key_limit, key_offset,
  key_topic, key_subtype, key_nsfw, bool_param,
}

abbrev pub OnSome : {A : Type 0} → (A → Type 0) → Option A → Type 0
OnSome P none = Unit
OnSome P (some a) = P a

-- From 0 up to the largest `int`.
abbrev pub IsCount : ℤ → Type 0
IsCount n = (pos 0 ≤ℤ n) × (n <ℤ pos (2 ^ 63))

pub record IsWellFormed (q : FeedQuery) : Type 0 where
  pub limit : IsCount q.limit
  pub offset : IsCount q.offset
  pub topic : OnSome (IsArray 4) q.topic
  pub subtype : OnSome (λ n. n < 256) q.subtype

abbrev pub OnParsed : {A : Type 0} → (A → Type 0) → Parsed A → Type 0
OnParsed P (parsed a) = P a
OnParsed P (refused p) = Unit

positive-bound : (o : Option ℕ) → OnSome (λ n. n <ℤ pos (2 ^ 63)) (positive o)
unfolding positive
positive-bound none = tt
positive-bound (some n) = elim (Bool-cases (ltb n (2 ^ 63))) [
  | inl l ↦ rw l (ground (arith, l))
  | inr l ↦ rw l tt
]

minus-bound : (n : ℕ) → minus n <ℤ pos (2 ^ 63)
minus-bound zero = omega arith
minus-bound (suc n) = omega arith

negative-bound : (o : Option ℕ) → OnSome (λ n. n <ℤ pos (2 ^ 63)) (negative o)
unfolding negative
negative-bound none = tt
negative-bound (some n) = elim (Bool-cases (leb n (2 ^ 63))) [
  | inl l ↦ rw l (minus-bound n)
  | inr l ↦ rw l tt
]

atoi-bound : (s : Bytes) → OnSome (λ n. n <ℤ pos (2 ^ 63)) (atoi s)
unfolding atoi
atoi-bound [] = tt
atoi-bound (c ∷ s) = elim (Bool-cases (c == b'-')) [
  | inl e ↦ rw e (negative-bound (unsigned s))
  | inr e ↦ elim (Bool-cases (c == b'+')) [
    | inl p ↦ rw (e, p) (positive-bound (unsigned s))
    | inr p ↦ rw (e, p) (positive-bound (unsigned (c ∷ s)))
  ]
]

at_least_zero-IsCount : (n : ℤ) → n <ℤ pos (2 ^ 63) → IsCount (if ltz n (pos 0) then pos 0 else n)
at_least_zero-IsCount n h = ground arith

default-bound : (s : Bytes) (n : ℤ) → n <ℤ pos (2 ^ 63) → atoi_default s n <ℤ pos (2 ^ 63)
unfolding atoi_default
default-bound [] n h = h
default-bound (c ∷ s) n h = elim (Option-cases (atoi (c ∷ s))) [
  | inl q ↦ rw q h
  | inr (m, q) ↦ rw q (rw q at (atoi-bound (c ∷ s)))
]

parse_topic-IsArray : (s : Bytes) → OnParsed (IsArray 4) (parse_topic s)
unfolding parse_topic array_of
parse_topic-IsArray s = elim (Option-cases (decode_string s)) [
  | inl q ↦ rw q tt
  | inr (b, q) ↦ rw q (sized b (decode_string-AllBytes s b q) (Bool-cases (length b == 4)))
]
  where
    sized :
        (b : Bytes)
        → AllBytes b
        → ((length b == 4) ≡ true) ⊎ ((length b == 4) ≡ false)
        → OnParsed (IsArray 4) (array_of 4 invalid_topic (some b))
    sized b h (inl e) = rw e (record { bytes = h; size = ground (arith, e) })
    sized b h (inr e) = rw e tt

topic_param-IsArray : (s : Bytes) → OnParsed (OnSome (IsArray 4)) (topic_param s)
unfolding topic_param
topic_param-IsArray [] = tt
topic_param-IsArray (c ∷ s) = filtered (parse_topic (c ∷ s)) (parse_topic-IsArray (c ∷ s))
  where
    filtered :
        (p : Parsed Bytes) → OnParsed (IsArray 4) p → OnParsed (OnSome (IsArray 4)) (topic_filter p)
    filtered (parsed t) h = h
    filtered (refused p) h = tt

subtype_param-bound : (s : Bytes) → OnParsed (OnSome λ n. n < 256) (subtype_param s)
unfolding subtype_param
subtype_param-bound [] = tt
subtype_param-bound (c ∷ s) = filtered (atoi (c ∷ s))
  where
    filtered : (o : Option ℤ) → OnParsed (OnSome λ n. n < 256) (subtype_filter o)
    filtered none = tt
    filtered (some (negsuc n)) = tt
    filtered (some (pos n)) = ground arith

-- Whatever the parameters of a request are, a query that `feedQuery` makes of them has a limit and
-- an offset from 0 to the largest int, a topic filter of 4 bytes if it has one, and a subtype
-- filter below 256 if it has one.
pub feed_query-IsWellFormed : (get : Bytes → Bytes) → OnParsed IsWellFormed (feed_query get)
unfolding feed_query page_params
feed_query-IsWellFormed get =
    well_formed (topic_param (get key_topic)) (subtype_param (get key_subtype))
      (topic_param-IsArray (get key_topic)) (subtype_param-bound (get key_subtype))
  where
    well_formed :
        (t : Parsed (Option Bytes)) (u : Parsed (Option ℕ))
        → OnParsed (OnSome (IsArray 4)) t
        → OnParsed (OnSome λ n. n < 256) u
        → OnParsed IsWellFormed (query_of (page_params get) (bool_param get key_nsfw) t u)
    well_formed (refused p) u ht hu = tt
    well_formed (parsed t) (refused p) ht hu = tt
    well_formed (parsed t) (parsed u) ht hu = record {
      limit = at_least_zero-IsCount _ (default-bound (get key_limit) (pos 50) (omega arith));
      offset = at_least_zero-IsCount _ (default-bound (get key_offset) (pos 0) (omega arith));
      topic = ht;
      subtype = hu;
    }
