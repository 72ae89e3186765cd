-- ===== src/Tests/Api.antt =====
-- The API at concrete inputs.
use coinnews_indexer.Prelude.{
  ℕ, ◌≡◌, ◌≢◌, refl, [], ◌∷◌, some, arith, bytes_beq, inr, bytes_eq, if◌then◌else◌,
}
use coinnews_indexer.Prelude.Int.{ℤ, pos}
use coinnews_indexer.Codec.Types.{Bytes, ok}
use coinnews_indexer.Codec.Hex.{encode_to_string}
use coinnews_indexer.Codec.ItemId.{parse_item_id}
use coinnews_indexer.Store.Types.{FeedItem}
use coinnews_indexer.Store.Memory.{MemoryStore, new_memory, itoa}
use coinnews_indexer.Store.Memory.Backend.{World}
use coinnews_indexer.Store.Memory.Reads.{inserted}
use coinnews_indexer.Store.Memory.Queries.{memory_queries}
use coinnews_indexer.Api.{parsed}
use coinnews_indexer.Api.Request.{
  feed_query, key_limit, key_offset, key_topic, key_subtype, key_nsfw, parse_topic, parse_x_only,
}
use coinnews_indexer.Api.Request.Bounds.{OnParsed, IsWellFormed, feed_query-IsWellFormed}
use coinnews_indexer.Api.Dto.{to_item}
use coinnews_indexer.Api.Dto.Links.{to_item-links}
use coinnews_indexer.Api.Rest.{handle_front_page}
use coinnews_indexer.Api.Connect.{number}
use coinnews_indexer.Api.Connect.Handlers.{FeedReq, sent, connect_front_page}
use coinnews_indexer.Api.Connect.Handlers.Agree.{SameRequest, Agree, front_page-Agree}
use coinnews_indexer.Tests.Data.{fill, fill-IsArray, a_floats, item_at, story_row, feed_row}

abbrev a_memory : MemoryStore
a_memory = record new_memory {
  items = (fill 12 1, item_at 1 (pos 5)) ∷ [];
  stories = (fill 12 1, story_row 1) ∷ [];
}

abbrev a_world : World (Unit {0})
a_world = (tt, a_memory)

-- limit=20&offset=3&nsfw=1&subtype=2 and a topic
abbrev a_get : Bytes → Bytes
a_get key =
    if bytes_beq key key_limit
    then itoa 20
    else if bytes_beq key key_offset
    then itoa 3
    else if bytes_beq key key_nsfw
    then b'1' ∷ []
    else if bytes_beq key key_subtype
    then itoa 2
    else if bytes_beq key key_topic
    then encode_to_string (fill 4 7)
    else []

abbrev a_request : FeedReq
a_request = record {
  limit = 20;
  offset = 3;
  subtype = some (number (pos 2));
  topic_hex = some (encode_to_string (fill 4 7));
}

same_request : SameRequest a_get a_request
unfolding bytes_beq
same_request = record {
  limit = refl;
  offset = refl;
  positive = omega arith;
  limit_bound = omega arith;
  offset_bound = omega arith;
  nsfw = refl;
  topic = inr (fill 4 7, fill-IsArray 4 7 (omega arith), refl, refl);
  subtype = inr (2, omega arith, refl, refl);
}

feed_query-IsWellFormed_example : OnParsed IsWellFormed (feed_query a_get)
feed_query-IsWellFormed_example = feed_query-IsWellFormed a_get

abbrev an_item : FeedItem ℕ
an_item = record (feed_row 1 5) { author_xpk = fill 32 2 }

not_zero : fill 32 2 ≢ fill 32 0
not_zero h = ground (arith, h)

to_item-links_example :
    (parse_item_id (to_item an_item).item_id ≡ ok (fill 12 1))
    × (parse_topic (to_item an_item).topic ≡ parsed (fill 4 7))
    × (parse_x_only (to_item an_item).author_xpk ≡ parsed (fill 32 2))
to_item-links_example =
    to_item-links an_item (fill-IsArray 12 1 (omega arith)) (fill-IsArray 4 7 (omega arith))
      (fill-IsArray 32 2 (omega arith)) not_zero

abbrev a_time : ℤ → Bytes
a_time t = []

front_page-Agree_example :
    Agree
      (handle_front_page (memory_queries a_floats (pos 1700) inserted (Unit {0})) a_get a_world)
      (connect_front_page a_time
        (memory_queries a_floats (pos 1700) inserted (Unit {0}))
        (sent a_request)
        a_world)
front_page-Agree_example =
    front_page-Agree a_time (memory_queries a_floats (pos 1700) inserted (Unit {0})) a_get a_request
      a_world same_request
