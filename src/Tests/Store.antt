-- ===== src/Tests/Store.antt =====
-- The store at concrete inputs.
use coinnews_indexer.Prelude.{
  ℕ, ◌≡◌, ◌↔◌, ◌*◌, refl, List, [], ◌∷◌, none, some, true, false, arith, take, map, if◌then◌else◌,
  bytes_beq, bytes_eq,
}
use coinnews_indexer.Prelude.Int.{◌+ℤ◌, ◌-ℤ◌, pos}
use coinnews_indexer.GoMap.{get, put, Distinct}
use coinnews_indexer.GoMap.Laws.{if_kept}
use coinnews_indexer.Store.Types.{Continuation, FeedQuery, vote_key_eq}
use coinnews_indexer.Codec.Types.{is_zero}
use coinnews_indexer.Store.Sort.{slice_stable}
use coinnews_indexer.Store.Ranking.{
  sort_by_score, sort_by_newest, sort_thread_canonical, sort_topics, page, rank_score, resolve_now,
}
use coinnews_indexer.Store.Ranking.Listings.{
  IsListing, Higher, same_rank, Newer, same_place, Earlier, same_comment, sort_by_score-IsListing,
  sort_by_newest-IsListing, sort_thread-IsListing,
}
use coinnews_indexer.Store.Ranking.Paging.{pages, pages-take}
use coinnews_indexer.Store.Memory.{
  MemoryStore, new_memory, delete_from_height, item_by_id, put_vote, later_than, vote_key, out_key,
  item_or_zero,
}
use coinnews_indexer.Store.Memory.Writes.{vote_at, SamePlace, put_vote_order}
use coinnews_indexer.Store.Memory.Rewind.{
  below, from_height, rewind_items, rewind_conts, rewind_loses_vote,
}
use coinnews_indexer.Store.Memory.Reads.{
  inserted, tally, comment_count, first_comment_author, front_page, list_topics, filtered_feed,
  build_feed, passes, feed_item, item_before,
}
use coinnews_indexer.Store.Memory.Thread.{wants, descendants}
use coinnews_indexer.Store.Memory.Thread.Descendants.{Under, descendants-Under}
use coinnews_indexer.Tests.Data.{
  fill, a_floats, a_floats-IsTotal, item_at, vote_at_height, topic_at, story_row, comment_row,
  feed_row, thread_row,
}

abbrev three : List ℕ
three = 1 ∷ 2 ∷ 3 ∷ []

abbrev a_query : FeedQuery
a_query = record {
  topic = none;
  subtype = none;
  include_nsfw = false;
  limit = pos 1;
  offset = pos 0;
  now_unix = pos 0;
}

-- Two items with their stories, two comments, a vote and a topic.
abbrev a_memory : MemoryStore
a_memory = record new_memory {
  items = (fill 12 1, item_at 1 (pos 5)) ∷ (fill 12 2, item_at 2 (pos 9)) ∷ [];
  stories = (fill 12 1, story_row 1) ∷ (fill 12 2, story_row 2) ∷ [];
  comments = (fill 12 4, comment_row 4 3) ∷ (fill 12 3, comment_row 3 1) ∷ [];
  votes = (vote_key (vote_at_height 9), vote_at_height 9) ∷ [];
  topics = (fill 4 7, topic_at 5) ∷ [];
}

items_Distinct : Distinct a_memory.items
unfolding get bytes_beq
items_Distinct = (refl, (refl, tt))

votes_Distinct : Distinct a_memory.votes
unfolding get
votes_Distinct = (refl, tt)

topics_Distinct : Distinct a_memory.topics
unfolding get
topics_Distinct = (refl, tt)

rewind_items_example :
    item_by_id (fill 12 2) (delete_from_height (pos 7) a_memory)
    ≡ if_kept (below (pos 7)) (item_by_id (fill 12 2) a_memory)
rewind_items_example = rewind_items (pos 7) a_memory (fill 12 2) items_Distinct

rewind_conts_example : get (delete_from_height (pos 7) a_memory).conts (fill 12 2) ≡ (
    if from_height (pos 7) (item_by_id (fill 12 2) a_memory)
    then none
    else get a_memory.conts (fill 12 2))
rewind_conts_example = rewind_conts (pos 7) a_memory (fill 12 2) items_Distinct

later_run : later_than (vote_at_height 9) (vote_at_height 5) ≡ true
unfolding later_than
later_run = refl

no_vote : vote_at (vote_key (vote_at_height 5)) new_memory ≡ none
unfolding get
no_vote = refl

rewind_loses_vote_example :
    (vote_at (vote_key (vote_at_height 5)) (
        delete_from_height
          (pos 7)
          (put_vote (vote_at_height 9) (put_vote (vote_at_height 5) new_memory)))
      ≡ none)
    × (vote_at
          (vote_key (vote_at_height 5))
          (delete_from_height (pos 7) (put_vote (vote_at_height 5) new_memory))
        ≡ some (vote_at_height 5))
rewind_loses_vote_example =
    rewind_loses_vote (vote_at_height 5) (vote_at_height 9) new_memory (pos 7) refl no_vote tt
      later_run refl refl

other_place : ¬ SamePlace (vote_at_height 9) (vote_at_height 5)
other_place (h, _, _) = cc

put_vote_order_example :
    vote_at
      (vote_key (vote_at_height 9))
      (put_vote (vote_at_height 9) (put_vote (vote_at_height 5) new_memory))
    ≡ vote_at
        (vote_key (vote_at_height 9))
        (put_vote (vote_at_height 5) (put_vote (vote_at_height 9) new_memory))
put_vote_order_example =
    put_vote_order (vote_at_height 9) (vote_at_height 5) new_memory (vote_key (vote_at_height 9))
      other_place

descendants-Under_example :
    (wants (descendants (fill 12 1) a_memory) (fill 12 4) ≡ true)
    ↔ Under a_memory.comments (fill 12 1) (fill 12 4)
descendants-Under_example = descendants-Under (fill 12 1) a_memory (fill 12 4)

sort_by_score-IsListing_example :
    IsListing
      (Higher a_floats)
      (same_rank a_floats)
      (feed_row 1 10 ∷ feed_row 2 20 ∷ [])
      (sort_by_score a_floats (feed_row 1 10 ∷ feed_row 2 20 ∷ []))
sort_by_score-IsListing_example =
    sort_by_score-IsListing a_floats a_floats-IsTotal (feed_row 1 10 ∷ feed_row 2 20 ∷ [])

sort_by_newest-IsListing_example :
    IsListing Newer same_place
      (feed_row 1 10 ∷ feed_row 2 20 ∷ [])
      (sort_by_newest (feed_row 1 10 ∷ feed_row 2 20 ∷ []))
sort_by_newest-IsListing_example = sort_by_newest-IsListing (feed_row 1 10 ∷ feed_row 2 20 ∷ [])

sort_thread-IsListing_example :
    IsListing Earlier same_comment
      (thread_row 2 9 ∷ thread_row 1 5 ∷ [])
      (sort_thread_canonical (thread_row 2 9 ∷ thread_row 1 5 ∷ []))
sort_thread-IsListing_example = sort_thread-IsListing (thread_row 2 9 ∷ thread_row 1 5 ∷ [])

pages-take_example : pages three 1 2 ≡ take (2 * 1) three
pages-take_example = pages-take three 1 2 (omega arith)

abbrev a_chunk : Continuation
a_chunk = record { head_id = fill 12 1; seq = 1; chunk = b'c' ∷ []; height = pos 6 }

-- Runs.
descendants_run : descendants (fill 12 1) a_memory ≡ fill 12 4 ∷ fill 12 3 ∷ fill 12 1 ∷ []
unfolding descendants bytes_beq
descendants_run = refl

tally_run : tally (fill 12 1) a_memory ≡ pos 1
unfolding tally bytes_beq ◌+ℤ◌
tally_run = refl

comment_count_run : comment_count (fill 12 1) a_memory ≡ 1
unfolding comment_count bytes_beq
comment_count_run = refl

author_run : first_comment_author (fill 12 1) a_memory ≡ fill 32 2
unfolding first_comment_author bytes_beq
author_run = refl

front_page_run :
    map (λ f. f.item.id) (front_page a_floats (pos 1700) inserted a_query a_memory) ≡ fill 12 1 ∷ []
unfolding front_page sort_by_score slice_stable page filtered_feed build_feed passes feed_item tally
    comment_count first_comment_author get bytes_beq rank_score resolve_now item_or_zero item_before
    ◌+ℤ◌ ◌-ℤ◌
front_page_run = refl

topics_run : map (λ t. t.story_count) (list_topics inserted a_memory) ≡ 2 ∷ []
unfolding list_topics sort_topics slice_stable get is_zero bytes_beq put
topics_run = refl

out_key_run : out_key (b'a' ∷ []) 205 ≡ b'a' ∷ b':' ∷ b'2' ∷ b'0' ∷ b'5' ∷ []
unfolding out_key
out_key_run = refl
