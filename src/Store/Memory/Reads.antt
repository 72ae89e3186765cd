-- ===== src/Store/Memory/Reads.antt =====
-- store/memory.go: the reads for the API.
pub mod AnyOrder
pub mod Rows
pub mod Tallies
use mathlib.Core.List.{Perm}
use mathlib.Core.List.Perm
use coinnews_indexer.Prelude.{
  ℕ, ◌+◌, List, [], ◌∷◌, ◌++◌, Option, none, some, Bool, true, not, ◌||◌, ◌&&◌, if◌then◌else◌, ◌==◌,
  keep, bytes_beq, bytes_eq,
}
use coinnews_indexer.Prelude.Int.{ℤ, pos, ◌+ℤ◌, ◌-ℤ◌}
use coinnews_indexer.Codec.Types.{Bytes, type_upvote, type_downvote, is_zero}
use coinnews_indexer.GoMap.{GoMap, get, put}
use coinnews_indexer.Store.Types.{
  Item, Topic, Story, Comment, Vote, VoteKey, FeedQuery, FeedItem, ThreadComment,
}
use coinnews_indexer.Store.Ranking.{
  Floats, resolve_now, rank_score, before, sort_by_score, sort_by_newest, sort_topics, page,
}
use coinnews_indexer.Store.Memory.{MemoryStore, item_or_zero}

pub tally_loop : GoMap VoteKey Vote → Bytes → ℤ → ℤ
tally_loop [] target pts = pts
tally_loop ((k, v) ∷ rest) target pts = tally_loop rest target (
    if not (bytes_beq k.target target)
    then pts
    else if v.kind == type_upvote
    then pts +ℤ pos 1
    else if v.kind == type_downvote
    then pts -ℤ pos 1
    else pts)

unfoldable pub tally : Bytes → MemoryStore → ℤ
unfolding tally_loop
tally target m = tally_loop m.votes target (pos 0)

comment_count_loop : GoMap Bytes Comment → Bytes → ℕ → ℕ
comment_count_loop [] parent n = n
comment_count_loop ((_, c) ∷ rest) parent n =
    comment_count_loop rest parent (if bytes_beq c.parent_id parent then n + 1 else n)

unfoldable pub comment_count : Bytes → MemoryStore → ℕ
unfolding comment_count_loop
comment_count parent m = comment_count_loop m.comments parent 0

-- `XOnlyPubKey{}`
abbrev pub zero_key : Bytes
zero_key =
    0 ∷ 0 ∷ 0 ∷ 0 ∷ 0 ∷ 0 ∷ 0 ∷ 0 ∷ 0 ∷ 0 ∷ 0 ∷ 0 ∷ 0 ∷ 0 ∷ 0 ∷ 0 ∷ 0 ∷ 0 ∷ 0 ∷ 0 ∷ 0 ∷ 0 ∷ 0 ∷ 0
    ∷ 0 ∷ 0 ∷ 0 ∷ 0 ∷ 0 ∷ 0 ∷ 0 ∷ 0 ∷ []

-- a precedes b in canonical scan order
unfoldable pub item_before : Item → Item → Bool
item_before a b = before a.height a.tx_index a.vout_index b.height b.tx_index b.vout_index

-- `best` and `author` once one has been found.
pick : Option (Item × Bytes) → Item → Bytes → Option (Item × Bytes)
unfolding item_before
pick none it author = some (it, author)
pick (some (best, kept)) it author =
    if item_before it best then some (it, author) else some (best, kept)

first_comment_loop :
    GoMap Bytes Item → GoMap Bytes Comment → Bytes → Option (Item × Bytes) → Option (Item × Bytes)
unfolding pick
first_comment_loop items [] parent best = best
first_comment_loop items ((_, c) ∷ rest) parent best = first_comment_loop items rest parent (
    if not (bytes_beq c.parent_id parent)
    then best
    else pick best (item_or_zero (get items c.id)) c.author_xpk)

author_or_zero : Option (Item × Bytes) → Bytes
author_or_zero none = zero_key
author_or_zero (some (best, author)) = author

unfoldable pub first_comment_author : Bytes → MemoryStore → Bytes
unfolding first_comment_loop author_or_zero
first_comment_author parent m = author_or_zero (first_comment_loop m.items m.comments parent none)

-- The orders in which `range` meets the entries of the maps: of the stories and the topics, and of
-- `byID`. Go leaves them open, and they may differ from one call to the next.
pub record Ranges : Type 0 where
  pub stories : GoMap Bytes Story → GoMap Bytes Story
  pub topics : GoMap Bytes Topic → GoMap Bytes Topic
  pub by_id : GoMap Bytes Topic → GoMap Bytes Topic

-- A `range` meets every entry once.
pub record IsRange (rg : Ranges) : Type 0 where
  pub stories : (l : GoMap Bytes Story) → Perm (rg.stories l) l
  pub topics : (l : GoMap Bytes Topic) → Perm (rg.topics l) l
  pub by_id : (l : GoMap Bytes Topic) → Perm (rg.by_id l) l

-- The order of insertion.
abbrev pub inserted : Ranges
inserted = record { stories = λ l. l; topics = λ l. l; by_id = λ l. l }

pub inserted-IsRange : IsRange inserted
inserted-IsRange = record { stories = Perm.refl; topics = Perm.refl; by_id = Perm.refl }

-- `clock` is what time.Now().Unix() returns.
module _ (fl : Floats) (clock : ℤ) where
  unfoldable pub feed_item : MemoryStore → ℤ → Bytes → Story → Item → FeedItem fl.F
  feed_item m now id s it =
      let pts = tally id m in
      record {
        item = it;
        topic = s.topic;
        headline = s.headline;
        url = s.url;
        body = s.body;
        lang = s.lang;
        subtype = s.subtype;
        nsfw = s.nsfw;
        author_xpk = first_comment_author id m;
        points = pts;
        comment_count = comment_count id m;
        score = rank_score fl pts now it.block_time;
      }

  build_feed_loop :
      MemoryStore → ℤ → GoMap Bytes Story → List (FeedItem fl.F) → List (FeedItem fl.F)
  unfolding feed_item
  build_feed_loop m now [] out = out
  build_feed_loop m now ((id, s) ∷ rest) out =
      build_feed_loop m now rest
        (elim (get m.items id) [ none ↦ out | some it ↦ out ++ (feed_item m now id s it ∷ []) ])

  unfoldable pub build_feed : Ranges → ℤ → MemoryStore → List (FeedItem fl.F)
  unfolding build_feed_loop
  build_feed rg now m = build_feed_loop m now (rg.stories m.stories) []

  unfoldable pub matches_topic : Option Bytes → FeedItem fl.F → Bool
  matches_topic none f = true
  matches_topic (some t) f = bytes_beq f.topic t

  unfoldable pub matches_subtype : Option ℕ → FeedItem fl.F → Bool
  matches_subtype none f = true
  matches_subtype (some t) f = f.subtype == t

  -- The three `continue`s of the loop.
  unfoldable pub passes : FeedQuery → FeedItem fl.F → Bool
  unfolding matches_topic matches_subtype
  passes q f =
      matches_topic q.topic f && (matches_subtype q.subtype f && (q.include_nsfw || not f.nsfw))

  unfoldable pub filtered_feed : Ranges → FeedQuery → MemoryStore → List (FeedItem fl.F)
  unfolding passes
  filtered_feed rg q m = keep (passes q) (build_feed rg (resolve_now clock q.now_unix) m)

  unfoldable pub front_page : Ranges → FeedQuery → MemoryStore → List (FeedItem fl.F)
  front_page rg q m = page (sort_by_score fl (filtered_feed rg q m)) q.limit q.offset

  unfoldable pub new_feed : Ranges → FeedQuery → MemoryStore → List (FeedItem fl.F)
  new_feed rg q m = page (sort_by_newest (filtered_feed rg q m)) q.limit q.offset

  unfoldable pub by_topic : Ranges → Bytes → ℤ → ℤ → MemoryStore → List (FeedItem fl.F)
  by_topic rg topic limit offset m =
      new_feed rg
        (record {
          topic = some topic;
          subtype = none;
          include_nsfw = true;
          limit = limit;
          offset = offset;
          now_unix = pos 0;
        })
        m

  unfoldable pub get_item : Bytes → MemoryStore → Option (FeedItem fl.F)
  unfolding feed_item
  get_item id m = elim (get m.stories id) [
    | none ↦ none
    | some s ↦ some (feed_item m (resolve_now clock (pos 0)) id s (item_or_zero (get m.items id)))
  ]

  unfoldable pub items_by_author : Ranges → Bytes → ℤ → ℤ → MemoryStore → List (FeedItem fl.F)
  items_by_author rg author limit offset m =
      page
        (sort_by_newest
          (keep (λ f. bytes_beq f.author_xpk author) (build_feed rg (resolve_now clock (pos 0)) m)))
        limit offset

  unfoldable pub thread_comment : MemoryStore → ℤ → Comment → ThreadComment fl.F
  thread_comment m now c =
      let it = item_or_zero (get m.items c.id) in
      let pts = tally c.id m in
      record {
        id = c.id;
        parent_id = c.parent_id;
        author_xpk = c.author_xpk;
        body = c.body;
        url = c.url;
        lang = c.lang;
        reply_quote = c.reply_quote;
        height = it.height;
        block_time = it.block_time;
        points = pts;
        score = rank_score fl pts now it.block_time;
      }

-- `byID`: the listed topics, with no story counted yet.
unfoldable pub by_id_loop : GoMap Bytes Topic → GoMap Bytes Topic → GoMap Bytes Topic
by_id_loop [] by_id = by_id
by_id_loop ((_, t) ∷ rest) by_id =
    by_id_loop rest (if is_zero t.topic then by_id else put by_id t.topic t)

unfoldable pub count_story : GoMap Bytes Topic → Story → GoMap Bytes Topic
count_story by_id s = elim (get by_id s.topic) [
  | none ↦ by_id
  | some t ↦ put by_id s.topic (record t { story_count = t.story_count + 1 })
]

unfoldable pub count_stories : GoMap Bytes Story → GoMap Bytes Topic → GoMap Bytes Topic
unfolding count_story
count_stories [] by_id = by_id
count_stories ((_, s) ∷ rest) by_id = count_stories rest (count_story by_id s)

unfoldable pub values : GoMap Bytes Topic → List Topic
values [] = []
values ((_, t) ∷ rest) = t ∷ values rest

unfoldable pub list_topics : Ranges → MemoryStore → List Topic
unfolding by_id_loop count_stories values
list_topics rg m =
    sort_topics (
      values (rg.by_id (count_stories (rg.stories m.stories) (by_id_loop (rg.topics m.topics) []))))
