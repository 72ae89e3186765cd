-- ===== src/Store/Sqlite/Reads.antt =====
-- store/sqlite.go: the feeds. A SELECT without ORDER BY lists the rows in the order of the table. A
-- column of an id, a topic or a key reads back with the bytes that were written, and what Scan stores
-- in a byte is cut to 8 bits.
pub mod Rows
pub mod AnyOrder
pub mod Feeds
pub mod Runs
use coinnews_indexer.Prelude.{
  ℕ, ◌+◌, ◌%◌, List, [], ◌∷◌, Option, none, some, Bool, true, false, not, ◌||◌, ◌&&◌, if◌then◌else◌,
  ◌==◌, length, keep, bytes_beq, bytes_eq,
}
use coinnews_indexer.Prelude.Int.{ℤ, pos, ◌-ℤ◌}
use coinnews_indexer.Codec.Types.{Bytes, type_story, type_upvote, type_downvote, xonly_pub_key_len}
use coinnews_indexer.Store.Types.{Item, FeedQuery, FeedItem}
use coinnews_indexer.Store.Ranking.{
  Floats, resolve_now, rank_score, before, sort_by_score, sort_by_newest, page,
}
use coinnews_indexer.Store.Sort.{slice_stable}
use coinnews_indexer.Store.Sort.First.{first}
use coinnews_indexer.Store.Sql.{find_by, count}
use coinnews_indexer.Store.Memory.Reads.{zero_key}
use coinnews_indexer.Store.Sqlite.Schema.{Tables, StoryRow, CommentRow, coalesce}

-- The points: SUM(kind = upvote) - SUM(kind = downvote).
unfoldable pub points : Bytes → Tables → ℤ
points id t =
    pos (count (λ v. bytes_beq v.target_id id && (v.kind == type_upvote)) t.cn_votes)
    -ℤ pos (count (λ v. bytes_beq v.target_id id && (v.kind == type_downvote)) t.cn_votes)

-- SELECT COUNT(*) FROM cn_comments WHERE parent_id = ?
unfoldable pub ccount : Bytes → Tables → ℕ
ccount id t = count (λ c. bytes_beq c.parent_id id) t.cn_comments

-- cn_comments JOIN cn_items, WHERE parent_id = ?
unfoldable pub joined : Bytes → List Item → List CommentRow → List (Item × Bytes)
joined parent items [] = []
joined parent items (c ∷ rest) =
    let tail = joined parent items rest in
    if bytes_beq c.parent_id parent
    then elim (find_by (λ r. r.id) items c.item_id) [
      | none ↦ tail
      | some it ↦ (it, c.author_xpk) ∷ tail
    ]
    else tail

-- ORDER BY block_height, tx_index, vout_index
abbrev pub by_position : Item × Bytes → Item × Bytes → Bool
by_position a b =
    before a.0.height a.0.tx_index a.0.vout_index b.0.height b.0.tx_index b.0.vout_index

-- The author of the first comment, or NULL.
unfoldable pub first_author : Bytes → Tables → Option (Item × Bytes)
first_author id t = first (slice_stable by_position (joined id t.cn_items t.cn_comments))

-- `len(authorb) == codec.XOnlyPubKeyLen`
abbrev pub scan_author : Option (Item × Bytes) → Bytes
scan_author none = zero_key
scan_author (some (it, author)) = if length author == xonly_pub_key_len then author else zero_key

-- `buildFilter`
abbrev pub on_topic : Option Bytes → StoryRow → Bool
on_topic none s = true
on_topic (some t) s = bytes_beq s.topic t

abbrev pub on_subtype : Option ℕ → StoryRow → Bool
on_subtype none s = true
on_subtype (some n) s = s.subtype == n

unfoldable pub build_filter : Option Bytes → Option ℕ → Bool → StoryRow → Bool
build_filter topic subtype include_nsfw s =
    on_topic topic s && (on_subtype subtype s && (include_nsfw || (s.nsfw == 0)))

-- `clock` is what time.Now().Unix() returns.
module _ (fl : Floats) (clock : ℤ) where
  -- One row of `feedSelect`, scanned.
  unfoldable pub feed_row : Tables → ℤ → StoryRow → Item → FeedItem fl.F
  feed_row t now s it =
      let pts = points s.item_id t in
      record {
        item = record it { id = s.item_id; type_tag = type_story };
        topic = s.topic;
        headline = s.headline;
        url = coalesce s.url;
        body = coalesce s.body;
        lang = coalesce s.lang;
        subtype = s.subtype % 256;
        nsfw = not (s.nsfw == 0);
        author_xpk = scan_author (first_author s.item_id t);
        points = pts;
        comment_count = ccount s.item_id t;
        score = rank_score fl pts now it.block_time;
      }

  -- cn_stories JOIN cn_items, WHERE test
  unfoldable pub select_feed : (StoryRow → Bool) → Tables → ℤ → List StoryRow → List (FeedItem fl.F)
  select_feed test t now [] = []
  select_feed test t now (s ∷ rest) =
      let tail = select_feed test t now rest in
      if test s
      then elim (find_by (λ r. r.id) t.cn_items s.item_id) [
        | none ↦ tail
        | some it ↦ feed_row t now s it ∷ tail
      ]
      else tail

  unfoldable pub query_feed : (StoryRow → Bool) → ℤ → Tables → List (FeedItem fl.F)
  query_feed test now_unix t = select_feed test t (resolve_now clock now_unix) t.cn_stories

  unfoldable pub front_page : FeedQuery → Tables → List (FeedItem fl.F)
  front_page q t =
      page
        (sort_by_score fl (query_feed (build_filter q.topic q.subtype q.include_nsfw) q.now_unix t))
        q.limit q.offset

  unfoldable pub new_feed : FeedQuery → Tables → List (FeedItem fl.F)
  new_feed q t =
      page
        (sort_by_newest (query_feed (build_filter q.topic q.subtype q.include_nsfw) q.now_unix t))
        q.limit q.offset

  unfoldable pub by_topic : Bytes → ℤ → ℤ → Tables → List (FeedItem fl.F)
  by_topic topic limit offset t =
      new_feed
        (record {
          topic = some topic;
          subtype = none;
          include_nsfw = true;
          limit = limit;
          offset = offset;
          now_unix = pos 0;
        })
        t

  unfoldable pub items_by_author : Bytes → ℤ → ℤ → Tables → List (FeedItem fl.F)
  items_by_author author limit offset t =
      page
        (sort_by_newest
          (keep (λ f. bytes_beq f.author_xpk author) (query_feed (λ s. true) (pos 0) t)))
        limit offset

  unfoldable pub get_item : Bytes → Tables → Option (FeedItem fl.F)
  get_item id t = first (query_feed (λ s. bytes_beq s.item_id id) (pos 0) t)
