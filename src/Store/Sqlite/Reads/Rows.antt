-- ===== src/Store/Sqlite/Reads/Rows.antt =====
-- store/sqlite.go against store/memory.go: the rows of the feeds.
use coinnews_indexer.Prelude.{
  ℕ, ◌%◌, ◌<◌, ◌≡◌, ◌≢◌, refl, sym, ap, ◌∙◌, List, [], ◌∷◌, All, Option, none, some, Bool, true,
  false, not, ◌&&◌, if◌then◌else◌, ◌==◌, length, keep, bytes_beq, bytes_eq, bytes_beq_iff, map,
  arith, Bool-cases, Option-cases, inl, inr,
}
use coinnews_indexer.Prelude.Int.{ℤ}
use coinnews_indexer.Codec.Types.{Bytes, type_story}
use coinnews_indexer.Codec.Crypto.{Crypto}
use coinnews_indexer.GoMap.{get}
use coinnews_indexer.Store.Types.{Item, Vote, FeedQuery, FeedItem, vote_key_eq}
use coinnews_indexer.Store.Ranking.{Floats, rank_score}
use coinnews_indexer.Store.Sort.{slice_stable}
use coinnews_indexer.Store.Sort.First.{first, slice_stable-All}
use coinnews_indexer.Store.Sql.{find_by, count}
use coinnews_indexer.Store.Sql.Laws.{keyed, read_row, get-keyed}
use coinnews_indexer.Store.Memory.{MemoryStore, item_or_zero}
use coinnews_indexer.Store.Memory.Reads as Memory
use coinnews_indexer.Store.Memory.Reads.{
  zero_key, tally, comment_count, first_comment_author, item_before,
}
use coinnews_indexer.Store.Memory.Reads.Tallies.{votes_for, tally_lem}
use coinnews_indexer.Store.Memory.Reads.Rows.{
  children, comment_count_lem, candidates, author_of, first_comment_author_lem, rows,
}
use coinnews_indexer.Store.Sqlite.Schema.{Tables, StoryRow, CommentRow, vote_key_of, coalesce}
use coinnews_indexer.Store.Sqlite.Refines.{Stored, story_of, comment_of}
use coinnews_indexer.Store.Sqlite.Reads.{
  points, ccount, joined, by_position, first_author, scan_author, on_topic, on_subtype,
  build_filter, feed_row, select_feed,
}

-- What the scanner writes: a story has a subtype that is a byte, a comment an author of 32 bytes, and
-- both have their item.
pub record Readable (t : Tables) : Type 0 where
  pub stories :
      All (λ s. (s.subtype < 256) × (find_by (λ r. r.id) t.cn_items s.item_id ≢ none)) t.cn_stories
  pub comments :
      All
        (λ c. (length c.author_xpk ≡ 32) × (find_by (λ r. r.id) t.cn_items c.item_id ≢ none))
        t.cn_comments

-- The SQLite backend does not read the tag of an item: each row of a feed has the tag of a story.
abbrev pub retag : {F : Type 0} → FeedItem F → FeedItem F
retag f = record f { item = record f.item { type_tag = type_story } }

votes_for-count :
    (kind : ℕ) (id : Bytes) (votes : List Vote)
    → votes_for kind id (keyed vote_key_of (λ v. v) votes)
      ≡ count (λ v. bytes_beq v.target_id id && (v.kind == kind)) votes
unfolding votes_for keyed count
votes_for-count kind id [] = refl
votes_for-count kind id (v ∷ votes) = ground (arith, votes_for-count kind id votes)

children-count :
    (id : Bytes) (cs : List CommentRow)
    → children id (keyed (λ r. r.item_id) comment_of cs) ≡ count (λ c. bytes_beq c.parent_id id) cs
unfolding children keyed count comment_of
children-count id [] = refl
children-count id (c ∷ cs) = ground (arith, children-count id cs)

find-id :
    (items : List Item) (id : Bytes) (it : Item)
    → find_by (λ r. r.id) items id ≡ some it
    → it.id ≡ id
unfolding find_by
find-id [] id it h = ground (arith, h)
find-id (r ∷ items) id it h = elim (Bool-cases (bytes_beq r.id id)) [
  | inl e ↦ let q : some r ≡ some it = rw e at h in ap id_of (sym q) ∙ (bytes_beq_iff r.id id).0 e
  | inr e ↦ find-id items id it (rw e at h)
]
  where
    id_of : Option Item → Bytes
    id_of none = []
    id_of (some x) = x.id

pub found_item :
    (crypto : Crypto) (t : Tables) (m : MemoryStore)
    → Stored crypto t m
    → (id : Bytes) (o : Option Item) → find_by (λ r. r.id) t.cn_items id ≡ o
    → get m.items id ≡ o
found_item crypto t m s id o h =
    ap (λ l. get l id) s.items
    ∙ get-keyed (λ r. r.id) (λ r. r) t.cn_items id
    ∙ ap (read_row (λ r. r.id) (λ r. r)) h
    ∙ itself o
  where
    itself : (x : Option Item) → read_row (λ r. r.id) (λ r. r) x ≡ x
    itself none = refl
    itself (some it) = refl

module _ (crypto : Crypto) (t : Tables) (m : MemoryStore) (s : Stored crypto t m)
    (ok : Readable t) where
  pub points-tally : (id : Bytes) → tally id m ≡ points id t
  unfolding points
  points-tally id =
      tally_lem id m
      ∙ rw (s.votes, votes_for-count 4 id t.cn_votes, votes_for-count 5 id t.cn_votes) refl

  ccount-comment_count : (id : Bytes) → comment_count id m ≡ ccount id t
  unfolding ccount
  ccount-comment_count id =
      comment_count_lem id m ∙ ap (children id) s.comments ∙ children-count id t.cn_comments

  abbrev pub Scannable : CommentRow → Type 0
  Scannable c = (length c.author_xpk ≡ 32) × (find_by (λ r. r.id) t.cn_items c.item_id ≢ none)

  joined-candidates :
      (id : Bytes) (cs : List CommentRow)
      → All Scannable cs
      → candidates m.items id (keyed (λ r. r.item_id) comment_of cs) ≡ joined id t.cn_items cs
  unfolding candidates keyed joined comment_of item_or_zero
  joined-candidates id [] h = refl
  joined-candidates id (c ∷ cs) ((l, there), h) =
      elim (Option-cases (find_by (λ r. r.id) t.cn_items c.item_id)) [
        | inl e ↦ absurd (there e)
        | inr (it, e) ↦
            rw (found_item crypto t m s c.item_id (some it) e, e, joined-candidates id cs h) refl
      ]

  joined-sized :
      (id : Bytes) (cs : List CommentRow)
      → All Scannable cs
      → All (λ p. length p.1 ≡ 32) (joined id t.cn_items cs)
  unfolding joined
  joined-sized id [] h = tt
  joined-sized id (c ∷ cs) ((l, there), h) = elim (Bool-cases (bytes_beq c.parent_id id)) [
    | inr e ↦ rw e (joined-sized id cs h)
    | inl e ↦ elim (Option-cases (find_by (λ r. r.id) t.cn_items c.item_id)) [
      | inl q ↦ absurd (there q)
      | inr (it, q) ↦ rw (e, q) (l, joined-sized id cs h)
    ]
  ]

  scanned :
      (l : List (Item × Bytes))
      → All (λ p. length p.1 ≡ 32) l
      → author_of (first l) ≡ scan_author (first l)
  scanned [] h = refl
  scanned ((it, a) ∷ l) (ha, h) = ground (arith, ha)

  author-first : (id : Bytes) → first_comment_author id m ≡ scan_author (first_author id t)
  unfolding first_author item_before
  author-first id =
      first_comment_author_lem id m
      ∙ ap (λ l. author_of (first (slice_stable by_position l)))
          (ap (λ l. candidates m.items id l) s.comments
            ∙ joined-candidates id t.cn_comments ok.comments)
      ∙ scanned (slice_stable by_position (joined id t.cn_items t.cn_comments)) (
          slice_stable-All by_position (λ p. length p.1 ≡ 32) (joined id t.cn_items t.cn_comments)
            (joined-sized id t.cn_comments ok.comments))

  module _ (fl : Floats) (clock : ℤ) where
    abbrev pub Listed : StoryRow → Type 0
    Listed r = (r.subtype < 256) × (find_by (λ x. x.id) t.cn_items r.item_id ≢ none)

    byte_kept : (n : ℕ) → n < 256 → n % 256 ≡ n
    byte_kept n h = omega (arith, h)

    pub row-feed_item :
        (now : ℤ) (r : StoryRow) (it : Item)
        → Listed r
        → find_by (λ x. x.id) t.cn_items r.item_id ≡ some it
        → retag (Memory.feed_item fl clock m now r.item_id (story_of r) it)
          ≡ feed_row fl clock t now r it
    unfolding Memory.feed_item feed_row story_of
    row-feed_item now r it (small, there) h =
        let same = find-id t.cn_items r.item_id it h in
        rw
          (
            points-tally r.item_id,
            ccount-comment_count r.item_id,
            author-first r.item_id,
            byte_kept r.subtype small,
          )
          (ap
            (λ i. record {
              item = i;
              topic = r.topic;
              headline = r.headline;
              url = coalesce r.url;
              body = coalesce r.body;
              lang = coalesce r.lang;
              subtype = r.subtype;
              nsfw = not (r.nsfw == 0);
              author_xpk = scan_author (first_author r.item_id t);
              points = points r.item_id t;
              comment_count = ccount r.item_id t;
              score = rank_score fl (points r.item_id t) now it.block_time;
            })
            (ground (arith, same)))

    -- The filter on the rows is the filter on the feed.
    pub filter-passes :
        (q : FeedQuery) (now : ℤ) (r : StoryRow) (it : Item)
        → Listed r
        → Memory.passes fl clock q (feed_row fl clock t now r it)
          ≡ build_filter q.topic q.subtype q.include_nsfw r
    unfolding Memory.passes Memory.matches_topic Memory.matches_subtype build_filter feed_row
    filter-passes q now r it (small, there) =
        rw (topic_agrees q.topic, subtype_agrees q.subtype) (ground arith)
      where
        topic_agrees :
            (o : Option Bytes)
            → Memory.matches_topic fl clock o (feed_row fl clock t now r it) ≡ on_topic o r
        topic_agrees none = refl
        topic_agrees (some x) = refl

        subtype_agrees :
            (o : Option ℕ)
            → Memory.matches_subtype fl clock o (feed_row fl clock t now r it) ≡ on_subtype o r
        subtype_agrees none = refl
        subtype_agrees (some n) = rw (byte_kept r.subtype small) refl

    listed_row :
        (b c : Bool) (f g : FeedItem fl.F) (l : List (FeedItem fl.F)) (r : List (FeedItem fl.F))
        → b ≡ c
        → retag f ≡ g
        → map retag l ≡ r
        → map retag (if b then f ∷ l else l) ≡ (if c then g ∷ r else r)
    listed_row b true f g l r e q h = rw e (ap2 q h)
      where
        ap2 : retag f ≡ g → map retag l ≡ r → retag f ∷ map retag l ≡ g ∷ r
        ap2 q h = cc
    listed_row b false f g l r e q h = rw e h

    pub select-rows :
        (test : StoryRow → Bool) (keeps : FeedItem fl.F → Bool) (now : ℤ) (rs : List StoryRow)
        → All Listed rs
        → ((f : FeedItem fl.F) → keeps f ≡ keeps (retag f))
        → ((r : StoryRow) (it : Item) → Listed r → keeps (feed_row fl clock t now r it) ≡ test r)
        → map retag (keep keeps (rows fl clock m now (keyed (λ r. r.item_id) story_of rs)))
          ≡ select_feed fl clock test t now rs
    unfolding rows keyed select_feed
    select-rows test keeps now [] h blind k = refl
    select-rows test keeps now (r ∷ rs) (hr, h) blind k =
        elim (Option-cases (find_by (λ x. x.id) t.cn_items r.item_id)) [
          | inl e ↦ absurd (hr.1 e)
          | inr (it, e) ↦
              let tail = select-rows test keeps now rs h blind k in
              let row = row-feed_item now r it hr e in
              rw (rows, select_feed, found_item crypto t m s r.item_id (some it) e, e)
                (listed_row _ _ _ _ _ _ (blind _ ∙ ap keeps row ∙ k r it hr) row tail)
        ]
