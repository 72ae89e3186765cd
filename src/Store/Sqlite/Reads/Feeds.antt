-- ===== src/Store/Sqlite/Reads/Feeds.antt =====
-- store/sqlite.go against store/memory.go: the feeds.
use coinnews_indexer.Prelude.{
  ℕ, ◌≡◌, refl, sym, ap, ◌∙◌, List, [], ◌∷◌, All, none, Option, some, true, map, keep, bytes_beq,
  bytes_eq, bytes_beq_iff, Bool-cases, Option-cases, inl, inr,
}
use mathlib.Core.Option as Options
use coinnews_indexer.Prelude.Int.{ℤ, pos}
use coinnews_indexer.Codec.Types.{Bytes}
use coinnews_indexer.Codec.Crypto.{Crypto}
use coinnews_indexer.GoMap.{get}
use coinnews_indexer.Store.Types.{Story, FeedQuery, FeedItem, vote_key_eq}
use coinnews_indexer.Store.Ranking.{
  Floats, resolve_now, sort_by_score, sort_by_newest, by_score, by_newest, page,
}
use coinnews_indexer.Store.Ranking.Mapped.{page-map, keep-map}
use coinnews_indexer.Store.Sort.Mapped.{slice_stable-map}
use coinnews_indexer.Store.Sort.First.{first}
use coinnews_indexer.Store.Sql.{find_by}
use coinnews_indexer.Store.Sql.Laws.{keyed}
use coinnews_indexer.Store.Memory.{MemoryStore, item_or_zero}
use coinnews_indexer.Store.Memory.Reads as Memory
use coinnews_indexer.Store.Memory.Reads.{
  inserted, zero_key, tally, comment_count, first_comment_author, item_before,
}
use coinnews_indexer.Store.Memory.Reads.Rows.{rows, build_feed_lem}
use coinnews_indexer.Store.Sqlite.Schema.{Tables, StoryRow}
use coinnews_indexer.Store.Sqlite.Refines.{Stored, story_of}
use coinnews_indexer.Store.Sqlite.Reads.Rows.{
  Readable, Listed, retag, found_item, row-feed_item, filter-passes, select-rows,
}
use coinnews_indexer.Store.Sqlite.Reads.{
  get_item, build_filter, select_feed, query_feed, front_page, new_feed, by_topic, items_by_author,
}

module _ (fl : Floats) where
  sort_by_score-retag :
      (l : List (FeedItem fl.F)) → sort_by_score fl (map retag l) ≡ map retag (sort_by_score fl l)
  unfolding sort_by_score
  sort_by_score-retag = slice_stable-map retag (by_score fl) (by_score fl) (λ x y. refl)

  sort_by_newest-retag :
      (l : List (FeedItem fl.F)) → sort_by_newest (map retag l) ≡ map retag (sort_by_newest l)
  unfolding sort_by_newest
  sort_by_newest-retag = slice_stable-map retag by_newest by_newest (λ x y. refl)

module _ (crypto : Crypto) (t : Tables) (m : MemoryStore) (s : Stored crypto t m) (ok : Readable t)
    (fl : Floats) (clock : ℤ) where
  topic-retag :
      (o : Option Bytes) (f : FeedItem fl.F)
      → Memory.matches_topic fl clock o f ≡ Memory.matches_topic fl clock o (retag f)
  unfolding Memory.matches_topic
  topic-retag none f = refl
  topic-retag (some x) f = refl

  subtype-retag :
      (o : Option ℕ) (f : FeedItem fl.F)
      → Memory.matches_subtype fl clock o f ≡ Memory.matches_subtype fl clock o (retag f)
  unfolding Memory.matches_subtype
  subtype-retag none f = refl
  subtype-retag (some x) f = refl

  passes-retag :
      (q : FeedQuery) (f : FeedItem fl.F)
      → Memory.passes fl clock q f ≡ Memory.passes fl clock q (retag f)
  unfolding Memory.passes
  passes-retag q f = rw (topic-retag q.topic f, subtype-retag q.subtype f) refl

  query-filtered_feed :
      (q : FeedQuery)
      → query_feed fl clock (build_filter q.topic q.subtype q.include_nsfw) q.now_unix t
        ≡ map retag (Memory.filtered_feed fl clock inserted q m)
  unfolding query_feed Memory.filtered_feed
  query-filtered_feed q = sym (
      ap (λ l. map retag (keep (Memory.passes fl clock q) l))
        (build_feed_lem fl clock inserted (resolve_now clock q.now_unix) m
          ∙ ap (rows fl clock m (resolve_now clock q.now_unix)) s.stories)
      ∙ select-rows crypto t m s ok fl clock _ _ (resolve_now clock q.now_unix) t.cn_stories
          ok.stories (passes-retag q)
          (filter-passes crypto t m s ok fl clock q (resolve_now clock q.now_unix)))

  -- On tables that hold what the in-memory backend holds, `FrontPage` and `NewFeed` of the SQLite
  -- backend give the lists that those of the in-memory backend give, for every query, each item with
  -- the tag of a story, if each story's subtype is a byte, each comment's author key has 32 bytes,
  -- and each has its item.
  pub feeds_alike :
      (q : FeedQuery)
      → (front_page fl clock q t ≡ map retag (Memory.front_page fl clock inserted q m))
        × (new_feed fl clock q t ≡ map retag (Memory.new_feed fl clock inserted q m))
  unfolding front_page Memory.front_page new_feed Memory.new_feed
  feeds_alike q = (
    ap (λ l. page (sort_by_score fl l) q.limit q.offset) (query-filtered_feed q)
        ∙ ap (λ l. page l q.limit q.offset) (sort_by_score-retag fl _)
        ∙ page-map retag _ q.limit q.offset,
    ap (λ l. page (sort_by_newest l) q.limit q.offset) (query-filtered_feed q)
        ∙ ap (λ l. page l q.limit q.offset) (sort_by_newest-retag fl _)
        ∙ page-map retag _ q.limit q.offset,
  )

  pub by_topic_alike :
      (topic : Bytes) (limit offset : ℤ)
      → by_topic fl clock topic limit offset t
        ≡ map retag (Memory.by_topic fl clock inserted topic limit offset m)
  unfolding by_topic Memory.by_topic
  by_topic_alike topic limit offset = (feeds_alike _).1

  keep_all : (l : List (FeedItem fl.F)) → keep (λ f. true) l ≡ l
  keep_all [] = refl
  keep_all (f ∷ l) = ap (λ r. f ∷ r) (keep_all l)

  -- On tables that hold what the in-memory backend holds, `ItemsByAuthor` of the SQLite backend
  -- gives the list that the in-memory backend gives, for every author, limit and offset, each item
  -- with the tag of a story, if each story's subtype is a byte, each comment's author key has 32
  -- bytes, and each has its item.
  pub items_by_author_alike :
      (author : Bytes) (limit offset : ℤ)
      → items_by_author fl clock author limit offset t
        ≡ map retag (Memory.items_by_author fl clock inserted author limit offset m)
  unfolding items_by_author Memory.items_by_author query_feed
  items_by_author_alike author limit offset =
      let now = resolve_now clock (pos 0) in
      let mine = λ (f : FeedItem fl.F). bytes_beq f.author_xpk author in
      ap (λ l. page (sort_by_newest (keep mine l)) limit offset)
        (sym (
          ap (map retag) (
            build_feed_lem fl clock inserted now m
            ∙ ap (rows fl clock m now) s.stories
            ∙ sym (keep_all (rows fl clock m now (keyed (λ r. r.item_id) story_of t.cn_stories))))
          ∙ select-rows crypto t m s ok fl clock (λ r. true) (λ f. true) now t.cn_stories ok.stories
              (λ f. refl) (λ r it h. refl)))
      ∙ ap (λ l. page (sort_by_newest l) limit offset)
          (keep-map retag mine mine (λ f. refl) (Memory.build_feed fl clock inserted now m))
      ∙ ap (λ l. page l limit offset) (sort_by_newest-retag fl _)
      ∙ page-map retag _ limit offset

  first_found :
      (now : ℤ) (id : Bytes) (rs : List StoryRow)
      → All (Listed crypto t m s ok fl clock) rs
      → first (select_feed fl clock (λ r. bytes_beq r.item_id id) t now rs)
        ≡ Options.map
            (λ row. retag (Memory.feed_item fl clock m now id row (item_or_zero (get m.items id))))
            (get (keyed (λ r. r.item_id) story_of rs) id)
  unfolding select_feed keyed get item_or_zero
  first_found now id [] h = refl
  first_found now id (r ∷ rs) (hr, h) = elim (Bool-cases (bytes_beq r.item_id id)) [
    | inr other ↦ rw other (first_found now id rs h)
    | inl same ↦
        let q = (bytes_beq_iff r.item_id id).0 same in
        elim (Option-cases (find_by (λ x. x.id) t.cn_items r.item_id)) [
          | inl gone ↦ absurd (hr.1 gone)
          | inr (it, found) ↦
              let there = found_item crypto t m s r.item_id (some it) found in
              rw (same, found, sym q, there)
                (ap some (sym (row-feed_item crypto t m s ok fl clock now r it hr found)))
        ]
  ]

  same_story :
      (id : Bytes) (o : Option Story)
      → get m.stories id ≡ o
      → Options.map
          (λ row. retag (
            Memory.feed_item fl clock m
              (resolve_now clock (pos 0))
              id
              row
              (item_or_zero (get m.items id))))
          (get m.stories id)
        ≡ Options.map retag (Memory.get_item fl clock id m)
  unfolding Memory.get_item
  same_story id none e = rw (Memory.get_item, e) refl
  same_story id (some row) e = rw (Memory.get_item, e) refl

  -- On tables that hold what the in-memory backend holds, `GetItem` of the SQLite backend gives
  -- what the in-memory backend gives for every id, with the tag of a story, if each story's subtype
  -- is a byte, each comment's author key has 32 bytes, and each has its item.
  pub get_item_alike :
      (id : Bytes) → get_item fl clock id t ≡ Options.map retag (Memory.get_item fl clock id m)
  unfolding get_item query_feed
  get_item_alike id =
      first_found (resolve_now clock (pos 0)) id t.cn_stories ok.stories
      ∙ ap
          (λ l.
            Options.map
              (λ row. retag (
                Memory.feed_item fl clock m (resolve_now clock (pos 0)) id row
                  (item_or_zero (get m.items id))))
              (get l id))
          (sym s.stories)
      ∙ same_story id (get m.stories id) refl
