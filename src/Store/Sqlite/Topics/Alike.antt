-- ===== src/Store/Sqlite/Topics/Alike.antt =====
-- store/sqlite.go against store/memory.go: `ListTopics`.
use coinnews_indexer.Prelude.{
  ℕ, zero, suc, ◌<◌, ◌≡◌, refl, sym, ap, ◌∙◌, List, [], ◌∷◌, ◌++◌, All, Option, none, some,
  if◌then◌else◌, bytes_beq, bytes_eq, bytes_beq_iff, refl_beq, arith, Bool-cases, Option-cases, inl,
  inr,
}
use mathlib.Core.Option as Options
use mathlib.Core.Path.{subst}
use coinnews_indexer.Codec.Types.{Bytes, is_zero}
use coinnews_indexer.Codec.Crypto.{Crypto}
use coinnews_indexer.GoMap.{GoMap, get, put, Distinct, Holds}
use coinnews_indexer.GoMap.Laws.{get-put, Distinct-put, Holds-put, Holds-get}
use coinnews_indexer.Store.Types.{Topic}
use coinnews_indexer.Store.Ranking.{sort_topics}
use coinnews_indexer.Store.Sql.Laws.{keyed, keyed-All}
use coinnews_indexer.Store.Memory.{MemoryStore}
use coinnews_indexer.Store.Memory.Bounded.{IsBounded, ByteRetention}
use coinnews_indexer.Store.Memory.Reads as Memory
use coinnews_indexer.Store.Memory.Reads.{
  Ranges, IsRange, inserted, inserted-IsRange, by_id_loop, count_story, count_stories, values,
}
use coinnews_indexer.Store.Sqlite.Schema.{Tables, TopicRow}
use coinnews_indexer.Store.Sqlite.Refines.{Stored, topic_of, story_of}
use coinnews_indexer.Store.Sqlite.Topics.Counts.{
  keys, keys-put_new, in_order-values, in_order-same, more, stories_on, get-count_stories,
  count_stories-keeps, counted, Distinct-group, get-group, set_count, get-attach,
}
use coinnews_indexer.Store.Sqlite.Topics.{
  scan_topic, scan_topics, group_stories, attach_counts, listing, in_order, list_topics,
}

scan-topic_of : (r : TopicRow) → r.retention_days < 256 → scan_topic r ≡ topic_of r
unfolding scan_topic topic_of
scan-topic_of r h = ground (arith, h)

-- The topics that both backends list, before they are counted.
listed : List TopicRow → GoMap Bytes Topic → GoMap Bytes Topic
listed rows by_id = by_id_loop (keyed (λ r. r.topic) topic_of rows) by_id

listed_one :
    (r : TopicRow) (rows : List TopicRow) (by_id : GoMap Bytes Topic)
    → listed (r ∷ rows) by_id
      ≡ listed rows (if is_zero r.topic then by_id else put by_id r.topic (topic_of r))
unfolding listed by_id_loop keyed topic_of
listed_one r rows by_id = refl

abbrev ByteRow : TopicRow → Type 0
ByteRow r = r.retention_days < 256

-- What stands in the map while the rows are scanned.
record IsListing (rows : List TopicRow) (by_id : GoMap Bytes Topic) : Type 0 where
  distinct : Distinct by_id
  fresh :
      (k : Bytes) (t : Topic)
      → get by_id k ≡ some t
      → get (keyed (λ r. r.topic) topic_of rows) k ≡ none
  zero : Holds (λ k t. t.story_count ≡ 0) by_id

module _ (r : TopicRow) (rows : List TopicRow) (by_id : GoMap Bytes Topic)
    (d : Distinct (keyed (λ r. r.topic) topic_of (r ∷ rows))) (l : IsListing (r ∷ rows) by_id) where
  new_key : get by_id r.topic ≡ none
  unfolding keyed get
  new_key = elim (Option-cases (get by_id r.topic)) [
    | inl e ↦ e
    | inr (t, e) ↦ ground (arith, l.fresh r.topic t e, refl_beq r.topic)
  ]

  still_fresh :
      (k : Bytes) (t : Topic)
      → get by_id k ≡ some t
      → get (keyed (λ r. r.topic) topic_of rows) k ≡ none
  unfolding keyed get
  still_fresh k t e = ground (arith, l.fresh k t e)

  skipped-IsListing : IsListing rows by_id
  skipped-IsListing = record { distinct = l.distinct; fresh = still_fresh; zero = l.zero }

  added-IsListing : IsListing rows (put by_id r.topic (topic_of r))
  unfolding keyed topic_of
  added-IsListing = record {
    distinct = Distinct-put by_id r.topic (topic_of r) l.distinct;
    fresh = λ k t e. elim (Bool-cases (bytes_beq r.topic k)) [
      | inl same ↦ rw ((bytes_beq_iff r.topic k).0 same) at d.0
      | inr other ↦ still_fresh k t (rw (get-put by_id r.topic k (topic_of r), other) at e)
    ];
    zero = Holds-put _ by_id r.topic (topic_of r) refl l.zero;
  }

-- What the first loop leaves.
record IsScan (l : GoMap Bytes Topic) (r : GoMap Bytes Topic × List Bytes) : Type 0 where
  same : r.0 ≡ l
  order : r.1 ≡ keys l
  distinct : Distinct l
  zero : Holds (λ k t. t.story_count ≡ 0) l

scan_topics-IsScan :
    (rows : List TopicRow) (by_id : GoMap Bytes Topic) (order : List Bytes)
    → All ByteRow rows
    → Distinct (keyed (λ r. r.topic) topic_of rows)
    → IsListing rows by_id
    → order ≡ keys by_id
    → IsScan (listed rows by_id) (scan_topics rows by_id order)
unfolding scan_topics listed by_id_loop keyed topic_of
scan_topics-IsScan [] by_id order b d l h = record {
  same = refl;
  order = h;
  distinct = l.distinct;
  zero = l.zero;
}
scan_topics-IsScan (r ∷ rows) by_id order (small, b) d l h = elim (Bool-cases (is_zero r.topic)) [
  | inl z ↦
      rw (listed_one r rows by_id, z)
        (scan_topics-IsScan rows by_id order b d.1 (skipped-IsListing r rows by_id d l) h)
  | inr z ↦
      rw (listed_one r rows by_id, z, scan-topic_of r small)
        (scan_topics-IsScan rows (put by_id r.topic (topic_of r)) (order ++ (r.topic ∷ [])) b d.1
          (added-IsListing r rows by_id d l)
          (ap (λ l. l ++ (r.topic ∷ [])) h
            ∙ sym (keys-put_new by_id r.topic (topic_of r) (new_key r rows by_id d l))))
]

-- A count of stories is what both loops make of it.
same_count :
    (n : ℕ) (o : Option Topic)
    → ((t : Topic) → o ≡ some t → t.story_count ≡ 0)
    → Options.map (set_count (counted n)) o ≡ Options.map (more n) o
unfolding set_count counted more
same_count n none h = refl
same_count zero (some t) h = ground (arith, h t refl)
same_count (suc n) (some t) h = ground (arith, h t refl)

module _ (crypto : Crypto) (t : Tables) (m : MemoryStore) (s : Stored crypto t m) (b : IsBounded m)
    (d : Distinct m.topics) where
  abbrev by_id : GoMap Bytes Topic
  by_id = listed t.cn_topics []

  scanned : IsScan by_id (scan_topics t.cn_topics [] [])
  unfolding keys get topic_of
  scanned =
      scan_topics-IsScan t.cn_topics [] []
        (keyed-All (λ r. r.topic) topic_of ByteRetention t.cn_topics
          (subst (Holds ByteRetention) s.topics b.topics))
        (subst Distinct s.topics d)
        (record { distinct = tt; fresh = λ k t e. ground (arith, e); zero = tt }) refl

  abbrev counts : GoMap Bytes Topic
  counts = count_stories (keyed (λ r. r.item_id) story_of t.cn_stories) by_id

  counts-attach :
      (k : Bytes) → get (attach_counts (group_stories t.cn_stories) by_id) k ≡ get counts k
  counts-attach k =
      get-attach (group_stories t.cn_stories) by_id k (Distinct-group t.cn_stories)
      ∙ rw (get-group t.cn_stories k) (
          same_count (stories_on k t.cn_stories) (get by_id k)
            λ t e. Holds-get (λ k t. t.story_count ≡ 0) by_id k scanned.zero e)
      ∙ sym (get-count_stories t.cn_stories by_id k)

  -- On tables that hold what the in-memory backend holds, `ListTopics` of the SQLite backend does
  -- not panic and gives the list that the in-memory backend gives, if no topic is there twice and a
  -- topic's retention is a byte, a story's subtype too, and a comment's author key has 32 bytes.
  pub list_topics_alike : list_topics t ≡ some (Memory.list_topics inserted m)
  unfolding list_topics listing Memory.list_topics listed
  list_topics_alike =
      let kept =
        count_stories-keeps (keyed (λ r. r.item_id) story_of t.cn_stories) by_id scanned.distinct in
      rw (s.topics, s.stories, scanned.same, scanned.order)
        (ap (Options.map sort_topics) (
          in_order-same (keys by_id) (attach_counts (group_stories t.cn_stories) by_id) counts
            counts-attach
          ∙ subst (λ ks. in_order ks counts ≡ some (values counts)) kept.0
              (in_order-values counts kept.1)))

  -- On tables that hold what the in-memory backend holds, `ListTopics` of the SQLite backend does
  -- not panic and gives a list that the in-memory backend may give: the one for some order in which
  -- `range` meets the entries of the maps of stories and topics, where Go allows every order.
  -- Needed: no topic is there twice, a topic's retention is a byte, a story's subtype too, and a
  -- comment's author key has 32 bytes.
  pub list_topics_ranged :
      (rg : Ranges) × IsRange rg × (list_topics t ≡ some (Memory.list_topics rg m))
  list_topics_ranged = (inserted, inserted-IsRange, list_topics_alike)
