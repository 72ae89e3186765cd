-- ===== src/Store/Sqlite/Topics.antt =====
-- store/sqlite.go: `ListTopics`.
pub mod Counts
pub mod Alike
use coinnews_indexer.Prelude.{
  ℕ, suc, ◌%◌, List, [], ◌∷◌, ◌++◌, Option, none, some, if◌then◌else◌, bytes_eq,
}
use mathlib.Core.Option as Options
use coinnews_indexer.Codec.Types.{Bytes, is_zero}
use coinnews_indexer.GoMap.{GoMap, get, put}
use coinnews_indexer.Store.Types.{Topic}
use coinnews_indexer.Store.Ranking.{sort_topics}
use coinnews_indexer.Store.Sqlite.Schema.{Tables, TopicRow, StoryRow}

-- One row of cn_topics, scanned: `byte(ret)` keeps 8 bits.
unfoldable pub scan_topic : TopicRow → Topic
scan_topic r = record {
  topic = r.topic;
  name = r.name;
  retention_days = r.retention_days % 256;
  created_height = r.created_height;
  txid = r.txid;
  story_count = 0;
}

-- The first loop, with `byID` and `order`. The zero topic is not listed.
unfoldable pub scan_topics :
    List TopicRow → GoMap Bytes Topic → List Bytes → GoMap Bytes Topic × List Bytes
unfolding scan_topic
scan_topics [] by_id order = (by_id, order)
scan_topics (r ∷ rows) by_id order =
    let t = scan_topic r in
    scan_topics rows (if is_zero t.topic then by_id else put by_id t.topic t)
      (if is_zero t.topic then order else order ++ (t.topic ∷ []))

-- The count of a group that may not be there yet.
unfoldable pub count_or_zero : Option ℕ → ℕ
count_or_zero none = 0
count_or_zero (some n) = n

-- SELECT topic, COUNT(*) FROM cn_stories GROUP BY topic: one row for each topic of a story.
unfoldable pub group_stories : List StoryRow → GoMap Bytes ℕ
unfolding count_or_zero
group_stories [] = []
group_stories (s ∷ rows) =
    let groups = group_stories rows in put groups s.topic (suc (count_or_zero (get groups s.topic)))

-- `if t, ok := byID[id]; ok { t.StoryCount = cnt }`, row by row.
unfoldable pub attach_counts : GoMap Bytes ℕ → GoMap Bytes Topic → GoMap Bytes Topic
attach_counts [] by_id = by_id
attach_counts ((id, cnt) ∷ groups) by_id =
    attach_counts groups (elim (get by_id id) [
      | none ↦ by_id
      | some t ↦ put by_id id (record t { story_count = cnt })
    ])

-- `append(out, *byID[id])` for each id of `order`; `none` is a panic, on a nil pointer.
unfoldable pub consed : Option Topic → Option (List Topic) → Option (List Topic)
consed (some t) (some out) = some (t ∷ out)
consed _ _ = none

unfoldable pub in_order : List Bytes → GoMap Bytes Topic → Option (List Topic)
unfolding consed
in_order [] by_id = some []
in_order (id ∷ order) by_id = consed (get by_id id) (in_order order by_id)

-- From the rows of the first query and the groups of the second.
unfoldable pub listing : GoMap Bytes Topic × List Bytes → GoMap Bytes ℕ → Option (List Topic)
unfolding attach_counts in_order
listing r groups = Options.map sort_topics (in_order r.1 (attach_counts groups r.0))

unfoldable pub list_topics : Tables → Option (List Topic)
unfolding listing group_stories
list_topics t = listing (scan_topics t.cn_topics [] []) (group_stories t.cn_stories)
