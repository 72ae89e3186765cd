-- ===== src/Tests/Sqlite.antt =====
-- The SQLite backend at concrete inputs.
use coinnews_indexer.Prelude.{
  bytes_eq, ℕ, zero, suc, ◌≡◌, refl, [], ◌∷◌, Option, none, some, true, false, arith, bytes_beq,
  All,
}
use mathlib.Core.List.{Perm}
use coinnews_indexer.Prelude.Int.{ℤ, pos}
use coinnews_indexer.Codec.Types.{Error, external}
use coinnews_indexer.Codec.Hex.{encode_to_string, decode_string, from_hex_char, hex_digit}
use coinnews_indexer.Codec.ItemId.{item_id_from_rpc, compute_item_id}
use coinnews_indexer.GoMap.{get}
use coinnews_indexer.Store.Types.{Item, FeedQuery}
use coinnews_indexer.Store.Memory.{MemoryStore, new_memory, load_cursor}
use coinnews_indexer.Store.Memory.Backend.{memory_store}
use coinnews_indexer.Store.Sql.{find_by, any}
use coinnews_indexer.Store.Sql.Laws.{keyed}
use coinnews_indexer.Store.Sqlite.{transaction, delete_statements, sqlite_store}
use coinnews_indexer.Store.Sqlite.Schema as Schema
use coinnews_indexer.Store.Sqlite.Schema.{Tables, empty_tables}
use coinnews_indexer.Store.Sqlite.Atomic.{attempt, atomic_store}
use coinnews_indexer.Store.Sqlite.Refines.{Stored, topic_of, story_of, comment_of}
use coinnews_indexer.Store.Sqlite.Refines.Rewinds.{rewound}
use coinnews_indexer.Store.Sqlite.Refines.Engine.{settles, delete_from_height-atomic}
use coinnews_indexer.Store.Sqlite.Reads.Rows.{Readable}
use coinnews_indexer.Store.Sqlite.Thread.{has, replies, offer, walk, thread_ids}
use coinnews_indexer.Store.Sqlite.Thread.Reached.{Reached, thread_ids-Reached}
use coinnews_indexer.Store.Sqlite.Comments.{by_author}
use coinnews_indexer.Store.Sqlite.Comments.Alike.{authored-Perm}
use coinnews_indexer.Store.Memory.Thread as Thread
use coinnews_indexer.Scanner.{with_node, default_reorg_depth, run}
use coinnews_indexer.Scanner.Simulate.{Both, HasId}
use coinnews_indexer.Scanner.Backends.{Side, side}
use coinnews_indexer.Scanner.Backends.Refined.{run-refines}
use coinnews_indexer.Scanner.Backends.InMemory.{EndsAlike, new_tables, run_on_disk}
use coinnews_indexer.Tests.Data.{
  fill, a_crypto, mirror_crypto, a_floats, item_at, vote_at_height, topic_at, story_row,
  comment_row,
}
use coinnews_indexer.Tests.Scanner.{node_to}

-- An engine that runs so many statements and then fails.
abbrev pub lasts : ℕ → Option Error × ℕ
lasts zero = (some (external 13), zero)
lasts (suc n) = (none, n)

abbrev pub sound : Unit {0} → Option Error × Unit {0}
sound e = (none, e)

run-refines_example :
    Both
      (Side a_crypto lasts)
      (run a_crypto
        (sqlite_store lasts (Unit {0}))
        (with_node (node_to 1))
        default_reorg_depth
        5
        (pos 0)
        (tt, record { engine = 3; tables = empty_tables true }))
      (run a_crypto
        (atomic_store lasts (Unit {0}))
        (with_node (node_to 1))
        default_reorg_depth
        5
        (pos 0)
        (tt, record { engine = 3; tables = new_memory }))
run-refines_example =
    run-refines a_crypto lasts (node_to 1) default_reorg_depth 5 (pos 0)
      (tt, record { engine = 3; tables = empty_tables true })
      (tt, record { engine = 3; tables = new_memory })
      (side tt 3 (empty_tables true) new_memory (new_tables a_crypto true))

run_on_disk_example :
    EndsAlike a_crypto
      (run a_crypto
        (sqlite_store sound (Unit {0}))
        (with_node (node_to 1))
        default_reorg_depth
        5
        (pos 0)
        (tt, record { engine = tt; tables = empty_tables true }))
      (run a_crypto
        (memory_store (Unit {0}))
        (with_node (node_to 1))
        default_reorg_depth
        5
        (pos 0)
        (tt, new_memory))
run_on_disk_example =
    run_on_disk a_crypto sound (λ e. refl) (node_to 1) default_reorg_depth 5 (pos 0) tt tt true

abbrev db_item : ℕ → ℤ → Item
db_item i height = record (item_at i height) { txid = encode_to_string (fill 32 i) }

abbrev pub a_db : Tables
unfolding Schema.topic_row Schema.story_row Schema.comment_row
a_db = record (empty_tables true) {
  cn_items = db_item 1 (pos 5) ∷ db_item 4 (pos 6) ∷ [];
  cn_topics = Schema.topic_row (topic_at 4) ∷ [];
  cn_stories = Schema.story_row (story_row 1) ∷ [];
  cn_comments = Schema.comment_row (comment_row 4 1) ∷ [];
  cn_votes = vote_at_height 9 ∷ [];
}

abbrev pub its_memory : MemoryStore
its_memory = record new_memory {
  items = (fill 12 1, db_item 1 (pos 5)) ∷ (fill 12 4, db_item 4 (pos 6)) ∷ [];
  topics = (fill 4 7, topic_at 4) ∷ [];
  stories = (fill 12 1, story_row 1) ∷ [];
  comments = (fill 12 4, comment_row 4 1) ∷ [];
  votes = (record { target = fill 12 1; author = fill 32 2 }, vote_at_height 9) ∷ [];
}

delete_from_height-atomic_example :
    transaction lasts (delete_statements (pos 6)) (record { engine = 5; tables = a_db })
    ≡ settles lasts a_db (rewound (pos 6) a_db) (attempt lasts 8 5)
delete_from_height-atomic_example = delete_from_height-atomic lasts (pos 6) 5 a_db

db_ids : All (HasId mirror_crypto) a_db.cn_items
unfolding HasId item_id_from_rpc compute_item_id encode_to_string decode_string from_hex_char
    hex_digit a_db
db_ids = (refl, (refl, tt))

pub db-Stored : Stored mirror_crypto a_db its_memory
unfolding keyed topic_of story_of comment_of load_cursor get bytes_beq Schema.topic_row
    Schema.story_row Schema.comment_row
db-Stored = record {
  items = refl;
  topics = refl;
  stories = refl;
  comments = refl;
  votes = refl;
  cursor = refl;
  distinct = (refl, (refl, tt));
  ids = db_ids;
}

pub db-Readable : Readable a_db
unfolding find_by bytes_beq Schema.story_row Schema.comment_row a_db
db-Readable = record {
  stories = ((omega arith, λ h. ground (arith, h)), tt);
  comments = ((refl, λ h. ground (arith, h)), tt);
}

abbrev pub any_story : FeedQuery
any_story = record {
  topic = some (fill 4 7);
  subtype = none;
  include_nsfw = false;
  limit = pos 1;
  offset = pos 0;
  now_unix = pos 1700;
}

authored-Perm_example :
    Perm
      (by_author a_floats (pos 0) (fill 32 2) (pos 0) (pos 0) a_db)
      (Thread.by_author a_floats (pos 0) (fill 32 2) (pos 0) (pos 0) its_memory)
authored-Perm_example =
    authored-Perm mirror_crypto a_db its_memory db-Stored db-Readable a_floats (pos 0) (fill 32 2)

not_in_thread : has (thread_ids (fill 12 1) a_db.cn_comments) (fill 12 1) ≡ false
unfolding has thread_ids walk offer replies any bytes_beq a_db Schema.topic_row Schema.story_row
    Schema.comment_row
not_in_thread = refl

pub root_above : ¬ Reached a_db.cn_comments (fill 12 1) (fill 12 1)
root_above r =
    let there = (thread_ids-Reached (fill 12 1) a_db.cn_comments (fill 12 1)).1 r in
    cc (not_in_thread, there)
