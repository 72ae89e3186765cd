-- ===== src/Store/Sqlite.antt =====
-- store/sqlite.go: the on-disk backend, its tables (store/schema.sql) and its writes. The statements
-- are read as functions on the tables. The engine that runs them is a parameter: before each
-- statement it says whether that statement fails (a lock, the disk, a cancelled context); one that
-- fails changes nothing, and a transaction that does not commit changes nothing.
pub mod Comments
pub mod Queries
pub mod Thread
pub mod Topics
pub mod Reads
pub mod Atomic
pub mod Schema
pub mod Refines
use coinnews_indexer.Prelude.{
  ℕ, suc, zero, List, [], ◌∷◌, ◌++◌, Option, none, some, Bool, true, false, not, ◌||◌, ◌&&◌,
  if◌then◌else◌, ltb, ◌==◌, keep, bytes_eq, bytes_beq,
}
use coinnews_indexer.Prelude.Int.{ℤ, pos, lez, ltz, eqz}
use coinnews_indexer.Codec.Types.{Bytes, Error, external, Result, ok, err}
use coinnews_indexer.Store.Types.{
  Item, Topic, Story, Comment, Vote, Continuation, VoteKey, vote_key_eq,
}
use coinnews_indexer.Store.Sql.{find_by, upsert, any}
use coinnews_indexer.Store.Interface.{Store, Io, ◌>>=◌, ◌>>◌}
use Schema.{
  Tables, TopicRow, StoryRow, CommentRow, topic_row, story_row, comment_row, vote_key_of, chunk_key,
  pair_eq,
}

-- A database of tables `T`, run by an engine in a state of `E`.
pub record Db (E T : Type 0) : Type 0 where
  pub engine : E
  pub tables : T

-- SQLITE_CONSTRAINT
abbrev pub constraint : Error
constraint = external 19

module _ {E : Type 0} (engine : E → Option Error × E) where
  -- What the statement gives, once the engine has run it.
  abbrev pub outcome : {T A : Type 0} → Db E T → Result (A × T) → Result A × Db E T
  outcome s (ok (a, t)) = (ok a, record s { tables = t })
  outcome s (err x) = (err x, s)

  abbrev pub ran : {T A : Type 0} → Db E T → Option Error → (T → Result (A × T)) → Result A × Db E T
  ran s (some x) f = (err x, s)
  ran s none f = outcome s (f s.tables)

  -- `ExecContext` and `QueryRowContext`
  unfoldable pub statement : {T A : Type 0} → (T → Result (A × T)) → Io (Db E T) A
  statement f s = let r = engine s.engine in ran (record s { engine = r.1 }) r.0 f

  -- Statements one after the other, up to the first that fails.
  unfoldable pub all_of : {T : Type 0} → List (T → Result (Unit {0} × T)) → Io (Db E T) (Unit {0})
  all_of [] s = (ok tt, s)
  all_of (f ∷ fs) s = (statement f >> all_of fs) s

  -- `defer tx.Rollback()`: without a commit the tables are as they were.
  abbrev pub rolled_back :
      {T : Type 0} → T → Result (Unit {0}) × Db E T → Result (Unit {0}) × Db E T
  rolled_back before (ok _, s) = (ok tt, s)
  rolled_back before (err x, s) = (err x, record s { tables = before })

  -- BEGIN and COMMIT, which may fail as any statement may.
  abbrev pub boundary : {T : Type 0} → T → Result (Unit {0} × T)
  boundary t = ok (tt, t)

  unfoldable pub transaction :
      {T : Type 0} → List (T → Result (Unit {0} × T)) → Io (Db E T) (Unit {0})
  transaction fs s = rolled_back s.tables (all_of (boundary ∷ (fs ++ (boundary ∷ []))) s)

-- INSERT INTO cn_scanner_cursor ... ON CONFLICT(id) DO UPDATE. The table has the row of id 1 at most.
unfoldable pub save_cursor : ℤ → Bytes → Tables → Result (Unit {0} × Tables)
save_cursor height hash t = ok (tt, record t { cn_scanner_cursor = some (height, hash) })

abbrev pub cursor_found : Option (ℤ × Bytes) → ℤ × Bytes × Bool
cursor_found none = (pos 0, [], false)
cursor_found (some (h, hash)) = (h, hash, true)

unfoldable pub load_cursor : Tables → Result ((ℤ × Bytes × Bool) × Tables)
load_cursor t = ok (cursor_found t.cn_scanner_cursor, t)

-- item_id IN (SELECT item_id FROM cn_items WHERE block_height >= ?)
unfoldable pub gone : ℤ → List Item → Bytes → Bool
gone height items id = any (λ it. lez height it.height && bytes_beq it.id id) items

unfoldable pub delete_stories : ℤ → Tables → Result (Unit {0} × Tables)
delete_stories h t =
    ok (tt, record t { cn_stories = keep (λ s. not (gone h t.cn_items s.item_id)) t.cn_stories })

unfoldable pub delete_comments : ℤ → Tables → Result (Unit {0} × Tables)
delete_comments h t =
    ok (tt, record t { cn_comments = keep (λ c. not (gone h t.cn_items c.item_id)) t.cn_comments })

unfoldable pub delete_votes : ℤ → Tables → Result (Unit {0} × Tables)
delete_votes h t = ok (tt, record t { cn_votes = keep (λ v. not (lez h v.height)) t.cn_votes })

unfoldable pub delete_continuations : ℤ → Tables → Result (Unit {0} × Tables)
delete_continuations h t =
    ok (tt, record t { cn_continuations = keep (λ c. not (lez h c.height)) t.cn_continuations })

unfoldable pub delete_topics : ℤ → Tables → Result (Unit {0} × Tables)
delete_topics h t =
    ok (tt, record t { cn_topics = keep (λ r. not (lez h r.created_height)) t.cn_topics })

-- Foreign keys: no story and no comment may refer to an item that goes.
unfoldable pub delete_items : ℤ → Tables → Result (Unit {0} × Tables)
delete_items h t =
    if t.foreign_keys
      && (any (λ s. gone h t.cn_items s.item_id) t.cn_stories
          || any (λ c. gone h t.cn_items c.item_id) t.cn_comments)
    then err constraint
    else ok (tt, record t { cn_items = keep (λ it. not (lez h it.height)) t.cn_items })

-- The six statements of `DeleteFromHeight`.
unfoldable pub delete_statements : ℤ → List (Tables → Result (Unit {0} × Tables))
delete_statements h =
    delete_stories h
    ∷ delete_comments h
    ∷ delete_votes h
    ∷ delete_continuations h
    ∷ delete_topics h
    ∷ delete_items h
    ∷ []

-- ON CONFLICT(item_id) DO NOTHING, and UNIQUE (txid, vout).
unfoldable pub put_item : Item → Tables → Result (Unit {0} × Tables)
put_item it t = elim (find_by (λ r. r.id) t.cn_items it.id) [
  | some _ ↦ ok (tt, t)
  | none ↦
      if any (λ r. bytes_beq r.txid it.txid && (r.vout == it.vout)) t.cn_items
      then err constraint
      else ok (tt, record t { cn_items = t.cn_items ++ (it ∷ []) })
]

-- Whether a row was inserted: RowsAffected() > 0.
unfoldable pub insert_topic_if_absent : Topic → Tables → Result (Bool × Tables)
insert_topic_if_absent topic t = elim (find_by (λ r. r.topic) t.cn_topics topic.topic) [
  | some _ ↦ ok (false, t)
  | none ↦ ok (true, record t { cn_topics = t.cn_topics ++ (topic_row topic ∷ []) })
]

-- REFERENCES cn_items(item_id), where foreign keys are enforced.
unfoldable pub no_item : Bytes → Tables → Bool
no_item id t = t.foreign_keys && not (any (λ it. bytes_beq it.id id) t.cn_items)

unfoldable pub put_story : Story → Tables → Result (Unit {0} × Tables)
put_story s t = elim (find_by (λ r. r.item_id) t.cn_stories s.id) [
  | some _ ↦ ok (tt, t)
  | none ↦
      if no_item s.id t
      then err constraint
      else ok (tt, record t { cn_stories = t.cn_stories ++ (story_row s ∷ []) })
]

unfoldable pub put_comment : Comment → Tables → Result (Unit {0} × Tables)
put_comment c t = elim (find_by (λ r. r.item_id) t.cn_comments c.id) [
  | some _ ↦ ok (tt, t)
  | none ↦
      if no_item c.id t
      then err constraint
      else ok (tt, record t { cn_comments = t.cn_comments ++ (comment_row c ∷ []) })
]

-- The WHERE guard of the upsert.
unfoldable pub later : Vote → Vote → Bool
later new old =
    ltz old.height new.height
    || ((eqz new.height old.height && ltb old.tx_index new.tx_index)
        || (eqz new.height old.height
            && ((new.tx_index == old.tx_index) && ltb old.vout_index new.vout_index)))

unfoldable pub put_vote : Vote → Tables → Result (Unit {0} × Tables)
put_vote v t = ok (tt, record t { cn_votes = upsert vote_key_of later v t.cn_votes })

-- ON CONFLICT(head_id, seq) DO NOTHING
unfoldable pub put_continuation : Continuation → Tables → Result (Unit {0} × Tables)
put_continuation c t = elim (find_by chunk_key t.cn_continuations (chunk_key c)) [
  | some _ ↦ ok (tt, t)
  | none ↦ ok (tt, record t { cn_continuations = t.cn_continuations ++ (c ∷ []) })
]

-- `scanItem`: a type tag is a byte when it is written, so that it reads back as it is.
unfoldable pub item_by_outpoint : Bytes → ℕ → Tables → Result (Option Item × Tables)
item_by_outpoint txid vout t =
    ok (find_by {K = Bytes × ℕ} (λ r. (r.txid, r.vout)) t.cn_items (txid, vout), t)

unfoldable pub item_by_id : Bytes → Tables → Result (Option Item × Tables)
item_by_id id t = ok (find_by (λ r. r.id) t.cn_items id, t)

-- A call of the store, beside whatever else there is.
abbrev pub on_db : {N S A : Type 0} → Io S A → Io (N × S) A
on_db f w = let r = f w.1 in (r.0, (w.0, r.1))

-- `var _ Store = (*SQLiteStore)(nil)`
abbrev pub sqlite_store :
    {E : Type 0} → (E → Option Error × E) → (N : Type 0) → Store (N × Db E Tables)
sqlite_store engine N = record {
  save_cursor = λ height hash. on_db (statement engine (save_cursor height hash));
  load_cursor = on_db (statement engine load_cursor);
  delete_from_height = λ height. on_db (transaction engine (delete_statements height));
  put_item = λ it. on_db (statement engine (put_item it));
  insert_topic_if_absent = λ t. on_db (statement engine (insert_topic_if_absent t));
  put_story = λ s. on_db (statement engine (put_story s));
  put_comment = λ c. on_db (statement engine (put_comment c));
  put_vote = λ v. on_db (statement engine (put_vote v));
  put_continuation = λ c. on_db (statement engine (put_continuation c));
  item_by_id = λ id. on_db (statement engine (item_by_id id));
}
