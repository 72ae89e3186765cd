-- ===== src/Store/Sqlite/Thread.antt =====
-- store/sqlite.go: `Thread`, the comments below an item.
pub mod Reached
pub mod Alike
use coinnews_indexer.Prelude.{
  ℕ, zero, suc, List, [], ◌∷◌, ◌++◌, Bool, if◌then◌else◌, map, keep, length, bytes_beq,
}
use coinnews_indexer.Prelude.Int.{ℤ, pos}
use coinnews_indexer.Codec.Types.{Bytes}
use coinnews_indexer.Store.Types.{Item, ThreadComment}
use coinnews_indexer.Store.Ranking.{Floats, resolve_now, before}
use coinnews_indexer.Store.Sort.{slice_stable}
use coinnews_indexer.Store.Sql.{any}
use coinnews_indexer.Store.Sqlite.Schema.{Tables, CommentRow}
use coinnews_indexer.Store.Sqlite.Comments.{select_comments}

-- id IN (...)
unfoldable pub has : List Bytes → Bytes → Bool
has ids id = any (λ k. bytes_beq k id) ids

-- SELECT item_id FROM cn_comments WHERE parent_id = ?
unfoldable pub replies : Bytes → List CommentRow → List Bytes
replies parent rows = map (λ r. r.item_id) (keep (λ r. bytes_beq r.parent_id parent) rows)

-- The queue of a recursive query and the rows that it has had. UNION keeps a row that is not there
-- yet.
unfoldable pub offer : List Bytes → List Bytes × List Bytes → List Bytes × List Bytes
unfolding has
offer [] s = s
offer (k ∷ ks) (queue, seen) =
    offer ks (if has seen k then (queue, seen) else (queue ++ (k ∷ []), k ∷ seen))

-- WITH RECURSIVE: the recursive part runs on one row of the queue after the other.
unfoldable pub walk : ℕ → List CommentRow → List Bytes × List Bytes → List Bytes
unfolding offer replies
walk zero rows (queue, seen) = seen
walk (suc fuel) rows ([], seen) = seen
walk (suc fuel) rows (id ∷ queue, seen) = walk fuel rows (offer (replies id rows) (queue, seen))

-- Each comment enters the queue at most once, so one round more than there are comments is enough.
unfoldable pub thread_ids : Bytes → List CommentRow → List Bytes
unfolding walk
thread_ids root rows = walk (suc (length rows)) rows (offer (replies root rows) ([], []))

module _ (fl : Floats) (clock : ℤ) where
  -- ORDER BY block_height, tx_index, vout_index
  abbrev pub earlier_first : Item × ThreadComment fl.F → Item × ThreadComment fl.F → Bool
  earlier_first a b =
      before a.0.height a.0.tx_index a.0.vout_index b.0.height b.0.tx_index b.0.vout_index

  unfoldable pub thread : Bytes → Tables → List (ThreadComment fl.F)
  unfolding thread_ids
  thread root t =
      map (λ r. r.1)
        (slice_stable earlier_first (
          select_comments fl clock (λ c. has (thread_ids root t.cn_comments) c.item_id) t
            (resolve_now clock (pos 0)) t.cn_comments))
