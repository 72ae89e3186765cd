-- ===== src/Store/Sqlite/Comments.antt =====
-- store/sqlite.go: `ByAuthor`, the comments of an author.
pub mod Alike
use coinnews_indexer.Prelude.{
  ℕ, List, [], ◌∷◌, Option, none, some, Bool, if◌then◌else◌, map, take, drop, bytes_beq, bytes_eq,
}
use coinnews_indexer.Prelude.Int.{ℤ, pos, pos_part, ltz}
use coinnews_indexer.Codec.Types.{Bytes}
use coinnews_indexer.Store.Types.{Item, ThreadComment}
use coinnews_indexer.Store.Ranking.{Floats, resolve_now, rank_score, before}
use coinnews_indexer.Store.Sort.{slice_stable}
use coinnews_indexer.Store.Sql.{find_by}
use coinnews_indexer.Store.Sqlite.Schema.{Tables, CommentRow, coalesce}
use coinnews_indexer.Store.Sqlite.Reads.{points}

-- `clock` is what time.Now().Unix() returns.
module _ (fl : Floats) (clock : ℤ) where
  -- One row of `commentSelect`, scanned.
  unfoldable pub scan_comment : Tables → ℤ → CommentRow → Item → ThreadComment fl.F
  scan_comment t now c it =
      let pts = points c.item_id t in
      record {
        id = c.item_id;
        parent_id = c.parent_id;
        author_xpk = c.author_xpk;
        body = coalesce c.body;
        url = coalesce c.url;
        lang = coalesce c.lang;
        reply_quote = coalesce c.reply_quote;
        height = it.height;
        block_time = it.block_time;
        points = pts;
        score = rank_score fl pts now it.block_time;
      }

  -- cn_comments JOIN cn_items, WHERE test, each row with the item that it is ordered by
  unfoldable pub select_comments :
      (CommentRow → Bool) → Tables → ℤ → List CommentRow → List (Item × ThreadComment fl.F)
  select_comments test t now [] = []
  select_comments test t now (c ∷ rest) =
      let tail = select_comments test t now rest in
      if test c
      then elim (find_by (λ r. r.id) t.cn_items c.item_id) [
        | none ↦ tail
        | some it ↦ (it, scan_comment t now c it) ∷ tail
      ]
      else tail

  -- ORDER BY block_height DESC, tx_index DESC, vout_index DESC
  abbrev pub later_first : Item × ThreadComment fl.F → Item × ThreadComment fl.F → Bool
  later_first a b =
      before b.0.height b.0.tx_index b.0.vout_index a.0.height a.0.tx_index a.0.vout_index

  unfoldable pub authored : Bytes → Tables → List (ThreadComment fl.F)
  authored author t =
      map (λ r. r.1)
        (slice_stable later_first (
          select_comments (λ c. bytes_beq c.author_xpk author) t (resolve_now clock (pos 0))
            t.cn_comments))

  -- LIMIT and OFFSET, for a positive limit only
  unfoldable pub by_author : Bytes → ℤ → ℤ → Tables → List (ThreadComment fl.F)
  by_author author limit offset t =
      let all = authored author t in
      if ltz (pos 0) limit then take (pos_part limit) (drop (pos_part offset) all) else all
