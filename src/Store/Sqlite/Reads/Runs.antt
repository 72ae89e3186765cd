-- ===== src/Store/Sqlite/Reads/Runs.antt =====
-- store/sqlite.go behind scanner/scanner.go: the tables that a run leaves can be read.
use coinnews_indexer.Prelude.{◌≡◌, ◌∙◌, sym, ap, All-zip, none, bytes_eq}
use mathlib.Core.Path.{subst}
use coinnews_indexer.Codec.Types.{Bytes}
use coinnews_indexer.Codec.Crypto.{Crypto}
use coinnews_indexer.GoMap.{get, Holds}
use coinnews_indexer.Store.Sql.{find_by}
use coinnews_indexer.Store.Sql.Laws.{keys_kept, keyed-All}
use coinnews_indexer.Store.Memory.{MemoryStore, item_by_id}
use coinnews_indexer.Store.Memory.Consistent.{IsConsistent}
use coinnews_indexer.Store.Memory.Bounded.{IsBounded, ByteSubtype, SizedAuthor}
use coinnews_indexer.Store.Sqlite.Schema.{Tables}
use coinnews_indexer.Store.Sqlite.Refines.{Stored, story_of, comment_of}
use coinnews_indexer.Store.Sqlite.Reads.Rows.{Readable, found_item}

module _ (crypto : Crypto) (t : Tables) (m : MemoryStore) (s : Stored crypto t m) where
  no_item_kept : (k : Bytes) → find_by (λ r. r.id) t.cn_items k ≡ none → item_by_id k m ≡ none
  unfolding item_by_id
  no_item_kept k h = found_item crypto t m s k none h

  -- Tables that hold what a consistent in-memory backend holds, whose rows keep the bounds of Go's
  -- types.
  pub Stored-Readable : IsConsistent m → IsBounded m → Readable t
  unfolding story_of comment_of
  Stored-Readable c b = record {
    stories =
        All-zip _ _ t.cn_stories
          (keyed-All (λ r. r.item_id) story_of ByteSubtype t.cn_stories
            (subst (Holds ByteSubtype) s.stories b.stories))
          (keys_kept (λ r. r.item_id) story_of (λ k. find_by (λ r. r.id) t.cn_items k ≡ none)
            t.cn_stories
            (λ k h. ap (λ l. get l k) (sym s.stories) ∙ c.story_items k (no_item_kept k h)));
    comments =
        All-zip _ _ t.cn_comments
          (keyed-All (λ r. r.item_id) comment_of SizedAuthor t.cn_comments
            (subst (Holds SizedAuthor) s.comments b.comments))
          (keys_kept (λ r. r.item_id) comment_of (λ k. find_by (λ r. r.id) t.cn_items k ≡ none)
            t.cn_comments
            (λ k h. ap (λ l. get l k) (sym s.comments) ∙ c.comment_items k (no_item_kept k h)));
  }
