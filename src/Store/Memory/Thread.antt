-- ===== src/Store/Memory/Thread.antt =====
-- store/memory.go: `Thread` and `ByAuthor`, the reads of the comments.
pub mod Descendants
use coinnews_indexer.Prelude.{
  ℕ, zero, suc, ◌+◌, List, [], ◌∷◌, ◌++◌, Option, none, some, Bool, true, false, not, ◌||◌, ◌&&◌,
  if◌then◌else◌, ◌==◌, keep, length, bytes_beq, bytes_eq,
}
use coinnews_indexer.Prelude.Int.{ℤ, pos, ◌+ℤ◌, ◌-ℤ◌}
use coinnews_indexer.Codec.Types.{Bytes, type_upvote, type_downvote, is_zero}
use coinnews_indexer.GoMap.{GoMap, get, put}
use coinnews_indexer.Store.Types.{
  Item, Topic, Story, Comment, Vote, VoteKey, FeedQuery, FeedItem, ThreadComment,
}
use coinnews_indexer.Store.Ranking.{
  Floats, resolve_now, rank_score, before, sort_by_score, sort_by_newest, sort_thread_canonical,
  sort_thread_canonical_desc, sort_topics, page,
}
use coinnews_indexer.Store.Memory.{MemoryStore, item_or_zero}
use coinnews_indexer.Store.Memory.Reads.{tally, thread_comment}

-- `want[id]`, for a set as the list of its members.
pub wants : List Bytes → Bytes → Bool
wants [] id = false
wants (x ∷ xs) id = bytes_beq x id || wants xs id

-- One pass over the comments; the flag is `changed`.
thread_pass : GoMap Bytes Comment → List Bytes → Bool → List Bytes × Bool
unfolding wants
thread_pass [] want changed = (want, changed)
thread_pass ((_, c) ∷ rest) want changed =
    let add = not (wants want c.id) && wants want c.parent_id in
    thread_pass rest (if add then c.id ∷ want else want) (if add then true else changed)

-- Passes until nothing changes. Every pass but the last adds a comment's id, so one pass more than
-- there are comments is enough.
thread_loop : ℕ → GoMap Bytes Comment → List Bytes → List Bytes
unfolding thread_pass
thread_loop zero comments want = want
thread_loop (suc fuel) comments want =
    let next = thread_pass comments want false in
    let rest = thread_loop fuel comments next.0 in if next.1 then rest else next.0

unfoldable pub descendants : Bytes → MemoryStore → List Bytes
unfolding thread_loop
descendants root m = thread_loop (suc (length m.comments)) m.comments (root ∷ [])

module _ (fl : Floats) (clock : ℤ) where
  unfoldable pub collect :
      MemoryStore → (Comment → Bool) → GoMap Bytes Comment → List (ThreadComment fl.F)
  collect m p [] = []
  collect m p ((_, c) ∷ rest) =
      let tail = collect m p rest in
      if p c then thread_comment fl clock m (resolve_now clock (pos 0)) c ∷ tail else tail

  unfoldable pub thread : Bytes → MemoryStore → List (ThreadComment fl.F)
  unfolding collect
  thread root m =
      let want = descendants root m in
      sort_thread_canonical
        (collect m (λ c. not (bytes_beq c.id root) && wants want c.id) m.comments)

  unfoldable pub by_author : Bytes → ℤ → ℤ → MemoryStore → List (ThreadComment fl.F)
  unfolding collect
  by_author author limit offset m =
      page (sort_thread_canonical_desc (collect m (λ c. bytes_beq c.author_xpk author) m.comments))
        limit offset
