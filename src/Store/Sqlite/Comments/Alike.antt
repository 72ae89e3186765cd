-- ===== src/Store/Sqlite/Comments/Alike.antt =====
-- store/sqlite.go against store/memory.go: the comments of an author.
use coinnews_indexer.Prelude.{
  ◌≡◌, refl, sym, ap, ◌∙◌, List, [], ◌∷◌, All, some, Bool, map, bytes_beq, bytes_eq, arith,
  Bool-cases, Option-cases, inl, inr,
}
use mathlib.Core.Path.{subst}
use mathlib.Core.List.{Perm}
use mathlib.Core.List.Perm
use coinnews_indexer.Prelude.Int.{ℤ, pos}
use coinnews_indexer.Codec.Types.{Bytes}
use coinnews_indexer.Codec.Crypto.{Crypto}
use coinnews_indexer.Store.Types.{Item, Comment}
use coinnews_indexer.Store.Ranking.{
  Floats, resolve_now, sort_thread_canonical_desc, thread_greater, page,
}
use coinnews_indexer.Store.Ranking.Orders.{sort_thread_desc-IsStableSort}
use coinnews_indexer.Store.Sort.{slice_stable}
use coinnews_indexer.Store.Sort.Laws.{IsWeakOrder, slice_stable-IsStableSort}
use coinnews_indexer.Store.Sql.{find_by}
use coinnews_indexer.Store.Sql.Laws.{keyed}
use coinnews_indexer.Store.Memory.{MemoryStore, item_or_zero}
use coinnews_indexer.Store.Memory.Reads.{thread_comment}
use coinnews_indexer.Store.Memory.Thread as Memory
use coinnews_indexer.Store.Sqlite.Schema.{Tables, CommentRow}
use coinnews_indexer.Store.Sqlite.Refines.{Stored, comment_of}
use coinnews_indexer.Store.Sqlite.Reads.Rows.{Readable, Scannable, found_item, points-tally}
use coinnews_indexer.Store.Sqlite.Comments.{
  scan_comment, select_comments, later_first, authored, by_author,
}

module _ (crypto : Crypto) (t : Tables) (m : MemoryStore) (s : Stored crypto t m) (ok : Readable t)
    (fl : Floats) (clock : ℤ) where
  scan-thread_comment :
      (now : ℤ) (c : CommentRow) (it : Item)
      → find_by (λ x. x.id) t.cn_items c.item_id ≡ some it
      → scan_comment fl clock t now c it ≡ thread_comment fl clock m now (comment_of c)
  unfolding scan_comment thread_comment comment_of item_or_zero
  scan-thread_comment now c it h =
      rw (points-tally crypto t m s ok c.item_id, found_item crypto t m s c.item_id (some it) h)
        refl

  pub select-collect :
      (test : CommentRow → Bool) (keeps : Comment → Bool) (cs : List CommentRow)
      → ((c : CommentRow) → keeps (comment_of c) ≡ test c)
      → All (Scannable crypto t m s ok) cs
      → map (λ r. r.1) (select_comments fl clock test t (resolve_now clock (pos 0)) cs)
        ≡ Memory.collect fl clock m keeps (keyed (λ r. r.item_id) comment_of cs)
  unfolding select_comments Memory.collect keyed
  select-collect test keeps [] k h = refl
  select-collect test keeps (c ∷ cs) k ((l, there), h) =
      let tail = select-collect test keeps cs k h in
      elim (Option-cases (find_by (λ r. r.id) t.cn_items c.item_id)) [
        | inl e ↦ absurd (there e)
        | inr (it, e) ↦ elim (Bool-cases (test c)) [
          | inr other ↦ rw (k c, other) tail
          | inl same ↦
              rw (k c, same, e, scan-thread_comment (resolve_now clock (pos 0)) c it e, tail) refl
        ]
      ]

  later_first-IsWeakOrder : IsWeakOrder (later_first fl clock)
  later_first-IsWeakOrder = record {
    asym = λ a b h. ground arith;
    trans = λ a b c h k. ground arith;
  }

  page_whole : {A : Type 0} (l : List A) → page l (pos 0) (pos 0) ≡ l
  unfolding page
  page_whole [] = refl
  page_whole (x ∷ l) = ground arith

  -- On tables that hold what the in-memory backend holds, `ByAuthor` with limit 0 and offset 0
  -- lists the same comments over both backends, up to their order, if each story's subtype is a
  -- byte, each comment's author key has 32 bytes, and each has its item.
  pub authored-Perm :
      (author : Bytes)
      → Perm
          (by_author fl clock author (pos 0) (pos 0) t)
          (Memory.by_author fl clock author (pos 0) (pos 0) m)
  unfolding by_author authored Memory.by_author sort_thread_canonical_desc
  authored-Perm author =
      let rs =
        select_comments fl clock (λ c. bytes_beq c.author_xpk author) t (resolve_now clock (pos 0))
          t.cn_comments in
      let l = Memory.collect fl clock m (λ c. bytes_beq c.author_xpk author) m.comments in
      let same : map (λ r. r.1) rs ≡ l =
        select-collect (λ c. bytes_beq c.author_xpk author) (λ c. bytes_beq c.author_xpk author)
          t.cn_comments (λ c. unfold comment_of in refl) ok.comments
        ∙ ap (Memory.collect fl clock m (λ c. bytes_beq c.author_xpk author)) (sym s.comments) in
      let mine =
        Perm.map (λ r. r.1)
          (slice_stable-IsStableSort (later_first fl clock) later_first-IsWeakOrder rs).perm in
      let theirs = (sort_thread_desc-IsStableSort l).perm in
      subst (λ x. Perm (map (λ r. r.1) (slice_stable (later_first fl clock) rs)) x)
        (sym (page_whole (slice_stable thread_greater l)))
        (Perm.trans mine
          (subst (λ x. Perm x (slice_stable thread_greater l)) (sym same) (Perm.symm theirs)))
