-- ===== src/Store/Sqlite/Thread/Alike.antt =====
-- store/sqlite.go against store/memory.go: `Thread`.
use coinnews_indexer.Prelude.{
  ◌≡◌, ◌⊎◌, ◌↔◌, inl, inr, refl, sym, ap, ◌∙◌, List, [], ◌∷◌, map, true, false, not, ◌&&◌,
  bytes_beq, bytes_beq_iff, bytes_eq, Bool-cases, arith,
}
use mathlib.Core.Path.{subst}
use mathlib.Core.List.{Perm}
use mathlib.Core.List.Perm
use coinnews_indexer.Prelude.Int.{ℤ, pos}
use coinnews_indexer.Codec.Types.{Bytes}
use coinnews_indexer.Codec.Crypto.{Crypto}
use coinnews_indexer.GoMap.{GoMap}
use coinnews_indexer.Store.Types.{Comment}
use coinnews_indexer.Store.Ranking.{Floats, resolve_now, sort_thread_canonical, thread_less}
use coinnews_indexer.Store.Ranking.Orders.{sort_thread-IsStableSort}
use coinnews_indexer.Store.Sort.{slice_stable}
use coinnews_indexer.Store.Sort.Laws.{IsWeakOrder, slice_stable-IsStableSort}
use coinnews_indexer.Store.Sql.Laws.{keyed}
use coinnews_indexer.Store.Memory.{MemoryStore}
use coinnews_indexer.Store.Memory.Thread as Memory
use coinnews_indexer.Store.Memory.Thread.{wants, descendants}
use coinnews_indexer.Store.Memory.Thread.Descendants.{Listed, Under, self, descendants-Under}
use coinnews_indexer.Store.Memory.Thread.Descendants as Descendants
use coinnews_indexer.Store.Sqlite.Schema.{Tables, CommentRow}
use coinnews_indexer.Store.Sqlite.Refines.{Stored, comment_of}
use coinnews_indexer.Store.Sqlite.Reads.Rows.{Readable}
use coinnews_indexer.Store.Sqlite.Comments.{select_comments}
use coinnews_indexer.Store.Sqlite.Comments.Alike.{select-collect}
use coinnews_indexer.Store.Sqlite.Thread.{has, thread_ids, earlier_first, thread}
use coinnews_indexer.Store.Sqlite.Thread.Reached.{
  IsRow, Reached, reply, further, thread_ids-Reached,
}

abbrev comments_of : List CommentRow → GoMap Bytes Comment
comments_of rows = keyed (λ r. r.item_id) comment_of rows

row-Listed :
    (r : CommentRow) (rows : List CommentRow)
    → IsRow r rows
    → Listed (comment_of r) (comments_of rows)
unfolding keyed
row-Listed r [] i = elim i [ ]
row-Listed r (q ∷ rows) (inl e) = inl (ap comment_of e)
row-Listed r (q ∷ rows) (inr i) = inr (row-Listed r rows i)

Listed-IsRow :
    (c : Comment) (rows : List CommentRow)
    → Listed c (comments_of rows)
    → (r : CommentRow) × IsRow r rows × (comment_of r ≡ c)
unfolding keyed
Listed-IsRow c [] l = elim l [ ]
Listed-IsRow c (q ∷ rows) (inl e) = (q, inl refl, e)
Listed-IsRow c (q ∷ rows) (inr l) = let (r, i, e) = Listed-IsRow c rows l in (r, inr i, e)

Reached-Under :
    (rows : List CommentRow) (root x : Bytes)
    → Reached rows root x
    → Under (comments_of rows) root x
unfolding comment_of
Reached-Under rows root x (reply r i e) =
    Descendants.reply (comment_of r) (row-Listed r rows i)
      (subst (Under (comments_of rows) root) (sym e) self)
Reached-Under rows root x (further r i up) =
    Descendants.reply (comment_of r) (row-Listed r rows i) (Reached-Under rows root r.parent_id up)

one_up :
    (rows : List CommentRow) (root : Bytes) (r : CommentRow) (c : Comment)
    → IsRow r rows
    → comment_of r ≡ c
    → (c.parent_id ≡ root) ⊎ Reached rows root c.parent_id
    → Reached rows root c.id
unfolding comment_of
one_up rows root r c i e up =
    subst (λ d. (d.parent_id ≡ root) ⊎ Reached rows root d.parent_id → Reached rows root d.id) e
      (λ u. elim u [ inl q ↦ reply r i q | inr q ↦ further r i q ]) up

Under-Reached :
    (rows : List CommentRow) (root x : Bytes)
    → Under (comments_of rows) root x
    → (x ≡ root) ⊎ Reached rows root x
Under-Reached rows root x self = inl refl
Under-Reached rows root x (Descendants.reply c l up) =
    let (r, i, e) = Listed-IsRow c rows l in
    inr (one_up rows root r c i e (Under-Reached rows root c.parent_id up))

-- A comment that stands under the root and is not the root.
wanted-has :
    (root : Bytes) (rows : List CommentRow) (want : List Bytes)
    → ((x : Bytes) → (wants want x ≡ true) ↔ Under (comments_of rows) root x)
    → ¬ Reached rows root root
    → (x : Bytes) → (not (bytes_beq x root) && wants want x) ≡ has (thread_ids root rows) x
wanted-has root rows want iff acyclic x = elim (Bool-cases (has (thread_ids root rows) x)) [
  | inl e ↦
      let up = (thread_ids-Reached root rows x).0 e in
      let other : bytes_beq x root ≡ false = elim (Bool-cases (bytes_beq x root)) [
        | inl q ↦ absurd (acyclic (subst (Reached rows root) ((bytes_beq_iff x root).0 q) up))
        | inr q ↦ q
      ] in
      rw (e, other, (iff x).1 (Reached-Under rows root x up)) refl
  | inr e ↦ elim (Bool-cases (wants want x)) [
    | inr w ↦ rw (e, w) (ground arith)
    | inl w ↦ elim (Under-Reached rows root x ((iff x).0 w)) [
      | inl q ↦ rw (e, (bytes_beq_iff x root).1 q) refl
      | inr up ↦ cc (sym e ∙ (thread_ids-Reached root rows x).1 up)
    ]
  ]
]

module _ (crypto : Crypto) (t : Tables) (m : MemoryStore) (s : Stored crypto t m) (ok : Readable t)
    (fl : Floats) (clock : ℤ) where
  earlier_first-IsWeakOrder : IsWeakOrder (earlier_first fl clock)
  earlier_first-IsWeakOrder = record {
    asym = λ a b h. ground arith;
    trans = λ a b c h k. ground arith;
  }

  -- On tables that hold what the in-memory backend holds, `Thread` lists the same comments over
  -- both backends, up to their order, if the root is not among the comments that reply to it,
  -- directly or through others, each story's subtype is a byte, each comment's author key has 32
  -- bytes, and each has its item.
  pub thread-Perm :
      (root : Bytes)
      → ¬ Reached t.cn_comments root root
      → Perm (thread fl clock root t) (Memory.thread fl clock root m)
  unfolding thread Memory.thread sort_thread_canonical
  thread-Perm root acyclic =
      let rs =
        select_comments fl clock (λ c. has (thread_ids root t.cn_comments) c.item_id) t
          (resolve_now clock (pos 0)) t.cn_comments in
      let keeps = λ (c : Comment). not (bytes_beq c.id root) && wants (descendants root m) c.id in
      let l = Memory.collect fl clock m keeps m.comments in
      let same : map (λ r. r.1) rs ≡ l =
        select-collect crypto t m s ok fl clock (λ c. has (thread_ids root t.cn_comments) c.item_id)
          keeps t.cn_comments
          (λ c.
            unfold comment_of in
            wanted-has root t.cn_comments (descendants root m)
              (λ x.
                subst (λ cs. (wants (descendants root m) x ≡ true) ↔ Under cs root x) s.comments
                  (descendants-Under root m x))
              acyclic c.item_id)
          ok.comments
        ∙ ap (Memory.collect fl clock m keeps) (sym s.comments) in
      let mine =
        Perm.map (λ r. r.1)
          (slice_stable-IsStableSort (earlier_first fl clock) earlier_first-IsWeakOrder rs).perm in
      let theirs = (sort_thread-IsStableSort l).perm in
      Perm.trans mine
        (subst (λ x. Perm x (slice_stable thread_less l)) (sym same) (Perm.symm theirs))
