-- ===== src/Store/Memory/Reads/Rows.antt =====
-- store/memory.go: the loops of the reads, one row after the other.
use coinnews_indexer.Prelude.{
  ℕ, ◌+◌, ◌≡◌, refl, sym, ap, ◌∙◌, List, [], ◌∷◌, ◌++◌, append-nil, append_assoc, Option, none,
  some, Bool, if◌then◌else◌, arith, bytes_beq, bytes_eq, Bool-cases, Option-cases, inl, inr,
}
use coinnews_indexer.Prelude.Int.{ℤ}
use coinnews_indexer.Codec.Types.{Bytes}
use coinnews_indexer.GoMap.{GoMap, get}
use coinnews_indexer.Store.Types.{Item, Comment, Story, FeedItem}
use coinnews_indexer.Store.Ranking.{Floats}
use coinnews_indexer.Store.Sort.{slice_stable}
use coinnews_indexer.Store.Sort.Laws.{IsWeakOrder}
use coinnews_indexer.Store.Sort.First.{first, keep_least, first-slice_stable}
use coinnews_indexer.Store.Memory.{MemoryStore, item_or_zero}
use coinnews_indexer.Store.Memory.Reads.{
  Ranges, feed_item, build_feed, build_feed_loop, comment_count, comment_count_loop,
  first_comment_author, first_comment_loop, author_or_zero, pick, item_before, zero_key,
}

-- The comments right under a parent.
unfoldable pub children : Bytes → GoMap Bytes Comment → ℕ
children parent [] = 0
children parent ((_, c) ∷ rest) =
    let n = children parent rest in if bytes_beq c.parent_id parent then 1 + n else n

comment_count_loop_lem :
    (parent : Bytes) (l : GoMap Bytes Comment) (n : ℕ)
    → comment_count_loop l parent n ≡ n + children parent l
unfolding comment_count_loop children
comment_count_loop_lem parent [] n = ground arith
comment_count_loop_lem parent ((k, c) ∷ rest) n =
    comment_count_loop_lem parent rest _ ∙ ground arith

pub comment_count_lem :
    (parent : Bytes) (m : MemoryStore) → comment_count parent m ≡ children parent m.comments
unfolding comment_count
comment_count_lem parent m = comment_count_loop_lem parent m.comments 0 ∙ ground arith

-- Their items, with their authors.
unfoldable pub candidates : GoMap Bytes Item → Bytes → GoMap Bytes Comment → List (Item × Bytes)
candidates items parent [] = []
candidates items parent ((_, c) ∷ rest) =
    let tail = candidates items parent rest in
    if bytes_beq c.parent_id parent
    then (item_or_zero (get items c.id), c.author_xpk) ∷ tail
    else tail

abbrev pub item_first : Item × Bytes → Item × Bytes → Bool
item_first a b = item_before a.0 b.0

item_first-IsWeakOrder : IsWeakOrder item_first
unfolding item_before
item_first-IsWeakOrder = record { asym = λ a b h. ground arith; trans = λ a b c h k. ground arith }

pick_least :
    (best it : Item) (kept author : Bytes)
    → pick (some (best, kept)) it author
      ≡ some (if item_first (it, author) (best, kept) then (it, author) else (best, kept))
unfolding pick
pick_least best it kept author = elim (Bool-cases (item_before it best)) [
  | inl b ↦ rw b refl
  | inr b ↦ rw b refl
]

kept_pick :
    (items : GoMap Bytes Item) (parent : Bytes) (l : GoMap Bytes Comment) (best : Item × Bytes)
    → first_comment_loop items l parent (some best)
      ≡ some (keep_least item_first best (candidates items parent l))
unfolding first_comment_loop candidates keep_least
kept_pick items parent [] best = refl
kept_pick items parent ((k, c) ∷ rest) (best, kept) =
    let it = item_or_zero (get items c.id) in
    elim (Bool-cases (bytes_beq c.parent_id parent)) [
      | inr e ↦ rw e (kept_pick items parent rest (best, kept))
      | inl e ↦ rw e (
          ap (first_comment_loop items rest parent) (pick_least best it kept c.author_xpk)
          ∙ kept_pick items parent rest (
              if item_first (it, c.author_xpk) (best, kept)
              then (it, c.author_xpk)
              else (best, kept)))
    ]

first_pick :
    (items : GoMap Bytes Item) (parent : Bytes) (l : GoMap Bytes Comment)
    → first_comment_loop items l parent none
      ≡ first (slice_stable item_first (candidates items parent l))
unfolding first_comment_loop candidates pick slice_stable
first_pick items parent [] = refl
first_pick items parent ((k, c) ∷ rest) =
    let top : Item × Bytes = (item_or_zero (get items c.id), c.author_xpk) in
    elim (Bool-cases (bytes_beq c.parent_id parent)) [
      | inr e ↦ rw e (first_pick items parent rest)
      | inl e ↦ rw e (
          kept_pick items parent rest top
          ∙ sym (
              first-slice_stable item_first item_first-IsWeakOrder top
                (candidates items parent rest)))
    ]

abbrev pub author_of : Option (Item × Bytes) → Bytes
author_of none = zero_key
author_of (some (it, author)) = author

pub first_comment_author_lem :
    (parent : Bytes) (m : MemoryStore)
    → first_comment_author parent m
      ≡ author_of (first (slice_stable item_first (candidates m.items parent m.comments)))
unfolding first_comment_author author_or_zero
first_comment_author_lem parent m =
    same_author (first_comment_loop m.items m.comments parent none)
    ∙ ap author_of (first_pick m.items parent m.comments)
  where
    same_author : (o : Option (Item × Bytes)) → author_or_zero o ≡ author_of o
    same_author none = refl
    same_author (some (it, author)) = refl

module _ (fl : Floats) (clock : ℤ) where
  unfoldable pub rows : MemoryStore → ℤ → GoMap Bytes Story → List (FeedItem fl.F)
  rows m now [] = []
  rows m now ((id, s) ∷ rest) =
      let tail = rows m now rest in
      elim (get m.items id) [ none ↦ tail | some it ↦ feed_item fl clock m now id s it ∷ tail ]

  build_feed_loop_lem :
      (m : MemoryStore) (now : ℤ) (l : GoMap Bytes Story) (out : List (FeedItem fl.F))
      → build_feed_loop fl clock m now l out ≡ out ++ rows m now l
  unfolding build_feed_loop rows
  build_feed_loop_lem m now [] out = sym (append-nil out)
  build_feed_loop_lem m now ((id, s) ∷ rest) out = elim (Option-cases (get m.items id)) [
    | inl e ↦ rw (rows, e) (build_feed_loop_lem m now rest out)
    | inr (it, e) ↦
        rw (rows, e)
          (build_feed_loop_lem m now rest (out ++ (feed_item fl clock m now id s it ∷ []))
            ∙ append_assoc out (feed_item fl clock m now id s it ∷ []) (rows m now rest))
  ]

  pub build_feed_lem :
      (rg : Ranges) (now : ℤ) (m : MemoryStore)
      → build_feed fl clock rg now m ≡ rows m now (rg.stories m.stories)
  unfolding build_feed
  build_feed_lem rg now m = build_feed_loop_lem m now (rg.stories m.stories) []
