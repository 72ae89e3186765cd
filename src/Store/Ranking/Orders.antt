-- ===== src/Store/Ranking/Orders.antt =====
-- store/store.go: the sorts of the listings.
use coinnews_indexer.Prelude.{
  ◌≡◌, refl, sym, ◌∙◌, List, [], ◌∷◌, true, false, arith, Bool-cases, inl, inr, ◌⊎◌,
}
use coinnews_indexer.Prelude.Int.{ltz}
use coinnews_indexer.Codec.Types.{Bytes}
use coinnews_indexer.Codec.ItemId.{id_string}
use coinnews_indexer.Store.Types.{Topic, FeedItem, ThreadComment}
use coinnews_indexer.Store.Sort.Laws.{IsWeakOrder, IsStableSort, slice_stable-IsStableSort}
use coinnews_indexer.Store.Ranking.{
  Floats, bytes_ltb, by_score, sort_by_score, by_newest, sort_by_newest, thread_less,
  sort_thread_canonical, thread_greater, sort_thread_canonical_desc, topic_less, sort_topics,
}

bytes_ltb_asym : (a b : Bytes) → bytes_ltb a b ≡ true → bytes_ltb b a ≡ false
unfolding bytes_ltb
bytes_ltb_asym [] [] h = refl
bytes_ltb_asym [] (y ∷ ys) h = refl
bytes_ltb_asym (x ∷ xs) [] h = cc
bytes_ltb_asym (x ∷ xs) (y ∷ ys) h = ground (arith, bytes_ltb_asym xs ys)

bytes_ltb_trans :
    (a b c : Bytes) → bytes_ltb b a ≡ false → bytes_ltb c b ≡ false → bytes_ltb c a ≡ false
unfolding bytes_ltb
bytes_ltb_trans [] [] c h k = k
bytes_ltb_trans [] (y ∷ ys) [] h k = refl
bytes_ltb_trans [] (y ∷ ys) (z ∷ zs) h k = refl
bytes_ltb_trans (x ∷ xs) [] [] h k = cc
bytes_ltb_trans (x ∷ xs) [] (z ∷ zs) h k = cc
bytes_ltb_trans (x ∷ xs) (y ∷ ys) [] h k = cc
bytes_ltb_trans (x ∷ xs) (y ∷ ys) (z ∷ zs) h k = ground (arith, bytes_ltb_trans xs ys zs)

pub by_newest-IsWeakOrder : {F : Type 0} → IsWeakOrder {A = FeedItem F} by_newest
by_newest-IsWeakOrder = record { asym = λ a b h. ground arith; trans = λ a b c h k. ground arith }

thread_less-IsWeakOrder : {F : Type 0} → IsWeakOrder {A = ThreadComment F} thread_less
thread_less-IsWeakOrder = record {
  asym = λ a b h. ground (arith, bytes_ltb_asym (id_string a.id) (id_string b.id));
  trans = λ a b c h k.
      ground (arith, bytes_ltb_trans (id_string a.id) (id_string b.id) (id_string c.id));
}

thread_greater-IsWeakOrder : {F : Type 0} → IsWeakOrder {A = ThreadComment F} thread_greater
thread_greater-IsWeakOrder = record {
  asym = λ a b h. ground (arith, bytes_ltb_asym (id_string b.id) (id_string a.id));
  trans = λ a b c h k.
      ground (arith, bytes_ltb_trans (id_string c.id) (id_string b.id) (id_string a.id));
}

topic_less-IsWeakOrder : IsWeakOrder topic_less
topic_less-IsWeakOrder = record { asym = λ a b h. ground arith; trans = λ a b c h k. ground arith }

-- The feed by recency is the stable sort of its items by height, transaction index and output
-- index, each descending.
pub sort_by_newest-IsStableSort :
    {F : Type 0} (items : List (FeedItem F)) → IsStableSort by_newest items (sort_by_newest items)
unfolding sort_by_newest
sort_by_newest-IsStableSort items = slice_stable-IsStableSort by_newest by_newest-IsWeakOrder items

-- A thread is the stable sort of its comments by height, then by the hex text of the id.
pub sort_thread-IsStableSort :
    {F : Type 0} (cs : List (ThreadComment F))
    → IsStableSort thread_less cs (sort_thread_canonical cs)
unfolding sort_thread_canonical
sort_thread-IsStableSort cs = slice_stable-IsStableSort thread_less thread_less-IsWeakOrder cs

-- The comments of an author are the stable sort by height, then by the hex text of the id, both
-- descending.
pub sort_thread_desc-IsStableSort :
    {F : Type 0} (cs : List (ThreadComment F))
    → IsStableSort thread_greater cs (sort_thread_canonical_desc cs)
unfolding sort_thread_canonical_desc
sort_thread_desc-IsStableSort cs =
    slice_stable-IsStableSort thread_greater thread_greater-IsWeakOrder cs

-- The topics are the stable sort by the height of their creation.
pub sort_topics-IsStableSort : (ts : List Topic) → IsStableSort topic_less ts (sort_topics ts)
unfolding sort_topics
sort_topics-IsStableSort ts = slice_stable-IsStableSort topic_less topic_less-IsWeakOrder ts

-- What float64 gives where no NaN is met: `==` is equality, and `<` is a total order.
pub record IsTotal (fl : Floats) : Type 0 where
  pub irrefl : (a : fl.F) → fl.lt a a ≡ false
  pub trans : (a b c : fl.F) → fl.lt a b ≡ true → fl.lt b c ≡ true → fl.lt a c ≡ true
  pub total : (a b : fl.F) → fl.eq a b ≡ false → fl.lt a b ≡ false → fl.lt b a ≡ true
  pub eq_sound : (a b : fl.F) → fl.eq a b ≡ true → a ≡ b
  pub eq_refl : (a : fl.F) → fl.eq a a ≡ true

module _ (fl : Floats) (t : IsTotal fl) where
  lt_asym : (a b : fl.F) → fl.lt a b ≡ true → fl.lt b a ≡ false
  lt_asym a b h = elim (Bool-cases (fl.lt b a)) [
    | inl k ↦ cc (sym (t.trans a b a h k) ∙ t.irrefl a)
    | inr k ↦ k
  ]

  pub eq_sym : (a b : fl.F) → fl.eq a b ≡ true → fl.eq b a ≡ true
  eq_sym a b h = rw (t.eq_sound a b h) (t.eq_refl b)

  -- What it is not to stand after.
  AtFront : FeedItem fl.F → FeedItem fl.F → Type 0
  AtFront a b =
      (fl.lt b.score a.score ≡ true)
      ⊎ ((b.score ≡ a.score) × (ltz a.item.height b.item.height ≡ false))

  to_front : (a b : FeedItem fl.F) → by_score fl b a ≡ false → AtFront a b
  unfolding AtFront
  to_front a b h = elim (Bool-cases (fl.eq b.score a.score)) [
    | inl e ↦ inr (t.eq_sound _ _ e, rw e at h)
    | inr e ↦ inl (t.total _ _ (ground (arith, eq_sym a.score b.score)) (rw e at h))
  ]

  from_front : (a b : FeedItem fl.F) → AtFront a b → by_score fl b a ≡ false
  unfolding AtFront
  from_front a b (inl l) =
      ground (arith, lt_asym b.score a.score, t.irrefl a.score, t.eq_sound b.score a.score)
  from_front a b (inr (e, l)) = rw (e, t.eq_refl a.score) l

  front_trans : (a b c : FeedItem fl.F) → AtFront a b → AtFront b c → AtFront a c
  unfolding AtFront
  front_trans a b c (inl h) (inl k) = inl (t.trans _ _ _ k h)
  front_trans a b c (inl h) (inr (e, k)) = inl (rw e h)
  front_trans a b c (inr (e, h)) (inl k) = inl (rw (sym e) k)
  front_trans a b c (inr (e, h)) (inr (e', k)) = inr (e' ∙ e, ground arith)

  pub by_score-IsWeakOrder : IsWeakOrder (by_score fl)
  by_score-IsWeakOrder = record {
    asym = λ a b h.
        ground (arith, lt_asym b.score a.score, eq_sym a.score b.score, eq_sym b.score a.score);
    trans = λ a b c h k. from_front a c (front_trans a b c (to_front a b h) (to_front b c k));
  }

  -- The front page's order is the stable sort of its items by score and then by height, both
  -- descending, where the comparisons of scores are those of a total order, as float64's are if no
  -- score is a NaN.
  pub sort_by_score-IsStableSort :
      (items : List (FeedItem fl.F)) → IsStableSort (by_score fl) items (sort_by_score fl items)
  unfolding sort_by_score
  sort_by_score-IsStableSort items =
      slice_stable-IsStableSort (by_score fl) by_score-IsWeakOrder items
