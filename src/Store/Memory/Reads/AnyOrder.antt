-- ===== src/Store/Memory/Reads/AnyOrder.antt =====
-- store/memory.go: the feeds, for any order in which `range` meets the stories.
use mathlib.Core.List.{Perm, filter_map}
use mathlib.Core.List.Perm
use mathlib.Core.Path.{subst}
use coinnews_indexer.Prelude.{
  ◌≡◌, refl, sym, ap, ◌∙◌, [], ◌∷◌, Option, none, some, Bool, keep, if◌then◌else◌, Bool-cases,
  Option-cases, inl, inr, bytes_eq,
}
use coinnews_indexer.Prelude.Int.{ℤ}
use coinnews_indexer.Codec.Types.{Bytes}
use coinnews_indexer.GoMap.{GoMap, get}
use coinnews_indexer.Store.Types.{Story, FeedQuery, FeedItem}
use coinnews_indexer.Store.Sort.Unique.{NoTies, slice_stable-Perm}
use coinnews_indexer.Store.Ranking.{
  Floats, resolve_now, by_score, sort_by_score, by_newest, sort_by_newest, page,
}
use coinnews_indexer.Store.Ranking.Orders.{IsTotal, by_newest-IsWeakOrder, by_score-IsWeakOrder}
use coinnews_indexer.Store.Ranking.Listings.{same_rank, same_place, level_rank, level_place}
use coinnews_indexer.Store.Memory.{MemoryStore}
use coinnews_indexer.Store.Memory.Reads.{
  Ranges, IsRange, inserted, feed_item, passes, filtered_feed, front_page, new_feed,
}
use coinnews_indexer.Store.Memory.Reads.Rows.{rows, build_feed_lem}

module _ (fl : Floats) (clock : ℤ) where
  -- The row of a story that passes a filter.
  unfoldable passed :
      (FeedItem fl.F → Bool) → MemoryStore → ℤ → Bytes × Story → Option (FeedItem fl.F)
  passed p m now (id, s) = elim (get m.items id) [
    | none ↦ none
    | some it ↦ let f = feed_item fl clock m now id s it in if p f then some f else none
  ]

  keep-rows :
      (p : FeedItem fl.F → Bool) (m : MemoryStore) (now : ℤ) (l : GoMap Bytes Story)
      → keep p (rows fl clock m now l) ≡ filter_map (passed p m now) l
  unfolding rows passed filter_map
  keep-rows p m now [] = refl
  keep-rows p m now ((id, s) ∷ l) = elim (Option-cases (get m.items id)) [
    | inl e ↦ rw (rows, passed, e) (keep-rows p m now l)
    | inr (it, e) ↦ elim (Bool-cases (p (feed_item fl clock m now id s it))) [
      | inl b ↦
          rw (rows, passed, e, b)
            (ap (λ k. feed_item fl clock m now id s it ∷ k) (keep-rows p m now l))
      | inr b ↦ rw (rows, passed, e, b) (keep-rows p m now l)
    ]
  ]

  filtered_rows :
      (rg : Ranges) (q : FeedQuery) (m : MemoryStore)
      → filtered_feed fl clock rg q m
        ≡ filter_map
            (passed (passes fl clock q) m (resolve_now clock q.now_unix))
            (rg.stories m.stories)
  unfolding filtered_feed
  filtered_rows rg q m =
      ap (keep (passes fl clock q)) (build_feed_lem fl clock rg (resolve_now clock q.now_unix) m)
      ∙ keep-rows (passes fl clock q) m (resolve_now clock q.now_unix) (rg.stories m.stories)

  filtered-Perm :
      (rg : Ranges) (q : FeedQuery) (m : MemoryStore)
      → IsRange rg
      → Perm (filtered_feed fl clock rg q m) (filtered_feed fl clock inserted q m)
  filtered-Perm rg q m r =
      let now = resolve_now clock q.now_unix in
      subst (λ l. Perm l (filtered_feed fl clock inserted q m)) (sym (filtered_rows rg q m))
        (subst (Perm (filter_map (passed (passes fl clock q) m now) (rg.stories m.stories)))
          (sym (filtered_rows inserted q m))
          (Perm.filter_map (passed (passes fl clock q) m now) (r.stories m.stories)))

  pub new_feed_any_order :
      (rg : Ranges) (q : FeedQuery) (m : MemoryStore)
      → IsRange rg
      → NoTies same_place (filtered_feed fl clock rg q m)
      → new_feed fl clock rg q m ≡ new_feed fl clock inserted q m
  unfolding new_feed sort_by_newest
  new_feed_any_order rg q m r t =
      ap (λ l. page l q.limit q.offset)
        (slice_stable-Perm by_newest by_newest-IsWeakOrder _ _ (filtered-Perm rg q m r)
          (λ a b i j e. t a b i j (sym (level_place a b) ∙ e)))

  pub front_page_any_order :
      (t : IsTotal fl) (rg : Ranges) (q : FeedQuery) (m : MemoryStore)
      → IsRange rg
      → NoTies (same_rank fl) (filtered_feed fl clock rg q m)
      → front_page fl clock rg q m ≡ front_page fl clock inserted q m
  unfolding front_page sort_by_score
  front_page_any_order total rg q m r t =
      ap (λ l. page l q.limit q.offset)
        (slice_stable-Perm (by_score fl) (by_score-IsWeakOrder fl total) _ _
          (filtered-Perm rg q m r) (λ a b i j e. t a b i j (sym (level_rank fl total a b) ∙ e)))
