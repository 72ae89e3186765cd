-- ===== src/Store/Ranking/Listings.antt =====
-- store/store.go: what the order of a listing means to a reader.
use mathlib.Core.List.{Perm}
use coinnews_indexer.Prelude.{
  ◌≡◌, refl, sym, ◌∙◌, ◌⊎◌, inl, inr, List, [], ◌∷◌, All, Bool, true, false, ◌&&◌, keep, arith, ◌<◌,
  ◌≤◌, ◌==◌, Bool-cases, bytes_beq, bytes_beq_iff, bytes_eq,
}
use coinnews_indexer.Prelude.Int.{eqz, ◌<ℤ◌, ◌≤ℤ◌, eq_of_parts}
use coinnews_indexer.Codec.Types.{Bytes}
use coinnews_indexer.Codec.ItemId.{id_string}
use coinnews_indexer.Store.Types.{FeedItem, ThreadComment}
use coinnews_indexer.Store.Sort.Laws.{IsSorted, IsStableSort, ties}
use coinnews_indexer.Store.Ranking.{
  Floats, bytes_ltb, by_score, sort_by_score, by_newest, sort_by_newest, thread_less,
  sort_thread_canonical,
}
use coinnews_indexer.Store.Ranking.Orders.{
  IsTotal, eq_sym, sort_by_score-IsStableSort, sort_by_newest-IsStableSort,
  sort_thread-IsStableSort,
}

module _ {ℓ} {A : Type ℓ} (Ahead : A → A → Type 0) where
  -- Each element may stand ahead of all behind it.
  abbrev pub InOrder : List A → Type ℓ
  InOrder [] = Unit
  InOrder (x ∷ xs) = All (Ahead x) xs × InOrder xs

  -- The output is in order, has the elements of the input, and keeps those that are level in the
  -- input's order.
  pub record IsListing (level : A → A → Bool) (input output : List A) : Type ℓ where
    pub ordered : InOrder output
    pub perm : Perm output input
    pub stable : (a : A) → keep (level a) output ≡ keep (level a) input

  module _ (less : A → A → Bool) (ahead : (a b : A) → less b a ≡ false → Ahead a b) where
    all_ahead : (x : A) (ys : List A) → All (λ y. less y x ≡ false) ys → All (Ahead x) ys
    all_ahead x [] h = tt
    all_ahead x (y ∷ ys) (h, hs) = (ahead x y h, all_ahead x ys hs)

    IsSorted-InOrder : (l : List A) → IsSorted less l → InOrder l
    IsSorted-InOrder [] h = tt
    IsSorted-InOrder (x ∷ xs) (h, hs) = (all_ahead x xs h, IsSorted-InOrder xs hs)

    keep_same : (p q : A → Bool) → ((x : A) → p x ≡ q x) → (l : List A) → keep p l ≡ keep q l
    keep_same p q h [] = refl
    keep_same p q h (x ∷ xs) = rw (h x, keep_same p q h xs) refl

    pub IsStableSort-IsListing :
        (level : A → A → Bool)
        → ((a b : A) → ties less a b ≡ level a b)
        → (input output : List A) → IsStableSort less input output
        → IsListing level input output
    IsStableSort-IsListing level same input output h = record {
      ordered = IsSorted-InOrder output h.sorted;
      perm = h.perm;
      stable = λ a.
          sym (keep_same (ties less a) (level a) (same a) output)
          ∙ h.stable a
          ∙ keep_same (ties less a) (level a) (same a) input;
    }

bytes_ltb_irrefl : (a : Bytes) → bytes_ltb a a ≡ false
unfolding bytes_ltb
bytes_ltb_irrefl [] = refl
bytes_ltb_irrefl (x ∷ xs) = ground (arith, bytes_ltb_irrefl xs)

bytes_ltb_total : (a b : Bytes) → bytes_ltb a b ≡ false → bytes_ltb b a ≡ false → a ≡ b
unfolding bytes_ltb
bytes_ltb_total [] [] h k = refl
bytes_ltb_total [] (y ∷ ys) h k = cc
bytes_ltb_total (x ∷ xs) [] h k = cc
bytes_ltb_total (x ∷ xs) (y ∷ ys) h k = ground (arith, bytes_ltb_total xs ys)

-- A lower height, or the same and a hex text of the id that is not greater.
abbrev pub Earlier : {F : Type 0} → ThreadComment F → ThreadComment F → Type 0
Earlier a b =
    (a.height <ℤ b.height)
    ⊎ ((a.height ≡ b.height) × (bytes_ltb (id_string b.id) (id_string a.id) ≡ false))

-- The same height and id.
abbrev pub same_comment : {F : Type 0} → ThreadComment F → ThreadComment F → Bool
same_comment a b = eqz a.height b.height && bytes_beq (id_string a.id) (id_string b.id)

earlier : {F : Type 0} (a b : ThreadComment F) → thread_less b a ≡ false → Earlier a b
earlier a b h = elim (Bool-cases (eqz a.height b.height)) [
  | inl e ↦ inr (eq_of_parts a.height b.height (ground arith), ground (arith, h))
  | inr e ↦ inl (ground arith)
]

level_comments : {F : Type 0} (a b : ThreadComment F) → ties thread_less a b ≡ same_comment a b
level_comments a b = ground (
  arith,
  bytes_ltb_total (id_string a.id) (id_string b.id),
  bytes_ltb_irrefl (id_string a.id),
  bytes_beq_iff (id_string a.id) (id_string b.id),
)

-- A thread's order: no comment stands in front of one of a smaller height, nor of one of the same
-- height whose id has a smaller hex text; the comments are those of the input, and those of one
-- height and id keep the input's order.
pub sort_thread-IsListing :
    {F : Type 0} (cs : List (ThreadComment F))
    → IsListing Earlier same_comment cs (sort_thread_canonical cs)
sort_thread-IsListing cs =
    IsStableSort-IsListing Earlier thread_less earlier same_comment level_comments cs
      (sort_thread_canonical cs) (sort_thread-IsStableSort cs)

-- A greater height; of one height, a greater transaction index; of one transaction, an output
-- index that is not less.
abbrev pub Newer : {F : Type 0} → FeedItem F → FeedItem F → Type 0
Newer a b =
    (b.item.height <ℤ a.item.height)
    ⊎ ((a.item.height ≡ b.item.height)
        × ((b.item.tx_index < a.item.tx_index)
            ⊎ ((a.item.tx_index ≡ b.item.tx_index) × (b.item.vout_index ≤ a.item.vout_index))))

-- The same place in the chain.
abbrev pub same_place : {F : Type 0} → FeedItem F → FeedItem F → Bool
same_place a b =
    eqz a.item.height b.item.height
    && ((a.item.tx_index == b.item.tx_index) && (a.item.vout_index == b.item.vout_index))

newer : {F : Type 0} (a b : FeedItem F) → by_newest b a ≡ false → Newer a b
newer a b h = elim (Bool-cases (eqz a.item.height b.item.height)) [
  | inr e ↦ inl (ground arith)
  | inl e ↦
      let same = eq_of_parts a.item.height b.item.height (ground arith) in
      elim (Bool-cases (a.item.tx_index == b.item.tx_index)) [
        | inr q ↦ inr (same, inl (ground arith))
        | inl q ↦ inr (same, inr (ground arith, ground arith))
      ]
]

pub level_place : {F : Type 0} (a b : FeedItem F) → ties by_newest a b ≡ same_place a b
level_place a b = ground arith

-- The newest feed's order: no item stands in front of one of a greater height, nor of one of the
-- same height and a greater transaction index, nor of one of the same transaction and a greater
-- output index; the items are those of the input, and those at the same place keep the input's
-- order.
pub sort_by_newest-IsListing :
    {F : Type 0} (items : List (FeedItem F))
    → IsListing Newer same_place items (sort_by_newest items)
sort_by_newest-IsListing items =
    IsStableSort-IsListing Newer by_newest newer same_place level_place items (sort_by_newest items)
      (sort_by_newest-IsStableSort items)

module _ (fl : Floats) where
  -- A greater score, or the same and a height that is not less.
  abbrev pub Higher : FeedItem fl.F → FeedItem fl.F → Type 0
  Higher a b =
      (fl.lt b.score a.score ≡ true) ⊎ ((a.score ≡ b.score) × (b.item.height ≤ℤ a.item.height))

  -- The same score and height.
  abbrev pub same_rank : FeedItem fl.F → FeedItem fl.F → Bool
  same_rank a b = fl.eq a.score b.score && eqz a.item.height b.item.height

  module _ (t : IsTotal fl) where
    higher : (a b : FeedItem fl.F) → by_score fl b a ≡ false → Higher a b
    higher a b h = elim (Bool-cases (fl.eq b.score a.score)) [
      | inl e ↦ inr (sym (t.eq_sound b.score a.score e), ground arith)
      | inr e ↦ inl (t.total _ _ (ground (arith, eq_sym fl t a.score b.score)) (rw e at h))
    ]

    pub level_rank : (a b : FeedItem fl.F) → ties (by_score fl) a b ≡ same_rank a b
    level_rank a b = elim (Bool-cases (fl.eq a.score b.score)) [
      | inl e ↦ rw (e, eq_sym fl t a.score b.score e) (ground arith)
      | inr e ↦ ground (arith, eq_sym fl t b.score a.score, t.total a.score b.score)
    ]

    -- The front page's order: no item stands in front of one with a greater score, nor of one with
    -- the same score and a greater height; the items are those of the input, and those with the
    -- same score and height keep the input's order. The comparisons of scores are those of a total
    -- order, as float64's are if no score is a NaN.
    pub sort_by_score-IsListing :
        (items : List (FeedItem fl.F)) → IsListing Higher same_rank items (sort_by_score fl items)
    sort_by_score-IsListing items =
        IsStableSort-IsListing Higher (by_score fl) higher same_rank level_rank items
          (sort_by_score fl items) (sort_by_score-IsStableSort fl t items)
