-- ===== src/Store/Ranking.antt =====
-- store/store.go: the score, the orders of the listings, and paging.
pub mod Orders
pub mod Listings
pub mod Paging
pub mod Mapped
use coinnews_indexer.Prelude.{
  ℕ, List, [], ◌∷◌, Bool, true, false, if◌then◌else◌, not, ◌==◌, ltb, leb, ◌&&◌, length, take, drop,
}
use coinnews_indexer.Prelude.Int.{ℤ, pos, pos_part, neg_part, ltz, lez, eqz, ◌-ℤ◌}
use coinnews_indexer.Codec.Types.{Bytes}
use coinnews_indexer.Codec.ItemId.{id_string}
use coinnews_indexer.Store.Types.{Item, Topic, FeedItem, ThreadComment}
use coinnews_indexer.Store.Sort.{slice_stable}

-- What the program uses of float64 and of math.Pow.
pub record Floats : Type 1 where
  pub F : Type 0
  pub of_int : ℤ → F
  pub add : F → F → F
  pub div : F → F → F
  pub pow : F → F → F
  -- `<` and `==`
  pub lt : F → F → Bool
  pub eq : F → F → Bool
  -- the literals 3600.0, 0, 2.0 and 1.8
  pub c3600 : F
  pub c0 : F
  pub c2 : F
  pub c1_8 : F

-- `clock` is what time.Now().Unix() returns.
unfoldable pub resolve_now : ℤ → ℤ → ℤ
resolve_now clock now_unix = if eqz now_unix (pos 0) then clock else now_unix

-- Go's `<` on strings.
pub bytes_ltb : Bytes → Bytes → Bool
bytes_ltb [] [] = false
bytes_ltb [] (y ∷ ys) = true
bytes_ltb (x ∷ xs) [] = false
bytes_ltb (x ∷ xs) (y ∷ ys) =
    let rest = bytes_ltb xs ys in if ltb x y then true else if x == y then rest else false

module _ (fl : Floats) where
  unfoldable pub rank_score : ℤ → ℤ → ℤ → fl.F
  rank_score points now_unix block_time =
      let hours = fl.div (fl.of_int (now_unix -ℤ block_time)) fl.c3600 in
      let age_hours = if fl.lt hours fl.c0 then fl.c0 else hours in
      fl.div (fl.of_int points) (fl.pow (fl.add age_hours fl.c2) fl.c1_8)

  abbrev pub by_score : FeedItem fl.F → FeedItem fl.F → Bool
  by_score a b =
      if not (fl.eq a.score b.score) then fl.lt b.score a.score else ltz b.item.height a.item.height

  unfoldable pub sort_by_score : List (FeedItem fl.F) → List (FeedItem fl.F)
  sort_by_score items = slice_stable by_score items

-- `before a b`: a stands before b in canonical scan order (height, tx index, output index).
abbrev pub before : ℤ → ℕ → ℕ → ℤ → ℕ → ℕ → Bool
before h t v h' t' v' =
    if not (eqz h h') then ltz h h' else if not (t == t') then ltb t t' else ltb v v'

abbrev pub by_newest : {F : Type 0} → FeedItem F → FeedItem F → Bool
by_newest a b =
    if not (eqz a.item.height b.item.height)
    then ltz b.item.height a.item.height
    else if not (a.item.tx_index == b.item.tx_index)
    then ltb b.item.tx_index a.item.tx_index
    else ltb b.item.vout_index a.item.vout_index

unfoldable pub sort_by_newest : {F : Type 0} → List (FeedItem F) → List (FeedItem F)
sort_by_newest items = slice_stable by_newest items

abbrev pub thread_less : {F : Type 0} → ThreadComment F → ThreadComment F → Bool
thread_less a b =
    if not (eqz a.height b.height)
    then ltz a.height b.height
    else bytes_ltb (id_string a.id) (id_string b.id)

unfoldable pub sort_thread_canonical :
    {F : Type 0} → List (ThreadComment F) → List (ThreadComment F)
sort_thread_canonical cs = slice_stable thread_less cs

abbrev pub thread_greater : {F : Type 0} → ThreadComment F → ThreadComment F → Bool
thread_greater a b =
    if not (eqz a.height b.height)
    then ltz b.height a.height
    else bytes_ltb (id_string b.id) (id_string a.id)

unfoldable pub sort_thread_canonical_desc :
    {F : Type 0} → List (ThreadComment F) → List (ThreadComment F)
sort_thread_canonical_desc cs = slice_stable thread_greater cs

abbrev pub topic_less : Topic → Topic → Bool
topic_less a b = ltz a.created_height b.created_height

unfoldable pub sort_topics : List Topic → List Topic
sort_topics ts = slice_stable topic_less ts

unfoldable pub page {ℓ} : {A : Type ℓ} → List A → ℤ → ℤ → List A
page items limit offset =
    let from = if ltz offset (pos 0) then pos 0 else offset in
    if lez (pos (length items)) from
    then []
    else let rest = drop (pos_part from) items in
      if ltz (pos 0) limit && ltz limit (pos (length rest))
      then take (pos_part limit) rest
      else rest
