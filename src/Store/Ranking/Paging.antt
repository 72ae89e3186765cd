-- ===== src/Store/Ranking/Paging.antt =====
-- store/store.go: page, for one page and for pages one after the other.
use coinnews_indexer.Prelude.{
  ℕ, zero, suc, ◌+◌, ◌*◌, ◌<◌, ◌≤◌, ◌≡◌, refl, ap, ◌∙◌, List, [], ◌∷◌, ◌++◌, arith, take, drop,
  length, take_all, length-drop,
}
use coinnews_indexer.Prelude.Int.{ℤ, pos, negsuc, pos_part}
use coinnews_indexer.Store.Ranking.{page}

module _ {A : Type 0} where
  drop_all : (n : ℕ) (l : List A) → length l ≤ n → drop n l ≡ []
  drop_all zero [] h = refl
  drop_all zero (x ∷ l) h = absurd (omega arith)
  drop_all (suc n) [] h = refl
  drop_all (suc n) (x ∷ l) h = drop_all n l (omega arith)

  take_nil : (n : ℕ) → take {A = A} n [] ≡ []
  take_nil zero = refl
  take_nil (suc n) = refl

  -- A page of positive size at an offset from 0 on is the slice of that size at the offset, cut at
  -- the end of the list.
  pub page-slice :
      (items : List A) (limit offset : ℕ)
      → 0 < limit
      → page items (pos limit) (pos offset) ≡ take limit (drop offset items)
  unfolding page
  page-slice items limit offset h = ground (
    arith,
    drop_all offset items,
    take_all limit (drop offset items),
    take_nil limit,
    length-drop offset items,
  )

  -- A page of size 0 or below is everything from the offset on.
  pub page_unlimited :
      (items : List A) (limit : ℤ) (offset : ℕ)
      → pos_part limit ≡ 0
      → page items limit (pos offset) ≡ drop offset items
  unfolding page
  page_unlimited items limit offset h = ground (arith, drop_all offset items)

  -- A negative offset counts as 0.
  pub page_negative :
      (items : List A) (limit : ℤ) (n : ℕ) → page items limit (negsuc n) ≡ page items limit (pos 0)
  unfolding page
  page_negative items limit n = ground arith

  -- The first `n` pages of a size, one after the other.
  pub pages : List A → ℕ → ℕ → List A
  pages items limit zero = []
  pages items limit (suc n) = pages items limit n ++ page items (pos limit) (pos (n * limit))

  take_plus : (m n : ℕ) (l : List A) → take m l ++ take n (drop m l) ≡ take (m + n) l
  take_plus zero n l = ap (λ k. take k l) (omega arith)
  take_plus (suc m) n [] = rw (take_nil n, take_nil (suc m + n))
  take_plus (suc m) n (x ∷ l) =
      let e : suc m + n ≡ suc (m + n) = omega arith in rw e (ap (◌∷◌ x) (take_plus m n l))

  -- Consecutive pages of one positive size are a front of the listing: nothing is shown twice, and
  -- nothing is left out.
  pub pages-take :
      (items : List A) (limit n : ℕ) → 0 < limit → pages items limit n ≡ take (n * limit) items
  unfolding pages
  pages-take items limit zero h = let e : 0 * limit ≡ 0 = omega arith in rw e
  pages-take items limit (suc n) h =
      rw (pages-take items limit n h, page-slice items limit (n * limit) h)
        (take_plus (n * limit) limit items ∙ ap (λ k. take k items) (grind arith))
