-- ===== src/Store/Sqlite/Refines/Gone.antt =====
-- store/sqlite.go against store/memory.go: DeleteFromHeight, statement by statement.
use coinnews_indexer.Prelude.{
  ◌≡◌, refl, ap, ◌∙◌, List, [], ◌∷◌, none, true, false, not, ◌&&◌, arith, keep, All-map, bytes_eq,
  bytes_beq, bytes_beq_iff, Bool-cases, beq_sym, inl, inr,
}
use coinnews_indexer.Prelude.Int.{ℤ, lez}
use coinnews_indexer.Codec.Types.{Bytes}
use coinnews_indexer.GoMap.{GoMap, get, delete, Distinct}
use coinnews_indexer.Store.Types.{Item}
use coinnews_indexer.Store.Sql.{any}
use coinnews_indexer.Store.Sql.Laws.{
  keyed, get-keyed, read_row, keyed-delete, keep-keep, keep_congr, keep_ext, Distinct-find,
}
use coinnews_indexer.Store.Memory.Deletes.{deletes}
use coinnews_indexer.Store.Memory.Rewind.{from_height}
use coinnews_indexer.Store.Sqlite.{gone}

abbrev pub items_of : List Item → GoMap Bytes Item
items_of items = keyed (λ r. r.id) (λ r. r) items

deletes-here :
    {B : Type 0} (h : ℤ) (it : Item) (items : List Item) (l : GoMap Bytes B)
    → lez h it.height ≡ true
    → deletes h (items_of (it ∷ items)) l ≡ deletes h (items_of items) (delete l it.id)
unfolding deletes keyed
deletes-here h it items l e = rw (deletes, e)

deletes-there :
    {B : Type 0} (h : ℤ) (it : Item) (items : List Item) (l : GoMap Bytes B)
    → lez h it.height ≡ false
    → deletes h (items_of (it ∷ items)) l ≡ deletes h (items_of items) l
unfolding deletes keyed
deletes-there h it items l e = rw (deletes, e)

module _ {A B : Type 0} (key : A → Bytes) (read : A → B) where
  -- The loop of the in-memory backend is the DELETE with the subquery.
  pub deletes-keyed :
      (h : ℤ) (items : List Item) (rows : List A)
      → deletes h (items_of items) (keyed key read rows)
        ≡ keyed key read (keep (λ r. not (gone h items (key r))) rows)
  unfolding deletes keyed gone any
  deletes-keyed h [] rows = ap (keyed key read) (keep_all rows)
    where
      keep_all : (l : List A) → l ≡ keep (λ r. true) l
      keep_all [] = refl
      keep_all (x ∷ l) = ap (◌∷◌ x) (keep_all l)
  deletes-keyed h (it ∷ items) rows = elim (Bool-cases (lez h it.height)) [
    | inl e ↦
        deletes-here h it items (keyed key read rows) e
        ∙ (ap (deletes h (items_of items)) (keyed-delete key read it.id rows)
            ∙ deletes-keyed h items (keep (λ r. not (bytes_beq (key r) it.id)) rows)
            ∙ ap (keyed key read) (keep-keep _ _ rows ∙ keep_ext _ _ (λ r. here r e) rows))
    | inr e ↦
        deletes-there h it items (keyed key read rows) e
        ∙ (deletes-keyed h items rows ∙ ap (keyed key read) (keep_ext _ _ (λ r. there r e) rows))
  ]
    where
      here :
          (r : A)
          → lez h it.height ≡ true
          → (not (bytes_beq (key r) it.id) && not (gone h items (key r)))
            ≡ not (gone h (it ∷ items) (key r))
      here r e = rw e (ground (arith, beq_sym (key r) it.id))

      there :
          (r : A)
          → lez h it.height ≡ false
          → not (gone h items (key r)) ≡ not (gone h (it ∷ items) (key r))
      there r e = rw e

gone_absent :
    (h : ℤ) (items : List Item) (k : Bytes) → get (items_of items) k ≡ none → gone h items k ≡ false
unfolding gone any get keyed
gone_absent h [] k e = refl
gone_absent h (it ∷ items) k e = ground (arith, gone_absent h items k)

gone_lem :
    (h : ℤ) (items : List Item) (k : Bytes)
    → Distinct (items_of items)
    → gone h items k ≡ from_height h (get (items_of items) k)
unfolding gone any get keyed
gone_lem h [] k d = refl
gone_lem h (it ∷ items) k (fresh, d) = elim (Bool-cases (bytes_beq it.id k)) [
  | inl same ↦ ground (arith, gone_absent h items k (rw ((bytes_beq_iff it.id k).0 same) at fresh))
  | inr other ↦ ground (arith, gone_lem h items k d)
]

-- Where ids are distinct, the items that go are those from the height on.
pub keep-gone :
    (h : ℤ) (items : List Item)
    → Distinct (items_of items)
    → keep (λ it. not (gone h items it.id)) items ≡ keep (λ it. not (lez h it.height)) items
keep-gone h items d = keep_congr _ _ items (
    All-map _ _
      (λ it found. ap not (
        gone_lem h items it.id d
        ∙ ap (from_height h)
            (get-keyed _ _ items it.id ∙ ap (read_row (λ r. r.id) (λ r. r)) found)))
      items (Distinct-find _ _ items d))
