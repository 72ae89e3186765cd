-- ===== src/Store/Memory/Deletes.antt =====
-- store/memory.go: the first loop of DeleteFromHeight, map by map.
use coinnews_indexer.Prelude.{
  ◌≡◌, refl, ap, ◌∙◌, [], ◌∷◌, if◌then◌else◌, bytes_eq, Bool-cases, inl, inr,
}
use coinnews_indexer.Prelude.Int.{ℤ, lez}
use coinnews_indexer.Codec.Types.{Bytes}
use coinnews_indexer.GoMap.{GoMap, delete, Distinct}
use coinnews_indexer.GoMap.Laws.{Distinct-delete}
use coinnews_indexer.Store.Types.{Item}
use coinnews_indexer.Store.Memory.{MemoryStore, delete_item, delete_items, load_cursor}

-- What the loop leaves of one map.
unfoldable pub deletes : {B : Type 0} → ℤ → GoMap Bytes Item → GoMap Bytes B → GoMap Bytes B
deletes h [] l = l
deletes h ((id, it) ∷ items) l = deletes h items (if lez h it.height then delete l id else l)

pub record IsDeleted (h : ℤ) (l : GoMap Bytes Item) (m m' : MemoryStore) : Type 0 where
  pub items : m'.items ≡ deletes h l m.items
  pub stories : m'.stories ≡ deletes h l m.stories
  pub comments : m'.comments ≡ deletes h l m.comments
  pub votes : m'.votes ≡ m.votes
  pub topics : m'.topics ≡ m.topics
  pub cursor : load_cursor m' ≡ load_cursor m

IsDeleted-item :
    (h : ℤ) (id : Bytes) (it : Item) (m : MemoryStore)
    → IsDeleted h ((id, it) ∷ []) m (delete_item h m id it)
unfolding delete_item deletes load_cursor
IsDeleted-item h id it m = elim (Bool-cases (lez h it.height)) [
  | inl e ↦ record {
    items = rw e;
    stories = rw e;
    comments = rw e;
    votes = rw e;
    topics = rw e;
    cursor = rw e;
  }
  | inr e ↦ record {
    items = rw e;
    stories = rw e;
    comments = rw e;
    votes = rw e;
    topics = rw e;
    cursor = rw e;
  }
]

pub delete_items-IsDeleted :
    (h : ℤ) (l : GoMap Bytes Item) (m : MemoryStore) → IsDeleted h l m (delete_items h l m)
unfolding delete_items deletes
delete_items-IsDeleted h [] m = record {
  items = refl;
  stories = refl;
  comments = refl;
  votes = refl;
  topics = refl;
  cursor = refl;
}
delete_items-IsDeleted h ((id, it) ∷ l) m =
    let one = IsDeleted-item h id it m in
    let more = delete_items-IsDeleted h l (delete_item h m id it) in
    record {
      items = more.items ∙ ap (deletes h l) one.items;
      stories = more.stories ∙ ap (deletes h l) one.stories;
      comments = more.comments ∙ ap (deletes h l) one.comments;
      votes = more.votes ∙ one.votes;
      topics = more.topics ∙ one.topics;
      cursor = more.cursor ∙ one.cursor;
    }

pub deletes-Distinct :
    {B : Type 0} (h : ℤ) (items : GoMap Bytes Item) (l : GoMap Bytes B)
    → Distinct l
    → Distinct (deletes h items l)
unfolding deletes
deletes-Distinct h [] l d = d
deletes-Distinct h ((id, it) ∷ items) l d = elim (Bool-cases (lez h it.height)) [
  | inl e ↦ rw e (deletes-Distinct h items (delete l id) (Distinct-delete l id d))
  | inr e ↦ rw e (deletes-Distinct h items l d)
]
