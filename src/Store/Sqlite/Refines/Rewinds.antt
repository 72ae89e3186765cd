-- ===== src/Store/Sqlite/Refines/Rewinds.antt =====
-- store/sqlite.go against store/memory.go: the transaction of DeleteFromHeight.
use coinnews_indexer.Prelude.{
  ◌≡◌, refl, sym, ap, ◌∙◌, List, [], ◌∷◌, Bool, false, not, ◌&&◌, ◌||◌, keep, All-keep, arith,
  bytes_eq,
}
use mathlib.Core.Path.{subst}
use coinnews_indexer.Prelude.Int.{ℤ, lez}
use coinnews_indexer.Codec.Types.{Result, ok}
use coinnews_indexer.Codec.Crypto.{Crypto}
use coinnews_indexer.GoMap.{retain, Distinct}
use coinnews_indexer.Store.Types.{vote_key_eq}
use coinnews_indexer.Store.Sql.{any}
use coinnews_indexer.Store.Sql.Laws.{keyed-retain, any-keep}
use coinnews_indexer.Store.Memory as Memory
use coinnews_indexer.Store.Memory.{MemoryStore}
use coinnews_indexer.Store.Memory.Deletes.{delete_items-IsDeleted, deletes, deletes-Distinct}
use coinnews_indexer.Store.Sqlite.{
  gone, delete_stories, delete_comments, delete_votes, delete_continuations, delete_topics,
  delete_items, delete_statements,
}
use coinnews_indexer.Store.Sqlite.Schema.{Tables, vote_key_of}
use coinnews_indexer.Store.Sqlite.Refines.{Stored, topic_of}
use coinnews_indexer.Store.Sqlite.Refines.Gone.{items_of, deletes-keyed, keep-gone}
use coinnews_indexer.Scanner.Simulate.{HasId}

-- The statements all succeed, one after the other.
unfoldable pub Runs : {T : Type 0} → List (T → Result (Unit {0} × T)) → T → T → Type 0
Runs [] t u = t ≡ u
Runs {T} (f ∷ fs) t u = (v : T) × (f t ≡ ok (tt, v)) × Runs fs v u

-- The tables without what stands on the height or above it.
unfoldable pub rewound : ℤ → Tables → Tables
rewound h t = record t {
  cn_stories = keep (λ s. not (gone h t.cn_items s.item_id)) t.cn_stories;
  cn_comments = keep (λ c. not (gone h t.cn_items c.item_id)) t.cn_comments;
  cn_votes = keep (λ v. not (lez h v.height)) t.cn_votes;
  cn_continuations = keep (λ c. not (lez h c.height)) t.cn_continuations;
  cn_topics = keep (λ r. not (lez h r.created_height)) t.cn_topics;
  cn_items = keep (λ it. not (lez h it.height)) t.cn_items;
}

-- No foreign key stands in the way, since the stories and comments of the items go first.
unreferenced :
    (on : Bool) {A B : Type 0} (p : A → Bool) (q : B → Bool) (xs : List A) (ys : List B)
    → (on && (any p (keep (λ a. not (p a)) xs) || any q (keep (λ b. not (q b)) ys))) ≡ false
unreferenced on p q xs ys = ground (arith, any-keep p xs, any-keep q ys)

pub delete_statements-Runs : (h : ℤ) (t : Tables) → Runs (delete_statements h) t (rewound h t)
unfolding Runs delete_statements delete_stories delete_comments delete_votes delete_continuations
    delete_topics delete_items rewound
delete_statements-Runs h t = (_, refl, (_, refl, (_, refl, (_, refl, (_, refl, (_, free, refl))))))
  where
    free :
        delete_items h (record t {
          cn_stories = (rewound h t).cn_stories;
          cn_comments = (rewound h t).cn_comments;
          cn_votes = (rewound h t).cn_votes;
          cn_continuations = (rewound h t).cn_continuations;
          cn_topics = (rewound h t).cn_topics;
        })
        ≡ ok (tt, rewound h t)
    free = rw (
        unreferenced t.foreign_keys (λ s. gone h t.cn_items s.item_id)
          (λ c. gone h t.cn_items c.item_id) t.cn_stories t.cn_comments)

pub rewound-Stored :
    (crypto : Crypto) (h : ℤ) (t : Tables) (m : MemoryStore)
    → Stored crypto t m
    → Stored crypto (rewound h t) (Memory.delete_from_height h m)
unfolding rewound Memory.delete_from_height Memory.load_cursor topic_of
rewound-Stored crypto h t m s =
    let d = delete_items-IsDeleted h m.items m in
    let distinct : Distinct (items_of t.cn_items) = subst Distinct s.items s.distinct in
    record {
      items =
          d.items
          ∙ ap (λ l. deletes h l l) s.items
          ∙ deletes-keyed _ _ h t.cn_items t.cn_items
          ∙ ap items_of (keep-gone h t.cn_items distinct);
      topics =
          ap (retain _) (d.topics ∙ s.topics) ∙ keyed-retain (λ r. r.topic) topic_of _ t.cn_topics;
      stories =
          d.stories
          ∙ ap (λ l. deletes h l m.stories) s.items
          ∙ ap (deletes h (items_of t.cn_items)) s.stories
          ∙ deletes-keyed _ _ h t.cn_items t.cn_stories;
      comments =
          d.comments
          ∙ ap (λ l. deletes h l m.comments) s.items
          ∙ ap (deletes h (items_of t.cn_items)) s.comments
          ∙ deletes-keyed _ _ h t.cn_items t.cn_comments;
      votes = ap (retain _) (d.votes ∙ s.votes) ∙ keyed-retain vote_key_of (λ v. v) _ t.cn_votes;
      cursor = d.cursor ∙ s.cursor;
      distinct = subst Distinct (sym d.items) (deletes-Distinct h m.items m.items s.distinct);
      ids = All-keep (HasId crypto) _ t.cn_items s.ids;
    }
