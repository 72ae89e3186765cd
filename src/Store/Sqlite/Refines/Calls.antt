-- ===== src/Store/Sqlite/Refines/Calls.antt =====
-- store/sqlite.go against store/memory.go: each statement on the tables does what the in-memory
-- backend's method does.
use coinnews_indexer.Prelude.{
  Eq, ◌≡◌, refl, sym, ap, ◌∙◌, List, [], ◌∷◌, ◌++◌, Option, none, some, true, false, ◌&&◌, ◌==◌,
  arith, All, All-append, bytes_eq, bytes_beq, bytes_beq_iff, Option-cases, Bool-cases, inl, inr,
  ◌⊎◌, nat_eq,
}
use mathlib.Core.Path.{subst}
use coinnews_indexer.Prelude.Int.{ℤ}
use coinnews_indexer.Codec.Types.{Bytes, Result, ok}
use coinnews_indexer.Codec.Crypto.{Crypto}
use coinnews_indexer.Codec.ItemId.{item_id_from_rpc}
use coinnews_indexer.GoMap.{GoMap, get, put}
use coinnews_indexer.GoMap.Laws.{Distinct-put}
use coinnews_indexer.Store.Types.{Item, Topic, vote_key_eq}
use coinnews_indexer.Store.Sql.{find_by, any}
use coinnews_indexer.Store.Sql.Laws.{keyed, get-keyed, read_row, keyed-append}
use coinnews_indexer.Store.Memory as Memory
use coinnews_indexer.Store.Memory.{MemoryStore, later_than, vote_key, out_key}
use coinnews_indexer.Store.Sqlite.{
  save_cursor, load_cursor, put_item, insert_topic_if_absent, item_by_id,
}
use coinnews_indexer.Store.Sqlite.Schema.{Tables, topic_row, pair_eq}
use coinnews_indexer.Store.Sqlite.Refines.{Stored, topic_of, topic_of-topic_row}
use coinnews_indexer.Scanner.Simulate.{HasId}

module _ (crypto : Crypto) where
  -- The statement succeeds with the method's result, on tables that hold what the method leaves.
  unfoldable pub Does : {A : Type 0} → Result (A × Tables) → A × MemoryStore → Type 0
  Does {A} r g = (t : Tables) × (r ≡ ok (g.0, t)) × Stored crypto t g.1

  pub does :
      {A : Type 0} {r : Result (A × Tables)} {g : A × MemoryStore} (a : A) (t : Tables)
      (m : MemoryStore)
      → r ≡ ok (a, t)
      → g ≡ (a, m)
      → Stored crypto t m
      → Does r g
  unfolding Does
  does a t m e e' s = (
    t,
    e ∙ ap (λ p. ok (p, t)) (sym (ap (λ p. p.0) e')),
    subst (λ p. Stored crypto t p.1) (sym e') s,
  )

  pub save_cursor-Does :
      (h : ℤ) (hash : Bytes) (t : Tables) (m : MemoryStore)
      → Stored crypto t m
      → Does (save_cursor h hash t) (tt, Memory.save_cursor h hash m)
  unfolding save_cursor Memory.save_cursor Memory.load_cursor
  save_cursor-Does h hash t m s =
      does tt (record t { cn_scanner_cursor = some (h, hash) }) (Memory.save_cursor h hash m) refl
        refl
        (record {
          items = s.items;
          topics = s.topics;
          stories = s.stories;
          comments = s.comments;
          votes = s.votes;
          cursor = refl;
          distinct = s.distinct;
          ids = s.ids;
        })

  pub load_cursor-Does :
      (t : Tables) (m : MemoryStore)
      → Stored crypto t m
      → Does (load_cursor t) (Memory.load_cursor m, m)
  unfolding Does load_cursor
  load_cursor-Does t m s = (t, ap (λ c. ok (c, t)) (sym s.cursor), s)

  -- A key is looked up in a table as in the map.
  pub looked_up :
      {K A B : Type 0} ⦃e : Eq K⦄ (key : A → K) (read : A → B) (l : GoMap K B) (rows : List A)
      (k : K) (o : Option A)
      → l ≡ keyed key read rows
      → find_by key rows k ≡ o
      → get l k ≡ read_row key read o
  looked_up key read l rows k o h f =
      ap (λ x. get x k) h ∙ get-keyed key read rows k ∙ ap (read_row key read) f

  pub item_by_id-Does :
      (id : Bytes) (t : Tables) (m : MemoryStore)
      → Stored crypto t m
      → Does (item_by_id id t) (Memory.item_by_id id m, m)
  unfolding Does item_by_id Memory.item_by_id
  item_by_id-Does id t m s = (
    t,
    ap (λ o. ok (o, t)) (found_row _ ∙ sym (looked_up _ _ m.items t.cn_items id _ s.items refl)),
    s,
  )
    where
      found_row : (o : Option Item) → o ≡ read_row (λ r. r.id) (λ r. r) o
      found_row none = refl
      found_row (some it) = refl

  same_id :
      (r it : Item)
      → r.txid ≡ it.txid
      → r.vout ≡ it.vout
      → HasId crypto r
      → HasId crypto it
      → bytes_beq r.id it.id ≡ true
  unfolding HasId
  same_id r it e e' h i = (bytes_beq_iff r.id it.id).1 (
      ok_injective r.id it.id (
        sym h
        ∙ ap (λ x. item_id_from_rpc crypto x r.vout) e
        ∙ ap (item_id_from_rpc crypto it.txid) e'
        ∙ i))
    where
      ok_injective : (a b : Bytes) → ok a ≡ ok b → a ≡ b
      ok_injective a b q = cc q

  not_first :
      (r it : Item) (rows : List Item)
      → find_by (λ r. r.id) (r ∷ rows) it.id ≡ none
      → (bytes_beq r.id it.id ≡ true) ⊎ (bytes_beq r.id it.id ≡ false)
      → find_by (λ r. r.id) rows it.id ≡ none
  unfolding find_by
  not_first r it rows f (inl same) = cc (rw same at f)
  not_first r it rows f (inr other) = rw other at f

  -- Two items of one outpoint have one id.
  unique-outpoint :
      (it : Item) (rows : List Item)
      → HasId crypto it
      → All (HasId crypto) rows
      → find_by (λ r. r.id) rows it.id ≡ none
      → any (λ r. bytes_beq r.txid it.txid && (r.vout == it.vout)) rows ≡ false
  unfolding any find_by HasId
  unique-outpoint it [] i h f = refl
  unique-outpoint it (r ∷ rows) i (hr, h) f =
      elim (Bool-cases (bytes_beq r.txid it.txid && (r.vout == it.vout))) [
        | inl same ↦ cc (sym f ∙ first_found same)
        | inr other ↦ rw other (
            unique-outpoint it rows i h (not_first r it rows f (Bool-cases (bytes_beq r.id it.id))))
      ]
    where
      first_found :
          (bytes_beq r.txid it.txid && (r.vout == it.vout)) ≡ true
          → find_by (λ r. r.id) (r ∷ rows) it.id ≡ some r
      first_found same =
          rw (same_id r it ((bytes_beq_iff r.txid it.txid).0 (ground arith)) (ground arith) hr i)

  pub put_item-Does :
      (it : Item) (t : Tables) (m : MemoryStore)
      → HasId crypto it
      → Stored crypto t m
      → Does (put_item it t) (tt, Memory.put_item it m)
  unfolding put_item Memory.put_item Memory.load_cursor
  put_item-Does it t m i s = elim (Option-cases (find_by (λ r. r.id) t.cn_items it.id)) [
    | inr (r, found) ↦
        does tt t m (rw (put_item, found))
          (rw (Memory.put_item, looked_up _ _ m.items t.cn_items it.id _ s.items found)) s
    | inl fresh ↦
        let absent = looked_up _ _ m.items t.cn_items it.id _ s.items fresh in
        does tt (record t { cn_items = t.cn_items ++ (it ∷ []) })
          (record m {
            items = put m.items it.id it;
            by_out = put m.by_out (out_key it.txid it.vout) it.id;
          })
          (rw (put_item, fresh, unique-outpoint it t.cn_items i s.ids fresh))
          (rw (Memory.put_item, absent))
          (record {
            items = ap (λ l. put l it.id it) s.items ∙ keyed-append _ _ t.cn_items it fresh;
            topics = s.topics;
            stories = s.stories;
            comments = s.comments;
            votes = s.votes;
            cursor = s.cursor;
            distinct = Distinct-put m.items it.id it s.distinct;
            ids = All-append (HasId crypto) t.cn_items (it ∷ []) s.ids (i, tt);
          })
  ]

  pub insert_topic-Does :
      (topic : Topic) (t : Tables) (m : MemoryStore)
      → topic.story_count ≡ 0
      → Stored crypto t m
      → Does (insert_topic_if_absent topic t) (Memory.insert_topic_if_absent topic m)
  unfolding insert_topic_if_absent Memory.insert_topic_if_absent Memory.load_cursor topic_row
  insert_topic-Does topic t m z s =
      elim (Option-cases (find_by (λ r. r.topic) t.cn_topics topic.topic)) [
        | inr (r, found) ↦
            does false t m (rw (insert_topic_if_absent, found))
              (rw (
                Memory.insert_topic_if_absent,
                looked_up _ _ m.topics t.cn_topics topic.topic _ s.topics found,
              ))
              s
        | inl fresh ↦
            let absent = looked_up _ _ m.topics t.cn_topics topic.topic _ s.topics fresh in
            does true (record t { cn_topics = t.cn_topics ++ (topic_row topic ∷ []) })
              (record m { topics = put m.topics topic.topic topic })
              (rw (insert_topic_if_absent, fresh)) (rw (Memory.insert_topic_if_absent, absent))
              (record {
                items = s.items;
                topics =
                    ap (λ l. put l topic.topic topic) s.topics
                    ∙ ap (put (keyed (λ r. r.topic) topic_of t.cn_topics) topic.topic)
                        (sym (topic_of-topic_row topic z))
                    ∙ keyed-append (λ r. r.topic) topic_of t.cn_topics (topic_row topic) fresh;
                stories = s.stories;
                comments = s.comments;
                votes = s.votes;
                cursor = s.cursor;
                distinct = s.distinct;
                ids = s.ids;
              })
      ]
