-- ===== src/Store/Sqlite/Topics/Counts.antt =====
-- store/sqlite.go against store/memory.go: the story counts of `ListTopics`.
use coinnews_indexer.Prelude.{
  ℕ, zero, suc, ◌+◌, ◌≡◌, refl, sym, ap, ◌∙◌, List, [], ◌∷◌, ◌++◌, Option, none, some, false,
  if◌then◌else◌, bytes_beq, bytes_eq, bytes_beq_iff, refl_beq, arith, Bool-cases, Option-cases, inl,
  inr,
}
use mathlib.Core.Option as Options
use coinnews_indexer.Codec.Types.{Bytes}
use coinnews_indexer.GoMap.{GoMap, get, put, Distinct}
use coinnews_indexer.GoMap.Laws.{get-put, Distinct-put}
use coinnews_indexer.Store.Types.{Topic, Story}
use coinnews_indexer.Store.Sql.{count}
use coinnews_indexer.Store.Sql.Laws.{keyed}
use coinnews_indexer.Store.Memory.Reads.{count_story, count_stories, values}
use coinnews_indexer.Store.Sqlite.Schema.{StoryRow}
use coinnews_indexer.Store.Sqlite.Refines.{story_of}
use coinnews_indexer.Store.Sqlite.Topics.{group_stories, count_or_zero, attach_counts, in_order}

-- The keys of a map, in its order.
unfoldable pub keys : {V : Type 0} → GoMap Bytes V → List Bytes
keys [] = []
keys ((k, v) ∷ l) = k ∷ keys l

pub keys-put_new :
    {V : Type 0} (l : GoMap Bytes V) (k : Bytes) (v : V)
    → get l k ≡ none
    → keys (put l k v) ≡ keys l ++ (k ∷ [])
unfolding keys put get
keys-put_new [] k v h = refl
keys-put_new ((j, w) ∷ l) k v h = elim (Bool-cases (bytes_beq j k)) [
  | inl e ↦ ground (arith, h)
  | inr e ↦ rw e (ap (λ r. j ∷ r) (keys-put_new l k v (rw e at h)))
]

keys-put_old :
    {V : Type 0} (l : GoMap Bytes V) (k : Bytes) (v w : V)
    → get l k ≡ some w
    → keys (put l k v) ≡ keys l
unfolding keys put get
keys-put_old [] k v w h = ground (arith, h)
keys-put_old ((j, x) ∷ l) k v w h = elim (Bool-cases (bytes_beq j k)) [
  | inl e ↦ rw (e, (bytes_beq_iff j k).0 e) refl
  | inr e ↦ rw e (ap (λ r. j ∷ r) (keys-put_old l k v w (rw e at h)))
]

-- Rows in the order of the keys.
in_order-fresh :
    (l rest : GoMap Bytes Topic) (i : Bytes) (v : Topic)
    → get l i ≡ none
    → in_order (keys l) ((i, v) ∷ rest) ≡ in_order (keys l) rest
unfolding keys in_order get
in_order-fresh [] rest i v h = refl
in_order-fresh ((j, w) ∷ l) rest i v h = elim (Bool-cases (bytes_beq j i)) [
  | inl e ↦ ground (arith, h)
  | inr e ↦
      let other : bytes_beq i j ≡ false = ground (arith, bytes_beq_iff i j, bytes_beq_iff j i) in
      rw (other, in_order-fresh l rest i v (rw e at h)) refl
]

pub in_order-values : (l : GoMap Bytes Topic) → Distinct l → in_order (keys l) l ≡ some (values l)
unfolding keys in_order values get
in_order-values [] d = refl
in_order-values ((i, v) ∷ l) (fresh, d) =
    rw (refl_beq i, in_order-fresh l l i v fresh, in_order-values l d) refl

pub in_order-same :
    (ks : List Bytes) (a b : GoMap Bytes Topic)
    → ((k : Bytes) → get a k ≡ get b k)
    → in_order ks a ≡ in_order ks b
unfolding in_order
in_order-same [] a b h = refl
in_order-same (k ∷ ks) a b h = rw (h k, in_order-same ks a b h) refl

-- The counts of the in-memory backend, topic by topic.
unfoldable pub more : ℕ → Topic → Topic
more n t = record t { story_count = t.story_count + n }

unfoldable pub stories_on : Bytes → List StoryRow → ℕ
stories_on k rows = count (λ r. bytes_beq r.topic k) rows

none_more : (o : Option Topic) → o ≡ Options.map (more 0) o
unfolding more
none_more none = refl
none_more (some t) = ground arith

get-count_story :
    (m : GoMap Bytes Topic) (s : Story) (k : Bytes)
    → get (count_story m s) k ≡ Options.map (more (if bytes_beq s.topic k then 1 else 0)) (get m k)
unfolding count_story more
get-count_story m s k = elim (Bool-cases (bytes_beq s.topic k)) [
  | inl e ↦
      let q = (bytes_beq_iff s.topic k).0 e in
      elim (Option-cases (get m s.topic)) [
        | inl h ↦ rw (e, count_story, h, sym q, h) refl
        | inr (t, h) ↦
            rw
              (
                count_story,
                h,
                get-put m s.topic k (record t { story_count = t.story_count + 1 }),
                e,
                sym q,
                h,
              )
              refl
      ]
  | inr e ↦ elim (Option-cases (get m s.topic)) [
    | inl h ↦ rw (e, count_story, h) (none_more (get m k))
    | inr (t, h) ↦
        rw (count_story, h, get-put m s.topic k (record t { story_count = t.story_count + 1 }), e)
          (none_more (get m k))
  ]
]

more-more :
    (a b : ℕ) (o : Option Topic)
    → Options.map (more b) (Options.map (more a) o) ≡ Options.map (more (a + b)) o
unfolding more
more-more a b none = refl
more-more a b (some t) = ground arith

-- What counting the stories of the rows leaves for a topic.
pub get-count_stories :
    (rows : List StoryRow) (m : GoMap Bytes Topic) (k : Bytes)
    → get (count_stories (keyed (λ r. r.item_id) story_of rows) m) k
      ≡ Options.map (more (stories_on k rows)) (get m k)
unfolding count_stories keyed story_of stories_on count
get-count_stories [] m k = none_more (get m k)
get-count_stories (r ∷ rows) m k =
    get-count_stories rows (count_story m (story_of r)) k
    ∙ ap (Options.map (more (stories_on k rows))) (get-count_story m (story_of r) k)
    ∙ more-more (if bytes_beq r.topic k then 1 else 0) (stories_on k rows) (get m k)
    ∙ ap (λ n. Options.map (more n) (get m k)) (ground arith)

keys-count_story : (m : GoMap Bytes Topic) (s : Story) → keys (count_story m s) ≡ keys m
unfolding count_story
keys-count_story m s = elim (Option-cases (get m s.topic)) [
  | inl h ↦ rw (count_story, h) refl
  | inr (t, h) ↦ rw (count_story, h) (keys-put_old m s.topic _ t h)
]

Distinct-count_story : (m : GoMap Bytes Topic) (s : Story) → Distinct m → Distinct (count_story m s)
unfolding count_story
Distinct-count_story m s d = elim (Option-cases (get m s.topic)) [
  | inl h ↦ rw (count_story, h) d
  | inr (t, h) ↦ rw (count_story, h) (Distinct-put m s.topic _ d)
]

pub count_stories-keeps :
    (ss : GoMap Bytes Story) (m : GoMap Bytes Topic)
    → Distinct m
    → (keys (count_stories ss m) ≡ keys m) × Distinct (count_stories ss m)
unfolding count_stories
count_stories-keeps [] m d = (refl, d)
count_stories-keeps ((k, s) ∷ ss) m d =
    let rest = count_stories-keeps ss (count_story m s) (Distinct-count_story m s d) in
    (rest.0 ∙ keys-count_story m s, rest.1)

-- The counts of the groups, topic by topic.
unfoldable pub counted : ℕ → Option ℕ
counted zero = none
counted (suc n) = some (suc n)

pub Distinct-group : (rows : List StoryRow) → Distinct (group_stories rows)
unfolding group_stories
Distinct-group [] = tt
Distinct-group (r ∷ rows) = Distinct-put (group_stories rows) r.topic _ (Distinct-group rows)

pub get-group :
    (rows : List StoryRow) (k : Bytes) → get (group_stories rows) k ≡ counted (stories_on k rows)
unfolding group_stories stories_on count counted count_or_zero get
get-group [] k = refl
get-group (r ∷ rows) k =
    get-put (group_stories rows) r.topic k _
    ∙ rw (get-group rows r.topic, get-group rows k)
        (elim (Bool-cases (bytes_beq r.topic k)) [
          | inr e ↦ rw e refl
          | inl e ↦ rw (e, (bytes_beq_iff r.topic k).0 e) (one_more (stories_on k rows))
        ])
  where
    one_more : (n : ℕ) → some (suc (count_or_zero (counted n))) ≡ counted (suc n)
    one_more zero = refl
    one_more (suc n) = refl

-- `StoryCount` where a group has been read.
unfoldable pub set_count : Option ℕ → Topic → Topic
set_count none t = t
set_count (some n) t = record t { story_count = n }

attach-nothing : (o : Option Topic) → o ≡ Options.map (set_count none) o
unfolding set_count
attach-nothing none = refl
attach-nothing (some t) = refl

pub get-attach :
    (g : GoMap Bytes ℕ) (m : GoMap Bytes Topic) (k : Bytes)
    → Distinct g
    → get (attach_counts g m) k ≡ Options.map (set_count (get g k)) (get m k)
unfolding attach_counts get set_count
get-attach [] m k d = attach-nothing (get m k)
get-attach ((id, n) ∷ g) m k (fresh, d) = elim (Option-cases (get m id)) [
  | inl h ↦ elim (Bool-cases (bytes_beq id k)) [
    | inl e ↦
        let q = (bytes_beq_iff id k).0 e in
        rw (attach_counts, h, e) (get-attach g m k d ∙ rw (sym q, h) refl)
    | inr e ↦ rw (attach_counts, h, e) (get-attach g m k d)
  ]
  | inr (t, h) ↦ elim (Bool-cases (bytes_beq id k)) [
    | inl e ↦
        let q = (bytes_beq_iff id k).0 e in
        rw (attach_counts, h, e)
          (get-attach g _ k d
            ∙ rw (get-put m id k (record t { story_count = n }), e, sym q, h, fresh) refl)
    | inr e ↦
        rw (attach_counts, h, e)
          (get-attach g _ k d ∙ rw (get-put m id k (record t { story_count = n }), e) refl)
  ]
]
