-- ===== src/Store/Sqlite/Thread/Reached.antt =====
-- store/sqlite.go: the recursive query of `Thread`.
use coinnews_indexer.Prelude.{
  ℕ, zero, suc, ◌+◌, ◌<◌, ◌≤◌, ◌≡◌, ◌⊎◌, ◌↔◌, inl, inr, refl, sym, ◌∙◌, List, [], ◌∷◌, ◌++◌, Bool,
  true, false, not, ◌||◌, ◌&&◌, if◌then◌else◌, map, length, length-append, bytes_beq, bytes_beq_iff,
  bytes_eq, refl_beq, Bool-cases, arith,
}
use mathlib.Core.Path.{subst}
use coinnews_indexer.Codec.Types.{Bytes}
use coinnews_indexer.Store.Sql.{any}
use coinnews_indexer.Store.Sqlite.Schema.{CommentRow}
use coinnews_indexer.Store.Sqlite.Thread.{has, replies, offer, walk, thread_ids}

-- The row is one of the table.
abbrev pub IsRow : CommentRow → List CommentRow → Type 0
IsRow r [] = ⊥
IsRow r (q ∷ rows) = (q ≡ r) ⊎ IsRow r rows

-- The comments that reply to the root, directly or through other comments of the table.
pub data Reached (rows : List CommentRow) (root : Bytes) : Bytes → Type 0 where
  reply : (r : CommentRow) → IsRow r rows → r.parent_id ≡ root → Reached rows root r.item_id
  further :
      (r : CommentRow) → IsRow r rows → Reached rows root r.parent_id → Reached rows root r.item_id

has-nil : (x : Bytes) → has [] x ≡ false
unfolding has any
has-nil x = refl

has-cons : (k : Bytes) (ks : List Bytes) (x : Bytes) → has (k ∷ ks) x ≡ (bytes_beq k x || has ks x)
unfolding has any
has-cons k ks x = refl

has-append : (xs ys : List Bytes) (x : Bytes) → has (xs ++ ys) x ≡ (has xs x || has ys x)
unfolding has any
has-append [] ys x = refl
has-append (k ∷ xs) ys x = ground (arith, has-append xs ys x)

-- What has been seen, and what waits, after some ids have been offered.
offer-seen :
    (ks queue seen : List Bytes) (x : Bytes)
    → has (offer ks (queue, seen)).1 x ≡ (has ks x || has seen x)
unfolding offer has any
offer-seen [] queue seen x = refl
offer-seen (k ∷ ks) queue seen x = elim (Bool-cases (has seen k)) [
  | inl e ↦ rw (offer, has, e) (offer-seen ks queue seen x ∙ ground (arith, bytes_beq_iff k x))
  | inr e ↦ rw (offer, has, e) (offer-seen ks _ (k ∷ seen) x ∙ ground arith)
]

offer-queue :
    (ks queue seen : List Bytes) (x : Bytes)
    → has (offer ks (queue, seen)).0 x ≡ (has queue x || (has ks x && not (has seen x)))
unfolding offer has any
offer-queue [] queue seen x = ground arith
offer-queue (k ∷ ks) queue seen x = elim (Bool-cases (has seen k)) [
  | inl e ↦ rw (offer, has, e) (offer-queue ks queue seen x ∙ ground (arith, bytes_beq_iff k x))
  | inr e ↦
      rw (offer, has, e)
        (offer-queue ks (queue ++ (k ∷ [])) (k ∷ seen) x
          ∙ rw (has-append queue (k ∷ []) x) (ground (arith, bytes_beq_iff k x)))
]

-- The rows that have not been seen.
unseen : List CommentRow → List Bytes → ℕ
unseen [] seen = 0
unseen (r ∷ rows) seen = (if has seen r.item_id then 0 else 1) + unseen rows seen

abbrev ids : List CommentRow → List Bytes
ids = map (λ r. r.item_id)

unseen_le :
    (rows : List CommentRow) (k : Bytes) (seen : List Bytes)
    → unseen rows (k ∷ seen) ≤ unseen rows seen
unfolding unseen has any
unseen_le [] k seen = omega arith
unseen_le (r ∷ rows) k seen = ground (arith, unseen_le rows k seen)

unseen_lt :
    (rows : List CommentRow) (k : Bytes) (seen : List Bytes)
    → has (ids rows) k ≡ true
    → has seen k ≡ false
    → unseen rows (k ∷ seen) < unseen rows seen
unfolding unseen has any
unseen_lt [] k seen i f = ground arith
unseen_lt (r ∷ rows) k seen i f = elim (Bool-cases (bytes_beq r.item_id k)) [
  | inl e ↦
      let q = (bytes_beq_iff r.item_id k).0 e in
      rw (q, f, refl_beq k) (ground (arith, unseen_le rows k seen))
  | inr e ↦ ground (arith, unseen_le rows k seen, unseen_lt rows k seen (rw e at i) f)
]

offer_measure :
    (rows : List CommentRow) (ks queue seen : List Bytes)
    → ((x : Bytes) → has ks x ≡ true → has (ids rows) x ≡ true)
    → length (offer ks (queue, seen)).0 + unseen rows (offer ks (queue, seen)).1
      ≤ length queue + unseen rows seen
unfolding offer has any
offer_measure rows [] queue seen h = omega arith
offer_measure rows (k ∷ ks) queue seen h = elim (Bool-cases (has seen k)) [
  | inl e ↦ rw (offer, has, e) (offer_measure rows ks queue seen λ x g. h x (ground arith))
  | inr e ↦
      let less = unseen_lt rows k seen (h k (ground (arith, refl_beq k))) e in
      let rest = offer_measure rows ks (queue ++ (k ∷ [])) (k ∷ seen) λ x g. h x (ground arith) in
      rw (offer, has, e) (omega (arith, length-append queue (k ∷ [])))
]

replies-ids :
    (p : Bytes) (rows : List CommentRow) (x : Bytes)
    → has (replies p rows) x ≡ true
    → has (ids rows) x ≡ true
unfolding replies has any
replies-ids p [] x h = h
replies-ids p (r ∷ rows) x h = ground (arith, replies-ids p rows x)

-- A reply is the id of a row with the parent.
replies-IsRow :
    (p : Bytes) (rows : List CommentRow) (x : Bytes)
    → has (replies p rows) x ≡ true
    → (r : CommentRow) × IsRow r rows × (r.parent_id ≡ p) × (r.item_id ≡ x)
unfolding replies has any
replies-IsRow p [] x h = ground (arith, h)
replies-IsRow p (r ∷ rows) x h = elim (Bool-cases (bytes_beq r.parent_id p)) [
  | inl e ↦ elim (Bool-cases (bytes_beq r.item_id x)) [
    | inl same ↦
        (r, inl refl, (bytes_beq_iff r.parent_id p).0 e, (bytes_beq_iff r.item_id x).0 same)
    | inr other ↦ let (q, i, a, b) = replies-IsRow p rows x (rw (e, other) at h) in (q, inr i, a, b)
  ]
  | inr e ↦ let (q, i, a, b) = replies-IsRow p rows x (rw e at h) in (q, inr i, a, b)
]

row-replies :
    (r : CommentRow) (rows : List CommentRow)
    → IsRow r rows
    → has (replies r.parent_id rows) r.item_id ≡ true
unfolding replies has any
row-replies r [] i = elim i [ ]
row-replies r (q ∷ rows) (inl e) =
    subst (λ z. has (replies z.parent_id (q ∷ rows)) z.item_id ≡ true) e
      (rw (refl_beq q.parent_id) (ground (arith, refl_beq q.item_id)))
row-replies r (q ∷ rows) (inr i) = elim (Bool-cases (bytes_beq q.parent_id r.parent_id)) [
  | inl e ↦ rw e (ground (arith, row-replies r rows i))
  | inr e ↦ rw e (row-replies r rows i)
]

either : (a b : Bool) → (a || b) ≡ true → (a ≡ true) ⊎ (b ≡ true)
either true b h = inl refl
either false b h = inr h

module _ (rows : List CommentRow) (root : Bytes) where
  -- With the parent, its replies have been seen.
  abbrev Answered : List Bytes → Bytes → Type 0
  Answered seen p = (x : Bytes) → has (replies p rows) x ≡ true → has seen x ≡ true

  -- What holds between two rounds.
  record IsWalk (s : List Bytes × List Bytes) : Type 0 where
    sound : (x : Bytes) → has s.1 x ≡ true → Reached rows root x
    queued : (x : Bytes) → has s.0 x ≡ true → has s.1 x ≡ true
    roots : Answered s.1 root
    done : (x : Bytes) → has s.1 x ≡ true → (has s.0 x ≡ true) ⊎ Answered s.1 x

  -- A reply to the root or to what has been reached.
  reply-Reached :
      (p x : Bytes)
      → (p ≡ root) ⊎ Reached rows root p
      → has (replies p rows) x ≡ true
      → Reached rows root x
  reply-Reached p x up h =
      let (r, i, a, b) = replies-IsRow p rows x h in
      subst (Reached rows root) b (elim up [
        | inl e ↦ reply r i (a ∙ e)
        | inr q ↦ further r i (subst (Reached rows root) (sym a) q)
      ])

  start-IsWalk : IsWalk (offer (replies root rows) ([], []))
  start-IsWalk =
      let ks = replies root rows in
      record {
        sound = λ x h. elim (either (has ks x) (has [] x) (sym (offer-seen ks [] [] x) ∙ h)) [
          | inl a ↦ reply-Reached root x (inl refl) a
          | inr b ↦ cc (sym (has-nil x) ∙ b)
        ];
        queued = λ x h. ground (arith, h, has-nil x, offer-queue ks [] [] x, offer-seen ks [] [] x);
        roots = λ x h. ground (arith, offer-seen ks [] [] x, h);
        done = λ x h.
            inl (ground (arith, h, has-nil x, offer-queue ks [] [] x, offer-seen ks [] [] x));
      }

  round-IsWalk :
      (id : Bytes) (queue seen : List Bytes)
      → IsWalk (id ∷ queue, seen)
      → IsWalk (offer (replies id rows) (queue, seen))
  round-IsWalk id queue seen w =
      let ks = replies id rows in
      let now : has seen id ≡ true =
        w.queued id (ground (arith, refl_beq id, has-cons id queue id)) in
      record {
        sound = λ x h.
            elim (either (has ks x) (has seen x) (sym (offer-seen ks queue seen x) ∙ h)) [
              | inl a ↦ reply-Reached id x (inr (w.sound id now)) a
              | inr b ↦ w.sound x b
            ];
        queued = λ x h. ground (
          arith,
          h,
          offer-queue ks queue seen x,
          offer-seen ks queue seen x,
          has-cons id queue x,
          w.queued x,
        );
        roots = λ x h. ground (arith, offer-seen ks queue seen x, w.roots x h);
        done = λ x h. elim (Bool-cases (has seen x)) [
          | inr new ↦
              inl (ground (arith, h, offer-queue ks queue seen x, offer-seen ks queue seen x))
          | inl old ↦ elim (w.done x old) [
            | inr a ↦ inr λ y g. ground (arith, offer-seen ks queue seen y, a y g)
            | inl q ↦ elim (either (bytes_beq id x) (has queue x) (sym (has-cons id queue x) ∙ q)) [
              | inr later ↦ inl (ground (arith, offer-queue ks queue seen x))
              | inl e ↦ inr λ y g.
                  let mine =
                    subst (λ z. has (replies z rows) y ≡ true) (sym ((bytes_beq_iff id x).0 e)) g in
                  ground (arith, offer-seen ks queue seen y)
            ]
          ]
        ];
      }

  -- With enough fuel the queue runs empty.
  walk-Answered :
      (fuel : ℕ) (queue seen : List Bytes)
      → IsWalk (queue, seen)
      → length queue + unseen rows seen < fuel
      → IsWalk ([], walk fuel rows (queue, seen))
  unfolding walk
  walk-Answered zero queue seen w l = absurd (omega arith)
  walk-Answered (suc fuel) [] seen w l = w
  walk-Answered (suc fuel) (id ∷ queue) seen w l =
      let less = offer_measure rows (replies id rows) queue seen (replies-ids id rows) in
      walk-Answered fuel (offer (replies id rows) (queue, seen)).0
        (offer (replies id rows) (queue, seen)).1 (round-IsWalk id queue seen w)
        (omega (arith, less))

unseen-length : (rows : List CommentRow) → unseen rows [] ≤ length rows
unfolding unseen
unseen-length [] = omega arith
unseen-length (r ∷ rows) = ground (arith, unseen-length rows)

-- The recursive query of `Thread` ends with exactly the ids of the comments that reply to the root,
-- directly or through other comments of the table: one round more than there are comments is
-- enough.
pub thread_ids-Reached :
    (root : Bytes) (rows : List CommentRow) (id : Bytes)
    → (has (thread_ids root rows) id ≡ true) ↔ Reached rows root id
unfolding thread_ids
thread_ids-Reached root rows id =
    let first = offer (replies root rows) ([], []) in
    let less = offer_measure rows (replies root rows) [] [] (replies-ids root rows) in
    let w =
      walk-Answered rows root (suc (length rows)) first.0 first.1 (start-IsWalk rows root)
        (omega (arith, less, unseen-length rows)) in
    (w.sound id, all_seen root rows (walk (suc (length rows)) rows first) w id)
  where
    all_seen :
        (root : Bytes) (rows : List CommentRow) (seen : List Bytes)
        → IsWalk rows root ([], seen)
        → (x : Bytes) → Reached rows root x
        → has seen x ≡ true
    all_seen root rows seen w x (reply r i e) =
        w.roots r.item_id
          (subst (λ p. has (replies p rows) r.item_id ≡ true) e (row-replies r rows i))
    all_seen root rows seen w x (further r i up) =
        elim (w.done r.parent_id (all_seen root rows seen w r.parent_id up)) [
          | inl q ↦ cc (sym (has-nil r.parent_id) ∙ q)
          | inr a ↦ a r.item_id (row-replies r rows i)
        ]
