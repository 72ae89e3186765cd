-- ===== src/Scanner/Again/Late.antt =====
-- scanner/scanner.go: a comment in front of the story that it replies to, in a block that is
-- processed again.
use coinnews_indexer.Prelude.{
  ◌≡◌, refl, inl, inr, Option-cases, sym, ap, ◌∙◌, [], ◌∷◌, none, true, bytes_eq,
}
use mathlib.Core.Path.{subst}
use coinnews_indexer.Codec.Types as Wire
use coinnews_indexer.Codec.Types.{Bytes, Result, ok, err, Message, comment, story}
use coinnews_indexer.Codec.Crypto.{Crypto}
use coinnews_indexer.Codec.Sign.{verify_comment}
use coinnews_indexer.GoMap.{get}
use coinnews_indexer.Store.Types.{Item, Story}
use coinnews_indexer.Store.Memory.{MemoryStore, put_item, put_story, item_by_id}
use coinnews_indexer.Store.Memory.Backend.{memory_store}
use coinnews_indexer.Store.Memory.Grows.{HasItem, HasComment}
use coinnews_indexer.Scanner.Again.Blocks.{steps, messages, process_block-steps}
use coinnews_indexer.Rpc.{Block}
use coinnews_indexer.Scanner.Again.{there, step_settles, step, step-Waits, step-Grows}
use coinnews_indexer.Scanner.Convert.{story_from_msg}
use coinnews_indexer.Scanner.{is_some, process_block}

put_story-comments : (s : Story) (m : MemoryStore) → (put_story s m).comments ≡ m.comments
unfolding put_story
put_story-comments s m = elim (Option-cases (get m.stories s.id)) [
  | inl e ↦ rw (put_story, e) refl
  | inr (x, e) ↦ rw (put_story, e) refl
]

put_item-comments : (it : Item) (m : MemoryStore) → (put_item it m).comments ≡ m.comments
unfolding put_item
put_item-comments it m = elim (Option-cases (get m.items it.id)) [
  | inl e ↦ rw (put_item, e) refl
  | inr (x, e) ↦ rw (put_item, e) refl
]

module _ (crypto : Crypto) where
  -- A story is stored, and no comment is.
  story_stored :
      (it : Item) (s : Wire.Story) (m : MemoryStore)
      → HasItem it.id (step crypto it (story s) m)
        × ((step crypto it (story s) m).comments ≡ m.comments)
  unfolding step
  story_stored it s m = (
    elim (step_settles crypto it (story s) m) [ inl w ↦ elim w [ ] | inr (i, _) ↦ i ],
    put_story-comments (story_from_msg it.id s) (put_item it m) ∙ put_item-comments it m,
  )

  -- A signed comment whose parent is there is stored.
  comment_stored :
      (it : Item) (c : Wire.Comment) (m : MemoryStore)
      → verify_comment crypto c ≡ true
      → HasItem c.parent_id m
      → HasComment it.id (step crypto it (comment c) m)
  unfolding item_by_id
  comment_stored it c m v h = elim (step_settles crypto it (comment c) m) [
    | inl (_, w) ↦ elim (Option-cases (get m.items c.parent_id)) [
      | inl e ↦ elim (h e) [ ]
      | inr (x, e) ↦ let q : there crypto c.parent_id m ≡ true = ap is_some e in cc
    ]
    | inr (inl w) ↦ cc
    | inr (inr (_, d)) ↦ d
  ]

module _ (crypto : Crypto) {N : Type 0} (n : N) where
  -- The store after a block is processed.
  abbrev pub after : Block → MemoryStore → MemoryStore
  after b m = (process_block crypto (memory_store N) b (n, m)).1.1

  after-steps : (b : Block) (m : MemoryStore) → after b m ≡ steps crypto (messages crypto b) m
  after-steps b m = ap (λ r. r.1.1) (process_block-steps crypto n b m)

  -- A block with a signed comment and, behind it, the story that it replies to, over an in-memory
  -- backend with neither: processed once, the block leaves no row of the comment, and processed a
  -- second time it stores one.
  pub late_comment :
      (b : Block) (it head : Item) (c : Wire.Comment) (s : Wire.Story) (m : MemoryStore)
      → messages crypto b ≡ (it, comment c) ∷ (head, story s) ∷ []
      → verify_comment crypto c ≡ true
      → c.parent_id ≡ head.id
      → item_by_id head.id m ≡ none
      → get m.comments it.id ≡ none
      → (get (after b m).comments it.id ≡ none) × HasComment it.id (after b (after b m))
  unfolding steps item_by_id
  late_comment b it head c s m e v p absent new =
      let first : after b m ≡ step crypto head (story s) m =
        after-steps b m
        ∙ ap (λ x. steps crypto x m) e
        ∙ ap (step crypto head (story s)) (
            step-Waits crypto it (comment c) m
              (v, ap (λ x. is_some (get m.items x)) p ∙ ap is_some absent)) in
      let u = step crypto head (story s) m in
      let second : after b (after b m) ≡ step crypto head (story s) (step crypto it (comment c) u) =
        ap (after b) first ∙ after-steps b u ∙ ap (λ x. steps crypto x u) e in
      (
        ap (λ x. get x.comments it.id) first
            ∙ ap (λ x. get x it.id) (story_stored crypto head s m).1
            ∙ new,
        subst (HasComment it.id) (sym second) (
            (step-Grows crypto head (story s) (step crypto it (comment c) u)).comments it.id (
              comment_stored crypto it c u v
                (subst (λ x. HasItem x u) (sym p) (story_stored crypto head s m).0))),
      )
