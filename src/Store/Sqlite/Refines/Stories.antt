-- ===== src/Store/Sqlite/Refines/Stories.antt =====
-- store/sqlite.go: PutStory and PutComment.
use coinnews_indexer.Prelude.{
  ◌≡◌, sym, ap, ◌∙◌, [], ◌∷◌, ◌++◌, false, bytes_eq, Option-cases, inl, inr, nat_eq,
}
use coinnews_indexer.Codec.Crypto.{Crypto}
use coinnews_indexer.GoMap.{put}
use coinnews_indexer.Store.Types.{Story, Comment, vote_key_eq}
use coinnews_indexer.Store.Sql.{find_by}
use coinnews_indexer.Store.Sql.Laws.{keyed, keyed-append}
use coinnews_indexer.Store.Memory as Memory
use coinnews_indexer.Store.Memory.{MemoryStore, later_than, vote_key, out_key}
use coinnews_indexer.Store.Sqlite.{put_story, put_comment, no_item}
use coinnews_indexer.Store.Sqlite.Schema.{Tables, story_row, comment_row, pair_eq}
use coinnews_indexer.Store.Sqlite.Refines.{
  Stored, story_of, comment_of, story_of-story_row, comment_of-comment_row,
}
use coinnews_indexer.Store.Sqlite.Refines.Calls.{Does, does, looked_up}

module _ (crypto : Crypto) where
  pub put_story-Does :
      (row : Story) (t : Tables) (m : MemoryStore)
      → no_item row.id t ≡ false
      → Stored crypto t m
      → Does crypto (put_story row t) (tt, Memory.put_story row m)
  unfolding put_story Memory.put_story Memory.load_cursor story_row
  put_story-Does row t m i s = elim (Option-cases (find_by (λ r. r.item_id) t.cn_stories row.id)) [
    | inr (r, found) ↦
        does crypto tt t m (rw (put_story, found))
          (rw (
            Memory.put_story,
            looked_up crypto _ _ m.stories t.cn_stories row.id _ s.stories found,
          ))
          s
    | inl fresh ↦
        let absent = looked_up crypto _ _ m.stories t.cn_stories row.id _ s.stories fresh in
        does crypto tt (record t { cn_stories = t.cn_stories ++ (story_row row ∷ []) })
          (record m { stories = put m.stories row.id row }) (rw (put_story, fresh, i))
          (rw (Memory.put_story, absent))
          (record {
            items = s.items;
            topics = s.topics;
            stories =
                ap (λ l. put l row.id row) s.stories
                ∙ ap (put (keyed (λ r. r.item_id) story_of t.cn_stories) row.id)
                    (sym (story_of-story_row row))
                ∙ keyed-append (λ r. r.item_id) story_of t.cn_stories (story_row row) fresh;
            comments = s.comments;
            votes = s.votes;
            cursor = s.cursor;
            distinct = s.distinct;
            ids = s.ids;
          })
  ]

  pub put_comment-Does :
      (row : Comment) (t : Tables) (m : MemoryStore)
      → no_item row.id t ≡ false
      → Stored crypto t m
      → Does crypto (put_comment row t) (tt, Memory.put_comment row m)
  unfolding put_comment Memory.put_comment Memory.load_cursor comment_row
  put_comment-Does row t m i s =
      elim (Option-cases (find_by (λ r. r.item_id) t.cn_comments row.id)) [
        | inr (r, found) ↦
            does crypto tt t m (rw (put_comment, found))
              (rw (
                Memory.put_comment,
                looked_up crypto _ _ m.comments t.cn_comments row.id _ s.comments found,
              ))
              s
        | inl fresh ↦
            let absent = looked_up crypto _ _ m.comments t.cn_comments row.id _ s.comments fresh in
            does crypto tt (record t { cn_comments = t.cn_comments ++ (comment_row row ∷ []) })
              (record m { comments = put m.comments row.id row }) (rw (put_comment, fresh, i))
              (rw (Memory.put_comment, absent))
              (record {
                items = s.items;
                topics = s.topics;
                stories = s.stories;
                comments =
                    ap (λ l. put l row.id row) s.comments
                    ∙ ap (put (keyed (λ r. r.item_id) comment_of t.cn_comments) row.id)
                        (sym (comment_of-comment_row row))
                    ∙ keyed-append (λ r. r.item_id) comment_of t.cn_comments (comment_row row)
                        fresh;
                votes = s.votes;
                cursor = s.cursor;
                distinct = s.distinct;
                ids = s.ids;
              })
      ]
