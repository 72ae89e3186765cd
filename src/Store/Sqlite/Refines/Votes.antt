-- ===== src/Store/Sqlite/Refines/Votes.antt =====
-- store/sqlite.go: PutVote and PutContinuation.
use coinnews_indexer.Prelude.{
  ◌≡◌, refl, ap, ◌∙◌, List, [], ◌∷◌, ◌++◌, some, true, false, not, arith, if◌then◌else◌, bytes_eq,
  Option-cases, Bool-cases, inl, inr, ◌⊎◌, nat_eq,
}
use coinnews_indexer.Codec.Crypto.{Crypto}
use coinnews_indexer.GoMap.{put}
use coinnews_indexer.Store.Types.{Vote, Continuation, vote_key_eq}
use coinnews_indexer.Store.Sql.{find_by, upsert}
use coinnews_indexer.Store.Sql.Laws.{keyed, keyed-upsert, put_if}
use coinnews_indexer.Store.Memory as Memory
use coinnews_indexer.Store.Memory.{MemoryStore, later_than, vote_key, out_key}
use coinnews_indexer.Store.Sqlite.{put_vote, put_continuation, later}
use coinnews_indexer.Store.Sqlite.Schema.{Tables, vote_key_of, chunk_key, pair_eq}
use coinnews_indexer.Store.Sqlite.Refines.{Stored}
use coinnews_indexer.Store.Sqlite.Refines.Calls.{Does, does, looked_up}

module _ (crypto : Crypto) where
  -- The guard of the upsert is the test of the in-memory backend.
  later-later_than : (a b : Vote) → later a b ≡ later_than a b
  unfolding later later_than
  later-later_than a b = ground arith

  replaced :
      (v old : Vote) (t : Tables) (m : MemoryStore)
      → m.votes ≡ keyed vote_key_of (λ w. w) t.cn_votes
      → put_if vote_key_of (λ w. w) later v t.cn_votes (some old)
        ≡ keyed vote_key_of (λ w. w) (upsert vote_key_of later v t.cn_votes)
      → (later_than v old ≡ true) ⊎ (later_than v old ≡ false)
      → (if not (later_than v old)
          then m
          else record m { votes = put m.votes (vote_key v) v }).votes
        ≡ keyed vote_key_of (λ w. w) (upsert vote_key_of later v t.cn_votes)
  replaced v old t m h u (inl e) =
      rw e (ap (λ l. put l (vote_key v) v) h ∙ rw (later-later_than v old, e) at u)
  replaced v old t m h u (inr e) = rw e (h ∙ rw (later-later_than v old, e) at u)

  votes_put :
      (v : Vote) (t : Tables) (m : MemoryStore)
      → m.votes ≡ keyed vote_key_of (λ w. w) t.cn_votes
      → (Memory.put_vote v m).votes
        ≡ keyed vote_key_of (λ w. w) (upsert vote_key_of later v t.cn_votes)
  unfolding Memory.put_vote
  votes_put v t m h = elim (Option-cases (find_by vote_key_of t.cn_votes (vote_key_of v))) [
    | inl fresh ↦
        rw (Memory.put_vote, looked_up crypto _ _ m.votes t.cn_votes (vote_key_of v) _ h fresh)
          (ap (λ l. put l (vote_key v) v) h
            ∙ rw fresh at (keyed-upsert vote_key_of (λ w. w) later v t.cn_votes))
    | inr (old, found) ↦
        rw (Memory.put_vote, looked_up crypto _ _ m.votes t.cn_votes (vote_key_of v) _ h found)
          (replaced v old t m h (rw found at (keyed-upsert vote_key_of (λ w. w) later v t.cn_votes))
            (Bool-cases (later_than v old)))
  ]

  pub put_vote-Does :
      (v : Vote) (t : Tables) (m : MemoryStore)
      → Stored crypto t m
      → Does crypto (put_vote v t) (tt, Memory.put_vote v m)
  unfolding put_vote Does
  put_vote-Does v t m s = (
    record t { cn_votes = upsert vote_key_of later v t.cn_votes },
    refl,
    record {
      items = unfold Memory.put_vote in ground (arith, s.items);
      topics = unfold Memory.put_vote in ground (arith, s.topics);
      stories = unfold Memory.put_vote in ground (arith, s.stories);
      comments = unfold Memory.put_vote in ground (arith, s.comments);
      votes = votes_put v t m s.votes;
      cursor = unfold Memory.put_vote Memory.load_cursor in ground (arith, s.cursor);
      distinct = unfold Memory.put_vote in ground (arith, s.distinct);
      ids = s.ids;
    },
  )

  pub put_continuation-Does :
      (c : Continuation) (t : Tables) (m : MemoryStore)
      → Stored crypto t m
      → Does crypto (put_continuation c t) (tt, Memory.put_continuation c m)
  unfolding put_continuation Memory.put_continuation Memory.load_cursor
  put_continuation-Does c t m s =
      elim (Option-cases (find_by chunk_key t.cn_continuations (chunk_key c))) [
        | inr (r, found) ↦
            does crypto tt t (Memory.put_continuation c m) (rw (put_continuation, found)) refl
              (unread t.cn_continuations)
        | inl fresh ↦
            does crypto tt (record t { cn_continuations = t.cn_continuations ++ (c ∷ []) })
              (Memory.put_continuation c m) (rw (put_continuation, fresh)) refl
              (unread (t.cn_continuations ++ (c ∷ [])))
      ]
    where
      unread :
          (rows : List Continuation)
          → Stored crypto (record t { cn_continuations = rows }) (Memory.put_continuation c m)
      unread rows = record {
        items = s.items;
        topics = s.topics;
        stories = s.stories;
        comments = s.comments;
        votes = s.votes;
        cursor = s.cursor;
        distinct = s.distinct;
        ids = s.ids;
      }
