-- ===== src/Tests/Disk.antt =====
-- The reads of the SQLite backend at concrete inputs.
use coinnews_indexer.Prelude.{
  bytes_beq, ℕ, Bool, map, inl, inr, sym, ◌∙◌, ◌≡◌, ◌↔◌, refl, [], ◌∷◌, some, true, arith, bytes_eq,
}
use mathlib.Core.List.{Perm, Mem}
use mathlib.Core.List as List
use mathlib.Core.Logic.{∥∥₁_elim}
use coinnews_indexer.Prelude.Int.{pos}
use coinnews_indexer.Codec.ItemId.{id_string}
use coinnews_indexer.GoMap.{get, Distinct}
use coinnews_indexer.Store.Memory.Bounded.{IsBounded}
use coinnews_indexer.Store.Memory.Queries.{memory_queries}
use coinnews_indexer.Store.Memory.Reads as Memory
use coinnews_indexer.Store.Memory.Reads.{Ranges, IsRange, inserted, inserted-IsRange}
use coinnews_indexer.Store.Memory.Thread as Memory_thread
use coinnews_indexer.Store.Sqlite.Queries.{sqlite_queries}
use coinnews_indexer.Store.Types.{FeedItem}
use coinnews_indexer.Store.Sort.Unique.{NoTies}
use coinnews_indexer.Store.Ranking.Listings.{same_rank, same_place}
use coinnews_indexer.Store.Sqlite.Reads.{front_page, new_feed}
use coinnews_indexer.Store.Sqlite.Reads.AnyOrder.{front_page_alike, new_feed_alike}
use coinnews_indexer.Store.Sqlite.Reads.Rows.{retag}
use coinnews_indexer.Store.Sqlite.Thread.{has, thread_ids, thread}
use coinnews_indexer.Store.Sqlite.Thread.Reached.{Reached, thread_ids-Reached}
use coinnews_indexer.Store.Sqlite.Thread.Alike.{thread-Perm}
use coinnews_indexer.Store.Sqlite.Topics.{list_topics}
use coinnews_indexer.Store.Sqlite.Topics.Alike.{list_topics_ranged}
use coinnews_indexer.Scanner.{default_reorg_depth}
use coinnews_indexer.Api.Rest.{serve, v1_item}
use coinnews_indexer.Api.Connect.Handlers.{sent, list_by_topic, connect_serve}
use coinnews_indexer.Api.OnDisk.{disk, memory, serve_on_disk, connect_on_disk}
use coinnews_indexer.Tests.Data.{a_floats-IsTotal, fill, a_crypto, mirror_crypto, a_floats}
use coinnews_indexer.Tests.Scanner.{node_to}
use coinnews_indexer.Tests.Sqlite.{
  sound, a_db, its_memory, db-Stored, db-Readable, root_above, any_story,
}

serve_on_disk_example :
    (rg : Ranges) × IsRange rg
    × ((serve
          (sqlite_queries a_floats (pos 1700) sound (Unit {0}))
          (v1_item (id_string (fill 12 1)))
          (λ key. [])
          (disk a_crypto sound (λ e. refl) (node_to 1) default_reorg_depth 5 (pos 0) tt tt true)).0
        ≡ (serve
            (memory_queries a_floats (pos 1700) rg (Unit {0}))
            (v1_item (id_string (fill 12 1)))
            (λ key. [])
            (memory a_crypto sound
              (λ e. refl)
              (node_to 1)
              default_reorg_depth
              5
              (pos 0)
              tt
              tt
              true)).0)
serve_on_disk_example =
    serve_on_disk a_crypto sound (λ e. refl) (node_to 1) default_reorg_depth 5 (pos 0) tt tt true
      a_floats (pos 1700) (v1_item (id_string (fill 12 1))) (λ key. []) tt

connect_on_disk_example :
    (rg : Ranges) × IsRange rg
    × ((connect_serve
          (λ time. [])
          (sqlite_queries a_floats (pos 1700) sound (Unit {0}))
          (list_by_topic (
            sent (record {
              hex = b'0' ∷ b'7' ∷ b'0' ∷ b'7' ∷ b'0' ∷ b'7' ∷ b'0' ∷ b'7' ∷ [];
              limit = 2;
              offset = 0;
            })))
          (disk a_crypto sound (λ e. refl) (node_to 1) default_reorg_depth 5 (pos 0) tt tt true)).0
        ≡ (connect_serve
            (λ time. [])
            (memory_queries a_floats (pos 1700) rg (Unit {0}))
            (list_by_topic (
              sent (record {
                hex = b'0' ∷ b'7' ∷ b'0' ∷ b'7' ∷ b'0' ∷ b'7' ∷ b'0' ∷ b'7' ∷ [];
                limit = 2;
                offset = 0;
              })))
            (memory a_crypto sound
              (λ e. refl)
              (node_to 1)
              default_reorg_depth
              5
              (pos 0)
              tt
              tt
              true)).0)
connect_on_disk_example =
    connect_on_disk a_crypto sound (λ e. refl) (node_to 1) default_reorg_depth 5 (pos 0) tt tt true
      a_floats (pos 1700) (λ time. [])
      (list_by_topic (
        sent (record {
          hex = b'0' ∷ b'7' ∷ b'0' ∷ b'7' ∷ b'0' ∷ b'7' ∷ b'0' ∷ b'7' ∷ [];
          limit = 2;
          offset = 0;
        })))
      tt

thread_ids-Reached_example :
    (has (thread_ids (fill 12 1) a_db.cn_comments) (fill 12 4) ≡ true)
    ↔ Reached a_db.cn_comments (fill 12 1) (fill 12 4)
thread_ids-Reached_example = thread_ids-Reached (fill 12 1) a_db.cn_comments (fill 12 4)

thread-Perm_example :
    Perm
      (thread a_floats (pos 0) (fill 12 1) a_db)
      (Memory_thread.thread a_floats (pos 0) (fill 12 1) its_memory)
thread-Perm_example =
    thread-Perm mirror_crypto a_db its_memory db-Stored db-Readable a_floats (pos 0) (fill 12 1)
      root_above

its_memory-IsBounded : IsBounded its_memory
its_memory-IsBounded = record {
  stories = (omega arith, tt);
  comments = (refl, tt);
  topics = (omega arith, tt);
}

its_topics : Distinct its_memory.topics
unfolding get
its_topics = (refl, tt)

list_topics_ranged_example :
    (rg : Ranges) × IsRange rg × (list_topics a_db ≡ some (Memory.list_topics rg its_memory))
list_topics_ranged_example =
    list_topics_ranged mirror_crypto a_db its_memory db-Stored its_memory-IsBounded its_topics

FeedItem-set : IsSet (FeedItem ℕ)
FeedItem-set = hlevel

the_one : {A : Type 0} (x y : A) → IsSet A → Mem y (x ∷ []) → y ≡ x
the_one x y s h =
    ∥∥₁_elim (List.eq-or-mem_of_mem-cons h) (s y x)
      λ o. elim o [ inl q ↦ q | inr n ↦ absurd (List.not-mem-nil n) ]

only : {A : Type 0} (level : A → A → Bool) (x : A) → IsSet A → NoTies level (x ∷ [])
only level x s a b i j e = the_one x a s i ∙ sym (the_one x b s j)

no_place_twice :
    NoTies same_place (Memory.filtered_feed a_floats (pos 1700) inserted any_story its_memory)
unfolding Memory.filtered_feed Memory.build_feed Memory.passes get bytes_beq
no_place_twice = only same_place _ FeedItem-set

new_feed_alike_example :
    new_feed a_floats (pos 1700) any_story a_db
    ≡ map retag (Memory.new_feed a_floats (pos 1700) inserted any_story its_memory)
new_feed_alike_example =
    new_feed_alike mirror_crypto a_db its_memory db-Stored db-Readable a_floats (pos 1700) inserted
      inserted-IsRange any_story no_place_twice

no_rank_twice :
    NoTies
      (same_rank a_floats)
      (Memory.filtered_feed a_floats (pos 1700) inserted any_story its_memory)
unfolding Memory.filtered_feed Memory.build_feed Memory.passes get bytes_beq
no_rank_twice = only (same_rank a_floats) _ FeedItem-set

front_page_alike_example :
    front_page a_floats (pos 1700) any_story a_db
    ≡ map retag (Memory.front_page a_floats (pos 1700) inserted any_story its_memory)
front_page_alike_example =
    front_page_alike mirror_crypto a_db its_memory db-Stored db-Readable a_floats (pos 1700)
      inserted inserted-IsRange any_story a_floats-IsTotal no_rank_twice
