-- ===== src/Store/Interface.antt =====
-- The interface `Store` of store/store.go, over a world `W` that the calls read and
-- change: the part that the scanner uses, and the reads for the API. A call may fail, and what it changed before stays changed.
use coinnews_indexer.Prelude.{Option, Bool, List}
use coinnews_indexer.Prelude.Int.{ℤ}
use coinnews_indexer.Codec.Types.{Bytes, Error, Result, ok, err}
use coinnews_indexer.Store.Types.{
  Item, Topic, Story, Comment, Vote, Continuation, FeedQuery, FeedItem, ThreadComment,
}

abbrev pub Io : Type 0 → Type 0 → Type 0
Io W A = W → Result A × W

abbrev pub continue : {W A B : Type 0} → Result A → (A → Io W B) → Io W B
continue (ok a) f w = f a w
continue (err e) f w = (err e, w)

infixl 5 ◌>>=◌ ◌>>◌
unfoldable pub ◌>>=◌ : {W A B : Type 0} → Io W A → (A → Io W B) → Io W B
◌>>=◌ m f w = let r = m w in continue r.0 f r.1

abbrev pub ◌>>◌ : {W B : Type 0} → Io W (Unit {0}) → Io W B → Io W B
m >> k = m >>= λ _. k

abbrev pub pure : {W A : Type 0} → A → Io W A
pure a w = (ok a, w)

-- `return err`
abbrev pub fail : {W A : Type 0} → Error → Io W A
fail e w = (err e, w)

pub record Store (W : Type 0) : Type 0 where
  pub save_cursor : ℤ → Bytes → Io W (Unit {0})
  pub load_cursor : Io W (ℤ × Bytes × Bool)
  pub delete_from_height : ℤ → Io W (Unit {0})
  pub put_item : Item → Io W (Unit {0})
  pub insert_topic_if_absent : Topic → Io W Bool
  pub put_story : Story → Io W (Unit {0})
  pub put_comment : Comment → Io W (Unit {0})
  pub put_vote : Vote → Io W (Unit {0})
  pub put_continuation : Continuation → Io W (Unit {0})
  pub item_by_id : Bytes → Io W (Option Item)

-- Reads for the API.
pub record Queries (F W : Type 0) : Type 0 where
  pub front_page : FeedQuery → Io W (List (FeedItem F))
  pub new_feed : FeedQuery → Io W (List (FeedItem F))
  pub get_item : Bytes → Io W (Option (FeedItem F))
  pub thread : Bytes → Io W (List (ThreadComment F))
  pub by_author : Bytes → ℤ → ℤ → Io W (List (ThreadComment F))
  pub items_by_author : Bytes → ℤ → ℤ → Io W (List (FeedItem F))
  pub by_topic : Bytes → ℤ → ℤ → Io W (List (FeedItem F))
  pub list_topics : Io W (List Topic)
