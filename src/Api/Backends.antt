-- ===== src/Api/Backends.antt =====
-- api/ over store/sqlite.go: the answers of a store whose engine does not fail.
use coinnews_indexer.Prelude.{◌≡◌, refl, ap, ◌∙◌, [], List, Option, none, some, bytes_eq}
use coinnews_indexer.Codec.Types.{Error, Result, ok, err}
use coinnews_indexer.Store.Types.{Topic}
use coinnews_indexer.Store.Interface.{Io, continue, ◌>>=◌}
use coinnews_indexer.Store.Sqlite.{Db, statement}
use coinnews_indexer.Store.Sqlite.Schema.{Tables}
use coinnews_indexer.Store.Sqlite.Queries.{query, sqlite_queries}
use coinnews_indexer.Store.Sqlite.Queries as Sqlite
use coinnews_indexer.Store.Sqlite.Topics.{scan_topics, group_stories, list_topics}
use coinnews_indexer.Api.{
  Problem, answered, with_parsed, Parsed, parsed, refused, Response, Handler,
}
use coinnews_indexer.Api.Rest.{failed}

pub answered-ok :
    {W A B : Type 0} (failed : Error → Response B) (found : A → Response B) (r : Result A × W)
    (a : A)
    → r.0 ≡ ok a
    → (answered failed found r).0 ≡ found a
unfolding answered
answered-ok failed found (ok b, w) a h = ap (λ x. (answered failed found (x, w)).0) h
answered-ok failed found (err e, w) a h = ap (λ x. (answered failed found (x, w)).0) h

bind-ok :
    {W A B : Type 0} (m : Io W A) (f : A → Io W B) (w : W) (a : A) (v : W)
    → m w ≡ (ok a, v)
    → (m >>= f) w ≡ f a v
unfolding ◌>>=◌
bind-ok m f w a v h = ap (λ r. continue r.0 f r.1) h

module _ {E N : Type 0} (engine : E → Option Error × E) (fine : (e : E) → (engine e).0 ≡ none) where
  -- A query of an engine that does not fail.
  query-fine :
      {A : Type 0} (g : Tables → A) (v : N × Db E Tables)
      → query engine g v ≡ (ok (g v.1.tables), (v.0, record v.1 { engine = (engine v.1.engine).1 }))
  unfolding statement
  query-fine g v = rw (statement, fine v.1.engine) refl

  pub answered-query :
      {A B : Type 0} (failed : Error → Response B) (found : A → Response B) (g : Tables → A)
      (v : N × Db E Tables)
      → (answered failed found (query engine g v)).0 ≡ found (g v.1.tables)
  answered-query failed found g v =
      answered-ok failed found (query engine g v) (g v.1.tables) (ap (λ r. r.0) (query-fine g v))

  pub queried_topics :
      (v : N × Db E Tables) (ts : List Topic)
      → list_topics v.1.tables ≡ some ts
      → (Sqlite.list_topics engine v).0 ≡ ok ts
  unfolding Sqlite.list_topics list_topics
  queried_topics v ts h =
      let scanned = query-fine (λ t. scan_topics t.cn_topics [] []) v in
      let counted =
        query-fine (λ t. group_stories t.cn_stories)
          (v.0, record v.1 { engine = (engine v.1.engine).1 }) in
      ap (λ r. r.0) (bind-ok _ _ v _ _ scanned ∙ bind-ok _ _ _ _ _ counted) ∙ rw h refl

pub parsed_alike :
    {V W A B : Type 0} (bad : Problem → Response B) (p : Parsed A) (f : A → Handler V B)
    (g : A → Handler W B) (v : V) (w : W)
    → ((a : A) → (f a v).0 ≡ (g a w).0)
    → (with_parsed bad p f v).0 ≡ (with_parsed bad p g w).0
unfolding with_parsed
parsed_alike bad (parsed a) f g v w h = h a
parsed_alike bad (refused q) f g v w h = refl
