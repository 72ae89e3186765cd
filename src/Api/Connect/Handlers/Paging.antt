-- ===== src/Api/Connect/Handlers/Paging.antt =====
-- api/connect.go: `pageConnect`, which no handler calls, against `page` of store/store.go.
use coinnews_indexer.Prelude.{◌≡◌, List, some, arith}
use coinnews_indexer.Prelude.Int.{ℤ, pos, ◌≤ℤ◌}
use coinnews_indexer.Store.Ranking.{page}
use coinnews_indexer.Api.Connect.Handlers.{page_connect}

pub page_connect-page :
    {A : Type 0} (items : List A) (limit offset : ℤ)
    → pos 0 ≤ℤ offset
    → page_connect items limit offset ≡ some (page items limit offset)
unfolding page_connect page
page_connect-page items limit offset h = ground arith
