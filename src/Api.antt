-- ===== src/Api.antt =====
-- api/: the endpoints. A request comes in as net/http parses it, and an answer is a status with
-- the value that is encoded as JSON.
pub mod Request
pub mod Dto
pub mod Rest
pub mod Connect
pub mod Backends
pub mod OnDisk
use coinnews_indexer.Prelude.{ℕ}
use coinnews_indexer.Codec.Types.{Bytes, Error, Result, ok, err}

-- The message of an answer that is an error; `store_error` is the text of the store's error.
pub data Problem : Type 0 where
  invalid_item_id : Problem
  invalid_root_id : Problem
  item_not_found : Problem
  invalid_subtype : Problem
  invalid_topic : Problem
  invalid_author : Problem
  invalid_json : Problem
  store_error : Error → Problem

-- (value, error), where the error is one of package api.
pub data Parsed (A : Type 0) : Type 0 where
  parsed : A → Parsed A
  refused : Problem → Parsed A

abbrev pub status_ok : ℕ
status_ok = 200

abbrev pub status_bad_request : ℕ
status_bad_request = 400

abbrev pub status_not_found : ℕ
status_not_found = 404

abbrev pub status_internal_server_error : ℕ
status_internal_server_error = 500

pub record Response (B : Type 0) : Type 0 where
  pub status : ℕ
  pub body : B

-- A handler. The store is in the world, and an answer is always written.
abbrev pub Handler : Type 0 → Type 0 → Type 0
Handler W B = W → Response B × W

-- The answer to a call of the store: what is written for its value, or for its error.
unfoldable pub answered :
    {W A B : Type 0} → (Error → Response B) → (A → Response B) → Result A × W → Response B × W
answered failed found (ok a, w) = (found a, w)
answered failed found (err e, w) = (failed e, w)

-- The handler behind a parsed parameter.
unfoldable pub with_parsed :
    {W A B : Type 0} → (Problem → Response B) → Parsed A → (A → Handler W B) → Handler W B
with_parsed bad (parsed a) f w = f a w
with_parsed bad (refused p) f w = (bad p, w)

-- `codec.ParseItemID`, whose error is replaced.
abbrev pub parsed_id : Problem → Result Bytes → Parsed Bytes
parsed_id p (ok id) = parsed id
parsed_id p (err e) = refused p
