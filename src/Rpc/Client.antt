-- ===== src/Rpc/Client.antt =====
-- rpc/client.go: the JSON-RPC calls. net/http and encoding/json are parameters.
pub mod Serves
use coinnews_indexer.Prelude.{ℕ, List, [], ◌∷◌, Option, none, some}
use coinnews_indexer.Prelude.Int.{ℤ, pos}
use coinnews_indexer.Codec.Types.{Bytes, Error, Result, ok, err}
use coinnews_indexer.Store.Interface.{Io, ◌>>=◌, fail}
use coinnews_indexer.Rpc.{Block}
use coinnews_indexer.Scanner.{BlockSource}

-- An element of `params`, which is a `[]any`: what the calls pass.
pub data Param : Type 0 where
  number : ℤ → Param
  text : Bytes → Param

-- `rpcRequest`
pub record RpcRequest : Type 0 where
  pub json_rpc : Bytes
  pub id : ℕ
  pub method : Bytes
  -- `none` for a nil slice, which is written as null.
  pub params : Option (List Param)

pub record RpcError : Type 0 where
  pub code : ℤ
  pub message : Bytes

-- `rpcResponse`, where `J` is json.RawMessage. A nil pointer is `none`.
pub record RpcResponse (J : Type 0) : Type 0 where
  pub result : J
  pub error : Option RpcError

-- The request of package http that `call` builds.
pub record HttpRequest : Type 0 where
  pub method : Bytes
  pub url : Bytes
  pub body : Bytes
  pub content_type : Bytes
  pub user : Bytes
  pub pass : Bytes

-- What the client uses of encoding/json and of net/http.
pub record Library (J W : Type 0) : Type 0 where
  -- json.Marshal
  pub marshal : RpcRequest → Result Bytes
  -- The error of http.NewRequestWithContext, which reads the method and the URL.
  pub request_error : HttpRequest → Option Error
  -- http.Client.Do, and the body of the response.
  pub send : HttpRequest → Io W Bytes
  -- json.NewDecoder(...).Decode
  pub decode : Bytes → Result (RpcResponse J)
  -- json.Unmarshal into an int64, a string and a Block
  pub to_number : J → Result ℤ
  pub to_text : J → Result Bytes
  pub to_block : J → Result Block

-- The errors that `call` makes with fmt.Errorf.
pub data CallError : Type 0 where
  decoding : Bytes → Error → CallError
  refused : Bytes → RpcError → CallError

-- `New`
pub record Client : Type 0 where
  pub url : Bytes
  pub user : Bytes
  pub pass : Bytes

unfoldable pub rpc_request : Bytes → Option (List Param) → RpcRequest
rpc_request method params = record {
  json_rpc = b'1' ∷ b'.' ∷ b'0' ∷ [];
  id = 1;
  method = method;
  params = params;
}

unfoldable pub http_request : Client → Bytes → HttpRequest
http_request c body = record {
  method = b'P' ∷ b'O' ∷ b'S' ∷ b'T' ∷ [];
  url = c.url;
  body = body;
  content_type =
      b'a' ∷ b'p' ∷ b'p' ∷ b'l' ∷ b'i' ∷ b'c' ∷ b'a' ∷ b't' ∷ b'i' ∷ b'o' ∷ b'n' ∷ b'/' ∷ b'j'
      ∷ b's' ∷ b'o' ∷ b'n' ∷ [];
  user = c.user;
  pass = c.pass;
}

-- `errorf` is the error value of a CallError, `ctx_err` what the context says.
module _ {J W : Type 0} (lib : Library J W) (errorf : CallError → Error) (c : Client) where
  abbrev pub returned : {A : Type 0} → Result A → Io W A
  returned r w = (r, w)

  abbrev pub checked : Option Error → Io W (Unit {0})
  checked none = returned (ok tt)
  checked (some e) = fail e

  -- From the decoded response on: an error of the node comes before a result.
  unfoldable pub finish : {A : Type 0} → Bytes → (J → Result A) → Result (RpcResponse J) → Io W A
  finish method out (err e) = fail (errorf (decoding method e))
  finish method out (ok r) = elim r.error [
    | some e ↦ fail (errorf (refused method e))
    | none ↦ returned (out r.result)
  ]

  unfoldable pub call : {A : Type 0} → Bytes → Option (List Param) → (J → Result A) → Io W A
  unfolding rpc_request http_request finish
  call method params out = do
    body ← returned (lib.marshal (rpc_request method params))
    let req = http_request c body
    _ ← checked (lib.request_error req)
    response ← lib.send req
    finish method out (lib.decode response)

  unfoldable pub get_block_count : Io W ℤ
  get_block_count =
      call
        (b'g' ∷ b'e' ∷ b't' ∷ b'b' ∷ b'l' ∷ b'o' ∷ b'c' ∷ b'k' ∷ b'c' ∷ b'o' ∷ b'u' ∷ b'n' ∷ b't'
          ∷ [])
        none lib.to_number

  unfoldable pub get_block_hash : ℤ → Io W Bytes
  get_block_hash height =
      call (b'g' ∷ b'e' ∷ b't' ∷ b'b' ∷ b'l' ∷ b'o' ∷ b'c' ∷ b'k' ∷ b'h' ∷ b'a' ∷ b's' ∷ b'h' ∷ [])
        (some (number height ∷ [])) lib.to_text

  unfoldable pub get_block : Bytes → Io W Block
  get_block hash =
      call (b'g' ∷ b'e' ∷ b't' ∷ b'b' ∷ b'l' ∷ b'o' ∷ b'c' ∷ b'k' ∷ [])
        (some (text hash ∷ number (pos 2) ∷ [])) lib.to_block

  -- The client as the scanner's source of blocks.
  unfoldable pub client : Io W (Unit {0}) → BlockSource W
  unfolding get_block_count get_block_hash get_block
  client ctx_err = record {
    ctx_err = ctx_err;
    get_block_count = get_block_count;
    get_block_hash = get_block_hash;
    get_block = get_block;
  }
