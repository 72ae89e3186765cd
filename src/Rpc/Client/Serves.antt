-- ===== src/Rpc/Client/Serves.antt =====
-- rpc/client.go: the client before a server, and the scanner over it.
use coinnews_indexer.Prelude.{ℕ, ◌≡◌, refl, ap, Option, List, [], ◌∷◌, none, some}
use coinnews_indexer.Prelude.Int.{ℤ, pos}
use coinnews_indexer.Codec.Types.{Bytes, Error, Result, ok, err}
use coinnews_indexer.Codec.Crypto.{Crypto}
use coinnews_indexer.Store.Interface.{Store, Io, continue, ◌>>=◌}
use coinnews_indexer.Rpc.Client.{
  Param, number, text, RpcError, Library, CallError, decoding, refused, Client, rpc_request,
  http_request, finish, call, get_block_count, get_block_hash, get_block, client,
}
use coinnews_indexer.Scanner.{BlockSource, run}

module _ {J W : Type 0} (lib : Library J W) (errorf : CallError → Error) (c : Client) where
  -- What comes back for a response, or for none.
  pub data Replies {A : Type 0} (method : Bytes) (out : J → Result A)
      : Result Bytes × W → Result A × W → Type 0 where
    unreachable : (e : Error) (w : W) → Replies method out (err e, w) (err e, w)
    garbled :
        (b : Bytes) (e : Error) (w : W)
        → lib.decode b ≡ err e
        → Replies method out (ok b, w) (err (errorf (decoding method e)), w)
    rejected :
        (b : Bytes) (j : J) (e : RpcError) (w : W)
        → lib.decode b ≡ ok (record { result = j; error = some e })
        → Replies method out (ok b, w) (err (errorf (refused method e)), w)
    replied :
        (b : Bytes) (j : J) (r : Result A) (w : W)
        → lib.decode b ≡ ok (record { result = j; error = none })
        → out j ≡ r
        → Replies method out (ok b, w) (r, w)

  -- The server does for a request what `m` does, and says so.
  pub record Serves {A : Type 0} (method : Bytes) (params : Option (List Param))
      (out : J → Result A) (m : Io W A) : Type 0 where
    pub body : Bytes
    pub marshalled : lib.marshal (rpc_request method params) ≡ ok body
    pub valid : lib.request_error (http_request c body) ≡ none
    pub replies : (w : W) → Replies method out (lib.send (http_request c body) w) (m w)

  replied_with :
      {A : Type 0} (method : Bytes) (out : J → Result A) (x : Result Bytes × W) (y : Result A × W)
      → Replies method out x y
      → continue x.0 (λ b. finish lib errorf c method out (lib.decode b)) x.1 ≡ y
  unfolding finish
  replied_with method out x y (unreachable e w) = refl
  replied_with method out x y (garbled b e w h) = rw h refl
  replied_with method out x y (rejected b j e w h) = rw h refl
  replied_with method out x y (replied b j r w h q) = rw (h, q) refl

  call-Serves :
      {A : Type 0} (method : Bytes) (params : Option (List Param)) (out : J → Result A) (m : Io W A)
      → Serves method params out m
      → (w : W) → call lib errorf c method params out w ≡ m w
  unfolding call ◌>>=◌
  call-Serves method params out m s w =
      rw (s.marshalled, s.valid) (replied_with method out _ _ (s.replies w))

  -- The server serves the node.
  pub record ServesNode (node : BlockSource W) : Type 0 where
    pub count :
        Serves
          (b'g' ∷ b'e' ∷ b't' ∷ b'b' ∷ b'l' ∷ b'o' ∷ b'c' ∷ b'k' ∷ b'c' ∷ b'o' ∷ b'u' ∷ b'n' ∷ b't'
            ∷ [])
          none
          lib.to_number
          node.get_block_count
    pub hash_at :
        (h : ℤ)
        → Serves
            (b'g' ∷ b'e' ∷ b't' ∷ b'b' ∷ b'l' ∷ b'o' ∷ b'c' ∷ b'k' ∷ b'h' ∷ b'a' ∷ b's' ∷ b'h' ∷ [])
            (some (number h ∷ []))
            lib.to_text
            (node.get_block_hash h)
    pub block_at :
        (hash : Bytes)
        → Serves
            (b'g' ∷ b'e' ∷ b't' ∷ b'b' ∷ b'l' ∷ b'o' ∷ b'c' ∷ b'k' ∷ [])
            (some (text hash ∷ number (pos 2) ∷ []))
            lib.to_block
            (node.get_block hash)

  client-node : (node : BlockSource W) → ServesNode node → client lib errorf c node.ctx_err ≡ node
  unfolding client get_block_count get_block_hash get_block
  client-node node s i = record {
    ctx_err = node.ctx_err;
    get_block_count = λ w. call-Serves _ _ _ _ s.count w i;
    get_block_hash = λ h w. call-Serves _ _ _ _ (s.hash_at h) w i;
    get_block = λ hash w. call-Serves _ _ _ _ (s.block_at hash) w i;
  }

  -- A run through the client, against a server that serves a node, is a run over that node: with
  -- any store it gives the same result and ends in the same world. Serves: the server does what the
  -- node does, and what it sends back decodes to the node's answer, or to its error, or does not
  -- come, or not decode.
  pub run-client :
      (crypto : Crypto) (st : Store W) (node : BlockSource W) (depth : ℤ) (fuel : ℕ) (start : ℤ)
      (w : W)
      → ServesNode node
      → run crypto st (client lib errorf c node.ctx_err) depth fuel start w
        ≡ run crypto st node depth fuel start w
  run-client crypto st node depth fuel start w s =
      ap (λ src. run crypto st src depth fuel start w) (client-node node s)
