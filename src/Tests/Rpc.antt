-- ===== src/Tests/Rpc.antt =====
-- The JSON-RPC client before a server that echoes the request, which a library reads as an answer of
-- a node.
use coinnews_indexer.Prelude.{zero, suc, List, ◌≡◌, refl, [], ◌∷◌, none, some, Option}
use coinnews_indexer.Prelude.Int.{ℤ, pos, negsuc}
use coinnews_indexer.Codec.Types.{Bytes, Error, external, ok}
use coinnews_indexer.Store.Memory.{new_memory}
use coinnews_indexer.Store.Memory.Backend.{World, memory_store}
use coinnews_indexer.Rpc.Client.{
  Param, number, text, Library, CallError, Client, rpc_request, http_request, client,
}
use coinnews_indexer.Rpc.Client.Serves.{Serves, ServesNode, replied, run-client}
use coinnews_indexer.Scanner.{with_node, default_reorg_depth, run}
use coinnews_indexer.Tests.Data.{a_crypto}
use coinnews_indexer.Tests.Scanner.{node_to}

abbrev first_of : Option (List Param) → Bytes
first_of none = []
first_of (some []) = []
first_of (some (number (pos n) ∷ ps)) = 0 ∷ n ∷ []
first_of (some (number (negsuc n) ∷ ps)) = 1 ∷ n ∷ []
first_of (some (text s ∷ ps)) = s

abbrev height_of : Bytes → ℤ
height_of (zero ∷ n ∷ _) = pos n
height_of (suc k ∷ n ∷ _) = negsuc n
height_of _ = pos 0

abbrev echo : Library Bytes (World (Unit {0}))
echo = record {
  marshal = λ r. ok (first_of r.params);
  request_error = λ r. none;
  send = λ r w. (ok r.body, w);
  decode = λ b. ok (record { result = b; error = none });
  to_number = λ j. ((node_to 1).get_block_count tt).0;
  to_text = λ j. ((node_to 1).get_block_hash (height_of j) tt).0;
  to_block = λ j. ((node_to 1).get_block j tt).0;
}

abbrev errorf : CallError → Error
errorf e = external 1

abbrev a_client : Client
a_client = record { url = []; user = []; pass = [] }

hash_answers :
    (h : ℤ)
    → Serves echo errorf a_client
        (b'g' ∷ b'e' ∷ b't' ∷ b'b' ∷ b'l' ∷ b'o' ∷ b'c' ∷ b'k' ∷ b'h' ∷ b'a' ∷ b's' ∷ b'h' ∷ [])
        (some (number h ∷ []))
        echo.to_text
        ((with_node (node_to 1)).get_block_hash h)
unfolding rpc_request http_request
hash_answers (pos n) = record {
  body = 0 ∷ n ∷ [];
  marshalled = refl;
  valid = refl;
  replies = λ w. replied (0 ∷ n ∷ []) (0 ∷ n ∷ []) _ w refl refl;
}
hash_answers (negsuc n) = record {
  body = 1 ∷ n ∷ [];
  marshalled = refl;
  valid = refl;
  replies = λ w. replied (1 ∷ n ∷ []) (1 ∷ n ∷ []) _ w refl refl;
}

served : ServesNode echo errorf a_client (with_node (node_to 1))
unfolding rpc_request http_request
served = record {
  count = record {
    body = [];
    marshalled = refl;
    valid = refl;
    replies = λ w. replied [] [] _ w refl refl;
  };
  hash_at = hash_answers;
  block_at = λ hash. record {
    body = hash;
    marshalled = refl;
    valid = refl;
    replies = λ w. replied hash hash _ w refl refl;
  };
}

run-client_example :
    run a_crypto
      (memory_store (Unit {0}))
      (client echo errorf a_client (with_node (node_to 1)).ctx_err)
      default_reorg_depth
      5
      (pos 0)
      (tt, new_memory)
    ≡ run a_crypto
        (memory_store (Unit {0}))
        (with_node (node_to 1))
        default_reorg_depth
        5
        (pos 0)
        (tt, new_memory)
run-client_example =
    run-client echo errorf a_client a_crypto (memory_store (Unit {0})) (with_node (node_to 1))
      default_reorg_depth 5 (pos 0) (tt, new_memory) served
