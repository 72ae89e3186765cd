-- ===== src/Codec/Crypto.antt =====
-- The hash and the signature scheme that the program takes from crypto/sha256 and from
-- btcec/v2/schnorr: parameters of the model.
use coinnews_indexer.Prelude.{Option, Bool}
use coinnews_indexer.Codec.Types.{Bytes}

pub record Crypto : Type 1 where
  pub PubKey : Type 0
  pub Signature : Type 0
  -- sha256.Sum256
  pub sha256 : Bytes → Bytes
  -- schnorr.ParsePubKey and schnorr.ParseSignature; `none` is an error
  pub parse_pub_key : Bytes → Option PubKey
  pub parse_signature : Bytes → Option Signature
  -- Signature.Verify(digest, pub)
  pub verify : Signature → Bytes → PubKey → Bool
