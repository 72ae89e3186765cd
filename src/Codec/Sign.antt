-- ===== src/Codec/Sign.antt =====
-- codec/sign.go: BIP-340 tagged hashes and the checks of comment and vote signatures.
use coinnews_indexer.Prelude.{ℕ, List, [], ◌∷◌, ◌++◌, Bool, false, Option, none, some}
use coinnews_indexer.Codec.Types.{Bytes, Comment, Vote}
use coinnews_indexer.Codec.Crypto.{Crypto}

-- "CoinNews/Comment" and "CoinNews/Vote"
abbrev pub tag_comment : Bytes
tag_comment =
    b'C' ∷ b'o' ∷ b'i' ∷ b'n' ∷ b'N' ∷ b'e' ∷ b'w' ∷ b's' ∷ b'/' ∷ b'C' ∷ b'o' ∷ b'm' ∷ b'm' ∷ b'e'
    ∷ b'n' ∷ b't' ∷ []

abbrev pub tag_vote : Bytes
tag_vote =
    b'C' ∷ b'o' ∷ b'i' ∷ b'n' ∷ b'N' ∷ b'e' ∷ b'w' ∷ b's' ∷ b'/' ∷ b'V' ∷ b'o' ∷ b't' ∷ b'e' ∷ []

-- What the writes of the `parts` leave in the hash's buffer.
write_all : List Bytes → Bytes
write_all [] = []
write_all (p ∷ parts) = p ++ write_all parts

module _ (c : Crypto) where
  unfoldable pub tagged_hash : Bytes → List Bytes → Bytes
  unfolding write_all
  tagged_hash tag parts = let th = c.sha256 tag in c.sha256 (th ++ (th ++ write_all parts))

  unfoldable pub comment_sig_hash : Bytes → Bytes → Bytes
  unfolding tagged_hash
  comment_sig_hash parent tlv_blob = tagged_hash tag_comment (parent ∷ tlv_blob ∷ [])

  unfoldable pub vote_sig_hash : ℕ → Bytes → Bytes
  unfolding tagged_hash
  vote_sig_hash typetag target = tagged_hash tag_vote ((typetag ∷ []) ∷ target ∷ [])

  verify_parsed : Option c.PubKey → Option c.Signature → Bytes → Bool
  verify_parsed none s digest = false
  verify_parsed (some pk) none digest = false
  verify_parsed (some pk) (some s) digest = c.verify s digest pk

  unfoldable pub verify_schnorr : Bytes → Bytes → Bytes → Bool
  unfolding verify_parsed
  verify_schnorr xpk sig digest = verify_parsed (c.parse_pub_key xpk) (c.parse_signature sig) digest

  unfoldable pub verify_comment : Comment → Bool
  unfolding verify_schnorr comment_sig_hash
  verify_comment m = verify_schnorr m.author_xpk m.sig (comment_sig_hash m.parent_id m.tlv_blob)

  unfoldable pub verify_vote : Vote → Bool
  unfolding verify_schnorr vote_sig_hash
  verify_vote m = verify_schnorr m.author_xpk m.sig (vote_sig_hash m.kind m.target_id)
