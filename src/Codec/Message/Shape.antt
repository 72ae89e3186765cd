-- ===== src/Codec/Message/Shape.antt =====
-- codec/message.go: what a message that can stand on the chain looks like, and slices of lists.
use coinnews_indexer.Prelude.{
  ℕ, ◌^◌, ◌<◌, ◌≤◌, ◌≡◌, refl, ◌⊎◌, [], ◌∷◌, ◌++◌, arith, length, drop, take, get_or, All,
  length-take, All-take, take-append-drop,
}
use coinnews_indexer.Codec.Types.{
  Bytes, IsByte, AllBytes, IsArray, Message, topic_creation, story, comment, vote, continuation,
}
use coinnews_indexer.Codec.Tlv.{encode_tlvs}
use coinnews_indexer.Codec.Tlv.RoundTrip.{Fits}

-- The Go types (arrays of fixed size, bytes) and the limits of the protocol.
abbrev pub IsWellFormed : Message → Type 0
IsWellFormed (topic_creation m) =
    IsArray 4 m.topic × IsByte m.retention_days × AllBytes m.name × (length m.name < 2 ^ 32)
IsWellFormed (story m) =
    IsArray 4 m.topic × AllBytes m.headline × (length m.headline ≤ 252) × All Fits m.tlvs
IsWellFormed (comment m) =
    IsArray 12 m.parent_id
    × IsArray 32 m.author_xpk
    × IsArray 64 m.sig
    × (m.tlv_blob ≡ encode_tlvs m.tlvs)
    × All Fits m.tlvs
IsWellFormed (vote m) =
    IsArray 12 m.target_id
    × IsArray 32 m.author_xpk
    × IsArray 64 m.sig
    × ((m.kind ≡ 4) ⊎ (m.kind ≡ 5))
IsWellFormed (continuation m) =
    IsArray 12 m.head_id × IsByte m.seq × (1 ≤ length m.chunk) × (length m.chunk ≤ 63)

pub IsArray-take : (n : ℕ) (b : Bytes) → AllBytes b → n ≤ length b → IsArray n (take n b)
IsArray-take n b hb h = record {
  bytes = All-take IsByte n b hb;
  size = omega (arith, length-take n b);
}

-- `l[0]` and `l[1:]` of a list that is not empty.
pub uncons : (l : Bytes) → 1 ≤ length l → get_or l 0 0 ∷ drop 1 l ≡ l
uncons [] h = absurd (omega arith)
uncons (x ∷ l) h = refl

pub IsByte-head : (l : Bytes) → AllBytes l → IsByte (get_or l 0 0)
IsByte-head [] h = omega arith
IsByte-head (x ∷ l) (hx, h) = hx

-- Three fields in a row, the last one to the end.
pub three_fields :
    (b : Bytes) (i j k : ℕ)
    → take i b ++ (take j (drop i b) ++ (take k (drop j (drop i b)) ++ drop k (drop j (drop i b))))
      ≡ b
three_fields b i j k =
    rw (take-append-drop k (drop j (drop i b)), take-append-drop j (drop i b), take-append-drop i b)
