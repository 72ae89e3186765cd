-- ===== src/Codec/Tlv/Values.antt =====
-- codec/tlv.go: the values of tuples that are encoded in bytes.
use coinnews_indexer.Prelude.{
  ℕ, ◌≡◌, List, [], ◌∷◌, ◌++◌, some, arith, length, All, All-right, All-left, Bool-cases, inl, inr,
  ◌==◌,
}
use mathlib.Core.Path.{subst}
use coinnews_indexer.Codec.Types.{Bytes, IsByte, AllBytes, Tlv}
use coinnews_indexer.Codec.Varint.{put_compact_size}
use coinnews_indexer.Codec.Tlv.{encode_tlvs, find_first}
use coinnews_indexer.Codec.Tlv.RoundTrip.{tuple_tail, encoding, encode-encoding}

encoding-values : (tlvs : List Tlv) → AllBytes (encoding tlvs) → All (λ t. AllBytes t.value) tlvs
unfolding encoding tuple_tail
encoding-values [] h = tt
encoding-values (t ∷ tlvs) (_, h) =
    let size = put_compact_size [] (length t.value) in
    (
      All-right IsByte size t.value (All-left IsByte (size ++ t.value) (encoding tlvs) h),
      encoding-values tlvs (All-right IsByte (size ++ t.value) (encoding tlvs) h),
    )

found-AllBytes :
    (l : List Tlv) (tag : ℕ) (v : Bytes)
    → All (λ t. AllBytes t.value) l
    → find_first l tag ≡ some v
    → AllBytes v
unfolding find_first
found-AllBytes [] tag v h e = ground (arith, e)
found-AllBytes (t ∷ l) tag v (ht, h) e = elim (Bool-cases (t.tag == tag)) [
  | inl q ↦ let same : t.value ≡ v = cc (rw q at e) in subst AllBytes same ht
  | inr q ↦ found-AllBytes l tag v h (rw q at e)
]

-- The first value of a tag, where the tuples are encoded in bytes, is made of bytes.
pub find_first-AllBytes :
    (tlvs : List Tlv) (tag : ℕ) (v : Bytes)
    → AllBytes (encode_tlvs tlvs)
    → find_first tlvs tag ≡ some v
    → AllBytes v
find_first-AllBytes tlvs tag v h e =
    found-AllBytes tlvs tag v (encoding-values tlvs (subst AllBytes (encode-encoding tlvs) h)) e
