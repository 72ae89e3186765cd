-- ===== src/Codec/Tlv.antt =====
-- codec/tlv.go: tag-length-value tuples.
pub mod RoundTrip
pub mod Values
use coinnews_indexer.Prelude.{
  ℕ, zero, suc, List, [], ◌∷◌, ◌++◌, ltb, ◌==◌, if◌then◌else◌, length, take, drop, Option, none,
  some,
}
use coinnews_indexer.Codec.Types.{Bytes, Result, ok, err, ◌>>=◌, truncated_tlv, out_of_fuel, Tlv}
use coinnews_indexer.Codec.Varint.{put_compact_size, read_compact_size}

-- The loop of `EncodeTLVs`, with `out` as accumulator.
pub encode_tlvs_loop : List Tlv → Bytes → Bytes
encode_tlvs_loop [] out = out
encode_tlvs_loop (t ∷ tlvs) out =
    encode_tlvs_loop tlvs (put_compact_size (out ++ (t.tag ∷ [])) (length t.value) ++ t.value)

unfoldable pub encode_tlvs : List Tlv → Bytes
unfolding encode_tlvs_loop
encode_tlvs tlvs = encode_tlvs_loop tlvs []

-- One round: `b` is the buffer behind the tag. The tuple, and the buffer behind it.
pub decode_tlv : ℕ → Bytes → Result (Tlv × Bytes)
decode_tlv tag b = do
  (n, used) ← read_compact_size b
  let b' = drop used b
  if ltb (length b') n
      then err truncated_tlv
      else ok (record { tag = tag; value = take n b' }, drop n b')

pub decode_tlvs_loop : ℕ → Bytes → List Tlv → Result (List Tlv)
unfolding decode_tlv
decode_tlvs_loop fuel [] out = ok out
decode_tlvs_loop zero (tag ∷ b) out = err out_of_fuel
decode_tlvs_loop (suc fuel) (tag ∷ b) out = do
  (t, rest) ← decode_tlv tag b
  decode_tlvs_loop fuel rest (out ++ (t ∷ []))

-- Each round takes a byte at least, so `length b` rounds are enough.
unfoldable pub decode_tlvs : Bytes → Result (List Tlv)
unfolding decode_tlvs_loop
decode_tlvs b = decode_tlvs_loop (length b) b []

unfoldable pub find_first : List Tlv → ℕ → Option Bytes
find_first [] tag = none
find_first (t ∷ tlvs) tag = if t.tag == tag then some t.value else find_first tlvs tag

-- The loop of `FindAll`.
find_all_loop : List Tlv → ℕ → List Bytes → List Bytes
find_all_loop [] tag out = out
find_all_loop (t ∷ tlvs) tag out =
    find_all_loop tlvs tag (if t.tag == tag then out ++ (t.value ∷ []) else out)

unfoldable pub find_all : List Tlv → ℕ → List Bytes
unfolding find_all_loop
find_all tlvs tag = find_all_loop tlvs tag []
