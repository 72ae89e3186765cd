-- ===== src/Codec/Varint.antt =====
-- codec/varint.go: Bitcoin's compact-size integers in 1, 3 or 5 bytes.
pub mod RoundTrip
use coinnews_indexer.Prelude.{
  ℕ, ◌+◌, ◌*◌, ◌/◌, ◌%◌, ◌^◌, List, [], ◌∷◌, ◌++◌, ltb, leb, ◌==◌, if◌then◌else◌,
}
use coinnews_indexer.Codec.Types.{Bytes, Result, ok, err, short_buffer, non_canonical, varint_range}

-- binary.LittleEndian.PutUint16(b, uint16(n)) and PutUint32(b, uint32(n))
unfoldable pub put_uint16 : ℕ → Bytes
put_uint16 n = (n % 256) ∷ (n / 256 % 256) ∷ []

unfoldable pub put_uint32 : ℕ → Bytes
put_uint32 n = (n % 256) ∷ (n / 256 % 256) ∷ (n / 65536 % 256) ∷ (n / 16777216 % 256) ∷ []

unfoldable pub put_compact_size : Bytes → ℕ → Bytes
unfolding put_uint16 put_uint32
put_compact_size dst n =
    if leb n 0xfc
    then dst ++ ((n % 256) ∷ [])
    else if leb n 0xffff
    then dst ++ (0xfd ∷ put_uint16 n)
    else dst ++ (0xfe ∷ put_uint32 n)

-- The cases of `b[0]`. The bytes behind it are matched as far as the Go code requires them
-- (`len(b) < 5`, `len(b) < 3`).
read_uint32_form : Bytes → Result (ℕ × ℕ)
read_uint32_form (b1 ∷ b2 ∷ b3 ∷ b4 ∷ rest) =
    let v = b1 + b2 * 256 + b3 * 65536 + b4 * 16777216 in
    if leb v 0xffff then err non_canonical else ok (v, 5)
read_uint32_form _ = err short_buffer

read_uint16_form : Bytes → Result (ℕ × ℕ)
read_uint16_form (b1 ∷ b2 ∷ rest) =
    let v = b1 + b2 * 256 in if leb v 0xfc then err non_canonical else ok (v, 3)
read_uint16_form _ = err short_buffer

-- The value and the number of bytes that it took.
unfoldable pub read_compact_size : Bytes → Result (ℕ × ℕ)
unfolding read_uint32_form read_uint16_form
read_compact_size [] = err short_buffer
read_compact_size (b0 ∷ b) =
    if b0 == 0xff
    then err varint_range
    else if b0 == 0xfe
    then read_uint32_form b
    else if b0 == 0xfd
    then read_uint16_form b
    else ok (b0, 1)
