-- ===== src/Codec/Varint/RoundTrip.antt =====
-- codec/varint.go: putCompactSize against readCompactSize.
use coinnews_indexer.Prelude.{ℕ, ◌^◌, ◌<◌, ◌≤◌, ◌≡◌, [], ◌∷◌, ◌++◌, arith, length, drop}
use coinnews_indexer.Codec.Types.{Bytes, AllBytes, ok, ParseResult, parsed, failed, ParseResult-if}
use coinnews_indexer.Codec.Varint.{
  put_compact_size, read_uint32_form, read_uint16_form, read_compact_size,
}

-- A number below 2^32 is read back from its encoding, whatever follows, and exactly the bytes that
-- were written are consumed.
pub read-put :
    (n : ℕ) (rest : Bytes)
    → n < 2 ^ 32
    → read_compact_size (put_compact_size [] n ++ rest) ≡ ok (n, length (put_compact_size [] n))
unfolding put_compact_size read_compact_size
read-put n rest h = ground arith

-- A successful read of a buffer of bytes consumed exactly the encoding of the value that it
-- returns, so no other form is accepted.
pub put-read :
    (b : Bytes) (v k : ℕ)
    → AllBytes b
    → read_compact_size b ≡ ok (v, k)
    → put_compact_size [] v ++ drop k b ≡ b
unfolding put_compact_size read_compact_size
put-read [] v k hb h = cc
put-read (b0 ∷ []) v k hb h = ground arith
put-read (b0 ∷ b1 ∷ []) v k hb h = ground arith
put-read (b0 ∷ b1 ∷ b2 ∷ []) v k hb h = ground arith
put-read (b0 ∷ b1 ∷ b2 ∷ b3 ∷ []) v k hb h = ground arith
put-read (b0 ∷ b1 ∷ b2 ∷ b3 ∷ b4 ∷ b) v k hb h = ground arith

-- The encoding is appended to `dst`.
pub put-append : (dst : Bytes) (n : ℕ) → put_compact_size dst n ≡ dst ++ put_compact_size [] n
unfolding put_compact_size
put-append dst n = ground arith

-- A successful read of a buffer of bytes takes 1 to 5 bytes, and no more than there are; the value
-- is below 2^32.
pub read_takes :
    (b : Bytes) (v k : ℕ)
    → AllBytes b
    → read_compact_size b ≡ ok (v, k)
    → (1 ≤ k) × (k ≤ 5) × (k ≤ length b) × (v < 2 ^ 32)
unfolding read_compact_size
read_takes [] v k hb h = cc
read_takes (b0 ∷ []) v k hb h = ground arith
read_takes (b0 ∷ b1 ∷ []) v k hb h = ground arith
read_takes (b0 ∷ b1 ∷ b2 ∷ []) v k hb h = ground arith
read_takes (b0 ∷ b1 ∷ b2 ∷ b3 ∷ []) v k hb h = ground arith
read_takes (b0 ∷ b1 ∷ b2 ∷ b3 ∷ b4 ∷ b) v k hb h = ground arith

uint32_form-ParseResult : (b : Bytes) → ParseResult (read_uint32_form b)
unfolding read_uint32_form
uint32_form-ParseResult (b1 ∷ b2 ∷ b3 ∷ b4 ∷ b) = ParseResult-if _ _ _ (failed _ tt) (parsed _)
uint32_form-ParseResult _ = failed _ tt

uint16_form-ParseResult : (b : Bytes) → ParseResult (read_uint16_form b)
unfolding read_uint16_form
uint16_form-ParseResult (b1 ∷ b2 ∷ b) = ParseResult-if _ _ _ (failed _ tt) (parsed _)
uint16_form-ParseResult _ = failed _ tt

-- A read fails with an error of the parser only.
pub read-ParseResult : (b : Bytes) → ParseResult (read_compact_size b)
unfolding read_compact_size
read-ParseResult [] = failed _ tt
read-ParseResult (b0 ∷ b) = ParseResult-if _ _ _ (failed _ tt) (
    ParseResult-if _ _ _ (uint32_form-ParseResult b)
      (ParseResult-if _ _ _ (uint16_form-ParseResult b) (parsed _)))
