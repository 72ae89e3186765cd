-- ===== src/Api/Request/Parsing.antt =====
-- api/api.go: the parameters of a request, read from the texts that the answers give.
use coinnews_indexer.Prelude.{ℕ, ◌+◌, ◌-◌, ◌*◌, ◌^◌, ◌<◌, ◌≡◌, ◌≢◌, refl, [], ◌∷◌, All, some, arith}
use coinnews_indexer.Prelude.Int.{pos}
use coinnews_indexer.Codec.Types.{Bytes, IsArray}
use coinnews_indexer.Codec.Hex.{encode_to_string, decode_string-encode_to_string}
use coinnews_indexer.Store.Memory.{itoa}
use coinnews_indexer.Store.Memory.Decimal.{IsDigit, value, itoa-value, itoa-IsDigit, itoa-nonempty}
use coinnews_indexer.Api.{parsed}
use coinnews_indexer.Api.Request.{
  atoi, unsigned, digits, positive, parse_topic, parse_x_only, array_of,
}

digits-value : (s : Bytes) (n : ℕ) → All IsDigit s → digits s n ≡ some (value s n)
unfolding digits value
digits-value [] n h = refl
digits-value (c ∷ s) n (hc, h) = ground (arith, digits-value s (n * 10 + (c - b'0')) h)

atoi-value :
    (s : Bytes) → All IsDigit s → s ≢ [] → value s 0 < 2 ^ 63 → atoi s ≡ some (pos (value s 0))
unfolding atoi unsigned positive
atoi-value [] h e l = absurd (e refl)
atoi-value (c ∷ s) (hc, h) e l = rw (digits-value (c ∷ s) 0 (hc, h)) (ground arith)

pub atoi-itoa : (n : ℕ) → n < 2 ^ 32 → atoi (itoa n) ≡ some (pos n)
atoi-itoa n h =
    rw (itoa-value n h) at
      (atoi-value (itoa n) (itoa-IsDigit n) (itoa-nonempty n h) (rw (itoa-value n h) (omega arith)))

pub parse_topic-encode_to_string :
    (t : Bytes) → IsArray 4 t → parse_topic (encode_to_string t) ≡ parsed t
unfolding parse_topic array_of
parse_topic-encode_to_string t h =
    rw (decode_string-encode_to_string t h.bytes) (ground (arith, h.size))

pub parse_x_only-encode_to_string :
    (x : Bytes) → IsArray 32 x → parse_x_only (encode_to_string x) ≡ parsed x
unfolding parse_x_only array_of
parse_x_only-encode_to_string x h =
    rw (decode_string-encode_to_string x h.bytes) (ground (arith, h.size))
