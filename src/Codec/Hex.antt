-- ===== src/Codec/Hex.antt =====
-- encoding/hex of Go's standard library, as the program uses it: lower case out, either case in.
use coinnews_indexer.Prelude.{
  ℕ, ◌+◌, ◌-◌, ◌*◌, ◌/◌, ◌%◌, ◌<◌, ◌≡◌, refl, [], ◌∷◌, ltb, leb, ◌&&◌, if◌then◌else◌, Option, none,
  some, arith, length, ap,
}
use mathlib.Core.Path.{subst}
use coinnews_indexer.Codec.Types.{Bytes, AllBytes}

unfoldable pub hex_digit : ℕ → ℕ
hex_digit n = if ltb n 10 then b'0' + n else b'a' + (n - 10)

unfoldable pub from_hex_char : ℕ → Option ℕ
from_hex_char c =
    if leb b'0' c && leb c b'9'
    then some (c - b'0')
    else if leb b'a' c && leb c b'f'
    then some (c - b'a' + 10)
    else if leb b'A' c && leb c b'F'
    then some (c - b'A' + 10)
    else none

-- hex.EncodeToString
unfoldable pub encode_to_string : Bytes → Bytes
encode_to_string [] = []
encode_to_string (b ∷ bs) = hex_digit (b / 16) ∷ hex_digit (b % 16) ∷ encode_to_string bs

join_digits : Option ℕ → Option ℕ → Option Bytes → Option Bytes
join_digits (some hi) (some lo) (some bs) = some ((hi * 16 + lo) ∷ bs)
join_digits _ _ _ = none

-- hex.DecodeString; `none` is its error
unfoldable pub decode_string : Bytes → Option Bytes
unfolding join_digits
decode_string [] = some []
decode_string (c ∷ []) = none
decode_string (c ∷ d ∷ s) = join_digits (from_hex_char c) (from_hex_char d) (decode_string s)

from_hex-hex_digit : (n : ℕ) → n < 16 → from_hex_char (hex_digit n) ≡ some n
unfolding from_hex_char hex_digit
from_hex-hex_digit n h = ground arith

-- Decoding the hex text of some bytes gives the bytes.
pub decode_string-encode_to_string :
    (b : Bytes) → AllBytes b → decode_string (encode_to_string b) ≡ some b
unfolding decode_string encode_to_string
decode_string-encode_to_string [] h = refl
decode_string-encode_to_string (b ∷ bs) (hb, h) =
    rw
      (
        from_hex-hex_digit (b / 16) (omega arith),
        from_hex-hex_digit (b % 16) (omega arith),
        decode_string-encode_to_string bs h,
      )
      (ap (λ n. some (n ∷ bs)) (omega arith))

pub length-encode_to_string : (b : Bytes) → length (encode_to_string b) ≡ 2 * length b
unfolding encode_to_string
length-encode_to_string [] = refl
length-encode_to_string (b ∷ bs) = omega (arith, length-encode_to_string bs)

from_hex_char-bound : (c n : ℕ) → from_hex_char c ≡ some n → n < 16
unfolding from_hex_char
from_hex_char-bound c n h = ground arith

joined-AllBytes :
    (a b : Option ℕ) (o : Option Bytes) (r : Bytes)
    → ((n : ℕ) → a ≡ some n → n < 16)
    → ((n : ℕ) → b ≡ some n → n < 16)
    → ((bs : Bytes) → o ≡ some bs → AllBytes bs)
    → join_digits a b o ≡ some r
    → AllBytes r
unfolding join_digits
joined-AllBytes (some hi) (some lo) (some bs) r ha hb ho h =
    let x = ha hi refl in
    let y = hb lo refl in
    subst AllBytes (some_injective ((hi * 16 + lo) ∷ bs) r h) (omega (arith, x, y), ho bs refl)
  where
    some_injective : (u v : Bytes) → some u ≡ some v → u ≡ v
    some_injective u v q = cc q
joined-AllBytes none b o r ha hb ho h = ground (arith, h)
joined-AllBytes (some hi) none o r ha hb ho h = ground (arith, h)
joined-AllBytes (some hi) (some lo) none r ha hb ho h = ground (arith, h)

-- Hex text decodes to bytes.
pub decode_string-AllBytes : (s b : Bytes) → decode_string s ≡ some b → AllBytes b
unfolding decode_string
decode_string-AllBytes [] b h = ground (arith, h)
decode_string-AllBytes (c ∷ []) b h = ground (arith, h)
decode_string-AllBytes (c ∷ d ∷ s) b h =
    joined-AllBytes (from_hex_char c) (from_hex_char d) (decode_string s) b (from_hex_char-bound c)
      (from_hex_char-bound d) (decode_string-AllBytes s) h
