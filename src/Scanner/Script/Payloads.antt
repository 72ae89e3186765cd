-- ===== src/Scanner/Script/Payloads.antt =====
-- scanner/script.go, scanner/scanner.go: what a payload of the chain decodes to.
use coinnews_indexer.Prelude.{
  ◌<◌, ◌≡◌, refl, sym, [], ◌∷◌, ◌++◌, Option, none, some, arith, All-left, All-right,
}
use mathlib.Core.Path.{subst}
use coinnews_indexer.Codec.Types as Wire
use coinnews_indexer.Codec.Types.{Bytes, AllBytes, IsByte, ok, Message, story, tlv_subtype}
use coinnews_indexer.Codec.Encode.{encode_message}
use coinnews_indexer.Codec.Tlv.{find_first, encode_tlvs}
use coinnews_indexer.Codec.Tlv.Values.{find_first-AllBytes}
use coinnews_indexer.Scanner.Convert.{subtype_or_zero, story_from_msg}
use coinnews_indexer.Codec.Hex.{decode_string, decode_string-AllBytes}
use coinnews_indexer.Codec.Message.{decode_message}
use coinnews_indexer.Codec.Message.Shape.{IsWellFormed}
use coinnews_indexer.Codec.Message.Accepts.{decode-canonical}
use coinnews_indexer.Scanner.Script.{parse_push, payload_of, op_return_payload}
use coinnews_indexer.Scanner.Script.Pushes.{parse_push-IsPush}

parse_push-AllBytes : (b p : Bytes) → AllBytes b → parse_push b ≡ some p → AllBytes p
parse_push-AllBytes b p hb h =
    let (head, tail, split, _, _) = parse_push-IsPush b p h in
    All-left IsByte p tail (All-right IsByte head (p ++ tail) (subst AllBytes split hb))

payload_of-AllBytes :
    (o : Option Bytes) (p : Bytes)
    → ((b : Bytes) → o ≡ some b → AllBytes b)
    → payload_of o ≡ some p
    → AllBytes p
unfolding payload_of
payload_of-AllBytes none p ho h = ground (arith, h)
payload_of-AllBytes (some []) p ho h = ground (arith, h)
payload_of-AllBytes (some (op ∷ b)) p ho h =
    ground (arith, parse_push-AllBytes b p, (ho (op ∷ b) refl).1)

-- A payload is made of bytes.
pub op_return_payload-AllBytes : (s p : Bytes) → op_return_payload s ≡ some p → AllBytes p
unfolding op_return_payload
op_return_payload-AllBytes s p h =
    payload_of-AllBytes (decode_string s) p (decode_string-AllBytes s) h

-- What the scanner can decode: a well-formed message whose encoding is made of bytes.
pub record IsScanned (m : Message) : Type 0 where
  pub well_formed : IsWellFormed m
  pub bytes : AllBytes (encode_message m)

pub decode_message-IsScanned :
    (b : Bytes) (m : Message) → AllBytes b → decode_message b ≡ ok m → IsScanned m
decode_message-IsScanned b m hb h =
    let (e, w) = decode-canonical b m hb h in
    record { well_formed = w; bytes = subst AllBytes (sym e) hb }

subtype_or_zero-IsByte :
    (o : Option Bytes) → ((v : Bytes) → o ≡ some v → AllBytes v) → subtype_or_zero o < 256
unfolding subtype_or_zero
subtype_or_zero-IsByte none h = omega arith
subtype_or_zero-IsByte (some []) h = omega arith
subtype_or_zero-IsByte (some (b ∷ v)) h = (h (b ∷ v) refl).0

-- The subtype of a story of the chain is a byte.
pub subtype-IsByte :
    (id : Bytes) (m : Wire.Story) → IsScanned (story m) → (story_from_msg id m).subtype < 256
unfolding story_from_msg encode_message
subtype-IsByte id m h = subtype_or_zero-IsByte (find_first m.tlvs tlv_subtype) λ v e.
    find_first-AllBytes m.tlvs tlv_subtype v (All-right IsByte _ (encode_tlvs m.tlvs) h.bytes) e
