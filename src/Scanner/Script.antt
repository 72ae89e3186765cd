-- ===== src/Scanner/Script.antt =====
-- scanner/script.go: the data pushed by an OP_RETURN script.
pub mod Pushes
pub mod Payloads
use coinnews_indexer.Prelude.{
  ℕ, ◌+◌, ◌*◌, List, [], ◌∷◌, ◌&&◌, Option, none, some, ltb, leb, ◌==◌, if◌then◌else◌, length, take,
}
use coinnews_indexer.Codec.Types.{Bytes}
use coinnews_indexer.Codec.Hex.{decode_string}

abbrev pub op_return : ℕ
op_return = 0x6a

abbrev pub op_push_data1 : ℕ
op_push_data1 = 0x4c

abbrev pub op_push_data2 : ℕ
op_push_data2 = 0x4d

-- `len(b) < n`, else `b[:n]`
pub first : ℕ → Bytes → Option Bytes
first n b = if ltb (length b) n then none else some (take n b)

pub push_data1 : Bytes → Option Bytes
unfolding first
push_data1 [] = none
push_data1 (n ∷ b) = first n b

-- The low byte comes first; the two halves share no bit, so `|` is a sum.
pub push_data2 : Bytes → Option Bytes
unfolding first
push_data2 (lo ∷ hi ∷ b) = first (lo + hi * 256) b
push_data2 _ = none

unfoldable pub parse_push : Bytes → Option Bytes
unfolding push_data1 push_data2
parse_push [] = none
parse_push (op ∷ b) =
    if leb 0x01 op && leb op 0x4b
    then first op b
    else if op == op_push_data1
    then push_data1 b
    else if op == op_push_data2
    then push_data2 b
    else none

unfoldable pub payload_of : Option Bytes → Option Bytes
payload_of none = none
payload_of (some []) = none
payload_of (some (op ∷ b)) = if op == op_return then parse_push b else none

unfoldable pub op_return_payload : Bytes → Option Bytes
unfolding payload_of
op_return_payload script_hex = payload_of (decode_string script_hex)
