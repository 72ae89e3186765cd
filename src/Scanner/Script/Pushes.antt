-- ===== src/Scanner/Script/Pushes.antt =====
-- scanner/script.go: the scripts that push a payload.
use coinnews_indexer.Prelude.{
  ℕ, ◌+◌, ◌*◌, ◌/◌, ◌%◌, ◌<◌, ◌≤◌, ◌≡◌, sym, ap, [], ◌∷◌, ◌++◌, ◌&&◌, some, leb, ◌==◌,
  if◌then◌else◌, length, drop, arith, take_all, take-append-drop, Bool-cases, inl, inr,
}
use coinnews_indexer.Codec.Types.{Bytes, AllBytes}
use coinnews_indexer.Codec.Hex.{encode_to_string, decode_string-encode_to_string}
use coinnews_indexer.Scanner.Script.{first, push_data1, push_data2, parse_push, op_return_payload}

-- The shortest push of some bytes by OP_PUSHBYTES, OP_PUSHDATA1 or OP_PUSHDATA2.
pub push : Bytes → Bytes
push p =
    if leb (length p) 75
    then length p ∷ p
    else if leb (length p) 255
    then 0x4c ∷ length p ∷ p
    else 0x4d ∷ (length p % 256) ∷ (length p / 256) ∷ p

first_all : (p : Bytes) → first (length p) p ≡ some p
unfolding first
first_all p = ground (arith, take_all (length p) p)

parse-push : (p : Bytes) → 1 ≤ length p → length p < 65536 → parse_push (push p) ≡ some p
unfolding parse_push push
parse-push p lo hi = ground (arith, take_all (length p) p)

push-AllBytes : (p : Bytes) → AllBytes p → length p < 65536 → AllBytes (push p)
unfolding push
push-AllBytes p hp hi = ground arith

-- A payload of 1 to 65535 bytes that an OP_RETURN script pushes in the shortest of the three forms
-- is found in the script's hex.
pub op_return_payload-push :
    (p : Bytes)
    → AllBytes p
    → 1 ≤ length p
    → length p < 65536
    → op_return_payload (encode_to_string (0x6a ∷ push p)) ≡ some p
unfolding op_return_payload
op_return_payload-push p hp lo hi =
    rw (decode_string-encode_to_string (0x6a ∷ push p) (omega arith, push-AllBytes p hp hi))
      (parse-push p lo hi)

first-slice : (n : ℕ) (b p : Bytes) → first n b ≡ some p → p ++ drop n b ≡ b
unfolding first
first-slice n b p h = ground (arith, take-append-drop n b)

abbrev pub IsPush : Bytes → Bytes → Type 0
IsPush b p =
    (head : Bytes) × (tail : Bytes) × (b ≡ head ++ (p ++ tail))
    × (1 ≤ length head)
    × (length head ≤ 3)

push_data1-IsPush : (op : ℕ) (b p : Bytes) → push_data1 b ≡ some p → IsPush (op ∷ b) p
unfolding push_data1
push_data1-IsPush op [] p h = cc
push_data1-IsPush op (n ∷ b) p h = (
  op ∷ n ∷ [],
  drop n b,
  ap (λ r. op ∷ n ∷ r) (sym (first-slice n b p h)),
  omega arith,
  omega arith,
)

push_data2-IsPush : (op : ℕ) (b p : Bytes) → push_data2 b ≡ some p → IsPush (op ∷ b) p
unfolding push_data2
push_data2-IsPush op [] p h = cc
push_data2-IsPush op (lo ∷ []) p h = cc
push_data2-IsPush op (lo ∷ hi ∷ b) p h = (
  op ∷ lo ∷ hi ∷ [],
  drop (lo + hi * 256) b,
  ap (λ r. op ∷ lo ∷ hi ∷ r) (sym (first-slice (lo + hi * 256) b p h)),
  omega arith,
  omega arith,
)

-- The payload that is found is a part of the script, behind one to three bytes of the push.
pub parse_push-IsPush : (b p : Bytes) → parse_push b ≡ some p → IsPush b p
unfolding parse_push
parse_push-IsPush [] p h = cc
parse_push-IsPush (op ∷ b) p h = elim (Bool-cases (leb 0x01 op && leb op 0x4b)) [
  | inl e ↦ (
    op ∷ [],
    drop op b,
    ap (◌∷◌ op) (sym (first-slice op b p (rw e at h))),
    omega arith,
    omega arith,
  )
  | inr e ↦ elim (Bool-cases (op == 0x4c)) [
    | inl d1 ↦ push_data1-IsPush op b p (rw (e, d1) at h)
    | inr n1 ↦ elim (Bool-cases (op == 0x4d)) [
      | inl d2 ↦ push_data2-IsPush op b p (rw (e, n1, d2) at h)
      | inr n2 ↦ cc (rw (e, n1, n2) at h)
    ]
  ]
]
