-- ===== src/Codec/Tlv/RoundTrip.antt =====
-- codec/tlv.go: EncodeTLVs against DecodeTLVs.
use coinnews_indexer.Prelude.{
  ℕ, zero, suc, ◌^◌, ◌<◌, ◌≤◌, ◌≡◌, refl, sym, ap, ◌∙◌, List, [], ◌∷◌, ◌++◌, arith, length, drop,
  take, All, append-nil, append_assoc, length-append, ltb, take-append_length, drop-append_length,
  take-append-drop, length-drop, length-take, All-drop, inl, inr, Bool-cases,
}
use mathlib.Core.Path.{subst}
use coinnews_indexer.Codec.Types.{
  Bytes, IsByte, AllBytes, Result, ok, err, ParseResult, parsed, failed, ParseResult-err,
  ParseResult-if, Tlv, Result-cases,
}
use coinnews_indexer.Codec.Varint.{put_compact_size, read_compact_size}
use coinnews_indexer.Codec.Varint.RoundTrip.{
  read-put, put-read, put-append, read_takes, read-ParseResult,
}
use coinnews_indexer.Codec.Tlv.{
  encode_tlvs_loop, encode_tlvs, decode_tlv, decode_tlvs_loop, decode_tlvs,
}

-- The bytes of one tuple behind its tag, and of a list of tuples.
unfoldable pub tuple_tail : Tlv → Bytes
tuple_tail t = put_compact_size [] (length t.value) ++ t.value

unfoldable pub encoding : List Tlv → Bytes
encoding [] = []
encoding (t ∷ tlvs) = t.tag ∷ (tuple_tail t ++ encoding tlvs)

encode_tlvs_loop-encoding :
    (tlvs : List Tlv) (out : Bytes) → encode_tlvs_loop tlvs out ≡ out ++ encoding tlvs
unfolding encode_tlvs_loop encoding tuple_tail
encode_tlvs_loop-encoding [] out = sym (append-nil out)
encode_tlvs_loop-encoding (t ∷ tlvs) out =
    encode_tlvs_loop-encoding tlvs _
    ∙ rw (put-append (out ++ (t.tag ∷ [])) (length t.value)) (simp append_assoc)

pub encode-encoding : (tlvs : List Tlv) → encode_tlvs tlvs ≡ encoding tlvs
unfolding encode_tlvs
encode-encoding tlvs = encode_tlvs_loop-encoding tlvs []

-- What a tuple needs to be encodable: its length fits the 5-byte form.
abbrev pub Fits : Tlv → Type 0
Fits t = length t.value < 2 ^ 32

decode-tuple_tail :
    (t : Tlv) (rest : Bytes) → Fits t → decode_tlv t.tag (tuple_tail t ++ rest) ≡ ok (t, rest)
unfolding decode_tlv tuple_tail
decode-tuple_tail t rest h =
    rw (append_assoc, read-put (length t.value) (t.value ++ rest) h)
      (rw
        (
          drop-append_length (length (put_compact_size [] (length t.value)))
              (put_compact_size [] (length t.value)) (t.value ++ rest) refl,
          take-append_length (length t.value) t.value rest refl,
          drop-append_length (length t.value) t.value rest refl,
        )
        (ground (arith, length-append t.value rest)))

decode_tlvs_loop-encoding :
    (tlvs : List Tlv) (fuel : ℕ) (out : List Tlv)
    → All Fits tlvs
    → length (encoding tlvs) ≤ fuel
    → decode_tlvs_loop fuel (encoding tlvs) out ≡ ok (out ++ tlvs)
unfolding encoding decode_tlvs_loop
decode_tlvs_loop-encoding [] zero out h hf = ap ok (sym (append-nil out))
decode_tlvs_loop-encoding [] (suc fuel) out h hf = ap ok (sym (append-nil out))
decode_tlvs_loop-encoding (t ∷ tlvs) zero out h hf = absurd (omega arith)
decode_tlvs_loop-encoding (t ∷ tlvs) (suc fuel) out (ht, h) hf =
    rw (decode-tuple_tail t (encoding tlvs) ht) (
      decode_tlvs_loop-encoding tlvs fuel (out ++ (t ∷ [])) h
        (omega (arith, length-append (tuple_tail t) (encoding tlvs)))
      ∙ ap ok (append_assoc out (t ∷ []) tlvs))

-- Tuples whose values are shorter than 2^32 bytes are read back from their encoding.
pub decode_tlvs-encode_tlvs :
    (tlvs : List Tlv) → All Fits tlvs → decode_tlvs (encode_tlvs tlvs) ≡ ok tlvs
unfolding decode_tlvs
decode_tlvs-encode_tlvs tlvs h =
    rw (encode-encoding tlvs) (decode_tlvs_loop-encoding tlvs _ [] h (omega arith))

-- What the two slices of one round are, once the length has been read and fits.
module _ (b : Bytes) (n used : ℕ) (hb : AllBytes b) (read : read_compact_size b ≡ ok (n, used))
    (fits : n ≤ length (drop used b)) where
  value_size : length (take n (drop used b)) ≡ n
  value_size = omega (arith, length-take n (drop used b))

  round_consumes :
      tuple_tail (record { tag = 0; value = take n (drop used b) }) ++ drop n (drop used b) ≡ b
  unfolding tuple_tail
  round_consumes =
      rw (value_size, append_assoc, take-append-drop n (drop used b)) (put-read b n used hb read)

  round_shrinks : length (drop n (drop used b)) ≤ length b
  round_shrinks = omega (arith, length-drop n (drop used b), length-drop used b)

  round_bytes : AllBytes (drop n (drop used b))
  round_bytes = All-drop IsByte n (drop used b) (All-drop IsByte used b hb)

  round_fits : length (take n (drop used b)) < 2 ^ 32
  round_fits = omega (arith, value_size, (read_takes b n used hb read).3)

record Round (tag : ℕ) (b : Bytes) (t : Tlv) (rest : Bytes) : Type 0 where
  consumes : t.tag ∷ (tuple_tail t ++ rest) ≡ tag ∷ b
  shrinks : length rest ≤ length b
  bytes : AllBytes rest
  fits : Fits t

-- One tuple read: what it consumed is the tuple's encoding.
decode_tlv-Round :
    (tag : ℕ) (b : Bytes) (t : Tlv) (rest : Bytes)
    → AllBytes b
    → decode_tlv tag b ≡ ok (t, rest)
    → Round tag b t rest
unfolding decode_tlv
decode_tlv-Round tag b t rest hb h = elim (Result-cases (read_compact_size b)) [
  | inr (x, e) ↦ cc (rw e at h)
  | inl ((n, used), e) ↦ elim (Bool-cases (ltb (length (drop used b)) n)) [
    | inl short ↦ cc (rw (e, short) at h)
    | inr enough ↦
        let fits : n ≤ length (drop used b) = ground arith in
        let h' : ◌≡◌ {A = Result (Tlv × Bytes)}
            (ok (record { tag = tag; value = take n (drop used b) }, drop n (drop used b)))
            (ok (t, rest)) =
          rw (e, enough) at h in
        subst (λ (r : Result (Tlv × Bytes)). Holds r) h'
          (record {
            consumes = unfold tuple_tail in ap (◌∷◌ tag) (round_consumes b n used hb e fits);
            shrinks = round_shrinks b n used hb e fits;
            bytes = round_bytes b n used hb e fits;
            fits = round_fits b n used hb e fits;
          })
  ]
]
  where
    Holds : Result (Tlv × Bytes) → Type 0
    Holds (ok (u, r)) = Round tag b u r
    Holds (err x) = Unit

-- The tuples of a buffer are consumed whole: they are the encoding of the result.
decode_tlvs_loop-ok :
    (fuel : ℕ) (b : Bytes) (out tlvs : List Tlv)
    → AllBytes b
    → decode_tlvs_loop fuel b out ≡ ok tlvs
    → (new : List Tlv) × (tlvs ≡ out ++ new) × (encoding new ≡ b) × All Fits new
unfolding decode_tlvs_loop encoding
decode_tlvs_loop-ok zero [] out tlvs hb h = ([], cc (append-nil out), refl, tt)
decode_tlvs_loop-ok (suc fuel) [] out tlvs hb h = ([], cc (append-nil out), refl, tt)
decode_tlvs_loop-ok zero (tag ∷ b) out tlvs hb h = cc
decode_tlvs_loop-ok (suc fuel) (tag ∷ b) out tlvs (ht, hb) h =
    elim (Result-cases (decode_tlv tag b)) [
      | inr (x, e) ↦ cc (rw e at h)
      | inl ((t, rest), e) ↦
          let round = decode_tlv-Round tag b t rest hb e in
          let (new, split, whole, fits) =
            decode_tlvs_loop-ok fuel rest (out ++ (t ∷ [])) tlvs round.bytes (rw e at h) in
          (
            t ∷ new,
            split ∙ append_assoc out (t ∷ []) new,
            ap (λ r. t.tag ∷ (tuple_tail t ++ r)) whole ∙ round.consumes,
            (round.fits, fits),
          )
    ]

-- A buffer of bytes that decodes is the encoding of the tuples that it decodes to, and each value
-- is shorter than 2^32 bytes.
pub encode_tlvs-decode_tlvs :
    (b : Bytes) (tlvs : List Tlv)
    → AllBytes b
    → decode_tlvs b ≡ ok tlvs
    → (encode_tlvs tlvs ≡ b) × All Fits tlvs
unfolding decode_tlvs
encode_tlvs-decode_tlvs b tlvs hb h =
    let (new, split, whole, fits) = decode_tlvs_loop-ok (length b) b [] tlvs hb h in
    (encode-encoding tlvs ∙ rw split whole, rw split fits)

tlv-ParseResult : (tag : ℕ) (b : Bytes) → ParseResult (decode_tlv tag b)
unfolding decode_tlv
tlv-ParseResult tag b = elim (Result-cases (read_compact_size b)) [
  | inr (x, e) ↦ rw e (failed x (ParseResult-err (rw e at (read-ParseResult b))))
  | inl ((n, used), e) ↦ rw e (ParseResult-if _ _ _ (failed _ tt) (parsed _))
]

-- The loop is given enough fuel: on no buffer of bytes does it run out.
decode_tlvs_loop-ParseResult :
    (fuel : ℕ) (b : Bytes) (out : List Tlv)
    → AllBytes b
    → length b ≤ fuel
    → ParseResult (decode_tlvs_loop fuel b out)
unfolding decode_tlvs_loop
decode_tlvs_loop-ParseResult zero [] out hb hf = parsed out
decode_tlvs_loop-ParseResult (suc fuel) [] out hb hf = parsed out
decode_tlvs_loop-ParseResult zero (tag ∷ b) out hb hf = absurd (omega arith)
decode_tlvs_loop-ParseResult (suc fuel) (tag ∷ b) out (ht, hb) hf =
    elim (Result-cases (decode_tlv tag b)) [
      | inr (x, e) ↦ rw e (failed x (ParseResult-err (rw e at (tlv-ParseResult tag b))))
      | inl ((t, rest), e) ↦
          let round = decode_tlv-Round tag b t rest hb e in
          rw e (
            decode_tlvs_loop-ParseResult fuel rest (out ++ (t ∷ [])) round.bytes
              (omega (arith, round.shrinks)))
    ]

-- `decode_tlvs` ends on every buffer of bytes: it returns tuples or an error of the parser.
pub decode-ParseResult : (b : Bytes) → AllBytes b → ParseResult (decode_tlvs b)
unfolding decode_tlvs
decode-ParseResult b hb = decode_tlvs_loop-ParseResult (length b) b [] hb (omega arith)
