-- ===== src/Codec/Message/Accepts.antt =====
-- codec/message.go: which payloads the decoder accepts, and which error it gives.
use coinnews_indexer.Prelude.{
  ◌↔◌, ℕ, ◌≤◌, ◌≡◌, refl, sym, ◌∙◌, ◌≢◌, [], ◌∷◌, arith, length, drop, take, append-nil, ltb, ◌==◌,
  if◌then◌else◌, Bool, true, false, take-append-drop, length-drop, length-take, All-drop, All-take,
  not, inl, inr, ◌⊎◌, ◌||◌,
}
use coinnews_indexer.Codec.Types.{
  Bytes, IsByte, AllBytes, IsArray, Result, ok, err, Error, Result-cases, malformed, not_coin_news,
  unknown_type_tag, IsParseError, ParseResult-err, Message,
}
use coinnews_indexer.Codec.Varint.{read_compact_size}
use coinnews_indexer.Codec.Varint.RoundTrip.{put-read, read_takes, read-ParseResult}
use coinnews_indexer.Codec.Tlv.{decode_tlvs}
use coinnews_indexer.Codec.Tlv.RoundTrip as Tlv
use coinnews_indexer.Codec.Encode.{encode_message}
use coinnews_indexer.Codec.Message.{
  decode_topic_creation, decode_story, decode_comment, decode_vote, decode_continuation,
  decode_body, decode_message,
}
use native.Mathlib.Decide.{ℕ_discrete}
use coinnews_indexer.Codec.Message.RoundTrip.{body, tag_of, encode-body}
use coinnews_indexer.Codec.Message.Shape.{
  IsWellFormed, IsArray-take, uncons, IsByte-head, three_fields,
}

length_zero : (l : Bytes) → length l ≡ 0 → l ≡ []
length_zero [] h = refl
length_zero (x ∷ l) h = absurd (omega arith)

signed_fields :
    (b : Bytes)
    → AllBytes b
    → 108 ≤ length b
    → IsArray 12 (take 12 b)
      × IsArray 32 (take 32 (drop 12 b))
      × IsArray 64 (take 64 (drop 32 (drop 12 b)))
      × AllBytes (drop 64 (drop 32 (drop 12 b)))
signed_fields b hb h =
    let hb1 = All-drop IsByte 12 b hb in
    let hb2 = All-drop IsByte 32 (drop 12 b) hb1 in
    (
      IsArray-take 12 b hb (omega arith),
      IsArray-take 32 (drop 12 b) hb1 (omega (arith, length-drop 12 b)),
      IsArray-take 64 (drop 32 (drop 12 b)) hb2
          (omega (arith, length-drop 12 b, length-drop 32 (drop 12 b))),
      All-drop IsByte 64 (drop 32 (drop 12 b)) hb2,
    )

-- What a decoder may answer on the body `b` of a message: a well-formed message whose fields are
-- `b`, or an error of the parser.
data Reads (tag : ℕ) (b : Bytes) : Result Message → Type 0 where
  accepted : (m : Message) → tag_of m ≡ tag → body m ≡ b → IsWellFormed m → Reads tag b (ok m)
  refused : (x : Error) → IsParseError x → Reads tag b (err x)

Reads-if :
    (tag : ℕ) (b : Bytes) (t : Bool) (r s : Result Message)
    → (t ≡ true → Reads tag b r)
    → (t ≡ false → Reads tag b s)
    → Reads tag b (if t then r else s)
Reads-if tag b true r s hr hs = hr refl
Reads-if tag b false r s hr hs = hs refl

topic_creation-Reads : (b : Bytes) → AllBytes b → Reads 1 b (decode_topic_creation b)
unfolding decode_topic_creation body tag_of
topic_creation-Reads b hb =
    Reads-if 1 b (ltb (length b) 5) _ _ (λ _. refused malformed tt)
      λ (long : ltb (length b) 5 ≡ false).
        let b1 : Bytes = drop 4 b in
        let hb1 : AllBytes b1 = All-drop IsByte 4 b hb in
        let enough : 5 ≤ length b = ground arith in
        let room : 1 ≤ length b1 = omega (arith, length-drop 4 b) in
        let b2 : Bytes = drop 1 b1 in
        let hb2 : AllBytes b2 = All-drop IsByte 1 b1 hb1 in
        elim (Result-cases (read_compact_size b2)) [
          | inr (x, e) ↦ rw e (refused x (ParseResult-err (rw e at (read-ParseResult b2))))
          | inl ((n, used), e) ↦ rw e (
              Reads-if 1 b (length (drop used b2) == n) _ _
                (λ (same : (length (drop used b2) == n) ≡ true).
                  let size : length (drop used b2) ≡ n = ground arith in
                  accepted _ refl
                    (rw (size, put-read b2 n used hb2 e, uncons b1 room) (take-append-drop 4 b))
                    (
                      IsArray-take 4 b hb (omega arith),
                      IsByte-head b1 hb1,
                      All-drop IsByte used b2 hb2,
                      omega (arith, size, (read_takes b2 n used hb2 e).3),
                    ))
                (λ _. refused malformed tt))
        ]

story-Reads : (b : Bytes) → AllBytes b → Reads 2 b (decode_story b)
unfolding decode_story body tag_of
story-Reads b hb =
    Reads-if 2 b (ltb (length b) 4) _ _ (λ _. refused malformed tt)
      λ (long : ltb (length b) 4 ≡ false).
        let b1 : Bytes = drop 4 b in
        let hb1 : AllBytes b1 = All-drop IsByte 4 b hb in
        let enough : 4 ≤ length b = ground arith in
        elim (Result-cases (read_compact_size b1)) [
          | inr (x, e) ↦ rw e (refused x (ParseResult-err (rw e at (read-ParseResult b1))))
          | inl ((n, used), e) ↦
              let b2 : Bytes = drop used b1 in
              let hb2 : AllBytes b2 = All-drop IsByte used b1 hb1 in
              rw e (
                Reads-if 2 b (ltb 252 n || ltb (length b2) n) _ _ (λ _. refused malformed tt)
                  λ (fits : (ltb 252 n || ltb (length b2) n) ≡ false).
                    let small : n ≤ 252 = ground arith in
                    let there : n ≤ length b2 = ground arith in
                    let size : length (take n b2) ≡ n = omega (arith, length-take n b2) in
                    let hb3 : AllBytes (drop n b2) = All-drop IsByte n b2 hb2 in
                    elim (Result-cases (decode_tlvs (drop n b2))) [
                      | inr (x, d) ↦ rw d (
                          refused x
                            (ParseResult-err (rw d at (Tlv.decode-ParseResult (drop n b2) hb3))))
                      | inl (tlvs, d) ↦
                          let (whole, fit) = Tlv.encode_tlvs-decode_tlvs (drop n b2) tlvs hb3 d in
                          rw d (
                            accepted _ refl
                              (rw (size, whole, take-append-drop n b2, put-read b1 n used hb1 e)
                                (take-append-drop 4 b))
                              (
                                IsArray-take 4 b hb enough,
                                All-take IsByte n b2 hb2,
                                omega arith,
                                fit,
                              ))
                    ])
        ]

comment-Reads : (b : Bytes) → AllBytes b → Reads 3 b (decode_comment b)
unfolding decode_comment body tag_of
comment-Reads b hb =
    Reads-if 3 b (ltb (length b) 108) _ _ (λ _. refused malformed tt)
      λ (long : ltb (length b) 108 ≡ false).
        let enough : 108 ≤ length b = ground arith in
        let (hp, ha, hs, hb3) = signed_fields b hb enough in
        let b3 : Bytes = drop 64 (drop 32 (drop 12 b)) in
        elim (Result-cases (decode_tlvs b3)) [
          | inr (x, d) ↦
              rw d (refused x (ParseResult-err (rw d at (Tlv.decode-ParseResult b3 hb3))))
          | inl (tlvs, d) ↦
              let (whole, fit) = Tlv.encode_tlvs-decode_tlvs b3 tlvs hb3 d in
              rw d
                (accepted _ refl (rw whole (three_fields b 12 32 64)) (hp, ha, hs, sym whole, fit))
        ]

vote-Reads :
    (tag : ℕ) (b : Bytes) → (tag ≡ 4) ⊎ (tag ≡ 5) → AllBytes b → Reads tag b (decode_vote tag b)
unfolding decode_vote body tag_of
vote-Reads tag b kind hb =
    Reads-if tag b (not (length b == 108)) _ _ (λ _. refused malformed tt)
      λ (same : not (length b == 108) ≡ false).
        let size : length b ≡ 108 = ground arith in
        let (hp, ha, hs, hb3) = signed_fields b hb (omega arith) in
        let none_left : drop 64 (drop 32 (drop 12 b)) ≡ [] = length_zero _ (
          omega (
            arith,
            length-drop 64 (drop 32 (drop 12 b)),
            length-drop 32 (drop 12 b),
            length-drop 12 b,
          )) in
        accepted _ refl (rw (none_left, append-nil) at (three_fields b 12 32 64)) (hp, ha, hs, kind)

continuation-Reads : (b : Bytes) → AllBytes b → Reads 6 b (decode_continuation b)
unfolding decode_continuation body tag_of
continuation-Reads b hb =
    Reads-if 6 b (ltb (length b) 13) _ _ (λ _. refused malformed tt)
      λ (long : ltb (length b) 13 ≡ false).
        let b1 : Bytes = drop 12 b in
        let enough : 13 ≤ length b = ground arith in
        let room : 1 ≤ length b1 = omega (arith, length-drop 12 b) in
        let b2 : Bytes = drop 1 b1 in
        Reads-if 6 b (ltb (length b2) 1 || ltb 63 (length b2)) _ _ (λ _. refused malformed tt)
          λ (fits : (ltb (length b2) 1 || ltb 63 (length b2)) ≡ false).
            accepted _ refl (rw (uncons b1 room) (take-append-drop 12 b)) (
              IsArray-take 12 b hb (omega arith),
              IsByte-head b1 (All-drop IsByte 12 b hb),
              ground arith,
              ground arith,
            )

-- The tag is none of the six.
abbrev pub Unknown : ℕ → Type 0
Unknown tag = (tag ≢ 1) × (tag ≢ 2) × (tag ≢ 3) × (tag ≢ 4) × (tag ≢ 5) × (tag ≢ 6)

-- The dispatch on the tag: a known tag leads to its decoder, any other is refused as unknown.
body-Reads :
    (tag : ℕ) (b : Bytes)
    → AllBytes b
    → (Reads tag b (decode_body tag b) × (¬ Unknown tag))
      ⊎ ((decode_body tag b ≡ err unknown_type_tag) × Unknown tag)
unfolding decode_body
body-Reads tag b hb = elim (ℕ_discrete tag 1) [
  | yes e ↦ rw e (inl (topic_creation-Reads b hb, λ u. u.0 refl))
  | no n1 ↦ elim (ℕ_discrete tag 2) [
    | yes e ↦ rw e (inl (story-Reads b hb, λ u. u.1 refl))
    | no n2 ↦ elim (ℕ_discrete tag 3) [
      | yes e ↦ rw e (inl (comment-Reads b hb, λ u. u.2 refl))
      | no n3 ↦ elim (ℕ_discrete tag 4) [
        | yes e ↦ rw e (inl (vote-Reads 4 b (inl refl) hb, λ u. u.3 refl))
        | no n4 ↦ elim (ℕ_discrete tag 5) [
          | yes e ↦ rw e (inl (vote-Reads 5 b (inr refl) hb, λ u. u.4 refl))
          | no n5 ↦ elim (ℕ_discrete tag 6) [
            | yes e ↦ rw e (inl (continuation-Reads b hb, λ u. u.5 refl))
            | no n6 ↦ inr (ground arith, (n1, n2, n3, n4, n5, n6))
          ]
        ]
      ]
    ]
  ]
]

-- The payload starts with the magic and has a type tag.
abbrev pub HasMagic : Bytes → Type 0
HasMagic b = (tag : ℕ) × (rest : Bytes) × (b ≡ 0x43 ∷ 0x4E ∷ tag ∷ rest)

message-cases :
    (b : Bytes)
    → AllBytes b
    → ((tag : ℕ) × (rest : Bytes) × (b ≡ 0x43 ∷ 0x4E ∷ tag ∷ rest)
        × (decode_message b ≡ decode_body tag rest)
        × AllBytes rest)
      ⊎ ((decode_message b ≡ err not_coin_news) × (¬ HasMagic b))
unfolding decode_message
message-cases [] hb = inr (refl, λ (t, r, e). cc)
message-cases (a ∷ []) hb = inr (refl, λ (t, r, e). cc)
message-cases (a ∷ c ∷ []) hb = inr (refl, λ (t, r, e). cc)
message-cases (a ∷ c ∷ tag ∷ rest) (ha, (hc, (ht, hb))) = elim (ℕ_discrete a 0x43) [
  | no n ↦ inr (ground arith, λ (t, r, e). n (cc))
  | yes ea ↦ elim (ℕ_discrete c 0x4E) [
    | no n ↦ inr (ground arith, λ (t, r, e). n (cc))
    | yes ec ↦ inl (tag, rest, rw (ea, ec), rw (ea, ec), hb)
  ]
]

module _ {tag : ℕ} {b : Bytes} where
  Reads-ok :
      {r : Result Message}
      → Reads tag b r
      → (m : Message) → r ≡ ok m
      → (encode_message m ≡ 0x43 ∷ 0x4E ∷ tag ∷ b) × IsWellFormed m
  Reads-ok (accepted m' t w wf) m h =
      let same : m' ≡ m = cc in rw (← same) (rw (encode-body m', t, w) refl, wf)
  Reads-ok (refused x hx) m h = cc

  Reads-err : {r : Result Message} → Reads tag b r → (x : Error) → r ≡ err x → IsParseError x
  Reads-err (accepted m t w wf) x h = cc
  Reads-err (refused y hy) x h = let same : y ≡ x = cc in rw (← same) hy

-- A payload of bytes that is accepted is what the encoder writes of the decoded message, and that
-- message is well formed.
pub decode-canonical :
    (b : Bytes) (m : Message)
    → AllBytes b
    → decode_message b ≡ ok m
    → (encode_message m ≡ b) × IsWellFormed m
decode-canonical b m hb h = elim (message-cases b hb) [
  | inr (e, _) ↦ cc (sym e ∙ h)
  | inl (tag, rest, split, e, hr) ↦ elim (body-Reads tag rest hr) [
    | inr (u, _) ↦ cc (sym u ∙ sym e ∙ h)
    | inl (r, _) ↦ rw split (Reads-ok r m (sym e ∙ h))
  ]
]

-- The error `not_coin_news` is given exactly to the payloads that do not start with the magic and a
-- tag.
pub decode-not_coin_news :
    (b : Bytes) → AllBytes b → (decode_message b ≡ err not_coin_news) ↔ (¬ HasMagic b)
decode-not_coin_news b hb = elim (message-cases b hb) [
  | inr (e, none_such) ↦ (λ _. none_such, λ _. e)
  | inl (tag, rest, split, e, hr) ↦ (
    λ h. elim (body-Reads tag rest hr) [
      | inr (u, _) ↦ cc (sym u ∙ sym e ∙ h)
      | inl (r, _) ↦ absurd (Reads-err r not_coin_news (sym e ∙ h))
    ],
    λ none_such. absurd (none_such (tag, rest, split)),
  )
]

-- The error `unknown_type_tag` is given exactly to the payloads with the magic and a tag that is
-- none of the six.
pub decode-unknown_type_tag :
    (b : Bytes)
    → AllBytes b
    → (decode_message b ≡ err unknown_type_tag)
      ↔ ((tag : ℕ) × (rest : Bytes) × (b ≡ 0x43 ∷ 0x4E ∷ tag ∷ rest) × Unknown tag)
decode-unknown_type_tag b hb = elim (message-cases b hb) [
  | inr (e, none_such) ↦
      (λ h. cc (sym e ∙ h), λ (tag, rest, split, _). absurd (none_such (tag, rest, split)))
  | inl (tag, rest, split, e, hr) ↦ elim (body-Reads tag rest hr) [
    | inr (u, is_unknown) ↦ (λ _. (tag, rest, split, is_unknown), λ _. e ∙ u)
    | inl (r, known) ↦ (
      λ h. absurd (Reads-err r unknown_type_tag (sym e ∙ h)),
      λ (tag', rest', split', is_unknown).
          let same : tag' ≡ tag = cc (split, split') in absurd (known (rw same at is_unknown)),
    )
  ]
]
