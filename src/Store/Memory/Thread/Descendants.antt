-- ===== src/Store/Memory/Thread/Descendants.antt =====
-- store/memory.go: the fixpoint loop of Thread.
use coinnews_indexer.Prelude.{
  ℕ, zero, suc, ◌+◌, ◌<◌, ◌≤◌, ◌≡◌, ◌⊎◌, ◌↔◌, inl, inr, refl, sym, ap, ◌∙◌, List, [], ◌∷◌, Bool,
  true, false, not, ◌&&◌, if◌then◌else◌, length, bytes_beq, bytes_beq_iff, bytes_eq, refl_beq,
  Bool-cases, arith,
}
use mathlib.Core.Path.{subst}
use coinnews_indexer.Codec.Types.{Bytes}
use coinnews_indexer.GoMap.{GoMap}
use coinnews_indexer.Store.Types.{Comment}
use coinnews_indexer.Store.Memory.{MemoryStore}
use coinnews_indexer.Store.Memory.Thread.{wants, thread_pass, thread_loop, descendants}

-- The comment is a value of the map.
abbrev pub Listed : Comment → GoMap Bytes Comment → Type 0
Listed c [] = ⊥
Listed c ((_, d) ∷ rest) = (d ≡ c) ⊎ Listed c rest

-- The root, and every comment whose parent is below the root.
pub data Under (comments : GoMap Bytes Comment) (root : Bytes) : Bytes → Type 0 where
  self : Under comments root root
  reply :
      (c : Comment) → Listed c comments → Under comments root c.parent_id → Under comments root c.id

abbrev ids : GoMap Bytes Comment → List Bytes
ids [] = []
ids ((_, c) ∷ rest) = c.id ∷ ids rest

-- The ids of a list that are not wanted yet.
missing : List Bytes → List Bytes → ℕ
missing [] want = 0
missing (x ∷ xs) want = (if wants want x then 0 else 1) + missing xs want

-- What is wanted stays wanted.
Grows : List Bytes → List Bytes → Type 0
Grows want want' = (x : Bytes) → wants want x ≡ true → wants want' x ≡ true

wants_add : (b : Bool) (y : Bytes) (want : List Bytes) → Grows want (if b then y ∷ want else want)
unfolding Grows wants
wants_add true y want x h = ground (arith, h)
wants_add false y want x h = h

pass-Grows :
    (cs : GoMap Bytes Comment) (want : List Bytes) (ch : Bool)
    → Grows want (thread_pass cs want ch).0
unfolding Grows thread_pass
pass-Grows [] want ch x h = h
pass-Grows ((_, c) ∷ rest) want ch x h =
    pass-Grows rest _ _ x
      (unfold Grows in wants_add (not (wants want c.id) && wants want c.parent_id) c.id want x h)

missing_le : (xs want want' : List Bytes) → Grows want want' → missing xs want' ≤ missing xs want
unfolding missing Grows
missing_le [] want want' g = omega arith
missing_le (x ∷ xs) want want' g = ground (arith, g x, missing_le xs want want' g)

missing_lt :
    (xs want want' : List Bytes) (y : Bytes)
    → Grows want want'
    → wants xs y ≡ true
    → wants want y ≡ false
    → wants want' y ≡ true
    → missing xs want' < missing xs want
unfolding missing wants Grows
missing_lt [] want want' y g i f t = ground arith
missing_lt (x ∷ xs) want want' y g i f t = elim (Bool-cases (bytes_beq x y)) [
  | inl e ↦ rw ((bytes_beq_iff x y).0 e, f, t) (ground (arith, missing_le xs want want' g))
  | inr e ↦ ground (arith, g x, missing_lt xs want want' y g (rw e at i) f t)
]

missing-length : (cs : GoMap Bytes Comment) (want : List Bytes) → missing (ids cs) want ≤ length cs
unfolding missing
missing-length [] want = omega arith
missing-length ((_, c) ∷ cs) want = ground (arith, missing-length cs want)

-- With every parent, its replies are wanted.
Closed : GoMap Bytes Comment → List Bytes → Type 0
Closed cs want =
    (c : Comment) → Listed c cs → wants want c.parent_id ≡ true → wants want c.id ≡ true

pass_flag : (cs : GoMap Bytes Comment) (want : List Bytes) → (thread_pass cs want true).1 ≡ true
unfolding thread_pass
pass_flag [] want = refl
pass_flag ((_, c) ∷ rest) want =
    elim (Bool-cases (not (wants want c.id) && wants want c.parent_id)) [
      | inl e ↦ rw (thread_pass, e) (pass_flag rest (c.id ∷ want))
      | inr e ↦ rw (thread_pass, e) (pass_flag rest want)
    ]

-- A pass that changes nothing has seen no comment to add.
pass-Closed :
    (cs : GoMap Bytes Comment) (want : List Bytes)
    → (thread_pass cs want false).1 ≡ false
    → ((thread_pass cs want false).0 ≡ want) × Closed cs want
unfolding thread_pass Closed
pass-Closed [] want h = (refl, λ c l. elim l [ ])
pass-Closed ((_, c) ∷ rest) want h =
    elim (Bool-cases (not (wants want c.id) && wants want c.parent_id)) [
      | inl e ↦ cc (sym (pass_flag rest (c.id ∷ want)) ∙ rw (thread_pass, e) at h)
      | inr e ↦
          let ih = pass-Closed rest want (rw (thread_pass, e) at h) in
          (
            rw (thread_pass, e) (ih.0),
            λ d l up. elim l [
              | inl same ↦ seen c d same up e
              | inr l' ↦ unfold Closed in ih.1 d l' up
            ],
          )
    ]
  where
    seen :
        (c d : Comment)
        → c ≡ d
        → wants want d.parent_id ≡ true
        → (not (wants want c.id) && wants want c.parent_id) ≡ false
        → wants want d.id ≡ true
    seen c d same up e =
        subst (λ z. wants want z.id ≡ true) same (ground (arith, ap (λ z. z.parent_id) same))

-- A pass that changes something adds the id of a comment.
pass_progress :
    (cs : GoMap Bytes Comment) (want : List Bytes)
    → (thread_pass cs want false).1 ≡ true
    → (y : Bytes) × (wants (ids cs) y ≡ true)
      × (wants want y ≡ false)
      × (wants (thread_pass cs want false).0 y ≡ true)
unfolding thread_pass wants
pass_progress [] want h = ground arith
pass_progress ((_, c) ∷ rest) want h =
    elim (Bool-cases (not (wants want c.id) && wants want c.parent_id)) [
      | inl e ↦
          rw (thread_pass, e)
            (
              c.id,
              ground (arith, refl_beq c.id),
              ground arith,
              unfold Grows in
                  pass-Grows rest (c.id ∷ want) true c.id (ground (arith, refl_beq c.id)),
            )
      | inr e ↦
          let (y, i, f, t) = pass_progress rest want (rw (thread_pass, e) at h) in
          rw (thread_pass, e) (y, ground arith, f, t)
    ]

loop-Grows :
    (fuel : ℕ) (cs : GoMap Bytes Comment) (want : List Bytes)
    → Grows want (thread_loop fuel cs want)
unfolding thread_loop Grows
loop-Grows zero cs want x h = h
loop-Grows (suc fuel) cs want x h =
    let now : wants (thread_pass cs want false).0 x ≡ true =
      unfold Grows in pass-Grows cs want false x h in
    elim (Bool-cases (thread_pass cs want false).1) [
      | inl e ↦ rw e (loop-Grows fuel cs (thread_pass cs want false).0 x now)
      | inr e ↦ rw e now
    ]

loop-Closed :
    (fuel : ℕ) (cs : GoMap Bytes Comment) (want : List Bytes)
    → missing (ids cs) want < fuel
    → Closed cs (thread_loop fuel cs want)
unfolding thread_loop
loop-Closed zero cs want l = ground arith
loop-Closed (suc fuel) cs want l = elim (Bool-cases (thread_pass cs want false).1) [
  | inl e ↦
      let (y, i, f, t) = pass_progress cs want e in
      let less =
        missing_lt (ids cs) want (thread_pass cs want false).0 y (pass-Grows cs want false) i f t in
      rw e (loop-Closed fuel cs (thread_pass cs want false).0 (omega arith))
  | inr e ↦ let (same, closed) = pass-Closed cs want e in rw (e, same) closed
]

module _ (all : GoMap Bytes Comment) (root : Bytes) where
  -- All that is wanted is below the root.
  Sound : List Bytes → Type 0
  Sound want = (x : Bytes) → wants want x ≡ true → Under all root x

  Sound-add :
      (b : Bool) (c : Comment) (want : List Bytes)
      → (b ≡ true → Under all root c.id)
      → Sound want
      → Sound (if b then c.id ∷ want else want)
  unfolding Sound wants
  Sound-add false c want h s x w = s x w
  Sound-add true c want h s x w = elim (Bool-cases (bytes_beq c.id x)) [
    | inl e ↦ subst (Under all root) ((bytes_beq_iff c.id x).0 e) (h refl)
    | inr e ↦ s x (rw e at w)
  ]

  pass-Sound :
      (cs : GoMap Bytes Comment) (want : List Bytes) (ch : Bool)
      → ((c : Comment) → Listed c cs → Listed c all)
      → Sound want
      → Sound (thread_pass cs want ch).0
  unfolding thread_pass
  pass-Sound [] want ch sub s = s
  pass-Sound ((_, c) ∷ rest) want ch sub s =
      pass-Sound rest _ _ (λ d l. sub d (inr l))
        (Sound-add (not (wants want c.id) && wants want c.parent_id) c want
          (λ e. reply c (sub c (inl refl)) (unfold Sound in s c.parent_id (ground arith))) s)

  loop-Sound : (fuel : ℕ) (want : List Bytes) → Sound want → Sound (thread_loop fuel all want)
  unfolding thread_loop
  loop-Sound zero want s = s
  loop-Sound (suc fuel) want s =
      let next = pass-Sound all want false (λ c l. l) s in
      elim (Bool-cases (thread_pass all want false).1) [
        | inl e ↦ rw e (loop-Sound fuel (thread_pass all want false).0 next)
        | inr e ↦ rw e next
      ]

  Closed-Under :
      (want : List Bytes)
      → Closed all want
      → wants want root ≡ true
      → (x : Bytes) → Under all root x
      → wants want x ≡ true
  unfolding Closed
  Closed-Under want closed r x self = r
  Closed-Under want closed r x (reply c l up) =
      closed c l (Closed-Under want closed r c.parent_id up)

-- The loop of `Thread` ends with the root and exactly the ids of the comments that reply to it,
-- directly or through other comments of the map.
pub descendants-Under :
    (root : Bytes) (m : MemoryStore) (id : Bytes)
    → (wants (descendants root m) id ≡ true) ↔ Under m.comments root id
unfolding descendants
descendants-Under root m id =
    let cs = m.comments in
    (
      λ w.
          unfold Sound in
          loop-Sound cs root (suc (length cs)) (root ∷ [])
            (unfold Sound in
              λ x h.
                subst (Under cs root) ((bytes_beq_iff root x).0 (unfold wants in ground arith))
                  self)
            id w,
      Closed-Under cs root _
          (loop-Closed (suc (length cs)) cs (root ∷ [])
            (ground (arith, missing-length cs (root ∷ []))))
          (unfold Grows in
            loop-Grows (suc (length cs)) cs (root ∷ []) root
              (unfold wants in ground (arith, refl_beq root)))
          id,
    )
