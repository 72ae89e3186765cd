-- ===== src/Store/Memory/Decimal.antt =====
-- store/memory.go: `itoa`, the decimal text of a uint32.
use coinnews_indexer.Prelude.{
  ℕ, zero, suc, ◌+◌, ◌-◌, ◌*◌, ◌/◌, ◌%◌, ◌^◌, ◌<◌, ◌≤◌, ◌==◌, ltb, ◌≡◌, ◌≢◌, ap, ◌∙◌, [], ◌∷◌, All,
  arith, Bool-cases, inl, inr,
}
use coinnews_indexer.Codec.Types.{Bytes}
use coinnews_indexer.Store.Memory.{itoa, itoa_loop}

abbrev pub IsDigit : ℕ → Type 0
IsDigit c = (b'0' ≤ c) × (c ≤ b'9')

-- The number that the digits give, behind those of `n`.
unfoldable pub value : Bytes → ℕ → ℕ
value [] n = n
value (c ∷ s) n = value s (n * 10 + (c - b'0'))

last_digit : (v : ℕ) → v / 10 * 10 + (b'0' + v % 10 - b'0') ≡ v
last_digit v = omega arith

loop-value : (fuel v : ℕ) (ds : Bytes) → v < 10 ^ fuel → value (itoa_loop fuel v ds) 0 ≡ value ds v
unfolding itoa_loop value
loop-value zero v ds h = ap (value ds) (omega (arith, h))
loop-value (suc fuel) v ds h = elim (Bool-cases (ltb 0 v)) [
  | inl p ↦ rw p (
      loop-value fuel (v / 10) ((b'0' + v % 10) ∷ ds) (omega (arith, h))
      ∙ ap (value ds) (last_digit v))
  | inr z ↦ rw z (ap (value ds) (ground (arith, z)))
]

loop-IsDigit : (fuel v : ℕ) (ds : Bytes) → All IsDigit ds → All IsDigit (itoa_loop fuel v ds)
unfolding itoa_loop
loop-IsDigit zero v ds h = h
loop-IsDigit (suc fuel) v ds h = elim (Bool-cases (ltb 0 v)) [
  | inl p ↦ rw p (loop-IsDigit fuel (v / 10) ((b'0' + v % 10) ∷ ds) (omega arith, h))
  | inr z ↦ rw z h
]

pub itoa-value : (v : ℕ) → v < 2 ^ 32 → value (itoa v) 0 ≡ v
unfolding itoa value itoa_loop
itoa-value v h = elim (Bool-cases (v == 0)) [
  | inl z ↦ rw z (ground arith)
  | inr p ↦ rw p (loop-value 10 v [] (omega arith))
]

pub itoa-IsDigit : (v : ℕ) → All IsDigit (itoa v)
unfolding itoa
itoa-IsDigit v = elim (Bool-cases (v == 0)) [
  | inl z ↦ rw z (omega arith, tt)
  | inr p ↦ rw p (loop-IsDigit 10 v [] tt)
]

pub itoa-nonempty : (v : ℕ) → v < 2 ^ 32 → itoa v ≢ []
unfolding itoa value
itoa-nonempty v h e = elim (Bool-cases (v == 0)) [
  | inl z ↦ ground (arith, rw z at e)
  | inr p ↦ ground (arith, rw e at (itoa-value v h))
]
