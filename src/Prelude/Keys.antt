-- ===== src/Prelude/Keys.antt =====
-- Decidable equality as an instance: numbers and byte strings are keys of maps.
use mathlib.Core.Path.{◌≡◌, refl, sym, ◌∙◌}
use mathlib.Core.Logic.{◌↔◌, ◌≢◌, inl, inr}
use mathlib.Core.Bool.{Bool, true, false, ◌&&◌}
use mathlib.Core.List.{List, [], ◌∷◌}
use native.Mathlib.Omega.{arith}
use Prim.Native.Nat.{ℕ}
use coinnews_indexer.Prelude.Tests.{◌==◌, ==_iff, Bool-cases}

pub record Eq {ℓ} (A : Type ℓ) : Type ℓ where
  pub beq : A → A → Bool
  pub beq_iff : (a b : A) → (beq a b ≡ true) ↔ (a ≡ b)

unfoldable pub bytes_beq : List ℕ → List ℕ → Bool
bytes_beq [] [] = true
bytes_beq (x ∷ xs) (y ∷ ys) = x == y && bytes_beq xs ys
bytes_beq _ _ = false

pub bytes_beq_iff : (a b : List ℕ) → (bytes_beq a b ≡ true) ↔ (a ≡ b)
unfolding bytes_beq
bytes_beq_iff [] [] = (λ _. refl, λ _. refl)
bytes_beq_iff [] (y ∷ ys) = ground arith
bytes_beq_iff (x ∷ xs) [] = ground arith
bytes_beq_iff (x ∷ xs) (y ∷ ys) = ground (arith, bytes_beq_iff xs ys)

instance abbrev pub nat_eq : Eq ℕ
nat_eq = record { beq = ◌==◌; beq_iff = ==_iff }

instance abbrev pub bytes_eq : Eq (List ℕ)
bytes_eq = record { beq = bytes_beq; beq_iff = bytes_beq_iff }

pub refl_beq {ℓ} : {A : Type ℓ} ⦃e : Eq A⦄ (a : A) → e.beq a a ≡ true
refl_beq ⦃e⦄ a = (e.beq_iff a a).1 refl

module _ {ℓ} {A : Type ℓ} ⦃e : Eq A⦄ where
  beq_false : (a b : A) → e.beq a b ≡ false → a ≢ b
  beq_false a b h p = cc (sym h ∙ (e.beq_iff a b).1 p)

  pub beq_sym : (a b : A) → e.beq a b ≡ e.beq b a
  beq_sym a b = elim (Bool-cases (e.beq a b)) [
    | inl h ↦ rw h (sym ((e.beq_iff b a).1 (sym ((e.beq_iff a b).0 h))))
    | inr h ↦ elim (Bool-cases (e.beq b a)) [
      | inl k ↦ absurd (beq_false a b h (sym ((e.beq_iff b a).0 k)))
      | inr k ↦ rw (h, k)
    ]
  ]
