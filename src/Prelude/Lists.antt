-- ===== src/Prelude/Lists.antt =====
-- Lists measured and sliced by native numbers, under the library's names.
use Prim.Native.Nat.{ℕ, zero, suc, ◌+◌, ◌-◌, ◌≤◌, min}
use mathlib.Core.Path.{◌≡◌, refl, ap}
use mathlib.Core.List.{List, [], ◌∷◌, ◌++◌}
use mathlib.Core.Bool.{Bool}
use native.Mathlib.Omega.{arith}
use mathlib.Core.Logic.{inl, inr}
use coinnews_indexer.Prelude.Tests.{if◌then◌else◌, Bool-cases}

module _ {ℓ} {A : Type ℓ} where
  abbrev pub length : List A → ℕ
  length [] = 0
  length (x ∷ xs) = suc (length xs)

  -- `l[:n]`
  abbrev pub take : ℕ → List A → List A
  take zero xs = []
  take (suc n) [] = []
  take (suc n) (x ∷ xs) = x ∷ take n xs

  -- `l[n:]`
  abbrev pub drop : ℕ → List A → List A
  drop zero xs = xs
  drop (suc n) [] = []
  drop (suc n) (x ∷ xs) = drop n xs

  -- `l[i]`, or the default past the end
  abbrev pub get_or : List A → ℕ → A → A
  get_or [] i d = d
  get_or (x ∷ xs) zero d = x
  get_or (x ∷ xs) (suc i) d = get_or xs i d

  -- The elements that pass a Boolean test, in order.
  abbrev pub keep : (A → Bool) → List A → List A
  keep p [] = []
  keep p (x ∷ xs) = if p x then x ∷ keep p xs else keep p xs

  abbrev pub All {κ} : (A → Type κ) → List A → Type κ
  All P [] = Unit {κ}
  All P (x ∷ xs) = P x × All P xs

module _ {ℓ} {A : Type ℓ} where
  pub length-append : (xs ys : List A) → length (xs ++ ys) ≡ length xs + length ys
  length-append [] ys = omega arith
  length-append (x ∷ xs) ys = omega (arith, length-append xs ys)

  pub take-append-drop : (n : ℕ) (xs : List A) → take n xs ++ drop n xs ≡ xs
  take-append-drop zero xs = refl
  take-append-drop (suc n) [] = refl
  take-append-drop (suc n) (x ∷ xs) = ap (◌∷◌ x) (take-append-drop n xs)

  pub length-take : (n : ℕ) (xs : List A) → length (take n xs) ≡ min n (length xs)
  length-take zero xs = omega arith
  length-take (suc n) [] = omega arith
  length-take (suc n) (x ∷ xs) = omega (arith, length-take n xs)

  pub length-drop : (n : ℕ) (xs : List A) → length (drop n xs) ≡ length xs - n
  length-drop zero xs = omega arith
  length-drop (suc n) [] = omega arith
  length-drop (suc n) (x ∷ xs) = omega (arith, length-drop n xs)

  -- Slicing an append at the seam.
  pub take-append_length : (n : ℕ) (xs ys : List A) → length xs ≡ n → take n (xs ++ ys) ≡ xs
  take-append_length zero [] ys h = refl
  take-append_length zero (x ∷ xs) ys h = absurd (omega arith)
  take-append_length (suc n) [] ys h = absurd (omega arith)
  take-append_length (suc n) (x ∷ xs) ys h = ap (◌∷◌ x) (take-append_length n xs ys (omega arith))

  pub drop-append_length : (n : ℕ) (xs ys : List A) → length xs ≡ n → drop n (xs ++ ys) ≡ ys
  drop-append_length zero [] ys h = refl
  drop-append_length zero (x ∷ xs) ys h = absurd (omega arith)
  drop-append_length (suc n) [] ys h = absurd (omega arith)
  drop-append_length (suc n) (x ∷ xs) ys h = drop-append_length n xs ys (omega arith)

  pub take_all : (n : ℕ) (xs : List A) → length xs ≤ n → take n xs ≡ xs
  take_all zero [] h = refl
  take_all zero (x ∷ xs) h = absurd (omega arith)
  take_all (suc n) [] h = refl
  take_all (suc n) (x ∷ xs) h = ap (◌∷◌ x) (take_all n xs (omega arith))

module _ {ℓ κ} {A : Type ℓ} (P : A → Type κ) where
  pub All-append : (xs ys : List A) → All P xs → All P ys → All P (xs ++ ys)
  All-append [] ys h k = k
  All-append (x ∷ xs) ys (hx, h) k = (hx, All-append xs ys h k)

  pub All-left : (xs ys : List A) → All P (xs ++ ys) → All P xs
  All-left [] ys h = tt
  All-left (x ∷ xs) ys (hx, h) = (hx, All-left xs ys h)

  pub All-right : (xs ys : List A) → All P (xs ++ ys) → All P ys
  All-right [] ys h = h
  All-right (x ∷ xs) ys (hx, h) = All-right xs ys h

  pub All-take : (n : ℕ) (xs : List A) → All P xs → All P (take n xs)
  All-take zero xs h = tt
  All-take (suc n) [] h = tt
  All-take (suc n) (x ∷ xs) (hx, h) = (hx, All-take n xs h)

  pub All-drop : (n : ℕ) (xs : List A) → All P xs → All P (drop n xs)
  All-drop zero xs h = h
  All-drop (suc n) [] h = tt
  All-drop (suc n) (x ∷ xs) (hx, h) = All-drop n xs h

  pub All-keep : (p : A → Bool) (xs : List A) → All P xs → All P (keep p xs)
  All-keep p [] h = tt
  All-keep p (x ∷ xs) (hx, h) = elim (Bool-cases (p x)) [
    | inl e ↦ rw e (hx, All-keep p xs h)
    | inr e ↦ rw e (All-keep p xs h)
  ]

  pub All-map {μ} : (Q : A → Type μ) → ((x : A) → P x → Q x) → (xs : List A) → All P xs → All Q xs
  All-map Q f [] h = tt
  All-map Q f (x ∷ xs) (hx, h) = (f x hx, All-map Q f xs h)

module _ {ℓ κ μ} {A : Type ℓ} (P : A → Type κ) (Q : A → Type μ) where
  pub All-zip : (xs : List A) → All P xs → All Q xs → All (λ x. P x × Q x) xs
  All-zip [] h k = tt
  All-zip (x ∷ xs) (hx, h) (kx, k) = ((hx, kx), All-zip xs h k)
