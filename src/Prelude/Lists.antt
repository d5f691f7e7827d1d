-- ===== src/Prelude/Lists.antt =====
-- Lists measured and indexed by native numbers, under the library's names.
use Prim.Native.Nat.{ℕ, zero, suc, ◌+◌, ◌-◌, min}
use mathlib.Core.Path.{◌≡◌, refl, ap}
use mathlib.Core.Logic.{◌⊎◌, inl, inr}
use mathlib.Core.List.{List, [], ◌∷◌, ◌++◌}
use native.Mathlib.Omega.{arith}

module _ {ℓ} {A : Type ℓ} where
  abbrev pub length : List A → ℕ
  length [] = 0
  length (x ∷ xs) = suc (length xs)

  abbrev pub take : ℕ → List A → List A
  take zero xs = []
  take (suc n) [] = []
  take (suc n) (x ∷ xs) = x ∷ take n xs

  abbrev pub drop : ℕ → List A → List A
  drop zero xs = xs
  drop (suc n) [] = []
  drop (suc n) (x ∷ xs) = drop n xs

  abbrev pub replicate : ℕ → A → List A
  replicate zero a = []
  replicate (suc n) a = a ∷ replicate n a

  abbrev pub sum_by : (A → ℕ) → List A → ℕ
  sum_by f [] = 0
  sum_by f (x ∷ xs) = f x + sum_by f xs

  abbrev pub All {κ} : (A → Type κ) → List A → Type κ
  All P [] = Unit
  All P (x ∷ xs) = P x × All P xs

  pub length-append : (xs ys : List A) → length (xs ++ ys) ≡ length xs + length ys
  length-append [] ys = omega arith
  length-append (x ∷ xs) ys = omega (arith, length-append xs ys)

  pub length-take : (n : ℕ) (xs : List A) → length (take n xs) ≡ min n (length xs)
  length-take zero xs = omega arith
  length-take (suc n) [] = omega arith
  length-take (suc n) (x ∷ xs) = omega (arith, length-take n xs)

  pub length-drop : (n : ℕ) (xs : List A) → length (drop n xs) ≡ length xs - n
  length-drop zero xs = omega arith
  length-drop (suc n) [] = omega arith
  length-drop (suc n) (x ∷ xs) = omega (arith, length-drop n xs)

module _ {ℓ} {A : Type ℓ} where
  pub List-cases : (l : List A) → (l ≡ []) ⊎ ((x : A) × (r : List A) × (l ≡ x ∷ r))
  List-cases [] = inl refl
  List-cases (x ∷ r) = inr (x, r, refl)

  pub drop-append : (xs ys : List A) (o n : ℕ) → n ≡ length xs + o → drop n (xs ++ ys) ≡ drop o ys
  drop-append [] ys o n e = ap (λ k. drop k ys) (let e' : n ≡ o = omega arith in e')
  drop-append (x ∷ xs) ys o zero e = absurd (omega arith)
  drop-append (x ∷ xs) ys o (suc n) e = drop-append xs ys o n (omega arith)

  pub drop-nil : (n : ℕ) → drop {A = A} n [] ≡ []
  drop-nil zero = refl
  drop-nil (suc n) = refl

  pub drop-drop : (m n k : ℕ) (l : List A) → k ≡ m + n → drop n (drop m l) ≡ drop k l
  drop-drop zero n k l e = ap (λ j. drop j l) (let e' : n ≡ k = omega arith in e')
  drop-drop (suc m) n zero l e = absurd (omega arith)
  drop-drop (suc m) n (suc k) [] e = drop-nil n
  drop-drop (suc m) n (suc k) (x ∷ l) e = drop-drop m n k l (omega arith)

  pub drop-take : (n c d : ℕ) (l : List A) → d ≡ c - n → drop n (take c l) ≡ take d (drop n l)
  drop-take zero c d l e = ap (λ j. take j l) (let e' : c ≡ d = omega arith in e')
  drop-take (suc n) zero zero l e = refl
  drop-take (suc n) zero (suc d) l e = absurd (omega arith)
  drop-take (suc n) (suc c) zero [] e = refl
  drop-take (suc n) (suc c) (suc d) [] e = refl
  drop-take (suc n) (suc c) d (x ∷ l) e = drop-take n c d l (omega arith)

  pub drop-replicate : (n c d : ℕ) (a : A) → d ≡ c - n → drop n (replicate c a) ≡ replicate d a
  drop-replicate zero c d a e = ap (λ k. replicate k a) (let e' : c ≡ d = omega arith in e')
  drop-replicate (suc n) zero zero a e = refl
  drop-replicate (suc n) zero (suc d) a e = absurd (omega arith)
  drop-replicate (suc n) (suc c) d a e = drop-replicate n c d a (omega arith)
