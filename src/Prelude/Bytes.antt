-- ===== src/Prelude/Bytes.antt =====
-- Runs of consecutive byte addresses, the common abstract view of buffers.
use nvme_ioctl.Prelude.Lists.{length, drop}
use Prim.Native.Nat.{ℕ, zero, suc, ◌+◌, ◌-◌, min}
use mathlib.Core.Path.{◌≡◌, refl, ap, ap₂, ◌∙◌}
use mathlib.Core.List.{List, [], ◌∷◌, ◌++◌}
use native.Mathlib.Omega.{arith}

-- The addresses a, a + 1, … of n bytes.
abbrev pub run : ℕ → ℕ → List ℕ
run a zero = []
run a (suc n) = a ∷ run (suc a) n

pub length-run : (a n : ℕ) → length (run a n) ≡ n
length-run a zero = refl
length-run a (suc n) = ap suc (length-run (suc a) n)

-- Two adjoining runs make one. The joint is given by an equation.
pub run-append : (a b m n : ℕ) → a + m ≡ b → run a m ++ run b n ≡ run a (m + n)
run-append a b zero n h =
    ap₂ (λ x y. run x y) (let e : b ≡ a = omega arith in e) (let e : n ≡ 0 + n = omega arith in e)
run-append a b (suc m) n h =
    ap (λ l. a ∷ l) (run-append (suc a) b m n (omega arith))
    ∙ ap (λ k. run a k) (let e : suc (m + n) ≡ suc m + n = omega arith in e)

pub run-eq : {a b m n : ℕ} → a ≡ b → m ≡ n → run a m ≡ run b n
run-eq p q = ap₂ (λ x y. run x y) p q

pub drop-run : (n a b c d : ℕ) → b ≡ a + min n c → d ≡ c - n → drop n (run a c) ≡ run b d
drop-run zero a b c d e f = run-eq (omega arith) (omega arith)
drop-run (suc n) a b zero zero e f = refl
drop-run (suc n) a b zero (suc d) e f = absurd (omega arith)
drop-run (suc n) a b (suc c) d e f = drop-run n (suc a) b c d (omega arith) (omega arith)
