-- ===== src/Uio/Copy/Walk.antt =====
-- kernel_modification/iov_iter.c: proofs about iterate_and_advance() for any step that handles the
-- bytes it is given in order.
use nvme_ioctl.Prelude.{
  ℕ, zero, suc, ◌+◌, ◌-◌, ◌≡◌, refl, sym, ap, ap₂, ◌∙◌, ◌≤◌, ◌<◌, false, some, List, [], ◌∷◌, ◌++◌,
  arith, ◌==◌, take, drop, length, drop-append, append_assoc,
}
use nvme_ioctl.Prelude.Bytes.{run, run-append, length-run}
use nvme_ioctl.Bio.{BioVec}
use nvme_ioctl.Uio.{Iovec}
use nvme_ioctl.Uio.Stream.{flat}
use nvme_ioctl.Uio.Copy.{Walked}

-- The first bytes of a run, and of what begins with one.
pub take-run : (k a n : ℕ) → k ≤ n → take k (run a n) ≡ run a k
take-run zero a n h = refl
take-run (suc k) a zero h = absurd (omega arith)
take-run (suc k) a (suc n) h = ap (λ l. a ∷ l) (take-run k (suc a) n (omega arith))

pub take_front : (k a n : ℕ) (l : List ℕ) → k ≤ n → take k (run a n ++ l) ≡ run a k
take_front zero a n l h = refl
take_front (suc k) a zero l h = absurd (omega arith)
take_front (suc k) a (suc n) l h = ap (λ x. a ∷ x) (take_front k (suc a) n l (omega arith))

pub take_behind :
    (n a j k : ℕ) (l : List ℕ) → k ≡ n + j → take k (run a n ++ l) ≡ run a n ++ take j l
take_behind zero a j k l e = ap (λ x. take x l) (let e' : k ≡ j = omega arith in e')
take_behind (suc n) a j zero l e = absurd (omega arith)
take_behind (suc n) a j (suc k) l e = ap (λ x. a ∷ x) (take_behind n (suc a) j k l (omega arith))

pub drop_front :
    (k a n b m : ℕ) (l : List ℕ) → b ≡ a + k → n ≡ k + m → drop k (run a n ++ l) ≡ run b m ++ l
drop_front zero a n b m l e f =
    ap₂ (λ x y. run x y ++ l) (let e' : a ≡ b = omega arith in e')
      (let f' : n ≡ m = omega arith in f')
drop_front (suc k) a zero b m l e f = absurd (omega arith)
drop_front (suc k) a (suc n) b m l e f = drop_front k (suc a) n b m l (omega arith) (omega arith)

abbrev pub base_of : Iovec → ℕ
base_of v = v.base

abbrev pub len_of : Iovec → ℕ
len_of v = v.len

abbrev pub bv_len : BioVec → ℕ
bv_len v = v.len

-- An offset lies in the segment that it is an offset in.
abbrev pub InFirst : {A : Type 0} → (A → ℕ) → List A → ℕ → Type 0
InFirst len [] skip = Unit
InFirst len (v ∷ r) skip = skip ≤ len v

pub InFirst-zero : {A : Type 0} (len : A → ℕ) (l : List A) → InFirst len l 0
InFirst-zero len [] = tt
InFirst-zero len (v ∷ r) = omega arith

pub split_run :
    (d p n m : ℕ) (l : List ℕ) → n ≡ d + m → run p n ++ l ≡ run p d ++ (run (p + d) m ++ l)
split_run d p n m l e =
    ap (λ k. run p k ++ l) e
    ∙ ap (λ x. x ++ l) (sym (run-append p (p + d) d m refl))
    ∙ append_assoc (run p d) (run (p + d) m) l

pub not_zero : (n : ℕ) → 0 < n → (n == 0) ≡ false
not_zero n h = ground arith

-- A step handles bytes in order: `act` says what happens to some addresses when `off` bytes have
-- been handled before, and `step` leaves some of them over.
pub record Acts {S : Type 0} (act : List ℕ → ℕ → S → S) (step : ℕ → ℕ → ℕ → S → ℕ × S)
    : Type 0 where
  pub act_nil : (off : ℕ) (s : S) → act [] off s ≡ s
  pub act_append :
      (xs ys : List ℕ) (off : ℕ) (s : S)
      → act (xs ++ ys) off s ≡ act ys (off + length xs) (act xs off s)
  pub left_le : (base off len : ℕ) (s : S) → (step base off len s).0 ≤ len
  pub acts :
      (base off len : ℕ) (s : S)
      → (step base off len s).1 ≡ act (run base (len - (step base off len s).0)) off s

module _ {S : Type 0} (act : List ℕ → ℕ → S → S) (step : ℕ → ℕ → ℕ → S → ℕ × S)
    (law : Acts act step) where
  open law use {act_nil, act_append, left_le, acts}

  -- What a loop over the bytes `ahead` has done, from `off` on: it has handled the first `k` of them
  -- and stands before the others; all `n` of them if no step leaves bytes over.
  pub record Passed {A : Type 0} (start len : A → ℕ) (ahead : List ℕ) (n off : ℕ) (s : S)
      (w : Walked A S) : Type 0 where
    pub k : ℕ
    pub b : List A
    pub a : List A
    pub skip : ℕ
    pub s' : S
    pub result : w ≡ some (b, a, off + k, skip, s')
    pub within : k ≤ n
    pub handled : s' ≡ act (take k ahead) off s
    pub remain : drop skip (flat start len a) ≡ drop k ahead
    pub full : ((b o l : ℕ) (t : S) → (step b o l t).0 ≡ 0) → k ≡ n

  module _ {A : Type 0} (start len : A → ℕ) where
    -- A loop that ends here, for want of bytes or because a step has left some over.
    pub halted :
        (ahead : List ℕ) (n off : ℕ) (s : S) (w : Walked A S) (b a : List A) (skip : ℕ)
        → w ≡ some (b, a, off, skip, s)
        → drop skip (flat start len a) ≡ ahead
        → (((b o l : ℕ) (t : S) → (step b o l t).0 ≡ 0) → 0 ≡ n)
        → Passed start len ahead n off s w
    halted ahead n off s w b a skip e d f = record {
      k = 0;
      b = b;
      a = a;
      skip = skip;
      s' = s;
      result = e ∙ ap (λ o. some (b, a, o, skip, s)) (let z : off ≡ off + 0 = omega arith in z);
      within = omega arith;
      handled = sym (act_nil off s);
      remain = d;
      full = f;
    }

    -- A round that has handled `d` bytes, and what the loop does from there.
    pub went_on :
        (ahead ahead' : List ℕ) (p d n n' off off' : ℕ) (s s₁ : S) (w : Walked A S)
        → ahead ≡ run p d ++ ahead'
        → n ≡ d + n'
        → off' ≡ off + d
        → s₁ ≡ act (run p d) off s
        → Passed start len ahead' n' off' s₁ w
        → Passed start len ahead n off s w
    went_on ahead ahead' p d n n' off off' s s₁ w cut sum place h r = record {
      k = d + r.k;
      b = r.b;
      a = r.a;
      skip = r.skip;
      s' = r.s';
      result =
          r.result
          ∙ ap (λ o. some (r.b, r.a, o, r.skip, r.s'))
              (let z : off' + r.k ≡ off + (d + r.k) = omega (arith, place) in z);
      within = omega (arith, r.within, sum);
      handled =
          r.handled
          ∙ ap₂ (λ o t. act (take r.k ahead') o t)
              (let z : off' ≡ off + length (run p d) = omega (arith, place, length-run p d) in z) h
          ∙ sym (act_append (run p d) (take r.k ahead') off s)
          ∙ ap (λ l. act l off s)
              (sym (take_behind d p r.k (d + r.k) ahead' refl) ∙ ap (take (d + r.k)) (sym cut));
      remain =
          r.remain
          ∙ sym (drop-append (run p d) ahead' r.k (d + r.k) (omega (arith, length-run p d)))
          ∙ ap (drop (d + r.k)) (sym cut);
      full = λ all. let z : r.k ≡ n' = r.full all in omega (arith, z, sum);
    }
