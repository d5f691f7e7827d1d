-- ===== src/Uio/Copy/Bytes.antt =====
-- kernel_modification/iov_iter.c: the steps of the copies.
use nvme_ioctl.Prelude.{
  ℕ, ◌+◌, ◌-◌, ◌≡◌, refl, sym, ap, ◌∙◌, ◌≤◌, length-append, Bool, true, false, List, [], ◌∷◌, ◌++◌,
  arith, length, Bool-cases, inl, inr,
}
use nvme_ioctl.Prelude.Bytes.{run, run-append, run-eq, length-run}
use nvme_ioctl.Uio.Copy.{
  Mem, UserAccess, copy_bytes, clear_bytes, copyout, copyin, to_step, from_step, zero_step,
}
use nvme_ioctl.Uio.Copy.Walk.{Acts}

-- What the architecture says of its copies: they copy the bytes from the first on, and return how
-- many are left.
pub record Copies (u : UserAccess) : Type 0 where
  pub raw_le : (to from n : ℕ) (m : Mem) → (u.raw_copy to from n m).0 ≤ n
  pub raw_bytes :
      (to from n : ℕ) (m : Mem)
      → let left = (u.raw_copy to from n m).0 in
        (u.raw_copy to from n m).1 ≡ copy_bytes (run to (n - left)) (run from (n - left)) m
  pub clear_le : (a n : ℕ) (m : Mem) → (u.clear_user a n m).0 ≤ n
  pub clear_lem :
      (a n : ℕ) (m : Mem)
      → (u.clear_user a n m).1 ≡ clear_bytes (run a (n - (u.clear_user a n m).0)) m

pub copy_bytes-append :
    (xs ys cs bs : List ℕ) (m : Mem)
    → length xs ≡ length cs
    → copy_bytes (xs ++ ys) (cs ++ bs) m ≡ copy_bytes ys bs (copy_bytes xs cs m)
unfolding copy_bytes
copy_bytes-append [] ys [] bs m e = refl
copy_bytes-append [] ys (a ∷ cs) bs m e = absurd (omega arith)
copy_bytes-append (x ∷ xs) ys [] bs m e = absurd (omega arith)
copy_bytes-append (x ∷ xs) ys (a ∷ cs) bs m e = copy_bytes-append xs ys cs bs _ (omega arith)

clear_bytes-append :
    (xs ys : List ℕ) (m : Mem) → clear_bytes (xs ++ ys) m ≡ clear_bytes ys (clear_bytes xs m)
unfolding clear_bytes
clear_bytes-append [] ys m = refl
clear_bytes-append (x ∷ xs) ys m = clear_bytes-append xs ys _

-- What the copies do to the addresses of an iterator, `off` bytes behind `addr`.
abbrev pub to_act : ℕ → List ℕ → ℕ → Mem → Mem
to_act addr xs off m = copy_bytes xs (run (addr + off) (length xs)) m

abbrev pub from_act : ℕ → List ℕ → ℕ → Mem → Mem
from_act addr xs off m = copy_bytes (run (addr + off) (length xs)) xs m

abbrev pub zero_act : List ℕ → ℕ → Mem → Mem
zero_act xs off m = clear_bytes xs m

run_split :
    (addr off : ℕ) (xs ys : List ℕ)
    → run (addr + off) (length (xs ++ ys))
      ≡ run (addr + off) (length xs) ++ run (addr + (off + length xs)) (length ys)
run_split addr off xs ys =
    run-eq refl (length-append xs ys)
    ∙ sym (run-append (addr + off) (addr + (off + length xs)) (length xs) (length ys) (omega arith))

pub add_nothing : (n : ℕ) → n + 0 ≡ n
add_nothing n = omega arith

none_over : (n : ℕ) → n ≡ n - 0
none_over n = omega arith

nothing_copied : (base n : ℕ) → run base (n - n) ≡ []
nothing_copied base n = ap (run base) (let e : n - n ≡ 0 = omega arith in e)

module _ (u : UserAccess) (copies : Copies u) (addr : ℕ) where
  open copies use {raw_le, raw_bytes, clear_le, clear_lem}

  to_step-le :
      (user : Bool) (base off len : ℕ) (m : Mem) → (to_step u user addr base off len m).0 ≤ len
  unfolding to_step copyout
  to_step-le true base off len m = ground (arith, raw_le base (addr + off) len m)
  to_step-le false base off len m = omega arith

  from_step-le :
      (user : Bool) (base off len : ℕ) (m : Mem) → (from_step u user addr base off len m).0 ≤ len
  unfolding from_step copyin
  from_step-le true base off len m = ground (arith, raw_le (addr + off) base len m)
  from_step-le false base off len m = omega arith

  to_step_bytes :
      (user : Bool) (base off len : ℕ) (m : Mem)
      → let left = (to_step u user addr base off len m).0 in
        (to_step u user addr base off len m).1
        ≡ copy_bytes (run base (len - left)) (run (addr + off) (len - left)) m
  unfolding to_step copyout
  to_step_bytes true base off len m = elim (Bool-cases (u.fails base len)) [
    | inl failed ↦ rw (failed, nothing_copied base len, copy_bytes) refl
    | inr fine ↦ elim (Bool-cases (u.access_ok base len)) [
      | inl good ↦ rw (fine, good) (raw_bytes base (addr + off) len m)
      | inr bad ↦ rw (fine, bad, nothing_copied base len, copy_bytes) refl
    ]
  ]
  to_step_bytes false base off len m =
      ap (λ k. copy_bytes (run base k) (run (addr + off) k) m) (none_over len)

  from_step_bytes :
      (user : Bool) (base off len : ℕ) (m : Mem)
      → let left = (from_step u user addr base off len m).0 in
        (from_step u user addr base off len m).1
        ≡ copy_bytes (run (addr + off) (len - left)) (run base (len - left)) m
  unfolding from_step copyin
  from_step_bytes true base off len m = elim (Bool-cases (u.fails base len)) [
    | inl failed ↦ rw (failed, nothing_copied (addr + off) len, copy_bytes) refl
    | inr fine ↦ elim (Bool-cases (u.access_ok base len)) [
      | inl good ↦ rw (fine, good) (raw_bytes (addr + off) base len m)
      | inr bad ↦ rw (fine, bad, nothing_copied (addr + off) len, copy_bytes) refl
    ]
  ]
  from_step_bytes false base off len m =
      ap (λ k. copy_bytes (run (addr + off) k) (run base k) m) (none_over len)

  pub to-Acts : (user : Bool) → Acts (to_act addr) (to_step u user addr)
  unfolding copy_bytes
  to-Acts user = record {
    act_nil = λ off m. refl;
    act_append = λ xs ys off m.
        ap (λ l. copy_bytes (xs ++ ys) l m) (run_split addr off xs ys)
        ∙ copy_bytes-append xs ys _ _ m (sym (length-run (addr + off) (length xs)));
    left_le = to_step-le user;
    acts = λ base off len m.
        to_step_bytes user base off len m
        ∙ ap
            (λ k.
              copy_bytes (run base (len - (to_step u user addr base off len m).0))
                (run (addr + off) k) m)
            (sym (length-run base _));
  }

  pub from-Acts : (user : Bool) → Acts (from_act addr) (from_step u user addr)
  unfolding copy_bytes
  from-Acts user = record {
    act_nil = λ off m. refl;
    act_append = λ xs ys off m.
        ap (λ l. copy_bytes l (xs ++ ys) m) (run_split addr off xs ys)
        ∙ copy_bytes-append _ _ xs ys m (length-run (addr + off) (length xs));
    left_le = from_step-le user;
    acts = λ base off len m.
        from_step_bytes user base off len m
        ∙ ap
            (λ k.
              copy_bytes (run (addr + off) k)
                (run base (len - (from_step u user addr base off len m).0)) m)
            (sym (length-run base _));
  }

  pub zero-Acts : (user : Bool) → Acts zero_act (zero_step u user)
  unfolding clear_bytes zero_step
  zero-Acts true = record {
    act_nil = λ off m. refl;
    act_append = λ xs ys off m. clear_bytes-append xs ys m;
    left_le = λ base off len m. clear_le base len m;
    acts = λ base off len m. clear_lem base len m;
  }
  zero-Acts false = record {
    act_nil = λ off m. refl;
    act_append = λ xs ys off m. clear_bytes-append xs ys m;
    left_le = λ base off len m. omega arith;
    acts = λ base off len m. ap (λ k. clear_bytes (run base k) m) (none_over len);
  }
