-- ===== src/Transfer/Whole.antt =====
-- my_version/nvme_transfer/include/submit_handler.h: a whole test.
use nvme_ioctl.Prelude.{
  ℕ, ◌+◌, ◌-◌, ◌*◌, ◌/◌, ◌%◌, ◌^◌, ◌≡◌, refl, ◌∙◌, sym, ap, ◌≤◌, ◌<◌, true, false, some, List, [],
  ◌∷◌, arith, if◌then◌else◌, All, is_neg, ◌⊎◌, inl, inr, bit_and,
}
use native.Mathlib.Nat.{mod_self, div-add-mod'}
use nvme_ioctl.Prelude.Bits.{bit_and-mask}
use mathlib.Core.Option
use mathlib.Core.List.{Permᴰ}
use nvme_ioctl.Ioctl.{UserIo}
use nvme_ioctl.Transfer.{Opcode, write, read, get_aligned_size, commands}
use nvme_ioctl.Transfer.Device.{
  Machine, Device, Behaves, run_all, on_disk, in_buffer, same_bytes, submit_test, transfer,
}
use nvme_ioctl.Transfer.Order.{any, Placed, All-perm, any-perm, cut-Placed, cut_disk, cut_buffer}
use nvme_ioctl.Transfer.Runs.{writes_mem, writes_disk, reads_mem, reads_disk, same_bytes_lem}

-- The least multiple of a power of two from `size` on, where the sum fits `int`.
pub get_aligned_size-aligned :
    (k size : ℕ)
    → size + 2 ^ k - 1 < 2 ^ 31
    → get_aligned_size (2 ^ k) size ≡ some ((size + 2 ^ k - 1) / 2 ^ k * 2 ^ k)
unfolding get_aligned_size
get_aligned_size-aligned k size h =
    let p = 2 ^ k in
    let top = size + p - 1 in
    let power : bit_and p (p - 1) ≡ 0 = bit_and-mask k p ∙ mod_self p in
    let low : bit_and top (p - 1) ≡ top % p = bit_and-mask k top in
    let whole : top - top % p ≡ top / p * p = omega (arith, div-add-mod' top p) in
    ground (arith, power, low, whole, h)

module _ (d : Device) where
  -- The ioctl accepts every command.
  abbrev pub Accepts : Type 0
  Accepts = (io : UserIo) (m : Machine d.State) → is_neg (d.ioctl io m).0 ≡ false

  accepted : Accepts → (ios : List UserIo) (m : Machine d.State) → (run_all d ios m).0 ≡ true
  unfolding run_all
  accepted ok [] m = refl
  accepted ok (io ∷ ios) m = ground (arith, ok io m, accepted ok ios (d.ioctl io m).1)

  module _ (behaves : Behaves d) (ok : Accepts) (order : List UserIo → List UserIo)
      (perm : (ios : List UserIo) → Permᴰ ios (order ios)) (nb lba base : ℕ)
      (m : Machine d.State) where
    -- All the commands of one direction, in any order.
    wrote : Machine d.State
    wrote = (run_all d (order (commands write nb lba base)) m).1

    fetched : Machine d.State
    fetched = (run_all d (order (commands read nb lba base)) m).1

    placed :
        (io_type : Opcode) → All (Placed io_type lba base) (order (commands io_type nb lba base))
    unfolding commands
    placed io_type =
        All-perm (Placed io_type lba base) (perm (commands io_type nb lba base))
          (cut-Placed nb io_type lba base nb 4096 lba base (omega arith) (omega arith))

    wrote_disk : (i : ℕ) → i < nb * 512 → d.byte wrote.disk (lba * 512 + i) ≡ m.mem (base + i)
    unfolding wrote commands
    wrote_disk i p =
        let k = lba * 512 + i in
        let ios = commands write nb lba base in
        let met : any (λ io. on_disk io k) (order ios) ≡ true =
          sym (any-perm (λ io. on_disk io k) (perm ios))
          ∙ (cut_disk nb write nb 4096 lba base k (omega arith) (omega arith) (omega arith)
              ∙ ground arith) in
        writes_disk d behaves lba base (order ios) m k (placed write) (accepted ok (order ios) m)
        ∙ (ap (λ b. if b then m.mem (base + (k - lba * 512)) else d.byte m.disk k) met
            ∙ ap (λ x. m.mem (base + x)) (let e : k - lba * 512 ≡ i = omega arith in e))

    fetched_in : (i : ℕ) → i < nb * 512 → fetched.mem (base + i) ≡ d.byte m.disk (lba * 512 + i)
    unfolding fetched commands
    fetched_in i p =
        let a = base + i in
        let ios = commands read nb lba base in
        let met : any (λ io. in_buffer io a) (order ios) ≡ true =
          sym (any-perm (λ io. in_buffer io a) (perm ios))
          ∙ (cut_buffer nb read nb 4096 lba base a (omega arith) (omega arith) (omega arith)
              ∙ ground arith) in
        reads_mem d behaves lba base (order ios) m a (placed read) (accepted ok (order ios) m)
        ∙ (ap (λ b. if b then d.byte m.disk (lba * 512 + (a - base)) else m.mem a) met
            ∙ ap (λ x. d.byte m.disk (lba * 512 + x)) (let e : a - base ≡ i = omega arith in e))

    fetched_out : (a : ℕ) → (a < base) ⊎ (base + nb * 512 ≤ a) → fetched.mem a ≡ m.mem a
    unfolding fetched commands
    fetched_out a out =
        let ios = commands read nb lba base in
        let met : any (λ io. in_buffer io a) (order ios) ≡ false =
          sym (any-perm (λ io. in_buffer io a) (perm ios))
          ∙ (cut_buffer nb read nb 4096 lba base a (omega arith) (omega arith) (omega arith)
              ∙ ground arith) in
        reads_mem d behaves lba base (order ios) m a (placed read) (accepted ok (order ios) m)
        ∙ ap (λ b. if b then d.byte m.disk (lba * 512 + (a - base)) else m.mem a) met

  module _ (behaves : Behaves d) (ok : Accepts) (order_w order_r : List UserIo → List UserIo)
      (perm_w : (ios : List UserIo) → Permᴰ ios (order_w ios))
      (perm_r : (ios : List UserIo) → Permᴰ ios (order_r ios)) where
    -- The same from where the number of blocks is known.
    transfer_lem :
        (wb rb file_bytes nb lba : ℕ) (m : Machine d.State)
        → file_bytes ≤ nb * 512
        → (wb + nb * 512 ≤ rb) ⊎ (rb + nb * 512 ≤ wb)
        → (m' : Machine d.State) × ((transfer d order_w order_r wb rb file_bytes nb lba m ≡ (0, m'))
            × ((i : ℕ) → i < file_bytes → d.byte m'.disk (lba * 512 + i) ≡ m.mem (wb + i)))
    unfolding transfer wrote fetched
    transfer_lem wb rb file_bytes nb lba m fits apart =
        let m₁ = wrote behaves ok order_w perm_w nb lba wb m in
        let m₂ = fetched behaves ok order_r perm_r nb lba rb m₁ in
        let stored = λ (i : ℕ) (p : i < file_bytes).
          wrote_disk behaves ok order_w perm_w nb lba wb m i (omega arith) in
        let kept = writes_mem d behaves lba wb (order_w (commands write nb lba wb)) m in
        let same : same_bytes m₂.mem wb rb file_bytes ≡ true =
          same_bytes_lem file_bytes m₂.mem wb rb (λ i p.
            fetched_out behaves ok order_r perm_r nb lba rb m₁ (wb + i)
              (elim apart [ inl q ↦ inl (omega arith) | inr q ↦ inr (omega arith) ])
            ∙ (kept (wb + i) (placed behaves ok order_w perm_w nb lba wb m write)
                ∙ (sym (stored i p)
                    ∙ sym (fetched_in behaves ok order_r perm_r nb lba rb m₁ i (omega arith))))) in
        (
          m₂,
          (
            ground (
              arith,
              accepted ok (order_w (commands write nb lba wb)) m,
              accepted ok (order_r (commands read nb lba rb)) m₁,
              same,
            ),
            λ i p.
                reads_disk d behaves lba rb (order_r (commands read nb lba rb)) m₁ (lba * 512 + i)
                  (placed behaves ok order_r perm_r nb lba rb m₁ read)
                ∙ stored i p,
          ),
        )

    -- On a device that works and accepts every command, with buffers that do not overlap and sizes
    -- that fit `int`: in whatever orders the commands of the two directions run, submit_test()
    -- returns 0, and then the file is in the blocks from `lba` on.
    pub submit_test-succeeds :
        (wb rb file_bytes lba : ℕ) (m : Machine d.State)
        → file_bytes + 511 < 2 ^ 31
        → (wb + (file_bytes + 511) / 512 * 512 ≤ rb) ⊎ (rb + (file_bytes + 511) / 512 * 512 ≤ wb)
        → (m' : Machine d.State) × ((submit_test d order_w order_r wb rb file_bytes lba m
              ≡ some (0, m'))
            × ((i : ℕ) → i < file_bytes → d.byte m'.disk (lba * 512 + i) ≡ m.mem (wb + i)))
    unfolding submit_test
    submit_test-succeeds wb rb file_bytes lba m small apart =
        let nb = (file_bytes + 511) / 512 in
        let run = transfer_lem wb rb file_bytes nb lba m (omega arith) apart in
        (
          run.0,
          (
            ap
                  (λ aligned.
                    Option.map (λ n. transfer d order_w order_r wb rb file_bytes (n / 512) lba m)
                      aligned)
                  (get_aligned_size-aligned 9 file_bytes (omega arith))
                ∙ (ap (λ n. some (transfer d order_w order_r wb rb file_bytes n lba m))
                      (let e : (file_bytes + 2 ^ 9 - 1) / 2 ^ 9 * 2 ^ 9 / 512 ≡ nb = omega arith in
                        e)
                    ∙ ap (λ r. some r) run.1.0),
            run.1.1,
          ),
        )
