-- ===== src/Bench/Split.antt =====
-- my_version/ioctl_thread/ioctl_thread_pool.cpp: the commands that nvme_io() cuts a buffer into.
use nvme_ioctl.Prelude.{
  ℕ, zero, suc, ◌+◌, ◌-◌, ◌*◌, ◌/◌, ◌%◌, ◌≡◌, refl, ◌∙◌, ap, ap₂, ◌≤◌, List, [], ◌∷◌, u64, ltb,
  Bool-cases, arith, min, ◌⊎◌, inl, inr,
}
use nvme_ioctl.Ioctl.{UserIo}
use nvme_ioctl.Transfer.{Opcode, get_opcode, u16}
use nvme_ioctl.Bench.{div_round_up, get_operate_block, user_io, split, thread_nums, commands}

user_io_eq :
    (opcode : ℕ) {n n' a a' l l' : ℕ}
    → n ≡ n'
    → a ≡ a'
    → l ≡ l'
    → user_io opcode n a l ≡ user_io opcode n' a' l'
unfolding user_io
user_io_eq opcode e f g =
    ap₂ (λ x (y : ℕ × ℕ). user_io opcode x y.0 y.1) e (ap₂ (λ y z. (y, z)) f g)

-- The command of a place, by its number alone.
module _ (opcode buffer blocks : ℕ) where
  unfoldable pub command_at : ℕ → UserIo
  command_at i = user_io opcode (min 896 (blocks - i * 896) - 1) (buffer + i * 458752) (i * 896)

  unfoldable pub commands_from : ℕ → ℕ → List UserIo
  commands_from i zero = []
  commands_from i (suc n) = command_at i ∷ commands_from (i + 1) n

  nonempty : {r : ℕ} {P : Type 0} → (suc r ≡ 0) ⊎ P → P
  nonempty (inl e) = absurd (omega arith)
  nonempty (inr p) = p

  -- Behind a command of `k` blocks there is nothing more, or it was a full one.
  next :
      (i r k offset lba : ℕ)
      → k ≡ min 896 (suc r)
      → offset ≡ i * 458752
      → lba ≡ i * 896
      → (suc r - k ≡ 0) ⊎ ((offset + k * 512 ≡ (i + 1) * 458752) × (lba + k ≡ (i + 1) * 896))
  next i r k offset lba size e f = elim (Bool-cases (ltb r 896)) [
    | inl h ↦ inl (ground arith)
    | inr h ↦ inr (ground arith)
  ]

  split-commands_from :
      (fuel remain i offset lba n : ℕ)
      → remain ≤ fuel
      → remain ≡ blocks - i * 896
      → (remain ≡ 0) ⊎ ((offset ≡ i * 458752) × (lba ≡ i * 896))
      → n ≡ (remain + 895) / 896
      → split fuel opcode buffer remain offset lba ≡ commands_from i n
  unfolding split commands_from command_at get_operate_block
  split-commands_from zero zero i offset lba zero f e at c = refl
  split-commands_from zero zero i offset lba (suc n) f e at c = absurd (omega arith)
  split-commands_from zero (suc r) i offset lba n f e at c = absurd (omega arith)
  split-commands_from (suc fuel) zero i offset lba zero f e at c = refl
  split-commands_from (suc fuel) zero i offset lba (suc n) f e at c = absurd (omega arith)
  split-commands_from (suc fuel) (suc r) i offset lba zero f e at c = absurd (omega arith)
  split-commands_from (suc fuel) (suc r) i offset lba (suc n) f e at c =
      let full = nonempty at in
      let k = get_operate_block (suc r) in
      let size : k ≡ min 896 (suc r) = ground arith in
      let code : (k + u16 - 1) % u16 ≡ min 896 (blocks - i * 896) - 1 = omega (arith, size, e) in
      let place : buffer + offset ≡ buffer + i * 458752 = omega (arith, full) in
      ap₂ (λ x xs. x ∷ xs) (user_io_eq opcode code place full.1)
        (split-commands_from fuel (suc r - k) (i + 1) (offset + k * 512) (lba + k) n (omega arith)
          (omega arith) (next i r k offset lba size full.0 full.1) (omega arith))

-- nvme_io() fills as many places of its arrays as they have, and the command of a place is known
-- from its number: all but the last take 896 blocks, one after another.
pub commands-commands_from :
    (io_type : Opcode) (buffer size : ℕ)
    → size + 458752 ≤ u64
    → commands io_type buffer size
      ≡ commands_from (get_opcode io_type) buffer ((size + 511) / 512) 0 (thread_nums size)
unfolding commands thread_nums div_round_up
commands-commands_from io_type buffer size small =
    let blocks = (size + 511) / 512 in
    let n = (size + 458752 - 1) % u64 / 458752 in
    ap (λ b. split b (get_opcode io_type) buffer b 0 0)
      (let e : (size + 512 - 1) % u64 / 512 ≡ blocks = omega arith in e)
    ∙ split-commands_from (get_opcode io_type) buffer blocks blocks blocks 0 0 0 n (omega arith)
        (omega arith) (inr (omega arith)) (omega arith)
