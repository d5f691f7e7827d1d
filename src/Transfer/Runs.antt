-- ===== src/Transfer/Runs.antt =====
-- my_version/nvme_transfer/include/submit_handler.h: what the commands of one direction do together.
use nvme_ioctl.Prelude.{
  ℕ, zero, suc, ◌+◌, ◌-◌, ◌*◌, ◌≡◌, refl, ◌∙◌, sym, ap, ◌≤◌, ◌<◌, Bool, true, false, not, ◌&&◌,
  ◌||◌, List, [], ◌∷◌, arith, ltb, leb, if◌then◌else◌, All, is_neg,
}
use nvme_ioctl.Ioctl.{UserIo}
use nvme_ioctl.Transfer.{write, read}
use nvme_ioctl.Transfer.Device.{Machine, Device, Behaves, run_all, on_disk, in_buffer, same_bytes}
use nvme_ioctl.Transfer.Order.{any, Placed}

both_true : (a b : Bool) → (a && b) ≡ true → (a ≡ true) × (b ≡ true)
both_true true b h = (refl, h)
both_true false b h = absurd (ground arith)

not-true : (b : Bool) → not b ≡ true → b ≡ false
not-true true h = absurd (ground arith)
not-true false h = refl

-- A value that one of the later commands sets, or else this one, or nobody.
set_by :
    (here later : Bool) (z : ℕ) {x x' y c f : ℕ}
    → f ≡ (if later then x' else c)
    → c ≡ (if here then y else z)
    → x' ≡ x
    → (here ≡ true → y ≡ x)
    → f ≡ (if here || later then x else z)
set_by true true z e e' same h = e ∙ same
set_by false true z e e' same h = e ∙ same
set_by true false z e e' same h = e ∙ (e' ∙ h refl)
set_by false false z e e' same h = e ∙ e'

-- The distance into a buffer goes with the distance into the blocks.
same_place :
    (lba base slba n k : ℕ)
    → lba ≤ slba
    → (leb (slba * 512) k && ltb k (slba * 512 + n)) ≡ true
    → base + (slba - lba) * 512 + (k - slba * 512) ≡ base + (k - lba * 512)
same_place lba base slba n k h t = ground arith

same_block :
    (lba base slba n a : ℕ)
    → lba ≤ slba
    → (leb (base + (slba - lba) * 512) a && ltb a (base + (slba - lba) * 512 + n)) ≡ true
    → slba * 512 + (a - (base + (slba - lba) * 512)) ≡ lba * 512 + (a - base)
same_block lba base slba n a h t = ground arith

module _ (d : Device) (behaves : Behaves d) (lba base : ℕ) where
  pub writes_mem :
      (ios : List UserIo) (m : Machine d.State) (a : ℕ)
      → All (Placed write lba base) ios
      → (run_all d ios m).1.mem a ≡ m.mem a
  unfolding run_all
  writes_mem [] m a p = refl
  writes_mem (io ∷ ios) m a p =
      writes_mem ios (d.ioctl io m).1 a p.1 ∙ behaves.write_mem io m a p.0.opcode_lem

  pub reads_disk :
      (ios : List UserIo) (m : Machine d.State) (k : ℕ)
      → All (Placed read lba base) ios
      → d.byte (run_all d ios m).1.disk k ≡ d.byte m.disk k
  unfolding run_all
  reads_disk [] m k p = refl
  reads_disk (io ∷ ios) m k p =
      reads_disk ios (d.ioctl io m).1 k p.1 ∙ behaves.read_disk io m k p.0.opcode_lem

  pub writes_disk :
      (ios : List UserIo) (m : Machine d.State) (k : ℕ)
      → All (Placed write lba base) ios
      → (run_all d ios m).0 ≡ true
      → d.byte (run_all d ios m).1.disk k
        ≡ (if any (λ io. on_disk io k) ios then m.mem (base + (k - lba * 512)) else d.byte m.disk k)
  unfolding run_all
  writes_disk [] m k p ok = refl
  writes_disk (io ∷ ios) m k p ok =
      let m' = (d.ioctl io m).1 in
      let fine = both_true (not (is_neg (d.ioctl io m).0)) (run_all d ios m').0 ok in
      set_by (on_disk io k) (any (λ io'. on_disk io' k) ios) (d.byte m.disk k)
        (writes_disk ios m' k p.1 fine.1)
        (behaves.write_disk io m k p.0.opcode_lem (not-true (is_neg (d.ioctl io m).0) fine.0))
        (behaves.write_mem io m (base + (k - lba * 512)) p.0.opcode_lem)
        (λ t. ap m.mem (
          ap (λ x. x + (k - io.slba * 512)) p.0.addr_lem
          ∙ same_place lba base io.slba ((io.nblocks + 1) * 512) k p.0.from_start t))

  pub reads_mem :
      (ios : List UserIo) (m : Machine d.State) (a : ℕ)
      → All (Placed read lba base) ios
      → (run_all d ios m).0 ≡ true
      → (run_all d ios m).1.mem a ≡ (
          if any (λ io. in_buffer io a) ios
          then d.byte m.disk (lba * 512 + (a - base))
          else m.mem a)
  unfolding run_all
  reads_mem [] m a p ok = refl
  reads_mem (io ∷ ios) m a p ok =
      let m' = (d.ioctl io m).1 in
      let fine = both_true (not (is_neg (d.ioctl io m).0)) (run_all d ios m').0 ok in
      let at = p.0.addr_lem in
      let n = (io.nblocks + 1) * 512 in
      set_by (in_buffer io a) (any (λ io'. in_buffer io' a) ios) (m.mem a)
        (reads_mem ios m' a p.1 fine.1)
        (behaves.read_mem io m a p.0.opcode_lem (not-true (is_neg (d.ioctl io m).0) fine.0))
        (behaves.read_disk io m (lba * 512 + (a - base)) p.0.opcode_lem)
        (λ t. ap (d.byte m.disk) (
          ap (λ x. io.slba * 512 + (a - x)) at
          ∙ same_block lba base io.slba n a p.0.from_start
              (sym (ap (λ x. leb x a && ltb a (x + n)) at) ∙ t)))

shift : (mem : ℕ → ℕ) (a b a' b' : ℕ) → a ≡ a' → b ≡ b' → mem a ≡ mem b → mem a' ≡ mem b'
shift mem a b a' b' e e' h = sym (ap mem e) ∙ (h ∙ ap mem e')

add_zero : (a : ℕ) → a + 0 ≡ a
add_zero a = omega arith

pub same_bytes_lem :
    (n : ℕ) (mem : ℕ → ℕ) (a b : ℕ)
    → ((i : ℕ) → i < n → mem (a + i) ≡ mem (b + i))
    → same_bytes mem a b n ≡ true
unfolding same_bytes
same_bytes_lem zero mem a b h = refl
same_bytes_lem (suc n) mem a b h =
    let first : mem (a + 0) ≡ mem (b + 0) = h 0 (omega arith) in
    let rest = same_bytes_lem n mem (a + 1) (b + 1) (λ i p.
      shift mem (a + (1 + i)) (b + (1 + i)) (a + 1 + i) (b + 1 + i) (omega arith) (omega arith)
        (h (1 + i) (omega arith))) in
    ground (arith, first, rest, add_zero a, add_zero b)
