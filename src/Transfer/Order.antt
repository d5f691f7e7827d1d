-- ===== src/Transfer/Order.antt =====
-- my_version/nvme_transfer/include/submit_handler.h: the commands of one direction, in
-- any order.
use nvme_ioctl.Prelude.{
  ℕ, zero, suc, ◌+◌, ◌-◌, ◌*◌, ◌%◌, ◌^◌, ◌≡◌, refl, ◌∙◌, ap, ap₂, ◌≤◌, ◌<◌, Bool, true, false, ◌&&◌,
  ◌||◌, List, [], ◌∷◌, arith, ltb, leb, if◌then◌else◌, All,
}
use mathlib.Core.Path.{subst}
use mathlib.Core.List.{Permᴰ}
use nvme_ioctl.Ioctl.{UserIo}
use nvme_ioctl.Transfer.{nvme_sector_size, Opcode, submit_io, cut, get_opcode}
use nvme_ioctl.Transfer.Device.{on_disk, in_buffer}

-- Whether one of the commands meets a test.
abbrev pub any : (UserIo → Bool) → List UserIo → Bool
any test [] = false
any test (io ∷ ios) = test io || any test ios

-- A command of a direction whose first block is `lba` and whose buffer starts at `base`: the
-- address goes with the block.
pub record Placed (io_type : Opcode) (lba base : ℕ) (io : UserIo) : Type 0 where
  pub opcode_lem : io.opcode ≡ get_opcode io_type
  pub from_start : lba ≤ io.slba
  pub addr_lem : io.addr ≡ base + (io.slba - lba) * nvme_sector_size

module _ (P : UserIo → Type 0) where
  pub All-perm : {xs ys : List UserIo} → Permᴰ xs ys → All P xs → All P ys
  All-perm Permᴰ.nil h = h
  All-perm (Permᴰ.cons e p) h = (subst P e h.0, All-perm p h.1)
  All-perm (Permᴰ.swap e f) h = (subst P f h.1.0, (subst P e h.0, h.1.1))
  All-perm (Permᴰ.trans p q) h = All-perm q (All-perm p h)

or_swap : (a b c : Bool) → (a || (b || c)) ≡ (b || (a || c))
or_swap true true c = refl
or_swap true false c = refl
or_swap false true c = refl
or_swap false false c = refl

module _ (test : UserIo → Bool) where
  pub any-perm : {xs ys : List UserIo} → Permᴰ xs ys → any test xs ≡ any test ys
  any-perm Permᴰ.nil = refl
  any-perm (Permᴰ.cons e p) = ap₂ (λ x b. test x || b) e (any-perm p)
  any-perm (Permᴰ.swap {a} {b} {a'} {b'} {l} e f) =
      or_swap (test a) (test b) (any test l) ∙ ap₂ (λ x y. test x || (test y || any test l)) f e
  any-perm (Permᴰ.trans p q) = any-perm p ∙ any-perm q

-- The blocks of a command come back from its 16-bit field.
pub blocks_of : (n : ℕ) → 0 < n → n ≤ 65536 → (n % 2 ^ 16 + 2 ^ 16 - 1) % 2 ^ 16 + 1 ≡ n
blocks_of n p q = omega arith

-- The blocks of the next command.
module _ (remain each : ℕ) where
  unfoldable pub least : ℕ
  least = if ltb remain each then remain else each

  pub least_lem :
      0 < remain
      → 0 < each
      → each ≤ 65536
      → (0 < least) × ((least ≤ remain) × ((least ≤ each) × (least ≤ 65536)))
  unfolding least
  least_lem p q r = ground arith

pub cut-Placed :
    (fuel : ℕ) (io_type : Opcode) (lba base remain each at buffer : ℕ)
    → lba ≤ at
    → buffer ≡ base + (at - lba) * nvme_sector_size
    → All (Placed io_type lba base) (cut fuel io_type remain each at buffer)
unfolding cut submit_io least
cut-Placed zero io_type lba base remain each at buffer h e = tt
cut-Placed (suc fuel) io_type lba base zero each at buffer h e = tt
cut-Placed (suc fuel) io_type lba base (suc r) each at buffer h e =
    let n = least (suc r) each in
    (
      record { opcode_lem = refl; from_start = h; addr_lem = e },
      cut-Placed fuel io_type lba base (suc r - n) n (at + n) (buffer + n * nvme_sector_size)
          (omega arith) (omega arith),
    )

-- Two neighbouring ranges are one.
ranges_join :
    (a n m f k : ℕ)
    → f + 1 ≡ n
    → n ≤ m
    → (leb a k && ltb k (a + (f + 1) * 512)
        || (leb (a + n * 512) k && ltb k (a + n * 512 + (m - n) * 512)))
      ≡ (leb a k && ltb k (a + m * 512))
ranges_join a n m f k e h = ground arith

blocks_join :
    (at n m f k : ℕ)
    → f + 1 ≡ n
    → n ≤ m
    → (leb (at * 512) k && ltb k (at * 512 + (f + 1) * 512)
        || (leb ((at + n) * 512) k && ltb k ((at + n) * 512 + (m - n) * 512)))
      ≡ (leb (at * 512) k && ltb k (at * 512 + m * 512))
blocks_join at n m f k e h =
    let start : (at + n) * 512 ≡ at * 512 + n * 512 = omega arith in
    ap
      (λ x.
        leb (at * 512) k && ltb k (at * 512 + (f + 1) * 512)
        || (leb x k && ltb k (x + (m - n) * 512)))
      start
    ∙ ranges_join (at * 512) n m f k e h

range_empty : (a k : ℕ) → false ≡ (leb a k && ltb k (a + 0 * 512))
range_empty a k = ground arith

-- The bytes that the commands reach in their buffers, and on the device.
pub cut_buffer :
    (fuel : ℕ) (io_type : Opcode) (remain each at buffer k : ℕ)
    → 0 < each
    → each ≤ 65536
    → remain ≤ fuel
    → any (λ io. in_buffer io k) (cut fuel io_type remain each at buffer)
      ≡ (leb buffer k && ltb k (buffer + remain * nvme_sector_size))
unfolding cut submit_io least
cut_buffer zero io_type zero each at buffer k p q f = range_empty buffer k
cut_buffer zero io_type (suc r) each at buffer k p q f = absurd (omega arith)
cut_buffer (suc fuel) io_type zero each at buffer k p q f = range_empty buffer k
cut_buffer (suc fuel) io_type (suc r) each at buffer k p q f =
    let n = least (suc r) each in
    let b = least_lem (suc r) each (omega arith) p q in
    ap (λ rest. in_buffer (submit_io buffer io_type n at) k || rest)
      (cut_buffer fuel io_type (suc r - n) n (at + n) (buffer + n * 512) k b.0 b.1.1.1
        (omega arith))
    ∙ ranges_join buffer n (suc r) ((n % 2 ^ 16 + 2 ^ 16 - 1) % 2 ^ 16) k (blocks_of n b.0 b.1.1.1)
        b.1.0

pub cut_disk :
    (fuel : ℕ) (io_type : Opcode) (remain each at buffer k : ℕ)
    → 0 < each
    → each ≤ 65536
    → remain ≤ fuel
    → any (λ io. on_disk io k) (cut fuel io_type remain each at buffer)
      ≡ (leb (at * nvme_sector_size) k && ltb k (at * nvme_sector_size + remain * nvme_sector_size))
unfolding cut submit_io least
cut_disk zero io_type zero each at buffer k p q f = range_empty (at * 512) k
cut_disk zero io_type (suc r) each at buffer k p q f = absurd (omega arith)
cut_disk (suc fuel) io_type zero each at buffer k p q f = range_empty (at * 512) k
cut_disk (suc fuel) io_type (suc r) each at buffer k p q f =
    let n = least (suc r) each in
    let b = least_lem (suc r) each (omega arith) p q in
    ap (λ rest. on_disk (submit_io buffer io_type n at) k || rest)
      (cut_disk fuel io_type (suc r - n) n (at + n) (buffer + n * 512) k b.0 b.1.1.1 (omega arith))
    ∙ blocks_join at n (suc r) ((n % 2 ^ 16 + 2 ^ 16 - 1) % 2 ^ 16) k (blocks_of n b.0 b.1.1.1)
        b.1.0
