-- ===== src/Phison/Crc.antt =====
-- phison_version/nvme_transfer/crc32.h and genCRCfromData() of layer_manager.cpp: the checksum.
use nvme_ioctl.Prelude.{
  ℕ, zero, suc, ◌-◌, ◌/◌, ◌≡◌, refl, sym, ◌∙◌, ap, List, [], ◌∷◌, ◌++◌, take, u32, bit_and, ◌==◌,
  if◌then◌else◌,
}
use Prim.Native.Nat.{bit_xor}
use nvme_ioctl.Prelude.Bits.{bit_xor-cancel}

abbrev pub polynomial : ℕ
polynomial = 3988292384

-- One round of the inner loop of generate_table(), and `n` of them.
unfoldable pub round : ℕ → ℕ
round c = if bit_and c 1 == 0 then c / 2 else bit_xor polynomial (c / 2)

unfoldable pub rounds : ℕ → ℕ → ℕ
rounds zero c = c
rounds (suc n) c = rounds n (round c)

-- The table that generate_table() fills: an array is a function.
unfoldable pub generate_table : ℕ → ℕ
generate_table i = rounds 8 i

abbrev pub ones : ℕ
ones = u32 - 1

-- The loop of update().
unfoldable pub update_loop : (ℕ → ℕ) → ℕ → List ℕ → ℕ
update_loop table c [] = c
update_loop table c (u ∷ us) =
    update_loop table (bit_xor (table (bit_and (bit_xor c u) 255)) (c / 256)) us

unfoldable pub update : (ℕ → ℕ) → ℕ → List ℕ → ℕ
update table initial us = bit_xor (update_loop table (bit_xor initial ones) us) ones

-- The loop of genCRCfromData(): `n` bytes, one call of update() for each.
unfoldable pub crc_loop : ℕ → ℕ → List ℕ → ℕ
crc_loop zero crc bytes = crc
crc_loop (suc n) crc [] = crc
crc_loop (suc n) crc (b ∷ bytes) = crc_loop n (update generate_table crc (b ∷ [])) bytes

-- genCRCfromData() on the bytes at `data`, of which there are eight or more. It does not look at
-- `size`.
unfoldable pub gen_crc_from_data : List ℕ → ℕ
gen_crc_from_data bytes = crc_loop 8 0 bytes

update_loop-append :
    (table : ℕ → ℕ) (c : ℕ) (us vs : List ℕ)
    → update_loop table c (us ++ vs) ≡ update_loop table (update_loop table c us) vs
unfolding update_loop
update_loop-append table c [] vs = refl
update_loop-append table c (u ∷ us) vs =
    update_loop-append table (bit_xor (table (bit_and (bit_xor c u) 255)) (c / 256)) us vs

-- Two calls of update() are one.
update-append :
    (table : ℕ → ℕ) (c : ℕ) (us vs : List ℕ)
    → update table (update table c us) vs ≡ update table c (us ++ vs)
unfolding update
update-append table c us vs =
    ap (λ x. bit_xor (update_loop table x vs) ones) (bit_xor-cancel _ ones)
    ∙ ap (λ x. bit_xor x ones) (sym (update_loop-append table (bit_xor c ones) us vs))

crc_loop-update :
    (n : ℕ) (c : ℕ) (bytes : List ℕ) → crc_loop n c bytes ≡ update generate_table c (take n bytes)
unfolding crc_loop update update_loop
crc_loop-update zero c bytes = sym (bit_xor-cancel c ones)
crc_loop-update (suc n) c [] = sym (bit_xor-cancel c ones)
crc_loop-update (suc n) c (b ∷ bytes) =
    crc_loop-update n (update generate_table c (b ∷ [])) bytes
    ∙ update-append generate_table c (b ∷ []) (take n bytes)

-- The checksum of data is the CRC of its first eight bytes in one call.
pub gen_crc_from_data-update :
    (bytes : List ℕ) → gen_crc_from_data bytes ≡ update generate_table 0 (take 8 bytes)
unfolding gen_crc_from_data
gen_crc_from_data-update bytes = crc_loop-update 8 0 bytes

-- The CRC by its definition: a byte goes in by an exclusive or and eight rounds.
unfoldable pub crc32 : ℕ → List ℕ → ℕ
crc32 c [] = c
crc32 c (u ∷ us) = crc32 (rounds 8 (bit_xor c u)) us
