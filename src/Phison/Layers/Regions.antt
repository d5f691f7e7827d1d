-- ===== src/Phison/Layers/Regions.antt =====
-- phison_version/nvme_transfer/layer_manager.cpp: the blocks that getTempLBAMgr() gives to a layer.
use nvme_ioctl.Prelude.{
  ℕ, ◌+◌, ◌-◌, ◌*◌, ◌/◌, ◌%◌, ◌^◌, ◌≡◌, ap, ◌≤◌, ◌<◌, none, some, arith, u64, bit_and,
}
use nvme_ioctl.Prelude.Bits.{bit_and-mask}
use nvme_ioctl.Phison.{stoull, LayerInfoMgr}
use nvme_ioctl.Phison.Layers.{
  Tensor, param16, param32, gradient32, momentum32, variance32, lba_of, width_of, align_layer_param,
  behind, lay_out,
}

-- The parameters of a layer, and the blocks that a tensor of it takes, with eight to spare.
unfoldable pub count_of : LayerInfoMgr → ℕ
count_of info = elim (stoull info.param_num) [ none ↦ 0 | some n ↦ n ]

unfoldable pub start_of : Tensor → LayerInfoMgr → ℕ
start_of t info = lba_of t info.lba_mgr

unfoldable pub end_of : Tensor → LayerInfoMgr → ℕ
end_of t info = start_of t info + count_of info * width_of t / 512 + 8

-- The tensors of a layer lie one behind the other, the last one below `alloc`.
pub record Laid (alloc : ℕ) (info : LayerInfoMgr) : Type 0 where
  pub param16_lem : end_of param16 info ≤ start_of param32 info
  pub param32_lem : end_of param32 info ≤ start_of gradient32 info
  pub gradient32_lem : end_of gradient32 info ≤ start_of momentum32 info
  pub momentum32_lem : end_of momentum32 info ≤ start_of variance32 info
  pub variance32_lem : end_of variance32 info ≤ alloc

align_layer_param_lem :
    (n : ℕ) → n < 2 ^ 40 → (n ≤ align_layer_param n) × (align_layer_param n < n + 4096)
align_layer_param_lem n h =
    let top = (n + 4096 - 1) % u64 in
    let same : top ≡ n + 4095 = omega arith in
    let low : bit_and top 4095 ≡ top % 2 ^ 12 = bit_and-mask 12 top in
    (omega (arith, same, low), omega (arith, same, low))

behind_lem :
    (start param n k : ℕ)
    → start < 2 ^ 63 + 2 ^ 60
    → n * k ≤ param * k
    → param * k < 2 ^ 43
    → (start + n * k / 512 + 8 ≤ behind start param k) × (behind start param k < start + 2 ^ 40)
behind_lem start param n k h p r =
    let a = param * k in
    let same : a % u64 ≡ a = omega arith in
    let small : (start + a % u64 / 512 + 8) % u64 ≡ start + a / 512 + 8 = omega (arith, same) in
    (omega (arith, small), omega (arith, small))

-- The tensors of a layer of fewer than 2 ^ 40 parameters, laid out from `offset` on.
pub lay_out-Laid :
    (info : LayerInfoMgr) (n offset : ℕ)
    → count_of info ≡ n
    → info.lba_mgr ≡ (lay_out (align_layer_param n) offset).0
    → n < 2 ^ 40
    → offset < 2 ^ 63
    → (start_of param16 info ≡ offset) × Laid (lay_out (align_layer_param n) offset).1 info
unfolding lay_out start_of end_of lba_of width_of
lay_out-Laid info n offset count at small room =
    let param = align_layer_param n in
    let size = align_layer_param_lem n small in
    let m = lay_out param offset in
    let a =
      behind_lem m.0.param16 param n 2 (omega arith) (omega (arith, size)) (omega (arith, size)) in
    let b =
      behind_lem m.0.param32 param n 4 (omega (arith, a)) (omega (arith, size))
        (omega (arith, size)) in
    let c =
      behind_lem m.0.gradient32 param n 4 (omega (arith, a, b)) (omega (arith, size))
        (omega (arith, size)) in
    let d =
      behind_lem m.0.momentum32 param n 4 (omega (arith, a, b, c)) (omega (arith, size))
        (omega (arith, size)) in
    let e =
      behind_lem m.0.variance32 param n 4 (omega (arith, a, b, c, d)) (omega (arith, size))
        (omega (arith, size)) in
    let at16 : info.lba_mgr.param16 ≡ m.0.param16 = ap (λ x. x.param16) at in
    let at32 : info.lba_mgr.param32 ≡ m.0.param32 = ap (λ x. x.param32) at in
    let atg : info.lba_mgr.gradient32 ≡ m.0.gradient32 = ap (λ x. x.gradient32) at in
    let atm : info.lba_mgr.momentum32 ≡ m.0.momentum32 = ap (λ x. x.momentum32) at in
    let atv : info.lba_mgr.variance32 ≡ m.0.variance32 = ap (λ x. x.variance32) at in
    (
      at16,
      record {
        param16_lem = omega (arith, a, at16, at32, count);
        param32_lem = omega (arith, b, at32, atg, count);
        gradient32_lem = omega (arith, c, atg, atm, count);
        momentum32_lem = omega (arith, d, atm, atv, count);
        variance32_lem = omega (arith, e, atv, count);
      },
    )

pub Laid-rises : (alloc : ℕ) (info : LayerInfoMgr) → Laid alloc info → start_of param16 info ≤ alloc
unfolding end_of
Laid-rises alloc info l =
    omega
      (arith, l.param16_lem, l.param32_lem, l.gradient32_lem, l.momentum32_lem, l.variance32_lem)

pub Laid-weaken :
    (alloc offset : ℕ) (info : LayerInfoMgr) → alloc ≤ offset → Laid alloc info → Laid offset info
Laid-weaken alloc offset info le l = record {
  param16_lem = l.param16_lem;
  param32_lem = l.param32_lem;
  gradient32_lem = l.gradient32_lem;
  momentum32_lem = l.momentum32_lem;
  variance32_lem = omega (arith, l.variance32_lem);
}
