-- ===== src/Phison/Layers.antt =====
-- phison_version/nvme_transfer/layer_manager.cpp: tensors, their blocks and checksums. Nothing is
-- returned where an assertion fails or where stoull() throws.
pub mod Regions
pub mod Keys
use nvme_ioctl.Prelude.{
  ℕ, zero, suc, ◌+◌, ◌-◌, ◌*◌, ◌/◌, ◌%◌, ◌≡◌, refl, Bool, true, false, not, ◌&&◌, Option, none,
  some, List, [], ◌∷◌, u64, ltb, ◌==◌, bit_and, if◌then◌else◌,
}
use mathlib.Core.Option
use nvme_ioctl.Phison.{
  Str, str_eq, str_less, stoull, LbaMgr, CrcMgr, LayerInfoMgr, PrevOperation, LayerVecMap,
  max_layer_size,
}
use nvme_ioctl.Phison.Names.{split_file}
use nvme_ioctl.Phison.Crc.{gen_crc_from_data}

-- The five tensors of a layer, by the last two parts of a name: "param" with "bfloat16" or
-- "float32", "gradient", "momentum", "variance".
pub data Tensor : Type 0 where
  param16 param32 gradient32 momentum32 variance32 : Tensor

abbrev pub param_word : Str
param_word = 112 ∷ 97 ∷ 114 ∷ 97 ∷ 109 ∷ []

abbrev pub bfloat16_word : Str
bfloat16_word = 98 ∷ 102 ∷ 108 ∷ 111 ∷ 97 ∷ 116 ∷ 49 ∷ 54 ∷ []

abbrev pub float32_word : Str
float32_word = 102 ∷ 108 ∷ 111 ∷ 97 ∷ 116 ∷ 51 ∷ 50 ∷ []

abbrev pub gradient_word : Str
gradient_word = 103 ∷ 114 ∷ 97 ∷ 100 ∷ 105 ∷ 101 ∷ 110 ∷ 116 ∷ []

abbrev pub momentum_word : Str
momentum_word = 109 ∷ 111 ∷ 109 ∷ 101 ∷ 110 ∷ 116 ∷ 117 ∷ 109 ∷ []

abbrev pub variance_word : Str
variance_word = 118 ∷ 97 ∷ 114 ∷ 105 ∷ 97 ∷ 110 ∷ 99 ∷ 101 ∷ []

-- "bfloat16params" and "optimizer"
abbrev pub params_word : Str
params_word = 98 ∷ 102 ∷ 108 ∷ 111 ∷ 97 ∷ 116 ∷ 49 ∷ 54 ∷ 112 ∷ 97 ∷ 114 ∷ 97 ∷ 109 ∷ 115 ∷ []

abbrev pub optimizer_word : Str
optimizer_word = 111 ∷ 112 ∷ 116 ∷ 105 ∷ 109 ∷ 105 ∷ 122 ∷ 101 ∷ 114 ∷ []

-- "-1"
abbrev pub no_hash : Str
no_hash = 45 ∷ 49 ∷ []

-- `v[i]`, and the last part but one with the last.
abbrev pub part : ℕ → List Str → Str
part i [] = []
part zero (s ∷ l) = s
part (suc i) (s ∷ l) = part i l

abbrev pub last_two : List Str → Str × Str
last_two [] = ([], [])
last_two (s ∷ []) = ([], s)
last_two (s ∷ t ∷ []) = (s, t)
last_two (s ∷ t ∷ u ∷ l) = last_two (t ∷ u ∷ l)

-- The tests on `currentType` and the unit, which getLBAfromList() and parsefromFileName() make.
unfoldable pub tensor_of : List Str → Option Tensor
tensor_of file_name_split =
    let (current_type, unit) = last_two file_name_split in
    if str_eq current_type param_word
    then if str_eq unit bfloat16_word
      then some param16
      else if str_eq unit float32_word
      then some param32
      else none
    else if str_eq current_type gradient_word
    then some gradient32
    else if str_eq current_type momentum_word
    then some momentum32
    else if str_eq current_type variance_word
    then some variance32
    else none

unfoldable pub lba_of : Tensor → LbaMgr → ℕ
lba_of param16 m = m.param16
lba_of param32 m = m.param32
lba_of gradient32 m = m.gradient32
lba_of momentum32 m = m.momentum32
lba_of variance32 m = m.variance32

-- The bytes of a parameter, which the shifts multiply by.
unfoldable pub width_of : Tensor → ℕ
width_of param16 = 2
width_of param32 = 4
width_of gradient32 = 4
width_of momentum32 = 4
width_of variance32 = 4

unfoldable pub crc_of : Tensor → CrcMgr → ℕ
crc_of param16 m = m.param16
crc_of param32 m = m.param32
crc_of gradient32 m = m.gradient32
crc_of momentum32 m = m.momentum32
crc_of variance32 m = m.variance32

unfoldable pub set_crc : Tensor → ℕ → CrcMgr → CrcMgr
set_crc param16 crc m = record m { param16 = crc }
set_crc param32 crc m = record m { param32 = crc }
set_crc gradient32 crc m = record m { gradient32 = crc }
set_crc momentum32 crc m = record m { momentum32 = crc }
set_crc variance32 crc m = record m { variance32 = crc }

-- getLBAfromList(): the block, and `*tempSize`.
unfoldable pub get_lba_from_list : List Str → LayerInfoMgr → Option (ℕ × ℕ)
get_lba_from_list file_name_split info = elim (tensor_of file_name_split) [
  | none ↦ none
  | some t ↦
      Option.map (λ n. (lba_of t info.lba_mgr, n * width_of t % u64))
        (stoull (part 1 file_name_split))
]

-- ALIGN_LAYER_PARAM, and `((param * k) >> 9) + 8` on `unsigned long long`.
abbrev pub align_layer_param : ℕ → ℕ
align_layer_param param = let top = (param + 4096 - 1) % u64 in top - bit_and top (4096 - 1)

abbrev pub behind : ℕ → ℕ → ℕ → ℕ
behind start param k = (start + param * k % u64 / 512 + 8) % u64

-- getTempLBAMgr(): the blocks, and `allocLBAoffset`.
unfoldable pub lay_out : ℕ → ℕ → LbaMgr × ℕ
lay_out param offset =
    let p16 = offset in
    let p32 = behind p16 param 2 in
    let g32 = behind p32 param 4 in
    let m32 = behind g32 param 4 in
    let v32 = behind m32 param 4 in
    (
      record { param16 = p16; param32 = p32; gradient32 = g32; momentum32 = m32; variance32 = v32 },
      behind v32 param 4,
    )

unfoldable pub get_temp_lba_mgr : List Str → ℕ → Option (LbaMgr × ℕ)
get_temp_lba_mgr file_name_split offset = elim (stoull (part 1 file_name_split)) [
  | none ↦ none
  | some count ↦ elim (stoull (part 0 file_name_split)) [
    | none ↦ none
    | some layer ↦
        if ltb layer max_layer_size then some (lay_out (align_layer_param count) offset) else none
  ]
]

-- clearMap()
unfoldable pub clear_map : LayerVecMap
clear_map = record {
  layer_mgr = [];
  prev_operation_mgr = record { file_path_split = []; file_name_split = []; op = 3 };
  alloc_lba_offset = 0;
}
