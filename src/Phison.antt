-- ===== src/Phison.antt =====
-- phison_version/nvme_transfer/layer_manager.h: the data of the layer manager. A string is the list
-- of its characters.
pub mod Names
pub mod Joins
pub mod Layers
pub mod Parse
pub mod Passes
pub mod Apart
pub mod Crc
pub mod Aio
pub mod Waiting
pub mod Handler
pub mod Ranges
pub mod Copies
mod Tests
use nvme_ioctl.Prelude.{
  ℕ, zero, suc, ◌+◌, ◌-◌, ◌*◌, ◌/◌, ◌%◌, ◌≡◌, refl, Bool, true, false, ◌&&◌, ◌||◌, Option, none,
  some, List, [], ◌∷◌, u64, ltb, leb, ◌==◌, if◌then◌else◌,
}

abbrev pub Str : Type 0
Str = List ℕ

-- `==` and `<` of std::string
abbrev pub str_eq : Str → Str → Bool
str_eq [] [] = true
str_eq [] (d ∷ t) = false
str_eq (c ∷ s) [] = false
str_eq (c ∷ s) (d ∷ t) = c == d && str_eq s t

abbrev pub str_less : Str → Str → Bool
str_less s [] = false
str_less [] (d ∷ t) = true
str_less (c ∷ s) (d ∷ t) = if c == d then str_less s t else ltb c d

abbrev pub slash : ℕ
slash = 47

abbrev pub dot : ℕ
dot = 46

abbrev pub dash : ℕ
dash = 95

-- std::stoull() in base ten: spaces and a sign go first, what follows the digits does not matter.
-- Nothing is returned where it throws.
abbrev pub is_digit : ℕ → Bool
is_digit c = leb 48 c && leb c 57

unfoldable pub skip_spaces : Str → Str
skip_spaces [] = []
skip_spaces (c ∷ s) = if c == 32 || leb 9 c && leb c 13 then skip_spaces s else c ∷ s

unfoldable pub digits : ℕ → Str → ℕ
digits n [] = n
digits n (c ∷ s) = if is_digit c then digits (n * 10 + (c - 48)) s else n

unfoldable pub number : Str → Option ℕ
number [] = none
number (c ∷ s) =
    let n = digits 0 (c ∷ s) in if is_digit c then (if ltb n u64 then some n else none) else none

unfoldable pub signed_number : Str → Option ℕ
signed_number [] = none
signed_number (c ∷ s) =
    if c == 43
    then number s
    else if c == 45
    then elim (number s) [ none ↦ none | some n ↦ some ((u64 - n) % u64) ]
    else number (c ∷ s)

unfoldable pub stoull : Str → Option ℕ
stoull s = signed_number (skip_spaces s)

abbrev pub max_layer_size : ℕ
max_layer_size = 750

-- `struct LBAMgr`, `struct CRCMgr`, `struct layerInfoMgr`, `struct prevOperation`
pub record LbaMgr : Type 0 where
  pub param16 : ℕ
  pub param32 : ℕ
  pub gradient32 : ℕ
  pub momentum32 : ℕ
  pub variance32 : ℕ

pub record CrcMgr : Type 0 where
  pub param16 : ℕ
  pub param32 : ℕ
  pub gradient32 : ℕ
  pub momentum32 : ℕ
  pub variance32 : ℕ

pub record LayerInfoMgr : Type 0 where
  pub param_num : Str
  pub hash_id : Str
  pub lba_mgr : LbaMgr
  pub crc_mgr : CrcMgr

pub record PrevOperation : Type 0 where
  pub file_path_split : List Str
  pub file_name_split : List Str
  pub op : ℕ

-- `class layerVecMap`: a std::map is the list of its entries in the order of the keys.
pub record LayerVecMap : Type 0 where
  pub layer_mgr : List (Str × LayerInfoMgr)
  pub prev_operation_mgr : PrevOperation
  pub alloc_lba_offset : ℕ
