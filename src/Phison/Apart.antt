-- ===== src/Phison/Apart.antt =====
-- phison_version/nvme_transfer/layer_manager.cpp: layers that share no block, in the map.
pub mod Calls
pub mod Tensors
use nvme_ioctl.Prelude.{
  ℕ, ◌+◌, ◌-◌, ◌*◌, ◌/◌, ◌^◌, ◌≡◌, refl, sym, ◌∙◌, ap, ◌≤◌, ◌<◌, Bool, true, false, Option, none,
  some, List, [], ◌∷◌, All, arith, ◌==◌, ltb, if◌then◌else◌, ◌⊎◌, inl, inr, Bool-cases,
  Option-cases,
}
use mathlib.Core.Path.{subst}
use nvme_ioctl.Phison.{Str, str_eq, str_less, stoull, LbaMgr, CrcMgr, LayerInfoMgr, LayerVecMap}
use nvme_ioctl.Phison.Names.{split_file}
use nvme_ioctl.Phison.Crc.{gen_crc_from_data}
use nvme_ioctl.Phison.Layers.{
  Tensor, no_hash, params_word, optimizer_word, tensor_of, get_lba_from_list, param16, variance32,
  part, get_temp_lba_mgr, set_crc, align_layer_param, lay_out,
}
use nvme_ioctl.Phison.Layers.Keys.{Entry, insert_layer, change_layer, find_layer, find_hash}
use nvme_ioctl.Phison.Layers.Regions.{
  count_of, start_of, end_of, Laid, lay_out-Laid, Laid-rises, Laid-weaken,
}
use nvme_ioctl.Phison.Parse.{
  params_layer, link_layer, optimizer_layer, layer_of, operate, access, parse_from_file_name,
}

-- One layer ends before the other starts.
abbrev pub Apart : LayerInfoMgr → LayerInfoMgr → Type 0
Apart x y = (end_of variance32 x ≤ start_of param16 y) ⊎ (end_of variance32 y ≤ start_of param16 x)

abbrev pub AllApart : List Entry → Type 0
AllApart [] = Unit
AllApart (e ∷ m) = All (λ (f : Entry). Apart e.1 f.1) m × AllApart m

-- The blocks of the map: every layer is laid out below the offset, and apart from the others.
pub record Disjoint (alloc : ℕ) (m : List Entry) : Type 0 where
  pub laid : All (λ (e : Entry). Laid alloc e.1) m
  pub apart : AllApart m

module _ (P : LayerInfoMgr → Type 0) where
  All-change :
      (key : Str) (f : LayerInfoMgr → LayerInfoMgr) (m : List Entry)
      → ((info : LayerInfoMgr) → P info → P (f info))
      → All (λ (e : Entry). P e.1) m
      → All (λ (e : Entry). P e.1) (change_layer key f m)
  unfolding change_layer
  All-change key f [] keeps h = tt
  All-change key f (e ∷ m) keeps h =
      elim (str_eq e.0 key)
        as (λ b.
          All (λ (e : Entry). P e.1) (if b then (e.0, f e.1) ∷ m else e ∷ change_layer key f m)) [
            | true ↦ (keeps e.1 h.0, h.1)
            | false ↦ (h.0, All-change key f m keeps h.1)
          ]

  All-insert :
      (key : Str) (info : LayerInfoMgr) (m : List Entry)
      → P info
      → All (λ (e : Entry). P e.1) m
      → All (λ (e : Entry). P e.1) (insert_layer key info m)
  unfolding insert_layer
  All-insert key info [] p h = (p, tt)
  All-insert key info (e ∷ m) p h =
      elim (str_less key e.0)
        as (λ b.
          All (λ (e : Entry). P e.1)
            (if b then (key, info) ∷ e ∷ m else e ∷ insert_layer key info m)) [
              | true ↦ (p, h)
              | false ↦ (h.0, All-insert key info m p h.1)
            ]

module _ (P Q : LayerInfoMgr → Type 0) (weaker : (info : LayerInfoMgr) → P info → Q info) where
  All-weaken : (m : List Entry) → All (λ (e : Entry). P e.1) m → All (λ (e : Entry). Q e.1) m
  All-weaken [] h = tt
  All-weaken (e ∷ m) h = (weaker e.1 h.0, All-weaken m h.1)

AllApart-change :
    (key : Str) (f : LayerInfoMgr → LayerInfoMgr) (m : List Entry)
    → ((x y : LayerInfoMgr) → Apart x y → Apart x (f y))
    → ((x y : LayerInfoMgr) → Apart x y → Apart (f x) y)
    → AllApart m
    → AllApart (change_layer key f m)
unfolding change_layer
AllApart-change key f [] r l h = tt
AllApart-change key f (e ∷ m) r l h =
    elim (str_eq e.0 key)
      as (λ b. AllApart (if b then (e.0, f e.1) ∷ m else e ∷ change_layer key f m)) [
        | true ↦ (All-weaken (Apart e.1) (Apart (f e.1)) (l e.1) m h.0, h.1)
        | false ↦ (All-change (Apart e.1) key f m (r e.1) h.0, AllApart-change key f m r l h.1)
      ]

Apart-sym : (x y : LayerInfoMgr) → Apart x y → Apart y x
Apart-sym x y (inl h) = inr h
Apart-sym x y (inr h) = inl h

AllApart-insert :
    (key : Str) (info : LayerInfoMgr) (m : List Entry)
    → All (λ (e : Entry). Apart info e.1) m
    → AllApart m
    → AllApart (insert_layer key info m)
unfolding insert_layer
AllApart-insert key info [] p h = (tt, tt)
AllApart-insert key info (e ∷ m) p h =
    elim (str_less key e.0)
      as (λ b. AllApart (if b then (key, info) ∷ e ∷ m else e ∷ insert_layer key info m)) [
        | true ↦ (p, h)
        | false ↦ (
          All-insert (Apart e.1) key info m (Apart-sym info e.1 p.0) h.0,
          AllApart-insert key info m p.1 h.1,
        )
      ]

-- Neither a new hash nor a new checksum moves a layer.
pub change-Disjoint :
    (alloc : ℕ) (key : Str) (f : LayerInfoMgr → LayerInfoMgr) (m : List Entry)
    → ((info : LayerInfoMgr) → Laid alloc info → Laid alloc (f info))
    → ((x y : LayerInfoMgr) → Apart x y → Apart x (f y))
    → Disjoint alloc m
    → Disjoint alloc (change_layer key f m)
change-Disjoint alloc key f m keeps moves d = record {
  laid = All-change (Laid alloc) key f m keeps d.laid;
  apart =
      AllApart-change key f m moves (λ x y h. Apart-sym y (f x) (moves y x (Apart-sym x y h)))
        d.apart;
}

pub insert-Disjoint :
    (alloc offset : ℕ) (key : Str) (info : LayerInfoMgr) (m : List Entry)
    → alloc ≤ offset
    → start_of param16 info ≡ alloc
    → Laid offset info
    → Disjoint alloc m
    → Disjoint offset (insert_layer key info m)
insert-Disjoint alloc offset key info m le at l d = record {
  laid =
      All-insert (Laid offset) key info m l
        (All-weaken (Laid alloc) (Laid offset) (λ x. Laid-weaken alloc offset x le) m d.laid);
  apart =
      AllApart-insert key info m
        (All-weaken (Laid alloc) (Apart info) (λ x h. inr (omega (arith, at, h.variance32_lem))) m
          d.laid)
        d.apart;
}
