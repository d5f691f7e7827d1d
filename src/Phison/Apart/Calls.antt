-- ===== src/Phison/Apart/Calls.antt =====
-- phison_version/nvme_transfer/layer_manager.cpp: the calls, and the blocks of the layers.
use nvme_ioctl.Prelude.{
  ℕ, ◌^◌, ◌≡◌, sym, ap, ◌<◌, Option, some, List, arith, ◌==◌, if◌then◌else◌, ◌⊎◌, inl, inr,
  Bool-cases, Option-cases,
}
use mathlib.Core.Path.{subst}
use nvme_ioctl.Phison.{Str, str_eq, stoull, LbaMgr, CrcMgr, LayerInfoMgr, LayerVecMap}
use nvme_ioctl.Phison.Names.{split_file}
use nvme_ioctl.Phison.Crc.{gen_crc_from_data}
use nvme_ioctl.Phison.Layers.{
  Tensor, no_hash, params_word, optimizer_word, tensor_of, get_lba_from_list, part,
  get_temp_lba_mgr, set_crc, align_layer_param, lay_out,
}
use nvme_ioctl.Phison.Layers.Keys.{Entry, insert_layer, change_layer, find_layer, find_hash}
use nvme_ioctl.Phison.Layers.Regions.{count_of, start_of, end_of, Laid, lay_out-Laid, Laid-rises}
use nvme_ioctl.Phison.Parse.{
  params_layer, link_layer, optimizer_layer, layer_of, operate, access, parse_from_file_name,
}
use nvme_ioctl.Phison.Apart.{Apart, Disjoint, change-Disjoint, insert-Disjoint}

-- The names are those of a layer of fewer than 2 ^ 40 parameters.
abbrev pub Modest : List Str → Type 0
Modest names = (n : ℕ) → stoull (part 1 names) ≡ some n → n < 2 ^ 40

-- The blocks of a layer do not hang on its hash and its checksums.
module _ (alloc : ℕ) where
  hash-Laid :
      (hash : Str) (info : LayerInfoMgr)
      → Laid alloc info
      → Laid alloc (record info { hash_id = hash })
  unfolding start_of end_of count_of
  hash-Laid hash info l = record {
    param16_lem = l.param16_lem;
    param32_lem = l.param32_lem;
    gradient32_lem = l.gradient32_lem;
    momentum32_lem = l.momentum32_lem;
    variance32_lem = l.variance32_lem;
  }

  crc-Laid :
      (crc : CrcMgr) (info : LayerInfoMgr)
      → Laid alloc info
      → Laid alloc (record info { crc_mgr = crc })
  unfolding start_of end_of count_of
  crc-Laid crc info l = record {
    param16_lem = l.param16_lem;
    param32_lem = l.param32_lem;
    gradient32_lem = l.gradient32_lem;
    momentum32_lem = l.momentum32_lem;
    variance32_lem = l.variance32_lem;
  }

hash-Apart : (hash : Str) (x y : LayerInfoMgr) → Apart x y → Apart x (record y { hash_id = hash })
unfolding start_of end_of count_of
hash-Apart hash x y h = h

crc-Apart : (crc : CrcMgr) (x y : LayerInfoMgr) → Apart x y → Apart x (record y { crc_mgr = crc })
unfolding start_of end_of count_of
crc-Apart crc x y h = h

get_temp_lba_mgr-lay_out :
    (names : List Str) (offset : ℕ) (r : LbaMgr × ℕ)
    → get_temp_lba_mgr names offset ≡ some r
    → (n : ℕ) × ((stoull (part 1 names) ≡ some n) × (r ≡ lay_out (align_layer_param n) offset))
unfolding get_temp_lba_mgr
get_temp_lba_mgr-lay_out names offset r h = elim (Option-cases (stoull (part 1 names))) [
  | inl e ↦ absurd (ground arith)
  | inr c ↦ (c.0, (c.1, ground arith))
]

link_layer-Disjoint :
    (alloc : ℕ) (names : List Str) (s : LayerVecMap) (m : List Entry)
    → link_layer names s ≡ some m
    → Disjoint alloc s.layer_mgr
    → Disjoint alloc m
unfolding link_layer
link_layer-Disjoint alloc names s m h d =
    let key = part 0 s.prev_operation_mgr.file_name_split in
    let linked = change_layer key (λ info. record info { hash_id = part 0 names }) s.layer_mgr in
    let cases : (m ≡ linked) ⊎ (m ≡ s.layer_mgr) = ground arith in
    elim cases [
      | inl e ↦ subst (Disjoint alloc) (sym e) (
          change-Disjoint alloc key (λ info. record info { hash_id = part 0 names }) s.layer_mgr
            (hash-Laid alloc (part 0 names)) (hash-Apart (part 0 names)) d)
      | inr e ↦ subst (Disjoint alloc) (sym e) d
    ]

count_of_lem : (info : LayerInfoMgr) (n : ℕ) → stoull info.param_num ≡ some n → count_of info ≡ n
unfolding count_of
count_of_lem info n h = ground arith

-- A new layer of a modest size goes behind all the others.
params_layer-Disjoint :
    (names : List Str) (s : LayerVecMap) (r : Entry × LayerVecMap)
    → params_layer names s ≡ some r
    → Modest names
    → s.alloc_lba_offset < 2 ^ 63
    → Disjoint s.alloc_lba_offset s.layer_mgr
    → Disjoint r.1.alloc_lba_offset r.1.layer_mgr
unfolding params_layer
params_layer-Disjoint names s r h modest room d =
    let key = part 0 names in
    elim (Option-cases (find_layer key s.layer_mgr)) [
      | inr c ↦
          let same : r.1 ≡ s = ground (arith, c.1) in
          subst (λ (x : LayerVecMap). Disjoint x.alloc_lba_offset x.layer_mgr) (sym same) d
      | inl c ↦ elim (Option-cases (get_temp_lba_mgr names s.alloc_lba_offset)) [
        | inl c' ↦ absurd (ground (arith, c, c'))
        | inr c' ↦
            let out = get_temp_lba_mgr-lay_out names s.alloc_lba_offset c'.0 c'.1 in
            let info : LayerInfoMgr = record {
              param_num = part 1 names;
              hash_id = no_hash;
              lba_mgr = c'.0.0;
              crc_mgr = record {
                param16 = 0;
                param32 = 0;
                gradient32 = 0;
                momentum32 = 0;
                variance32 = 0;
              };
            } in
            let next : LayerVecMap = record s {
              layer_mgr = insert_layer key info s.layer_mgr;
              alloc_lba_offset = c'.0.1;
            } in
            let new : r.1 ≡ next = ground (arith, c, c'.1) in
            let laid =
              lay_out-Laid info out.0 s.alloc_lba_offset (count_of_lem info out.0 out.1.0)
                (ap (λ x. x.0) out.1.1) (modest out.0 out.1.0) room in
            let laid' : Laid c'.0.1 info =
              subst (λ x. Laid x info) (sym (ap (λ x. x.1) out.1.1)) laid.1 in
            subst (λ (x : LayerVecMap). Disjoint x.alloc_lba_offset x.layer_mgr) (sym new)
              (insert-Disjoint s.alloc_lba_offset c'.0.1 key info s.layer_mgr
                (omega (arith, laid.0, Laid-rises c'.0.1 info laid')) laid.0 laid' d)
      ]
    ]

optimizer_layer-Disjoint :
    (names : List Str) (s : LayerVecMap) (r : Entry × LayerVecMap)
    → optimizer_layer names s ≡ some r
    → Disjoint s.alloc_lba_offset s.layer_mgr
    → Disjoint r.1.alloc_lba_offset r.1.layer_mgr
unfolding optimizer_layer
optimizer_layer-Disjoint names s r h d = elim (Option-cases (link_layer names s)) [
  | inl c ↦ absurd (ground (arith, c))
  | inr c ↦ elim (Option-cases (find_hash (part 0 names) c.0)) [
    | inl c' ↦ absurd (ground (arith, c.1, c'))
    | inr c' ↦
        let new : r.1 ≡ (record s { layer_mgr = c.0 }) = ground (arith, c.1, c'.1) in
        subst (λ (x : LayerVecMap). Disjoint x.alloc_lba_offset x.layer_mgr) (sym new)
          (link_layer-Disjoint s.alloc_lba_offset names s c.0 c.1 d)
  ]
]

layer_of-Disjoint :
    (path names : List Str) (s : LayerVecMap) (r : Entry × LayerVecMap)
    → layer_of path names s ≡ some r
    → Modest names
    → s.alloc_lba_offset < 2 ^ 63
    → Disjoint s.alloc_lba_offset s.layer_mgr
    → Disjoint r.1.alloc_lba_offset r.1.layer_mgr
unfolding layer_of
layer_of-Disjoint path names s r h modest room d =
    elim (Bool-cases (str_eq (part 4 path) params_word)) [
      | inl c ↦ params_layer-Disjoint names s r (ground (arith, c)) modest room d
      | inr c ↦ elim (Bool-cases (str_eq (part 4 path) optimizer_word)) [
        | inl c' ↦ optimizer_layer-Disjoint names s r (ground (arith, c, c')) d
        | inr c' ↦ absurd (ground (arith, c, c'))
      ]
    ]

module _ {World : Type 0} (data_at : World → List ℕ)
    (handler : ℕ → ℕ → ℕ → World → Option World) where
  operate-Disjoint :
      (op : ℕ) (t : Tensor) (e : Entry) (lba size : ℕ) (s : LayerVecMap) (w : World)
      (r : LayerVecMap × World)
      → operate data_at handler op t e lba size s w ≡ some r
      → Disjoint s.alloc_lba_offset s.layer_mgr
      → Disjoint r.0.alloc_lba_offset r.0.layer_mgr
  unfolding operate
  operate-Disjoint op t e lba size s w r h d =
      let crc = gen_crc_from_data (data_at w) in
      let store : LayerInfoMgr → LayerInfoMgr =
        λ info. record info { crc_mgr = set_crc t crc info.crc_mgr } in
      let stored : LayerVecMap = record s { layer_mgr = change_layer e.0 store s.layer_mgr } in
      let good = λ (x : LayerVecMap). Disjoint x.alloc_lba_offset x.layer_mgr in
      let cases : (r.0 ≡ s) ⊎ (r.0 ≡ stored) = ground arith in
      elim cases [
        | inl c ↦ subst good (sym c) d
        | inr c ↦ subst good (sym c) (
            change-Disjoint s.alloc_lba_offset e.0 store s.layer_mgr
              (λ info. crc-Laid s.alloc_lba_offset (set_crc t crc info.crc_mgr) info)
              (λ x y. crc-Apart (set_crc t crc y.crc_mgr) x y) d)
      ]

  access-Disjoint :
      (path names : List Str) (op size : ℕ) (e : Entry) (s : LayerVecMap) (w : World)
      (r : LayerVecMap × World)
      → access data_at handler path names op size e s w ≡ some r
      → Disjoint s.alloc_lba_offset s.layer_mgr
      → Disjoint r.0.alloc_lba_offset r.0.layer_mgr
  unfolding access
  access-Disjoint path names op size e s w r h d =
      let s' : LayerVecMap = record s {
        prev_operation_mgr = record { file_path_split = path; file_name_split = names; op = op };
      } in
      elim (Option-cases (tensor_of names)) [
        | inl c ↦ absurd (ground (arith, c))
        | inr c ↦ elim (Option-cases (get_lba_from_list names e.1)) [
          | inl c' ↦ absurd (ground (arith, c.1, c'))
          | inr c' ↦
              operate-Disjoint op c.0 e c'.0.0 (if size == 0 then c'.0.1 else size) s' w r
                (ground (arith, c.1, c'.1)) d
        ]
      ]

  -- The names of a file are those of a layer of fewer than 2 ^ 40 parameters.
  abbrev pub ModestFile : Str → Type 0
  ModestFile file_name = (r : List Str × List Str) → split_file file_name ≡ some r → Modest r.1

  -- Where the offset and the parameters of the file are far below the limits of the words, a call of
  -- parsefromFileName() that comes back leaves every layer laid out below the offset and apart from
  -- the others, if they were before.
  pub parse_from_file_name-Disjoint :
      (file_name : Str) (op size : ℕ) (s : LayerVecMap) (w : World) (r : LayerVecMap × World)
      → parse_from_file_name data_at handler file_name op size s w ≡ some r
      → ModestFile file_name
      → s.alloc_lba_offset < 2 ^ 63
      → Disjoint s.alloc_lba_offset s.layer_mgr
      → Disjoint r.0.alloc_lba_offset r.0.layer_mgr
  unfolding parse_from_file_name
  parse_from_file_name-Disjoint file_name op size s w r h modest room d =
      elim (Option-cases (split_file file_name)) [
        | inl c ↦ absurd (ground (arith, c))
        | inr c ↦ elim (Option-cases (layer_of c.0.0 c.0.1 s)) [
          | inl c' ↦ absurd (ground (arith, c.1, c'))
          | inr c' ↦
              access-Disjoint c.0.0 c.0.1 op size c'.0.0 c'.0.1 w r (ground (arith, c.1, c'.1))
                (layer_of-Disjoint c.0.0 c.0.1 s c'.0 c'.1 (modest c.0 c.1) room d)
        ]
      ]
