-- ===== src/Phison/Passes.antt =====
-- phison_version/nvme_transfer/layer_manager.cpp: a read after a write.
use nvme_ioctl.Prelude.{
  ℕ, ◌≡◌, refl, sym, ◌∙◌, ap, true, Option, none, some, List, [], ◌∷◌, arith, ◌==◌, if◌then◌else◌,
  inl, inr, Bool-cases, Option-cases,
}
use nvme_ioctl.Phison.{Str, str_eq, CrcMgr, LayerInfoMgr, LayerVecMap}
use nvme_ioctl.Phison.Names.{split_file}
use nvme_ioctl.Prelude.{take}
use nvme_ioctl.Phison.Crc.{gen_crc_from_data, gen_crc_from_data-update, update, generate_table}
use nvme_ioctl.Phison.Layers.{
  Tensor, param16, param32, gradient32, momentum32, variance32, no_hash, params_word, part,
  tensor_of, get_lba_from_list, get_temp_lba_mgr, crc_of, set_crc,
}
use nvme_ioctl.Phison.Layers.Keys.{Entry, insert_layer, change_layer, find_layer}
use nvme_ioctl.Phison.Parse.{params_layer, layer_of, operate, access, parse_from_file_name}

str_eq_self : (s : Str) → str_eq s s ≡ true
str_eq_self [] = refl
str_eq_self (c ∷ s) = ground (arith, str_eq_self s)

find-insert :
    (key : Str) (info : LayerInfoMgr) (m : List Entry)
    → find_layer key m ≡ none
    → find_layer key (insert_layer key info m) ≡ some info
unfolding find_layer insert_layer
find-insert key info [] h = ground (arith, str_eq_self key)
find-insert key info (e ∷ m) h = elim (Bool-cases (str_eq e.0 key)) [
  | inl c ↦ absurd (ground (arith, c))
  | inr c ↦
      let later = find-insert key info m (ground (arith, c)) in
      ground (arith, c, str_eq_self key, later)
]

find-change :
    (key : Str) (f : LayerInfoMgr → LayerInfoMgr) (m : List Entry) (info : LayerInfoMgr)
    → find_layer key m ≡ some info
    → find_layer key (change_layer key f m) ≡ some (f info)
unfolding find_layer change_layer
find-change key f [] info h = absurd (ground arith)
find-change key f (e ∷ m) info h = elim (Bool-cases (str_eq e.0 key)) [
  | inl c ↦ let same : e.1 ≡ info = ground (arith, c) in ground (arith, c, ap f same)
  | inr c ↦ let later = find-change key f m info (ground (arith, c)) in ground (arith, c, later)
]

crc_of-set_crc : (t : Tensor) (crc : ℕ) (m : CrcMgr) → crc_of t (set_crc t crc m) ≡ crc
unfolding crc_of set_crc
crc_of-set_crc param16 crc m = refl
crc_of-set_crc param32 crc m = refl
crc_of-set_crc gradient32 crc m = refl
crc_of-set_crc momentum32 crc m = refl
crc_of-set_crc variance32 crc m = refl

-- The layer of a name is in the map under its key from then on.
params_layer-find :
    (names : List Str) (s : LayerVecMap) (r : Entry × LayerVecMap)
    → params_layer names s ≡ some r
    → (r.0.0 ≡ part 0 names) × (find_layer (part 0 names) r.1.layer_mgr ≡ some r.0.1)
unfolding params_layer
params_layer-find names s r h =
    let key = part 0 names in
    elim (Option-cases (find_layer key s.layer_mgr)) [
      | inr c ↦ (ground (arith, c.1), ground (arith, c.1))
      | inl c ↦ elim (Option-cases (get_temp_lba_mgr names s.alloc_lba_offset)) [
        | inl c' ↦ absurd (ground (arith, c, c'))
        | inr c' ↦
            let info : LayerInfoMgr = record {
              param_num = part 1 names;
              hash_id = no_hash;
              lba_mgr = c'.0.0;
              crc_mgr = record {
                param16 = 0;
                param32 = 0;
                gradient32 = 0;
                momentum32 = 0;
                variance32 = 0;
              };
            } in
            let found = find-insert key info s.layer_mgr c in
            let next : LayerVecMap = record s {
              layer_mgr = insert_layer key info s.layer_mgr;
              alloc_lba_offset = c'.0.1;
            } in
            let new : r ≡ ((key, info), next) = ground (arith, c, c'.1) in
            (
              ap (λ (x : Entry × LayerVecMap). x.0.0) new,
              ap (λ (x : Entry × LayerVecMap). find_layer key x.1.layer_mgr) new
                  ∙ (found ∙ ap (λ (x : Entry × LayerVecMap). some x.0.1) (sym new)),
            )
      ]
    ]

params_layer_of :
    (path names : List Str) (s : LayerVecMap) (r : Entry × LayerVecMap)
    → str_eq (part 4 path) params_word ≡ true
    → layer_of path names s ≡ some r
    → params_layer names s ≡ some r
unfolding layer_of
params_layer_of path names s r here h = ground arith

of_params :
    (path names : List Str) (s : LayerVecMap) (info : LayerInfoMgr)
    → str_eq (part 4 path) params_word ≡ true
    → find_layer (part 0 names) s.layer_mgr ≡ some info
    → layer_of path names s ≡ some ((part 0 names, info), s)
unfolding layer_of params_layer
of_params path names s info here found = ground arith

-- The block of a tensor does not hang on the checksums.
same_place :
    (names : List Str) (info : LayerInfoMgr) (crc : CrcMgr)
    → get_lba_from_list names (record info { crc_mgr = crc }) ≡ get_lba_from_list names info
unfolding get_lba_from_list
same_place names info crc = refl

-- Where the tensor of a file lies, and its size.
abbrev pub place_of : Str → LayerVecMap → Option (ℕ × ℕ)
place_of file_name s = elim (split_file file_name) [
  | none ↦ none
  | some (path, names) ↦ elim (layer_of path names s) [
    | none ↦ none
    | some (e, s') ↦ get_lba_from_list names e.1
  ]
]

first_eight : (xs ys : List ℕ) → take 8 xs ≡ take 8 ys → gen_crc_from_data xs ≡ gen_crc_from_data ys
first_eight xs ys e =
    gen_crc_from_data-update xs
    ∙ ap (λ l. update generate_table 0 l) e
    ∙ sym (gen_crc_from_data-update ys)

module _ {World : Type 0} (data_at : World → List ℕ)
    (handler : ℕ → ℕ → ℕ → World → Option World) where
  -- A read of the tensor that a layer holds the checksum of.
  read_passes :
      (path names : List Str) (t : Tensor) (size : ℕ) (e : Entry) (at : ℕ × ℕ) (s : LayerVecMap)
      (w w' : World)
      → tensor_of names ≡ some t
      → get_lba_from_list names e.1 ≡ some at
      → handler at.0 (if size == 0 then at.1 else size) 0 w ≡ some w'
      → crc_of t e.1.crc_mgr ≡ gen_crc_from_data (data_at w')
      → (s' : LayerVecMap) × (access data_at handler path names 0 size e s w ≡ some (s', w'))
  unfolding access operate
  read_passes path names t size e at s w w' tensor place reads same =
      let s' : LayerVecMap = record s {
        prev_operation_mgr = record { file_path_split = path; file_name_split = names; op = 0 };
      } in
      (s', ground (arith, tensor, place, reads, same))

  -- What a write leaves in the map for a later read of the same name.
  write_leaves :
      (path names : List Str) (size : ℕ) (e : Entry) (s : LayerVecMap) (w : World)
      (r : LayerVecMap × World)
      → access data_at handler path names 1 size e s w ≡ some r
      → find_layer e.0 s.layer_mgr ≡ some e.1
      → (t : Tensor) × ((at : ℕ × ℕ) × ((crc : CrcMgr) × ((tensor_of names ≡ some t)
              × ((get_lba_from_list names e.1 ≡ some at)
                  × ((find_layer e.0 r.0.layer_mgr ≡ some (record e.1 { crc_mgr = crc }))
                      × (crc_of t crc ≡ gen_crc_from_data (data_at w)))))))
  unfolding access operate
  write_leaves path names size e s w r h found = elim (Option-cases (tensor_of names)) [
    | inl c ↦ absurd (ground (arith, c))
    | inr c ↦ elim (Option-cases (get_lba_from_list names e.1)) [
      | inl c' ↦ absurd (ground (arith, c.1, c'))
      | inr c' ↦
          let t = c.0 in
          let crc = gen_crc_from_data (data_at w) in
          let store : LayerInfoMgr → LayerInfoMgr =
            λ info. record info { crc_mgr = set_crc t crc info.crc_mgr } in
          let m : r.0.layer_mgr ≡ change_layer e.0 store s.layer_mgr = ground (arith, c.1, c'.1) in
          (
            t,
            (
              c'.0,
              (
                set_crc t crc e.1.crc_mgr,
                (
                  c.1,
                  (
                    c'.1,
                    (
                      ap (find_layer e.0) m ∙ find-change e.0 store s.layer_mgr e.1 found,
                      crc_of-set_crc t crc e.1.crc_mgr,
                    ),
                  ),
                ),
              ),
            ),
          )
    ]
  ]

  -- A file of the parameters ("bfloat16params") that was written with success: a later read of it with
  -- which the handler comes back passes the check of its checksum, where the first eight bytes of the
  -- data are those of the write again.
  pub parse_from_file_name-write_read :
      (file_name : Str) (size size' : ℕ) (s : LayerVecMap) (w w' w'' : World)
      (r : LayerVecMap × World) (at : ℕ × ℕ)
      → ((p : List Str × List Str)
          → split_file file_name ≡ some p
          → str_eq (part 4 p.0) params_word ≡ true)
      → parse_from_file_name data_at handler file_name 1 size s w ≡ some r
      → place_of file_name s ≡ some at
      → handler at.0 (if size' == 0 then at.1 else size') 0 w' ≡ some w''
      → take 8 (data_at w'') ≡ take 8 (data_at w)
      → (s' : LayerVecMap) × (parse_from_file_name data_at handler file_name 0 size' r.0 w'
          ≡ some (s', w''))
  unfolding parse_from_file_name
  parse_from_file_name-write_read file_name size size' s w w' w'' r at params wrote place reads
        back =
      elim (Option-cases (split_file file_name)) [
        | inl c ↦ absurd (ground (arith, c))
        | inr c ↦ elim (Option-cases (layer_of c.0.0 c.0.1 s)) [
          | inl c' ↦ absurd (ground (arith, c.1, c'))
          | inr c' ↦
              let path = c.0.0 in
              let names = c.0.1 in
              let key = part 0 names in
              let e = c'.0.0 in
              let here = params c.0 c.1 in
              let found =
                params_layer-find names s c'.0 (params_layer_of path names s c'.0 here c'.1) in
              let left =
                write_leaves path names size e c'.0.1 w r (ground (arith, c.1, c'.1))
                  (ap (λ k. find_layer k c'.0.1.layer_mgr) found.0 ∙ found.1) in
              let info : LayerInfoMgr = record e.1 { crc_mgr = left.1.1.0 } in
              let facts = left.1.1.1 in
              let there : get_lba_from_list names e.1 ≡ some at = ground (arith, c.1, c'.1) in
              let layer : find_layer key r.0.layer_mgr ≡ some info =
                ap (λ k. find_layer k r.0.layer_mgr) (sym found.0) ∙ facts.1.1.0 in
              let again =
                read_passes path names left.0 size' (key, info) at r.0 w' w'' facts.0
                  (same_place names e.1 left.1.1.0 ∙ there) reads
                  (facts.1.1.1 ∙ sym (first_eight (data_at w'') (data_at w) back)) in
              (again.0, ground (arith, c.1, of_params path names r.0 info here layer, again.1))
        ]
      ]
