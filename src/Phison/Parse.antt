-- ===== src/Phison/Parse.antt =====
-- phison_version/nvme_transfer/layer_manager.cpp: parsefromFileName(), with `returnLBAonly` 0 and
-- METHOD_IOCTL. Nothing is returned where an assertion fails, where stoull() throws, or where the
-- code reads what nobody has set.
use nvme_ioctl.Prelude.{ℕ, Option, none, some, List, ltb, ◌==◌, if◌then◌else◌}
use mathlib.Core.Option
use nvme_ioctl.Phison.{Str, str_eq, stoull, LayerInfoMgr, LayerVecMap, max_layer_size}
use nvme_ioctl.Phison.Names.{split_file}
use nvme_ioctl.Phison.Crc.{gen_crc_from_data}
use nvme_ioctl.Phison.Layers.{
  Tensor, params_word, optimizer_word, no_hash, part, tensor_of, get_lba_from_list,
  get_temp_lba_mgr, crc_of, set_crc,
}
use nvme_ioctl.Phison.Layers.Keys.{Entry, find_layer, insert_layer, change_layer, find_hash}

-- STEP3 for "bfloat16params": the layer of the name, which comes in where it is new.
unfoldable pub params_layer : List Str → LayerVecMap → Option (Entry × LayerVecMap)
params_layer names s =
    let key = part 0 names in
    elim (find_layer key s.layer_mgr) [
      | some info ↦ some ((key, info), s)
      | none ↦ elim (get_temp_lba_mgr names s.alloc_lba_offset) [
        | none ↦ none
        | some (lba_mgr, offset) ↦
            let info : LayerInfoMgr = record {
              param_num = part 1 names;
              hash_id = no_hash;
              lba_mgr = lba_mgr;
              crc_mgr = record {
                param16 = 0;
                param32 = 0;
                gradient32 = 0;
                momentum32 = 0;
                variance32 = 0;
              };
            } in
            some (
              (key, info),
              record s { layer_mgr = insert_layer key info s.layer_mgr; alloc_lba_offset = offset },
            )
      ]
    ]

-- The link of STEP3 to the layer that was read before: what becomes of the map.
unfoldable pub link_layer : List Str → LayerVecMap → Option (List Entry)
link_layer names s =
    let prev = s.prev_operation_mgr in
    let key = part 0 prev.file_name_split in
    let linked = change_layer key (λ info. record info { hash_id = part 0 names }) s.layer_mgr in
    if prev.op == 0
    then elim (stoull key) [
      | none ↦ none
      | some layer ↦
          if ltb layer max_layer_size
          then elim (find_layer key s.layer_mgr) [
            | none ↦ none
            | some info ↦
                if str_eq info.hash_id no_hash
                then if str_eq (part 1 prev.file_name_split) (part 1 names)
                  then some linked
                  else none
                else some s.layer_mgr
          ]
          else some s.layer_mgr
    ]
    else some s.layer_mgr

-- STEP3 for "optimizer": the layer with the hash of the name.
unfoldable pub optimizer_layer : List Str → LayerVecMap → Option (Entry × LayerVecMap)
optimizer_layer names s = elim (link_layer names s) [
  | none ↦ none
  | some m ↦ Option.map (λ e. (e, record s { layer_mgr = m })) (find_hash (part 0 names) m)
]

-- STEP3. Where the fifth directory is neither, `tempLayerInfoMgr` is never set.
unfoldable pub layer_of : List Str → List Str → LayerVecMap → Option (Entry × LayerVecMap)
layer_of path names s =
    if str_eq (part 4 path) params_word
    then params_layer names s
    else if str_eq (part 4 path) optimizer_word
    then optimizer_layer names s
    else none

-- The rest works on the memory and the device, `World`: `data` are the bytes at the pointer, and
-- `handler` is nvme_operation_handler(), which returns 0 or fails an assertion.
module _ {World : Type 0} (data_at : World → List ℕ)
    (handler : ℕ → ℕ → ℕ → World → Option World) where
  -- STEP4 to STEP7 for a layer, a block and a size.
  unfoldable pub operate :
      ℕ → Tensor → Entry → ℕ → ℕ → LayerVecMap → World → Option (LayerVecMap × World)
  operate op t e lba size s w =
      let crc = gen_crc_from_data (data_at w) in
      let store : LayerInfoMgr → LayerInfoMgr =
        λ info. record info { crc_mgr = set_crc t crc info.crc_mgr } in
      let s' = if op == 1 then record s { layer_mgr = change_layer e.0 store s.layer_mgr } else s in
      elim (handler lba size op w) [
        | none ↦ none
        | some w' ↦
            if op == 0
            then if crc_of t e.1.crc_mgr == gen_crc_from_data (data_at w')
              then some (s', w')
              else none
            else some (s', w')
      ]

  -- STEP4 and STEP5 for the layer that was found, and what follows; a `size` of 0 stands for the
  -- size of the tensor.
  unfoldable pub access :
      List Str → List Str → ℕ → ℕ → Entry → LayerVecMap → World → Option (LayerVecMap × World)
  access path names op size e s w =
      let s' = record s {
        prev_operation_mgr = record { file_path_split = path; file_name_split = names; op = op };
      } in
      elim (tensor_of names) [
        | none ↦ none
        | some t ↦ elim (get_lba_from_list names e.1) [
          | none ↦ none
          | some (lba, map_size) ↦ operate op t e lba (if size == 0 then map_size else size) s' w
        ]
      ]

  -- parsefromFileName()
  unfoldable pub parse_from_file_name :
      Str → ℕ → ℕ → LayerVecMap → World → Option (LayerVecMap × World)
  parse_from_file_name file_name op size s w = elim (split_file file_name) [
    | none ↦ none
    | some (path, names) ↦ elim (layer_of path names s) [
      | none ↦ none
      | some (e, s') ↦ access path names op size e s' w
    ]
  ]
