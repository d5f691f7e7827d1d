-- ===== src/Phison/Tests.antt =====
-- Concrete runs of phison_version/nvme_transfer: the theorems at work.
use nvme_ioctl.Prelude.{
  ℕ, ◌+◌, ◌*◌, ◌%◌, ◌^◌, ◌∙◌, ◌<◌, ◌≡◌, inl, inr, refl, ap, true, Option, none, some, List, [], ◌∷◌,
  ◌++◌, take, arith, pos,
}
use nvme_ioctl.Transfer.Device.{Machine}
use nvme_ioctl.Transfer.Tests.{plain_device, plain_device-Behaves, plain_device_accepts}
use nvme_ioctl.Phison.{
  Str, str_eq, slash, dot, LayerInfoMgr, LayerVecMap, stoull, skip_spaces, signed_number, number,
  digits,
}
use nvme_ioctl.Phison.Names.{split_file}
use nvme_ioctl.Phison.Joins.{join_path, join_dashes, split_file-join_path}
use nvme_ioctl.Phison.Crc.{gen_crc_from_data}
use nvme_ioctl.Phison.Names.{split_path, find, find_from, split_name, split_dashes}
use nvme_ioctl.Phison.Crc.{crc_loop, update, update_loop, generate_table, rounds, round}
use nvme_ioctl.Phison.Layers.{
  get_temp_lba_mgr, lay_out, tensor_of, get_lba_from_list, lba_of, width_of, set_crc, clear_map,
  part, params_word, param16, param32,
}
use nvme_ioctl.Phison.Layers.Keys.{find_layer, insert_layer, change_layer}
use nvme_ioctl.Phison.Parse.{parse_from_file_name, layer_of, params_layer, access, operate}
use nvme_ioctl.Phison.Apart.{Disjoint}
use nvme_ioctl.Phison.Apart.Calls.{ModestFile, parse_from_file_name-Disjoint}
use nvme_ioctl.Phison.Passes.{place_of, parse_from_file_name-write_read}
use nvme_ioctl.Phison.Aio.{AioAsyncIo, LibAio, IoType, write, read, synchronize, sync_write_events}
use nvme_ioctl.Phison.Waiting.{Delivers, of_type, waited, synchronize-ends, sync_write_events-stuck}
use nvme_ioctl.Prelude.{zero, suc}
use nvme_ioctl.Phison.Handler.{
  nvme_operation_handler, num_buffers, map_buffers, submit_rounds, next_chunk, command, copy_back,
  copy, nvme_io,
}
use nvme_ioctl.Phison.Copies.{nvme_operation_handler-write}

-- "media", "user", "md4", "z3", "bfloat16params", "rank0"
abbrev dirs : List Str
dirs =
    (109 ∷ 101 ∷ 100 ∷ 105 ∷ 97 ∷ [])
    ∷ (117 ∷ 115 ∷ 101 ∷ 114 ∷ [])
    ∷ (109 ∷ 100 ∷ 52 ∷ [])
    ∷ (122 ∷ 51 ∷ [])
    ∷ (98 ∷ 102 ∷ 108 ∷ 111 ∷ 97 ∷ 116 ∷ 49 ∷ 54 ∷ 112 ∷ 97 ∷ 114 ∷ 97 ∷ 109 ∷ 115 ∷ [])
    ∷ (114 ∷ 97 ∷ 110 ∷ 107 ∷ 48 ∷ [])
    ∷ []

-- "0", and "4096", "param", "bfloat16"
abbrev layer : Str
layer = 48 ∷ []

abbrev rest : List Str
rest =
    (52 ∷ 48 ∷ 57 ∷ 54 ∷ [])
    ∷ (112 ∷ 97 ∷ 114 ∷ 97 ∷ 109 ∷ [])
    ∷ (98 ∷ 102 ∷ 108 ∷ 111 ∷ 97 ∷ 116 ∷ 49 ∷ 54 ∷ [])
    ∷ []

-- "tensor.swp"
abbrev ext : Str
ext = 116 ∷ 101 ∷ 110 ∷ 115 ∷ 111 ∷ 114 ∷ 46 ∷ 115 ∷ 119 ∷ 112 ∷ []

split_file-join_path_example :
    split_file (join_path dirs (slash ∷ join_dashes layer rest ++ dot ∷ ext))
    ≡ some (dirs, layer ∷ rest)
unfolding join_dashes
split_file-join_path_example =
    split_file-join_path dirs layer rest ext (ground arith) refl (ground arith) (ground arith)
      (ground arith) (ground arith) (inl refl)

abbrev eight_bytes : List ℕ
eight_bytes = 1 ∷ 2 ∷ 3 ∷ 4 ∷ 5 ∷ 6 ∷ 7 ∷ 8 ∷ []

abbrev fresh : Machine (ℕ → ℕ)
fresh = record { disk = λ k. 0; mem = λ a. a }

abbrev buffers : ℕ → Option ℕ
buffers i = some (67108864 + i * 2097152)

-- Two chunks.
nvme_operation_handler-write_example :
    (m' : Machine (ℕ → ℕ)) × ((nvme_operation_handler plain_device buffers true 0
          (2 * 2097152)
          1
          4096
          fresh
        ≡ some m')
      × ((i : ℕ)
          → i < 2 * 2097152
          → plain_device.byte m'.disk (0 * 512 + i) ≡ fresh.mem (4096 + i % 2097152)))
nvme_operation_handler-write_example =
    nvme_operation_handler-write plain_device plain_device-Behaves plain_device_accepts 4096 buffers
      2 0 fresh (omega arith) (omega arith)
      (λ i. (67108864 + i * 2097152, (refl, inr (omega arith))))

abbrev file : Str
file = join_path dirs (slash ∷ join_dashes layer rest ++ dot ∷ ext)

-- The data are the whole world, and the device brings them back.
abbrev data_at : List ℕ → List ℕ
data_at w = w

abbrev handler : ℕ → ℕ → ℕ → List ℕ → Option (List ℕ)
handler lba size op w = some w

abbrev written : LayerVecMap × List ℕ
written = elim (parse_from_file_name data_at handler file 1 0 clear_map eight_bytes) [
  | none ↦ (clear_map, [])
  | some r ↦ r
]

parts_lem : (r : List Str × List Str) → split_file file ≡ some r → r ≡ (dirs, layer ∷ rest)
unfolding split_file split_path find find_from split_name split_dashes join_path join_dashes
parts_lem r h = ground arith

count_lem : stoull (part 1 (layer ∷ rest)) ≡ some 4096
unfolding stoull signed_number number digits skip_spaces
count_lem = refl

modest : ModestFile data_at handler file
modest r h n e =
    let same : stoull (part 1 r.1) ≡ some 4096 =
      ap (λ (x : List Str × List Str). stoull (part 1 x.1)) (parts_lem r h) ∙ count_lem in
    let count : n ≡ 4096 = ground (arith, same, e) in omega (arith, count)

wrote : parse_from_file_name data_at handler file 1 0 clear_map eight_bytes ≡ some written
unfolding parse_from_file_name split_file split_path find find_from split_name split_dashes layer_of
    params_layer find_layer get_temp_lba_mgr stoull signed_number number digits skip_spaces lay_out
    insert_layer access tensor_of get_lba_from_list lba_of width_of operate gen_crc_from_data
    crc_loop update update_loop generate_table rounds round set_crc change_layer join_path
    join_dashes clear_map
wrote = refl

start_room : (clear_map).alloc_lba_offset < 2 ^ 63
unfolding clear_map
start_room = omega arith

nothing_yet : Disjoint (clear_map).alloc_lba_offset (clear_map).layer_mgr
unfolding clear_map
nothing_yet = record { laid = tt; apart = tt }

parse_from_file_name-Disjoint_example : Disjoint written.0.alloc_lba_offset written.0.layer_mgr
parse_from_file_name-Disjoint_example =
    parse_from_file_name-Disjoint data_at handler file 1 0 clear_map eight_bytes written wrote
      modest start_room nothing_yet

-- The layer manager on top of nvme_operation_handler(), with the data at 4096.
abbrev data_in : Machine (ℕ → ℕ) → List ℕ
data_in m =
    m.mem 4096
    ∷ m.mem 4097
    ∷ m.mem 4098
    ∷ m.mem 4099
    ∷ m.mem 4100
    ∷ m.mem 4101
    ∷ m.mem 4102
    ∷ m.mem 4103
    ∷ []

abbrev chunks : ℕ → ℕ → ℕ → Machine (ℕ → ℕ) → Option (Machine (ℕ → ℕ))
chunks lba size op m = nvme_operation_handler plain_device buffers true lba size op 4096 m

abbrev start : Machine (ℕ → ℕ)
start = record { disk = λ k. 0; mem = λ a. a % 251 }

abbrev after_write : LayerVecMap × Machine (ℕ → ℕ)
after_write = elim (parse_from_file_name data_in chunks file 1 2097152 clear_map start) [
  | none ↦ (clear_map, start)
  | some r ↦ r
]

-- The buffer is cleared, and the tensor is read again.
abbrev cleared : Machine (ℕ → ℕ)
cleared = record (after_write.1) { mem = λ a. 0 }

abbrev after_read : Machine (ℕ → ℕ)
after_read = elim (chunks 0 2097152 0 cleared) [ none ↦ start | some m ↦ m ]

chunk_wrote : parse_from_file_name data_in chunks file 1 2097152 clear_map start ≡ some after_write
unfolding parse_from_file_name split_file split_path find find_from split_name split_dashes layer_of
    params_layer find_layer get_temp_lba_mgr stoull signed_number number digits skip_spaces lay_out
    insert_layer access tensor_of get_lba_from_list lba_of width_of operate gen_crc_from_data
    crc_loop update update_loop generate_table rounds round set_crc change_layer join_path
    join_dashes clear_map nvme_operation_handler num_buffers map_buffers submit_rounds next_chunk
    command copy_back copy nvme_io
chunk_wrote = refl

chunk_read : chunks 0 2097152 0 cleared ≡ some after_read
unfolding nvme_operation_handler num_buffers map_buffers submit_rounds next_chunk command copy_back
    copy nvme_io
chunk_read = refl

chunk_place : place_of file clear_map ≡ some (0, 8192)
unfolding split_file split_path find find_from split_name split_dashes layer_of params_layer
    find_layer get_temp_lba_mgr stoull signed_number number digits skip_spaces lay_out insert_layer
    tensor_of get_lba_from_list lba_of width_of join_path join_dashes clear_map
chunk_place = refl

brought_back : take 8 (data_in after_read) ≡ take 8 (data_in start)
unfolding parse_from_file_name split_file split_path find find_from split_name split_dashes layer_of
    params_layer find_layer get_temp_lba_mgr stoull signed_number number digits skip_spaces lay_out
    insert_layer access tensor_of get_lba_from_list lba_of width_of operate set_crc change_layer
    join_path join_dashes clear_map nvme_operation_handler num_buffers map_buffers submit_rounds
    next_chunk command copy_back copy nvme_io
brought_back = refl

parse_from_file_name-write_read_example :
    (s' : LayerVecMap) × (parse_from_file_name data_in chunks file 0 2097152 after_write.0 cleared
      ≡ some (s', after_read))
parse_from_file_name-write_read_example =
    parse_from_file_name-write_read data_in chunks file 2097152 2097152 clear_map start cleared
      after_read after_write (0, 8192)
      (λ p h. ap (λ (x : List Str × List Str). str_eq (part 4 x.0) params_word) (parts_lem p h))
      chunk_wrote chunk_place chunk_read brought_back

-- Two tensors of the layer that was laid out.
abbrev laid_out : LayerInfoMgr
laid_out = record {
  param_num = 52 ∷ 48 ∷ 57 ∷ 54 ∷ [];
  hash_id = [];
  lba_mgr = record {
    param16 = 0;
    param32 = 24;
    gradient32 = 64;
    momentum32 = 104;
    variance32 = 144;
  };
  crc_mgr = record { param16 = 0; param32 = 0; gradient32 = 0; momentum32 = 0; variance32 = 0 };
}

-- "0", "4096", "param", "float32"
abbrev names32 : List Str
names32 =
    layer
    ∷ (52 ∷ 48 ∷ 57 ∷ 54 ∷ [])
    ∷ (112 ∷ 97 ∷ 114 ∷ 97 ∷ 109 ∷ [])
    ∷ (102 ∷ 108 ∷ 111 ∷ 97 ∷ 116 ∷ 51 ∷ 50 ∷ [])
    ∷ []

-- A libaio that delivers one operation a call: a context is the list of those to come.
abbrev queue_lib : LibAio
queue_lib = record {
  Context = List IoType;
  io_submit = λ t c. t ∷ c;
  io_getevents = λ lo hi c. elim hi [
    | zero ↦ ([], c)
    | suc n ↦ elim c [ [] ↦ ([], []) | t ∷ r ↦ (t ∷ [], r) ]
  ];
}

delivered :
    (hi : ℕ) (c : List IoType) (t : IoType)
    → of_type t c
      ≡ of_type t (queue_lib.io_getevents 1 hi c).0 + of_type t (queue_lib.io_getevents 1 hi c).1
delivered zero c write = omega arith
delivered zero c read = omega arith
delivered (suc n) [] write = omega arith
delivered (suc n) [] read = omega arith
delivered (suc n) (write ∷ c) write = omega arith
delivered (suc n) (write ∷ c) read = omega arith
delivered (suc n) (read ∷ c) write = omega arith
delivered (suc n) (read ∷ c) read = omega arith

some_come :
    (hi : ℕ) (c : List IoType)
    → 0 < hi
    → 0 < of_type write c + of_type read c
    → (k : ℕ) × (e : IoType) × (l : List IoType) × ((queue_lib.io_getevents 1 hi
          (waited queue_lib hi k c)).0
        ≡ e ∷ l)
some_come zero c p q = absurd (omega arith)
some_come (suc n) [] p q = absurd (omega arith)
some_come (suc n) (t ∷ c) p q = (0, t, [], refl)

abbrev queue_delivers : Delivers queue_lib
queue_delivers = record {
  pending = λ t c. of_type t c;
  events_lem = λ lo hi c t. delivered hi c t;
  arrives = λ hi c. some_come hi c;
}

-- Two operations.
abbrev two_pending : AioAsyncIo (List IoType)
two_pending = record {
  io_ctx = write ∷ read ∷ [];
  n_write_events = pos 1;
  n_read_events = pos 1;
  max_nr = 32;
  called = [];
}

synchronize-ends_example :
    (fuel : ℕ) × ((a' : AioAsyncIo (List IoType)) × ((synchronize queue_lib fuel two_pending
          ≡ some a')
        × ((a'.n_write_events ≡ pos 0) × (a'.n_read_events ≡ pos 0))))
synchronize-ends_example =
    synchronize-ends queue_delivers two_pending (record { write_lem = refl; read_lem = refl })
      (omega arith)

-- A write that libaio has refused.
abbrev one_lost : AioAsyncIo (List IoType)
one_lost = record {
  io_ctx = [];
  n_write_events = pos 1;
  n_read_events = pos 0;
  max_nr = 32;
  called = [];
}

sync_write_events-stuck_example : sync_write_events queue_lib 1000 one_lost ≡ none
sync_write_events-stuck_example = sync_write_events-stuck queue_delivers 1000 0 one_lost refl
