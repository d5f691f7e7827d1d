-- ===== src/Phison/Layers/Keys.antt =====
-- std::map<string, layerInfoMgr> in phison_version/nvme_transfer/layer_manager.cpp.
use nvme_ioctl.Prelude.{Option, none, some, List, [], ◌∷◌, if◌then◌else◌}
use nvme_ioctl.Phison.{Str, str_eq, str_less, LayerInfoMgr}

abbrev pub Entry : Type 0
Entry = Str × LayerInfoMgr

unfoldable pub find_layer : Str → List Entry → Option LayerInfoMgr
find_layer key [] = none
find_layer key (e ∷ m) = if str_eq e.0 key then some e.1 else find_layer key m

-- insert() of a key that is not there.
unfoldable pub insert_layer : Str → LayerInfoMgr → List Entry → List Entry
insert_layer key info [] = (key, info) ∷ []
insert_layer key info (e ∷ m) =
    if str_less key e.0 then (key, info) ∷ e ∷ m else e ∷ insert_layer key info m

-- An assignment through the iterator of a key.
unfoldable pub change_layer : Str → (LayerInfoMgr → LayerInfoMgr) → List Entry → List Entry
change_layer key f [] = []
change_layer key f (e ∷ m) = if str_eq e.0 key then (e.0, f e.1) ∷ m else e ∷ change_layer key f m

-- The first entry with a hash, in the order of the keys.
unfoldable pub find_hash : Str → List Entry → Option Entry
find_hash hash [] = none
find_hash hash (e ∷ m) = if str_eq e.1.hash_id hash then some e else find_hash hash m
