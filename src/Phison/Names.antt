-- ===== src/Phison/Names.antt =====
-- phison_version/nvme_transfer/layer_manager.cpp: the path and the name of a file in parts, which is
-- how parsefromFileName() starts.
use nvme_ioctl.Prelude.{
  ℕ, zero, suc, ◌+◌, ◌-◌, ◌&&◌, Option, none, some, List, [], ◌∷◌, ◌++◌, length, take, drop, ◌==◌,
  leb, if◌then◌else◌,
}
use mathlib.Core.Option
use nvme_ioctl.Phison.{Str, slash, dot, dash}

-- std::string: find(c), find(c, from), substr(from) and substr(from, count)
unfoldable pub find : ℕ → Str → Option ℕ
find c [] = none
find c (d ∷ s) = if d == c then some 0 else Option.map suc (find c s)

unfoldable pub find_from : ℕ → ℕ → Str → Option ℕ
find_from c from s = Option.map (λ k. from + k) (find c (drop from s))

abbrev pub substr : ℕ → ℕ → Str → Str
substr from count s = take count (drop from s)

-- STEP1, the loop over the slashes, on fuel: the directories, and what is left of the path. A round
-- that goes on drops a character or more.
unfoldable pub split_path : ℕ → Str → List Str × Str
split_path zero file_path = ([], file_path)
split_path (suc fuel) file_path = elim (find slash file_path) [
  | none ↦ ([], file_path)
  | some slash_pos ↦ elim (find_from slash (slash_pos + 1) file_path) [
    | none ↦ ([], file_path)
    | some next_slash_pos ↦
        let info = substr (slash_pos + 1) (next_slash_pos - 1) file_path in
        let more = split_path fuel (drop next_slash_pos file_path) in (info ∷ more.0, more.1)
  ]
]

-- `if (!info.empty()) push_back(info)`
abbrev pub parts_of : Str → List Str
parts_of [] = []
parts_of (c ∷ s) = (c ∷ s) ∷ []

-- STEP2, the loop over the dashes and the part behind it, on fuel.
unfoldable pub split_dashes : ℕ → Str → List Str
split_dashes zero info = parts_of info
split_dashes (suc fuel) info = elim (find dash info) [
  | none ↦ parts_of info
  | some first_dash_pos ↦
      parts_of (take first_dash_pos info) ++ split_dashes fuel (drop (first_dash_pos + 1) info)
]

unfoldable pub split_name : Str → List Str
split_name file_path = elim (find slash file_path) [
  | none ↦ []
  | some slash_pos ↦
      let info = drop (slash_pos + 1) file_path in
      elim (find dot info) [
        | none ↦ parts_of info
        | some first_dot_pos ↦ split_dashes (length info) (take first_dot_pos info)
      ]
]

-- The two vectors for a path, where the assertions let them through.
unfoldable pub split_file : Str → Option (List Str × List Str)
split_file file_name =
    let (file_path_split, file_path) = split_path (length file_name) file_name in
    let file_name_split = split_name file_path in
    if length file_path_split == 6
      && (leb 4 (length file_name_split) && leb (length file_name_split) 5)
    then some (file_path_split, file_name_split)
    else none
