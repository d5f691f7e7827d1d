-- ===== src/Phison/Joins.antt =====
-- phison_version/nvme_transfer/layer_manager.cpp: paths put together from their parts.
use nvme_ioctl.Prelude.{
  ℕ, zero, suc, ◌+◌, ◌-◌, ◌≡◌, refl, ◌∙◌, ap, ◌≤◌, ◌<◌, false, none, some, List, [], ◌∷◌, ◌++◌,
  length, take, drop, All, arith, ◌⊎◌, ◌==◌, drop-append, length-append,
}
use nvme_ioctl.Phison.{Str, slash, dot, dash}
use nvme_ioctl.Phison.Names.{
  find, find_from, split_path, parts_of, split_dashes, split_name, split_file,
}

-- A string without a character.
abbrev pub Free : ℕ → Str → Type 0
Free c s = All (λ d. (d == c) ≡ false) s

find-append : (c : ℕ) (p s : Str) → Free c p → find c (p ++ c ∷ s) ≡ some (length p)
unfolding find
find-append c [] s h = ground arith
find-append c (d ∷ p) s h = ground (arith, h.0, find-append c p s h.1)

find-none : (c : ℕ) (p : Str) → Free c p → find c p ≡ none
unfolding find
find-none c [] h = refl
find-none c (d ∷ p) h = ground (arith, h.0, find-none c p h.1)

take-append : (p s : Str) → take (length p) (p ++ s) ≡ p
take-append [] s = refl
take-append (c ∷ p) s = ap (λ r. c ∷ r) (take-append p s)

drop_behind : (p s : Str) (c : ℕ) → drop (length p + 1) (p ++ c ∷ s) ≡ s
drop_behind p s c = drop-append p (c ∷ s) 1 (length p + 1) refl

-- The parts behind a slash each.
unfoldable pub join_path : List Str → Str → Str
join_path [] rest = rest
join_path (p ∷ ps) rest = slash ∷ p ++ join_path ps rest

-- The parts with a dash between any two.
unfoldable pub join_dashes : Str → List Str → Str
join_dashes p [] = p
join_dashes p (q ∷ qs) = p ++ dash ∷ join_dashes q qs

split_path-round :
    (fuel : ℕ) (p tail : Str)
    → Free slash p
    → split_path (suc fuel) (slash ∷ p ++ slash ∷ tail)
      ≡ (p ∷ (split_path fuel (slash ∷ tail)).0, (split_path fuel (slash ∷ tail)).1)
unfolding split_path find find_from
split_path-round fuel p tail h =
    let at = find-append slash p tail h in
    let count : 1 + length p - 1 ≡ length p = omega arith in
    let next : 1 + length p ≡ suc (length p) = omega arith in
    let info : take (length p) (p ++ slash ∷ tail) ≡ p = take-append p (slash ∷ tail) in
    let rest : drop (length p) (p ++ slash ∷ tail) ≡ slash ∷ tail =
      drop-append p (slash ∷ tail) 0 (length p) (omega arith) in
    ground (arith, at, count, info, rest, next)

split_path-join_path :
    (ps : List Str) (name : Str) (fuel : ℕ)
    → length ps ≤ fuel
    → All (Free slash) ps
    → Free slash name
    → split_path fuel (join_path ps (slash ∷ name)) ≡ (ps, slash ∷ name)
unfolding split_path find find_from join_path
split_path-join_path [] name zero f hs h = refl
split_path-join_path [] name (suc fuel) f hs h = ground (arith, find-none slash name h)
split_path-join_path (p ∷ ps) name zero f hs h = absurd (omega arith)
split_path-join_path (p ∷ []) name (suc fuel) f hs h =
    split_path-round fuel p name hs.0
    ∙ ap (λ (r : List Str × Str). (p ∷ r.0, r.1))
        (split_path-join_path [] name fuel (omega arith) tt h)
split_path-join_path (p ∷ q ∷ qs) name (suc fuel) f hs h =
    split_path-round fuel p (q ++ join_path qs (slash ∷ name)) hs.0
    ∙ ap (λ (r : List Str × Str). (p ∷ r.0, r.1))
        (split_path-join_path (q ∷ qs) name fuel (omega arith) hs.1 h)

-- A part of a name.
abbrev pub Part : Str → Type 0
Part p = Free dash p × (0 < length p)

parts_of-Part : (p : Str) → 0 < length p → parts_of p ≡ p ∷ []
parts_of-Part [] h = absurd (omega arith)
parts_of-Part (c ∷ p) h = refl

split_dashes-join_dashes :
    (p : Str) (ps : List Str) (fuel : ℕ)
    → length ps ≤ fuel
    → Part p
    → All Part ps
    → split_dashes fuel (join_dashes p ps) ≡ p ∷ ps
unfolding split_dashes join_dashes
split_dashes-join_dashes p [] zero f h hs = parts_of-Part p h.1
split_dashes-join_dashes p [] (suc fuel) f h hs =
    ground (arith, find-none dash p h.0, parts_of-Part p h.1)
split_dashes-join_dashes p (q ∷ qs) zero f h hs = absurd (omega arith)
split_dashes-join_dashes p (q ∷ qs) (suc fuel) f h hs =
    let rest = join_dashes q qs in
    let at = find-append dash p rest h.0 in
    let front : take (length p) (p ++ dash ∷ rest) ≡ p = take-append p (dash ∷ rest) in
    let back : drop (length p + 1) (p ++ dash ∷ rest) ≡ rest = drop_behind p rest dash in
    ground (
      arith,
      at,
      front,
      back,
      parts_of-Part p h.1,
      split_dashes-join_dashes q qs fuel (omega arith) hs.0 hs.1,
    )

join_dashes-length : (p : Str) (ps : List Str) → length ps ≤ length (join_dashes p ps)
unfolding join_dashes
join_dashes-length p [] = omega arith
join_dashes-length p (q ∷ qs) =
    omega (arith, length-append p (dash ∷ join_dashes q qs), join_dashes-length q qs)

split_name-join_dashes :
    (p : Str) (ps : List Str) (ext : Str)
    → Part p
    → All Part ps
    → Free dot (join_dashes p ps)
    → split_name (slash ∷ join_dashes p ps ++ dot ∷ ext) ≡ p ∷ ps
unfolding split_name find
split_name-join_dashes p ps ext h hs free =
    let info = join_dashes p ps in
    let at = find-append dot info ext free in
    let front : take (length info) (info ++ dot ∷ ext) ≡ info = take-append info (dot ∷ ext) in
    let size : length ps ≤ length (info ++ dot ∷ ext) =
      omega (arith, length-append info (dot ∷ ext), join_dashes-length p ps) in
    ground (arith, at, front, split_dashes-join_dashes p ps (length (info ++ dot ∷ ext)) size h hs)

join_path-length : (ps : List Str) (rest : Str) → length ps ≤ length (join_path ps rest)
unfolding join_path
join_path-length [] rest = omega arith
join_path-length (p ∷ ps) rest =
    omega (arith, length-append p (join_path ps rest), join_path-length ps rest)

-- A path of six directories without slashes, and a name of four or five parts with a dash between
-- any two, neither a part nor the extension with a slash, and the parts without dots and dashes and
-- not empty: the parts are found again, whatever the extension is.
pub split_file-join_path :
    (dirs : List Str) (p : Str) (ps : List Str) (ext : Str)
    → All (Free slash) dirs
    → length dirs ≡ 6
    → Part p
    → All Part ps
    → Free dot (join_dashes p ps)
    → Free slash (join_dashes p ps ++ dot ∷ ext)
    → (length ps ≡ 3) ⊎ (length ps ≡ 4)
    → split_file (join_path dirs (slash ∷ join_dashes p ps ++ dot ∷ ext)) ≡ some (dirs, p ∷ ps)
unfolding split_file
split_file-join_path dirs p ps ext free six h hs dotless slashless count =
    let name = join_dashes p ps ++ dot ∷ ext in
    let path = join_path dirs (slash ∷ name) in
    ground (
      arith,
      split_path-join_path dirs name (length path) (join_path-length dirs (slash ∷ name)) free
          slashless,
      split_name-join_dashes p ps ext h hs dotless,
    )
