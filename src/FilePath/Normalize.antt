-- ===== src/FilePath/Normalize.antt =====
-- normalize() (src/path.cpp).
use mathlib.Core.List.{reverse}
use libnode.Base.{
  ℕ, zero, suc, Bool, true, false, ◌&&◌, ◌||◌, Option, none, some, List, [], ◌∷◌, ◌++◌, codes,
  length, if◌then◌else◌, ◌==◌,
}
use libnode.Net.Socket.State.{Bytes}
use libnode.Http.Message.Head.{text_eq}

abbrev pub sep : ℕ
sep = 47

abbrev pub is_sep : ℕ → Bool
is_sep c = c == sep

abbrev pub current : Bytes
current = codes "."

abbrev pub parent : Bytes
parent = codes ".."

abbrev pub cons_piece : ℕ → Bytes × Option Bytes → Bytes × Option Bytes
cons_piece c (piece, rest) = (c ∷ piece, rest)

-- What stands before the first separator, and what stands behind it if there is one.
unfoldable pub split_first : Bytes → Bytes × Option Bytes
split_first [] = ([], none)
split_first (c ∷ cs) = if is_sep c then ([], some cs) else cons_piece c (split_first cs)

-- `dirs`, the last one first: ".." takes a name away, "." is left out.
unfoldable pub add_parent : List Bytes → List Bytes
add_parent [] = parent ∷ []
add_parent (d ∷ dirs) = if text_eq d parent then parent ∷ d ∷ dirs else dirs

unfoldable pub push_dir : Bytes → List Bytes → List Bytes
push_dir [] dirs = dirs
push_dir (c ∷ cs) dirs =
    if text_eq (c ∷ cs) parent
    then add_parent dirs
    else if text_eq (c ∷ cs) current
    then dirs
    else (c ∷ cs) ∷ dirs

-- The variables of the loop.
pub record Scan : Type 0 where
  pub absolute : Bool
  pub ends_with_sep : Bool
  pub dirs : List Bytes

abbrev pub is_some_rest : Option Bytes → Bool
is_some_rest none = false
is_some_rest (some rest) = true

abbrev pub is_none_piece : Bytes → Bool
is_none_piece [] = true
is_none_piece (c ∷ cs) = false

-- One round of the loop, where `start` says that it begins at 0: a separator at 0 makes the path
-- absolute, and an empty piece elsewhere is skipped.
unfoldable pub visit : Bool → Bytes → Option Bytes → Scan → Scan
visit start piece rest s = record {
  absolute = s.absolute || (start && (is_none_piece piece && is_some_rest rest));
  ends_with_sep = is_some_rest rest;
  dirs = push_dir piece s.dirs;
}

-- The loop on the rest of the path; each round takes at least one character of it, so that the
-- length of the path is fuel enough.
unfoldable pub scan : ℕ → Bool → Bytes → Scan → Option Scan
scan fuel start [] s = some s
scan zero start (c ∷ cs) s = none
scan (suc fuel) start (c ∷ cs) s =
    let round = visit start (split_first (c ∷ cs)).0 (split_first (c ∷ cs)).1 s in
    elim (split_first (c ∷ cs)).1 [ none ↦ some round | some rest ↦ scan fuel false rest round ]

unfoldable pub join_dirs : List Bytes → Bytes
join_dirs [] = []
join_dirs (d ∷ []) = d
join_dirs (d ∷ e ∷ dirs) = d ++ (sep ∷ join_dirs (e ∷ dirs))

abbrev pub or_current : Bytes → Bytes
or_current [] = current
or_current (c ∷ cs) = c ∷ cs

abbrev pub has_dirs : List Bytes → Bool
has_dirs [] = false
has_dirs (d ∷ dirs) = true

-- The text of the result.
unfoldable pub render : Scan → Bytes
render s = or_current (
    (if s.absolute then sep ∷ [] else [])
    ++ (join_dirs (reverse s.dirs)
        ++ (if has_dirs s.dirs && s.ends_with_sep then sep ∷ [] else [])))

abbrev pub begin : Scan
begin = record { absolute = false; ends_with_sep = false; dirs = [] }

abbrev pub render_scan : Option Scan → Option Bytes
render_scan none = none
render_scan (some s) = some (render s)

-- normalize(), null being the text "null"; `none` is the loop out of fuel.
unfoldable pub normalize_path : Bytes → Option Bytes
normalize_path path = render_scan (scan (length path) true path begin)
