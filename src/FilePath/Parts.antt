-- ===== src/FilePath/Parts.antt =====
-- join(), resolve(), dirname(), basename() and extname() (src/path.cpp).
use mathlib.Core.List.{reverse}
use libnode.Base.{
  ℕ, ◌-◌, Bool, true, false, Option, none, some, List, [], ◌∷◌, ◌++◌, codes, length, take,
  if◌then◌else◌, ◌==◌, ◌>>=◌,
}
use libnode.Net.Socket.State.{Bytes}
use libnode.FilePath.Normalize.{sep, is_sep, current, split_first, normalize_path}

-- The loop of trimSeps(), which goes from the end, on the reversed text.
unfoldable pub drop_seps : Bytes → Bytes
drop_seps [] = []
drop_seps (c ∷ cs) = if is_sep c then drop_seps cs else c ∷ cs

-- `str->substring(0, i + 1)`, or the first character if all are separators.
abbrev pub or_first : Bytes → Bytes → Bytes
or_first str [] = take 1 str
or_first str (c ∷ cs) = reverse (c ∷ cs)

unfoldable pub trim_seps : Bytes → Bytes
trim_seps str = or_first str (drop_seps (reverse str))

-- What stands behind the last separator; without one it is all.
unfoldable pub basename_of : Bytes → Bytes
basename_of path = reverse (split_first (reverse path)).0

unfoldable pub basename : Option Bytes → Bytes
basename none = codes "null"
basename (some path) = basename_of (trim_seps path)

abbrev pub dirname_at : ℕ → Bytes → Bytes
dirname_at base_len path =
    let sep_pos = length path - base_len - 1 in
    if base_len == length path
    then current
    else if sep_pos == 0
    then take 1 path
    else take sep_pos path

unfoldable pub dirname_of : Bytes → Bytes
dirname_of path = dirname_at (length (basename (some path))) path

unfoldable pub dirname : Option Bytes → Bytes
dirname none = current
dirname (some path) = dirname_of (trim_seps path)

-- What stands behind the last dot of a reversed text, and whether there is one.
unfoldable pub split_dot : Bytes → Bytes × Bool
split_dot [] = ([], false)
split_dot (c ∷ cs) = if c == 46 then ([], true) else (c ∷ (split_dot cs).0, (split_dot cs).1)

abbrev extension : Bytes → Bytes
extension base =
    if (split_dot (reverse base)).1 then 46 ∷ reverse (split_dot (reverse base)).0 else []

abbrev not_hidden : Bytes → Bytes
not_hidden [] = []
not_hidden (c ∷ cs) = if c == 46 then [] else extension (c ∷ cs)

unfoldable pub extname : Option Bytes → Bytes
extname none = []
extname (some path) = not_hidden (basename (some path))

-- The paths that are texts, with separators between them.
abbrev pub join_rest : List (Option Bytes) → Bytes
join_rest [] = []
join_rest (none ∷ ps) = join_rest ps
join_rest (some p ∷ ps) = sep ∷ (p ++ join_rest ps)

unfoldable pub join_paths : List (Option Bytes) → Bytes
join_paths [] = []
join_paths (none ∷ ps) = join_paths ps
join_paths (some p ∷ ps) = p ++ join_rest ps

unfoldable pub join : Option (List (Option Bytes)) → Option Bytes
join none = some current
join (some paths) = normalize_path (join_paths paths)

-- A path that is absolute begins anew; an empty one is left out.
unfoldable pub resolve_one : Bytes → Bytes → Bytes
resolve_one resolved [] = resolved
resolve_one resolved (c ∷ cs) = if is_sep c then c ∷ cs else resolved ++ (sep ∷ c ∷ cs)

unfoldable pub resolve_all : Bytes → List (Option Bytes) → Bytes
resolve_all resolved [] = resolved
resolve_all resolved (none ∷ ps) = resolve_all resolved ps
resolve_all resolved (some p ∷ ps) = resolve_all (resolve_one resolved p) ps

-- resolve() in the directory that getcwd() gives.
unfoldable pub resolve : Option Bytes → Option (List (Option Bytes)) → Option Bytes
resolve none paths = none
resolve (some dir) none = some dir
resolve (some dir) (some paths) = normalize_path (resolve_all dir paths) >>= λ p. some (trim_seps p)

unfoldable pub relative : Option Bytes → Option Bytes → Bytes
relative from to = []
