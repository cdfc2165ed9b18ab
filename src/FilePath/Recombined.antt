-- ===== src/FilePath/Recombined.antt =====
-- dirname() and basename() of a path, put together.
use libnode.Base.{◌≡◌, ◌⊎◌, false, Option, none, some, [], ◌∷◌, ◌++◌, ◌||◌, Bool, codes}
use libnode.Net.Socket.State.{Bytes}
use libnode.FilePath.Normalize.{sep, is_sep, current}

-- A text is its first piece, and what comes behind the separator if there is one.
whole : Bytes × Option Bytes → Bytes
whole (p, none) = p
whole (p, some rest) = p ++ (sep ∷ rest)

-- Whether a text has a separator.
abbrev pub has_sep : Bytes → Bool
has_sep [] = false
has_sep (c ∷ cs) = is_sep c || has_sep cs

-- The ways in which a directory and a base name, which has no separator, make a path.
abbrev Parted : Bytes → Bytes → Bytes → Type 0
Parted t d b = ((b ≡ t) × (d ≡ current)) ⊎ ((t ≡ d ++ (sep ∷ b)) ⊎ ((d ≡ sep ∷ []) × (t ≡ sep ∷ b)))

abbrev pub Recombined : Bytes → Bytes → Bytes → Type 0
Recombined t d b =
    (has_sep b ≡ false)
    × (((b ≡ t) × (d ≡ codes ".")) ⊎ ((t ≡ d ++ (47 ∷ b)) ⊎ ((d ≡ 47 ∷ []) × (t ≡ 47 ∷ b))))
