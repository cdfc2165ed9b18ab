-- ===== src/FilePath/Joined.antt =====
-- The pieces, the first and the last character of names that are joined.
use libnode.Base.{
  ◌≡◌, refl, sym, ap, ◌∙◌, Bool, true, false, and_left, and_right, not, ◌&&◌, List, [], ◌∷◌, ◌++◌,
  append_assoc, append-nil, if◌then◌else◌, Bool-cases, inl, inr,
}
use libnode.Net.Socket.State.{Bytes}
use libnode.FilePath.Normalize.{sep, is_sep, is_none_piece, join_dirs, or_current, has_dirs}
use libnode.FilePath.Pieces.{pieces, starts_with_sep, last_is_sep}
use libnode.FilePath.Canonical.{no_sep, is_name}

abbrev pub all_names : List Bytes → Bool
all_names [] = true
all_names (d ∷ ds) = is_name d && all_names ds

-- The pieces of a name, and of a name before a separator.
pieces-name : (d : Bytes) → no_sep d ≡ true → pieces d ≡ d ∷ []
pieces-name [] h = refl
pieces-name (c ∷ cs) h = elim (Bool-cases (is_sep c)) [
  | inl e ↦ absurd (cc (and_left (not (is_sep c)) (no_sep cs) h))
  | inr e ↦ rw (e, pieces-name cs (and_right (not (is_sep c)) (no_sep cs) h)) refl
]

pieces-name-sep : (d rest : Bytes) → no_sep d ≡ true → pieces (d ++ (sep ∷ rest)) ≡ d ∷ pieces rest
pieces-name-sep [] rest h = refl
pieces-name-sep (c ∷ cs) rest h = elim (Bool-cases (is_sep c)) [
  | inl e ↦ absurd (cc (and_left (not (is_sep c)) (no_sep cs) h))
  | inr e ↦ rw (e, pieces-name-sep cs rest (and_right (not (is_sep c)) (no_sep cs) h)) refl
]

abbrev pub sep_if : Bool → Bytes
sep_if b = if b then sep ∷ [] else []

abbrev pub empty_if : Bool → List Bytes
empty_if true = [] ∷ []
empty_if false = []

name-no_sep : (d : Bytes) → is_name d ≡ true → no_sep d ≡ true
name-no_sep d h = and_right (not (is_none_piece d)) (no_sep d) h

pub pieces-join_dirs :
    (ds : List Bytes) (e : Bool)
    → has_dirs ds ≡ true
    → all_names ds ≡ true
    → pieces (join_dirs ds ++ sep_if e) ≡ ds ++ empty_if e
unfolding join_dirs
pieces-join_dirs [] e h n = absurd (cc)
pieces-join_dirs (d ∷ []) false h n =
    ap pieces (append-nil d) ∙ pieces-name d (name-no_sep d (and_left (is_name d) true n))
pieces-join_dirs (d ∷ []) true h n =
    pieces-name-sep d [] (name-no_sep d (and_left (is_name d) true n))
pieces-join_dirs (d ∷ d' ∷ ds) e h n =
    let names = and_right (is_name d) (all_names (d' ∷ ds)) n in
    ap pieces (append_assoc d (sep ∷ join_dirs (d' ∷ ds)) (sep_if e))
    ∙ pieces-name-sep d (join_dirs (d' ∷ ds) ++ sep_if e)
        (name-no_sep d (and_left (is_name d) (all_names (d' ∷ ds)) n))
    ∙ ap (λ l. d ∷ l) (pieces-join_dirs (d' ∷ ds) e refl names)

name-starts : (d rest : Bytes) → is_name d ≡ true → starts_with_sep (d ++ rest) ≡ false
name-starts [] rest h = absurd (cc)
name-starts (c ∷ cs) rest h = not_true (is_sep c) (and_left (not (is_sep c)) (no_sep cs) h)
  where
    not_true : (b : Bool) → not b ≡ true → b ≡ false
    not_true true e = sym e
    not_true false e = refl

pub starts-join_dirs :
    (ds : List Bytes) (rest : Bytes)
    → has_dirs ds ≡ true
    → all_names ds ≡ true
    → starts_with_sep (join_dirs ds ++ rest) ≡ false
unfolding join_dirs
starts-join_dirs [] rest h n = absurd (cc)
starts-join_dirs (d ∷ []) rest h n = name-starts d rest (and_left (is_name d) true n)
starts-join_dirs (d ∷ d' ∷ ds) rest h n =
    ap starts_with_sep (append_assoc d (sep ∷ join_dirs (d' ∷ ds)) rest)
    ∙ name-starts d (sep ∷ (join_dirs (d' ∷ ds) ++ rest))
        (and_left (is_name d) (all_names (d' ∷ ds)) n)

pub last_is_sep-append :
    (e : Bool) (p q : Bytes) → last_is_sep e (p ++ q) ≡ last_is_sep (last_is_sep e p) q
last_is_sep-append e [] q = refl
last_is_sep-append e (c ∷ p) q = last_is_sep-append (is_sep c) p q

last-no_sep : (d : Bytes) → no_sep d ≡ true → last_is_sep false d ≡ false
last-no_sep [] h = refl
last-no_sep (c ∷ cs) h = elim (Bool-cases (is_sep c)) [
  | inl e ↦ absurd (cc (and_left (not (is_sep c)) (no_sep cs) h))
  | inr e ↦ rw e (last-no_sep cs (and_right (not (is_sep c)) (no_sep cs) h))
]

last-name : (e : Bool) (d : Bytes) → is_name d ≡ true → last_is_sep e d ≡ false
last-name e [] h = absurd (cc)
last-name e (c ∷ cs) h = last-no_sep (c ∷ cs) h

pub last-join_dirs :
    (e : Bool) (ds : List Bytes)
    → has_dirs ds ≡ true
    → all_names ds ≡ true
    → last_is_sep e (join_dirs ds) ≡ false
unfolding join_dirs
last-join_dirs e [] h n = absurd (cc)
last-join_dirs e (d ∷ []) h n = last-name e d (and_left (is_name d) true n)
last-join_dirs e (d ∷ d' ∷ ds) h n =
    last_is_sep-append e d (sep ∷ join_dirs (d' ∷ ds))
    ∙ last-join_dirs true (d' ∷ ds) refl (and_right (is_name d) (all_names (d' ∷ ds)) n)

pub kept-join_dirs :
    (ds : List Bytes) (rest : Bytes)
    → has_dirs ds ≡ true
    → all_names ds ≡ true
    → or_current (join_dirs ds ++ rest) ≡ join_dirs ds ++ rest
unfolding join_dirs
kept-join_dirs [] rest h n = absurd (cc)
kept-join_dirs ([] ∷ ds) rest h n = absurd (cc)
kept-join_dirs ((c ∷ cs) ∷ []) rest h n = refl
kept-join_dirs ((c ∷ cs) ∷ d' ∷ ds) rest h n = refl
