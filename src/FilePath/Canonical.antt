-- ===== src/FilePath/Canonical.antt =====
-- The names that normalize() keeps.
use mathlib.Core.Path.{subst}
use libnode.Base.{
  ℕ, ◌≡◌, refl, sym, ap, ◌∙◌, Bool, true, false, not, ◌&&◌, ◌||◌, List, [], ◌∷◌, Bool-cases,
  and_left, and_right, inl, inr,
}
use libnode.Net.Socket.State.{Bytes}
use libnode.Http.Message.Head.{text_eq}
use libnode.Http.Message.Fields.{text_eq_sound}
use libnode.FilePath.Normalize.{is_sep, current, parent, add_parent, push_dir, is_none_piece}
use libnode.FilePath.Pieces.{cons_first, pieces, push_all}

abbrev pub no_sep : Bytes → Bool
no_sep [] = true
no_sep (c ∷ cs) = not (is_sep c) && no_sep cs

-- A name: not empty and without a separator.
abbrev pub is_name : Bytes → Bool
is_name d = not (is_none_piece d) && no_sep d

abbrev pub under_parents : List Bytes → Bool
under_parents [] = true
under_parents (d ∷ dirs) = text_eq d parent

-- Names, the last one first, none of them ".", and ".." only in front of all others.
unfoldable pub is_canonical : List Bytes → Bool
is_canonical [] = true
is_canonical (d ∷ dirs) =
    (is_name d && not (text_eq d current))
    && ((not (text_eq d parent) || under_parents dirs) && is_canonical dirs)

abbrev pub none_has_sep : List Bytes → Bool
none_has_sep [] = true
none_has_sep (p ∷ ps) = no_sep p && none_has_sep ps

cons_first-sep :
    (c : ℕ) (ps : List Bytes)
    → is_sep c ≡ false
    → none_has_sep ps ≡ true
    → none_has_sep (cons_first c ps) ≡ true
cons_first-sep c [] h g = rw h refl
cons_first-sep c (p ∷ ps) h g = rw h g

pub pieces-sep : (path : Bytes) → none_has_sep (pieces path) ≡ true
pieces-sep [] = refl
pieces-sep (c ∷ cs) = elim (Bool-cases (is_sep c)) [
  | inl h ↦ rw h (pieces-sep cs)
  | inr h ↦ rw h (cons_first-sep c (pieces cs) h (pieces-sep cs))
]

pub canonical-tail :
    (d : Bytes) (dirs : List Bytes) → is_canonical (d ∷ dirs) ≡ true → is_canonical dirs ≡ true
unfolding is_canonical
canonical-tail d dirs h =
    and_right (not (text_eq d parent) || under_parents dirs) (is_canonical dirs) (
      and_right (is_name d && not (text_eq d current))
        ((not (text_eq d parent) || under_parents dirs) && is_canonical dirs) h)

canonical-cons :
    (d : Bytes) (dirs : List Bytes)
    → is_name d ≡ true
    → text_eq d current ≡ false
    → (not (text_eq d parent) || under_parents dirs) ≡ true
    → is_canonical dirs ≡ true
    → is_canonical (d ∷ dirs) ≡ true
unfolding is_canonical
canonical-cons d dirs name other under rest = rw (name, other, under, rest) refl

canonical-parent :
    (dirs : List Bytes)
    → under_parents dirs ≡ true
    → is_canonical dirs ≡ true
    → is_canonical (parent ∷ dirs) ≡ true
unfolding text_eq
canonical-parent dirs under h = canonical-cons parent dirs refl refl under h

add_parent-canonical :
    (dirs : List Bytes) → is_canonical dirs ≡ true → is_canonical (add_parent dirs) ≡ true
unfolding add_parent
add_parent-canonical [] h = canonical-parent [] refl h
add_parent-canonical (d ∷ dirs) h = elim (Bool-cases (text_eq d parent)) [
  | inl e ↦ rw e (canonical-parent (d ∷ dirs) e h)
  | inr e ↦ rw e (canonical-tail d dirs h)
]

push_dir-canonical :
    (p : Bytes) (dirs : List Bytes)
    → no_sep p ≡ true
    → is_canonical dirs ≡ true
    → is_canonical (push_dir p dirs) ≡ true
unfolding push_dir
push_dir-canonical [] dirs n h = h
push_dir-canonical (c ∷ cs) dirs n h = elim (Bool-cases (text_eq (c ∷ cs) parent)) [
  | inl e ↦ rw e (add_parent-canonical dirs h)
  | inr e ↦ elim (Bool-cases (text_eq (c ∷ cs) current)) [
    | inl g ↦ rw (e, g) h
    | inr g ↦ rw (e, g) (canonical-cons (c ∷ cs) dirs n g (rw e refl) h)
  ]
]

-- Whatever pieces come, the names that are kept are canonical.
pub push_all-canonical :
    (ps dirs : List Bytes)
    → none_has_sep ps ≡ true
    → is_canonical dirs ≡ true
    → is_canonical (push_all ps dirs) ≡ true
push_all-canonical [] dirs n h = h
push_all-canonical (p ∷ ps) dirs n h =
    push_all-canonical ps (push_dir p dirs) (and_right (no_sep p) (none_has_sep ps) n)
      (push_dir-canonical p dirs (and_left (no_sep p) (none_has_sep ps) n) h)

-- The parts of is_canonical.
pub canonical-name :
    (d : Bytes) (dirs : List Bytes) → is_canonical (d ∷ dirs) ≡ true → is_name d ≡ true
unfolding is_canonical
canonical-name d dirs h = and_left (is_name d) (not (text_eq d current)) (
    and_left (is_name d && not (text_eq d current))
      ((not (text_eq d parent) || under_parents dirs) && is_canonical dirs) h)

canonical-other :
    (d : Bytes) (dirs : List Bytes) → is_canonical (d ∷ dirs) ≡ true → text_eq d current ≡ false
unfolding is_canonical
canonical-other d dirs h = go (text_eq d current) (
    and_right (is_name d) (not (text_eq d current)) (
      and_left (is_name d && not (text_eq d current))
        ((not (text_eq d parent) || under_parents dirs) && is_canonical dirs) h))
  where
    go : (b : Bool) → not b ≡ true → b ≡ false
    go true e = sym e
    go false e = refl

canonical-under :
    (d : Bytes) (dirs : List Bytes)
    → is_canonical (d ∷ dirs) ≡ true
    → (not (text_eq d parent) || under_parents dirs) ≡ true
unfolding is_canonical
canonical-under d dirs h =
    and_left (not (text_eq d parent) || under_parents dirs) (is_canonical dirs) (
      and_right (is_name d && not (text_eq d current))
        ((not (text_eq d parent) || under_parents dirs) && is_canonical dirs) h)

add_parent-under : (dirs : List Bytes) → under_parents dirs ≡ true → add_parent dirs ≡ parent ∷ dirs
unfolding add_parent
add_parent-under [] h = refl
add_parent-under (d ∷ dirs) h = rw h refl

-- A name of a canonical list is pushed on those before it.
pub push_dir-kept :
    (d : Bytes) (dirs : List Bytes) → is_canonical (d ∷ dirs) ≡ true → push_dir d dirs ≡ d ∷ dirs
unfolding push_dir
push_dir-kept [] dirs h = absurd (cc (canonical-name [] dirs h))
push_dir-kept (c ∷ cs) dirs h = elim (Bool-cases (text_eq (c ∷ cs) parent)) [
  | inl e ↦
      let under =
        subst (λ b. (not b || under_parents dirs) ≡ true) e (canonical-under (c ∷ cs) dirs h) in
      rw e
        (add_parent-under dirs under ∙ ap (λ d. d ∷ dirs) (sym (text_eq_sound (c ∷ cs) parent e)))
  | inr e ↦ rw (e, canonical-other (c ∷ cs) dirs h) refl
]
