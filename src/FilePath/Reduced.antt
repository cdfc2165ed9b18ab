-- ===== src/FilePath/Reduced.antt =====
-- normalize() against a description that has nothing of its loop.
use mathlib.Core.List.{reverse}
use libnode.Base.{
  ◌≡◌, refl, ap, ◌∙◌, sym, Bool, true, false, not, ◌&&◌, some, List, [], ◌∷◌, ◌++◌, codes,
  append-nil, if◌then◌else◌, Bool-cases, inl, inr,
}
use libnode.Net.Socket.State.{Bytes}
use libnode.Http.Message.Head.{text_eq}
use libnode.Http.Message.Fields.{text_eq_sound}
use libnode.FilePath.Normalize.{
  Scan, push_dir, add_parent, join_dirs, or_current, render, normalize_path, has_dirs,
}
use libnode.FilePath.Pieces.{
  pieces, push_all, starts_with_sep, last_is_sep, normalize_path-described,
}

abbrev is_skipped : Bytes → Bool
is_skipped [] = true
is_skipped (c ∷ cs) = text_eq (c ∷ cs) (codes ".")

-- The pieces that name something: neither empty nor ".".
abbrev pub named : List Bytes → List Bytes
named [] = []
named (p ∷ ps) = if is_skipped p then named ps else p ∷ named ps

-- A name behind others, the last of them first: ".." takes a name away that is not ".." itself.
abbrev pub behind : Bytes → List Bytes → List Bytes
behind p [] = p ∷ []
behind p (d ∷ ds) =
    if text_eq p (codes "..") && not (text_eq d (codes "..")) then ds else p ∷ d ∷ ds

abbrev pub reduced : List Bytes → List Bytes → List Bytes
reduced [] ds = ds
reduced (p ∷ ps) ds = reduced ps (behind p ds)

-- Each name behind a separator.
abbrev pub after_seps : List Bytes → Bytes
after_seps [] = []
after_seps (d ∷ ds) = codes "/" ++ (d ++ after_seps ds)

abbrev pub joined : List Bytes → Bytes
joined [] = []
joined (d ∷ ds) = d ++ after_seps ds

abbrev pub or_dot : Bytes → Bytes
or_dot [] = codes "."
or_dot (c ∷ cs) = c ∷ cs

abbrev pub closing : Bool → List Bytes → Bytes
closing ends [] = []
closing ends (d ∷ ds) = if ends then codes "/" else []

-- Names, the last of them first, with separators between them, before them and behind them, or "."
-- where there is nothing.
abbrev pub path_text : Bool → List Bytes → Bool → Bytes
path_text absolute ds ends =
    or_dot ((if absolute then codes "/" else []) ++ (joined (reverse ds) ++ closing ends ds))

parent_or_current : (p : Bytes) → text_eq p (codes "..") ≡ true → text_eq p (codes ".") ≡ false
unfolding text_eq
parent_or_current p h = ap (λ x. text_eq x (codes ".")) (text_eq_sound p (codes "..") h)

push_dir-skipped : (p : Bytes) (ds : List Bytes) → is_skipped p ≡ true → push_dir p ds ≡ ds
unfolding push_dir
push_dir-skipped [] ds h = refl
push_dir-skipped (c ∷ cs) ds h = elim (Bool-cases (text_eq (c ∷ cs) (codes ".."))) [
  | inl e ↦ absurd (let d = parent_or_current (c ∷ cs) e in cc)
  | inr e ↦ rw (e, h) refl
]

add_parent-behind :
    (p : Bytes) (ds : List Bytes) → text_eq p (codes "..") ≡ true → add_parent ds ≡ behind p ds
unfolding add_parent
add_parent-behind p [] h = ap (λ x. x ∷ []) (sym (text_eq_sound p (codes "..") h))
add_parent-behind p (d ∷ ds) h = elim (Bool-cases (text_eq d (codes ".."))) [
  | inl e ↦ rw (h, e) (ap (λ x. x ∷ d ∷ ds) (sym (text_eq_sound p (codes "..") h)))
  | inr e ↦ rw (h, e) refl
]

behind-name : (p : Bytes) (ds : List Bytes) → text_eq p (codes "..") ≡ false → behind p ds ≡ p ∷ ds
behind-name p [] h = refl
behind-name p (d ∷ ds) h = rw h refl

push_dir-behind : (p : Bytes) (ds : List Bytes) → is_skipped p ≡ false → push_dir p ds ≡ behind p ds
unfolding push_dir
push_dir-behind [] ds h = absurd (cc)
push_dir-behind (c ∷ cs) ds h = elim (Bool-cases (text_eq (c ∷ cs) (codes ".."))) [
  | inl e ↦ rw e (add_parent-behind (c ∷ cs) ds e)
  | inr e ↦ rw (e, h) (sym (behind-name (c ∷ cs) ds e))
]

push_all-reduced : (ps ds : List Bytes) → push_all ps ds ≡ reduced (named ps) ds
push_all-reduced [] ds = refl
push_all-reduced (p ∷ ps) ds = elim (Bool-cases (is_skipped p)) [
  | inl e ↦ rw e (ap (push_all ps) (push_dir-skipped p ds e) ∙ push_all-reduced ps ds)
  | inr e ↦ rw e (ap (push_all ps) (push_dir-behind p ds e) ∙ push_all-reduced ps (behind p ds))
]

join_dirs-joined : (ds : List Bytes) → join_dirs ds ≡ joined ds
unfolding join_dirs
join_dirs-joined [] = refl
join_dirs-joined (d ∷ []) = sym (append-nil d)
join_dirs-joined (d ∷ e ∷ ds) = ap (λ t. d ++ (codes "/" ++ t)) (join_dirs-joined (e ∷ ds))

or_current-or_dot : (t : Bytes) → or_current t ≡ or_dot t
or_current-or_dot [] = refl
or_current-or_dot (c ∷ cs) = refl

closing-lem :
    (ends : Bool) (ds : List Bytes)
    → (if has_dirs ds && ends then codes "/" else []) ≡ closing ends ds
closing-lem ends [] = refl
closing-lem ends (d ∷ ds) = refl

render-path_text : (s : Scan) → render s ≡ path_text s.absolute s.dirs s.ends_with_sep
unfolding render
render-path_text s =
    or_current-or_dot _
    ∙ ap (λ t. or_dot ((if s.absolute then codes "/" else []) ++ t))
        (ap (λ t. t ++ (if has_dirs s.dirs && s.ends_with_sep then codes "/" else []))
            (join_dirs-joined (reverse s.dirs))
          ∙ ap (λ t. joined (reverse s.dirs) ++ t) (closing-lem s.ends_with_sep s.dirs))

-- normalize() returns for every path, and its result is this: the pieces of the path between its
-- separators, without the empty ones and ".", where ".." takes away the name before it, if there is
-- one that is not itself ".."; with a separator before them if the path begins with one, one between
-- them, and one behind them if the path ends with one; and "." if that is empty.
pub normalize_path-pieces :
    (path : Bytes)
    → normalize_path path
      ≡ some (
          path_text
            (starts_with_sep path)
            (reduced (named (pieces path)) [])
            (last_is_sep false path))
normalize_path-pieces path =
    normalize_path-described path
    ∙ ap some (
        render-path_text _
        ∙ ap (λ ds. path_text (starts_with_sep path) ds (last_is_sep false path))
            (push_all-reduced (pieces path) []))
