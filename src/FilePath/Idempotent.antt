-- ===== src/FilePath/Idempotent.antt =====
-- normalize() of a path that is normalized.
use mathlib.Core.List.{reverse, reverse-cons}
use mathlib.Core.Path.{subst}
use libnode.Http.Message.Head.{text_eq}
use libnode.Base.{
  ◌≡◌, refl, sym, ap, ◌∙◌, Bool, true, false, and_left, and_right, some, List, [], ◌∷◌, ◌++◌,
  append-nil,
}
use libnode.Net.Socket.State.{Bytes}
use libnode.FilePath.Normalize.{
  current, sep, push_dir, Scan, join_dirs, or_current, has_dirs, render, normalize_path,
}
use libnode.FilePath.Pieces.{
  pieces, push_all, starts_with_sep, last_is_sep, normalize_path-described,
}
use libnode.FilePath.Canonical.{
  is_name, is_canonical, pieces-sep, push_all-canonical, push_dir-kept, canonical-name,
  canonical-tail,
}
use libnode.FilePath.Joined.{
  all_names, sep_if, empty_if, pieces-join_dirs, starts-join_dirs, last_is_sep-append,
  last-join_dirs, kept-join_dirs,
}

push_all-append :
    (ps qs dirs : List Bytes) → push_all (ps ++ qs) dirs ≡ push_all qs (push_all ps dirs)
push_all-append [] qs dirs = refl
push_all-append (p ∷ ps) qs dirs = push_all-append ps qs (push_dir p dirs)

-- Canonical names, pushed in their order, give themselves.
push_all-reverse :
    (dirs : List Bytes) → is_canonical dirs ≡ true → push_all (reverse dirs) [] ≡ dirs
push_all-reverse [] h = refl
push_all-reverse (d ∷ dirs) h =
    ap (λ l. push_all l []) (reverse-cons d dirs)
    ∙ push_all-append (reverse dirs) (d ∷ []) []
    ∙ ap (push_dir d) (push_all-reverse dirs (canonical-tail d dirs h))
    ∙ push_dir-kept d dirs h

all_names-snoc :
    (ds : List Bytes) (d : Bytes)
    → all_names ds ≡ true
    → is_name d ≡ true
    → all_names (ds ++ d ∷ []) ≡ true
all_names-snoc [] d h n = rw n refl
all_names-snoc (e ∷ ds) d h n =
    rw
      (
        and_left (is_name e) (all_names ds) h,
        all_names-snoc ds d (and_right (is_name e) (all_names ds) h) n,
      )
      refl

all_names-reverse : (dirs : List Bytes) → is_canonical dirs ≡ true → all_names (reverse dirs) ≡ true
all_names-reverse [] h = refl
all_names-reverse (d ∷ dirs) h = rw (reverse-cons d dirs) (
    all_names-snoc (reverse dirs) d (all_names-reverse dirs (canonical-tail d dirs h))
      (canonical-name d dirs h))

has_dirs-reverse : (d : Bytes) (dirs : List Bytes) → has_dirs (reverse (d ∷ dirs)) ≡ true
has_dirs-reverse d dirs = rw (reverse-cons d dirs) (go (reverse dirs))
  where
    go : (l : List Bytes) → has_dirs (l ++ d ∷ []) ≡ true
    go [] = refl
    go (e ∷ l) = refl

abbrev text_of : Bool → List Bytes → Bool → Bytes
text_of a ds e = sep_if a ++ (join_dirs ds ++ sep_if e)

text_of-pieces :
    (a : Bool) (ds : List Bytes) (e : Bool)
    → has_dirs ds ≡ true
    → all_names ds ≡ true
    → push_all (pieces (text_of a ds e)) [] ≡ push_all ds []
unfolding push_dir
text_of-pieces a ds e h n = go a
  where
    ended : (e : Bool) → push_all (ds ++ empty_if e) [] ≡ push_all ds []
    ended true = push_all-append ds ([] ∷ []) []
    ended false = ap (λ l. push_all l []) (append-nil ds)

    go : (a : Bool) → push_all (pieces (text_of a ds e)) [] ≡ push_all ds []
    go true = ap (λ l. push_all l []) (pieces-join_dirs ds e h n) ∙ ended e
    go false = ap (λ l. push_all l []) (pieces-join_dirs ds e h n) ∙ ended e

text_of-starts :
    (a : Bool) (ds : List Bytes) (e : Bool)
    → has_dirs ds ≡ true
    → all_names ds ≡ true
    → starts_with_sep (text_of a ds e) ≡ a
text_of-starts true ds e h n = refl
text_of-starts false ds e h n = starts-join_dirs ds (sep_if e) h n

text_of-last :
    (a : Bool) (ds : List Bytes) (e : Bool)
    → has_dirs ds ≡ true
    → all_names ds ≡ true
    → last_is_sep false (text_of a ds e) ≡ e
text_of-last a ds e h n =
    last_is_sep-append false (sep_if a) (join_dirs ds ++ sep_if e)
    ∙ last_is_sep-append (last_is_sep false (sep_if a)) (join_dirs ds) (sep_if e)
    ∙ ap (λ b. last_is_sep b (sep_if e)) (last-join_dirs (last_is_sep false (sep_if a)) ds h n)
    ∙ ended e
  where
    ended : (e : Bool) → last_is_sep false (sep_if e) ≡ e
    ended true = refl
    ended false = refl

text_of-kept :
    (a : Bool) (ds : List Bytes) (e : Bool)
    → has_dirs ds ≡ true
    → all_names ds ≡ true
    → or_current (text_of a ds e) ≡ text_of a ds e
text_of-kept true ds e h n = refl
text_of-kept false ds e h n = kept-join_dirs ds (sep_if e) h n

scan_of : Bytes → Scan
scan_of path = record {
  absolute = starts_with_sep path;
  ends_with_sep = last_is_sep false path;
  dirs = push_all (pieces path) [];
}

text_of-scan :
    (a e : Bool) (d : Bytes) (dirs : List Bytes)
    → is_canonical (d ∷ dirs) ≡ true
    → scan_of (text_of a (reverse (d ∷ dirs)) e)
      ≡ record { absolute = a; ends_with_sep = e; dirs = d ∷ dirs }
unfolding scan_of
text_of-scan a e d dirs h =
    let l = reverse (d ∷ dirs) in
    let some_dirs = has_dirs-reverse d dirs in
    let names = all_names-reverse (d ∷ dirs) h in
    rw
      (
        text_of-starts a l e some_dirs names,
        text_of-last a l e some_dirs names,
        text_of-pieces a l e some_dirs names,
        push_all-reverse (d ∷ dirs) h,
      )
      refl

root_normalized : normalize_path (sep ∷ []) ≡ some (sep ∷ [])
unfolding push_dir render join_dirs
root_normalized = normalize_path-described (sep ∷ [])

current_normalized : normalize_path current ≡ some current
unfolding push_dir render join_dirs text_eq
current_normalized = normalize_path-described current

normalize_path-render :
    (a e : Bool) (dirs : List Bytes)
    → is_canonical dirs ≡ true
    → normalize_path (render (record { absolute = a; ends_with_sep = e; dirs = dirs }))
      ≡ some (render (record { absolute = a; ends_with_sep = e; dirs = dirs }))
unfolding render join_dirs scan_of
normalize_path-render true e [] h = root_normalized
normalize_path-render false e [] h = current_normalized
normalize_path-render a e (d ∷ dirs) h =
    let l = reverse (d ∷ dirs) in
    let kept = text_of-kept a l e (has_dirs-reverse d dirs) (all_names-reverse (d ∷ dirs) h) in
    ap normalize_path kept
    ∙ normalize_path-described (text_of a l e)
    ∙ ap (λ s. some (render s)) (text_of-scan a e d dirs h)

-- normalize() of a path that normalize() gave is that path.
pub normalize_path-normalize_path :
    (path t : Bytes) → normalize_path path ≡ some t → normalize_path t ≡ some t
unfolding scan_of is_canonical
normalize_path-normalize_path path t h =
    let canonical = push_all-canonical (pieces path) [] (pieces-sep path) refl in
    let given : some (render (scan_of path)) ≡ some t = sym (normalize_path-described path) ∙ h in
    let same : render (scan_of path) ≡ t = cc in
    subst (λ x. normalize_path x ≡ some x) same
      (normalize_path-render (starts_with_sep path) (last_is_sep false path)
        (push_all (pieces path) []) canonical)
