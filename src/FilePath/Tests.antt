-- ===== src/FilePath/Tests.antt =====
-- Paths that meet the hypotheses of the theorems about them, and runs.
use libnode.Base.{◌≡◌, refl, true, false, some, none, [], ◌∷◌, codes}
use libnode.Http.Message.Head.{text_eq}
use libnode.FilePath.Normalize.{
  normalize_path, scan, visit, split_first, push_dir, add_parent, render, join_dirs,
}
use libnode.FilePath.Reduced.{path_text, normalize_path-pieces}
use libnode.FilePath.Parts.{
  trim_seps, drop_seps, basename, basename_of, extname, split_dot, join, join_paths, resolve,
  resolve_all, resolve_one,
}
use libnode.FilePath.Idempotent.{normalize_path-normalize_path}
use libnode.FilePath.Recombined.{Recombined}

up_and_down : normalize_path (codes "/foo/bar//baz/asdf/quux/..") ≡ some (codes "/foo/bar/baz/asdf")
unfolding normalize_path scan visit split_first push_dir add_parent render join_dirs text_eq
up_and_down = refl

normalize_path-pieces_example :
    normalize_path (codes "../../a/./b/c/../")
    ≡ some (path_text false (codes "b" ∷ codes "a" ∷ codes ".." ∷ codes ".." ∷ []) true)
unfolding text_eq
normalize_path-pieces_example = normalize_path-pieces (codes "../../a/./b/c/../")

normalize_path-normalize_path_example : normalize_path (codes "a/b/") ≡ some (codes "a/b/")
unfolding normalize_path scan visit split_first push_dir add_parent render join_dirs text_eq
normalize_path-normalize_path_example =
    normalize_path-normalize_path (codes "a/./c/../b/") (codes "a/b/") refl

hidden_name : extname (some (codes "a/.profile")) ≡ []
unfolding extname basename basename_of trim_seps drop_seps split_first split_dot
hidden_name = refl

two_dots : extname (some (codes "a/index.html.md")) ≡ codes ".md"
unfolding extname basename basename_of trim_seps drop_seps split_first split_dot
two_dots = refl

joined : join (some (some (codes "a") ∷ none ∷ some (codes "../b") ∷ [])) ≡ some (codes "b")
unfolding join join_paths normalize_path scan visit split_first push_dir add_parent render join_dirs
    text_eq
joined = refl

resolved :
    resolve (some (codes "/home")) (some (some (codes "a/") ∷ some (codes "../b/") ∷ []))
    ≡ some (codes "/home/b")
unfolding resolve resolve_all resolve_one trim_seps drop_seps normalize_path scan visit split_first
    push_dir add_parent render join_dirs text_eq
resolved = refl
