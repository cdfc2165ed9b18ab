-- ===== src/FilePath/Pieces.antt =====
-- normalize() against a description of its result by the pieces between the separators.
use libnode.Base.{
  ℕ, zero, suc, ◌≤◌, ◌≡◌, refl, sym, ap, ◌∙◌, Bool, true, false, ◌&&◌, ◌||◌, Option, none, some,
  List, [], ◌∷◌, arith, length, if◌then◌else◌, Bool-cases, inl, inr,
}
use libnode.Net.Socket.State.{Bytes}
use libnode.FilePath.Normalize.{
  is_sep, cons_piece, split_first, push_dir, Scan, is_some_rest, is_none_piece, visit, scan, render,
  begin, normalize_path, render_scan,
}

abbrev pub cons_first : ℕ → List Bytes → List Bytes
cons_first c [] = (c ∷ []) ∷ []
cons_first c (p ∷ ps) = (c ∷ p) ∷ ps

-- The pieces between the separators, empty ones included.
abbrev pub pieces : Bytes → List Bytes
pieces [] = [] ∷ []
pieces (c ∷ cs) = if is_sep c then [] ∷ pieces cs else cons_first c (pieces cs)

abbrev pub starts_with_sep : Bytes → Bool
starts_with_sep [] = false
starts_with_sep (c ∷ cs) = is_sep c

-- Whether the last character is a separator, or `e` without one.
abbrev pub last_is_sep : Bool → Bytes → Bool
last_is_sep e [] = e
last_is_sep e (c ∷ cs) = last_is_sep (is_sep c) cs

-- The pieces visited in their order.
abbrev pub push_all : List Bytes → List Bytes → List Bytes
push_all [] dirs = dirs
push_all (p ∷ ps) dirs = push_all ps (push_dir p dirs)

abbrev pub described : Bool → Bytes → Scan → Scan
described start path s = record {
  absolute = s.absolute || (start && starts_with_sep path);
  ends_with_sep = last_is_sep s.ends_with_sep path;
  dirs = push_all (pieces path) s.dirs;
}

pieces_of : Bytes × Option Bytes → List Bytes
pieces_of (p, none) = p ∷ []
pieces_of (p, some rest) = p ∷ pieces rest

pieces_of-cons_piece :
    (c : ℕ) (r : Bytes × Option Bytes) → pieces_of (cons_piece c r) ≡ cons_first c (pieces_of r)
unfolding pieces_of
pieces_of-cons_piece c (p, none) = refl
pieces_of-cons_piece c (p, some rest) = refl

pieces-split_first : (path : Bytes) → pieces path ≡ pieces_of (split_first path)
unfolding split_first pieces_of
pieces-split_first [] = refl
pieces-split_first (c ∷ cs) = elim (Bool-cases (is_sep c)) [
  | inl h ↦ rw h refl
  | inr h ↦
      rw h
        (ap (cons_first c) (pieces-split_first cs) ∙ sym (pieces_of-cons_piece c (split_first cs)))
]

ends_of : Bool → Bytes × Option Bytes → Bool
ends_of e ([], none) = e
ends_of e (c ∷ p, none) = false
ends_of e (p, some rest) = last_is_sep true rest

ends_of-cons_piece :
    (c : ℕ) (e : Bool) (r : Bytes × Option Bytes) → ends_of e (cons_piece c r) ≡ ends_of false r
unfolding ends_of
ends_of-cons_piece c e ([], none) = refl
ends_of-cons_piece c e (d ∷ p, none) = refl
ends_of-cons_piece c e (p, some rest) = refl

last_is_sep-split_first :
    (e : Bool) (path : Bytes) → last_is_sep e path ≡ ends_of e (split_first path)
unfolding split_first ends_of
last_is_sep-split_first e [] = refl
last_is_sep-split_first e (c ∷ cs) = elim (Bool-cases (is_sep c)) [
  | inl h ↦ rw h refl
  | inr h ↦ rw h (last_is_sep-split_first false cs ∙ sym (ends_of-cons_piece c e (split_first cs)))
]

starts_of : Bytes × Option Bytes → Bool
starts_of (p, r) = is_none_piece p && is_some_rest r

starts_of-cons_piece : (c : ℕ) (r : Bytes × Option Bytes) → starts_of (cons_piece c r) ≡ false
unfolding starts_of
starts_of-cons_piece c (p, r) = refl

starts_with_sep-split_first : (path : Bytes) → starts_with_sep path ≡ starts_of (split_first path)
unfolding split_first starts_of
starts_with_sep-split_first [] = refl
starts_with_sep-split_first (c ∷ cs) = elim (Bool-cases (is_sep c)) [
  | inl h ↦ rw h refl
  | inr h ↦ rw h (sym (starts_of-cons_piece c (split_first cs)))
]

-- The rest behind the first separator is shorter.
Shorter : ℕ → Option Bytes → Type 0
Shorter n none = Unit {0}
Shorter n (some rest) = length rest ≤ n

Shorter-suc :
    (n : ℕ) (c : ℕ) (r : Bytes × Option Bytes) → Shorter n r.1 → Shorter (suc n) (cons_piece c r).1
unfolding Shorter
Shorter-suc n c (p, none) h = tt
Shorter-suc n c (p, some rest) h = omega (arith, h)

split_first-Shorter : (c : ℕ) (cs : Bytes) → Shorter (length cs) (split_first (c ∷ cs)).1
unfolding split_first Shorter
split_first-Shorter c [] = elim (Bool-cases (is_sep c)) [
  | inl h ↦ rw h (omega arith)
  | inr h ↦ rw h tt
]
split_first-Shorter c (d ∷ cs) = elim (Bool-cases (is_sep c)) [
  | inl h ↦ rw h (omega arith)
  | inr h ↦ rw h (Shorter-suc (length cs) c (split_first (d ∷ cs)) (split_first-Shorter d cs))
]

or_false : (b : Bool) → (b || false) ≡ b
or_false true = refl
or_false false = refl

and_false : (b : Bool) → (b && false) ≡ false
and_false true = refl
and_false false = refl

-- One round, then the rest as it is described.
described_round :
    (start : Bool) (path piece rest : Bytes) (s : Scan)
    → pieces path ≡ piece ∷ pieces rest
    → starts_with_sep path ≡ is_none_piece piece && true
    → last_is_sep s.ends_with_sep path ≡ last_is_sep true rest
    → described false rest (visit start piece (some rest) s) ≡ described start path s
unfolding visit
described_round start path piece rest s hp hs hl =
    rw (hp, hs, hl)
      (ap (λ b. record (described false rest (visit start piece (some rest) s)) { absolute = b })
        (or_false (s.absolute || (start && (is_none_piece piece && true)))))

described_last :
    (start : Bool) (path piece : Bytes) (s : Scan)
    → pieces path ≡ piece ∷ []
    → starts_with_sep path ≡ is_none_piece piece && false
    → last_is_sep s.ends_with_sep path ≡ false
    → visit start piece none s ≡ described start path s
unfolding visit
described_last start path piece s hp hs hl = rw (hp, hs, hl) refl

described_empty : (start : Bool) (s : Scan) → s ≡ described start [] s
unfolding push_dir
described_empty start s =
    ap (λ b. record s { absolute = b })
      (sym (ap (λ b. s.absolute || b) (and_false start) ∙ or_false s.absolute))

after_round : ℕ → Scan → Option Bytes → Option Scan
after_round n round r = elim r [ none ↦ some round | some rest ↦ scan n false rest round ]

scan-described :
    (n : ℕ) (start : Bool) (path : Bytes) (s : Scan)
    → length path ≤ n
    → scan n start path s ≡ some (described start path s)
unfolding scan after_round pieces_of starts_of ends_of Shorter
scan-described n start [] s h = ap some (described_empty start s)
scan-described zero start (c ∷ cs) s h = absurd (omega (arith, h))
scan-described (suc n) start (c ∷ cs) s h =
    go (split_first (c ∷ cs)) (pieces-split_first (c ∷ cs)) (starts_with_sep-split_first (c ∷ cs))
      (last_is_sep-split_first false (c ∷ cs)) (split_first-Shorter c cs)
      (λ rest s' shorter. scan-described n false rest s' shorter)
  where
    go :
        (r : Bytes × Option Bytes)
        → pieces (c ∷ cs) ≡ pieces_of r
        → is_sep c ≡ starts_of r
        → last_is_sep (is_sep c) cs ≡ ends_of false r
        → Shorter (length cs) r.1
        → ((rest : Bytes) (s' : Scan)
            → length rest ≤ n
            → scan n false rest s' ≡ some (described false rest s'))
        → after_round n (visit start r.0 r.1 s) r.1 ≡ some (described start (c ∷ cs) s)
    go ([], none) hp hs hl short ih = ap some (described_last start (c ∷ cs) [] s hp hs hl)
    go (d ∷ p, none) hp hs hl short ih = ap some (described_last start (c ∷ cs) (d ∷ p) s hp hs hl)
    go (p, some rest) hp hs hl short ih =
        ih rest (visit start p (some rest) s) (omega (arith, short, h))
        ∙ ap some (described_round start (c ∷ cs) p rest s hp hs hl)

pub normalize_path-described :
    (path : Bytes)
    → normalize_path path
      ≡ some (
          render (record {
            absolute = starts_with_sep path;
            ends_with_sep = last_is_sep false path;
            dirs = push_all (pieces path) [];
          }))
unfolding normalize_path
normalize_path-described path =
    ap render_scan (scan-described (length path) true path begin (omega arith))
