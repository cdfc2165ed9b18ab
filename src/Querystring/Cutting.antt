-- ===== src/Querystring/Cutting.antt =====
-- A field cut at its last separator of key and value, and the parts of a text.
use libnode.Base.{
  ℕ, zero, suc, ◌+◌, ◌-◌, ◌≤◌, ◌≡◌, refl, ap, ◌∙◌, true, false, Option, none, some, List, [], ◌∷◌,
  ◌++◌, length, take, drop, if◌then◌else◌, ◌==◌, Bool-cases, inl, inr, arith,
}
use libnode.Net.Socket.State.{Bytes}
use libnode.Querystring.Parse.{Param, add_decoded, substring}

-- A field behind its first character, and where it is cut at the last `eq` that is in it.
abbrev pub cut_behind : ℕ → ℕ → Bytes → Option (Bytes × Bytes) → Option (Bytes × Bytes)
cut_behind eq c cs none = if c == eq then some ([], cs) else none
cut_behind eq c cs (some (k, v)) = some (c ∷ k, v)

-- A field, cut at the last `eq` that is in it.
unfoldable pub cut_last : ℕ → Bytes → Option (Bytes × Bytes)
cut_last eq [] = none
cut_last eq (c ∷ cs) = cut_behind eq c cs (cut_last eq cs)

abbrev pub or_alone : Bytes → Option (Bytes × Bytes) → Bytes × Bytes
or_alone field none = (field, [])
or_alone field (some kv) = kv

-- The key and the value of a field; without an `eq` it is a key with an empty value.
abbrev pub pair_of : ℕ → Bytes → Bytes × Bytes
pair_of eq field = or_alone field (cut_last eq field)

-- The first field of a text and the fields behind it.
unfoldable pub fields_of : ℕ → ℕ → Bytes → Bytes × List Bytes
fields_of sep eq [] = ([], [])
fields_of sep eq (c ∷ cs) =
    let rest = fields_of sep eq cs in
    if c == eq
    then (c ∷ rest.0, rest.1)
    else if c == sep
    then ([], rest.0 ∷ rest.1)
    else (c ∷ rest.0, rest.1)

unfoldable pub add_fields :
    (Bytes → Bytes) → ℕ → List Bytes → Option (List (Bytes × Param)) → Option (List (Bytes × Param))
add_fields to_std eq [] obj = obj
add_fields to_std eq (f ∷ fs) obj = add_fields to_std eq fs (add_decoded to_std (pair_of eq f) obj)

take-part : (part rest : Bytes) → take (length part) (part ++ rest) ≡ part
take-part [] rest = refl
take-part (c ∷ part) rest = ap (λ r. c ∷ r) (take-part part rest)

drop-part : (part rest : Bytes) → drop (length part) (part ++ rest) ≡ rest
drop-part [] rest = refl
drop-part (c ∷ part) rest = drop-part part rest

pub drop-whole : (part : Bytes) → drop (length part) part ≡ []
drop-whole [] = refl
drop-whole (c ∷ part) = drop-whole part

drop-before : (pre rest : Bytes) (n : ℕ) → drop (length pre + n) (pre ++ rest) ≡ drop n rest
drop-before [] rest n = ap (λ m. drop m rest) (omega arith)
drop-before (c ∷ pre) rest n =
    let next : length (c ∷ pre) + n ≡ suc (length pre + n) = omega arith in
    rw next (drop-before pre rest n)

take-drop :
    (m : ℕ) (part rest : Bytes)
    → m ≤ length part
    → take (length part - m) (drop m (part ++ rest)) ≡ drop m part
take-drop zero part rest h =
    let all : length part - 0 ≡ length part = omega arith in rw all (take-part part rest)
take-drop (suc m) [] rest h = absurd (omega (arith, h))
take-drop (suc m) (c ∷ part) rest h =
    let less : length (c ∷ part) - suc m ≡ length part - m = omega arith in
    rw less (take-drop m part rest (omega (arith, h)))

pub drop-snoc :
    (m : ℕ) (part : Bytes) (c : ℕ)
    → m ≤ length part
    → drop m (part ++ c ∷ []) ≡ drop m part ++ c ∷ []
drop-snoc zero part c h = refl
drop-snoc (suc m) [] c h = absurd (omega (arith, h))
drop-snoc (suc m) (d ∷ part) c h = drop-snoc m part c (omega (arith, h))

-- What stands from a position in `part` to its end.
pub substring-parts :
    (pre part rest : Bytes) (start : ℕ)
    → length pre ≤ start
    → start ≤ length pre + length part
    → substring start (length pre + length part) (pre ++ (part ++ rest))
      ≡ drop (start - length pre) part
unfolding substring
substring-parts pre part rest start lo hi =
    let m = start - length pre in
    let len : (length pre + length part) - start ≡ length part - m = omega (arith, lo, hi) in
    let pos : start ≡ length pre + m = omega (arith, lo) in
    rw (len) (
      rw (ap (λ n. drop n (pre ++ (part ++ rest))) pos ∙ drop-before pre (part ++ rest) m)
        (take-drop m part rest (omega (arith, hi))))

abbrev snoc_value : ℕ → Bytes × Bytes → Bytes × Bytes
snoc_value c (k, v) = (k, v ++ c ∷ [])

abbrev pub snoc_cut : ℕ → Option (Bytes × Bytes) → Option (Bytes × Bytes)
snoc_cut c none = none
snoc_cut c (some kv) = some (snoc_value c kv)

-- A field that an `eq` follows is cut there.
pub cut_last-eq :
    (eq : ℕ) (part : Bytes) (c : ℕ)
    → (c == eq) ≡ true
    → cut_last eq (part ++ c ∷ []) ≡ some (part, [])
unfolding cut_last
cut_last-eq eq [] c e = rw e refl
cut_last-eq eq (d ∷ part) c e = rw (cut_last-eq eq part c e) refl

cut_behind-snoc :
    (eq d c : ℕ) (part : Bytes) (cut : Option (Bytes × Bytes))
    → cut_behind eq d (part ++ c ∷ []) (snoc_cut c cut) ≡ snoc_cut c (cut_behind eq d part cut)
cut_behind-snoc eq d c part none = elim (Bool-cases (d == eq)) [
  | inl y ↦ rw y refl
  | inr n ↦ rw n refl
]
cut_behind-snoc eq d c part (some (k, v)) = refl

-- Another character belongs to what the field is cut to.
pub cut_last-other :
    (eq : ℕ) (part : Bytes) (c : ℕ)
    → (c == eq) ≡ false
    → cut_last eq (part ++ c ∷ []) ≡ snoc_cut c (cut_last eq part)
unfolding cut_last
cut_last-other eq [] c e = rw e refl
cut_last-other eq (d ∷ part) c e =
    rw (cut_last-other eq part c e) (cut_behind-snoc eq d c part (cut_last eq part))
