-- ===== src/Querystring/Fields.antt =====
-- parse() against a description by the fields of the query.
use libnode.Base.{
  ℕ, ◌+◌, ◌-◌, ◌≤◌, ◌≡◌, refl, sym, ap, ◌∙◌, true, false, Option, none, some, List, [], ◌∷◌, ◌++◌,
  append-nil, append_assoc, length, drop, ◌==◌, Bool-cases, inl, inr, arith, length-append,
}
use libnode.Net.Socket.State.{Bytes}
use libnode.Querystring.Parse.{Param, add_decoded, substring, field_at, parse_loop, parse}
use libnode.Querystring.Cutting.{
  cut_last, pair_of, fields_of, add_fields, drop-whole, drop-snoc, substring-parts, snoc_cut,
  cut_last-eq, cut_last-other,
}

-- What the loop knows of the field that begins at `start`, of which it has read `part`.
abbrev Known : ℕ → ℕ → ℕ → Option Bytes → Bytes → Type 0
Known eq start val_start none part = cut_last eq part ≡ none
Known eq start val_start (some k) part =
    (start ≤ val_start)
    × (val_start ≤ start + length part)
    × (cut_last eq part ≡ some (k, drop (val_start - start) part))

Known-eq :
    (eq start i : ℕ) (part : Bytes) (c : ℕ)
    → (c == eq) ≡ true
    → i ≡ start + length part
    → Known eq start (i + 1) (some part) (part ++ c ∷ [])
Known-eq eq start i part c e ie =
    let len = length-append part (c ∷ []) in
    let m : (i + 1) - start ≡ length (part ++ c ∷ []) = omega (arith, len, ie) in
    (
      omega (arith, ie),
      omega (arith, len, ie),
      rw (m, drop-whole (part ++ c ∷ [])) (cut_last-eq eq part c e),
    )

Known-other :
    (eq start val_start : ℕ) (key : Option Bytes) (part : Bytes) (c : ℕ)
    → (c == eq) ≡ false
    → Known eq start val_start key part
    → Known eq start val_start key (part ++ c ∷ [])
Known-other eq start val_start none part c e k = cut_last-other eq part c e ∙ ap (snoc_cut c) k
Known-other eq start val_start (some key) part c e (lo, hi, k) =
    let len = length-append part (c ∷ []) in
    (
      lo,
      omega (arith, len, hi),
      cut_last-other eq part c e
          ∙ ap (snoc_cut c) k
          ∙ ap (λ v. some (key, v))
              (sym (drop-snoc (val_start - start) part c (omega (arith, lo, hi)))),
    )

substring-part :
    (pre part rest : Bytes)
    → substring (length pre) (length pre + length part) (pre ++ (part ++ rest)) ≡ part
substring-part pre part rest =
    let here : length pre - length pre ≡ 0 = omega arith in
    substring-parts pre part rest (length pre) (omega arith) (omega arith)
    ∙ ap (λ n. drop n part) here

field_at-part :
    (eq : ℕ) (pre part rest : Bytes) (val_start : ℕ) (key : Option Bytes)
    → Known eq (length pre) val_start key part
    → field_at (pre ++ (part ++ rest)) (length pre) val_start key (length pre + length part)
      ≡ pair_of eq part
unfolding field_at
field_at-part eq pre part rest val_start none k = rw (k, substring-part pre part rest) refl
field_at-part eq pre part rest val_start (some key) (lo, hi, k) =
    rw (k, substring-parts pre part rest val_start lo hi) refl

cut_last-empty : (eq : ℕ) → cut_last eq [] ≡ none
unfolding cut_last
cut_last-empty eq = refl

-- The fields of what is left, the first of them behind `part`.
abbrev fields_behind : ℕ → ℕ → Bytes → Bytes → List Bytes
fields_behind sep eq part rest = (part ++ (fields_of sep eq rest).0) ∷ (fields_of sep eq rest).1

snoc_behind : (part : Bytes) (c : ℕ) (rest : Bytes) → part ++ c ∷ rest ≡ (part ++ c ∷ []) ++ rest
snoc_behind [] c rest = refl
snoc_behind (d ∷ part) c rest = ap (λ r. d ∷ r) (snoc_behind part c rest)

parse_loop-fields :
    (to_std : Bytes → Bytes) (sep eq : ℕ) (query pre part rest : Bytes) (i start val_start : ℕ)
    (key : Option Bytes) (obj : Option (List (Bytes × Param)))
    → query ≡ pre ++ (part ++ rest)
    → start ≡ length pre
    → i ≡ length pre + length part
    → Known eq start val_start key part
    → parse_loop to_std sep eq query rest i start val_start key obj
      ≡ add_fields to_std eq (fields_behind sep eq part rest) obj
unfolding parse_loop fields_of add_fields
parse_loop-fields to_std sep eq query pre part [] i start val_start key obj q st ie k =
    rw (q, ie, st)
      (rw (field_at-part eq pre part [] val_start key (rw⁻¹ st k), append-nil part) refl)
parse_loop-fields to_std sep eq query pre part (c ∷ cs) i start val_start key obj q st ie k =
    let part' = part ++ c ∷ [] in
    let len = length-append part (c ∷ []) in
    let len' = length-append pre part' in
    let q' : query ≡ pre ++ (part' ++ cs) = q ∙ ap (λ r. pre ++ r) (snoc_behind part c cs) in
    let i' : i + 1 ≡ length pre + length part' = omega (arith, len, ie) in
    let start' : i + 1 ≡ length (pre ++ part') = omega (arith, len, len', ie) in
    let here : substring start i query ≡ part = rw (q, ie, st) (substring-part pre part (c ∷ cs)) in
    let field : field_at query start val_start key i ≡ pair_of eq (part ++ []) =
      rw (q, ie, st, append-nil part)
        (field_at-part eq pre part (c ∷ cs) val_start key (rw⁻¹ st k)) in
    let fields = fields_of sep eq cs in
    let whole =
      ap (λ f. add_fields to_std eq fields.1 (add_decoded to_std (pair_of eq f) obj))
        (sym (snoc_behind part c fields.0)) in
    elim (Bool-cases (c == eq)) [
      | inl e ↦
          let known = Known-eq eq start i part c e (ie ∙ ap (λ n. n + length part) (sym st)) in
          rw e (
            ap (λ k. parse_loop to_std sep eq query cs (i + 1) start (i + 1) (some k) obj) here
            ∙ parse_loop-fields to_std sep eq query pre part' cs (i + 1) start (i + 1) (some part)
                obj q' st i' known
            ∙ whole)
      | inr n ↦ elim (Bool-cases (c == sep)) [
        | inl s ↦
            rw (n, s)
              (parse_loop-fields to_std sep eq query (pre ++ part') [] cs (i + 1) (i + 1) val_start
                  none (add_decoded to_std (field_at query start val_start key i) obj)
                  (q' ∙ sym (append_assoc pre part' cs)) start' (omega (arith, start'))
                  (cut_last-empty eq)
                ∙ ap
                    (λ f.
                      add_fields to_std eq fields.1
                        (add_decoded to_std (pair_of eq fields.0) (add_decoded to_std f obj)))
                    field)
        | inr o ↦
            let known = Known-other eq start val_start key part c n k in
            rw (n, o)
              (parse_loop-fields to_std sep eq query pre part' cs (i + 1) start val_start key obj q'
                  st i' known
                ∙ whole)
      ]
    ]

-- The fields of a query, between its separators.
abbrev pub all_fields : ℕ → ℕ → Bytes → List Bytes
all_fields sep eq query = (fields_of sep eq query).0 ∷ (fields_of sep eq query).1

-- parse() of a query that is not empty adds the pairs of the fields between its separators, in their
-- order, decoded; a field is cut at its last `eq`, and without one it is a key with an empty value.
-- A separator that is `eq` too separates nothing.
pub parse-add_fields :
    (to_std : Bytes → Bytes) (sep eq c : ℕ) (cs : Bytes)
    → parse to_std (some (c ∷ cs)) sep eq
      ≡ add_fields to_std eq (all_fields sep eq (c ∷ cs)) (some [])
unfolding parse
parse-add_fields to_std sep eq c cs =
    parse_loop-fields to_std sep eq (c ∷ cs) [] [] (c ∷ cs) 0 0 0 none (some []) refl refl
      (omega arith) (cut_last-empty eq)
