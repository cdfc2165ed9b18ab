-- ===== src/Jsonrpc/Named.antt =====
-- The arguments of a call whose params are an object: each parameter has the value of its name.
use libnode.Base.{
  ℕ, ◌≡◌, refl, sym, ap, ◌∙◌, Bool, true, false, not, ◌&&◌, Option, none, some, List, [], ◌∷◌,
  arith, length, if◌then◌else◌, ◌==◌, Bool-cases, and_left, and_right, inl, inr,
}
use libnode.Net.Socket.State.{Bytes}
use libnode.Http.Message.Head.{text_eq}
use libnode.Http.Message.Fields.{text_eq_sound}
use libnode.Jsonrpc.State.{object}
use libnode.Jsonrpc.Request.{next_index, index_of, set, set_at, set_named, blanks, to_arguments20}

-- The value of a name in an object.
unfoldable pub value_of : Bytes → List (Bytes × ℕ) → Option ℕ
value_of name [] = none
value_of name ((k, v) ∷ es) = if text_eq k name then some v else value_of name es

abbrev pub is_name : Bytes → List Bytes → Bool
is_name k [] = false
is_name k (n ∷ ns) = if text_eq k n then true else is_name k ns

-- No name stands twice.
abbrev pub all_different : List Bytes → Bool
all_different [] = true
all_different (n ∷ ns) = not (is_name n ns) && all_different ns

abbrev pub is_key : Bytes → List (Bytes × ℕ) → Bool
is_key name [] = false
is_key name ((k, v) ∷ es) = if text_eq k name then true else is_key name es

abbrev pub different_keys : List (Bytes × ℕ) → Bool
different_keys [] = true
different_keys ((k, v) ∷ es) = not (is_key k es) && different_keys es

-- Each key is a name.
abbrev pub are_names : List (Bytes × ℕ) → List Bytes → Bool
are_names [] names = true
are_names ((k, v) ∷ es) names = is_name k names && are_names es names

-- The value of each name.
abbrev pub values_of : List Bytes → List (Bytes × ℕ) → List (Option ℕ)
values_of [] es = []
values_of (n ∷ ns) es = value_of n es ∷ values_of ns es

abbrev or_old : Option ℕ → Option ℕ → Option ℕ
or_old none old = old
or_old (some v) old = some v

-- Arguments in which the names that have a value get it.
abbrev updated : List Bytes → List (Bytes × ℕ) → List (Option ℕ) → List (Option ℕ)
updated [] es args = args
updated (n ∷ ns) es [] = []
updated (n ∷ ns) es (a ∷ args) = or_old (value_of n es) a ∷ updated ns es args

updated-nil : (names : List Bytes) (args : List (Option ℕ)) → updated names [] args ≡ args
unfolding value_of
updated-nil [] args = refl
updated-nil (n ∷ ns) [] = refl
updated-nil (n ∷ ns) (a ∷ args) = ap (λ r. a ∷ r) (updated-nil ns args)

updated-blanks :
    (names : List Bytes) (es : List (Bytes × ℕ))
    → updated names es (blanks names) ≡ values_of names es
updated-blanks [] es = refl
updated-blanks (n ∷ ns) es = kept (value_of n es) (updated-blanks ns es)
  where
    kept :
        (o : Option ℕ)
        → updated ns es (blanks ns) ≡ values_of ns es
        → (or_old o none ∷ updated ns es (blanks ns)) ≡ o ∷ values_of ns es
    kept none e = ap (λ r. none ∷ r) e
    kept (some v) e = ap (λ r. some v ∷ r) e

-- What one entry does to the arguments.
abbrev put_one : Bytes → ℕ → List Bytes → List (Option ℕ) → List (Option ℕ)
put_one k v [] args = args
put_one k v (n ∷ ns) [] = []
put_one k v (n ∷ ns) (a ∷ args) = if text_eq k n then some v ∷ args else a ∷ put_one k v ns args

abbrev cons_at : Option ℕ → Option (List (Option ℕ)) → Option (List (Option ℕ))
cons_at a none = none
cons_at a (some args) = some (a ∷ args)

set_at-next :
    (o : Option ℕ) (v : ℕ) (a : Option ℕ) (args : List (Option ℕ))
    → set_at (next_index o) v (a ∷ args) ≡ cons_at a (set_at o v args)
unfolding set
set_at-next none v a args = refl
set_at-next (some i) v a args = refl

cons_at-if :
    (b : Bool) (a : Option ℕ) (args : List (Option ℕ))
    → cons_at a (if b then some args else none) ≡ (if b then some (a ∷ args) else none)
cons_at-if true a args = refl
cons_at-if false a args = refl

set-index_of :
    (k : Bytes) (v : ℕ) (names : List Bytes) (args : List (Option ℕ))
    → length args ≡ length names
    → set_at (index_of k names) v args
      ≡ (if is_name k names then some (put_one k v names args) else none)
unfolding index_of set
set-index_of k v [] args l = refl
set-index_of k v (n ∷ ns) [] l = absurd (omega (arith, l))
set-index_of k v (n ∷ ns) (a ∷ args) l = elim (Bool-cases (text_eq k n)) [
  | inl e ↦ rw e refl
  | inr e ↦ rw e (
      set_at-next (index_of k ns) v a args
      ∙ ap (cons_at a) (set-index_of k v ns args (omega (arith, l)))
      ∙ cons_at-if (is_name k ns) a (put_one k v ns args))
]

length-put_one :
    (k : Bytes) (v : ℕ) (names : List Bytes) (args : List (Option ℕ))
    → length (put_one k v names args) ≡ length args
length-put_one k v [] args = refl
length-put_one k v (n ∷ ns) [] = refl
length-put_one k v (n ∷ ns) (a ∷ args) = elim (Bool-cases (text_eq k n)) [
  | inl e ↦ rw e refl
  | inr e ↦ rw e (omega (arith, length-put_one k v ns args))
]

length-blanks : (names : List Bytes) → length (blanks names) ≡ length names
length-blanks [] = refl
length-blanks (n ∷ ns) = omega (arith, length-blanks ns)

updated-other :
    (k : Bytes) (v : ℕ) (es : List (Bytes × ℕ)) (names : List Bytes) (args : List (Option ℕ))
    → is_name k names ≡ false
    → updated names ((k, v) ∷ es) args ≡ updated names es args
unfolding value_of
updated-other k v es [] args h = refl
updated-other k v es (n ∷ ns) [] h = refl
updated-other k v es (n ∷ ns) (a ∷ args) h = elim (Bool-cases (text_eq k n)) [
  | inl e ↦ absurd (cc (ap (λ b. if b then true else is_name k ns) (sym e) ∙ h))
  | inr e ↦ rw e (
      ap (λ r. or_old (value_of n es) a ∷ r)
        (updated-other k v es ns args (ap (λ b. if b then true else is_name k ns) (sym e) ∙ h)))
]

value_of-fresh : (k : Bytes) (es : List (Bytes × ℕ)) → is_key k es ≡ false → value_of k es ≡ none
unfolding value_of
value_of-fresh k [] h = refl
value_of-fresh k ((k', v) ∷ es) h = elim (Bool-cases (text_eq k' k)) [
  | inl e ↦ absurd (cc (ap (λ b. if b then true else is_key k es) (sym e) ∙ h))
  | inr e ↦ rw e (value_of-fresh k es (ap (λ b. if b then true else is_key k es) (sym e) ∙ h))
]

false_of_not : (b : Bool) → not b ≡ true → b ≡ false
false_of_not true h = cc
false_of_not false h = refl

-- An entry whose name has no other entry, put before the others.
updated-put_one :
    (k : Bytes) (v : ℕ) (es : List (Bytes × ℕ)) (names : List Bytes) (args : List (Option ℕ))
    → value_of k es ≡ none
    → all_different names ≡ true
    → updated names es (put_one k v names args) ≡ updated names ((k, v) ∷ es) args
unfolding value_of
updated-put_one k v es [] args f d = refl
updated-put_one k v es (n ∷ ns) [] f d = refl
updated-put_one k v es (n ∷ ns) (a ∷ args) f d = elim (Bool-cases (text_eq k n)) [
  | inl e ↦
      let same = text_eq_sound k n e in
      let fresh : value_of n es ≡ none = ap (λ x. value_of x es) (sym same) ∙ f in
      let apart : is_name k ns ≡ false =
        ap (λ x. is_name x ns) same
        ∙ false_of_not (is_name n ns) (and_left (not (is_name n ns)) (all_different ns) d) in
      rw (e, fresh) (ap (λ r. some v ∷ r) (sym (updated-other k v es ns args apart)))
  | inr e ↦ rw e (
      ap (λ r. or_old (value_of n es) a ∷ r)
        (updated-put_one k v es ns args f (and_right (not (is_name n ns)) (all_different ns) d)))
]

set_named-updated :
    (names : List Bytes) (es : List (Bytes × ℕ)) (args : List (Option ℕ))
    → length args ≡ length names
    → all_different names ≡ true
    → different_keys es ≡ true
    → set_named names es args ≡ (if are_names es names then some (updated names es args) else none)
unfolding set_named
set_named-updated names [] args l d u = ap some (sym (updated-nil names args))
set_named-updated names ((k, v) ∷ es) args l d u =
    let fresh =
      value_of-fresh k es
        (false_of_not (is_key k es) (and_left (not (is_key k es)) (different_keys es) u)) in
    elim (Bool-cases (is_name k names)) [
      | inl e ↦
          rw (set-index_of k v names args l, e)
            (set_named-updated names es (put_one k v names args) (length-put_one k v names args ∙ l)
                d (and_right (not (is_key k es)) (different_keys es) u)
              ∙ ap (λ r. if are_names es names then some r else none)
                  (updated-put_one k v es names args fresh d))
      | inr e ↦ rw (set-index_of k v names args l, e) refl
    ]

-- toArguments20() of an object, of whose keys none stands twice, for a method of whose parameters
-- none stands twice: with as many entries as parameters, and each key a parameter, each argument is
-- the value of its parameter, in whatever order the object gives its entries; otherwise there are no
-- arguments.
pub to_arguments20-values_of :
    (names : List Bytes) (es : List (Bytes × ℕ))
    → all_different names ≡ true
    → different_keys es ≡ true
    → to_arguments20 names (object es) ≡ (
        if length es == length names && are_names es names then some (values_of names es) else none)
unfolding to_arguments20
to_arguments20-values_of names es d u = elim (Bool-cases (length es == length names)) [
  | inl e ↦ rw e (
      set_named-updated names es (blanks names) (length-blanks names) d u
      ∙ ap (λ r. if are_names es names then some r else none) (updated-blanks names es))
  | inr e ↦ rw e refl
]
