-- ===== src/Http/Incoming/Split.antt =====
-- http-parser may report a url, a field or a value in several pieces: what the parser makes of them.
use libnode.Base.{
  ℕ, ◌≡◌, refl, sym, ap, ◌∙◌, true, Option, none, some, List, [], ◌∷◌, ◌++◌, arith, append_assoc,
  inl, inr, length, length-append, ◌==◌, ◌>>=◌, Bool-cases,
}
use libnode.Net.Socket.State.{Bytes}
use libnode.Http.HeaderScanner.{scan_header_field}
use libnode.Http.Incoming.Parser.{
  Parser, on_url, on_header_field, on_header_value, concat, extend_last, add_value, with_values,
}

equal_sound : (m n : ℕ) → (m == n) ≡ true → m ≡ n
equal_sound m n h = ground arith

field_pieces : (a b : Bytes) (p : Parser) → on_header_field a p >>= on_header_field b ≡ none
unfolding on_header_field
field_pieces a b p = elim (Bool-cases (length p.fields == length p.values)) [
  | inl h ↦ ground (arith, length-append p.fields (scan_header_field a ∷ []))
  | inr h ↦ rw h refl
]

extend_last-extend_last :
    (a b : Bytes) (vs : List Bytes) → extend_last b (extend_last a vs) ≡ extend_last (a ++ b) vs
unfolding extend_last
extend_last-extend_last a b [] = refl
extend_last-extend_last a b (v ∷ []) = ap (λ x. x ∷ []) (append_assoc v a b)
extend_last-extend_last a b (v ∷ w ∷ []) = ap (λ x. v ∷ x ∷ []) (append_assoc w a b)
extend_last-extend_last a b (v ∷ w ∷ u ∷ vs) =
    ap (λ l. v ∷ l) (extend_last-extend_last a b (w ∷ u ∷ vs))

extend_last_snoc :
    (a b : Bytes) (vs : List Bytes) → extend_last b (vs ++ a ∷ []) ≡ vs ++ (a ++ b) ∷ []
unfolding extend_last
extend_last_snoc a b [] = refl
extend_last_snoc a b (v ∷ []) = refl
extend_last_snoc a b (v ∷ w ∷ vs) = ap (λ l. v ∷ l) (extend_last_snoc a b (w ∷ vs))

length-extend_last : (a : Bytes) (vs : List Bytes) → length (extend_last a vs) ≡ length vs
unfolding extend_last
length-extend_last a [] = refl
length-extend_last a (v ∷ []) = refl
length-extend_last a (v ∷ w ∷ vs) = omega (arith, length-extend_last a (w ∷ vs))

add_value-add_value :
    (n : ℕ) (a b : Bytes) (vs : List Bytes)
    → add_value n a vs >>= add_value n b ≡ add_value n (a ++ b) vs
unfolding add_value
add_value-add_value n a b vs = ground (
  arith,
  length-extend_last a vs,
  length-append vs (a ∷ []),
  extend_last-extend_last a b vs,
  extend_last_snoc a b vs,
)

module _ (utf8 : Bytes → Bytes) where
  with_values-bind :
      (n : ℕ) (b : Bytes) (o : Option (List Bytes)) (p : Parser)
      → length p.fields ≡ n
      → with_values p o >>= on_header_value utf8 b ≡ with_values p (o >>= add_value n (utf8 b))
  unfolding on_header_value
  with_values-bind n b none p h = refl
  with_values-bind n b (some vs) p h = rw (sym h) refl

  url_joined :
      (a b : Bytes) (u : Option Bytes)
      → utf8 (a ++ b) ≡ utf8 a ++ utf8 b
      → concat utf8 (some (concat utf8 u a)) b ≡ concat utf8 u (a ++ b)
  url_joined a b none h = sym h
  url_joined a b (some u) h = append_assoc u (utf8 a) (utf8 b) ∙ ap (λ t. u ++ t) (sym h)

  value_joined :
      (a b : Bytes) (p : Parser)
      → utf8 (a ++ b) ≡ utf8 a ++ utf8 b
      → on_header_value utf8 a p >>= on_header_value utf8 b ≡ on_header_value utf8 (a ++ b) p
  unfolding on_header_value
  value_joined a b p h =
      let n = length p.fields in
      with_values-bind n b (add_value n (utf8 a) p.values) p refl
      ∙ ap (with_values p) (
          add_value-add_value n (utf8 a) (utf8 b) p.values
          ∙ ap (λ t. add_value n t p.values) (sym h))

  -- Two pieces that are decoded like the whole, since no character is cut in two: reported in two
  -- pieces or in one, a url and a value are the same to the parser, failed assertions included; but
  -- a second piece of a field is taken for a field of its own, which the assertion of
  -- onHeaderField() refuses.
  pub pieces_joined :
      (a b : Bytes) (p : Parser)
      → utf8 (a ++ b) ≡ utf8 a ++ utf8 b
      → (on_url utf8 b (on_url utf8 a p) ≡ on_url utf8 (a ++ b) p)
        × (on_header_value utf8 a p >>= on_header_value utf8 b ≡ on_header_value utf8 (a ++ b) p)
        × (on_header_field a p >>= on_header_field b ≡ none)
  unfolding on_url
  pieces_joined a b p h = (
    ap (λ x. record p { url = some x }) (url_joined a b p.url h),
    value_joined a b p h,
    field_pieces a b p,
  )
