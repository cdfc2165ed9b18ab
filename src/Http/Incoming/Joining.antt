-- ===== src/Http/Incoming/Joining.antt =====
-- What addHeaderLine() makes of several lines of one field.
use libnode.Base.{
  ◌≡◌, refl, sym, ap, ◌∙◌, true, false, Option, none, some, List, [], ◌∷◌, ◌++◌, arith, append-nil,
  append_assoc, codes, if◌then◌else◌, Bool-cases, inl, inr,
}
use libnode.Net.Socket.State.{Bytes}
use libnode.Http.HeaderScanner.{to_lower}
use libnode.Http.Message.State.{HeaderValue, one, many}
use libnode.Http.Message.Head.{text_eq, put_value}
use libnode.Http.Message.Fields.{text_eq_sound, text_eq_complete}
use libnode.Http.Incoming.State.{Incoming}
use libnode.Http.Incoming.Lines.{
  FieldKind, listed, joined, single, field_kind, get_value, put_dest, add_listed, add_joined,
  add_as, add_header_line, add_header_lines,
}

-- The values of a field, in the order of the lines.
abbrev pub values_of : Bytes → List (Bytes × Bytes) → List Bytes
values_of f [] = []
values_of f ((n, v) ∷ ls) = if text_eq (to_lower n) f then v ∷ values_of f ls else values_of f ls

-- The texts with ", " between them.
abbrev pub comma_joined : List Bytes → Bytes
comma_joined [] = []
comma_joined (v ∷ []) = v
comma_joined (v ∷ w ∷ vs) = v ++ (codes ", " ++ comma_joined (w ∷ vs))

abbrev pub last_of : Bytes → List Bytes → Bytes
last_of v [] = v
last_of v (w ∷ vs) = last_of w vs

-- What the values of a field of a kind give.
abbrev pub header_of : FieldKind → List Bytes → Option HeaderValue
header_of k [] = none
header_of listed (v ∷ vs) = some (many (v ∷ vs))
header_of joined (v ∷ vs) = some (one (comma_joined (v ∷ vs)))
header_of single (v ∷ vs) = some (one (last_of v vs))

pub get_value-put_value :
    (k j : Bytes) (v : HeaderValue) (es : List (Bytes × HeaderValue))
    → get_value j (put_value k v es) ≡ (if text_eq k j then some v else get_value j es)
unfolding get_value put_value
get_value-put_value k j v [] = ground arith
get_value-put_value k j v ((a, w) ∷ es) = ground (
  arith,
  get_value-put_value k j v es,
  text_eq_sound a k,
  text_eq_sound a j,
  text_eq_sound k j,
  text_eq_complete k j,
  text_eq_complete a k,
  text_eq_complete a j,
)

comma_joined_snoc :
    (v w : Bytes) (vs : List Bytes)
    → comma_joined (v ∷ vs) ++ (codes ", " ++ w) ≡ comma_joined (v ∷ (vs ++ w ∷ []))
comma_joined_snoc v w [] = refl
comma_joined_snoc v w (u ∷ vs) =
    append_assoc v (codes ", " ++ comma_joined (u ∷ vs)) (codes ", " ++ w)
    ∙ ap (λ t. v ++ (codes ", " ++ t)) (comma_joined_snoc u w vs)

last_of_snoc : (v w : Bytes) (vs : List Bytes) → last_of v (vs ++ w ∷ []) ≡ w
last_of_snoc v w [] = refl
last_of_snoc v w (u ∷ vs) = last_of_snoc u w vs

pub text_eq_self : (f : Bytes) → text_eq f f ≡ true
text_eq_self f = text_eq_complete f f refl

put_dest-headers :
    (f : Bytes) (v : HeaderValue) (m : Incoming)
    → m.complete ≡ false
    → (put_dest f v m).headers ≡ put_value f v m.headers
put_dest-headers f v m c = ground arith

pub put_own :
    (f : Bytes) (v : HeaderValue) (es : List (Bytes × HeaderValue))
    → get_value f (put_value f v es) ≡ some v
put_own f v es = get_value-put_value f f v es ∙ rw (text_eq_self f) refl

put_dest_own :
    (f : Bytes) (v : HeaderValue) (m : Incoming)
    → m.complete ≡ false
    → get_value f (put_dest f v m).headers ≡ some v
put_dest_own f v m c = ap (get_value f) (put_dest-headers f v m c) ∙ put_own f v m.headers

-- A line of a field whose values so far are `vs`.
add_as-own :
    (k : FieldKind) (f v : Bytes) (vs : List Bytes) (m : Incoming)
    → m.complete ≡ false
    → get_value f m.headers ≡ header_of k vs
    → get_value f (add_as k f v m).headers ≡ header_of k (vs ++ v ∷ [])
add_as-own listed f v [] m c h = simp h (put_dest_own f (many (v ∷ [])) m c)
add_as-own listed f v (w ∷ vs) m c h = simp h (put_own f (many (w ∷ (vs ++ v ∷ []))) m.headers)
add_as-own joined f v [] m c h = simp h (put_dest_own f (one v) m c)
add_as-own joined f v (w ∷ vs) m c h = simp h (
    put_dest_own f (one (comma_joined (w ∷ vs) ++ (codes ", " ++ v))) m c
    ∙ ap (λ t. some (one t)) (comma_joined_snoc w v vs))
add_as-own single f v [] m c h = put_dest_own f (one v) m c
add_as-own single f v (w ∷ vs) m c h =
    put_dest_own f (one v) m c ∙ ap (λ t. some (one t)) (sym (last_of_snoc w v vs))

-- The fields of a message that a line of another field leaves as they are.
put_other :
    (f j : Bytes) (v : HeaderValue) (es : List (Bytes × HeaderValue))
    → text_eq f j ≡ false
    → get_value j (put_value f v es) ≡ get_value j es
put_other f j v es n = get_value-put_value f j v es ∙ rw n refl

put_dest_other :
    (f j : Bytes) (v : HeaderValue) (m : Incoming)
    → text_eq f j ≡ false
    → get_value j (put_dest f v m).headers ≡ get_value j m.headers
put_dest_other f j v m n = ground (arith, put_other f j v m.headers)

add_as-other :
    (k : FieldKind) (f j v : Bytes) (m : Incoming)
    → text_eq f j ≡ false
    → get_value j (add_as k f v m).headers ≡ get_value j m.headers
add_as-other listed f j v m n = go (get_value f m.headers)
  where
    go : (o : Option HeaderValue) → get_value j (add_listed o f v m).headers ≡ get_value j m.headers
    go none = put_dest_other f j (many (v ∷ [])) m n
    go (some (one w)) = put_dest_other f j (many (v ∷ [])) m n
    go (some (many vs)) = put_other f j (many (vs ++ v ∷ [])) m.headers n
add_as-other joined f j v m n = go (get_value f m.headers)
  where
    go : (o : Option HeaderValue) → get_value j (add_joined o f v m).headers ≡ get_value j m.headers
    go none = put_dest_other f j (one v) m n
    go (some (one w)) = put_dest_other f j (one (w ++ (codes ", " ++ v))) m n
    go (some (many vs)) = put_dest_other f j (one v) m n
add_as-other single f j v m n = put_dest_other f j (one v) m n

put_dest-complete :
    (f : Bytes) (v : HeaderValue) (m : Incoming) → (put_dest f v m).complete ≡ m.complete
put_dest-complete f v m = ground arith

add_as-complete :
    (k : FieldKind) (f v : Bytes) (m : Incoming) → (add_as k f v m).complete ≡ m.complete
add_as-complete listed f v m = go (get_value f m.headers)
  where
    go : (o : Option HeaderValue) → (add_listed o f v m).complete ≡ m.complete
    go none = put_dest-complete f (many (v ∷ [])) m
    go (some (one w)) = put_dest-complete f (many (v ∷ [])) m
    go (some (many vs)) = refl
add_as-complete joined f v m = go (get_value f m.headers)
  where
    go : (o : Option HeaderValue) → (add_joined o f v m).complete ≡ m.complete
    go none = put_dest-complete f (one v) m
    go (some (one w)) = put_dest-complete f (one (w ++ (codes ", " ++ v))) m
    go (some (many vs)) = put_dest-complete f (one v) m
add_as-complete single f v m = put_dest-complete f (one v) m

add_header_line-complete :
    (n v : Bytes) (m : Incoming) → (add_header_line n v m).complete ≡ m.complete
unfolding add_header_line
add_header_line-complete n v m = add_as-complete (field_kind (to_lower n)) (to_lower n) v m

values_of-cons :
    (f n v : Bytes) (ls : List (Bytes × Bytes))
    → values_of f ((n, v) ∷ ls) ≡ values_of f ((n, v) ∷ []) ++ values_of f ls
values_of-cons f n v ls = ground arith

add_header_line-headers :
    (f n v : Bytes) (vs : List Bytes) (m : Incoming)
    → m.complete ≡ false
    → get_value f m.headers ≡ header_of (field_kind f) vs
    → get_value f (add_header_line n v m).headers
      ≡ header_of (field_kind f) (vs ++ values_of f ((n, v) ∷ []))
unfolding add_header_line
add_header_line-headers f n v vs m c h = elim (Bool-cases (text_eq (to_lower n) f)) [
  | inl e ↦
      let same = text_eq_sound (to_lower n) f e in
      rw (same, text_eq_self f) (add_as-own (field_kind f) f v vs m c h)
  | inr e ↦ rw (e, append-nil vs) (add_as-other (field_kind (to_lower n)) (to_lower n) f v m e ∙ h)
]

lines_added :
    (f : Bytes) (ls : List (Bytes × Bytes)) (vs : List Bytes) (m : Incoming)
    → m.complete ≡ false
    → get_value f m.headers ≡ header_of (field_kind f) vs
    → get_value f (add_header_lines ls m).headers ≡ header_of (field_kind f) (vs ++ values_of f ls)
unfolding add_header_lines
lines_added f [] vs m c h = rw (append-nil vs) h
lines_added f ((n, v) ∷ ls) vs m c h =
    let own = values_of f ((n, v) ∷ []) in
    lines_added f ls (vs ++ own) (add_header_line n v m) (add_header_line-complete n v m ∙ c)
      (add_header_line-headers f n v vs m c h)
    ∙ ap (header_of (field_kind f))
        (append_assoc vs own (values_of f ls) ∙ ap (λ l. vs ++ l) (sym (values_of-cons f n v ls)))

-- A message that is not complete and has no headers gets, from the lines, for each field: nothing
-- without a line of that field in whatever case; else for Set-Cookie the array of all values, for
-- the fields that are joined (x-..., Accept, Cookie and others) all values with ", " between them,
-- and for the others the last value, in the order of the lines.
pub add_header_lines-headers :
    (f : Bytes) (ls : List (Bytes × Bytes)) (m : Incoming)
    → m.complete ≡ false
    → m.headers ≡ []
    → get_value f (add_header_lines ls m).headers ≡ header_of (field_kind f) (values_of f ls)
unfolding get_value
add_header_lines-headers f ls m c h = lines_added f ls [] m c (ap (get_value f) h)
