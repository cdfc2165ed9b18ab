-- ===== src/Http/Message/Fields.antt =====
-- The header fields of http::OutgoingMessage: setHeader(), getHeader() and removeHeader().
use libnode.Base.{◌≡◌, refl, true, none, some, List, [], ◌∷◌, arith, if◌then◌else◌}
use libnode.Net.Socket.State.{Bytes}
use libnode.Http.Message.State.{Stream, Codec, Message}
use libnode.Http.Message.Head.{text_eq, get_entry, put_entry, remove_entry}
use libnode.Http.Message.Body.{get_header, set_header, remove_header}

text_eq_refl : (a : Bytes) → text_eq a a ≡ true
unfolding text_eq
text_eq_refl [] = refl
text_eq_refl (x ∷ xs) = ground (arith, text_eq_refl xs)

-- The test decides equality.
pub text_eq_sound : (a b : Bytes) → text_eq a b ≡ true → a ≡ b
unfolding text_eq
text_eq_sound [] [] h = refl
text_eq_sound [] (y ∷ ys) h = absurd (cc)
text_eq_sound (x ∷ xs) [] h = absurd (cc)
text_eq_sound (x ∷ xs) (y ∷ ys) h = ground (arith, text_eq_sound xs ys)

pub text_eq_complete : (a b : Bytes) → a ≡ b → text_eq a b ≡ true
text_eq_complete a b e = rw e (text_eq_refl b)

pub get_entry-put_entry :
    (k j v : Bytes) (es : List (Bytes × Bytes))
    → get_entry j (put_entry k v es) ≡ (if text_eq k j then some v else get_entry j es)
unfolding get_entry put_entry
get_entry-put_entry k j v [] = ground arith
get_entry-put_entry k j v ((a, w) ∷ es) = ground (
  arith,
  get_entry-put_entry k j v es,
  text_eq_sound a k,
  text_eq_sound a j,
  text_eq_sound k j,
  text_eq_complete k j,
  text_eq_complete a k,
  text_eq_complete a j,
)

-- No key stands twice.
abbrev pub Unique : List (Bytes × Bytes) → Type 0
Unique [] = Unit {0}
Unique ((k, v) ∷ es) = (get_entry k es ≡ none) × Unique es

get_entry-remove_entry :
    (k j : Bytes) (es : List (Bytes × Bytes))
    → Unique es
    → get_entry j (remove_entry k es) ≡ (if text_eq k j then none else get_entry j es)
unfolding get_entry remove_entry
get_entry-remove_entry k j [] u = ground arith
get_entry-remove_entry k j ((a, w) ∷ es) u = ground (
  arith,
  u.0,
  get_entry-remove_entry k j es u.1,
  text_eq_sound a k,
  text_eq_sound a j,
  text_eq_sound k j,
  text_eq_complete k j,
  text_eq_complete a k,
  text_eq_complete a j,
)

put_entry-Unique : (k v : Bytes) (es : List (Bytes × Bytes)) → Unique es → Unique (put_entry k v es)
unfolding get_entry put_entry
put_entry-Unique k v [] u = (refl, tt)
put_entry-Unique k v ((a, w) ∷ es) u = ground (
  arith,
  u.0,
  put_entry-Unique k v es u.1,
  get_entry-put_entry k a v es,
  text_eq_sound k a,
  text_eq_complete a k,
)

remove_entry-Unique :
    (k : Bytes) (es : List (Bytes × Bytes)) → Unique es → Unique (remove_entry k es)
unfolding get_entry remove_entry
remove_entry-Unique k [] u = tt
remove_entry-Unique k ((a, w) ∷ es) u =
    ground (arith, u.0, remove_entry-Unique k es u.1, get_entry-remove_entry k a es u.1)

module _ {P : Type 0} (stream : Stream P) (cd : Codec) where
  -- Before the header is composed: setHeader() makes getHeader() return the value under every name
  -- that scanHeaderField() does not tell apart from the given one, removeHeader() makes it return
  -- nothing there, both leave every other field as it was, and no field ever stands twice.
  header_fields :
      (name value name' : Bytes) (m : Message P)
      → m.header ≡ none
      → Unique m.headers
      → let s = (set_header stream cd (some name) (some value) m).0 in
        let r = (remove_header stream cd (some name) m).0 in
        (get_header stream cd (some name') s ≡ (
          if text_eq (cd.scan name) (cd.scan name')
          then some value
          else get_header stream cd (some name') m))
        × (get_header stream cd (some name') r ≡ (
            if text_eq (cd.scan name) (cd.scan name')
            then none
            else get_header stream cd (some name') m))
        × Unique s.headers
        × Unique r.headers
  unfolding set_header get_header remove_header
  header_fields name value name' m h u = simp h (
    get_entry-put_entry (cd.scan name) (cd.scan name') value m.headers,
    get_entry-remove_entry (cd.scan name) (cd.scan name') m.headers u,
    put_entry-Unique (cd.scan name) value m.headers u,
    remove_entry-Unique (cd.scan name) m.headers u,
  )
