-- ===== src/Jsdp/Found.antt =====
-- Which services are found: those of the name, without a password or with the one of the hash.
use libnode.Base.{
  ℕ, zero, suc, ◌+◌, ◌-◌, ◌≤◌, ◌<◌, ◌≡◌, refl, sym, ap, ◌∙◌, Bool, true, false, not, ◌&&◌, Option,
  none, some, List, [], ◌∷◌, ◌++◌, arith, length, length-append, drop, ltb, if◌then◌else◌, ◌==◌,
  append_assoc, Bool-cases, inl, inr, and_left, and_right,
}
use libnode.Net.Socket.State.{Bytes}
use libnode.Http.Message.Head.{text_eq}
use libnode.Jsdp.State.{Entry, Env}
use libnode.Jsdp.Keys.{
  colon, or_empty, hash_of, key_of, is_prefix, is_at, starts_with, is_suffix, ends_with_hash,
  ends_with, get_services,
}

abbrev pub no_colon : Bytes → Bool
no_colon [] = true
no_colon (c ∷ cs) = not (c == colon) && no_colon cs

-- What SHA-1 and Base64 give: texts of one length, which is not 0, without a colon.
pub record IsHash (env : Env) : Type 0 where
  pub size : ℕ
  pub not_empty : 1 ≤ size
  pub same_length : (password : Bytes) → length (env.hash password) ≡ size
  pub has_no_colon : (password : Bytes) → no_colon (env.hash password) ≡ true

and_assoc : (a b c : Bool) → ((a && b) && c) ≡ (a && (b && c))
and_assoc true b c = refl
and_assoc false b c = refl

not_colon : (c : ℕ) (cs : Bytes) → no_colon (c ∷ cs) ≡ true → (c == colon) ≡ false
not_colon c cs h = elim (Bool-cases (c == colon)) [
  | inl e ↦ absurd (cc (ap not (sym e) ∙ and_left (not (c == colon)) (no_colon cs) h))
  | inr e ↦ e
]

-- A name without a colon begins a key that begins with such a name, if they are the same.
starts-name :
    (q n rest : Bytes)
    → no_colon q ≡ true
    → no_colon n ≡ true
    → (is_prefix q (n ++ colon ∷ rest) && is_at colon (n ++ colon ∷ rest) (length q)) ≡ text_eq q n
unfolding is_prefix text_eq
starts-name [] [] rest hq hn = refl
starts-name [] (c ∷ cs) rest hq hn = not_colon c cs hn
starts-name (d ∷ ds) [] rest hq hn = rw (not_colon d ds hq) refl
starts-name (d ∷ ds) (c ∷ cs) rest hq hn =
    and_assoc (d == c) (is_prefix ds (cs ++ colon ∷ rest))
      (is_at colon (cs ++ colon ∷ rest) (length ds))
    ∙ ap (λ b. (d == c) && b)
        (starts-name ds cs rest (and_right (not (d == colon)) (no_colon ds) hq)
          (and_right (not (c == colon)) (no_colon cs) hn))

drop-append : (p t : Bytes) → drop (length p) (p ++ t) ≡ t
drop-append [] t = refl
drop-append (c ∷ p) t = drop-append p t

is_at-append : (p t : Bytes) (i : ℕ) → is_at colon (p ++ t) (length p + i) ≡ is_at colon t i
is_at-append [] t i = ap (is_at colon t) (omega arith)
is_at-append (c ∷ p) t i =
    let next : length (c ∷ p) + i ≡ suc (length p + i) = omega arith in rw next (is_at-append p t i)

-- A text without a colon has none at any place.
is_at-no_colon : (t : Bytes) (i : ℕ) → no_colon t ≡ true → is_at colon t i ≡ false
is_at-no_colon [] i h = refl
is_at-no_colon (c ∷ cs) zero h = not_colon c cs h
is_at-no_colon (c ∷ cs) (suc i) h =
    is_at-no_colon cs i (and_right (not (c == colon)) (no_colon cs) h)

-- The end of a key whose last part is a hash.
last-hash :
    (p h : Bytes)
    → 1 ≤ length h
    → no_colon h ≡ true
    → is_at colon (p ++ colon ∷ h) (length (p ++ colon ∷ h) - 1) ≡ false
last-hash p [] l n = absurd (omega (arith, l))
last-hash p (c ∷ cs) l n =
    let size = length-append p (colon ∷ c ∷ cs) in
    let place : length (p ++ colon ∷ c ∷ cs) - 1 ≡ length p + suc (length cs) =
      omega (arith, size) in
    rw place
      (is_at-append p (colon ∷ c ∷ cs) (suc (length cs)) ∙ is_at-no_colon (c ∷ cs) (length cs) n)

last-colon : (p : Bytes) → is_at colon (p ++ colon ∷ []) (length (p ++ colon ∷ []) - 1) ≡ true
last-colon p =
    let size = length-append p (colon ∷ []) in
    let place : length (p ++ colon ∷ []) - 1 ≡ length p + 0 = omega (arith, size) in
    rw place (is_at-append p (colon ∷ []) 0)

ltb-false : (a b : ℕ) → b ≤ a → ltb a b ≡ false
ltb-false a b h = ground arith

ltb-true : (a b : ℕ) → a < b → ltb a b ≡ true
ltb-true a b h = ground arith

and-true : (b : Bool) → (b && true) ≡ b
and-true true = refl
and-true false = refl

ends-hash :
    (p h q : Bytes)
    → 1 ≤ length p
    → length q ≡ length h
    → ends_with_hash (p ++ colon ∷ h) (some q) ≡ text_eq h q
unfolding is_suffix
ends-hash p h q lp lq =
    let size = length-append p (colon ∷ h) in
    let key = p ++ colon ∷ h in
    let snoc : key ≡ (p ++ colon ∷ []) ++ h = sym (append_assoc p (colon ∷ []) h) in
    let front = length-append p (colon ∷ []) in
    let long_enough = ltb-false (length key) (length q) (omega (arith, size, lq)) in
    let longer = ltb-true (length q + 1) (length key) (omega (arith, size, lq, lp)) in
    let cut : length key - length q ≡ length (p ++ colon ∷ []) = omega (arith, size, front, lq) in
    let place : length key - length q - 1 ≡ length p + 0 = omega (arith, size, lq) in
    let behind : drop (length key - length q) key ≡ h =
      ap (λ n. drop n key) cut
      ∙ ap (drop (length (p ++ colon ∷ []))) snoc
      ∙ drop-append (p ++ colon ∷ []) h in
    let at : is_at colon key (length key - length q - 1) ≡ true =
      ap (is_at colon key) place ∙ is_at-append p (colon ∷ h) 0 in
    rw (long_enough, longer, at, behind) (and-true (text_eq h q))

-- A service without a password is open to all, any other to who asks with a password of its hash.
abbrev pub is_open : Env → Option Bytes → Option Bytes → Bool
is_open env none q = true
is_open env (some password) none = false
is_open env (some password) (some q) = text_eq (env.hash password) (env.hash q)

abbrev pub is_named : Bytes → Option Bytes → Bool
is_named name none = true
is_named name (some q) = text_eq q name

abbrev pub no_colon_in : Option Bytes → Bool
no_colon_in none = true
no_colon_in (some t) = no_colon t

ends_with-key :
    (env : Env) (front : Bytes) (password q : Option Bytes)
    → IsHash env
    → 1 ≤ length front
    → ends_with (front ++ colon ∷ or_empty (hash_of env password)) (hash_of env q)
      ≡ is_open env password q
unfolding ends_with
ends_with-key env front none q h l = rw (last-colon front) refl
ends_with-key env front (some password) none h l =
    let size = h.same_length password in
    rw
      (last-hash front (env.hash password) (omega (arith, size, h.not_empty))
        (h.has_no_colon password))
      refl
ends_with-key env front (some password) (some q) h l =
    let size = h.same_length password in
    rw
      (last-hash front (env.hash password) (omega (arith, size, h.not_empty))
        (h.has_no_colon password))
      (ends-hash front (env.hash password) (env.hash q) l (h.same_length q ∙ sym size))

-- What looking a password up in the key of a service finds.
pub ends_with-key_of :
    (env : Env) (e : Entry) (q : Option Bytes)
    → IsHash env
    → ends_with (key_of env e) (hash_of env q) ≡ is_open env e.password q
unfolding key_of
ends_with-key_of env e q h =
    let front = e.name ++ colon ∷ or_empty e.version in
    let size = length-append e.name (colon ∷ or_empty e.version) in
    ap (λ key. ends_with key (hash_of env q))
      (sym (
        append_assoc e.name (colon ∷ or_empty e.version)
          (colon ∷ or_empty (hash_of env e.password))))
    ∙ ends_with-key env front e.password q h (omega (arith, size))

starts_with-key_of :
    (env : Env) (e : Entry) (name : Option Bytes)
    → no_colon_in name ≡ true
    → no_colon e.name ≡ true
    → starts_with (key_of env e) name ≡ is_named e.name name
unfolding starts_with key_of
starts_with-key_of env e none hq hn = refl
starts_with-key_of env e (some q) hq hn = starts-name q e.name _ hq hn

-- The services of the registry are kept under their own keys.
abbrev pub AllKeyed : Env → List (Bytes × Entry) → Type 0
AllKeyed env [] = Unit
AllKeyed env ((key, e) ∷ es) = (key ≡ key_of env e) × AllKeyed env es

abbrev pub AllNamed : List (Bytes × Entry) → Type 0
AllNamed [] = Unit
AllNamed ((key, e) ∷ es) = (no_colon e.name ≡ true) × AllNamed es

-- The services of a name that are open to a password, in the order of the registry.
unfoldable pub wanted : Env → Option Bytes → Option Bytes → List (Bytes × Entry) → List Entry
wanted env name q [] = []
wanted env name q ((key, e) ∷ es) =
    let rest = wanted env name q es in
    if is_named e.name name && is_open env e.password q then e ∷ rest else rest

-- getServices() on services under their own keys, for a name and names without a colon: with the hash
-- of a password it finds the services of the name, or all without a name, that have no password or
-- one of the same hash; without a hash those that have no password.
pub get_services-wanted :
    (env : Env) (name q : Option Bytes) (es : List (Bytes × Entry))
    → IsHash env
    → no_colon_in name ≡ true
    → AllKeyed env es
    → AllNamed es
    → get_services name (hash_of env q) es ≡ wanted env name q es
unfolding get_services wanted
get_services-wanted env name q [] h hq k n = refl
get_services-wanted env name q ((key, e) ∷ es) h hq k n =
    let starts = ap (λ x. starts_with x name) k.0 ∙ starts_with-key_of env e name hq n.0 in
    let ends = ap (λ x. ends_with x (hash_of env q)) k.0 ∙ ends_with-key_of env e q h in
    rw (starts, ends, get_services-wanted env name q es h hq k.1 n.1) refl
