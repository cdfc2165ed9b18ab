-- ===== src/Jsdp/Keys.antt =====
-- The keys of services, and how a name and a hash are looked up in them.
use libnode.Base.{
  ℕ, ◌-◌, Bool, true, false, ◌&&◌, Option, none, some, List, [], ◌∷◌, ◌++◌, length, drop, ltb,
  get_elem?, if◌then◌else◌, ◌==◌, ◌+◌,
}
use libnode.Net.Socket.State.{Bytes}
use libnode.Http.Message.Head.{text_eq}
use libnode.Jsdp.State.{Entry, Env}

abbrev pub colon : ℕ
colon = 58

abbrev pub or_empty : Option Bytes → Bytes
or_empty none = []
or_empty (some t) = t

-- getHash(), without what it saves.
abbrev pub hash_of : Env → Option Bytes → Option Bytes
hash_of env none = none
hash_of env (some password) = some (env.hash password)

-- The text of getKey().
unfoldable pub key_of : Env → Entry → Bytes
key_of env e =
    e.name ++ (colon ∷ (or_empty e.version ++ (colon ∷ or_empty (hash_of env e.password))))

-- The prefix and the suffix of a String.
unfoldable pub is_prefix : Bytes → Bytes → Bool
is_prefix [] t = true
is_prefix (c ∷ cs) [] = false
is_prefix (c ∷ cs) (d ∷ ds) = (c == d) && is_prefix cs ds

abbrev pub is_at : ℕ → Bytes → ℕ → Bool
is_at c t i = elim (get_elem? t i) [ none ↦ false | some d ↦ d == c ]

unfoldable pub starts_with : Bytes → Option Bytes → Bool
starts_with key none = true
starts_with key (some name) = is_prefix name key && is_at colon key (length name)

unfoldable pub is_suffix : Bytes → Bytes → Bool
is_suffix s t =
    if ltb (length t) (length s) then false else text_eq (drop (length t - length s) t) s

abbrev pub ends_with_hash : Bytes → Option Bytes → Bool
ends_with_hash key none = false
ends_with_hash key (some hash) =
    is_suffix hash key
    && (ltb (length hash + 1) (length key) && is_at colon key (length key - length hash - 1))

unfoldable pub ends_with : Bytes → Option Bytes → Bool
ends_with key hash = if is_at colon key (length key - 1) then true else ends_with_hash key hash

-- getServices().
unfoldable pub get_services : Option Bytes → Option Bytes → List (Bytes × Entry) → List Entry
get_services name hash [] = []
get_services name hash ((key, e) ∷ es) =
    let rest = get_services name hash es in
    if starts_with key name && ends_with key hash then e ∷ rest else rest
