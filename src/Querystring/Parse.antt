-- ===== src/Querystring/Parse.antt =====
-- querystring::parse() (src/querystring.cpp). `to_std` is String::toStdString() in percentDecode().
use libnode.Base.{
  ℕ, ◌+◌, ◌-◌, Option, none, some, List, [], ◌∷◌, ◌++◌, take, drop, if◌then◌else◌, ◌==◌, ◌>>=◌,
}
use libnode.Net.Socket.State.{Bytes}
use libnode.Http.Message.Head.{text_eq}
use libnode.Util.Percent.{percent_decode}

-- A value of the object: a text, or the array of the texts of a key that stands more than once.
pub data Param : Type 0 where
  text : Bytes → Param
  texts : List Bytes → Param

abbrev pub add_value : Param → Bytes → Param
add_value (text v) val = texts (v ∷ val ∷ [])
add_value (texts vs) val = texts (vs ++ val ∷ [])

-- addPair(), on the object as an association list.
unfoldable pub add_pair : Bytes → Bytes → List (Bytes × Param) → List (Bytes × Param)
add_pair key val [] = (key, text val) ∷ []
add_pair key val ((k, v) ∷ rest) =
    if text_eq k key then (k, add_value v val) ∷ rest else (k, v) ∷ add_pair key val rest

-- addPair() of the decoded key and value; `none` is a decoding that reads behind its text.
unfoldable pub add_decoded :
    (Bytes → Bytes) → Bytes × Bytes → Option (List (Bytes × Param)) → Option (List (Bytes × Param))
add_decoded to_std (key, val) obj = do
  entries ← obj
  k ← percent_decode to_std key
  v ← percent_decode to_std val
  some (add_pair k v entries)

unfoldable pub substring : ℕ → ℕ → Bytes → Bytes
substring start stop str = take (stop - start) (drop start str)

-- The key and the value of the field that ends before a position.
unfoldable pub field_at : Bytes → ℕ → ℕ → Option Bytes → ℕ → Bytes × Bytes
field_at query key_start val_start none i = (substring key_start i query, [])
field_at query key_start val_start (some key) i = (key, substring val_start i query)

-- The loop, on the characters that are left behind position `i` of the query, and what follows it.
unfoldable pub parse_loop :
    (Bytes → Bytes)
    → ℕ
    → ℕ
    → Bytes
    → Bytes
    → ℕ
    → ℕ
    → ℕ
    → Option Bytes
    → Option (List (Bytes × Param))
    → Option (List (Bytes × Param))
parse_loop to_std sep eq query [] i key_start val_start key obj =
    add_decoded to_std (field_at query key_start val_start key i) obj
parse_loop to_std sep eq query (c ∷ cs) i key_start val_start key obj =
    let found =
      parse_loop to_std sep eq query cs (i + 1) key_start (i + 1)
        (some (substring key_start i query)) obj in
    let added =
      parse_loop to_std sep eq query cs (i + 1) (i + 1) val_start none
        (add_decoded to_std (field_at query key_start val_start key i) obj) in
    let passed = parse_loop to_std sep eq query cs (i + 1) key_start val_start key obj in
    if c == eq then found else if c == sep then added else passed

unfoldable pub parse : (Bytes → Bytes) → Option Bytes → ℕ → ℕ → Option (List (Bytes × Param))
parse to_std none sep eq = some []
parse to_std (some []) sep eq = some []
parse to_std (some (c ∷ cs)) sep eq =
    parse_loop to_std sep eq (c ∷ cs) (c ∷ cs) 0 0 0 none (some [])
