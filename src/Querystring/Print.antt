-- ===== src/Querystring/Print.antt =====
-- querystring::stringify() (src/querystring.cpp).
use libnode.Base.{ℕ, Option, none, some, List, [], ◌∷◌, ◌++◌}
use libnode.Net.Socket.State.{Bytes}
use libnode.Util.Percent.{percent_encode}

-- A value that is no array: null, undefined or an object, or one with the bytes of its
-- String::valueOf().
pub data Scalar : Type 0 where
  blank : Scalar
  plain : Bytes → Scalar

-- A value of an entry; an array in an array is blank.
pub data Field : Type 0 where
  scalar : Scalar → Field
  array : List Scalar → Field

-- toString().
unfoldable pub scalar_text : Scalar → Bytes
scalar_text blank = []
scalar_text (plain bytes) = percent_encode bytes

abbrev pub pair_text : ℕ → Bytes → Scalar → Bytes
pair_text eq key v = percent_encode key ++ (eq ∷ scalar_text v)

-- The loop over an array, from its first element on.
unfoldable pub array_text : ℕ → ℕ → Bytes → List Scalar → Bytes
array_text sep eq key [] = []
array_text sep eq key (v ∷ []) = pair_text eq key v
array_text sep eq key (v ∷ w ∷ vs) = pair_text eq key v ++ (sep ∷ array_text sep eq key (w ∷ vs))

unfoldable pub entry_text : ℕ → ℕ → Bytes × Field → Bytes
entry_text sep eq (key, scalar v) = pair_text eq key v
entry_text sep eq (key, array vs) = array_text sep eq key vs

-- The loop over the entries, in the order in which the object gives them.
unfoldable pub entries_text : ℕ → ℕ → List (Bytes × Field) → Bytes
entries_text sep eq [] = []
entries_text sep eq (e ∷ []) = entry_text sep eq e
entries_text sep eq (e ∷ e' ∷ es) = entry_text sep eq e ++ (sep ∷ entries_text sep eq (e' ∷ es))

unfoldable pub stringify : Option (List (Bytes × Field)) → ℕ → ℕ → Bytes
stringify none sep eq = []
stringify (some entries) sep eq = entries_text sep eq entries
