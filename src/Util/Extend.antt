-- ===== src/Util/Extend.antt =====
-- extend() (src/util.cpp), on objects as association lists.
use libnode.Base.{◌≡◌, refl, ◌∙◌, Option, none, some, List, [], ◌∷◌, Bool-cases, inl, inr}
use libnode.Net.Socket.State.{Bytes}
use libnode.Http.Message.Head.{text_eq, get_entry, put_entry}
use libnode.Http.Message.Fields.{get_entry-put_entry, text_eq_sound, Unique}

-- The entries of `addition` put into `target`.
unfoldable pub put_entries : List (Bytes × Bytes) → List (Bytes × Bytes) → List (Bytes × Bytes)
put_entries target [] = target
put_entries target ((k, v) ∷ rest) = put_entries (put_entry k v target) rest

-- extend(): nothing is done to a target that is null.
unfoldable pub extend :
    Option (List (Bytes × Bytes)) → List (Bytes × Bytes) → Option (List (Bytes × Bytes))
extend none addition = none
extend (some target) addition = some (put_entries target addition)

abbrev pub or_else {ℓ} : {A : Type ℓ} → Option A → Option A → Option A
or_else none b = b
or_else (some a) b = some a

put_entries_lem :
    (j : Bytes) (addition target : List (Bytes × Bytes))
    → Unique addition
    → get_entry j (put_entries target addition)
      ≡ or_else (get_entry j addition) (get_entry j target)
unfolding put_entries get_entry
put_entries_lem j [] target u = refl
put_entries_lem j ((k, v) ∷ rest) target u =
    let here = get_entry-put_entry k j v target in
    put_entries_lem j rest (put_entry k v target) u.1 ∙ elim (Bool-cases (text_eq k j)) [
      | inl e ↦
          let absent : get_entry j rest ≡ none = rw⁻¹ (text_eq_sound k j e) u.0 in
          rw (here, e, absent) refl
      | inr e ↦ rw (here, e) refl
    ]

-- extend() of an object by one in which no key stands twice: each key has its value in the addition,
-- or else its value in the target.
pub extend_entries :
    (j : Bytes) (addition target : List (Bytes × Bytes))
    → Unique addition
    → (extend (some target) addition ≡ some (put_entries target addition))
      × (get_entry j (put_entries target addition)
          ≡ or_else (get_entry j addition) (get_entry j target))
unfolding extend
extend_entries j addition target u = (refl, put_entries_lem j addition target u)
