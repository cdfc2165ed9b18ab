-- ===== src/Shared/FreeList.antt =====
-- FreeList (include/libnode/detail/free_list.h), for objects: a bounded list of things to use again.
use libnode.Base.{
  ℕ, ◌≤◌, ◌≡◌, refl, true, false, Option, none, some, List, [], ◌∷◌, ◌++◌, arith, length,
  length-append, append_assoc, ltb, if◌then◌else◌,
}

pub record FreeList (A : Type 0) : Type 0 where
  pub max : ℕ
  pub list : List A

abbrev pub new_free_list : {A : Type 0} → ℕ → FreeList A
new_free_list m = record { max = m; list = [] }

module _ {A : Type 0} where
  unfoldable pub alloc : FreeList A → Option A × FreeList A
  alloc f = elim f.list [ [] ↦ (none, f) | x ∷ xs ↦ (some x, record f { list = xs }) ]

  unfoldable pub free : A → FreeList A → FreeList A
  free x f = if ltb (length f.list) f.max then record f { list = f.list ++ x ∷ [] } else f

  unfoldable pub clear_list : FreeList A → FreeList A
  clear_list f = record f { list = [] }

  -- The uses of a list: the third table has what free() kept, the second what alloc() gave.
  pub data Uses (m : ℕ) : FreeList A → List A → List A → Type 0 where
    fresh : Uses m (new_free_list m) [] []
    allocated :
        {f : FreeList A} {gave kept : List A} (x : A)
        → (alloc f).0 ≡ some x
        → Uses m f gave kept
        → Uses m (alloc f).1 (gave ++ x ∷ []) kept
    refused :
        {f : FreeList A} {gave kept : List A}
        → (alloc f).0 ≡ none
        → Uses m f gave kept
        → Uses m (alloc f).1 gave kept
    freed :
        {f : FreeList A} {gave kept : List A} (x : A)
        → ltb (length f.list) f.max ≡ true
        → Uses m f gave kept
        → Uses m (free x f) gave (kept ++ x ∷ [])
    dropped :
        {f : FreeList A} {gave kept : List A} (x : A)
        → ltb (length f.list) f.max ≡ false
        → Uses m f gave kept
        → Uses m (free x f) gave kept

  abbrev pub first : List A → Option A
  first [] = none
  first (x ∷ xs) = some x

  -- The list is within its bound, and has what was kept and not given again.
  pub record IsKept (f : FreeList A) (gave kept : List A) : Type 0 where
    pub bounded : length f.list ≤ f.max
    pub in_order : gave ++ f.list ≡ kept

  alloc-first : (f : FreeList A) → (alloc f).0 ≡ first f.list
  unfolding alloc
  alloc-first f = by_list f.list refl
    where
      by_list : (l : List A) → f.list ≡ l → (alloc f).0 ≡ first l
      by_list [] e = rw e refl
      by_list (x ∷ xs) e = rw e refl

  alloc-IsKept :
      (f : FreeList A) (gave kept : List A) (x : A)
      → (alloc f).0 ≡ some x
      → IsKept f gave kept
      → IsKept (alloc f).1 (gave ++ x ∷ []) kept
  unfolding alloc
  alloc-IsKept f gave kept x h k = by_list f.list refl
    where
      by_list : (l : List A) → f.list ≡ l → IsKept (alloc f).1 (gave ++ x ∷ []) kept
      by_list [] e = absurd (ground (arith, e, h))
      by_list (y ∷ ys) e =
          ground (arith, e, h, k.bounded, k.in_order, append_assoc gave (x ∷ []) ys)

  refused-IsKept :
      (f : FreeList A) (gave kept : List A)
      → (alloc f).0 ≡ none
      → IsKept f gave kept
      → IsKept (alloc f).1 gave kept
  unfolding alloc
  refused-IsKept f gave kept h k = ground (arith, h, k.bounded, k.in_order)

  free-IsKept :
      (f : FreeList A) (gave kept : List A) (x : A)
      → ltb (length f.list) f.max ≡ true
      → IsKept f gave kept
      → IsKept (free x f) gave (kept ++ x ∷ [])
  unfolding free
  free-IsKept f gave kept x h k = ground (
    arith,
    h,
    k.bounded,
    k.in_order,
    length-append f.list (x ∷ []),
    append_assoc gave f.list (x ∷ []),
  )

  dropped-IsKept :
      (f : FreeList A) (gave kept : List A) (x : A)
      → ltb (length f.list) f.max ≡ false
      → IsKept f gave kept
      → IsKept (free x f) gave kept
  unfolding free
  dropped-IsKept f gave kept x h k = ground (arith, h, k.bounded, k.in_order)

  uses_bounded :
      {m : ℕ} {f : FreeList A} {gave kept : List A} → Uses m f gave kept → IsKept f gave kept
  uses_bounded fresh = record { bounded = omega arith; in_order = refl }
  uses_bounded (allocated {f} {gave} {kept} x h u) = alloc-IsKept f gave kept x h (uses_bounded u)
  uses_bounded (refused {f} {gave} {kept} h u) = refused-IsKept f gave kept h (uses_bounded u)
  uses_bounded (freed {f} {gave} {kept} x h u) = free-IsKept f gave kept x h (uses_bounded u)
  uses_bounded (dropped {f} {gave} {kept} x h u) = dropped-IsKept f gave kept x h (uses_bounded u)

  -- However alloc() and free() are called on a new list: it never has more than its maximum, what
  -- alloc() gave and what is in the list is what free() kept, in order, and alloc() gives the first
  -- of the list, or null if that is empty.
  pub Uses-IsKept :
      {m : ℕ} {f : FreeList A} {gave kept : List A}
      → Uses m f gave kept
      → IsKept f gave kept × ((alloc f).0 ≡ first f.list)
  Uses-IsKept {m} {f} u = (uses_bounded u, alloc-first f)
