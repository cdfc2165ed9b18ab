-- ===== src/Events/Arrays.antt =====
-- The two parallel arrays of EventEmitter as a map from events to listener arrays.
use Prim.Native.String.{String}
use text.Mathlib.Text.{◌==◌ as str_eq}
use text.Mathlib.TextEquality.{eq_iff}
use libnode.Base.{
  ℕ, suc, ◌<◌, ◌≡◌, ◌≢◌, refl, false, inl, inr, none, some, List, [], ◌∷◌, ◌++◌, arith,
  if◌then◌else◌, Bool-cases,
}
use libnode.Events.Emitter.{lookup, drop_event}

-- The two arrays have one length, no event stands twice, and no two events share a listener array.
abbrev pub Paired : ℕ → List String → List ℕ → Type 0
Paired n [] [] = Unit {0}
Paired n [] (a ∷ as') = ⊥
Paired n (x ∷ xs) [] = ⊥
Paired n (x ∷ xs) (a ∷ as') =
    (a < n) × (lookup x xs as' ≡ none) × ((y : String) → lookup y xs as' ≢ some a) × Paired n xs as'

pub lookup-lt :
    (n : ℕ) (xs : List String) (as' : List ℕ) (y : String) {b : ℕ}
    → Paired n xs as'
    → lookup y xs as' ≡ some b
    → b < n
unfolding lookup
lookup-lt n [] [] y p h = absurd (cc)
lookup-lt n [] (a ∷ as') y p h = absurd p
lookup-lt n (x ∷ xs) [] y p h = absurd p
lookup-lt n (x ∷ xs) (a ∷ as') y {b} p h = ground (arith, p.0, lookup-lt n xs as' y {b = b} p.3)

pub lookup_inj :
    (n : ℕ) (xs : List String) (as' : List ℕ) (y z : String) {b : ℕ}
    → Paired n xs as'
    → lookup y xs as' ≡ some b
    → lookup z xs as' ≡ some b
    → y ≡ z
unfolding lookup
lookup_inj n [] [] y z p h k = absurd (cc)
lookup_inj n [] (a ∷ as') y z p h k = absurd p
lookup_inj n (x ∷ xs) [] y z p h k = absurd p
lookup_inj n (x ∷ xs) (a ∷ as') y z {b} p h k =
    ground (arith, p.2 y, p.2 z, eq_iff x y, eq_iff x z, lookup_inj n xs as' y z {b = b} p.3)

-- A new event is looked up last.
pub lookup_snoc :
    (n : ℕ) (xs : List String) (as' : List ℕ) (ev y : String) (b : ℕ)
    → Paired n xs as'
    → lookup ev xs as' ≡ none
    → lookup y (xs ++ ev ∷ []) (as' ++ b ∷ []) ≡ (if str_eq ev y then some b else lookup y xs as')
unfolding lookup
lookup_snoc n [] [] ev y b p h = ground arith
lookup_snoc n [] (a ∷ as') ev y b p h = absurd p
lookup_snoc n (x ∷ xs) [] ev y b p h = absurd p
lookup_snoc n (x ∷ xs) (a ∷ as') ev y b p h =
    ground (arith, eq_iff x ev, eq_iff x y, eq_iff ev y, lookup_snoc n xs as' ev y b p.3)

pub Paired-snoc :
    (n : ℕ) (xs : List String) (as' : List ℕ) (ev : String)
    → Paired n xs as'
    → lookup ev xs as' ≡ none
    → Paired (suc n) (xs ++ ev ∷ []) (as' ++ n ∷ [])
unfolding lookup
Paired-snoc n [] [] ev p h = (omega arith, refl, (λ y e. cc), tt)
Paired-snoc n [] (a ∷ as') ev p h = absurd p
Paired-snoc n (x ∷ xs) [] ev p h = absurd p
Paired-snoc n (x ∷ xs) (a ∷ as') ev p h = (
  omega (arith, p.0),
  ground (arith, p.1, eq_iff x ev, eq_iff ev x, lookup_snoc n xs as' ev x n p.3),
  (λ y e. ground (arith, p.0, p.2 y, eq_iff x ev, lookup_snoc n xs as' ev y n p.3)),
  Paired-snoc n xs as' ev p.3 (ground (arith, eq_iff x ev)),
)

-- What `drop_event` leaves of a pair of arrays.
pub record Dropped (n : ℕ) (ev : String) (xs : List String) (as' : List ℕ) (ys : List String)
    (bs : List ℕ) : Type 0 where
  pub paired : Paired n ys bs
  pub others : (y : String) → lookup y ys bs ≡ (if str_eq ev y then none else lookup y xs as')

pub drop_event-Dropped :
    (n : ℕ) (xs : List String) (as' : List ℕ) (ev : String)
    → Paired n xs as'
    → Dropped n ev xs as' (drop_event ev xs as').0 (drop_event ev xs as').1
unfolding drop_event lookup
drop_event-Dropped n [] [] ev p = record { paired = tt; others = λ y. ground arith }
drop_event-Dropped n [] (a ∷ as') ev p = absurd p
drop_event-Dropped n (x ∷ xs) [] ev p = absurd p
drop_event-Dropped n (x ∷ xs) (a ∷ as') ev p = elim (Bool-cases (str_eq x ev)) [
  | inl e ↦ rw e (record {
    paired = p.3;
    others = λ y. ground (arith, p.1, eq_iff x ev, eq_iff x y, eq_iff ev y);
  })
  | inr e ↦ rw e (kept e (drop_event-Dropped n xs as' ev p.3))
]
  where
    kept :
        str_eq x ev ≡ false
        → Dropped n ev xs as' (drop_event ev xs as').0 (drop_event ev xs as').1
        → Dropped n ev
            (x ∷ xs)
            (a ∷ as')
            (x ∷ (drop_event ev xs as').0)
            (a ∷ (drop_event ev xs as').1)
    kept e d = record {
      paired = (
        p.0,
        ground (arith, d.others x, p.1),
        (λ y h. ground (arith, d.others y, p.2 y)),
        d.paired,
      );
      others = λ y. ground (arith, d.others y, e, eq_iff x ev, eq_iff x y, eq_iff ev y);
    }
