-- ===== src/Buffer/Splice.antt =====
-- What std::copy() leaves of an array, and the lengths of ranges.
use libnode.Base.{
  ℕ, zero, suc, ◌+◌, ◌-◌, ◌≤◌, ◌≡◌, refl, sym, ap, ◌∙◌, [], ◌∷◌, ◌++◌, arith, append-nil, length,
  take, drop,
}
use libnode.Net.Socket.State.{Bytes}
use libnode.Buffer.Ops.{stale, splice}

-- The first bytes of what stands in memory, before `n` others.
before : (ℕ → ℕ) → ℕ → ℕ → Bytes
before memory zero n = []
before memory (suc m) n = memory (m + n) ∷ before memory m n

length-before : (memory : ℕ → ℕ) (m n : ℕ) → length (before memory m n) ≡ m
unfolding before
length-before memory zero n = refl
length-before memory (suc m) n = ap suc (length-before memory m n)

length-stale : (memory : ℕ → ℕ) (n : ℕ) → length (stale memory n) ≡ n
length-stale memory zero = refl
length-stale memory (suc n) = ap suc (length-stale memory n)

stale-add : (memory : ℕ → ℕ) (m n : ℕ) → stale memory (m + n) ≡ before memory m n ++ stale memory n
unfolding before
stale-add memory zero n = ap (stale memory) (omega arith)
stale-add memory (suc m) n =
    let step : suc m + n ≡ suc (m + n) = omega arith in
    ap (stale memory) step ∙ ap (λ l. memory (m + n) ∷ l) (stale-add memory m n)

splice-front : (xs p old : Bytes) → length xs ≡ length p → splice 0 xs (p ++ old) ≡ xs ++ old
unfolding splice
splice-front [] [] [] h = refl
splice-front [] [] (o ∷ old) h = refl
splice-front [] (y ∷ p) old h = absurd (omega (arith, h))
splice-front (x ∷ xs) [] old h = absurd (omega (arith, h))
splice-front (x ∷ xs) (y ∷ p) old h = ap (λ l. x ∷ l) (splice-front xs p old (omega (arith, h)))

splice-behind : (p xs old : Bytes) → splice (length p) xs (p ++ old) ≡ p ++ splice 0 xs old
unfolding splice
splice-behind [] xs old = refl
splice-behind (y ∷ p) xs old = ap (λ l. y ∷ l) (splice-behind p xs old)

-- Two texts copied one behind the other into an array of their length.
pub splice-splice :
    (memory : ℕ → ℕ) (xs ys : Bytes)
    → splice (length xs) ys (splice 0 xs (stale memory (length xs + length ys))) ≡ xs ++ ys
splice-splice memory xs ys =
    let first = before memory (length xs) (length ys) in
    let rest = stale memory (length ys) in
    ap (λ l. splice (length xs) ys (splice 0 xs l)) (stale-add memory (length xs) (length ys))
    ∙ ap (splice (length xs) ys)
        (splice-front xs first rest (sym (length-before memory (length xs) (length ys))))
    ∙ splice-behind xs ys rest
    ∙ ap (λ l. xs ++ l)
        (ap (splice 0 ys) (sym (append-nil rest))
          ∙ splice-front ys rest [] (sym (length-stale memory (length ys)))
          ∙ append-nil ys)

pub length-take : (n : ℕ) (xs : Bytes) → n ≤ length xs → length (take n xs) ≡ n
length-take zero xs h = refl
length-take (suc n) [] h = absurd (omega (arith, h))
length-take (suc n) (x ∷ xs) h = ap suc (length-take n xs (omega (arith, h)))

pub length-drop : (n : ℕ) (xs : Bytes) → length (drop n xs) ≡ length xs - n
length-drop zero xs = omega arith
length-drop (suc n) [] = omega arith
length-drop (suc n) (x ∷ xs) = length-drop n xs ∙ omega arith

pub take-length : (xs : Bytes) → take (length xs) xs ≡ xs
take-length [] = refl
take-length (x ∷ xs) = ap (λ l. x ∷ l) (take-length xs)

drop-nil : (n : ℕ) → drop {A = ℕ} n [] ≡ []
drop-nil zero = refl
drop-nil (suc n) = refl

take-nil : (n : ℕ) → take {A = ℕ} n [] ≡ []
take-nil zero = refl
take-nil (suc n) = refl

pub drop-drop : (m n : ℕ) (xs : Bytes) → drop m (drop n xs) ≡ drop (n + m) xs
drop-drop m zero xs = ap (λ k. drop k xs) (omega arith)
drop-drop m (suc n) [] = drop-nil m ∙ sym (drop-nil (suc n + m))
drop-drop m (suc n) (x ∷ xs) =
    let step : suc n + m ≡ suc (n + m) = omega arith in
    drop-drop m n xs ∙ ap (λ k. drop k (x ∷ xs)) (sym step)

pub drop-take : (k n : ℕ) (xs : Bytes) → drop k (take (k + n) xs) ≡ take n (drop k xs)
drop-take zero n xs = ap (λ j. take j xs) (omega arith)
drop-take (suc k) n [] = ap (drop (suc k)) (take-nil (suc k + n)) ∙ sym (take-nil n)
drop-take (suc k) n (x ∷ xs) =
    let step : suc k + n ≡ suc (k + n) = omega arith in
    ap (λ j. drop (suc k) (take j (x ∷ xs))) step ∙ drop-take k n xs

pub take-take : (m n : ℕ) (xs : Bytes) → m ≤ n → take m (take n xs) ≡ take m xs
take-take zero n xs h = refl
take-take (suc m) zero xs h = absurd (omega (arith, h))
take-take (suc m) (suc n) [] h = refl
take-take (suc m) (suc n) (x ∷ xs) h = ap (λ l. x ∷ l) (take-take m n xs (omega (arith, h)))
