-- ===== src/Net/Server/Counting.antt =====
-- What can happen to a net::Server, and what is counted of it.
use mathlib.Core.Path.{subst}
use libnode.Base.{
  ℕ, ◌+◌, ◌-◌, ◌≤◌, ◌≡◌, refl, ◌⊎◌, inl, inr, Bool, true, false, not, ◌&&◌, ◌||◌, Option, none,
  some, List, [], ◌∷◌, ◌++◌, arith, length, is_some, leb, if◌then◌else◌, ◌==◌, Bool-cases,
}
use libnode.Net.Server.State.{
  HandleType, Event, listening_event, close_event, destroy_event, error_event, connection_event,
  Tick, close_tick, listening_tick, error_tick, Server,
}
use libnode.Net.Server.Ops.{close, on_connection, remove_id, decrement, remove_connection, run_next}

abbrev pub close_ticks : List Tick → ℕ
close_ticks [] = 0
close_ticks (close_tick ∷ ts) = 1 + close_ticks ts
close_ticks (listening_tick ∷ ts) = close_ticks ts
close_ticks (error_tick e ∷ ts) = close_ticks ts

abbrev pub close_events : List Event → ℕ
close_events [] = 0
close_events (close_event ∷ es) = 1 + close_events es
close_events (listening_event ∷ es) = close_events es
close_events (destroy_event ∷ es) = close_events es
close_events (error_event e ∷ es) = close_events es
close_events (connection_event c ∷ es) = close_events es

pub close_ticks-append : (p q : List Tick) → close_ticks (p ++ q) ≡ close_ticks p + close_ticks q
close_ticks-append [] q = omega arith
close_ticks-append (close_tick ∷ p) q = omega (arith, close_ticks-append p q)
close_ticks-append (listening_tick ∷ p) q = close_ticks-append p q
close_ticks-append (error_tick e ∷ p) q = close_ticks-append p q

pub close_events-append :
    (p q : List Event) → close_events (p ++ q) ≡ close_events p + close_events q
close_events-append [] q = omega arith
close_events-append (close_event ∷ p) q = omega (arith, close_events-append p q)
close_events-append (listening_event ∷ p) q = close_events-append p q
close_events-append (destroy_event ∷ p) q = close_events-append p q
close_events-append (error_event e ∷ p) q = close_events-append p q
close_events-append (connection_event c ∷ p) q = close_events-append p q

-- The close events that a server owes: one, once it is closed and has no connection.
abbrev pub due : Option HandleType → ℕ → ℕ
due (some h) n = 0
due none n = if n == 0 then 1 else 0

abbrev pub is_in : ℕ → List ℕ → Bool
is_in c [] = false
is_in c (d ∷ ds) = if c == d then true else is_in c ds

-- What can happen: a client comes while the server listens, or none that is one; the socket of a
-- connection emits its close event; close() is called; process::nextTick runs its oldest entry.
pub data Step : Server → Server → Type 0 where
  comes :
      {s : Server} (client : ℕ) → is_some s.handle ≡ true → Step s (on_connection (some client) s)
  no_client : {s : Server} → Step s (on_connection none s)
  goes :
      {s : Server} (client : ℕ) → is_in client s.live ≡ true → Step s (remove_connection client s)
  closes : {s : Server} (callback : Option ℕ) → Step s (close callback s).0
  ticks : {s : Server} → Step s (run_next s.ticks s)

pub data Run : Server → Server → Type 0 where
  begins : {s : Server} → Run s s
  steps : {s t u : Server} → Run s t → Step t u → Run s u

pub record IsSound (s : Server) : Type 0 where
  pub counted : s.connections ≡ length s.live
  pub bounded : (s.max_connections ≡ 0) ⊎ (s.connections ≤ s.max_connections)
  pub settled : close_ticks s.ticks + close_events s.events ≡ due s.handle s.connections
  pub called_back : (close_events s.events ≡ 0) ⊎ (s.close_callbacks ≡ [])
  pub unfailed : s.failed ≡ false

pub length-remove_id :
    (c : ℕ) (ds : List ℕ) → is_in c ds ≡ true → length (remove_id c ds) + 1 ≡ length ds
length-remove_id c [] h = absurd (cc)
length-remove_id c (d ∷ ds) h = elim (Bool-cases (c == d)) [
  | inl e ↦ rw e (omega arith)
  | inr e ↦
      let inside = subst (λ b. (if b then true else is_in c ds) ≡ true) e h in
      rw e (omega (arith, length-remove_id c ds inside))
]

pub due_open : (h : Option HandleType) (n : ℕ) → (is_some h || not (n == 0)) ≡ true → due h n ≡ 0
due_open (some h) n e = refl
due_open none n e = ground arith

pub due_drained :
    (h : Option HandleType) (n : ℕ) → (is_some h || not (n == 0)) ≡ false → due h n ≡ 1
due_drained (some h) n e = absurd (cc)
due_drained none n e = ground arith

abbrev pub Bounded : ℕ → ℕ → Type 0
Bounded max n = (max ≡ 0) ⊎ (n ≤ max)

pub Bounded-less : (max n k : ℕ) → k ≤ n → Bounded max n → Bounded max k
Bounded-less max n k h (inl z) = inl z
Bounded-less max n k h (inr b) = inr (omega (arith, h, b))

pub Bounded-more : (max n : ℕ) → (not (max == 0) && leb max n) ≡ false → Bounded max (n + 1)
Bounded-more max n h = elim (Bool-cases (max == 0)) [
  | inl e ↦ inl (ground arith)
  | inr e ↦ inr (ground arith)
]

pub decrement_pos : (n : ℕ) → 1 ≤ n → decrement n ≡ n - 1
decrement_pos n h = ground arith

pub due_busy : (h : Option HandleType) (n : ℕ) → 1 ≤ n → due h n ≡ 0
due_busy (some h) n b = refl
due_busy none n b = ground arith

pub due_some : (h : Option HandleType) (n : ℕ) → is_some h ≡ true → due h n ≡ 0
due_some (some h) n b = refl
due_some none n b = absurd (cc)

pub due_pos : (h : Option HandleType) (n : ℕ) → 1 ≤ due h n → (is_some h || not (n == 0)) ≡ false
due_pos (some h) n b = absurd (omega (arith, b))
due_pos none n b = ground arith
