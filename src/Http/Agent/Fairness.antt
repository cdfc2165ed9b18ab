-- ===== src/Http/Agent/Fairness.antt =====
-- http::Agent keeps to its number of sockets, leaves no request waiting beside a free place, and
-- serves the requests for a name in the order in which they came.
use libnode.Base.{
  ℕ, suc, ◌≤◌, ◌≡◌, refl, ap, Bool, true, false, List, [], ◌∷◌, ◌++◌, arith, length, length-append,
  append-nil, append_assoc, ltb, if◌then◌else◌, ◌==◌,
}
use libnode.Net.Socket.State.{Bytes}
use libnode.Http.Message.Fields.{text_eq_sound, text_eq_complete}
use libnode.Http.Agent.Pool.{
  Agent, new_agent, set_list, create_socket, give, free_socket, start_request, queue_request,
  add_request, remove_id, replace_socket, remove_socket,
}

abbrev pub has_id : ℕ → List ℕ → Bool
has_id s [] = false
has_id s (x ∷ xs) = if x == s then true else has_id s xs

-- The requests of a log, oldest first.
abbrev pub served : List (ℕ × ℕ) → List ℕ
served [] = []
served ((r, s) ∷ g) = r ∷ served g

served_snoc : (g : List (ℕ × ℕ)) (r s : ℕ) → served (g ++ (r, s) ∷ []) ≡ served g ++ r ∷ []
served_snoc [] r s = refl
served_snoc ((r', s') ∷ g) r s = ap (λ t. r' ∷ t) (served_snoc g r s)

length-remove_id :
    (s : ℕ) (xs : List ℕ) → has_id s xs ≡ true → suc (length (remove_id s xs)) ≡ length xs
unfolding remove_id
length-remove_id s [] h = absurd (cc)
length-remove_id s (x ∷ xs) h = ground (arith, length-remove_id s xs)

length_snoc : (xs : List ℕ) (x : ℕ) → length (xs ++ x ∷ []) ≡ suc (length xs)
length_snoc xs x = omega (arith, length-append xs (x ∷ []))

-- What holds of a name, for the requests that were made under it.
pub record IsFair (a : Agent) (asked : List ℕ) (n : Bytes) : Type 0 where
  pub bounded : length (a.sockets n) ≤ a.max_sockets
  pub busy : ltb (length (a.sockets n)) a.max_sockets ≡ true → a.requests n ≡ []
  pub in_order : served (a.given n) ++ a.requests n ≡ asked

-- The runs of an agent: requests come, sockets become free, and sockets of the agent close or are
-- removed. The table has the requests that were made, by name.
pub data Run (max : ℕ) : Agent → (Bytes → List ℕ) → Type 0 where
  start : Run max (new_agent max) (λ n. [])
  asks :
      {a : Agent} {q : Bytes → List ℕ} (name : Bytes) (req : ℕ)
      → Run max a q
      → Run max (add_request name req a) (set_list name (q name ++ req ∷ []) q)
  frees :
      {a : Agent} {q : Bytes → List ℕ} (name : Bytes) (socket : ℕ)
      → Run max a q
      → Run max (free_socket name socket a) q
  closes :
      {a : Agent} {q : Bytes → List ℕ} (name : Bytes) (socket : ℕ)
      → has_id socket (a.sockets name) ≡ true
      → Run max a q
      → Run max (remove_socket name socket a) q

add_request-IsFair :
    (name n : Bytes) (req : ℕ) (a : Agent) (q : Bytes → List ℕ)
    → ((y : Bytes) → IsFair a (q y) y)
    → IsFair (add_request name req a) (set_list name (q name ++ req ∷ []) q n) n
unfolding add_request start_request create_socket give queue_request
add_request-IsFair name n req a q f = ground (
  arith,
  (f name).bounded,
  (f name).busy,
  (f name).in_order,
  (f n).bounded,
  (f n).busy,
  (f n).in_order,
  text_eq_sound name n,
  text_eq_complete name name,
  length_snoc (a.sockets name) a.next_socket,
  served_snoc (a.given name) req a.next_socket,
  append-nil (served (a.given name)),
  append-nil (served (a.given name) ++ req ∷ []),
  append_assoc (served (a.given name)) (a.requests name) (req ∷ []),
)

free_socket-IsFair :
    (name n : Bytes) (socket : ℕ) (a : Agent) (q : Bytes → List ℕ)
    → ((y : Bytes) → IsFair a (q y) y)
    → IsFair (free_socket name socket a) (q n) n
unfolding free_socket give
free_socket-IsFair name n socket a q f = by_requests (a.requests name) refl
  where
    by_requests : (rs : List ℕ) → a.requests name ≡ rs → IsFair (free_socket name socket a) (q n) n
    by_requests [] h = ground (arith, h, (f n).bounded, (f n).busy, (f n).in_order)
    by_requests (r ∷ rs) h = ground (
      arith,
      h,
      (f name).busy,
      (f name).in_order,
      (f n).bounded,
      (f n).busy,
      (f n).in_order,
      text_eq_sound name n,
      served_snoc (a.given name) r socket,
      append_assoc (served (a.given name)) (r ∷ []) rs,
    )

-- A socket goes and a new one takes its place.
replaced-IsFair :
    (name n : Bytes) (socket : ℕ) (a : Agent) (q : Bytes → List ℕ)
    → has_id socket (a.sockets name) ≡ true
    → ((y : Bytes) → IsFair a (q y) y)
    → IsFair
        (create_socket name
          (record a { sockets = set_list name (remove_id socket (a.sockets name)) a.sockets })).1
        (q n)
        n
unfolding create_socket
replaced-IsFair name n socket a q h f = ground (
  arith,
  (f name).bounded,
  (f name).busy,
  (f n).bounded,
  (f n).busy,
  (f n).in_order,
  text_eq_sound name n,
  text_eq_complete name name,
  length_snoc (remove_id socket (a.sockets name)) a.next_socket,
  length-remove_id socket (a.sockets name) h,
)

remove_socket-replace_socket :
    (name : Bytes) (socket : ℕ) (a : Agent) (r : ℕ) (rs : List ℕ)
    → a.requests name ≡ r ∷ rs
    → remove_socket name socket a
      ≡ replace_socket name (
          create_socket name
            (record a { sockets = set_list name (remove_id socket (a.sockets name)) a.sockets }))
unfolding remove_socket
remove_socket-replace_socket name socket a r rs e = rw (e, remove_socket) refl

remove_socket-IsFair :
    (name n : Bytes) (socket : ℕ) (a : Agent) (q : Bytes → List ℕ)
    → has_id socket (a.sockets name) ≡ true
    → ((y : Bytes) → IsFair a (q y) y)
    → IsFair (remove_socket name socket a) (q n) n
unfolding remove_socket replace_socket
remove_socket-IsFair name n socket a q h f = by_requests (a.requests name) refl
  where
    by_requests :
        (rs : List ℕ) → a.requests name ≡ rs → IsFair (remove_socket name socket a) (q n) n
    by_requests [] e = ground (
      arith,
      e,
      (f name).bounded,
      (f name).in_order,
      (f n).bounded,
      (f n).busy,
      (f n).in_order,
      text_eq_sound name n,
      length-remove_id socket (a.sockets name) h,
    )
    by_requests (r ∷ rs) e =
        let a' = record a {
          sockets = set_list name (remove_id socket (a.sockets name)) a.sockets;
        } in
        rw (remove_socket-replace_socket name socket a r rs e) (
          free_socket-IsFair name n (create_socket name a').0 (create_socket name a').1 q
            (λ y. replaced-IsFair name y socket a q h f))

-- In every run of an agent whose maximum is not changed, and in which only sockets that the agent has
-- are removed, for every name: there are at most the maximum of sockets; a request waits only when
-- there are that many; and the requests that got a socket, followed by those that wait, are all
-- the requests that were made, in the order in which they were made.
pub Run-IsFair :
    {max : ℕ} {a : Agent} {q : Bytes → List ℕ} → Run max a q → (n : Bytes) → IsFair a (q n) n
Run-IsFair start n = record { bounded = omega arith; busy = λ h. refl; in_order = refl }
Run-IsFair (asks {a} {q} name req r) n = add_request-IsFair name n req a q (λ y. Run-IsFair r y)
Run-IsFair (frees {a} {q} name socket r) n =
    free_socket-IsFair name n socket a q (λ y. Run-IsFair r y)
Run-IsFair (closes {a} {q} name socket h r) n =
    remove_socket-IsFair name n socket a q h (λ y. Run-IsFair r y)
