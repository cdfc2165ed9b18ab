-- ===== src/Jsonrpc/Responses.antt =====
-- How many responses a message has, and what a responder adds to them.
use libnode.Base.{
  ℕ, ◌+◌, ◌≡◌, refl, ◌∙◌, Bool, true, false, Option, none, some, List, [], ◌∷◌, ◌++◌, arith,
  if◌then◌else◌, ◌==◌,
}
use libnode.Jsonrpc.State.{
  Field, Version, version10, version20, Outcome, result, error, Response, Responder, Service,
}
use libnode.Jsonrpc.Request.{emit_response, emit10, emit20, emit_as, respond, respond_all}

-- The responses to a message.
abbrev pub responses : ℕ → List (ℕ × Response) → ℕ
responses t [] = 0
responses t ((u, r) ∷ es) = if u == t then 1 + responses t es else responses t es

abbrev pub to_come : ℕ → Responder → ℕ
to_come t r = if r.emitted then 0 else if r.tag == t then 1 else 0

-- The responses to a message that its responders may still emit.
abbrev pub all_to_come : ℕ → List Responder → ℕ
all_to_come t [] = 0
all_to_come t (r ∷ rs) = to_come t r + all_to_come t rs

abbrev pub total : ℕ → Service → ℕ
total t s = responses t s.events + all_to_come t s.responders

abbrev pub one_if : Bool → ℕ
one_if b = if b then 1 else 0

responses-append :
    (t : ℕ) (es fs : List (ℕ × Response)) → responses t (es ++ fs) ≡ responses t es + responses t fs
responses-append t [] fs = omega arith
responses-append t ((u, r) ∷ es) fs = ground (arith, responses-append t es fs)

pub to_come-append :
    (t : ℕ) (rs qs : List Responder)
    → all_to_come t (rs ++ qs) ≡ all_to_come t rs + all_to_come t qs
to_come-append t [] qs = omega arith
to_come-append t (r ∷ rs) qs = omega (arith, to_come-append t rs qs)

-- What emitting a response does: one more response to its message, and nothing else that counts.
abbrev pub Emits : ℕ → Service → Service → Type 0
Emits tag s s' =
    ((t : ℕ) → responses t s'.events ≡ responses t s.events + one_if (tag == t))
    × (s'.responders ≡ s.responders)
    × (s'.next ≡ s.next)

emit_response-Emits :
    (tag : ℕ) (r : Response) (cb : Option ℕ) (s : Service) → Emits tag s (emit_response tag r cb s)
emit_response-Emits tag r none s =
    ((λ t. ground (arith, responses-append t s.events ((tag, r) ∷ []))), refl, refl)
emit_response-Emits tag r (some cb) s =
    ((λ t. ground (arith, responses-append t s.events ((tag, r) ∷ []))), refl, refl)

pub emit10-Emits :
    (tag : ℕ) (o : Outcome) (id : Field) (cb : Option ℕ) (s : Service)
    → Emits tag s (emit10 tag o id cb s)
unfolding emit10
emit10-Emits tag o id cb s = emit_response-Emits tag _ cb s

pub emit20-Emits :
    (tag : ℕ) (o : Outcome) (id : Field) (cb : Option ℕ) (s : Service)
    → Emits tag s (emit20 tag o id cb s)
unfolding emit20
emit20-Emits tag (result v) id cb s = emit_response-Emits tag _ cb s
emit20-Emits tag (error c) id cb s = emit_response-Emits tag _ cb s

emit_as-Emits :
    (v : Version) (tag : ℕ) (o : Outcome) (id : Field) (cb : Option ℕ) (s : Service)
    → Emits tag s (emit_as v tag o id cb s)
emit_as-Emits version10 = emit10-Emits
emit_as-Emits version20 = emit20-Emits

-- A responder emits what it may still emit, or nothing.
abbrev pub Moves : Service × Responder → Service × Responder → Type 0
Moves (s, r) (s', r') =
    ((t : ℕ) → responses t s'.events + to_come t r' ≡ responses t s.events + to_come t r)
    × (s'.responders ≡ s.responders)
    × (s'.next ≡ s.next)

pub respond-Moves : (o : Outcome) (r : Responder) (s : Service) → Moves (s, r) (respond o r s)
unfolding respond
respond-Moves o r s = moved r.emitted refl
  where
    moved :
        (b : Bool)
        → r.emitted ≡ b
        → Moves
            (s, r)
            (if b
              then (s, r)
              else (emit_as r.version r.tag o r.id r.callback s, record r { emitted = true }))
    moved true e = ((λ t. refl), refl, refl)
    moved false e =
        let (ev, rs, nx) = emit_as-Emits r.version r.tag o r.id r.callback s in
        ((λ t. ground (arith, ev t, e)), rs, nx)

pub respond_all-Moves :
    (os : List Outcome) (r : Responder) (s : Service) → Moves (s, r) (respond_all os r s)
unfolding respond_all
respond_all-Moves [] r s = ((λ t. refl), refl, refl)
respond_all-Moves (o ∷ os) r s =
    let (ev, rs, nx) = respond-Moves o r s in
    let (ev', rs', nx') = respond_all-Moves os (respond o r s).1 (respond o r s).0 in
    ((λ t. ev' t ∙ ev t), rs' ∙ rs, nx' ∙ nx)
