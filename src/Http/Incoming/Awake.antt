-- ===== src/Http/Incoming/Awake.antt =====
-- No chunk of an http::IncomingMessage is left behind: what waits is shown by a later EmitPending.
use libnode.Base.{
  ℕ, ◌≡◌, refl, ◌∙◌, ◌≢◌, ◌⊎◌, inl, inr, Bool, true, false, Option, none, some, List, [], ◌∷◌, ◌++◌,
  if◌then◌else◌,
}
use libnode.Http.Incoming.State.{resume_call, Env, Incoming}
use libnode.Http.Incoming.Stream.{
  pause, resume, emit_pending, schedule, emit_chunk, emit_loop, run_emit_pending, schedule,
  run_first, run_tick, receive_behind, receive, ask,
}
use libnode.Http.Incoming.Chunks.{emit_chunk-pendings}
use libnode.Http.Incoming.Order.{Step, body, finish, pausing, resuming, ticking, step, steps}

-- The message is paused or nothing waits in it.
abbrev pub Rests : Incoming → Type 0
Rests m = (m.paused ≡ true) ⊎ (m.pendings ≡ [])

-- The message rests, or an EmitPending is to come.
abbrev pub Awake : Incoming → Type 0
Awake m = Rests m ⊎ (m.ticks ≢ [])

choice-Rests : (b : Bool) (m m' : Incoming) → m.paused ≡ b → Rests m' → Rests (if b then m else m')
choice-Rests true m m' p r = inl p
choice-Rests false m m' p r = r

emit_loop-Rests :
    (env : Env) (w : List (Option (List ℕ))) (m : Incoming)
    → m.pendings ≡ w
    → Rests (emit_loop env w m)
unfolding emit_loop
emit_loop-Rests env [] m h = inr h
emit_loop-Rests env (c ∷ w) m h =
    let rest = record m { pendings = w } in
    choice-Rests m.paused m (emit_loop env w (emit_chunk env c rest)) refl
      (emit_loop-Rests env w (emit_chunk env c rest) (emit_chunk-pendings env [] none c rest))

run_emit_pending-Rests :
    (env : Env) (cb : Option ℕ) (m : Incoming) → Rests (run_emit_pending env cb m)
unfolding run_emit_pending
run_emit_pending-Rests env none m = emit_loop-Rests env m.pendings m refl
run_emit_pending-Rests env (some f) m = emit_loop-Rests env m.pendings m refl

run_first-Rests :
    (env : Env) (t : List (Option ℕ)) (m : Incoming) → t ≢ [] → Rests (run_first t env m)
run_first-Rests env [] m h = absurd (h refl)
run_first-Rests env (cb ∷ t) m h = run_emit_pending-Rests env cb (record m { ticks = t })

run_first-Awake :
    (env : Env) (t : List (Option ℕ)) (m : Incoming) → Awake m → Awake (run_first t env m)
run_first-Awake env [] m a = a
run_first-Awake env (cb ∷ t) m a = inl (run_emit_pending-Rests env cb (record m { ticks = t }))

receive-Awake :
    (env : Env) (c : Option (List ℕ)) (w : List (Option (List ℕ))) (m : Incoming)
    → m.pendings ≡ w
    → Awake m
    → Awake (receive_behind w env c m)
receive-Awake env c [] m h a = inl (
    choice-Rests m.paused (record m { pendings = c ∷ [] }) (emit_chunk env c m) refl
      (inr (emit_chunk-pendings env [] none c m ∙ h)))
receive-Awake env c (x ∷ w) m h (inl (inl p)) = inl (inl p)
receive-Awake env c (x ∷ w) m h (inl (inr e)) = absurd (cc)
receive-Awake env c (x ∷ w) m h (inr t) = inr t

snoc-ne : {A : Type 0} (l : List A) (x : A) → l ++ x ∷ [] ≢ []
snoc-ne [] x = λ h. absurd (cc)
snoc-ne (y ∷ l) x = λ h. absurd (cc)

schedule-Awake :
    (w : List (Option (List ℕ))) (m : Incoming) → m.pendings ≡ w → Awake (schedule w none m)
schedule-Awake [] m h = inl (inr h)
schedule-Awake (c ∷ w) m h = inr (snoc-ne m.ticks none)

step-Awake : (env : Env) (s : Step) (m : Incoming) → Awake m → Awake (step env s m)
unfolding receive run_tick pause resume emit_pending
step-Awake env (body b) m a = receive-Awake env (some b) m.pendings m refl a
step-Awake env finish m a = receive-Awake env none m.pendings m refl a
step-Awake env pausing m a = inl (inl refl)
step-Awake env resuming m a =
    schedule-Awake m.pendings (ask resume_call (record m { paused = false })) refl
step-Awake env ticking m a = run_first-Awake env m.ticks m a

steps-Awake : (env : Env) (ss : List Step) (m : Incoming) → Awake m → Awake (steps env ss m)
unfolding steps
steps-Awake env [] m a = a
steps-Awake env (s ∷ ss) m a = steps-Awake env ss (step env s m) (step-Awake env s m a)

settle : (env : Env) (m : Incoming) → Awake m → Rests m ⊎ ((m.ticks ≢ []) × Rests (run_tick env m))
unfolding run_tick
settle env m (inl r) = inl r
settle env m (inr t) = inr (t, run_first-Rests env m.ticks m t)

-- From a message in which nothing waits, whatever bodies arrive and however pause(), resume(), ticks
-- and listeners that pause and resume come between: the message is paused, or nothing waits in it,
-- or an EmitPending is scheduled, and after the next one it is paused or nothing waits in it.
pub steps_settle :
    (env : Env) (ss : List Step) (m : Incoming)
    → m.pendings ≡ []
    → Rests (steps env ss m)
      ⊎ (((steps env ss m).ticks ≢ []) × Rests (run_tick env (steps env ss m)))
steps_settle env ss m none_wait =
    settle env (steps env ss m) (steps-Awake env ss m (inl (inr none_wait)))
