-- ===== src/Events/Loop.antt =====
-- The loop of emit() over the list of an event's listeners.
use Prim.Native.String.{String}
use text.Mathlib.Text.{◌==◌ as str_eq}
use text.Mathlib.TextEquality.{eq_iff}
use libnode.Base.{
  ℕ, suc, ◌≡◌, refl, ap, ◌∙◌, sym, Bool, true, false, inl, inr, Option, none, some, List, [], ◌∷◌,
  ◌++◌, arith, length, get_elem?, length-append, if◌then◌else◌, ◌==◌, Option-cases,
}
use libnode.Events.Emitter.{
  Listener, plain, one_time, Emitter, get_listeners, target, remove_first, remove_listener, Args,
  Caller, run_listener, next_index, emit_loop, finish_emit, emit,
}
use libnode.Events.Subscriptions.{
  subscribed, IsPaired, subscribed-some, remove_listener-some, remove_listener-IsPaired,
  remove_listener-subscribed,
}

-- Some listener of the list is the function or wraps it.
abbrev pub has_target : ℕ → List Listener → Bool
has_target f [] = false
has_target f (l ∷ ls) = if target l == f then true else has_target f ls

-- Each one-time listener of the list stands for the event and after no listener of the same function that stays.
abbrev pub Unshadowed : String → List Listener → List Listener → Type 0
Unshadowed ev done [] = Unit {0}
Unshadowed ev done (plain f ∷ ls) = Unshadowed ev (done ++ plain f ∷ []) ls
Unshadowed ev done (one_time x f ∷ ls) =
    (x ≡ ev) × (has_target f done ≡ false) × Unshadowed ev done ls

-- The listeners that stay.
abbrev pub plains : List Listener → List Listener
plains [] = []
plains (plain f ∷ ls) = plain f ∷ plains ls
plains (one_time x f ∷ ls) = plains ls

abbrev pub nonempty : List Listener → Bool
nonempty [] = false
nonempty (l ∷ ls) = true

-- The functions are called in the order of the list.
abbrev pub deliver {ℓ} : {W : Type ℓ} → (ℕ → W → W) → List Listener → W → W
deliver act [] w = w
deliver act (l ∷ ls) w = deliver act ls (act (target l) w)

get_elem?-append :
    (done : List Listener) (l : Listener) (ls : List Listener)
    → get_elem? (done ++ l ∷ ls) (length done) ≡ some l
get_elem?-append [] l ls = refl
get_elem?-append (x ∷ xs) l ls = get_elem?-append xs l ls

remove_first-append :
    (f : ℕ) (done : List Listener) (x : String) (ls : List Listener)
    → has_target f done ≡ false
    → remove_first f (done ++ one_time x f ∷ ls) ≡ done ++ ls
unfolding remove_first
remove_first-append f [] x ls h = ground arith
remove_first-append f (d ∷ ds) x ls h = ground (arith, remove_first-append f ds x ls)

pub remove_first_head :
    (f : ℕ) (l : Listener) (ls : List Listener) → target l ≡ f → remove_first f (l ∷ ls) ≡ ls
unfolding remove_first
remove_first_head f l ls h = ground arith

append_snoc :
    (done : List Listener) (l : Listener) (ls : List Listener)
    → (done ++ l ∷ []) ++ ls ≡ done ++ l ∷ ls
append_snoc [] l ls = refl
append_snoc (d ∷ ds) l ls = ap (λ t. d ∷ t) (append_snoc ds l ls)

length_snoc : (done : List Listener) (l : Listener) → length (done ++ l ∷ []) ≡ suc (length done)
length_snoc done l = omega (arith, length-append done (l ∷ []))

get_listeners-remove_listener :
    (ev : String) (f : ℕ) (e : Emitter) (a : ℕ)
    → get_listeners ev e ≡ some a
    → get_listeners ev (remove_listener ev f e) ≡ some a
get_listeners-remove_listener ev f e a h = rw (remove_listener-some ev f e a h) h

-- A one-time listener that has run is gone from the array.
remove_listener-arrays :
    (ev : String) (f a : ℕ) (done ls : List Listener) (e : Emitter)
    → get_listeners ev e ≡ some a
    → e.arrays a ≡ done ++ one_time ev f ∷ ls
    → has_target f done ≡ false
    → (remove_listener ev f e).arrays a ≡ done ++ ls
remove_listener-arrays ev f a done ls e g h u =
    rw (remove_listener-some ev f e a g) (ground (arith, h, remove_first-append f done ev ls u))

-- What emit() returns and leaves, of a list of listeners.
abbrev pub Emitted :
    {W : Type 0}
    → (ℕ → W → W)
    → String
    → List Listener
    → W
    → Emitter
    → Option (W × Emitter × Bool)
    → Type 0
Emitted {W} act ev ls w e r =
    (e' : Emitter) × (r ≡ some (deliver act ls w, e', nonempty ls))
    × IsPaired e'
    × ((y : String) → subscribed y e' ≡ (if str_eq ev y then plains ls else subscribed y e))

module _ {V W : Type 0} (call : Caller V W) where
  -- Listeners that neither fail nor touch the emitter.
  abbrev pub Quiet : (ℕ → W → W) → Args V → Type 0
  Quiet act args = (f : ℕ) (w : W) (e : Emitter) → call f args w e ≡ some (act f w, e)

  pub emit_loop_step :
      (n a i : ℕ) (args : Args V) (w w' : W) (e e' : Emitter) (l : Listener)
      → get_elem? (e.arrays a) i ≡ some l
      → run_listener call l args w e ≡ some (w', e')
      → emit_loop call (suc n) a i args w e ≡ emit_loop call n a (next_index call l i) args w' e'
  unfolding emit_loop
  emit_loop_step n a i args w w' e e' l h k = rw (h, k, emit_loop) refl

  -- What the loop leaves: the listeners of `ev`, and those of every other event as they were.
  abbrev pub Delivered : String → List Listener → W → Emitter → Option (W × Emitter) → Type 0
  Delivered ev kept w e r =
      (e' : Emitter) × (r ≡ some (w, e'))
      × IsPaired e'
      × ((y : String) → subscribed y e' ≡ (if str_eq ev y then kept else subscribed y e))

  pub loop_plain :
      (ev : String) (a f : ℕ) (ls done : List Listener) (args : Args V) (act : ℕ → W → W)
      → Quiet act args
      → (w : W) (e : Emitter) → e.arrays a ≡ done ++ plain f ∷ ls
      → emit_loop call (suc (length ls)) a (length done) args w e
        ≡ emit_loop call (length ls) a (length (done ++ plain f ∷ [])) args (act f w) e
  unfolding run_listener
  loop_plain ev a f ls done args act q w e h =
      emit_loop_step (length ls) a (length done) args w (act f w) e e (plain f)
        (rw h (get_elem?-append done (plain f) ls)) (q f w e)
      ∙ ap (λ i. emit_loop call (length ls) a i args (act f w) e) (sym (length_snoc done (plain f)))

  pub loop_once :
      (ev : String) (a f : ℕ) (ls done : List Listener) (args : Args V) (act : ℕ → W → W)
      → Quiet act args
      → (w : W) (e : Emitter) → e.arrays a ≡ done ++ one_time ev f ∷ ls
      → emit_loop call (suc (length ls)) a (length done) args w e
        ≡ emit_loop call (length ls) a (length done) args (act f w) (remove_listener ev f e)
  unfolding run_listener
  loop_once ev a f ls done args act q w e h =
      emit_loop_step (length ls) a (length done) args w (act f w) e (remove_listener ev f e)
        (one_time ev f) (rw h (get_elem?-append done (one_time ev f) ls))
        (rw (q f w e, run_listener) refl)

  pub emit_loop-Delivered :
      (ev : String) (a : ℕ) (ls done : List Listener) (args : Args V) (act : ℕ → W → W)
      → Quiet act args
      → (w : W) (e : Emitter) → IsPaired e
      → get_listeners ev e ≡ some a
      → e.arrays a ≡ done ++ ls
      → Unshadowed ev done ls
      → Delivered ev
          (done ++ plains ls)
          (deliver act ls w)
          e
          (emit_loop call (length ls) a (length done) args w e)
  emit_loop-Delivered ev a [] done args act q w e p g h u =
      (e, unfold emit_loop in refl, p, λ y. ground (arith, eq_iff ev y, subscribed-some ev e a g))
  emit_loop-Delivered ev a (plain f ∷ ls) done args act q w e p g h u =
      let r =
        emit_loop-Delivered ev a ls (done ++ plain f ∷ []) args act q (act f w) e p g
          (h ∙ sym (append_snoc done (plain f) ls)) u in
      (
        r.0,
        loop_plain ev a f ls done args act q w e h ∙ r.1,
        r.2,
        λ y.
            r.3 y
            ∙ ap (λ t. if str_eq ev y then t else subscribed y e)
                (append_snoc done (plain f) (plains ls)),
      )
  emit_loop-Delivered ev a (one_time x f ∷ ls) done args act q w e p g h u =
      let h' = h ∙ ap (λ t. done ++ one_time t f ∷ ls) u.0 in
      let r =
        emit_loop-Delivered ev a ls done args act q (act f w) (remove_listener ev f e)
          (remove_listener-IsPaired ev f e p) (get_listeners-remove_listener ev f e a g)
          (remove_listener-arrays ev f a done ls e g h' u.1) u.2 in
      (
        r.0,
        loop_once ev a f ls done args act q w e h' ∙ r.1,
        r.2,
        λ y. ground (arith, r.3 y, remove_listener-subscribed ev y f e p),
      )

  -- emit() on an event: the functions are called in the order in which they were subscribed.
  pub emit-some :
      (ev : String) (a : ℕ) (l : Listener) (ls : List Listener) (args : Args V) (w : W)
      (e : Emitter)
      → get_listeners ev e ≡ some a
      → e.arrays a ≡ l ∷ ls
      → emit call ev args w e ≡ finish_emit call (emit_loop call (suc (length ls)) a 0 args w e)
  unfolding emit
  emit-some ev a l ls args w e g h = rw (g, h, emit) refl

  pub emit_empty :
      (ev : String) (args : Args V) (w : W) (e : Emitter)
      → subscribed ev e ≡ []
      → emit call ev args w e ≡ some (w, e, false)
  unfolding emit
  emit_empty ev args w e h = elim (Option-cases (get_listeners ev e)) [
    | inl g ↦ rw (g, emit) refl
    | inr (a, g) ↦ rw (g, sym (subscribed-some ev e a g) ∙ h, emit) refl
  ]

  pub emit_loop-none :
      (n a i : ℕ) (args : Args V) (w : W) (e : Emitter)
      → get_elem? (e.arrays a) i ≡ none
      → emit_loop call (suc n) a i args w e ≡ none
  unfolding emit_loop
  emit_loop-none n a i args w e h = rw (h, emit_loop) refl

  pub emit_loop_done :
      (a i : ℕ) (args : Args V) (w : W) (e : Emitter) → emit_loop call 0 a i args w e ≡ some (w, e)
  unfolding emit_loop
  emit_loop_done a i args w e = refl
