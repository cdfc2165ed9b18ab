-- ===== src/Events/Hazards.antt =====
-- Where emit() does not do what its listeners expect.
use Prim.Native.String.{String}
use text.Mathlib.TextEquality.{eq_iff}
use libnode.Base.{
  ℕ, ◌≡◌, refl, ap, ◌∙◌, sym, true, inl, inr, none, some, [], ◌∷◌, arith, get_elem?, Option-cases,
}
use libnode.Events.Emitter.{
  Listener, plain, one_time, Emitter, get_listeners, remove_listener, Args, Caller, run_listener,
  finish_emit, emit,
}
use libnode.Events.Subscriptions.{
  subscribed, IsPaired, subscribed-none, subscribed-some, remove_listener-some,
  remove_listener-subscribed,
}
use libnode.Events.Loop.{
  Quiet, remove_first_head, emit_loop_step, loop_plain, loop_once, emit-some, emit_loop-none,
  emit_loop_done,
}

module _ {V W : Type 0} (call : Caller V W) where
  -- When a function is subscribed first to stay and then once, emit() calls it twice, and what it
  -- takes from the list is the lasting listener: the one-time listener is the one that stays.
  emit_shadowed :
      (ev : String) (f : ℕ) (args : Args V) (act : ℕ → W → W)
      → Quiet call act args
      → (w : W) (e : Emitter) → IsPaired e
      → subscribed ev e ≡ plain f ∷ one_time ev f ∷ []
      → (e' : Emitter) × (emit call ev args w e ≡ some (act f (act f w), e', true))
        × (subscribed ev e' ≡ one_time ev f ∷ [])
  emit_shadowed ev f args act q w e p h = elim (Option-cases (get_listeners ev e)) [
    | inl g ↦ absurd (ground (arith, subscribed-none ev e g))
    | inr (a, g) ↦
        let k = sym (subscribed-some ev e a g) ∙ h in
        (
          remove_listener ev f e,
          emit-some call ev a (plain f) (one_time ev f ∷ []) args w e g k
              ∙ ap (finish_emit call) (
                  loop_plain call ev a f (one_time ev f ∷ []) [] args act q w e k
                  ∙ loop_once call ev a f [] (plain f ∷ []) args act q (act f w) e k
                  ∙ emit_loop_done call a 1 args (act f (act f w)) (remove_listener ev f e)),
          ground (
            arith,
            remove_listener-subscribed ev ev f e p,
            eq_iff ev ev,
            h,
            remove_first_head f (plain f) (one_time ev f ∷ []),
          ),
        )
  ]

  -- When the first of two listeners removes itself while it runs, emit() reads past the end of the list.
  emit_overrun :
      (ev : String) (f : ℕ) (l : Listener) (args : Args V) (w w' : W) (e : Emitter)
      → IsPaired e
      → subscribed ev e ≡ plain f ∷ l ∷ []
      → call f args w e ≡ some (w', remove_listener ev f e)
      → emit call ev args w e ≡ none
  emit_overrun ev f l args w w' e p h c = elim (Option-cases (get_listeners ev e)) [
    | inl g ↦ absurd (ground (arith, subscribed-none ev e g))
    | inr (a, g) ↦
        let k = sym (subscribed-some ev e a g) ∙ h in
        emit-some call ev a (plain f) (l ∷ []) args w e g k
        ∙ ap (finish_emit call) (
            emit_loop_step call 1 a 0 args w w' e (remove_listener ev f e) (plain f) (rw k refl)
              (unfold run_listener in c)
            ∙ emit_loop-none call 0 a 1 args w' (remove_listener ev f e)
                (ap (λ t. get_elem? t 1) (removed a g k)))
  ]
    where
      removed :
          (a : ℕ)
          → get_listeners ev e ≡ some a
          → e.arrays a ≡ plain f ∷ l ∷ []
          → (remove_listener ev f e).arrays a ≡ l ∷ []
      removed a g k =
          rw (remove_listener-some ev f e a g)
            (ground (arith, k, remove_first_head f (plain f) (l ∷ [])))
