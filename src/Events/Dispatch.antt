-- ===== src/Events/Dispatch.antt =====
-- emit() over the list of an event's listeners.
use Prim.Native.String.{String}
use text.Mathlib.TextEquality.{eq_iff}
use libnode.Base.{ℕ, ◌≡◌, refl, ap, ◌∙◌, sym, inl, inr, List, [], ◌∷◌, arith, Option-cases}
use libnode.Events.Emitter.{Listener, Emitter, get_listeners, Args, Caller, finish_emit, emit}
use libnode.Events.Subscriptions.{subscribed, IsPaired, subscribed-none, subscribed-some}
use libnode.Events.Loop.{Unshadowed, Emitted, Quiet, emit_loop-Delivered, emit-some, emit_empty}

module _ {V W : Type 0} (call : Caller V W) where
  emit-Emitted_cons :
      (ev : String) (l : Listener) (ls : List Listener) (args : Args V) (act : ℕ → W → W)
      → Quiet call act args
      → (w : W) (e : Emitter) → IsPaired e
      → subscribed ev e ≡ l ∷ ls
      → Unshadowed ev [] (l ∷ ls)
      → Emitted act ev (l ∷ ls) w e (emit call ev args w e)
  emit-Emitted_cons ev l ls args act q w e p h u = elim (Option-cases (get_listeners ev e)) [
    | inl g ↦ absurd (ground (arith, subscribed-none ev e g))
    | inr (a, g) ↦
        let k = sym (subscribed-some ev e a g) ∙ h in
        let r = emit_loop-Delivered call ev a (l ∷ ls) [] args act q w e p g k u in
        (r.0, emit-some call ev a l ls args w e g k ∙ ap (finish_emit call) r.1, r.2, r.3)
  ]

  -- For listeners that neither fail nor touch the emitter, in a list where each one-time listener
  -- stands for the event and after no lasting listener of the same function: emit() calls every
  -- listener of the event once, in the order of the list, and returns whether there was one. It
  -- leaves the lasting listeners of the event in their order, and every other event as it was.
  pub emit-Emitted :
      (ev : String) (args : Args V) (act : ℕ → W → W)
      → Quiet call act args
      → (w : W) (e : Emitter) → IsPaired e
      → Unshadowed ev [] (subscribed ev e)
      → Emitted act ev (subscribed ev e) w e (emit call ev args w e)
  emit-Emitted ev args act q w e p u = by_list (subscribed ev e) refl u
    where
      by_list :
          (ls : List Listener)
          → subscribed ev e ≡ ls
          → Unshadowed ev [] ls
          → Emitted act ev (subscribed ev e) w e (emit call ev args w e)
      by_list [] h v = rw h (e, emit_empty call ev args w e h, p, λ y. ground (arith, eq_iff ev y))
      by_list (l ∷ ls) h v = rw h (emit-Emitted_cons ev l ls args act q w e p h v)
