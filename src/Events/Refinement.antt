-- ===== src/Events/Refinement.antt =====
-- EventEmitter refines a map from events to lists of listeners.
use Prim.Native.String.{String}
use text.Mathlib.Text.{◌==◌ as str_eq}
use libnode.Base.{
  ℕ, ◌≡◌, refl, ◌∙◌, List, [], ◌∷◌, ◌++◌, arith, if◌then◌else◌, Option-cases, inl, inr,
}
use libnode.Events.Emitter.{
  Listener, Emitter, new_emitter, lookup, listeners, get_listeners, push_listener, remove_first,
  remove_listener, remove_all_listeners, remove_all_listeners_of, set_max_listeners,
}
use libnode.Events.Subscriptions.{
  subscribed, IsPaired, listeners-some, listeners-none, new_listeners-IsPaired,
  new_listeners-subscribed, push_listener-subscribed, push_listener-IsPaired,
  remove_listener-subscribed, remove_listener-IsPaired, remove_all_listeners_of-subscribed,
  remove_all_listeners_of-IsPaired,
}

-- The operations that change an emitter.
pub data Edit : Type 0 where
  push : String → Listener → Edit
  remove : String → ℕ → Edit
  clear : Edit
  clear_event : String → Edit
  ask_listeners : String → Edit
  limit : ℕ → Edit

unfoldable pub perform : Edit → Emitter → Emitter
perform (push ev l) e = push_listener ev l e
perform (remove ev f) e = remove_listener ev f e
perform clear e = remove_all_listeners e
perform (clear_event ev) e = remove_all_listeners_of ev e
perform (ask_listeners ev) e = (listeners ev e).1
perform (limit max) e = set_max_listeners max e

unfoldable pub perform_all : List Edit → Emitter → Emitter
perform_all [] e = e
perform_all (c ∷ cs) e = perform_all cs (perform c e)

-- The abstract emitter.
abbrev pub Table : Type 0
Table = String → List Listener

abbrev pub set_event : String → List Listener → Table → Table
set_event ev ls t y = if str_eq ev y then ls else t y

abbrev pub promise : Edit → Table → Table
promise (push ev l) t = set_event ev (t ev ++ l ∷ []) t
promise (remove ev f) t = set_event ev (remove_first f (t ev)) t
promise clear t = λ y. []
promise (clear_event ev) t = set_event ev [] t
promise (ask_listeners ev) t = t
promise (limit max) t = t

abbrev pub promise_all : List Edit → Table → Table
promise_all [] t = t
promise_all (c ∷ cs) t = promise_all cs (promise c t)

-- The emitter keeps its arrays paired, and its lists are those of the table.
abbrev Refines : Emitter → Table → Type 0
Refines e t = IsPaired e × ((y : String) → subscribed y e ≡ t y)

listeners-Refines :
    (ev : String) (e : Emitter) (t : Table) → Refines e t → Refines (listeners ev e).1 t
listeners-Refines ev e t r = elim (Option-cases (get_listeners ev e)) [
  | inl h ↦
      rw (listeners-none ev e h)
        (new_listeners-IsPaired ev e r.0 h, λ y. new_listeners-subscribed ev y e r.0 h ∙ r.1 y)
  | inr (a, h) ↦ rw (listeners-some ev e a h) r
]

perform-Refines :
    (c : Edit) (e : Emitter) (t : Table) → Refines e t → Refines (perform c e) (promise c t)
unfolding perform remove_all_listeners set_max_listeners subscribed lookup
perform-Refines (push ev l) e t r = (
  push_listener-IsPaired ev l e r.0,
  λ y. ground (arith, push_listener-subscribed ev y l e r.0, r.1 ev, r.1 y),
)
perform-Refines (remove ev f) e t r = (
  remove_listener-IsPaired ev f e r.0,
  λ y. ground (arith, remove_listener-subscribed ev y f e r.0, r.1 ev, r.1 y),
)
perform-Refines clear e t r = (tt, λ y. refl)
perform-Refines (clear_event ev) e t r = (
  remove_all_listeners_of-IsPaired ev e r.0,
  λ y. ground (arith, remove_all_listeners_of-subscribed ev y e r.0, r.1 y),
)
perform-Refines (ask_listeners ev) e t r = listeners-Refines ev e t r
perform-Refines (limit max) e t r = r

perform_all-Refines :
    (cs : List Edit) (e : Emitter) (t : Table)
    → Refines e t
    → Refines (perform_all cs e) (promise_all cs t)
unfolding perform_all
perform_all-Refines [] e t r = r
perform_all-Refines (c ∷ cs) e t r =
    perform_all-Refines cs (perform c e) (promise c t) (perform-Refines c e t r)

-- After any sequence of subscriptions, removals and queries on a new emitter, the two arrays are
-- still paired (one length, no event twice, no array under two events), and each event has the
-- listeners of the table: those subscribed to it and not removed, in the order of subscription.
pub perform_all-promise_all :
    (cs : List Edit)
    → IsPaired (perform_all cs new_emitter)
      × ((y : String) → subscribed y (perform_all cs new_emitter) ≡ promise_all cs (λ ev. []) y)
unfolding subscribed lookup
perform_all-promise_all cs = perform_all-Refines cs new_emitter (λ ev. []) (tt, λ y. refl)
