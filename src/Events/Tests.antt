-- ===== src/Events/Tests.antt =====
-- Emitters that meet the hypotheses of the theorems about EventEmitter, and runs of the operations.
use Prim.Native.String.{String}
use libnode.Base.{ℕ, ◌≡◌, refl, true, Option, none, some, List, [], ◌∷◌, ◌++◌}
use libnode.Events.Emitter.{
  plain, one_time, Emitter, new_emitter, lookup, new_listeners, listeners, push_listener,
  remove_first, remove_listener, Caller, add_all, run_listener, emit_loop, emit, emit_values,
}
use libnode.Events.Subscriptions.{subscribed, IsPaired, push_listener-IsPaired}
use libnode.Events.Refinement.{
  Edit, push, remove, clear_event, ask_listeners, perform_all, promise_all, perform_all-promise_all,
}
use libnode.Events.Loop.{Emitted}
use libnode.Events.Dispatch.{emit-Emitted}

-- `data` has the listener 1, a one-time listener 2 and the listener 3; `end` has the listener 4.
abbrev data_only : Emitter
data_only =
    push_listener "data" (plain 3)
      (push_listener "data" (one_time "data" 2) (push_listener "data" (plain 1) new_emitter))

abbrev two_events : Emitter
two_events = push_listener "end" (plain 4) data_only

abbrev edits : List Edit
edits =
    push "data" (plain 1)
    ∷ push "end" (one_time "end" 2)
    ∷ push "data" (one_time "data" 3)
    ∷ remove "data" 3
    ∷ ask_listeners "close"
    ∷ clear_event "end"
    ∷ []

edits-data : promise_all edits (λ ev. []) "data" ≡ plain 1 ∷ []
unfolding remove_first
edits-data = refl

two_events-IsPaired : IsPaired two_events
two_events-IsPaired = push_listener-IsPaired "end" (plain 4) data_only (
    push_listener-IsPaired "data" (plain 3)
      (push_listener "data" (one_time "data" 2) (push_listener "data" (plain 1) new_emitter))
      (push_listener-IsPaired "data" (one_time "data" 2)
        (push_listener "data" (plain 1) new_emitter)
        (push_listener-IsPaired "data" (plain 1) new_emitter tt)))

two_events-data : subscribed "data" two_events ≡ plain 1 ∷ one_time "data" 2 ∷ plain 3 ∷ []
unfolding subscribed push_listener listeners lookup new_listeners
two_events-data = refl

-- Two subscriptions, a removal, and one event dropped.
perform_all-promise_all_example :
    IsPaired (perform_all edits new_emitter)
    × ((y : String) → subscribed y (perform_all edits new_emitter) ≡ promise_all edits (λ ev. []) y)
perform_all-promise_all_example = perform_all-promise_all edits

-- The world is the list of the functions called.
abbrev append_call : ℕ → List ℕ → List ℕ
append_call f w = w ++ f ∷ []

abbrev logging : Caller ℕ (List ℕ)
logging f args w e = some (append_call f w, e)

-- Each function removes itself.
abbrev leaving : Caller ℕ (List ℕ)
leaving f args w e = some (append_call f w, remove_listener "data" f e)

emit-Emitted_example :
    Emitted append_call "data"
      (plain 1 ∷ one_time "data" 2 ∷ plain 3 ∷ [])
      []
      two_events
      (emit logging "data" none [] two_events)
unfolding subscribed push_listener listeners lookup new_listeners
emit-Emitted_example =
    emit-Emitted logging "data" none append_call (λ f w e. refl) [] two_events two_events-IsPaired
      (refl, refl, tt)

abbrev twice : Emitter
twice = push_listener "data" (one_time "data" 1) (push_listener "data" (plain 1) new_emitter)

twice-IsPaired : IsPaired twice
twice-IsPaired =
    push_listener-IsPaired "data" (one_time "data" 1) (push_listener "data" (plain 1) new_emitter)
      (push_listener-IsPaired "data" (plain 1) new_emitter tt)

abbrev pair : Emitter
pair = push_listener "data" (plain 2) (push_listener "data" (plain 1) new_emitter)

pair-IsPaired : IsPaired pair
pair-IsPaired =
    push_listener-IsPaired "data" (plain 2) (push_listener "data" (plain 1) new_emitter)
      (push_listener-IsPaired "data" (plain 1) new_emitter tt)

-- The world is the last array of arguments.
abbrev keeping : Caller ℕ (Option (List ℕ))
keeping f args w e = some (args, e)

-- Values go to the listeners in the order of the arguments.
emit_values_order :
    emit_values keeping "end" (1 ∷ 2 ∷ 3 ∷ []) none two_events
    ≡ some (some (1 ∷ 2 ∷ 3 ∷ []), two_events, true)
unfolding emit_values emit emit_loop run_listener add_all push_listener listeners lookup
    new_listeners
emit_values_order = refl
