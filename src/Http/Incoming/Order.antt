-- ===== src/Http/Incoming/Order.antt =====
-- The events of an http::IncomingMessage follow the body that the parser received.
use libnode.Base.{
  ℕ, ◌≡◌, refl, sym, ap, ◌∙◌, false, Option, none, some, List, [], ◌∷◌, ◌++◌, append-nil,
  append_assoc,
}
use libnode.Net.Socket.State.{Bytes, Encoding}
use libnode.Http.Incoming.State.{Event, Reaction, pauses, resumes, Env, Incoming}
use libnode.Http.Incoming.Stream.{
  pause, resume, react, emit_chunk, run_emit_pending, run_tick, run_first, receive_behind, receive,
}
use libnode.Http.Incoming.Chunks.{
  event_of, events_of, events_of-append, EndsOnce, react_same, Agrees, Settled, choice-Settled,
  emit_loop-Settled, emit_chunk-Agrees, emit_chunk-pendings,
}

-- What can happen to a message.
pub data Step : Type 0 where
  body : Bytes → Step
  finish pausing resuming ticking : Step

abbrev pub step : Env → Step → Incoming → Incoming
step env (body b) m = receive env (some b) m
step env finish m = receive env none m
step env pausing m = (pause env m).0
step env resuming m = (resume env m).0
step env ticking m = run_tick env m

unfoldable pub steps : Env → List Step → Incoming → Incoming
steps env [] m = m
steps env (s ∷ ss) m = steps env ss (step env s m)

-- What the parser hands over in the steps, the end being `none`.
abbrev pub arrival : Step → List (Option Bytes)
arrival (body b) = some b ∷ []
arrival finish = none ∷ []
arrival s = []

abbrev pub arrivals : List Step → List (Option Bytes)
arrivals [] = []
arrivals (s ∷ ss) = arrival s ++ arrivals ss

-- A chunk that arrives stands behind those that wait.
arrive-Agrees :
    (env : Env) (due : List Event) (d : Option Encoding) (c : Option Bytes)
    (w todo : List (Option Bytes)) (m : Incoming)
    → Agrees env due d w (c ∷ todo) m
    → Agrees env (due ++ event_of env d c) d (w ++ c ∷ []) todo m
arrive-Agrees env due d c w todo m a = record {
  order =
      ap (λ l. m.events ++ l) (events_of-append env d w (c ∷ []))
      ∙ ap (λ l. m.events ++ (events_of env d w ++ l)) (append-nil (event_of env d c))
      ∙ sym (append_assoc m.events (events_of env d w) (event_of env d c))
      ∙ ap (λ l. l ++ event_of env d c) a.order;
  decoder_same = a.decoder_same;
  ends = rw (append_assoc w (c ∷ []) todo) a.ends;
}

receive-Settled :
    (env : Env) (due : List Event) (d : Option Encoding) (c : Option Bytes)
    (w todo : List (Option Bytes)) (m : Incoming)
    → m.pendings ≡ w
    → Agrees env due d w (c ∷ todo) m
    → Settled env (due ++ event_of env d c) d todo (receive_behind w env c m)
receive-Settled env due d c [] todo m h a =
    let arrived = arrive-Agrees env due d c [] todo m a in
    choice-Settled env (due ++ event_of env d c) d m.paused todo (record m { pendings = c ∷ [] })
      (emit_chunk env c m)
      (record { order = arrived.order; decoder_same = a.decoder_same; ends = arrived.ends })
      (simp (emit_chunk-pendings env (due ++ event_of env d c) d c m ∙ h)
        (emit_chunk-Agrees env (due ++ event_of env d c) d c [] todo m arrived))
receive-Settled env due d c (x ∷ w) todo m h a =
    let arrived = arrive-Agrees env due d c (x ∷ w) todo m a in
    record { order = arrived.order; decoder_same = a.decoder_same; ends = arrived.ends }

run_emit_pending-Settled :
    (env : Env) (due : List Event) (d : Option Encoding) (cb : Option ℕ)
    (todo : List (Option Bytes)) (m : Incoming)
    → Settled env due d todo m
    → Settled env due d todo (run_emit_pending env cb m)
unfolding run_emit_pending
run_emit_pending-Settled env due d none todo m a =
    emit_loop-Settled env due d m.pendings todo m refl a
run_emit_pending-Settled env due d (some f) todo m a =
    let b = emit_loop-Settled env due d m.pendings todo m refl a in
    record { order = b.order; decoder_same = b.decoder_same; ends = b.ends }

run_tick-Settled :
    (env : Env) (due : List Event) (d : Option Encoding) (t : List (Option ℕ))
    (todo : List (Option Bytes)) (m : Incoming)
    → Settled env due d todo m
    → Settled env due d todo (run_first t env m)
run_tick-Settled env due d [] todo m a = a
run_tick-Settled env due d (cb ∷ t) todo m a =
    run_emit_pending-Settled env due d cb todo (record m { ticks = t })
      (record { order = a.order; decoder_same = a.decoder_same; ends = a.ends })

react-Settled :
    (env : Env) (due : List Event) (d : Option Encoding) (r : Reaction) (todo : List (Option Bytes))
    (m : Incoming)
    → Settled env due d todo m
    → Settled env due d todo (react env r m)
react-Settled env due d r todo m a =
    let same = react_same env r m in
    record {
      order = rw (same.0, same.1) a.order;
      decoder_same = same.2 ∙ a.decoder_same;
      ends = rw (same.1, same.3) a.ends;
    }

step-Settled :
    (env : Env) (due : List Event) (d : Option Encoding) (s : Step) (todo : List (Option Bytes))
    (m : Incoming)
    → Settled env due d (arrival s ++ todo) m
    → Settled env (due ++ events_of env d (arrival s)) d todo (step env s m)
unfolding receive run_tick react
step-Settled env due d (body b) todo m a =
    rw (append-nil (event_of env d (some b)))
      (receive-Settled env due d (some b) m.pendings todo m refl a)
step-Settled env due d finish todo m a = receive-Settled env due d none m.pendings todo m refl a
step-Settled env due d pausing todo m a =
    rw (append-nil due) (react-Settled env due d pauses todo m a)
step-Settled env due d resuming todo m a =
    rw (append-nil due) (react-Settled env due d resumes todo m a)
step-Settled env due d ticking todo m a =
    rw (append-nil due) (run_tick-Settled env due d m.ticks todo m a)

steps-Settled :
    (env : Env) (due : List Event) (d : Option Encoding) (ss : List Step) (m : Incoming)
    → Settled env due d (arrivals ss) m
    → Settled env (due ++ events_of env d (arrivals ss)) d [] (steps env ss m)
unfolding steps
steps-Settled env due d [] m a = rw (append-nil due) a
steps-Settled env due d (s ∷ ss) m a =
    rw
      (
        events_of-append env d (arrival s) (arrivals ss),
        ← append_assoc due (events_of env d (arrival s)) (events_of env d (arrivals ss)),
      )
      (steps-Settled env (due ++ events_of env d (arrival s)) d ss (step env s m)
        (step-Settled env due d s (arrivals ss) m a))

-- From a message that has shown nothing and that nothing waits in, whatever bodies arrive, then at
-- most one end, and however pause(), resume(), the ticks of process::nextTick and listeners that
-- pause and resume come between: the events shown, and behind them those that the waiting chunks
-- are due, are the events that all arrivals are due, in the order of their arrival.
pub steps-ordered :
    (env : Env) (ss : List Step) (m : Incoming)
    → m.events ≡ []
    → m.pendings ≡ []
    → m.end_emitted ≡ false
    → EndsOnce false (arrivals ss)
    → (steps env ss m).events ++ events_of env m.decoder (steps env ss m).pendings
      ≡ events_of env m.decoder (arrivals ss)
steps-ordered env ss m none_shown none_wait not_ended once =
    (steps-Settled env [] m.decoder ss m (record {
      order = rw (none_shown, none_wait) refl;
      decoder_same = refl;
      ends = rw (none_wait, not_ended) once;
    })).order
