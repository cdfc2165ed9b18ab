-- ===== src/Http/Incoming/Chunks.antt =====
-- The chunks of an http::IncomingMessage, and what EmitPending does to the events.
use libnode.Base.{
  ◌≡◌, refl, sym, ap, ◌∙◌, Bool, true, false, Option, none, some, List, [], ◌∷◌, ◌++◌, append-nil,
  append_assoc, if◌then◌else◌,
}
use libnode.Net.Socket.State.{Bytes, Encoding}
use libnode.Http.Incoming.State.{
  resume_call, Event, data_event, text_event, end_event, Reaction, nothing, pauses, resumes, Env,
  Incoming,
}
use libnode.Http.Incoming.Stream.{
  pause, resume, emit_pending, schedule, ask, react, emit, emit_text, emit_decoded, end_unless,
  emit_data, emit_end, emit_chunk, emit_loop, schedule, ask,
}

-- The events that a chunk is due.
abbrev pub text_of : Bytes → List Event
text_of [] = []
text_of (x ∷ xs) = text_event (x ∷ xs) ∷ []

abbrev pub event_of : Env → Option Encoding → Option Bytes → List Event
event_of env d none = end_event ∷ []
event_of env none (some b) = data_event b ∷ []
event_of env (some enc) (some b) = text_of (env.to_string enc b)

abbrev pub events_of : Env → Option Encoding → List (Option Bytes) → List Event
events_of env d [] = []
events_of env d (c ∷ cs) = event_of env d c ++ events_of env d cs

pub events_of-append :
    (env : Env) (d : Option Encoding) (p q : List (Option Bytes))
    → events_of env d (p ++ q) ≡ events_of env d p ++ events_of env d q
events_of-append env d [] q = refl
events_of-append env d (c ∷ p) q =
    ap (λ l. event_of env d c ++ l) (events_of-append env d p q)
    ∙ sym (append_assoc (event_of env d c) (events_of env d p) (events_of env d q))

-- The end is still to come, behind all chunks, or nothing is left to come.
abbrev pub EndsOnce : Bool → List (Option Bytes) → Type 0
EndsOnce ended [] = Unit {0}
EndsOnce ended (some b ∷ cs) = (ended ≡ false) × EndsOnce ended cs
EndsOnce ended (none ∷ []) = ended ≡ false
EndsOnce ended (none ∷ c ∷ cs) = ⊥

-- An operation between two states of a message that shows its listeners the events `es`.
pub record Shows (es : List Event) (m m' : Incoming) : Type 0 where
  shown : m'.events ≡ m.events ++ es
  pendings_kept : m'.pendings ≡ m.pendings
  decoder_kept : m'.decoder ≡ m.decoder
  ended_kept : m'.end_emitted ≡ m.end_emitted

schedule_same :
    (w : List (Option Bytes)) (m : Incoming)
    → ((schedule w none m).events ≡ m.events)
      × ((schedule w none m).pendings ≡ m.pendings)
      × ((schedule w none m).decoder ≡ m.decoder)
      × ((schedule w none m).end_emitted ≡ m.end_emitted)
schedule_same [] m = (refl, refl, refl, refl)
schedule_same (c ∷ w) m = (refl, refl, refl, refl)

pub react_same :
    (env : Env) (r : Reaction) (m : Incoming)
    → ((react env r m).events ≡ m.events)
      × ((react env r m).pendings ≡ m.pendings)
      × ((react env r m).decoder ≡ m.decoder)
      × ((react env r m).end_emitted ≡ m.end_emitted)
unfolding react pause resume emit_pending
react_same env nothing m = (refl, refl, refl, refl)
react_same env pauses m = (refl, refl, refl, refl)
react_same env resumes m = schedule_same m.pendings (ask resume_call (record m { paused = false }))

emit-Shows : (env : Env) (e : Event) (m : Incoming) → Shows (e ∷ []) m (emit env e m)
unfolding emit
emit-Shows env e m =
    let next = record m { events = m.events ++ e ∷ [] } in
    let same = react_same env (env.reacts (m.events ++ e ∷ [])) next in
    record { shown = same.0; pendings_kept = same.1; decoder_kept = same.2; ended_kept = same.3 }

emit_text-Shows : (env : Env) (t : Bytes) (m : Incoming) → Shows (text_of t) m (emit_text env t m)
emit_text-Shows env [] m = record {
  shown = sym (append-nil m.events);
  pendings_kept = refl;
  decoder_kept = refl;
  ended_kept = refl;
}
emit_text-Shows env (x ∷ xs) m = emit-Shows env (text_event (x ∷ xs)) m

emit_decoded-Shows :
    (env : Env) (d : Option Encoding) (b : Bytes) (m : Incoming)
    → Shows (event_of env d (some b)) m (emit_decoded env d b m)
emit_decoded-Shows env none b m = emit-Shows env (data_event b) m
emit_decoded-Shows env (some enc) b m = emit_text-Shows env (env.to_string enc b) m

-- The events of `due` are shown up to the chunks `waiting`, behind which `todo` is to come.
pub record Agrees (env : Env) (due : List Event) (d : Option Encoding)
    (waiting todo : List (Option Bytes)) (m : Incoming) : Type 0 where
  pub order : m.events ++ events_of env d waiting ≡ due
  pub decoder_same : m.decoder ≡ d
  pub ends : EndsOnce m.end_emitted (waiting ++ todo)

EndsOnce-tail :
    (e : Bool) (c : Option Bytes) (l : List (Option Bytes)) → EndsOnce e (c ∷ l) → e ≡ false
EndsOnce-tail e none [] h = h
EndsOnce-tail e none (c ∷ l) h = absurd h
EndsOnce-tail e (some b) l h = h.0

EndsOnce-end : (e : Bool) (l : List (Option Bytes)) → EndsOnce e (none ∷ l) → l ≡ []
EndsOnce-end e [] h = refl
EndsOnce-end e (c ∷ l) h = absurd h

module _ (env : Env) (due : List Event) (d : Option Encoding) where
  emit_data-Agrees :
      (b : Bytes) (w todo : List (Option Bytes)) (m : Incoming)
      → Agrees env due d (some b ∷ w) todo m
      → Agrees env due d w todo (emit_data env b m)
  unfolding emit_data
  emit_data-Agrees b w todo m a =
      let shows = emit_decoded-Shows env m.decoder b m in
      let shown = shows.shown ∙ ap (λ x. m.events ++ event_of env x (some b)) a.decoder_same in
      record {
        order =
            ap (λ l. l ++ events_of env d w) shown
            ∙ append_assoc m.events (event_of env d (some b)) (events_of env d w)
            ∙ a.order;
        decoder_same = shows.decoder_kept ∙ a.decoder_same;
        ends = rw shows.ended_kept a.ends.1;
      }

  end_unless-Agrees :
      (e : Bool) (w todo : List (Option Bytes)) (m : Incoming)
      → e ≡ false
      → w ++ todo ≡ []
      → m.decoder ≡ d
      → m.events ++ events_of env d (none ∷ w) ≡ due
      → Agrees env due d w todo (end_unless e env m)
  end_unless-Agrees true w todo m h none_left same order = absurd (cc)
  end_unless-Agrees false w todo m h none_left same order =
      let shows = emit-Shows env end_event m in
      record {
        order =
            ap (λ l. l ++ events_of env d w) shows.shown
            ∙ append_assoc m.events (end_event ∷ []) (events_of env d w)
            ∙ order;
        decoder_same = shows.decoder_kept ∙ same;
        ends = rw none_left tt;
      }

  pub emit_chunk-Agrees :
      (c : Option Bytes) (w todo : List (Option Bytes)) (m : Incoming)
      → Agrees env due d (c ∷ w) todo m
      → Agrees env due d w todo (emit_chunk env c m)
  unfolding emit_chunk emit_end
  emit_chunk-Agrees none w todo m a =
      end_unless-Agrees m.end_emitted w todo (record m { readable = false })
        (EndsOnce-tail m.end_emitted none (w ++ todo) a.ends)
        (EndsOnce-end m.end_emitted (w ++ todo) a.ends) a.decoder_same a.order
  emit_chunk-Agrees (some b) w todo m a = emit_data-Agrees b w todo m a

  end_unless-pendings : (e : Bool) (m : Incoming) → (end_unless e env m).pendings ≡ m.pendings
  end_unless-pendings true m = refl
  end_unless-pendings false m = (emit-Shows env end_event m).pendings_kept

  pub emit_chunk-pendings :
      (c : Option Bytes) (m : Incoming) → (emit_chunk env c m).pendings ≡ m.pendings
  unfolding emit_chunk emit_end emit_data
  emit_chunk-pendings none m = end_unless-pendings m.end_emitted (record m { readable = false })
  emit_chunk-pendings (some b) m = (emit_decoded-Shows env m.decoder b m).pendings_kept

  abbrev pub Settled : List (Option Bytes) → Incoming → Type 0
  Settled todo m = Agrees env due d m.pendings todo m

  pub choice-Settled :
      (b : Bool) (todo : List (Option Bytes)) (m m' : Incoming)
      → Settled todo m
      → Settled todo m'
      → Settled todo (if b then m else m')
  choice-Settled true todo m m' a a' = a
  choice-Settled false todo m m' a a' = a'

  pub emit_loop-Settled :
      (w todo : List (Option Bytes)) (m : Incoming)
      → m.pendings ≡ w
      → Agrees env due d w todo m
      → Settled todo (emit_loop env w m)
  unfolding emit_loop
  emit_loop-Settled [] todo m h a = simp h a
  emit_loop-Settled (c ∷ w) todo m h a =
      let rest = record m { pendings = w } in
      choice-Settled m.paused todo m (emit_loop env w (emit_chunk env c rest)) (simp h a) (
        emit_loop-Settled w todo (emit_chunk env c rest) (emit_chunk-pendings c rest) (
          emit_chunk-Agrees c w todo rest
            (record { order = a.order; decoder_same = a.decoder_same; ends = a.ends })))
