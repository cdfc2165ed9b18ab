-- ===== src/Net/Server/Connections.antt =====
-- The connections of a net::Server and its close event, in all that can happen once it listens.
use libnode.Base.{
  ℕ, ◌+◌, ◌≤◌, ◌≡◌, refl, sym, ap, ◌∙◌, ◌⊎◌, inl, inr, Bool, true, false, not, ◌||◌, Option, none,
  some, List, [], ◌∷◌, ◌++◌, arith, length, length-append, is_some, ◌==◌,
}
use libnode.Net.Server.State.{
  HandleType, Event, listening_event, close_event, destroy_event, error_event, connection_event,
  Tick, uv_error, illegal_state, close_tick, listening_tick, error_tick, Server,
}
use libnode.Net.Server.Ops.{
  add_callback, emit_close_unless, emit_close_if_drained, close_handle, close, is_full,
  connect_client, on_connection, remove_id, decrement, remove_connection, on_destroy, emit_close,
  run_tick, run_next,
}
use libnode.Net.Server.Counting.{
  close_ticks, close_events, close_ticks-append, close_events-append, due, is_in, Step, comes,
  no_client, goes, closes, ticks, Run, begins, steps, IsSound, length-remove_id, due_open,
  due_drained, Bounded-less, Bounded-more, decrement_pos, due_busy, due_some, due_pos,
}

unless-IsSound :
    (b : Bool) (s : Server)
    → (is_some s.handle || not (s.connections == 0)) ≡ b
    → s.connections ≡ length s.live
    → (s.max_connections ≡ 0) ⊎ (s.connections ≤ s.max_connections)
    → close_ticks s.ticks + close_events s.events ≡ 0
    → s.failed ≡ false
    → IsSound (emit_close_unless b s)
unless-IsSound true s e c m z f = record {
  counted = c;
  bounded = m;
  settled = z ∙ sym (due_open s.handle s.connections e);
  called_back = inl (omega (arith, z));
  unfailed = f;
}
unless-IsSound false s e c m z f =
    let more = close_ticks-append s.ticks (close_tick ∷ []) in
    let one = due_drained s.handle s.connections e in
    record {
      counted = c;
      bounded = m;
      settled = omega (arith, more, one, z);
      called_back = inl (omega (arith, z));
      unfailed = f;
    }

remove_connection-IsSound :
    (client : ℕ) (s : Server)
    → is_in client s.live ≡ true
    → IsSound s
    → IsSound (remove_connection client s)
unfolding remove_connection emit_close_if_drained
remove_connection-IsSound client s h a =
    let fewer = length-remove_id client s.live h in
    let some_live : 1 ≤ s.connections = omega (arith, fewer, a.counted) in
    let one_less = decrement_pos s.connections some_live in
    let left = record s { connections = decrement s.connections; live = remove_id client s.live } in
    unless-IsSound (is_some s.handle || not (decrement s.connections == 0)) left refl
      (omega (arith, one_less, fewer, a.counted))
      (Bounded-less s.max_connections s.connections (decrement s.connections)
        (omega (arith, one_less)) a.bounded)
      (a.settled ∙ due_busy s.handle s.connections some_live) a.unfailed

close-IsSound :
    (h : Option HandleType) (callback : Option ℕ) (s : Server)
    → s.handle ≡ h
    → IsSound s
    → IsSound (close_handle h callback s).0
unfolding emit_close_if_drained
close-IsSound none callback s e a = a
close-IsSound (some h) callback s e a =
    let closed = record s {
      close_callbacks = add_callback callback s.close_callbacks;
      handle = none;
    } in
    let none_due : close_ticks s.ticks + close_events s.events ≡ 0 =
      a.settled ∙ ap (λ x. due x s.connections) e in
    unless-IsSound (not (s.connections == 0)) closed refl a.counted a.bounded none_due a.unfailed

connect_client-IsSound :
    (b : Bool) (client : ℕ) (s : Server)
    → is_full s ≡ b
    → is_some s.handle ≡ true
    → IsSound s
    → IsSound (connect_client b client s)
connect_client-IsSound true client s e h a = record {
  counted = a.counted;
  bounded = a.bounded;
  settled = a.settled;
  called_back = a.called_back;
  unfailed = a.unfailed;
}
connect_client-IsSound false client s e h a =
    let same = close_events-append s.events (connection_event client ∷ []) in
    let longer = length-append s.live (client ∷ []) in
    let none_due = due_some s.handle s.connections h in
    let none_due_later = due_some s.handle (s.connections + 1) h in
    record {
      counted = omega (arith, longer, a.counted);
      bounded = Bounded-more s.max_connections s.connections e;
      settled = omega (arith, same, none_due, none_due_later, a.settled);
      called_back = inl (omega (arith, same, none_due, a.settled));
      unfailed = a.unfailed;
    }

still_called_back :
    (s : Server) (es : List Event)
    → close_events es ≡ 0
    → (close_events s.events ≡ 0) ⊎ (s.close_callbacks ≡ [])
    → (close_events (s.events ++ es) ≡ 0) ⊎ (s.close_callbacks ≡ [])
still_called_back s es z (inl n) = inl (omega (arith, close_events-append s.events es, z, n))
still_called_back s es z (inr c) = inr c

-- An operation that emits other events.
emitted-IsSound :
    (s t : Server) (e : Event)
    → close_events (e ∷ []) ≡ 0
    → (t.connections ≡ s.connections)
      × (t.live ≡ s.live)
      × (t.max_connections ≡ s.max_connections)
      × (close_ticks t.ticks ≡ close_ticks s.ticks)
      × (t.events ≡ s.events ++ e ∷ [])
      × (t.handle ≡ s.handle)
      × (t.close_callbacks ≡ s.close_callbacks)
      × (t.failed ≡ s.failed)
    → IsSound s
    → IsSound t
emitted-IsSound s t e z (sc, sl, sm, st, se, sh, sb, sf) a =
    let same = close_events-append s.events (e ∷ []) in
    record {
      counted = rw (sc, sl) a.counted;
      bounded = rw (sc, sm) a.bounded;
      settled = rw (sc, st, se, sh) (omega (arith, same, z, a.settled));
      called_back = rw (se, sb) (still_called_back s (e ∷ []) z a.called_back);
      unfailed = sf ∙ a.unfailed;
    }

close_tick-IsSound :
    (ts : List Tick) (s : Server)
    → s.ticks ≡ close_tick ∷ ts
    → IsSound s
    → IsSound (emit_close (record s { ticks = ts }))
unfolding emit_close on_destroy
close_tick-IsSound ts s e a =
    let first = close_events-append s.events (close_event ∷ []) in
    let second = close_events-append (s.events ++ close_event ∷ []) (destroy_event ∷ []) in
    let total : 1 + close_ticks ts + close_events s.events ≡ due s.handle s.connections =
      ap (λ l. close_ticks l + close_events s.events) (sym e) ∙ a.settled in
    let drained = due_pos s.handle s.connections (omega (arith, total)) in
    record {
      counted = a.counted;
      bounded = a.bounded;
      settled = omega (arith, first, second, total);
      called_back = inr refl;
      unfailed = rw (drained, a.unfailed) refl;
    }

run_next-IsSound :
    (ts : List Tick) (s : Server) → s.ticks ≡ ts → IsSound s → IsSound (run_next ts s)
unfolding run_next run_tick
run_next-IsSound [] s e a = a
run_next-IsSound (close_tick ∷ ts) s e a = close_tick-IsSound ts s e a
run_next-IsSound (listening_tick ∷ ts) s e a =
    emitted-IsSound s (run_next (listening_tick ∷ ts) s) listening_event refl
      (refl, refl, refl, sym (ap close_ticks e), refl, refl, refl, refl) a
run_next-IsSound (error_tick n ∷ ts) s e a =
    emitted-IsSound s (run_next (error_tick n ∷ ts) s) (error_event (uv_error n)) refl
      (refl, refl, refl, sym (ap close_ticks e), refl, refl, refl, refl) a

Step-IsSound : (s t : Server) → Step s t → IsSound s → IsSound t
unfolding on_connection close
Step-IsSound s t (comes client h) a = connect_client-IsSound (is_full s) client s refl h a
Step-IsSound s t no_client a =
    emitted-IsSound s t (error_event illegal_state) refl
      (refl, refl, refl, refl, refl, refl, refl, refl) a
Step-IsSound s t (goes client h) a = remove_connection-IsSound client s h a
Step-IsSound s t (closes callback) a = close-IsSound s.handle callback s refl a
Step-IsSound s t ticks a = run_next-IsSound s.ticks s refl a

pub Run_kept : {s t : Server} → IsSound s → Run s t → IsSound t
Run_kept a begins = a
Run_kept a (steps {s} {t} {u} run step) = Step-IsSound t u step (Run_kept a run)
