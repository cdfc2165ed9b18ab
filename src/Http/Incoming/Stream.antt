-- ===== src/Http/Incoming/Stream.antt =====
-- The body of an http::IncomingMessage: pause(), resume(), the events, and EmitPending.
use libnode.Base.{
  ℕ, Bool, true, false, ◌&&◌, Option, none, some, List, [], ◌∷◌, ◌++◌, is_some, if◌then◌else◌,
}
use libnode.Net.Socket.State.{Bytes, Encoding}
use libnode.Http.Incoming.State.{
  Event, data_event, text_event, end_event, SocketCall, pause_call, resume_call, destroy_call,
  Reaction, nothing, pauses, resumes, Env, Incoming,
}

-- setEncoding(): StringDecoder::create() never fails.
unfoldable pub set_encoding : Encoding → Incoming → Incoming × Bool
set_encoding enc m = (record m { decoder = some enc }, true)

abbrev pub ask : SocketCall → Incoming → Incoming
ask c m = record m { calls = m.calls ++ (if is_some m.socket then c ∷ [] else []) }

unfoldable pub pause : Env → Incoming → Incoming × Bool
pause env m =
    let paused = record m { paused = true } in
    (ask pause_call paused, is_some m.socket && env.pause_result)

abbrev pub call_back : Option ℕ → Incoming → Incoming
call_back none m = m
call_back (some f) m = record m { called = m.called ++ f ∷ [] }

abbrev pub schedule : List (Option Bytes) → Option ℕ → Incoming → Incoming
schedule [] callback m = call_back callback m
schedule (c ∷ rest) callback m = record m { ticks = m.ticks ++ callback ∷ [] }

-- emitPending(callback).
unfoldable pub emit_pending : Option ℕ → Incoming → Incoming
emit_pending callback m = schedule m.pendings callback m

unfoldable pub resume : Env → Incoming → Incoming × Bool
resume env m =
    let resumed = ask resume_call (record m { paused = false }) in
    (emit_pending none resumed, is_some m.socket && env.resume_result)

unfoldable pub destroy : Env → Incoming → Incoming × Bool
destroy env m = (ask destroy_call m, is_some m.socket && env.destroy_result)

unfoldable pub react : Env → Reaction → Incoming → Incoming
react env nothing m = m
react env pauses m = (pause env m).0
react env resumes m = (resume env m).0

-- emit(): the listeners run at once.
unfoldable pub emit : Env → Event → Incoming → Incoming
emit env e m =
    react env (env.reacts (m.events ++ e ∷ [])) (record m { events = m.events ++ e ∷ [] })

abbrev pub emit_text : Env → Bytes → Incoming → Incoming
emit_text env [] m = m
emit_text env (x ∷ xs) m = emit env (text_event (x ∷ xs)) m

abbrev pub emit_decoded : Env → Option Encoding → Bytes → Incoming → Incoming
emit_decoded env none b m = emit env (data_event b) m
emit_decoded env (some enc) b m = emit_text env (env.to_string enc b) m

unfoldable pub emit_data : Env → Bytes → Incoming → Incoming
emit_data env b m = emit_decoded env m.decoder b m

abbrev pub end_unless : Bool → Env → Incoming → Incoming
end_unless true env m = m
end_unless false env m = record (emit env end_event m) { end_emitted = true }

unfoldable pub emit_end : Env → Incoming → Incoming
emit_end env m = end_unless m.end_emitted env m

abbrev pub finish_stream : Env → Incoming → Incoming
finish_stream env m = emit_end env (record m { readable = false })

-- One round of the loop of EmitPending.
unfoldable pub emit_chunk : Env → Option Bytes → Incoming → Incoming
emit_chunk env (some b) m = emit_data env b m
emit_chunk env none m = finish_stream env m

-- The loop of EmitPending, on the chunks that wait.
unfoldable pub emit_loop : Env → List (Option Bytes) → Incoming → Incoming
emit_loop env [] m = m
emit_loop env (c ∷ rest) m =
    if m.paused then m else emit_loop env rest (emit_chunk env c (record m { pendings = rest }))

unfoldable pub run_emit_pending : Env → Option ℕ → Incoming → Incoming
run_emit_pending env callback m = call_back callback (emit_loop env m.pendings m)

-- What process::nextTick does with the oldest EmitPending.
abbrev pub run_first : List (Option ℕ) → Env → Incoming → Incoming
run_first [] env m = m
run_first (callback ∷ rest) env m = run_emit_pending env callback (record m { ticks = rest })

unfoldable pub run_tick : Env → Incoming → Incoming
run_tick env m = run_first m.ticks env m

-- A chunk waits while the message is paused or others wait.
abbrev pub receive_behind : List (Option Bytes) → Env → Option Bytes → Incoming → Incoming
receive_behind [] env c m = if m.paused then record m { pendings = c ∷ [] } else emit_chunk env c m
receive_behind (x ∷ w) env c m = record m { pendings = x ∷ (w ++ c ∷ []) }

-- Parser::onBody() and, for `none`, onMessageComplete() on the body of the message.
unfoldable pub receive : Env → Option Bytes → Incoming → Incoming
receive env c m = receive_behind m.pendings env c m
