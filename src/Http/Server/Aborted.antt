-- ===== src/Http/Server/Aborted.antt =====
-- A response that finishes behind SocketOnEnd.
use libnode.Base.{◌≡◌, refl, ap, ◌∙◌, ◌||◌, true, false, some, [], arith, ◌==◌}
use libnode.Http.Server.State.{Out, Connection}
use libnode.Http.Server.Ops.{abort_incoming, finish_out, end_held, end_out, on_end, end_socket}

end_aborted :
    (o : Out) (d : Connection)
    → d.incomings ≡ []
    → o.ended ≡ false
    → (end_held (some o) true o.id d).crashed ≡ true
unfolding finish_out
end_aborted o d none_left h =
    let same : (o.id == o.id) ≡ true = ground arith in
    let tried : (d.writable || true) ≡ true = ground arith in simp (same, h, tried, none_left) refl

-- When the client ends its side of a server without the flag HTTP_ALLOW_HALF_OPEN, which is never
-- set, and then the handler ends the response that has the socket, of which no bytes are left to
-- send, OutgoingOnFinish goes through a null pointer: the array of requests was emptied.
end_out-on_end :
    (o : Out) (c : Connection)
    → c.http_message ≡ some o
    → o.ended ≡ false
    → (end_out true o.id (on_end true false c)).crashed ≡ true
unfolding end_out on_end abort_incoming
end_out-on_end o c h e =
    ap (λ x. (end_held x true o.id (end_socket (abort_incoming c))).crashed) h
    ∙ end_aborted o (end_socket (abort_incoming c)) refl e
