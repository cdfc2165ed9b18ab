-- ===== src/Http/Server/Tests.antt =====
-- Connections that meet the hypotheses of the theorems about http::Server, and runs.
use libnode.Base.{◌≡◌, refl, true, false, [], ◌∷◌}
use libnode.Http.Server.State.{Connection, new_connection}
use libnode.Http.Server.Ops.{
  announce, on_incoming, finish_out, end_waiting, end_out, last_waiting, set_last,
}
use libnode.Http.Server.Finish.{IsInOrder}
use libnode.Http.Server.Order.{Run, begins, steps, requested, ended, made_last, Run-IsInOrder}

-- Three requests; the second response is ended first, then the first, and the third is the last.
abbrev three : Connection
three =
    on_incoming false false false
      (on_incoming true false false (on_incoming true false false new_connection))

abbrev answered : Connection
answered = end_out false 2 (set_last 2 (end_out false 0 (end_out false 1 three)))

answered_in_order : answered.responses ≡ 0 ∷ 1 ∷ 2 ∷ []
unfolding on_incoming announce end_out end_waiting set_last last_waiting finish_out new_connection
answered_in_order = refl

answered_closing : answered.closing ≡ true
unfolding on_incoming announce end_out end_waiting set_last last_waiting finish_out new_connection
answered_closing = refl

answering : Run new_connection answered
unfolding on_incoming announce new_connection
answering =
    steps
      (steps
        (steps
          (steps
            (steps
              (steps (steps begins (requested true false false refl))
                (requested true false false refl))
              (requested false false false refl))
            (ended false 1))
          (ended false 0))
        (made_last 2))
      (ended false 2)

Run-IsInOrder_example : IsInOrder answered
Run-IsInOrder_example = Run-IsInOrder answering
