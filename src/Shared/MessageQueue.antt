-- ===== src/Shared/MessageQueue.antt =====
-- MessageQueue (include/libnode/detail/message_queue.h): messages that one thread posts and the event
-- loop delivers. The listeners are taken not to post to the queue that calls them.
use libnode.Base.{
  ◌≡◌, Bool, true, false, List, [], ◌∷◌, ◌++◌, arith, append-nil, append_assoc, if◌then◌else◌,
}

-- `delivered` logs the `message` events, newest last.
pub record MessageQueue (V : Type 0) : Type 0 where
  pub is_open : Bool
  pub queue : List V
  pub delivered : List V

abbrev pub new_queue : {V : Type 0} → MessageQueue V
new_queue = record { is_open = false; queue = []; delivered = [] }

module _ {V : Type 0} where
  -- The loop of emitMessage().
  unfoldable pub emit_all : List V → List V → List V
  emit_all done [] = done
  emit_all done (v ∷ vs) = emit_all (done ++ v ∷ []) vs

  -- emitMessage(), which receive() calls.
  unfoldable pub emit_message : MessageQueue V → MessageQueue V
  emit_message q = record q { queue = []; delivered = emit_all q.delivered q.queue }

  -- `result` is that of uv_async_init().
  unfoldable pub open_queue : Bool → MessageQueue V → MessageQueue V × Bool
  open_queue result q = if q.is_open then (q, false) else (record q { is_open = true }, result)

  unfoldable pub close_queue : MessageQueue V → MessageQueue V × Bool
  close_queue q =
      if q.is_open then (emit_message (record q { is_open = false }), true) else (q, false)

  -- `result` is that of uv_async_send(); the message is in the queue even if that fails.
  unfoldable pub post_message : Bool → V → MessageQueue V → MessageQueue V × Bool
  post_message result v q =
      if q.is_open then (record q { queue = q.queue ++ v ∷ [] }, result) else (q, false)

  emit_all_lem : (done vs : List V) → emit_all done vs ≡ done ++ vs
  unfolding emit_all
  emit_all_lem done [] = ground (arith, append-nil done)
  emit_all_lem done (v ∷ vs) =
      ground (arith, emit_all_lem (done ++ v ∷ []) vs, append_assoc done (v ∷ []) vs)

  -- A message that is posted to an open queue is delivered once, behind those before it, by the
  -- next receive() and also by close(), which leaves the queue empty and closed; a closed queue
  -- takes no message.
  post_message-delivered :
      (result : Bool) (v : V) (q : MessageQueue V)
      → let t = (post_message result v q).0 in
        (q.is_open ≡ true → (emit_message t).delivered ≡ (q.delivered ++ q.queue) ++ v ∷ [])
        × (q.is_open ≡ true → (close_queue t).0.delivered ≡ (q.delivered ++ q.queue) ++ v ∷ [])
        × (q.is_open ≡ true → (close_queue t).0.queue ≡ [])
        × (q.is_open ≡ true → (close_queue t).0.is_open ≡ false)
        × (q.is_open ≡ false → post_message result v q ≡ (q, false))
  unfolding post_message emit_message close_queue
  post_message-delivered result v q =
      let l = emit_all_lem q.delivered (q.queue ++ v ∷ []) in
      let a = append_assoc q.delivered q.queue (v ∷ []) in
      (
        (λ o. ground (arith, o, l, a)),
        (λ o. ground (arith, o, l, a)),
        (λ o. ground (arith, o)),
        (λ o. ground (arith, o)),
        (λ o. simp o),
      )
