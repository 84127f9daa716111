-- ===== src/Consumer/Settling.antt =====
-- fastapi_app/rmq/consumer.py: how `_process_message` settles a message, in every case.
use fastapi_project.Prelude.{
  ◌≡◌, ◌≢◌, refl, true, false, Option, none, some, arith, Bool-cases, inl, inr, if◌then◌else◌,
}
use fastapi_project.Python.{
  Exn, is_exception, is_decode_error, Outcome, returned, raised, ◌>>=◌, Await,
}
use fastapi_project.Json.{Json}
use fastapi_project.Consumer.{
  Settlement, unsettled, acked, nacked, rejected, MessageApi, Codec, MessageHandler, Handlers,
  event_type_of, find_handler, requeue_on_error, execute, block, process_message,
}

-- What a message is to the consumer.
pub data Fate : Type 0 where
  undecodable : Fate
  unreadable : Exn → Fate
  unhandled : Fate
  handled : Await → Fate

module _ (api : MessageApi) (codec : Codec) (handlers : Handlers) where
  abbrev fate_found : Json → Outcome (Option MessageHandler) → Fate
  fate_found body (raised e) = unreadable e
  fate_found body (returned none) = unhandled
  fate_found body (returned (some handler)) = handled (handler body)

  abbrev fate_loaded : Outcome Json → Fate
  fate_loaded (raised e) = if is_decode_error e then undecodable else unreadable e
  fate_loaded (returned body) = fate_found body (event_type_of body >>= find_handler handlers)

  abbrev pub fate : codec.Bytes → Fate
  fate raw = fate_loaded (codec.loads raw)

  abbrev pub settlement : Fate → Settlement
  settlement undecodable = acked
  settlement unhandled = acked
  settlement (unreadable e) = rejected false
  settlement (handled (returned _)) = acked
  settlement (handled (raised e)) = if is_exception e then nacked true else rejected false

  left : Await × Settlement → Await × Settlement
  left x = api.leave false x.0 x.1

  nacked-ne-unsettled : nacked true ≢ unsettled
  nacked-ne-unsettled h = cc

  requeue_settles :
      (a : Await)
      → (left (requeue_on_error api codec handlers a unsettled)).1 ≡ settlement (handled a)
  unfolding left requeue_on_error
  requeue_settles (returned tt) = ground (arith, api.leave_clean false)
  requeue_settles (raised e) = elim (Bool-cases (is_exception e)) [
    | inl caught ↦
        rw (caught, api.nack_lem)
          (api.leave_settled false (raised e) (nacked true) nacked-ne-unsettled)
    | inr passes ↦ rw (passes, api.leave_raised) refl
  ]

  execute_settles :
      (body : Json) (found : Outcome (Option MessageHandler))
      → (left (execute api codec handlers body found unsettled)).1
        ≡ settlement (fate_found body found)
  unfolding left execute
  execute_settles body (raised e) = ground (arith, api.leave_raised false e)
  execute_settles body (returned none) = ground (arith, api.leave_clean false)
  execute_settles body (returned (some handler)) = requeue_settles (handler body)

  block_settles :
      (x : Outcome Json)
      → (left (block api codec handlers x unsettled)).1 ≡ settlement (fate_loaded x)
  unfolding left block
  block_settles (raised e) = ground (arith, api.leave_clean false, api.leave_raised false e)
  block_settles (returned body) =
      execute_settles body (event_type_of body >>= find_handler handlers)

  -- Every message is settled, once: undecodable messages, messages of an unknown type and those
  -- whose handler returned are acknowledged; those whose body or event type cannot be read, and
  -- those whose handler was cancelled, are rejected for good; and those whose handler raised an
  -- `Exception` are put back into the queue.
  pub process_message_settles :
      (raw : codec.Bytes) → (process_message api codec handlers raw).1 ≡ settlement (fate raw)
  unfolding process_message
  process_message_settles raw = unfold left in block_settles (codec.loads raw)
