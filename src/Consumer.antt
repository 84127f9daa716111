-- ===== src/Consumer.antt =====
-- fastapi_app/rmq/consumer.py: the handler registry, and `_process_message` inside its semaphore
-- slot. aio_pika's context manager and `nack`, and JSON, are arguments with documented laws.
pub mod Settling
pub mod Pool
pub mod Loop
pub mod Flow
pub mod Samples
mod Tests
use fastapi_project.Prelude.{
  ℕ, String, ◌≡◌, ◌≢◌, Bool, true, false, Option, none, some, List, [], ◌∷◌, if◌then◌else◌,
}
use fastapi_project.Python.{
  Exn, is_exception, is_decode_error, attribute_error, type_error, Outcome, returned, raised, ◌>>=◌,
  Await, done,
}
use fastapi_project.Dict
use fastapi_project.Dict.{Dict, HasDistinctKeys}
use fastapi_project.Json.{Json, null, bool, int, str, arr, obj, entries, fields}

-- What the broker has been told of a message.
pub data Settlement : Type 0 where
  unsettled acked : Settlement
  nacked rejected : (requeue : Bool) → Settlement

-- aio_pika, on an open channel: `nack`, and the exit of `message.process(requeue=…)`, which gets
-- what left the block. A clean exit acknowledges the message, an exception rejects it and goes on,
-- and a message that is settled already is not settled again: leaving by an exception then ends in
-- an exception too.
pub record MessageApi : Type 0 where
  pub nack : (requeue : Bool) → Settlement → Await × Settlement
  pub leave : (requeue : Bool) → Await → Settlement → Await × Settlement
  pub nack_lem : (q : Bool) → nack q unsettled ≡ (done, nacked q)
  pub leave_clean : (q : Bool) → leave q done unsettled ≡ (done, acked)
  pub leave_raised : (q : Bool) (e : Exn) → leave q (raised e) unsettled ≡ (raised e, rejected q)
  pub leave_settled : (q : Bool) (a : Await) (s : Settlement) → s ≢ unsettled → (leave q a s).1 ≡ s
  pub leave_settled_raised : (q : Bool) (e : Exn) (s : Settlement) → (leave q (raised e) s).0 ≢ done

-- `json.dumps(…).encode()` and `json.loads(….decode())` over the bodies of messages: what was
-- written is read back.
pub record Codec : Type 1 where
  pub Bytes : Type 0
  pub dumps : Dict Json → Bytes
  pub loads : Bytes → Outcome Json
  pub loads-dumps :
      (d : Dict Json) → HasDistinctKeys d → loads (dumps d) ≡ returned (obj (fields d))

-- A handler, by how awaiting it ends.
abbrev pub MessageHandler : Type 0
MessageHandler = Json → Await

abbrev pub Handlers : Type 0
Handlers = Dict MessageHandler

-- The decorator: a later handler of the same type replaces the earlier one.
unfoldable pub register_handler : String → MessageHandler → Handlers → Handlers
register_handler event_type fn handlers = Dict.set event_type fn handlers

-- The registry as the module leaves it.
unfoldable pub example_handlers : MessageHandler → MessageHandler → Handlers
unfolding register_handler
example_handlers handle_user_created handle_job_requested =
    register_handler "job.requested" handle_job_requested
      (register_handler "user.created" handle_user_created [])

abbrev or_empty : Option Json → Json
or_empty none = str ""
or_empty (some v) = v

-- `body.get("event_type", "")`: only an object has `get`.
unfoldable pub event_type_of : Json → Outcome Json
event_type_of (obj fs) = returned (or_empty (Dict.get "event_type" (entries fs)))
event_type_of _ = raised attribute_error

-- `_handlers.get(event_type)`: a list or an object cannot be hashed, and no key is anything else
-- than a text.
unfoldable pub find_handler : Handlers → Json → Outcome (Option MessageHandler)
find_handler handlers (str s) = returned (Dict.get s handlers)
find_handler handlers (arr _) = raised type_error
find_handler handlers (obj _) = raised type_error
find_handler handlers _ = returned none

module _ (api : MessageApi) (codec : Codec) (handlers : Handlers) where
  open api use {nack, leave}
  open codec use {loads}

  -- `except Exception`: `nack(requeue=True)`, and the exception goes on. A cancellation passes.
  requeue_on_error : Await → Settlement → Await × Settlement
  requeue_on_error (returned _) s = (done, s)
  requeue_on_error (raised e) s =
      if is_exception e
      then (let (sent, s') = nack true s in ((sent >>= λ _. raised e), s'))
      else (raised e, s)

  execute : Json → Outcome (Option MessageHandler) → Settlement → Await × Settlement
  unfolding requeue_on_error
  execute body (raised e) s = (raised e, s)
  execute body (returned none) s = (done, s)
  execute body (returned (some handler)) s = requeue_on_error (handler body) s

  -- The block inside `async with message.process(requeue=False)`.
  block : Outcome Json → Settlement → Await × Settlement
  unfolding execute
  block (raised e) s = if is_decode_error e then (done, s) else (raised e, s)
  block (returned body) s = execute body (event_type_of body >>= find_handler handlers) s

  unfoldable pub process_message : codec.Bytes → Await × Settlement
  unfolding block
  process_message raw = let (out, s) = block (loads raw) unsettled in leave false out s
