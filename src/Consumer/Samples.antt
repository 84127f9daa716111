-- ===== src/Consumer/Samples.antt =====
-- Concrete stand-ins for aio_pika's message and for JSON, which satisfy the laws that are assumed.
use fastapi_project.Prelude.{◌≡◌, ◌≢◌, refl, Bool, Option, none, some, arith}
use fastapi_project.Python.{
  Exn, json_decode_error, message_process_error, other_error, cancelled_error, Outcome, returned,
  raised, Await, done,
}
use fastapi_project.Dict.{Dict}
use fastapi_project.Json.{Json, obj, fields}
use fastapi_project.Consumer.{
  Settlement, unsettled, acked, nacked, rejected, MessageApi, Codec, MessageHandler, Handlers,
  example_handlers,
}

abbrev sample_nack : Bool → Settlement → Await × Settlement
sample_nack q unsettled = (done, nacked q)
sample_nack q s = (raised message_process_error, s)

abbrev sample_leave : Bool → Await → Settlement → Await × Settlement
sample_leave q (returned _) unsettled = (done, acked)
sample_leave q (raised e) unsettled = (raised e, rejected q)
sample_leave q a s = (raised message_process_error, s)

pub leave_kept :
    (q : Bool) (a : Await) (s : Settlement) → s ≢ unsettled → (sample_leave q a s).1 ≡ s
leave_kept q a s h = ground arith

pub leave_raises : (q : Bool) (e : Exn) (s : Settlement) → (sample_leave q (raised e) s).0 ≢ done
leave_raises q e s h = ground arith

abbrev pub sample_api : MessageApi
sample_api = record {
  nack = sample_nack;
  leave = sample_leave;
  nack_lem = λ q. refl;
  leave_clean = λ q. refl;
  leave_raised = λ q e. refl;
  leave_settled = leave_kept;
  leave_settled_raised = leave_raises;
}

-- A body is the dictionary that was written, or no JSON at all.
abbrev sample_loads : Option (Dict Json) → Outcome Json
sample_loads none = raised json_decode_error
sample_loads (some d) = returned (obj (fields d))

abbrev pub sample_codec : Codec
sample_codec = record {
  Bytes = Option (Dict Json);
  dumps = λ d. some d;
  loads = sample_loads;
  loads-dumps = λ d h. refl;
}

abbrev pub succeeds : MessageHandler
succeeds body = done

abbrev pub fails : MessageHandler
fails body = raised (other_error "handler")

abbrev pub is_cancelled : MessageHandler
is_cancelled body = raised cancelled_error

abbrev pub sample_handlers : Handlers
sample_handlers = example_handlers succeeds fails
