-- ===== src/App/Http.antt =====
-- fastapi_app/main.py: what becomes of the outcome of a route: the handlers of exceptions and the
-- timing middleware. FastAPI's own answers are the argument `Framework`.
pub mod Status
mod Tests
use fastapi_project.Prelude.{
  ℕ, String, ◌≡◌, Bool, true, false, Option, none, some, List, [], ◌∷◌, if◌then◌else◌,
}
use fastapi_project.Python.{
  Exn, value_error, json_decode_error, unicode_decode_error, http_exception, app_error,
  is_exception, Outcome, returned, raised,
}
use fastapi_project.Dict
use fastapi_project.Dict.{Dict}
use fastapi_project.Json.{Json, str}

-- A response: its status, its JSON content and its headers.
pub record Response : Type 0 where
  pub status_code : ℕ
  pub content : Dict Json
  pub headers : Dict String

-- FastAPI serialises what a route returns, answers an HTTPException with its status, and answers
-- with 500 whatever exception reaches the outside.
pub record Framework (Reply : Type 0) : Type 0 where
  pub status_of : Reply → ℕ
  pub render : Reply → Response
  pub http_exception_response : ℕ → String → Response
  pub server_error : Response
  pub render_lem : (r : Reply) → (render r).status_code ≡ status_of r
  pub http_exception_lem :
      (code : ℕ) (detail : String) → (http_exception_response code detail).status_code ≡ code
  pub server_error_lem : server_error.status_code ≡ 500

-- `JSONResponse(status_code, {"error": text})`
abbrev error_response : ℕ → String → Response
error_response code text = record {
  status_code = code;
  content = ("error", str text) ∷ [];
  headers = [];
}

-- The classes below ValueError.
abbrev pub is_value_error : Exn → Bool
is_value_error (value_error text) = true
is_value_error json_decode_error = true
is_value_error unicode_decode_error = true
is_value_error _ = false

-- The header of the middleware.
abbrev pub process_time : String
process_time = "X-Process-Time-Ms"

-- `str(exc)`
module _ (text_of : Exn → String) where
  -- `app_error_handler` and `value_error_handler`, each for its class of exceptions.
  unfoldable pub exception_handlers : Exn → Option Response
  exception_handlers (app_error message code) = some (error_response code message)
  exception_handlers e = if is_value_error e then some (error_response 422 (text_of e)) else none

  module _ {Reply : Type 0} (f : Framework Reply) where
    -- The handlers of the application, and FastAPI's for an HTTPException.
    handle_exception : Exn → Outcome Response
    unfolding exception_handlers
    handle_exception (http_exception code detail) = returned (f.http_exception_response code detail)
    handle_exception e = elim (exception_handlers e) [ some r ↦ returned r | none ↦ raised e ]

    call_next : Outcome Reply → Outcome Response
    unfolding handle_exception
    call_next (returned r) = returned (f.render r)
    call_next (raised e) = handle_exception e

    -- `request_timing_middleware`, with the time as it is written in the header.
    request_timing_middleware : String → Outcome Response → Outcome Response
    request_timing_middleware elapsed (returned r) =
        returned (record r { headers = Dict.set process_time elapsed r.headers })
    request_timing_middleware elapsed (raised e) = raised e

    -- The answer to a request; a cancellation has none.
    answer_raised : Exn → Outcome Response
    answer_raised e = if is_exception e then returned f.server_error else raised e

    answer_timed : Outcome Response → Outcome Response
    unfolding answer_raised
    answer_timed (returned r) = returned r
    answer_timed (raised e) = answer_raised e

    unfoldable pub respond : String → Outcome Reply → Outcome Response
    unfolding call_next request_timing_middleware answer_timed
    respond elapsed out = answer_timed (request_timing_middleware elapsed (call_next out))
