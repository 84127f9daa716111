-- ===== src/App/Http/Tests.antt =====
-- Answers to requests that fail, and the theorems at concrete inputs.
use fastapi_project.Prelude.{ℕ, String, ◌≡◌, refl, some, []}
use fastapi_project.Python.{Exn, value_error, app_error, key_error, raised}
use fastapi_project.Users.Routes.{Reply}
use fastapi_project.App.Http.{Response, Framework, exception_handlers, respond}
use fastapi_project.App.Http.Status.{answer_status, respond_status, users_status}

abbrev plain : ℕ → Response
plain code = record { status_code = code; content = []; headers = [] }

abbrev framework : Framework Reply
framework = record {
  status_of = users_status;
  render = λ r. plain (users_status r);
  http_exception_response = λ code detail. plain code;
  server_error = plain 500;
  render_lem = λ r. refl;
  http_exception_lem = λ code detail. refl;
  server_error_lem = refl;
}

abbrev text_of : Exn → String
text_of e = "x"

answer_tests :
    (answer_status (respond text_of framework "1.0" (raised (app_error "no" 418))) ≡ some 418)
    × (answer_status (respond text_of framework "1.0" (raised key_error)) ≡ some 500)
unfolding respond exception_handlers
answer_tests = (refl, refl)

respond_status_example :
    answer_status (respond text_of framework "1.0" (raised (value_error "x"))) ≡ some 422
respond_status_example = respond_status text_of framework "1.0" (raised (value_error "x"))
