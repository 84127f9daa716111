-- ===== src/App/Http/Status.antt =====
-- fastapi_app/main.py: the status of every answer, and which answers are timed.
use fastapi_project.Prelude.{
  ℕ, String, ◌≡◌, ap, refl, ◌∙◌, ◌↔◌, Bool, true, Option, none, some, [], arith, if◌then◌else◌,
  eq_refl,
}
use fastapi_project.Python.{
  Exn, http_exception, app_error, is_exception, Outcome, returned, raised, Await, ◌>>=◌,
}
use fastapi_project.Dict
use fastapi_project.Dict.{Dict, get-set_self}
use fastapi_project.Json.{Json}
use fastapi_project.Users.{TextOps, RawUser, UserCreate, valid, user_create}
use fastapi_project.Users.Routes.{
  UsersState, Reply, reply, validation_errors, created_event, entry, create_user,
}
use fastapi_project.Users.Store.{create_user_stores}
use fastapi_project.App.Http.{
  Response, Framework, is_value_error, process_time, exception_handlers, respond,
}

-- The status that an exception of a route gives.
abbrev pub status_of_exception : Exn → ℕ
status_of_exception (http_exception code detail) = code
status_of_exception (app_error message code) = code
status_of_exception e = if is_value_error e then 422 else 500

-- The exceptions that a handler of the application or of FastAPI answers.
abbrev pub is_answered : Exn → Bool
is_answered (http_exception code detail) = true
is_answered (app_error message code) = true
is_answered e = is_value_error e

abbrev pub answer_status : Outcome Response → Option ℕ
answer_status (returned r) = some r.status_code
answer_status (raised e) = none

module _ (text_of : Exn → String) {Reply : Type 0} (f : Framework Reply) (elapsed : String) where
  -- Every request is answered, unless it is cancelled: with the status of the reply, or with that
  -- of the exception, which is the code of an HTTPException or an AppError, 422 for a ValueError of
  -- any class, and 500 for any other.
  pub respond_status :
      (out : Outcome Reply)
      → answer_status (respond text_of f elapsed out) ≡ elim out [
        | returned x ↦ some (f.status_of x)
        | raised e ↦ if is_exception e then some (status_of_exception e) else none
      ]
  unfolding respond exception_handlers
  respond_status (returned x) = ap some (f.render_lem x)
  respond_status (raised (http_exception code detail)) = ap some (f.http_exception_lem code detail)
  respond_status (raised e) = ground (arith, f.server_error_lem)

  -- An answer carries the time of its processing exactly if a handler has answered.
  pub respond_timed :
      (e : Exn) (r : Response)
      → Dict.get process_time f.server_error.headers ≡ none
      → respond text_of f elapsed (raised e) ≡ returned r
      → (Dict.get process_time r.headers ≡ some elapsed) ↔ (is_answered e ≡ true)
  unfolding respond exception_handlers
  respond_timed (http_exception code detail) r h k =
      ground
        (arith, get-set_self process_time elapsed (f.http_exception_response code detail).headers)
  respond_timed e r h k = ground (arith, h, get-set_self process_time elapsed [])

-- FastAPI's status of a reply of the users' routes.
abbrev pub users_status : Reply → ℕ
users_status (reply code body) = code
users_status (validation_errors errors) = 422

module _ (text_of : Exn → String) (f : Framework Reply) (elapsed : String) (ops : TextOps)
    (publish : String → Dict Json → Await)
    (code_of_reply : (r : Reply) → f.status_of r ≡ users_status r) where
  published_status :
      (p : Await) (r : Reply)
      → answer_status (respond text_of f elapsed (p >>= λ _. returned r)) ≡ elim p [
        | returned _ ↦ some (users_status r)
        | raised e ↦ if is_exception e then some (status_of_exception e) else none
      ]
  published_status (returned _) r =
      respond_status text_of f elapsed (returned r) ∙ ap some (code_of_reply r)
  published_status (raised e) r = respond_status text_of f elapsed (raised e)

  -- If FastAPI's status of a reply is the one that the route gives, then an accepted POST stores
  -- its user whatever it answers: 201 if the event was published, and the status of the exception
  -- otherwise, so that a ValueError of the publisher is answered with 422, as a request that is
  -- refused.
  create_user_status :
      (raw : RawUser) (body : UserCreate) (new_id : String) (now : ℕ) (s : UsersState)
      → user_create ops raw ≡ valid body
      → let (out, s') = create_user ops publish raw new_id now s in
        (Dict.get new_id s'.fake_users_db ≡ some (entry body new_id now))
        × (answer_status (respond text_of f elapsed out)
            ≡ elim (publish "user.created" (created_event body new_id)) [
              | returned _ ↦ some 201
              | raised e ↦ if is_exception e then some (status_of_exception e) else none
            ])
  create_user_status raw body new_id now s accepted =
      let (stored, _, answered) = create_user_stores ops publish raw body new_id now s accepted in
      (
        stored new_id ∙ rw (eq_refl new_id) refl,
        ap (λ o. answer_status (respond text_of f elapsed o)) answered
            ∙ published_status (publish "user.created" (created_event body new_id)) _,
      )
