-- ===== src/Users/Routes.antt =====
-- fastapi_app/core/dependencies.py: the dependencies that resolve and check a user;
-- fastapi_app/routers/users.py: the routes. A handler gets what its calls of other parts give: the
-- new identifier, the time, and how `publish` ends for the event that it is given.
use fastapi_project.Prelude.{ℕ, String, not, none, some, List, [], ◌∷◌, map, ◌==◌, if◌then◌else◌}
use fastapi_project.Python.{Outcome, returned, raised, http_exception, ◌>>=◌, Await}
use fastapi_project.Dict
use fastapi_project.Dict.{Dict}
use fastapi_project.Json.{Json, str}
use fastapi_project.Users.{
  TextOps, RawUser, UserCreate, User, UserResponse, to_response, valid, invalid, user_create,
}

-- `fake_users_db`, and the calls of `publish` so far, latest first.
pub record UsersState : Type 0 where
  pub fake_users_db : Dict User
  pub published : List (String × Dict Json)

abbrev pub no_users : UsersState
no_users = record { fake_users_db = []; published = [] }

-- `get_current_user`: an entry is never an empty dictionary, so it counts as true.
unfoldable pub get_current_user : String → UsersState → Outcome User
get_current_user user_id s = elim (Dict.get user_id s.fake_users_db) [
  | none ↦ raised (http_exception 404 "User not found")
  | some user ↦ returned user
]

role_is_admin : User → Outcome User
role_is_admin user =
    if not (user.role == "admin") then raised (http_exception 403 "Admin only") else returned user

-- `require_admin`, which FastAPI calls on what `get_current_user` returns for the same path.
unfoldable pub require_admin : String → UsersState → Outcome User
unfolding get_current_user role_is_admin
require_admin user_id s = get_current_user user_id s >>= role_is_admin

-- The body of a successful reply.
pub data Body : Type 0 where
  one : UserResponse → Body
  many : List UserResponse → Body
  deleted : String → Body

pub data Reply : Type 0 where
  reply : (status : ℕ) → Body → Reply
  validation_errors : List String → Reply

pub data Request : Type 0 where
  create : (raw : RawUser) (new_id : String) (now : ℕ) → Request
  list : Request
  get delete : (user_id : String) → Request

abbrev pub entry : UserCreate → String → ℕ → User
entry body user_id now = record {
  id = user_id;
  created_at = now;
  name = body.name;
  email = body.email;
  age = body.age;
  role = body.role;
}

abbrev pub created_event : UserCreate → String → Dict Json
created_event body user_id =
    ("id", str user_id) ∷ ("email", str body.email) ∷ ("role", str body.role) ∷ []

module _ (ops : TextOps) (publish : String → Dict Json → Await) where
  -- `await publish(event_type, data)`: the call is recorded, and what it raises leaves the handler.
  call_publish : String → Dict Json → Outcome Reply → UsersState → Outcome Reply × UsersState
  call_publish event_type body out s = (
    (publish event_type body >>= λ _. out),
    record s { published = (event_type, body) ∷ s.published },
  )

  create_valid : UserCreate → String → ℕ → UsersState → Outcome Reply × UsersState
  unfolding call_publish
  create_valid body user_id now s =
      let user = entry body user_id now in
      call_publish "user.created" (created_event body user_id)
        (returned (reply 201 (one (to_response user))))
        (record s { fake_users_db = Dict.set user_id user s.fake_users_db })

  -- FastAPI validates the body first, and answers with the errors by itself.
  unfoldable pub create_user : RawUser → String → ℕ → UsersState → Outcome Reply × UsersState
  unfolding create_valid
  create_user raw user_id now s = elim (user_create ops raw) [
    | valid body ↦ create_valid body user_id now s
    | invalid errors ↦ (returned (validation_errors errors), s)
  ]

  unfoldable pub list_users : UsersState → Outcome Reply × UsersState
  list_users s = (returned (reply 200 (many (map to_response (Dict.values s.fake_users_db)))), s)

  unfoldable pub get_user : String → UsersState → Outcome Reply × UsersState
  get_user user_id s =
      (get_current_user user_id s >>= (λ user. returned (reply 200 (one (to_response user)))), s)

  unfoldable pub delete_user : String → UsersState → Outcome Reply × UsersState
  unfolding call_publish
  delete_user user_id s = elim (require_admin user_id s) [
    | raised e ↦ (raised e, s)
    | returned _ ↦
        call_publish "user.deleted" (("id", str user_id) ∷ [])
          (returned (reply 200 (deleted user_id)))
          (record s { fake_users_db = Dict.pop user_id s.fake_users_db })
  ]

  -- The routes of the router.
  unfoldable pub handle : Request → UsersState → Outcome Reply × UsersState
  handle (create raw new_id now) s = create_user raw new_id now s
  handle list s = list_users s
  handle (get user_id) s = get_user user_id s
  handle (delete user_id) s = delete_user user_id s

  -- The store after a sequence of requests: an error ends only its own request.
  unfoldable pub serve : List Request → UsersState → UsersState
  serve [] s = s
  serve (r ∷ rs) s = serve rs (handle r s).1

  -- The answers to a sequence of requests, in their order.
  unfoldable pub answers : List Request → UsersState → List (Outcome Reply)
  answers [] s = []
  answers (r ∷ rs) s = (handle r s).0 ∷ answers rs (handle r s).1
