-- ===== src/App/Routing.antt =====
-- fastapi_app/main.py and fastapi_app/routers/: the routers that the application includes, and the
-- paths of their decorators. The search of Starlette for a route is an argument.
pub mod Unique
pub mod Samples
mod Tests
use fastapi_project.Prelude.{
  String, ◌≡◌, ◌≢◌, ◌⊎◌, Option, none, some, List, [], ◌∷◌, ◌++◌, map, ◌==◌, if◌then◌else◌,
}

pub data Method : Type 0 where
  http_get http_post http_delete : Method

-- A piece of a path between two strokes: "/users/" has the pieces "users" and "".
pub data Piece : Type 0 where
  literal : String → Piece
  parameter : Piece

-- The functions that the decorators name.
pub data Endpoint : Type 0 where
  at_health at_rabbitmq : Endpoint
  at_create_user at_list_users at_get_user at_delete_user : Endpoint
  at_submit_job at_list_jobs at_get_job_status : Endpoint
  at_gather at_gather_exception at_create_task at_to_thread at_sleep : Endpoint

pub record Route : Type 0 where
  pub method : Method
  pub path : List Piece
  pub endpoint : Endpoint

-- `APIRouter(prefix=…)` with what its decorators have registered.
pub record ApiRouter : Type 0 where
  pub prefix : String
  pub routes : List Route

abbrev route : Method → Piece → Endpoint → Route
route m p e = record { method = m; path = p ∷ []; endpoint = e }

abbrev pub health_router : ApiRouter
health_router = record {
  prefix = "health";
  routes =
      route http_get (literal "") at_health ∷ route http_get (literal "rabbitmq") at_rabbitmq ∷ [];
}

abbrev pub users_router : ApiRouter
users_router = record {
  prefix = "users";
  routes =
      route http_post (literal "") at_create_user
      ∷ route http_get (literal "") at_list_users
      ∷ route http_get parameter at_get_user
      ∷ route http_delete parameter at_delete_user
      ∷ [];
}

abbrev pub jobs_router : ApiRouter
jobs_router = record {
  prefix = "jobs";
  routes =
      route http_post (literal "") at_submit_job
      ∷ route http_get (literal "") at_list_jobs
      ∷ route http_get parameter at_get_job_status
      ∷ [];
}

abbrev pub async_demo_router : ApiRouter
async_demo_router = record {
  prefix = "async-demo";
  routes =
      route http_get (literal "gather") at_gather
      ∷ route http_get (literal "gather-exception") at_gather_exception
      ∷ route http_get (literal "create-task") at_create_task
      ∷ route http_get (literal "to-thread") at_to_thread
      ∷ route http_get (literal "sleep") at_sleep
      ∷ [];
}

abbrev prefixed : String → Route → Route
prefixed prefix r = record r { path = literal prefix ∷ r.path }

abbrev include_router : ApiRouter → List Route → List Route
include_router router rs = rs ++ map (prefixed router.prefix) router.routes

-- The routes of `app` besides the framework's own, in the order in which they are included.
unfoldable pub app_routes : List Route
app_routes =
    include_router async_demo_router
      (include_router jobs_router (include_router users_router (include_router health_router [])))

-- What FastAPI documents of a path: a literal piece stands for itself, a parameter for any piece that
-- is not empty; the result is the values of the parameters.
abbrev bind : Option (List String) → String → Option (List String)
bind none x = none
bind (some args) x = some (x ∷ args)

unfoldable pub match_path : List Piece → List String → Option (List String)
match_path [] [] = some []
match_path (literal t ∷ ps) (x ∷ xs) = let rest = match_path ps xs in if t == x then rest else none
match_path (parameter ∷ ps) (x ∷ xs) =
    let rest = match_path ps xs in if x == "" then none else bind rest x
match_path _ _ = none

abbrev pub Matches : Route → Method → List String → List String → Type 0
Matches r m p args = (r.method ≡ m) × (match_path r.path p ≡ some args)

abbrev pub IsIn : Route → List Route → Type 0
IsIn r [] = ⊥
IsIn r (q ∷ qs) = (r ≡ q) ⊎ IsIn r qs

-- Starlette finds some route that matches, where there is one.
pub record Router : Type 0 where
  pub find_route : List Route → Method → List String → Option (Route × List String)
  pub find_route_sound :
      (rs : List Route) (m : Method) (p : List String) {r : Route} {args : List String}
      → find_route rs m p ≡ some (r, args)
      → IsIn r rs × Matches r m p args
  pub find_route_complete :
      (rs : List Route) (m : Method) (p : List String) (r : Route) (args : List String)
      → IsIn r rs
      → Matches r m p args
      → find_route rs m p ≢ none
