-- ===== src/App/Api.antt =====
-- fastapi_app/main.py: a request to the application, from its path to the route and its state. The
-- type checks of a body are arguments.
pub mod Accounts
pub mod Created
pub mod Work
pub mod Finished
pub mod Expected
pub mod Errors
mod Tests
use fastapi_project.Prelude.{
  ℕ, String, ◌≡◌, ◌≢◌, ◌⊎◌, Bool, true, false, Option, none, some, List, [], ◌∷◌, ◌++◌, map, ◌==◌,
  if◌then◌else◌,
}
use fastapi_project.Python.{Exn, Outcome, returned, raised, Await, ◌>>=◌}
use fastapi_project.Dict.{Dict}
use fastapi_project.Json.{Json, str}
use fastapi_project.Users.{TextOps, RawUser}
use fastapi_project.Users.Routes.{UsersState, create_user, list_users, get_user, delete_user}
use fastapi_project.Users
use fastapi_project.Jobs.{JobsState}
use fastapi_project.Jobs.Routes.{JobRequest, post_job, list_jobs, get_job_status}
use fastapi_project.Jobs
use fastapi_project.App.Instances.{Process, rabbitmq_health}
use fastapi_project.AsyncDemo.{
  Answer, demo_gather, demo_gather_exception, demo_create_task, demo_to_thread, demo_sleep,
}
use fastapi_project.App.Routing.{
  Method, Endpoint, at_health, at_rabbitmq, at_create_user, at_list_users, at_get_user,
  at_delete_user, at_submit_job, at_list_jobs, at_get_job_status, at_gather, at_gather_exception,
  at_create_task, at_to_thread, at_sleep, Route, app_routes, Router,
}

-- What the routes act on.
pub record Api : Type 0 where
  pub users : UsersState
  pub jobs : JobsState
  pub process : Process

-- `unprocessable` is a body that has other types, and `not_routed` a request that no route matches,
-- which Starlette answers by itself, by a redirect, 404 or 405.
pub data ApiReply : Type 0 where
  users_reply : Users.Routes.Reply → ApiReply
  jobs_reply : Jobs.Routes.Reply → ApiReply
  body_reply : Dict Json → ApiReply
  unprocessable not_routed : ApiReply

-- What a client sends, with the identifier and the time that the handler takes.
pub record HttpRequest (Content : Type 0) : Type 0 where
  pub method : Method
  pub path : List String
  pub content : Content
  pub new_id : String
  pub now : ℕ

-- What the code calls of others; `as_user` and `as_job` are pydantic's checks of the types, and
-- `cancelled_after` is when a request that sleeps is cancelled.
pub record Services (Content : Type 0) : Type 0 where
  pub router : Router
  pub ops : TextOps
  pub publish : String → Dict Json → Await
  pub as_user : Content → Option RawUser
  pub as_job : Content → Option JobRequest
  pub isoformat : ℕ → String
  pub str_of : ℕ → String
  pub text_of : Exn → String
  pub cancelled_after : (now : ℕ) → Option ℕ

abbrev on_users : Api → Outcome Users.Routes.Reply × UsersState → Outcome ApiReply × Api
on_users s (out, u) = ((out >>= λ r. returned (users_reply r)), record s { users = u })

abbrev on_jobs : Api → Outcome Jobs.Routes.Reply × JobsState → Outcome ApiReply × Api
on_jobs s (out, j) = ((out >>= λ r. returned (jobs_reply r)), record s { jobs = j })

abbrev pub on_demo : Api → Answer → Outcome ApiReply × Api
on_demo s (out, time) = ((out >>= λ body. returned (body_reply body)), s)

-- The parameter of a path.
abbrev pub argument : List String → String
argument [] = ""
argument (x ∷ xs) = x

-- `{"status": "ok", "time": …}`
abbrev liveness : (time : String) → Dict Json
liveness time = ("status", str "ok") ∷ ("time", str time) ∷ []

module _ {Content : Type 0} (env : Services Content) where
  unfoldable pub post_user : HttpRequest Content → Option RawUser → Api → Outcome ApiReply × Api
  post_user q none s = (returned unprocessable, s)
  post_user q (some raw) s = on_users s (create_user env.ops env.publish raw q.new_id q.now s.users)

  unfoldable pub post_submit :
      HttpRequest Content → Option JobRequest → Api → Outcome ApiReply × Api
  post_submit q none s = (returned unprocessable, s)
  post_submit q (some body) s = on_jobs s (post_job q.new_id body s.jobs)

  unfoldable pub call_endpoint :
      Endpoint → List String → HttpRequest Content → Api → Outcome ApiReply × Api
  unfolding post_user post_submit
  call_endpoint at_health args q s = (returned (body_reply (liveness (env.isoformat q.now))), s)
  call_endpoint at_rabbitmq args q s =
      (returned (body_reply (rabbitmq_health env.isoformat s.process)), s)
  call_endpoint at_create_user args q s = post_user q (env.as_user q.content) s
  call_endpoint at_list_users args q s = on_users s (list_users env.ops env.publish s.users)
  call_endpoint at_get_user args q s =
      on_users s (get_user env.ops env.publish (argument args) s.users)
  call_endpoint at_delete_user args q s =
      on_users s (delete_user env.ops env.publish (argument args) s.users)
  call_endpoint at_submit_job args q s = post_submit q (env.as_job q.content) s
  call_endpoint at_list_jobs args q s = on_jobs s (list_jobs s.jobs, s.jobs)
  call_endpoint at_get_job_status args q s =
      on_jobs s (get_job_status (argument args) s.jobs, s.jobs)
  call_endpoint at_gather args q s = on_demo s (demo_gather env.str_of (env.cancelled_after q.now))
  call_endpoint at_gather_exception args q s =
      on_demo s (demo_gather_exception env.text_of (env.cancelled_after q.now))
  call_endpoint at_create_task args q s = on_demo s (demo_create_task (env.cancelled_after q.now))
  call_endpoint at_to_thread args q s = on_demo s (demo_to_thread (env.cancelled_after q.now))
  call_endpoint at_sleep args q s = on_demo s (demo_sleep (env.cancelled_after q.now))

  abbrev call_found :
      Option (Route × List String) → HttpRequest Content → Api → Outcome ApiReply × Api
  call_found none q s = (returned not_routed, s)
  call_found (some (r, args)) q s = call_endpoint r.endpoint args q s

  -- A request to the application, up to the outcome of its route.
  unfoldable pub handle_http : HttpRequest Content → Api → Outcome ApiReply × Api
  unfolding app_routes call_endpoint
  handle_http q s = call_found (env.router.find_route app_routes q.method q.path) q s

  unfoldable pub serve_http : List (HttpRequest Content) → Api → Api
  serve_http [] s = s
  serve_http (q ∷ qs) s = serve_http qs (handle_http q s).1
