-- ===== src/App/Api/Work.antt =====
-- fastapi_app/main.py, fastapi_app/routers/jobs.py and fastapi_app/core/jobs.py: requests to all
-- routes and the segments of the jobs, in any order.
use fastapi_project.Prelude.{
  String, ◌≡◌, inl, inr, refl, ap, sym, ◌∙◌, Option, none, some, List, [], ◌∷◌, ◌++◌, Option-cases,
}
use fastapi_project.Jobs.{JobsState, Texts, Resume, advance}
use fastapi_project.Jobs.Routes.{JobRequest, post_job}
use fastapi_project.Jobs.Completion.{Action, submit, resume, act, run}
use fastapi_project.App.Routing.{
  Endpoint, at_health, at_rabbitmq, at_create_user, at_list_users, at_get_user, at_delete_user,
  at_submit_job, at_list_jobs, at_get_job_status, at_gather, at_gather_exception, at_create_task,
  at_to_thread, at_sleep, Route, app_routes,
}
use fastapi_project.App.Api.{
  HttpRequest, Services, Api, post_user, post_submit, call_endpoint, handle_http,
}

pub data ApiStep (Content : Type 0) : Type 0 where
  asks : HttpRequest Content → ApiStep Content
  works : (job_id : String) → Resume → ApiStep Content

module _ {Content : Type 0} (env : Services Content) (t : Texts) where
  unfoldable pub api_step : ApiStep Content → Api → Api
  api_step (asks q) s = (handle_http env q s).1
  api_step (works job_id r) s = record s { jobs = advance t job_id r s.jobs }

  unfoldable pub api_run : List (ApiStep Content) → Api → Api
  unfolding api_step
  api_run [] s = s
  api_run (a ∷ rest) s = api_run rest (api_step a s)

  -- What a request does to the jobs.
  abbrev pub submissions : HttpRequest Content → Option JobRequest → List Action
  submissions q none = []
  submissions q (some body) = submit q.new_id body.payload body.sync ∷ []

  abbrev pub actions_at : Endpoint → HttpRequest Content → List Action
  actions_at at_submit_job q = submissions q (env.as_job q.content)
  actions_at _ q = []

  abbrev pub actions_found : Option (Route × List String) → HttpRequest Content → List Action
  actions_found none q = []
  actions_found (some (r, args)) q = actions_at r.endpoint q

  abbrev pub job_actions : List (ApiStep Content) → List Action
  job_actions [] = []
  job_actions (asks q ∷ rest) =
      actions_found (env.router.find_route app_routes q.method q.path) q ++ job_actions rest
  job_actions (works job_id r ∷ rest) = resume job_id r ∷ job_actions rest

  post_submit-run :
      (q : HttpRequest Content) (body : Option JobRequest) (s : Api)
      → (post_submit env q body s).1.jobs ≡ run t (submissions q body) s.jobs
  unfolding post_submit post_job run act
  post_submit-run q none s = refl
  post_submit-run q (some body) s = refl

  post_user_jobs :
      (q : HttpRequest Content) (s : Api)
      → (post_user env q (env.as_user q.content) s).1.jobs ≡ s.jobs
  unfolding post_user
  post_user_jobs q s = elim (Option-cases (env.as_user q.content)) [
    | inl bad ↦ rw (bad, post_user) refl
    | inr (raw, ok) ↦ rw (ok, post_user) refl
  ]

  call_endpoint-run :
      (e : Endpoint) (args : List String) (q : HttpRequest Content) (s : Api)
      → (call_endpoint env e args q s).1.jobs ≡ run t (actions_at e q) s.jobs
  unfolding call_endpoint run
  call_endpoint-run at_submit_job args q s = post_submit-run q (env.as_job q.content) s
  call_endpoint-run at_create_user args q s = post_user_jobs q s
  call_endpoint-run at_health args q s = refl
  call_endpoint-run at_rabbitmq args q s = refl
  call_endpoint-run at_list_users args q s = refl
  call_endpoint-run at_get_user args q s = refl
  call_endpoint-run at_delete_user args q s = refl
  call_endpoint-run at_list_jobs args q s = refl
  call_endpoint-run at_get_job_status args q s = refl
  call_endpoint-run at_gather args q s = refl
  call_endpoint-run at_gather_exception args q s = refl
  call_endpoint-run at_create_task args q s = refl
  call_endpoint-run at_to_thread args q s = refl
  call_endpoint-run at_sleep args q s = refl

  handle_http-run :
      (q : HttpRequest Content) (s : Api)
      → (handle_http env q s).1.jobs
        ≡ run t (actions_found (env.router.find_route app_routes q.method q.path) q) s.jobs
  unfolding handle_http run
  handle_http-run q s = elim (Option-cases (env.router.find_route app_routes q.method q.path)) [
    | inl missed ↦ rw missed refl
    | inr ((r, args), found) ↦ rw found (call_endpoint-run r.endpoint args q s)
  ]

  run-append :
      (actions later : List Action) (j : JobsState)
      → run t (actions ++ later) j ≡ run t later (run t actions j)
  unfolding run
  run-append [] later j = refl
  run-append (a ∷ actions) later j = run-append actions later (act t a j)

  -- The application's jobs under requests to all routes and under segments of jobs are what the
  -- submissions among them and the segments make of them, in their order.
  pub api_run-run :
      (steps : List (ApiStep Content)) (s : Api)
      → (api_run steps s).jobs ≡ run t (job_actions steps) s.jobs
  unfolding api_run api_step run act
  api_run-run [] s = refl
  api_run-run (asks q ∷ rest) s =
      api_run-run rest (handle_http env q s).1
      ∙ ap (λ j. run t (job_actions rest) j) (handle_http-run q s)
      ∙ sym (
          run-append (actions_found (env.router.find_route app_routes q.method q.path) q)
            (job_actions rest) s.jobs)
  api_run-run (works job_id r ∷ rest) s = api_run-run rest (api_step (works job_id r) s)
