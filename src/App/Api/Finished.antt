-- ===== src/App/Api/Finished.antt =====
-- fastapi_app/main.py, fastapi_app/routers/jobs.py and fastapi_app/core/jobs.py: a job from
-- POST /jobs/ to GET /jobs/{job_id}, whatever comes between.
use native.Mathlib.Decide.{ℕ_discrete}
use fastapi_project.Prelude.{
  ◌≤◌, sym, All, length, Option, ℕ, String, ◌≡◌, ◌≢◌, inl, inr, refl, ap, ◌∙◌, false, some, List,
  [], ◌∷◌, differ,
}
use fastapi_project.Store.{Send, broadcast_ws}
use fastapi_project.Store.Quiet.{IsQuiet, AreDistinct, survivors, broadcast_ws_quiet}
use fastapi_project.Python.{Await, returned, done}
use fastapi_project.Dict
use fastapi_project.Dict.{Dict}
use fastapi_project.Json.{Json}
use fastapi_project.Jobs.{Job, JobsState, new_job, Texts, Resume, async_result, started, completed}
use fastapi_project.Jobs.Routes.{one, to_response, get_job_status}
use fastapi_project.Jobs.Completion.{submit, resume, only, async_completes}
use fastapi_project.App.Routing.{
  http_get, literal, parameter, at_get_job_status, app_routes, match_path,
}
use fastapi_project.App.Routing.Unique.{found_route}
use fastapi_project.App.Api.{HttpRequest, Services, Api, jobs_reply, call_endpoint, handle_http}
use fastapi_project.App.Api.Work.{ApiStep, api_run, job_actions, api_run-run}

module _ {Content : Type 0} (env : Services Content) (t : Texts) where
  -- GET /jobs/{job_id}
  abbrev pub get_jobs :
      (job_id : String) → Content → (new_id : String) → (now : ℕ) → HttpRequest Content
  get_jobs job_id content new_id now = record {
    method = http_get;
    path = "jobs" ∷ job_id ∷ [];
    content = content;
    new_id = new_id;
    now = now;
  }

  handle_http-get_jobs :
      (job_id : String) (content : Content) (new_id : String) (now : ℕ) (s : Api)
      → job_id ≢ ""
      → handle_http env (get_jobs job_id content new_id now) s
        ≡ call_endpoint env at_get_job_status (job_id ∷ []) (get_jobs job_id content new_id now) s
  unfolding handle_http app_routes match_path ℕ_discrete
  handle_http-get_jobs job_id content new_id now s h =
      let found =
        found_route env.router
          (record {
            method = http_get;
            path = literal "jobs" ∷ parameter ∷ [];
            endpoint = at_get_job_status;
          })
          http_get ("jobs" ∷ job_id ∷ []) (job_id ∷ [])
          (inr (inr (inr (inr (inr (inr (inr (inr (inl refl)))))))))
          (refl, rw (differ job_id "" h) refl) in
      rw found refl

  get_jobs_answers :
      (job_id : String) (j : Job) (content : Content) (new_id : String) (now : ℕ) (s : Api)
      → job_id ≢ ""
      → Dict.get job_id s.jobs.job_status_store ≡ some j
      → (handle_http env (get_jobs job_id content new_id now) s).0
        ≡ returned (jobs_reply (one 200 (to_response j)))
  unfolding call_endpoint get_job_status
  get_jobs_answers job_id j content new_id now s h stored =
      rw (handle_http-get_jobs job_id content new_id now s h, stored, get_job_status) refl

  -- A job that is submitted by POST /jobs/ with sync=False, and whose task has then run its three
  -- segments, with an await in gather that returns, is answered by GET /jobs/{job_id} with 200 and
  -- the status done, its result and its times, whatever requests to all routes and segments of
  -- other jobs come between, if during its broadcast, which has the time to send to all of its
  -- distinct connections, nobody joins or leaves and a text fails only by an Exception, and if the
  -- identifier is not empty and no other submission takes it; a text that does not reach its client
  -- does not fail the job, but removes that client.
  pub finished_answers :
      (job_id : String) (payload : Dict Json) (r gathers sends : Resume)
      (work : List (ApiStep Content)) (texts : List Send) (conns left : List ℕ) (content : Content)
      (new_id : String) (now : ℕ) (s : Api)
      → only job_id (job_actions env t work)
        ≡ submit job_id payload false
          ∷ resume job_id r
          ∷ resume job_id gathers
          ∷ resume job_id sends
          ∷ []
      → gathers.outcome ≡ done
      → broadcast_ws texts conns ≡ some (sends.outcome, left)
      → All IsQuiet texts
      → length conns ≤ length texts
      → AreDistinct conns
      → job_id ≢ ""
      → ((handle_http env (get_jobs job_id content new_id now) (api_run env t work s)).0
          ≡ returned (
              jobs_reply (
                one 200 (record {
                  job_id = job_id;
                  status = "done";
                  result = async_result t payload;
                  started_at = some r.now;
                  finished_at = some gathers.now;
                }))))
        × (left ≡ survivors texts conns)
  unfolding to_response
  finished_answers job_id payload r gathers sends work texts conns left content new_id now s own
        gathered broadcast quiet enough distinct some_id =
      let both : ◌≡◌ {A = Option (Await × List ℕ)} (some (sends.outcome, left))
          (some (done, survivors texts conns)) =
        sym broadcast ∙ broadcast_ws_quiet texts conns quiet enough distinct in
      let sent : sends.outcome ≡ done = cc in
      let result =
        completed (async_result t payload) gathers.now (started r.now (new_job job_id)) in
      let stored =
        async_completes t job_id payload s.jobs (job_actions env t work) r gathers sends own
          gathered sent in
      (
        get_jobs_answers job_id result content new_id now (api_run env t work s) some_id (
            ap (λ (j : JobsState). Dict.get job_id j.job_status_store) (api_run-run env t work s)
            ∙ stored),
        cc,
      )
