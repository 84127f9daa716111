-- ===== src/App/Api/Errors.antt =====
-- fastapi_app/routers/: the exceptions by which a route can end.
use fastapi_project.Prelude.{
  ℕ, String, ◌≡◌, inl, inr, refl, sym, ◌∙◌, Bool-cases, Option, none, some, List, ◌==◌, eq_iff,
  Option-cases,
}
use fastapi_project.Python.{Exn, http_exception, returned, raised, ◌>>=◌}
use fastapi_project.Python.Asyncio.{gather}
use fastapi_project.Dict
use fastapi_project.Dict.{Dict, get-set_self}
use fastapi_project.Json.{Json}
use fastapi_project.Users
use fastapi_project.Jobs
use fastapi_project.Users.{RawUser, UserCreate, User, valid, invalid, user_create}
use fastapi_project.Users.Validation.{Validated-cases}
use fastapi_project.Users.Routes.{
  UsersState, Reply, validation_errors, reply, one, create_user, list_users, get_user, delete_user,
  get_current_user, require_admin,
}
use fastapi_project.Users.Store.{create_user_stores}
use fastapi_project.Users.Deletion.{delete_user_removes}
use fastapi_project.Jobs.{JobsState}
use fastapi_project.Jobs.Routes.{
  JobRequest, post_job, list_jobs, get_job_status, get_job_status-post_job,
}
use fastapi_project.App.Routing.{
  Endpoint, at_health, at_rabbitmq, at_create_user, at_list_users, at_get_user, at_delete_user,
  at_submit_job, at_list_jobs, at_get_job_status, at_gather, at_gather_exception, at_create_task,
  at_to_thread, at_sleep, app_routes,
}
use fastapi_project.App.Api.{
  HttpRequest, Services, Api, unprocessable, not_routed, users_reply, jobs_reply, argument,
  post_user, post_submit, call_endpoint, handle_http,
}
use fastapi_project.AsyncDemo.{
  demo_gather, demo_gather_exception, demo_create_task, demo_to_thread, demo_sleep,
}
use fastapi_project.App.Api.Expected.{
  no_exception, same_exception, IsExpected, replied, demo_raises,
}

module _ {Content : Type 0} (env : Services Content) where
  published :
      (event : String) (body : Dict Json) (r : Reply) (e : Exn)
      → (env.publish event body >>= λ _. returned r) ≡ raised e
      → IsExpected env e
  published event body r e h =
      replied env (env.publish event body) (λ _. r) (λ x k. inr (inr (inr (inr (event, body, k)))))
        e h

  create_user_raises :
      (raw : RawUser) (new_id : String) (now : ℕ) (s : UsersState) (e : Exn)
      → (create_user env.ops env.publish raw new_id now s).0 ≡ raised e
      → IsExpected env e
  unfolding create_user
  create_user_raises raw new_id now s e h = elim (Validated-cases (user_create env.ops raw)) [
    | inl (body, ok) ↦
        let (_, _, out) = create_user_stores env.ops env.publish raw body new_id now s ok in
        published _ _ _ e (sym out ∙ h)
    | inr (errors, bad) ↦
        let out : (create_user env.ops env.publish raw new_id now s).0
            ≡ returned (validation_errors errors) =
          rw (bad, create_user) refl in
        absurd (no_exception _ e out h)
  ]

  get_user_raises :
      (user_id : String) (s : UsersState) (e : Exn)
      → (get_user env.ops env.publish user_id s).0 ≡ raised e
      → IsExpected env e
  unfolding get_user get_current_user
  get_user_raises user_id s e h = elim (Option-cases (Dict.get user_id s.fake_users_db)) [
    | inl gone ↦ inl (
        same_exception (http_exception 404 "User not found") e
          (rw (gone, get_user, get_current_user) refl) h)
    | inr (user, found) ↦
        let out : (get_user env.ops env.publish user_id s).0
            ≡ returned (reply 200 (one (Users.to_response user))) =
          rw (found, get_user, get_current_user) refl in
        absurd (no_exception _ e out h)
  ]

  delete_user_raises :
      (user_id : String) (s : UsersState) (e : Exn)
      → (delete_user env.ops env.publish user_id s).0 ≡ raised e
      → IsExpected env e
  unfolding delete_user require_admin get_current_user
  delete_user_raises user_id s e h = elim (Option-cases (Dict.get user_id s.fake_users_db)) [
    | inl gone ↦ inl (
        same_exception (http_exception 404 "User not found") e
          (rw (gone, delete_user, require_admin, get_current_user) refl) h)
    | inr (user, found) ↦ elim (Bool-cases (user.role == "admin")) [
      | inl admin ↦
          let (_, _, out) =
            delete_user_removes env.ops env.publish user_id user s found
              ((eq_iff user.role "admin").0 admin) in
          published _ _ _ e (sym out ∙ h)
      | inr other ↦ inr (
          inl (
            same_exception (http_exception 403 "Admin only") e
              (rw (found, delete_user, require_admin, get_current_user) (rw other refl)) h))
    ]
  ]

  get_job_status_raises :
      (job_id : String) (s : JobsState) (e : Exn)
      → get_job_status job_id s ≡ raised e
      → IsExpected env e
  unfolding get_job_status
  get_job_status_raises job_id s e h = elim (Option-cases (Dict.get job_id s.job_status_store)) [
    | inl gone ↦ inr (
        inr (
          inl (
            same_exception (http_exception 404 "Job not found") e (rw (gone, get_job_status) refl)
              h)))
    | inr (j, found) ↦
        let out : get_job_status job_id s
            ≡ returned (Jobs.Routes.one 200 (Jobs.Routes.to_response j)) =
          rw (found, get_job_status) refl in
        absurd (no_exception _ e out h)
  ]

  post_user_raises :
      (q : HttpRequest Content) (raw : Option RawUser) (s : Api) (e : Exn)
      → (post_user env q raw s).0 ≡ raised e
      → IsExpected env e
  unfolding post_user
  post_user_raises q none s e h = absurd (no_exception unprocessable e refl h)
  post_user_raises q (some raw) s e h =
      replied env _ users_reply (create_user_raises raw q.new_id q.now s.users) e h

  post_submit_raises :
      (q : HttpRequest Content) (body : Option JobRequest) (s : Api) (e : Exn)
      → (post_submit env q body s).0 ≡ raised e
      → IsExpected env e
  unfolding post_submit
  post_submit_raises q none s e h = absurd (no_exception unprocessable e refl h)
  post_submit_raises q (some body) s e h =
      let accepted = (get_job_status-post_job q.new_id body s.jobs).0 in
      replied env _ jobs_reply (λ x k. absurd (no_exception _ x accepted k)) e h

  call_endpoint_raises :
      (r : Endpoint) (args : List String) (q : HttpRequest Content) (s : Api) (e : Exn)
      → (call_endpoint env r args q s).0 ≡ raised e
      → IsExpected env e
  unfolding call_endpoint demo_gather gather list_users list_jobs demo_gather_exception
      demo_create_task demo_to_thread demo_sleep
  call_endpoint_raises at_create_user args q s e h =
      post_user_raises q (env.as_user q.content) s e h
  call_endpoint_raises at_submit_job args q s e h =
      post_submit_raises q (env.as_job q.content) s e h
  call_endpoint_raises at_get_user args q s e h =
      replied env _ users_reply (get_user_raises (argument args) s.users) e h
  call_endpoint_raises at_delete_user args q s e h =
      replied env _ users_reply (delete_user_raises (argument args) s.users) e h
  call_endpoint_raises at_get_job_status args q s e h =
      replied env _ jobs_reply (get_job_status_raises (argument args) s.jobs) e h
  call_endpoint_raises at_gather args q s e h =
      demo_raises env (env.cancelled_after q.now) _ _ s e h
  call_endpoint_raises at_health args q s e h = absurd (no_exception _ e refl h)
  call_endpoint_raises at_rabbitmq args q s e h = absurd (no_exception _ e refl h)
  call_endpoint_raises at_list_users args q s e h = absurd (no_exception _ e refl h)
  call_endpoint_raises at_list_jobs args q s e h = absurd (no_exception _ e refl h)
  call_endpoint_raises at_gather_exception args q s e h =
      demo_raises env (env.cancelled_after q.now) _ _ s e h
  call_endpoint_raises at_create_task args q s e h =
      demo_raises env (env.cancelled_after q.now) _ _ s e h
  call_endpoint_raises at_to_thread args q s e h =
      demo_raises env (env.cancelled_after q.now) _ _ s e h
  call_endpoint_raises at_sleep args q s e h = demo_raises env (env.cancelled_after q.now) _ _ s e h

  -- A request to any route ends by a reply, by one of three HTTPExceptions, by the CancelledError
  -- of a request that is cancelled while it sleeps, or by what a call of publish has raised: no
  -- other exception reaches the handlers.
  pub handle_http_raises :
      (q : HttpRequest Content) (s : Api) (e : Exn)
      → (handle_http env q s).0 ≡ raised e
      → IsExpected env e
  unfolding handle_http
  handle_http_raises q s e h =
      elim (Option-cases (env.router.find_route app_routes q.method q.path)) [
        | inl missed ↦ absurd (no_exception not_routed e (rw missed refl) h)
        | inr ((r, args), found) ↦
            let same : (handle_http env q s).0 ≡ (call_endpoint env r.endpoint args q s).0 =
              rw found refl in
            call_endpoint_raises r.endpoint args q s e (sym same ∙ h)
      ]
