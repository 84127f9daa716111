-- ===== src/App/Api/Accounts.antt =====
-- fastapi_app/main.py: the users' store under requests to all routes.
use fastapi_project.Prelude.{
  String, ◌≡◌, ◌≢◌, inl, inr, refl, ap, sym, ◌∙◌, Option, none, some, List, [], ◌∷◌, ◌++◌,
  Option-cases, All,
}
use fastapi_project.Users.{RawUser}
use fastapi_project.Users.Routes.{UsersState, Request, create, list, get, delete, handle, serve}
use fastapi_project.Users.Deletion.{LeavesId}
use fastapi_project.App.Routing.{
  Endpoint, at_health, at_rabbitmq, at_create_user, at_list_users, at_get_user, at_delete_user,
  at_submit_job, at_list_jobs, at_get_job_status, at_gather, at_gather_exception, at_create_task,
  at_to_thread, at_sleep, Route, app_routes,
}
use fastapi_project.App.Api.{
  HttpRequest, Services, Api, argument, post_user, post_submit, call_endpoint, handle_http,
  serve_http,
}

module _ {Content : Type 0} (env : Services Content) where
  -- The request to the users' router, if it is one.
  abbrev pub creations : HttpRequest Content → Option RawUser → List Request
  creations q none = []
  creations q (some raw) = create raw q.new_id q.now ∷ []

  abbrev pub requests_at : Endpoint → List String → HttpRequest Content → List Request
  requests_at at_create_user args q = creations q (env.as_user q.content)
  requests_at at_list_users args q = list ∷ []
  requests_at at_get_user args q = get (argument args) ∷ []
  requests_at at_delete_user args q = delete (argument args) ∷ []
  requests_at _ args q = []

  abbrev pub requests_found : Option (Route × List String) → HttpRequest Content → List Request
  requests_found none q = []
  requests_found (some (r, args)) q = requests_at r.endpoint args q

  abbrev pub users_requests : List (HttpRequest Content) → List Request
  users_requests [] = []
  users_requests (q ∷ qs) =
      requests_found (env.router.find_route app_routes q.method q.path) q ++ users_requests qs

  post_user-serve :
      (q : HttpRequest Content) (raw : Option RawUser) (s : Api)
      → (post_user env q raw s).1.users ≡ serve env.ops env.publish (creations q raw) s.users
  unfolding post_user serve handle
  post_user-serve q none s = refl
  post_user-serve q (some raw) s = refl

  post_submit_users :
      (q : HttpRequest Content) (s : Api)
      → (post_submit env q (env.as_job q.content) s).1.users ≡ s.users
  unfolding post_submit
  post_submit_users q s = elim (Option-cases (env.as_job q.content)) [
    | inl bad ↦ rw (bad, post_submit) refl
    | inr (body, ok) ↦ rw (ok, post_submit) refl
  ]

  call_endpoint-serve :
      (e : Endpoint) (args : List String) (q : HttpRequest Content) (s : Api)
      → (call_endpoint env e args q s).1.users
        ≡ serve env.ops env.publish (requests_at e args q) s.users
  unfolding call_endpoint serve handle
  call_endpoint-serve at_create_user args q s = post_user-serve q (env.as_user q.content) s
  call_endpoint-serve at_submit_job args q s = post_submit_users q s
  call_endpoint-serve at_health args q s = refl
  call_endpoint-serve at_rabbitmq args q s = refl
  call_endpoint-serve at_list_users args q s = refl
  call_endpoint-serve at_get_user args q s = refl
  call_endpoint-serve at_delete_user args q s = refl
  call_endpoint-serve at_list_jobs args q s = refl
  call_endpoint-serve at_get_job_status args q s = refl
  call_endpoint-serve at_gather args q s = refl
  call_endpoint-serve at_gather_exception args q s = refl
  call_endpoint-serve at_create_task args q s = refl
  call_endpoint-serve at_to_thread args q s = refl
  call_endpoint-serve at_sleep args q s = refl

  handle_http-serve :
      (q : HttpRequest Content) (s : Api)
      → (handle_http env q s).1.users
        ≡ serve env.ops env.publish
            (requests_found (env.router.find_route app_routes q.method q.path) q)
            s.users
  unfolding handle_http serve
  handle_http-serve q s = elim (Option-cases (env.router.find_route app_routes q.method q.path)) [
    | inl missed ↦ rw missed refl
    | inr ((r, args), found) ↦ rw found (call_endpoint-serve r.endpoint args q s)
  ]

  serve-append :
      (rs later : List Request) (u : UsersState)
      → serve env.ops env.publish (rs ++ later) u
        ≡ serve env.ops env.publish later (serve env.ops env.publish rs u)
  unfolding serve
  serve-append [] later u = refl
  serve-append (r ∷ rs) later u = serve-append rs later (handle env.ops env.publish r u).1

  -- The application's users' store under requests to all routes is what the users' routes make of
  -- the requests to them, in their order.
  pub serve_http-serve :
      (qs : List (HttpRequest Content)) (s : Api)
      → (serve_http env qs s).users ≡ serve env.ops env.publish (users_requests qs) s.users
  unfolding serve_http serve
  serve_http-serve [] s = refl
  serve_http-serve (q ∷ qs) s =
      serve_http-serve qs (handle_http env q s).1
      ∙ ap (λ u. serve env.ops env.publish (users_requests qs) u) (handle_http-serve q s)
      ∙ sym (
          serve-append (requests_found (env.router.find_route app_routes q.method q.path) q)
            (users_requests qs) s.users)

  -- No request takes this identifier for a new entry.
  abbrev pub IsOther : String → HttpRequest Content → Type 0
  IsOther user_id q = q.new_id ≢ user_id

  append-All :
      (P : Request → Type 0) (rs later : List Request)
      → All P rs
      → All P later
      → All P (rs ++ later)
  append-All P [] later h k = k
  append-All P (r ∷ rs) later h k = (h.0, append-All P rs later h.1 k)

  requests_at-LeavesId :
      (user_id : String) (e : Endpoint) (args : List String) (q : HttpRequest Content)
      → IsOther user_id q
      → All (LeavesId env.ops env.publish user_id) (requests_at e args q)
  requests_at-LeavesId user_id at_create_user args q h =
      elim (Option-cases (env.as_user q.content)) [
        | inl bad ↦ rw bad tt
        | inr (raw, ok) ↦ rw ok (h, tt)
      ]
  requests_at-LeavesId user_id at_list_users args q h = (tt, tt)
  requests_at-LeavesId user_id at_get_user args q h = (tt, tt)
  requests_at-LeavesId user_id at_delete_user args q h = (tt, tt)
  requests_at-LeavesId user_id at_health args q h = tt
  requests_at-LeavesId user_id at_rabbitmq args q h = tt
  requests_at-LeavesId user_id at_submit_job args q h = tt
  requests_at-LeavesId user_id at_list_jobs args q h = tt
  requests_at-LeavesId user_id at_get_job_status args q h = tt
  requests_at-LeavesId user_id at_gather args q h = tt
  requests_at-LeavesId user_id at_gather_exception args q h = tt
  requests_at-LeavesId user_id at_create_task args q h = tt
  requests_at-LeavesId user_id at_to_thread args q h = tt
  requests_at-LeavesId user_id at_sleep args q h = tt

  pub users_requests-LeavesId :
      (user_id : String) (qs : List (HttpRequest Content))
      → All (IsOther user_id) qs
      → All (LeavesId env.ops env.publish user_id) (users_requests qs)
  users_requests-LeavesId user_id [] h = tt
  users_requests-LeavesId user_id (q ∷ qs) h =
      append-All (LeavesId env.ops env.publish user_id)
        (requests_found (env.router.find_route app_routes q.method q.path) q) (users_requests qs)
        (elim (Option-cases (env.router.find_route app_routes q.method q.path)) [
          | inl missed ↦ rw missed tt
          | inr ((r, args), found) ↦ rw found (requests_at-LeavesId user_id r.endpoint args q h.0)
        ])
        (users_requests-LeavesId user_id qs h.1)
