-- ===== src/App/Api/Created.antt =====
-- fastapi_app/main.py and fastapi_app/routers/users.py: a user from POST /users/ to
-- GET /users/{user_id}, whatever other requests come between.
use native.Mathlib.Decide.{ℕ_discrete}
use fastapi_project.Prelude.{
  ℕ, String, ◌≡◌, ◌≢◌, inl, inr, refl, ◌∙◌, some, List, [], ◌∷◌, differ, eq_refl, All,
}
use fastapi_project.Python.{returned}
use fastapi_project.Dict
use fastapi_project.Users.{RawUser, UserCreate, User, valid, user_create, to_response}
use fastapi_project.Users.Routes.{reply, one, entry, get_user, get_current_user}
use fastapi_project.Users.Store.{create_user_stores}
use fastapi_project.Users.Deletion.{serve_keeps}
use fastapi_project.App.Routing.{
  http_get, http_post, literal, parameter, at_create_user, at_get_user, app_routes, match_path,
}
use fastapi_project.App.Routing.Unique.{found_route}
use fastapi_project.App.Api.{
  HttpRequest, Services, Api, users_reply, post_user, call_endpoint, handle_http, serve_http,
}
use fastapi_project.App.Api.Accounts.{
  serve_http-serve, IsOther, users_requests, users_requests-LeavesId,
}

module _ {Content : Type 0} (env : Services Content) where
  -- POST /users/
  abbrev pub post_users : Content → (new_id : String) → (now : ℕ) → HttpRequest Content
  post_users content new_id now = record {
    method = http_post;
    path = "users" ∷ "" ∷ [];
    content = content;
    new_id = new_id;
    now = now;
  }

  -- GET /users/{user_id}
  abbrev pub get_users :
      (user_id : String) → Content → (new_id : String) → (now : ℕ) → HttpRequest Content
  get_users user_id content new_id now = record {
    method = http_get;
    path = "users" ∷ user_id ∷ [];
    content = content;
    new_id = new_id;
    now = now;
  }

  handle_http-post_users :
      (content : Content) (new_id : String) (now : ℕ) (s : Api)
      → handle_http env (post_users content new_id now) s
        ≡ post_user env (post_users content new_id now) (env.as_user content) s
  unfolding handle_http call_endpoint app_routes match_path ℕ_discrete
  handle_http-post_users content new_id now s =
      let found =
        found_route env.router
          (record {
            method = http_post;
            path = literal "users" ∷ literal "" ∷ [];
            endpoint = at_create_user;
          })
          http_post ("users" ∷ "" ∷ []) [] (inr (inr (inl refl))) (refl, refl) in
      rw found refl

  handle_http-get_users :
      (user_id : String) (content : Content) (new_id : String) (now : ℕ) (s : Api)
      → user_id ≢ ""
      → handle_http env (get_users user_id content new_id now) s
        ≡ call_endpoint env at_get_user (user_id ∷ []) (get_users user_id content new_id now) s
  unfolding handle_http app_routes match_path ℕ_discrete
  handle_http-get_users user_id content new_id now s h =
      let found =
        found_route env.router
          (record {
            method = http_get;
            path = literal "users" ∷ parameter ∷ [];
            endpoint = at_get_user;
          })
          http_get ("users" ∷ user_id ∷ []) (user_id ∷ []) (inr (inr (inr (inr (inl refl)))))
          (refl, rw (differ user_id "" h) refl) in
      rw found refl

  post_users_stores :
      (content : Content) (raw : RawUser) (body : UserCreate) (new_id : String) (now : ℕ) (s : Api)
      → env.as_user content ≡ some raw
      → user_create env.ops raw ≡ valid body
      → Dict.get new_id (handle_http env (post_users content new_id now) s).1.users.fake_users_db
        ≡ some (entry body new_id now)
  unfolding post_user
  post_users_stores content raw body new_id now s typed accepted =
      rw (handle_http-post_users content new_id now s, typed, post_user)
        ((create_user_stores env.ops env.publish raw body new_id now s.users accepted).0 new_id
          ∙ rw (eq_refl new_id) refl)

  get_users_answers :
      (user_id : String) (user : User) (content : Content) (new_id : String) (now : ℕ) (s : Api)
      → user_id ≢ ""
      → Dict.get user_id s.users.fake_users_db ≡ some user
      → (handle_http env (get_users user_id content new_id now) s).0
        ≡ returned (users_reply (reply 200 (one (to_response user))))
  unfolding call_endpoint get_user get_current_user
  get_users_answers user_id user content new_id now s h stored =
      rw (handle_http-get_users user_id content new_id now s h, stored, get_user, get_current_user)
        refl

  -- An accepted POST /users/ with a role other than admin stores its user for good: however its
  -- publish ends, and whatever requests to all routes follow, GET /users/{user_id} answers 200 with
  -- this user, as long as the new identifiers differ and are not empty.
  pub created_stays :
      (content : Content) (raw : RawUser) (body : UserCreate) (user_id : String) (now : ℕ)
      (between : List (HttpRequest Content)) (other : Content) (other_id : String) (later : ℕ)
      (s : Api)
      → env.as_user content ≡ some raw
      → user_create env.ops raw ≡ valid body
      → body.role ≢ "admin"
      → user_id ≢ ""
      → All (IsOther env user_id) between
      → (handle_http env
          (get_users user_id other other_id later)
          (serve_http env between (handle_http env (post_users content user_id now) s).1)).0
        ≡ returned (users_reply (reply 200 (one (to_response (entry body user_id now)))))
  created_stays content raw body user_id now between other other_id later s typed accepted role
        some_id ids =
      let s' = (handle_http env (post_users content user_id now) s).1 in
      let stored = post_users_stores content raw body user_id now s typed accepted in
      let kept =
        serve_keeps env.ops env.publish user_id (entry body user_id now)
          (users_requests env between) s'.users (users_requests-LeavesId env user_id between ids)
          role stored in
      get_users_answers user_id (entry body user_id now) other other_id later
        (serve_http env between s') some_id (rw (serve_http-serve env between s') kept)
