-- ===== src/Users/Deletion.antt =====
-- fastapi_app/core/dependencies.py and fastapi_app/routers/users.py: which users DELETE removes.
use fastapi_project.Prelude.{
  String, ◌≡◌, ◌≢◌, ◌↔◌, inl, inr, refl, true, none, some, List, [], ◌∷◌, arith, All, ◌==◌, eq_iff,
  eq_refl, if◌then◌else◌,
}
use fastapi_project.Python.{returned, Await, ◌>>=◌}
use fastapi_project.Dict
use fastapi_project.Dict.{Dict, get-set, get-pop}
use fastapi_project.Json.{Json, str}
use fastapi_project.Users.{TextOps, User, user_create}
use fastapi_project.Users.Validation.{Validated-cases}
use fastapi_project.Users.Routes.{
  UsersState, deleted, reply, Request, create, list, get, delete, entry, get_current_user,
  require_admin, create_user, get_user, delete_user, list_users, handle, serve,
}

module _ (ops : TextOps) (publish : String → Dict Json → Await) where
  -- DELETE of an administrator removes that entry and no other, and publishes one event; if
  -- `publish` raises, the handler raises too and the entry stays removed.
  pub delete_user_removes :
      (user_id : String) (user : User) (s : UsersState)
      → Dict.get user_id s.fake_users_db ≡ some user
      → user.role ≡ "admin"
      → let (out, s') = delete_user ops publish user_id s in
        ((j : String)
          → Dict.get j s'.fake_users_db
            ≡ (if user_id == j then none else Dict.get j s.fake_users_db))
        × (s'.published ≡ ("user.deleted", ("id", str user_id) ∷ []) ∷ s.published)
        × (out ≡ (
            publish "user.deleted" (("id", str user_id) ∷ []) >>= λ _.
            returned (reply 200 (deleted user_id))))
  unfolding delete_user require_admin get_current_user
  delete_user_removes user_id user s h a =
      let admin : (user.role == "admin") ≡ true = (eq_iff _ _).1 a in
      rw (h, admin, delete_user, require_admin, get_current_user)
        (λ j. get-pop user_id j s.fake_users_db, refl, refl)

  -- DELETE asks for the role of the user to be deleted: an entry is removed exactly if it is an
  -- administrator's.
  pub delete_user_iff :
      (user_id : String) (user : User) (s : UsersState)
      → Dict.get user_id s.fake_users_db ≡ some user
      → (Dict.get user_id (delete_user ops publish user_id s).1.fake_users_db ≡ none)
        ↔ (user.role ≡ "admin")
  unfolding delete_user require_admin
  delete_user_iff user_id user s h =
      ground
        (arith, get-pop user_id user_id s.fake_users_db, eq_refl user_id, eq_iff user.role "admin")

  -- The request creates no user under this identifier.
  abbrev pub LeavesId : String → Request → Type 0
  LeavesId user_id (create raw new_id now) = new_id ≢ user_id
  LeavesId user_id _ = Unit {0}

  handle_keeps :
      (user_id : String) (user : User) (r : Request) (s : UsersState)
      → LeavesId user_id r
      → user.role ≢ "admin"
      → Dict.get user_id s.fake_users_db ≡ some user
      → Dict.get user_id (handle ops publish r s).1.fake_users_db ≡ some user
  unfolding handle create_user list_users get_user delete_user require_admin
  handle_keeps user_id user (create raw new_id now) s l n h =
      elim (Validated-cases (user_create ops raw)) [
        | inl (body, ok) ↦
            rw (ok, create_user)
              (ground (
                arith,
                get-set new_id user_id (entry body new_id now) s.fake_users_db,
                eq_iff new_id user_id,
              ))
        | inr (errors, bad) ↦ rw (bad, create_user) h
      ]
  handle_keeps user_id user list s l n h = h
  handle_keeps user_id user (get j) s l n h = h
  handle_keeps user_id user (delete j) s l n h =
      ground (arith, get-pop j user_id s.fake_users_db, eq_iff j user_id, eq_iff user.role "admin")

  -- A user who is no administrator cannot be deleted: whatever requests follow, the entry stays
  -- as it is, unless a new user is created under the same identifier.
  pub serve_keeps :
      (user_id : String) (user : User) (rs : List Request) (s : UsersState)
      → All (LeavesId user_id) rs
      → user.role ≢ "admin"
      → Dict.get user_id s.fake_users_db ≡ some user
      → Dict.get user_id (serve ops publish rs s).fake_users_db ≡ some user
  unfolding serve
  serve_keeps user_id user [] s l n h = h
  serve_keeps user_id user (r ∷ rs) s l n h =
      serve_keeps user_id user rs (handle ops publish r s).1 l.1 n
        (handle_keeps user_id user r s l.0 n h)
