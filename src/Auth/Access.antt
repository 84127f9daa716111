-- ===== src/Auth/Access.antt =====
-- fastapi_app/auth/jwt.py and fastapi_app/auth/dependencies.py: whom a token authenticates, and until
-- when.
use fastapi_project.Prelude.{
  ℕ, ◌+◌, String, ◌≡◌, refl, Option, [], ◌∷◌, ltb, if◌then◌else◌, Bool-cases, inl, inr,
}
use fastapi_project.Python.{http_exception, Outcome, raised, ◌>>=◌}
use fastapi_project.Dict
use fastapi_project.Json.{Json, str}
use fastapi_project.Auth.{Jwt, create_access_token, get_current_user, found}

-- A token that was created for a subject authenticates the user with this identifier for thirty
-- minutes, if there is one, and is refused as expired from then on; a user that is not there is
-- refused too.
pub get_current_user-create_access_token :
    {User : Type 0} (jwt : Jwt) (secret : String) (db_get : Json → Outcome (Option User))
    (user_id : String) (created now : ℕ)
    → get_current_user jwt secret db_get now
        (create_access_token jwt secret created (("sub", str user_id) ∷ []))
      ≡ (if ltb now (created + 1800)
          then (db_get (str user_id) >>= found)
          else raised (http_exception 401 "Token expired"))
unfolding get_current_user create_access_token Dict.merge Dict.set Dict.get
get_current_user-create_access_token jwt secret db_get user_id created now =
    elim (Bool-cases (ltb now (created + 1800))) [
      | inl valid ↦ rw (jwt.decode-encode user_id secret (created + 1800) now) (rw valid refl)
      | inr late ↦ rw (jwt.decode-encode user_id secret (created + 1800) now) (rw late refl)
    ]
