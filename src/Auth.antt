-- ===== src/Auth.antt =====
-- fastapi_app/auth/: access tokens and the dependency that reads them. The files use names that they
-- do not import; these stand for what they are elsewhere in the repository, or are arguments. What
-- PyJWT does is the argument `Jwt`. A time is a number of seconds.
pub mod Access
pub mod Rotation
mod Tests
use fastapi_project.Prelude.{
  ℕ, ◌+◌, String, ◌≡◌, Option, none, some, List, [], ◌∷◌, ltb, if◌then◌else◌,
}
use fastapi_project.Python.{Exn, http_exception, key_error, Outcome, returned, raised, ◌>>=◌}
use fastapi_project.Python.Int.{pos}
use fastapi_project.Dict
use fastapi_project.Dict.{Dict}
use fastapi_project.Json.{Json, str, int}

-- How `jwt.decode` ends: with the claims, by an ExpiredSignatureError, or by another
-- InvalidTokenError.
pub data Decoded : Type 0 where
  claims : Dict Json → Decoded
  expired invalid : Decoded

abbrev pub subject_claims : String → ℕ → Dict Json
subject_claims user_id exp = ("sub", str user_id) ∷ ("exp", int (pos exp)) ∷ []

-- A token that was made with the same secret, with these two claims, is accepted before its time.
pub record Jwt : Type 0 where
  pub encode : Dict Json → (secret : String) → String
  pub decode : (token secret : String) → (now : ℕ) → Decoded
  pub decode-encode :
      (user_id secret : String) (exp now : ℕ)
      → decode (encode (subject_claims user_id exp) secret) secret now
        ≡ (if ltb now exp then claims (subject_claims user_id exp) else expired)

module _ (jwt : Jwt) (secret : String) where
  -- `{**data, "exp": datetime.utcnow() + timedelta(minutes=30)}`
  unfoldable pub create_access_token : (now : ℕ) → Dict Json → String
  create_access_token now payload =
      jwt.encode (Dict.merge payload (("exp", int (pos (now + 1800))) ∷ [])) secret

  abbrev checked : Decoded → Outcome (Dict Json)
  checked (claims c) = returned c
  checked expired = raised (http_exception 401 "Token expired")
  checked invalid = raised (http_exception 401 "Invalid token")

  unfoldable pub decode_token : (now : ℕ) → String → Outcome (Dict Json)
  decode_token now token = checked (jwt.decode token secret now)

-- `payload["sub"]`
abbrev subject : Dict Json → Outcome Json
subject c = elim (Dict.get "sub" c) [ none ↦ raised key_error | some v ↦ returned v ]

abbrev pub found {ℓ} : {User : Type ℓ} → Option User → Outcome User
found none = raised (http_exception 401 "User not found")
found (some u) = returned u

-- `get_current_user`, with `db.get(User, …)`.
module _ {User : Type 0} (jwt : Jwt) (secret : String) (db_get : Json → Outcome (Option User)) where
  unfoldable pub get_current_user : (now : ℕ) → String → Outcome User
  unfolding decode_token
  get_current_user now token = do
    c ← decode_token jwt secret now token
    user_id ← subject c
    row ← db_get user_id
    found row
