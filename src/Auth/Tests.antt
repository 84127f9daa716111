-- ===== src/Auth/Tests.antt =====
-- A way to encode claims, and the theorems at concrete inputs.
use Prim.Native.String.{String}
use Prim.Native.Char.{code}
use mathlib.Core.Bool.{false≢true}
use fastapi_project.Prelude.{
  ℕ, suc, zero, ◌+◌, ◌≡◌, ◌≢◌, refl, ◌==◌, eq_iff, false, Option, none, some, [], ◌∷◌, ltb, nat_eq,
  if◌then◌else◌, arith,
}
use fastapi_project.Python.{http_exception, Outcome, returned, raised, done}
use fastapi_project.Python.Int.{pos}
use fastapi_project.Dict
use fastapi_project.Dict.{Dict}
use fastapi_project.Json.{Json, str, int}
use fastapi_project.Auth.{
  Decoded, claims, expired, invalid, subject_claims, Jwt, create_access_token, get_current_user,
}
use fastapi_project.Auth.Access.{get_current_user-create_access_token}
use fastapi_project.Auth.Rotation.{
  RefreshToken, idle, committing, over, Tokens, checked_row, read_row, rotated, commit_rotation,
  reads, commits, read_at, commit_at, rotation_step, rotation_run, rotate_refresh_token,
}
use fastapi_project.Auth.Rotation.Revoked.{exchanged_refused}
use fastapi_project.Auth.Rotation.Alone.{live, live-rotate_refresh_token}

-- As many letters as seconds, and the subject behind a point.
abbrev letters : ℕ → String → String
letters zero user_id = String.◌∷◌ "." user_id
letters (suc n) user_id = String.◌∷◌ "x" (letters n user_id)

abbrev encode : Dict Json → String → String
encode ((_, str user_id) ∷ (_, int (pos exp)) ∷ []) secret = letters exp user_id
encode _ secret = String.[]

abbrev decode_from : ℕ → String → ℕ → Decoded
decode_from n String.[] now = invalid
decode_from n (String.◌∷◌ c rest) now =
    let longer = decode_from (suc n) rest now in
    if nat_eq (code c) b'x'
    then longer
    else (if ltb now n then claims (subject_claims rest n) else expired)

decode_from-letters :
    (user_id : String) (n k exp now : ℕ)
    → n + k ≡ exp
    → decode_from n (letters k user_id) now
      ≡ (if ltb now exp then claims (subject_claims user_id exp) else expired)
decode_from-letters user_id n zero exp now h = let e : n ≡ exp = omega arith in rw e refl
decode_from-letters user_id n (suc k) exp now h =
    decode_from-letters user_id (suc n) k exp now (omega arith)

abbrev unary : Jwt
unary = record {
  encode = encode;
  decode = λ token secret now. decode_from 0 token now;
  decode-encode = λ user_id secret exp now. decode_from-letters user_id 0 exp exp now (omega arith);
}

-- One user.
abbrev users : Json → Outcome (Option String)
users (str user_id) = returned (if user_id == "7" then some "Ann" else none)
users _ = returned none

get_current_user-create_access_token_example :
    get_current_user unary "secret" users 200
      (create_access_token unary "secret" 100 (("sub", str "7") ∷ []))
    ≡ returned "Ann"
get_current_user-create_access_token_example =
    get_current_user-create_access_token unary "secret" users "7" 100 200

b-ne-a : ◌≢◌ {A = String} "b" "a"
b-ne-a h = false≢true ((eq_iff "b" "a").1 h)

abbrev ann : RefreshToken
ann = record { user_id = "7"; revoked = false }

abbrev one_token : Tokens
one_token = record { rows = ("a", ann) ∷ []; calls = λ c. idle }

-- The first call has read the row.
abbrev row_read : Tokens
row_read = record {
  rows = ("a", ann) ∷ [];
  calls = λ c. if nat_eq 0 c then committing "a" ann else idle;
}

exchanged_refused_example :
    ((rotation_step (commits 0 "b" done) row_read).calls 0 ≡ over (returned "b"))
    × ((rotation_step (reads 2 "a" done) (
            rotation_run
              (reads 1 "b" done ∷ commits 1 "c" done ∷ [])
              (rotation_step (commits 0 "b" done) row_read))).calls
          2
        ≡ over (raised (http_exception 401 "Invalid refresh token")))
unfolding rotation_run rotation_step commit_at commit_rotation read_at read_row checked_row rotated
    Dict.get Dict.set
exchanged_refused_example =
    exchanged_refused 0 2 "a" "b" ann row_read (reads 1 "b" done ∷ commits 1 "c" done ∷ []) refl
      b-ne-a refl refl

live-rotate_refresh_token_example :
    live (rotate_refresh_token 0 "a" "b" done done one_token).rows ≡ 1
live-rotate_refresh_token_example = live-rotate_refresh_token 0 "a" "b" done done one_token refl

-- Of two calls that overlap both are accepted: one token gives two.
overlapping_twice :
    live
      (rotation_run
        (reads 0 "a" done ∷ reads 1 "a" done ∷ commits 0 "b" done ∷ commits 1 "c" done ∷ [])
        one_token).rows
    ≡ 2
unfolding rotation_run rotation_step commit_at commit_rotation read_at read_row checked_row rotated
    Dict.get Dict.set
overlapping_twice = refl
