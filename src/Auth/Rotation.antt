-- ===== src/Auth/Rotation.antt =====
-- fastapi_app/auth/refresh.py: `rotate_refresh_token`, as calls that run at the same time, each with a
-- session of its own. A call waits in `db.get` and in `db.commit`; what it changes reaches the
-- database with the commit. SQLAlchemy and the database enter by how these awaits end.
pub mod Revoked
pub mod Alone
use fastapi_project.Prelude.{
  ℕ, String, ◌+◌, Bool, true, false, Option, none, some, List, [], ◌∷◌, nat_eq, if◌then◌else◌,
}
use fastapi_project.Python.{http_exception, other_error, Outcome, returned, raised, Await, done}
use fastapi_project.Dict
use fastapi_project.Dict.{Dict}

-- The class is not in the repository: these are the attributes that the code uses, beside the token
-- itself, and a row that is added without `revoked` is not revoked.
pub record RefreshToken : Type 0 where
  pub user_id : String
  pub revoked : Bool

pub data Call : Type 0 where
  idle : Call
  committing : (old_token : String) → RefreshToken → Call
  over : Outcome String → Call

-- The committed rows, and the calls.
pub record Tokens : Type 0 where
  pub rows : Dict RefreshToken
  pub calls : ℕ → Call

abbrev pub set_call : ℕ → Call → Tokens → Tokens
set_call c stage s = record s { calls = λ d. if nat_eq c d then stage else s.calls d }

abbrev invalid_token : Outcome String
invalid_token = raised (http_exception 401 "Invalid refresh token")

-- The row is found, or there is none.
unfoldable pub checked_row : String → Option RefreshToken → Call
checked_row old_token none = over invalid_token
checked_row old_token (some row) =
    if row.revoked then over invalid_token else committing old_token row

-- `token_row = await db.get(RefreshToken, old_token)`
unfoldable pub read_row : (c : ℕ) → String → Await → Tokens → Tokens
unfolding checked_row
read_row c old_token (raised e) s = set_call c (over (raised e)) s
read_row c old_token (returned _) s =
    set_call c (checked_row old_token (Dict.get old_token s.rows)) s

abbrev revoke : RefreshToken → RefreshToken
revoke row = record row { revoked = true }

-- What the commit writes: the revoked row, and the new one.
unfoldable pub rotated :
    (old_token new_token : String) → RefreshToken → Dict RefreshToken → Dict RefreshToken
rotated old_token new_token row rows =
    Dict.set new_token (record { user_id = row.user_id; revoked = false })
      (Dict.set old_token (revoke row) rows)

-- `await db.commit()`: an error rolls both changes back, and so does a token that is there already.
unfoldable pub commit_rotation :
    (c : ℕ) → (old_token new_token : String) → RefreshToken → Await → Tokens → Tokens
unfolding rotated
commit_rotation c old_token new_token row (raised e) s = set_call c (over (raised e)) s
commit_rotation c old_token new_token row (returned _) s = elim (Dict.get new_token s.rows) [
  | some taken ↦ set_call c (over (raised (other_error "IntegrityError"))) s
  | none ↦
      set_call c (over (returned new_token))
        (record s { rows = rotated old_token new_token row s.rows })
]

-- A call reads its row, or commits.
pub data RotationStep : Type 0 where
  reads : (c : ℕ) → (old_token : String) → Await → RotationStep
  commits : (c : ℕ) → (new_token : String) → Await → RotationStep

-- There is no step for a call that is over, and no commit before the row is read.
unfoldable pub read_at : Call → (c : ℕ) → String → Await → Tokens → Tokens
read_at idle c old_token out s = read_row c old_token out s
read_at _ c old_token out s = s

unfoldable pub commit_at : Call → (c : ℕ) → String → Await → Tokens → Tokens
commit_at (committing old_token row) c new_token out s =
    commit_rotation c old_token new_token row out s
commit_at _ c new_token out s = s

unfoldable pub rotation_step : RotationStep → Tokens → Tokens
unfolding read_at commit_at
rotation_step (reads c old_token out) s = read_at (s.calls c) c old_token out s
rotation_step (commits c new_token out) s = commit_at (s.calls c) c new_token out s

unfoldable pub rotation_run : List RotationStep → Tokens → Tokens
rotation_run [] s = s
rotation_run (a ∷ rest) s = rotation_run rest (rotation_step a s)

-- A call that no other overlaps.
unfoldable pub rotate_refresh_token :
    (c : ℕ) → (old_token new_token : String) → (read commit : Await) → Tokens → Tokens
rotate_refresh_token c old_token new_token read commit s =
    rotation_run (reads c old_token read ∷ commits c new_token commit ∷ []) s
