-- ===== src/Auth/Rotation/Revoked.antt =====
-- fastapi_app/auth/refresh.py: a token that was exchanged is never accepted again by a later call.
use fastapi_project.Prelude.{
  ℕ, String, ◌≡◌, ◌≢◌, refl, true, false, none, some, List, [], ◌∷◌, ◌==◌, differ, eq_iff, eq_refl,
  nat_eq, Option-cases, Bool-cases, inl, inr, arith,
}
use fastapi_project.Python.{http_exception, returned, raised, Await, done}
use fastapi_project.Dict
use fastapi_project.Dict.{Dict, get-set}
use fastapi_project.Auth.Rotation.{
  RefreshToken, Call, idle, committing, over, Tokens, set_call, checked_row, read_row, rotated,
  commit_rotation, RotationStep, reads, commits, read_at, commit_at, rotation_step, rotation_run,
}

-- The row is there, and revoked.
abbrev pub IsRevoked : String → Tokens → Type 0
IsRevoked t s = (row : RefreshToken) × (Dict.get t s.rows ≡ some row) × (row.revoked ≡ true)

pub itself : (c : ℕ) → nat_eq c c ≡ true
itself c = ground arith

rotated-IsRevoked :
    (t old_token new_token : String) (row : RefreshToken) (s : Tokens)
    → Dict.get new_token s.rows ≡ none
    → IsRevoked t s
    → IsRevoked t (record s { rows = rotated old_token new_token row s.rows })
unfolding rotated
rotated-IsRevoked t old_token new_token row s new (r, there, revoked) =
    elim (Bool-cases (new_token == t)) [
      | inl same ↦ absurd (cc ((eq_iff new_token t).0 same))
      | inr other ↦ elim (Bool-cases (old_token == t)) [
        | inl again ↦ (record row { revoked = true }, simp get-set (rw (other, again) refl), refl)
        | inr apart ↦ (r, simp get-set (rw (other, apart) there), revoked)
      ]
    ]

set_call-IsRevoked :
    (t : String) (c : ℕ) (stage : Call) (s : Tokens)
    → IsRevoked t s
    → IsRevoked t (set_call c stage s)
set_call-IsRevoked t c stage s h = h

read_at-IsRevoked :
    (t : String) (call : Call) (c : ℕ) (old_token : String) (out : Await) (s : Tokens)
    → IsRevoked t s
    → IsRevoked t (read_at call c old_token out s)
unfolding read_at read_row
read_at-IsRevoked t idle c old_token (returned _) s h = h
read_at-IsRevoked t idle c old_token (raised e) s h = h
read_at-IsRevoked t (committing old row) c old_token out s h = h
read_at-IsRevoked t (over o) c old_token out s h = h

commit_rotation-IsRevoked :
    (t : String) (c : ℕ) (old_token new_token : String) (row : RefreshToken) (out : Await)
    (s : Tokens)
    → IsRevoked t s
    → IsRevoked t (commit_rotation c old_token new_token row out s)
unfolding commit_rotation
commit_rotation-IsRevoked t c old_token new_token row (raised e) s h = h
commit_rotation-IsRevoked t c old_token new_token row (returned _) s h =
    elim (Option-cases (Dict.get new_token s.rows)) [
      | inl new ↦ rw (new, commit_rotation) (rotated-IsRevoked t old_token new_token row s new h)
      | inr (taken, found) ↦ rw (found, commit_rotation) h
    ]

commit_at-IsRevoked :
    (t : String) (call : Call) (c : ℕ) (new_token : String) (out : Await) (s : Tokens)
    → IsRevoked t s
    → IsRevoked t (commit_at call c new_token out s)
unfolding commit_at
commit_at-IsRevoked t idle c new_token out s h = h
commit_at-IsRevoked t (committing old_token row) c new_token out s h =
    commit_rotation-IsRevoked t c old_token new_token row out s h
commit_at-IsRevoked t (over o) c new_token out s h = h

rotation_run-IsRevoked :
    (t : String) (actions : List RotationStep) (s : Tokens)
    → IsRevoked t s
    → IsRevoked t (rotation_run actions s)
unfolding rotation_run rotation_step
rotation_run-IsRevoked t [] s h = h
rotation_run-IsRevoked t (reads c old_token out ∷ rest) s h =
    rotation_run-IsRevoked t rest (read_at (s.calls c) c old_token out s)
      (read_at-IsRevoked t (s.calls c) c old_token out s h)
rotation_run-IsRevoked t (commits c new_token out ∷ rest) s h =
    rotation_run-IsRevoked t rest (commit_at (s.calls c) c new_token out s)
      (commit_at-IsRevoked t (s.calls c) c new_token out s h)

-- The commit of an exchange: its result, and the old token is revoked.
accepted-IsRevoked :
    (c : ℕ) (old_token new_token : String) (row : RefreshToken) (s : Tokens)
    → s.calls c ≡ committing old_token row
    → new_token ≢ old_token
    → Dict.get new_token s.rows ≡ none
    → ((rotation_step (commits c new_token done) s).calls c ≡ over (returned new_token))
      × IsRevoked old_token (rotation_step (commits c new_token done) s)
unfolding rotation_step commit_at commit_rotation rotated
accepted-IsRevoked c old_token new_token row s at other new =
    let apart : (new_token == old_token) ≡ false = differ new_token old_token other in
    rw (at, commit_at)
      (rw (new, commit_rotation)
        (
          rw (itself c) refl,
          (record row { revoked = true }, simp get-set (rw (apart, eq_refl old_token) refl), refl),
        ))

refused :
    (d : ℕ) (t : String) (s : Tokens)
    → s.calls d ≡ idle
    → IsRevoked t s
    → (rotation_step (reads d t done) s).calls d
      ≡ over (raised (http_exception 401 "Invalid refresh token"))
unfolding rotation_step read_at read_row checked_row
refused d t s free (row, there, revoked) =
    rw (free, read_at) (rw (itself d, there, checked_row) (rw revoked refl))

-- A call of rotate_refresh_token that commits returns its new token, provided that this is another
-- than the old one and not in use; and from then on its old token is refused with 401 to every call
-- that reads it later, whatever other calls read and commit in between.
pub exchanged_refused :
    (c d : ℕ) (old_token new_token : String) (row : RefreshToken) (s : Tokens)
    (between : List RotationStep)
    → s.calls c ≡ committing old_token row
    → new_token ≢ old_token
    → Dict.get new_token s.rows ≡ none
    → (rotation_run between (rotation_step (commits c new_token done) s)).calls d ≡ idle
    → ((rotation_step (commits c new_token done) s).calls c ≡ over (returned new_token))
      × ((rotation_step
              (reads d old_token done)
              (rotation_run between (rotation_step (commits c new_token done) s))).calls
            d
          ≡ over (raised (http_exception 401 "Invalid refresh token")))
exchanged_refused c d old_token new_token row s between at other new free =
    let (accepted, revoked) = accepted-IsRevoked c old_token new_token row s at other new in
    let s' = rotation_step (commits c new_token done) s in
    (
      accepted,
      refused d old_token (rotation_run between s') free
          (rotation_run-IsRevoked old_token between s' revoked),
    )
