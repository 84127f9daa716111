-- ===== src/Auth/Rotation/Alone.antt =====
-- fastapi_app/auth/refresh.py: an exchange that no other overlaps keeps the number of tokens that are
-- accepted.
use fastapi_project.Prelude.{
  ℕ, String, ◌+◌, ◌≡◌, refl, ap, Bool, true, false, Option, none, some, [], ◌∷◌, ◌==◌, eq_iff,
  Option-cases, Bool-cases, inl, inr, arith,
}
use fastapi_project.Python.{returned, raised, Await}
use fastapi_project.Dict
use fastapi_project.Dict.{Dict, get-set}
use fastapi_project.Auth.Rotation.{
  RefreshToken, idle, Tokens, set_call, checked_row, read_row, rotated, commit_rotation, read_at,
  commit_at, rotation_step, rotation_run, rotate_refresh_token,
}
use fastapi_project.Auth.Rotation.Revoked.{itself}

abbrev pub one_if_live : Bool → ℕ
one_if_live true = 0
one_if_live false = 1

-- How many tokens are accepted.
abbrev pub live : Dict RefreshToken → ℕ
live [] = 0
live ((t, row) ∷ rows) = one_if_live row.revoked + live rows

live-set :
    (t : String) (row old : RefreshToken) (rows : Dict RefreshToken)
    → Dict.get t rows ≡ some old
    → live (Dict.set t row rows) + one_if_live old.revoked ≡ live rows + one_if_live row.revoked
unfolding Dict.get Dict.set
live-set t row old [] h = ground arith
live-set t row old ((u, r) ∷ rows) h = ground (arith, live-set t row old rows)

live-set_of_none :
    (t : String) (row : RefreshToken) (rows : Dict RefreshToken)
    → Dict.get t rows ≡ none
    → live (Dict.set t row rows) ≡ live rows + one_if_live row.revoked
unfolding Dict.get Dict.set
live-set_of_none t row [] h = ground arith
live-set_of_none t row ((u, r) ∷ rows) h = ground (arith, live-set_of_none t row rows)

get-set_of_none :
    (t u : String) (row : RefreshToken) (rows : Dict RefreshToken) (old : RefreshToken)
    → Dict.get t rows ≡ some old
    → Dict.get u rows ≡ none
    → Dict.get u (Dict.set t row rows) ≡ none
get-set_of_none t u row rows old there new = elim (Bool-cases (t == u)) [
  | inl same ↦ absurd (cc ((eq_iff t u).0 same))
  | inr other ↦ simp get-set (rw other new)
]

live-rotated :
    (old_token new_token : String) (row : RefreshToken) (rows : Dict RefreshToken)
    → Dict.get old_token rows ≡ some row
    → row.revoked ≡ false
    → Dict.get new_token rows ≡ none
    → live (rotated old_token new_token row rows) ≡ live rows
unfolding rotated
live-rotated old_token new_token row rows there fresh new =
    let gone : RefreshToken = record row { revoked = true } in
    let once : live (Dict.set old_token gone rows) + one_if_live row.revoked ≡ live rows + 0 =
      live-set old_token gone row rows there in
    let still : Dict.get new_token (Dict.set old_token gone rows) ≡ none =
      get-set_of_none old_token new_token gone rows row there new in
    let twice : live (rotated old_token new_token row rows)
        ≡ live (Dict.set old_token gone rows) + 1 =
      live-set_of_none new_token (record { user_id = row.user_id; revoked = false })
        (Dict.set old_token gone rows) still in
    let one : one_if_live row.revoked ≡ 1 = ap one_if_live fresh in omega arith

live-commit_rotation :
    (c : ℕ) (old_token new_token : String) (row : RefreshToken) (commit : Await) (s : Tokens)
    → Dict.get old_token s.rows ≡ some row
    → row.revoked ≡ false
    → live (commit_rotation c old_token new_token row commit s).rows ≡ live s.rows
unfolding commit_rotation
live-commit_rotation c old_token new_token row (raised e) s there fresh = refl
live-commit_rotation c old_token new_token row (returned _) s there fresh =
    elim (Option-cases (Dict.get new_token s.rows)) [
      | inl new ↦
          rw (new, commit_rotation) (live-rotated old_token new_token row s.rows there fresh new)
      | inr (taken, found) ↦ rw (found, commit_rotation) refl
    ]

live-commit_at :
    (c : ℕ) (old_token new_token : String) (row : Option RefreshToken) (commit : Await) (s : Tokens)
    → Dict.get old_token s.rows ≡ row
    → live (commit_at (checked_row old_token row) c new_token commit s).rows ≡ live s.rows
unfolding commit_at checked_row commit_rotation
live-commit_at c old_token new_token none commit s there = refl
live-commit_at c old_token new_token (some row) commit s there = elim (Bool-cases row.revoked) [
  | inl revoked ↦ rw (revoked, commit_at) refl
  | inr fresh ↦
      rw (fresh, commit_at) (live-commit_rotation c old_token new_token row commit s there fresh)
]

-- A call of rotate_refresh_token that no other overlaps keeps the number of tokens that are
-- accepted, however its two awaits end: it gives a token for a token, or nothing.
pub live-rotate_refresh_token :
    (c : ℕ) (old_token new_token : String) (read commit : Await) (s : Tokens)
    → s.calls c ≡ idle
    → live (rotate_refresh_token c old_token new_token read commit s).rows ≡ live s.rows
unfolding rotate_refresh_token rotation_run rotation_step read_at read_row
live-rotate_refresh_token c old_token new_token (raised e) commit s free =
    rw (free, read_at) (rw (itself c, commit_at) refl)
live-rotate_refresh_token c old_token new_token (returned _) commit s free =
    rw (free, read_at)
      (rw (itself c) (
        live-commit_at c old_token new_token (Dict.get old_token s.rows) commit
          (set_call c (checked_row old_token (Dict.get old_token s.rows)) s) refl))
