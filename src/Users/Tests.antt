-- ===== src/Users/Tests.antt =====
-- Requests to the users' routes, and the theorems at concrete inputs.
use fastapi_project.Users.Directory.{Runs}
use fastapi_project.Users.Refinement.{directory, serve-Runs}
use Prim.Native.Char.{Char, code}
use native.Mathlib.Decide.{ℕ_discrete}
use mathlib.Core.Logic.{ite}
use fastapi_project.Prelude.{String, ◌≡◌, ◌↔◌, refl, true, none, some, List, [], ◌∷◌, arith, All}
use fastapi_project.Python.{other_error, http_exception, returned, raised, Await, done}
use fastapi_project.Python.Int.{pos, negsuc}
use fastapi_project.Dict
use fastapi_project.Dict.{Dict}
use fastapi_project.Json.{Json}
use fastapi_project.Users.{
  has_at, TextOps, RawUser, UserCreate, User, to_response, valid, invalid, user_create,
  email_must_have_at, age_must_be_positive,
}
use fastapi_project.Users.Validation.{IsAcceptable, normalised, user_create_iff}
use fastapi_project.Users.Routes.{
  UsersState, no_users, deleted, reply, Request, create, entry, require_admin, create_user,
  get_user, delete_user, handle, serve, answers,
}
use fastapi_project.Users.Store.{IsSound, serve-IsSound}

users_defs : Unit {0}
unfolding user_create email_must_have_at age_must_be_positive has_at create_user get_user
    delete_user require_admin handle serve to_response Dict.get Dict.set Dict.pop
users_defs = tt

-- One letter stands for the alphabet.
abbrev lower_char : Char → Char
lower_char c = ite (ℕ_discrete (code c) b'A') "a" c

abbrev lower_a : String → String
lower_a String.[] = String.[]
lower_a (String.◌∷◌ c s) = String.◌∷◌ (lower_char c) (lower_a s)

lower_a_keeps_at : (s : String) → has_at s ≡ true → has_at (lower_a s) ≡ true
unfolding has_at
lower_a_keeps_at String.[] h = h
lower_a_keeps_at (String.◌∷◌ c s) h = ground (arith, lower_a_keeps_at s)

abbrev ops : TextOps
ops = record { strip = λ s. s; lower = lower_a; lower_keeps_at = lower_a_keeps_at }

abbrev broker_up : String → Dict Json → Await
broker_up event body = done

abbrev broker_gone : String → Dict Json → Await
broker_gone event body = raised (other_error "broker")

abbrev ann : RawUser
ann = record { name = "Ann"; email = "Ann@x.org"; age = pos 30; role = some "admin" }

abbrev ann_body : UserCreate
ann_body = record { name = "Ann"; email = "ann@x.org"; age = pos 30; role = "admin" }

abbrev bob : RawUser
bob = record { name = "Bob"; email = "bob@x.org"; age = pos 16; role = none }

abbrev bob_body : UserCreate
bob_body = record { name = "Bob"; email = "bob@x.org"; age = pos 16; role = "viewer" }

abbrev nobody : RawUser
nobody = record { name = "?"; email = "none"; age = negsuc 0; role = none }

ann_valid : user_create ops ann ≡ valid ann_body
unfolding users_defs ℕ_discrete
ann_valid = refl

abbrev nobody_errors : List String
nobody_errors = "Invalid email address" ∷ "Age must be positive" ∷ []

nobody_invalid : user_create ops nobody ≡ invalid nobody_errors
unfolding users_defs ℕ_discrete
nobody_invalid = refl

abbrev two_users : List Request
two_users = create ann "id1" 5 ∷ create bob "id2" 6 ∷ []

abbrev stored : UsersState
stored = serve ops broker_up two_users no_users

abbrev bob_entry : User
bob_entry = entry bob_body "id2" 6

ann_stored : Dict.get "id1" stored.fake_users_db ≡ some (entry ann_body "id1" 5)
unfolding users_defs ℕ_discrete
ann_stored = refl

-- The viewer asks in vain to delete, and the administrator is deleted.
delete_tests :
    ((delete_user ops broker_up "id2" stored).0 ≡ raised (http_exception 403 "Admin only"))
    × ((delete_user ops broker_up "id3" stored).0 ≡ raised (http_exception 404 "User not found"))
    × ((delete_user ops broker_up "id1" stored).0 ≡ returned (reply 200 (deleted "id1")))
unfolding users_defs ℕ_discrete
delete_tests = (refl, refl, refl)

user_create_iff_example : (user_create ops ann ≡ valid (normalised ops ann)) ↔ IsAcceptable ops ann
user_create_iff_example = user_create_iff ops ann

serve-IsSound_example : All IsSound (Dict.values stored.fake_users_db)
serve-IsSound_example = serve-IsSound ops broker_up two_users no_users tt

serve-Runs_example :
    Runs ops broker_gone two_users
      (directory no_users)
      (answers ops broker_gone two_users no_users)
      (directory (serve ops broker_gone two_users no_users))
serve-Runs_example = serve-Runs ops broker_gone two_users no_users tt
