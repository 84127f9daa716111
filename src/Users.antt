-- ===== src/Users.antt =====
-- fastapi_app/models/user.py: the request and response models of a user, their validators, and
-- the record that fastapi_app/routers/users.py stores.
pub mod Routes
pub mod Validation
pub mod Store
pub mod Deletion
pub mod Refinement
pub mod Directory
mod Tests
use Prim.Native.Char.{code}
use native.Mathlib.Decide.{ℕ_discrete}
use mathlib.Core.Logic.{ite}
use fastapi_project.Prelude.{
  ℕ, String, ◌≡◌, Bool, true, false, not, ◌&&◌, Option, none, some, List, [], ◌∷◌, ◌++◌, ◌==◌,
  if◌then◌else◌,
}
use fastapi_project.Python.{Outcome, returned, raised, value_error}
use fastapi_project.Python.Int.{ℤ, is_below}

-- `"@" in v`
unfoldable pub has_at : String → Bool
unfolding ℕ_discrete
has_at String.[] = false
has_at (String.◌∷◌ c s) = ite (ℕ_discrete (code c) b'@') true (has_at s)

-- The text functions: pydantic's `str_strip_whitespace`, and `str.lower`, which replaces cased
-- letters and so keeps every "@".
pub record TextOps : Type 0 where
  pub strip : String → String
  pub lower : String → String
  pub lower_keeps_at : (s : String) → has_at s ≡ true → has_at (lower s) ≡ true

-- The fields of a request, once they have the declared types; `role` may be left out.
pub record RawUser : Type 0 where
  pub name : String
  pub email : String
  pub age : ℤ
  pub role : Option String

pub record UserCreate : Type 0 where
  pub name : String
  pub email : String
  pub age : ℤ
  pub role : String

-- An entry of `fake_users_db`.
pub record User : Type 0 where
  pub id : String
  pub created_at : ℕ
  pub name : String
  pub email : String
  pub age : ℤ
  pub role : String

pub record UserResponse : Type 0 where
  pub id : String
  pub name : String
  pub email : String
  pub age : ℤ
  pub role : String
  pub created_at : ℕ
  pub is_admin : Bool

-- The response model filters the entry and computes `is_admin`.
unfoldable pub to_response : User → UserResponse
to_response u = record {
  id = u.id;
  name = u.name;
  email = u.email;
  age = u.age;
  role = u.role;
  created_at = u.created_at;
  is_admin = u.role == "admin";
}

pub data Validated : Type 0 where
  valid : UserCreate → Validated
  invalid : List String → Validated

unfoldable pub age_must_be_positive : ℤ → Outcome ℤ
age_must_be_positive v =
    if is_below v 0 then raised (value_error "Age must be positive") else returned v

unfoldable pub admin_must_be_adult : UserCreate → Outcome UserCreate
admin_must_be_adult u =
    if u.role == "admin" && is_below u.age 18
    then raised (value_error "Admin users must be 18+")
    else returned u

-- The message that a validator's `ValueError` adds to the errors of the request.
abbrev messages {ℓ} : {A : Type ℓ} → Outcome A → List String
messages (returned _) = []
messages (raised (value_error text)) = text ∷ []
messages (raised _) = []

module _ (ops : TextOps) where
  open ops use {strip, lower}

  -- The default of `role` is not stripped.
  abbrev pub role_given : Option String → String
  role_given none = "viewer"
  role_given (some role) = strip role

  unfoldable pub email_must_have_at : String → Outcome String
  email_must_have_at v =
      if not (has_at v) then raised (value_error "Invalid email address") else returned (lower v)

  -- The model validator runs once every field is valid.
  checked : UserCreate → Validated
  unfolding admin_must_be_adult
  checked u = elim (admin_must_be_adult u) [
    | returned v ↦ valid v
    | raised e ↦ invalid (messages {A = UserCreate} (raised e))
  ]

  fields_checked : RawUser → Outcome String → Outcome ℤ → Validated
  unfolding checked
  fields_checked raw (returned email) (returned age) =
      checked
        (record { name = strip raw.name; email = email; age = age; role = role_given raw.role })
  fields_checked raw email age = invalid (messages email ++ messages age)

  -- The class `UserCreate` as pydantic builds it: strings are stripped, each field is validated,
  -- in their order, and the errors are collected.
  unfoldable pub user_create : RawUser → Validated
  unfolding fields_checked email_must_have_at age_must_be_positive
  user_create raw =
      fields_checked raw (email_must_have_at (strip raw.email)) (age_must_be_positive raw.age)
