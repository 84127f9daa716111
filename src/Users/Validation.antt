-- ===== src/Users/Validation.antt =====
-- fastapi_app/models/user.py: which requests the model accepts, and the errors of the others.
use fastapi_project.Prelude.{
  String, ◌≡◌, ◌≢◌, ◌↔◌, ◌⊎◌, inl, inr, refl, true, false, List, [], ◌∷◌, ◌++◌, eq_iff, arith,
  if◌then◌else◌,
}
use fastapi_project.Python.Int.{is_below}
use fastapi_project.Users.{
  has_at, TextOps, RawUser, UserCreate, Validated, valid, invalid, user_create, email_must_have_at,
  age_must_be_positive, role_given,
}

pub Validated-cases :
    (v : Validated)
    → ((body : UserCreate) × (v ≡ valid body)) ⊎ ((errors : List String) × (v ≡ invalid errors))
Validated-cases (valid body) = inl (body, refl)
Validated-cases (invalid errors) = inr (errors, refl)

module _ (ops : TextOps) (raw : RawUser) where
  open ops use {strip, lower}

  -- The fields as they are stored: stripped, and the address in lower case.
  abbrev pub normalised : UserCreate
  normalised = record {
    name = strip raw.name;
    email = lower (strip raw.email);
    age = raw.age;
    role = role_given ops raw.role;
  }

  pub record IsAcceptable : Type 0 where
    pub address : has_at (strip raw.email) ≡ true
    pub age : is_below raw.age 0 ≡ false
    pub adult : role_given ops raw.role ≡ "admin" → is_below raw.age 18 ≡ false

  abbrev pub errors_of : List String
  errors_of =
      let email_error : List String =
        if has_at (strip raw.email) then [] else "Invalid email address" ∷ [] in
      let age_error : List String =
        if is_below raw.age 0 then "Age must be positive" ∷ [] else [] in
      email_error ++ age_error

  -- A request is accepted as its normalised form exactly if its stripped address holds an @, its
  -- age is not negative, and an administrator is 18 or older.
  pub user_create_iff : (user_create ops raw ≡ valid normalised) ↔ IsAcceptable
  unfolding user_create email_must_have_at age_must_be_positive
  user_create_iff = ground (arith, eq_iff (role_given ops raw.role) "admin")

  pub valid_normalised : (u : UserCreate) → user_create ops raw ≡ valid u → u ≡ normalised
  unfolding user_create email_must_have_at age_must_be_positive
  valid_normalised u h = ground arith

  pub valid-IsAcceptable : (u : UserCreate) → user_create ops raw ≡ valid u → IsAcceptable
  valid-IsAcceptable u h = user_create_iff.0 (rw (← valid_normalised u h) h)

  -- The errors of a rejected request are those of its address and its age, in this order; if
  -- there are none, the one error is that an administrator is under 18.
  pub invalid_errors :
      (errors : List String)
      → user_create ops raw ≡ invalid errors
      → ((errors ≡ errors_of) × (errors_of ≢ []))
        ⊎ ((errors ≡ "Admin users must be 18+" ∷ []) × (errors_of ≡ []))
  unfolding user_create email_must_have_at age_must_be_positive
  invalid_errors errors h = ground arith
