-- ===== src/Users/Store.antt =====
-- fastapi_app/routers/users.py: what `fake_users_db` holds after any requests, and what creating a
-- user does.
use fastapi_project.Prelude.{
  ℕ, String, ◌≡◌, refl, inl, inr, true, false, some, List, [], ◌∷◌, arith, All, ◌==◌, eq_refl,
  if◌then◌else◌,
}
use fastapi_project.Python.{returned, Await, ◌>>=◌}
use fastapi_project.Python.Int.{is_below}
use fastapi_project.Dict
use fastapi_project.Dict.{Dict, get-set, get-set_self, set-All, pop-All}
use fastapi_project.Json.{Json}
use fastapi_project.Users.{
  has_at, TextOps, RawUser, UserCreate, User, to_response, valid, user_create,
}
use fastapi_project.Users.Validation.{valid-IsAcceptable, valid_normalised, Validated-cases}
use fastapi_project.Users.Routes.{
  UsersState, one, reply, Request, create, list, get, delete, get_current_user, entry,
  created_event, create_user, get_user, delete_user, list_users, handle, serve,
}

-- What the validators promise of a stored user.
pub record IsSound (u : User) : Type 0 where
  pub address : has_at u.email ≡ true
  pub age : is_below u.age 0 ≡ false
  pub adult : u.role ≡ "admin" → is_below u.age 18 ≡ false

module _ (ops : TextOps) (publish : String → Dict Json → Await) where
  entry-IsSound :
      (raw : RawUser) (body : UserCreate) (new_id : String) (now : ℕ)
      → user_create ops raw ≡ valid body
      → IsSound (entry body new_id now)
  entry-IsSound raw body new_id now h =
      let ok = valid-IsAcceptable ops raw body h in
      let same = valid_normalised ops raw body h in
      rw same (record { address = ops.lower_keeps_at _ ok.address; age = ok.age; adult = ok.adult })

  abbrev AllSound : UsersState → Type 0
  AllSound s = All IsSound (Dict.values s.fake_users_db)

  create_user-AllSound :
      (raw : RawUser) (new_id : String) (now : ℕ) (s : UsersState)
      → AllSound s
      → AllSound (create_user ops publish raw new_id now s).1
  unfolding create_user
  create_user-AllSound raw new_id now s h = elim (Validated-cases (user_create ops raw)) [
    | inl (body, ok) ↦
        rw (ok, create_user)
          (set-All IsSound new_id (entry body new_id now) s.fake_users_db
            (entry-IsSound raw body new_id now ok) h)
    | inr (errors, bad) ↦ rw (bad, create_user) h
  ]

  delete_user-AllSound :
      (user_id : String) (s : UsersState)
      → AllSound s
      → AllSound (delete_user ops publish user_id s).1
  unfolding delete_user
  delete_user-AllSound user_id s h = ground (arith, pop-All IsSound user_id s.fake_users_db h)

  handle-AllSound :
      (r : Request) (s : UsersState) → AllSound s → AllSound (handle ops publish r s).1
  unfolding handle list_users get_user
  handle-AllSound (create raw new_id now) s h = create_user-AllSound raw new_id now s h
  handle-AllSound list s h = h
  handle-AllSound (get user_id) s h = h
  handle-AllSound (delete user_id) s h = delete_user-AllSound user_id s h

  -- From a store in which this holds, after any requests, whichever of them fail, every stored user
  -- has an @ in the address and an age of at least 0, and every administrator is 18 or older.
  pub serve-IsSound :
      (rs : List Request) (s : UsersState)
      → All IsSound (Dict.values s.fake_users_db)
      → All IsSound (Dict.values (serve ops publish rs s).fake_users_db)
  unfolding serve
  serve-IsSound [] s h = h
  serve-IsSound (r ∷ rs) s h = serve-IsSound rs (handle ops publish r s).1 (handle-AllSound r s h)

  module _ (raw : RawUser) (body : UserCreate) (new_id : String) (now : ℕ) (s : UsersState)
      (accepted : user_create ops raw ≡ valid body) where
    -- An accepted request stores the user, leaves every other entry as it was, and publishes one
    -- event, however `publish` ends: if that raises, the handler raises too and the user stays.
    pub create_user_stores :
        let (out, s') = create_user ops publish raw new_id now s in
        ((j : String)
          → Dict.get j s'.fake_users_db
            ≡ (if new_id == j then some (entry body new_id now) else Dict.get j s.fake_users_db))
        × (s'.published ≡ ("user.created", created_event body new_id) ∷ s.published)
        × (out ≡ (
            publish "user.created" (created_event body new_id) >>= λ _.
            returned (reply 201 (one (to_response (entry body new_id now))))))
    unfolding create_user
    create_user_stores =
        rw (accepted, create_user)
          (λ j. get-set new_id j (entry body new_id now) s.fake_users_db, refl, refl)

    -- GET of the new identifier returns the user that was just created, however publish ended.
    pub get_user-create_user :
        (get_user ops publish new_id (create_user ops publish raw new_id now s).1).0
        ≡ returned (reply 200 (one (to_response (entry body new_id now))))
    unfolding get_user get_current_user
    get_user-create_user = rw (create_user_stores.0 new_id, eq_refl, get_user, get_current_user)
