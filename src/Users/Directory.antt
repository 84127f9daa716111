-- ===== src/Users/Directory.antt =====
-- fastapi_app/routers/users.py: what the users' routes promise, over a directory that says for each
-- identifier which user it has, and forgets how and in which order the users are stored.
use fastapi_project.Prelude.{
  ℕ, String, ◌≡◌, ◌≢◌, ◌⊎◌, Option, none, some, List, [], ◌∷◌, map, ◌==◌, if◌then◌else◌,
}
use fastapi_project.Python.{http_exception, Outcome, returned, raised, ◌>>=◌, Await}
use fastapi_project.Json.{Json, str}
use fastapi_project.Dict.{Dict}
use mathlib.Core.List.{Mem}
use fastapi_project.Users.{TextOps, RawUser, User, to_response}
use fastapi_project.Users.Validation.{IsAcceptable, normalised}
use fastapi_project.Users.Routes.{
  one, many, deleted, Reply, reply, validation_errors, Request, create, list, get, delete, entry,
  created_event,
}

pub record Directory : Type 0 where
  pub user_at : String → Option User
  pub published : List (String × Dict Json)

-- The directory in which the identifier has this user, or none.
abbrev pub assign : String → Option User → Directory → Directory
assign i o d = record d { user_at = λ j. if i == j then o else d.user_at j }

abbrev pub announce : String → Dict Json → Directory → Directory
announce event_type body d = record d { published = (event_type, body) ∷ d.published }

-- The list holds the users of the directory, and nothing else.
pub record Lists (d : Directory) (us : List User) : Type 0 where
  pub all : (i : String) (u : User) → d.user_at i ≡ some u → Mem u us
  pub only : (u : User) → Mem u us → ∥ ((i : String) × (d.user_at i ≡ some u)) ∥₁

module _ (ops : TextOps) (publish : String → Dict Json → Await) where
  -- An event is published after the change, which stays whatever becomes of the event; its
  -- exception is the handler's.
  abbrev pub Announced : String → Dict Json → Reply → Directory → Outcome Reply → Directory → Type 0
  Announced event_type body answer d out d' =
      (d' ≡ announce event_type body d) × (out ≡ (publish event_type body >>= λ _. returned answer))

  -- A request whose body is acceptable stores its normalised form, and any other changes nothing.
  abbrev pub Creates : RawUser → String → ℕ → Directory → Outcome Reply → Directory → Type 0
  Creates raw new_id now d out d' =
      let user = entry (normalised ops raw) new_id now in
      (IsAcceptable ops raw
        × Announced "user.created" (created_event (normalised ops raw) new_id)
            (reply 201 (one (to_response user))) (assign new_id (some user) d) out d')
      ⊎ ((¬ (IsAcceptable ops raw))
          × ((errors : List String) × (out ≡ returned (validation_errors errors)))
          × (d' ≡ d))

  abbrev pub Gets : Option User → Outcome Reply → Type 0
  Gets none out = out ≡ raised (http_exception 404 "User not found")
  Gets (some u) out = out ≡ returned (reply 200 (one (to_response u)))

  -- Only an administrator's entry is deleted, by whomever.
  abbrev pub Deletes : String → Option User → Directory → Outcome Reply → Directory → Type 0
  Deletes i none d out d' = (out ≡ raised (http_exception 404 "User not found")) × (d' ≡ d)
  Deletes i (some u) d out d' =
      ((u.role ≡ "admin")
        × Announced "user.deleted" (("id", str i) ∷ []) (reply 200 (deleted i)) (assign i none d)
            out d')
      ⊎ ((u.role ≢ "admin") × (out ≡ raised (http_exception 403 "Admin only")) × (d' ≡ d))

  -- What a request may answer, and make of the directory.
  abbrev pub Meets : Request → Directory → Outcome Reply → Directory → Type 0
  Meets (create raw new_id now) d out d' = Creates raw new_id now d out d'
  Meets list d out d' =
      ((us : List User) × Lists d us × (out ≡ returned (reply 200 (many (map to_response us)))))
      × (d' ≡ d)
  Meets (get i) d out d' = Gets (d.user_at i) out × (d' ≡ d)
  Meets (delete i) d out d' = Deletes i (d.user_at i) d out d'

  -- What a sequence of requests may answer, one by one, and make of the directory.
  abbrev pub Runs : List Request → Directory → List (Outcome Reply) → Directory → Type 0
  Runs [] d [] d' = d' ≡ d
  Runs (r ∷ rs) d (out ∷ outs) d' = (e : Directory) × Meets r d out e × Runs rs e outs d'
  Runs _ d _ d' = ⊥
