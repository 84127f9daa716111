-- ===== src/Users/Refinement.antt =====
-- fastapi_app/routers/users.py: the routes do what the directory promises.
use mathlib.Core.Path.{fun_ext}
use mathlib.Core.Logic.Or
use mathlib.Core.Logic.{∥∥₁_map}
use mathlib.Core.List.{Mem, mem-cons, mem-cons_self, mem-cons_of_mem, not-mem-nil}
use fastapi_project.Prelude.{
  ℕ, String, ◌≡◌, refl, sym, ap, eq_refl, ◌∙◌, inl, inr, Option, none, some, List, [], ◌∷◌, ◌==◌,
  eq_iff, Bool-cases, Option-cases, arith,
}
use fastapi_project.Python.{Await}
use fastapi_project.Dict
use fastapi_project.Dict.{
  Dict, get-set, get-pop, HasDistinctKeys, set-HasDistinctKeys, pop-HasDistinctKeys,
}
use fastapi_project.Json.{Json}
use fastapi_project.Users.{TextOps, RawUser, User, valid, user_create}
use fastapi_project.Users.Validation.{
  Validated-cases, normalised, user_create_iff, valid_normalised, valid-IsAcceptable,
}
use fastapi_project.Users.Routes.{
  UsersState, Request, create, list, get, delete, entry, create_user, list_users, get_user,
  delete_user, get_current_user, require_admin, handle, serve, answers,
}
use fastapi_project.Users.Directory.{
  Directory, assign, announce, Lists, Creates, Deletes, Meets, Runs,
}

abbrev pub directory : UsersState → Directory
directory s = record { user_at = λ i. Dict.get i s.fake_users_db; published = s.published }

abbrev with_users : (String → Option User) → List (String × Dict Json) → Directory
with_users f events = record { user_at = f; published = events }

stored :
    (i : String) (u : User) (s : UsersState)
    → directory (record s { fake_users_db = Dict.set i u s.fake_users_db })
      ≡ assign i (some u) (directory s)
stored i u s = ap (λ f. with_users f s.published) (fun_ext (λ j. get-set i j u s.fake_users_db))

removed :
    (i : String) (s : UsersState)
    → directory (record s { fake_users_db = Dict.pop i s.fake_users_db })
      ≡ assign i none (directory s)
removed i s = ap (λ f. with_users f s.published) (fun_ext (λ j. get-pop i j s.fake_users_db))

mem-values : (i : String) (u : User) (d : Dict User) → Dict.get i d ≡ some u → Mem u (Dict.values d)
unfolding Dict.get
mem-values i u [] h = cc
mem-values i u ((j, v) ∷ d) h = elim (Bool-cases (j == i)) [
  | inl same ↦ let e : u ≡ v = ground (arith, h) in rw e mem-cons_self
  | inr other ↦ mem-cons_of_mem v (mem-values i u d (ground (arith, h)))
]

found_later :
    (j i : String) (v u : User) (d : Dict User)
    → Dict.get j d ≡ none
    → Dict.get i d ≡ some u
    → Dict.get i ((j, v) ∷ d) ≡ some u
unfolding Dict.get
found_later j i v u d new found = elim (Bool-cases (j == i)) [
  | inl same ↦ absurd (cc (new, found, ap (λ (k : String). Dict.get k d) ((eq_iff j i).0 same)))
  | inr other ↦ rw other found
]

values-get :
    (u : User) (d : Dict User)
    → HasDistinctKeys d
    → Mem u (Dict.values d)
    → ∥ ((i : String) × (Dict.get i d ≡ some u)) ∥₁
unfolding Dict.get
values-get u [] h m = absurd (not-mem-nil m)
values-get u ((j, v) ∷ d) h m =
    Or.elim (hlevel) (mem-cons.0 m) (λ e. ∣ (j, rw (eq_refl j) (ap some (sym e))) ∣₁)
      (λ k. ∥∥₁_map (values-get u d h.1 k) (λ p. (p.0, found_later j p.0 v u d h.0 p.1)))

module _ (ops : TextOps) (publish : String → Dict Json → Await) where
  create-Meets :
      (raw : RawUser) (new_id : String) (now : ℕ) (s : UsersState)
      → let (out, s') = create_user ops publish raw new_id now s in
        Creates ops publish raw new_id now (directory s) out (directory s')
  unfolding create_user
  create-Meets raw new_id now s = elim (Validated-cases (user_create ops raw)) [
    | inl (body, ok) ↦
        let ok' = ok ∙ ap valid (valid_normalised ops raw body ok) in
        inl (
          valid-IsAcceptable ops raw body ok,
          (
            rw (ok', create_user)
                (ap (announce _ _) (stored new_id (entry (normalised ops raw) new_id now) s)),
            rw (ok', create_user) refl,
          ),
        )
    | inr (errors, bad) ↦ inr (
      λ acceptable. cc (bad, (user_create_iff ops raw).1 acceptable),
      (errors, rw (bad, create_user) refl),
      rw (bad, create_user) refl,
    )
  ]

  delete-Meets :
      (i : String) (s : UsersState)
      → let (out, s') = delete_user ops publish i s in
        Deletes ops publish i (Dict.get i s.fake_users_db) (directory s) out (directory s')
  unfolding delete_user require_admin get_current_user
  delete-Meets i s = elim (Option-cases (Dict.get i s.fake_users_db)) [
    | inl gone ↦ rw (gone, delete_user, require_admin, get_current_user) (refl, refl)
    | inr (u, found) ↦ elim (Bool-cases (u.role == "admin")) [
      | inl admin ↦
          rw (found, admin, delete_user, require_admin, get_current_user)
            (inl ((eq_iff _ _).0 admin, (ap (announce _ _) (removed i s), refl)))
      | inr other ↦
          rw (found, other, delete_user, require_admin, get_current_user)
            (inr (λ e. cc (other, (eq_iff u.role "admin").1 e), refl, refl))
    ]
  ]

  values-Lists :
      (s : UsersState)
      → HasDistinctKeys s.fake_users_db
      → Lists (directory s) (Dict.values s.fake_users_db)
  values-Lists s h = record {
    all = λ i u found. mem-values i u s.fake_users_db found;
    only = λ u m. values-get u s.fake_users_db h m;
  }

  -- Each request does what the directory promises of it.
  handle-Meets :
      (r : Request) (s : UsersState)
      → HasDistinctKeys s.fake_users_db
      → let (out, s') = handle ops publish r s in
        Meets ops publish r (directory s) out (directory s')
  unfolding handle list_users get_user get_current_user
  handle-Meets (create raw new_id now) s h = create-Meets raw new_id now s
  handle-Meets list s h = ((Dict.values s.fake_users_db, values-Lists s h, refl), refl)
  handle-Meets (get i) s h = elim (Option-cases (Dict.get i s.fake_users_db)) [
    | inl gone ↦ rw (gone, handle, get_user, get_current_user) (refl, refl)
    | inr (u, found) ↦ rw (found, handle, get_user, get_current_user) (refl, refl)
  ]
  handle-Meets (delete i) s h = delete-Meets i s

  handle-HasDistinctKeys :
      (r : Request) (s : UsersState)
      → HasDistinctKeys s.fake_users_db
      → HasDistinctKeys (handle ops publish r s).1.fake_users_db
  unfolding handle create_user list_users get_user delete_user
  handle-HasDistinctKeys (create raw new_id now) s h =
      elim (Validated-cases (user_create ops raw)) [
        | inl (body, ok) ↦
            rw (ok, create_user)
              (set-HasDistinctKeys new_id (entry body new_id now) s.fake_users_db h)
        | inr (errors, bad) ↦ rw (bad, create_user) h
      ]
  handle-HasDistinctKeys list s h = h
  handle-HasDistinctKeys (get i) s h = h
  handle-HasDistinctKeys (delete i) s h = ground (arith, pop-HasDistinctKeys i s.fake_users_db h)

  -- From any store with distinct keys every sequence of requests answers and acts as the directory
  -- promises: the store, which is a dictionary in its order of insertion, implements a map from
  -- identifiers to users, for which a request that is accepted assigns its user, one that is
  -- refused changes nothing, a list holds the users of the map and no others, and a deletion asks
  -- for an administrator's entry.
  pub serve-Runs :
      (rs : List Request) (s : UsersState)
      → HasDistinctKeys s.fake_users_db
      → Runs ops publish rs
          (directory s)
          (answers ops publish rs s)
          (directory (serve ops publish rs s))
  unfolding serve answers
  serve-Runs [] s h = refl
  serve-Runs (r ∷ rs) s h =
      let s' = (handle ops publish r s).1 in
      (directory s', handle-Meets r s h, serve-Runs rs s' (handle-HasDistinctKeys r s h))
