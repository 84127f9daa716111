-- ===== src/App/Api/Expected.antt =====
-- fastapi_app/routers/: what a route may raise, and the cancellation of those that sleep.
use fastapi_project.Prelude.{
  ℕ, String, ◌≡◌, ◌≢◌, ◌⊎◌, inl, inr, refl, sym, ◌∙◌, Bool-cases, Option, none, some, ltb, arith,
}
use fastapi_project.Python.{Exn, http_exception, cancelled_error, Outcome, returned, raised, ◌>>=◌}
use fastapi_project.Dict.{Dict}
use fastapi_project.Json.{Json}
use fastapi_project.App.Api.{Services, Api, body_reply, on_demo}
use fastapi_project.AsyncDemo.{cancelled_at}

pub no_exception {ℓ} :
    {A : Type ℓ} {out : Outcome A} (a : A) (e : Exn) → out ≡ returned a → out ≢ raised e
no_exception a e h k = cc

pub same_exception {ℓ} :
    {A : Type ℓ} {out : Outcome A} (x e : Exn) → out ≡ raised x → out ≡ raised e → e ≡ x
same_exception x e h k = cc

module _ {Content : Type 0} (env : Services Content) where
  -- An HTTPException of the routes, the cancellation of a request that sleeps, or what a call of
  -- `publish` has raised.
  abbrev pub IsExpected : Exn → Type 0
  IsExpected e =
      (e ≡ http_exception 404 "User not found")
      ⊎ ((e ≡ http_exception 403 "Admin only")
          ⊎ ((e ≡ http_exception 404 "Job not found")
              ⊎ ((e ≡ cancelled_error)
                  ⊎ ((event : String) × (body : Dict Json) × (env.publish event body ≡ raised e)))))

  pub replied {ℓ κ} :
      {A : Type ℓ} {B : Type κ} (out : Outcome A) (f : A → B)
      → ((e : Exn) → out ≡ raised e → IsExpected e)
      → (e : Exn) → (out >>= λ a. returned (f a)) ≡ raised e
      → IsExpected e
  replied (returned a) f h e k = absurd (ground arith)
  replied (raised x) f h e k = h e (ground arith)

  -- A demonstration route that would end by a body raises nothing but its cancellation.
  cancelled_raises :
      (cancel : Option ℕ) (body : Dict Json) (time : ℕ) (e : Exn)
      → (cancelled_at cancel (returned body, time)).0 ≡ raised e
      → IsExpected e
  cancelled_raises none body time e h = absurd (no_exception body e refl h)
  cancelled_raises (some t) body time e h = elim (Bool-cases (ltb t time)) [
    | inl early ↦ inr (
        inr (
          inr (
            inl (same_exception {A = Dict Json} cancelled_error e refl (sym (rw early refl) ∙ h)))))
    | inr late ↦ absurd (no_exception body e (rw late refl) h)
  ]

  pub demo_raises :
      (cancel : Option ℕ) (body : Dict Json) (time : ℕ) (s : Api) (e : Exn)
      → (on_demo s (cancelled_at cancel (returned body, time))).0 ≡ raised e
      → IsExpected e
  demo_raises cancel body time s e h = replied _ body_reply (cancelled_raises cancel body time) e h
