-- ===== src/Python/Asyncio.antt =====
-- asyncio as fastapi_app/core/jobs.py and fastapi_app/routers/async_demo.py use it: coroutines that
-- sleep and then end, and `gather`. A time is a number of milliseconds.
use fastapi_project.Prelude.{
  ℕ, ◌≡◌, refl, Option, none, some, List, [], ◌∷◌, map, leb, if◌then◌else◌, All,
}
use fastapi_project.Python.{Exn, Outcome, returned, raised}

abbrev pub max : ℕ → ℕ → ℕ
max a b = if leb a b then b else a

-- A coroutine that sleeps for a time, and then returns or raises.
pub record Coroutine (A : Type 0) : Type 0 where
  pub sleeps : ℕ
  pub ends : Outcome A

abbrev pub earlier : ℕ → Exn → Option (ℕ × Exn) → Option (ℕ × Exn)
earlier t e none = some (t, e)
earlier t e (some (u, x)) = if leb t u then some (t, e) else some (u, x)

module _ {A : Type 0} where
  -- When the last of them ends, where all start at once.
  abbrev pub longest : List (Coroutine A) → ℕ
  longest [] = 0
  longest (c ∷ cs) = max c.sleeps (longest cs)

  -- The exception that is raised first, with its time.
  unfoldable pub first_failure : List (Coroutine A) → Option (ℕ × Exn)
  first_failure [] = none
  first_failure (c ∷ cs) =
      let rest = first_failure cs in
      elim c.ends [ returned a ↦ rest | raised e ↦ earlier c.sleeps e rest ]

  -- What those that return have returned, in the order of the arguments.
  abbrev pub results : List (Coroutine A) → List A
  results [] = []
  results (c ∷ cs) =
      let rest = results cs in elim c.ends [ returned a ↦ a ∷ rest | raised e ↦ rest ]

  -- `await asyncio.gather(*cs)`: its outcome and when it comes. The first exception ends it.
  unfoldable pub gather : List (Coroutine A) → Outcome (List A) × ℕ
  unfolding first_failure
  gather cs = elim (first_failure cs) [
    | none ↦ (returned (results cs), longest cs)
    | some (t, e) ↦ (raised e, t)
  ]

  -- `await asyncio.gather(*cs, return_exceptions=True)`
  abbrev pub gather_all : List (Coroutine A) → List (Outcome A) × ℕ
  gather_all cs = (map (λ (c : Coroutine A). c.ends) cs, longest cs)

  abbrev pub Returns : Coroutine A → Type 0
  Returns c = (a : A) × (c.ends ≡ returned a)

  first_failure-none : (cs : List (Coroutine A)) → All Returns cs → first_failure cs ≡ none
  unfolding first_failure
  first_failure-none [] h = refl
  first_failure-none (c ∷ cs) h = rw h.0.1 (first_failure-none cs h.1)

  -- Coroutines that all return give their results, in their order, when the longest has ended.
  pub gather-Returns :
      (cs : List (Coroutine A)) → All Returns cs → gather cs ≡ (returned (results cs), longest cs)
  unfolding gather
  gather-Returns cs h = rw (first_failure-none cs h, gather) refl

-- `asyncio.create_task(c)`, another await of this length, and `await task`: when that comes.
abbrev pub await_task : {A : Type 0} → Coroutine A → ℕ → ℕ
await_task c meanwhile = max meanwhile c.sleeps
