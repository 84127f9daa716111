-- ===== src/AsyncDemo.antt =====
-- fastapi_app/routers/async_demo.py: the routes that show asyncio. Each gives its body, and after
-- how many milliseconds, or is cancelled before at the await where it stands.
mod Tests
use Prim.Native.Nat.{◌*◌}
use Prim.Native.String
use fastapi_project.Prelude.{ℕ, String, Option, none, some, List, [], ◌∷◌, map, ltb, if◌then◌else◌}
use fastapi_project.Python.{Exn, value_error, cancelled_error, Outcome, returned, raised}
use fastapi_project.Python.Asyncio.{Coroutine, gather, gather_all, await_task}
use fastapi_project.Dict.{Dict}
use fastapi_project.Json.{Json, str, arr, Items, nil, cons}

abbrev items : List String → Items
items [] = nil
items (t ∷ ts) = cons (str t) (items ts)

abbrev pub Answer : Type 0
Answer = Outcome (Dict Json) × ℕ

-- A route that is cancelled before it ends raises the CancelledError then: no route catches it.
abbrev pub cancelled_at : Option ℕ → Answer → Answer
cancelled_at none a = a
cancelled_at (some t) (out, time) = if ltb t time then (raised cancelled_error, t) else (out, time)

-- `f"task-{n}-done"` writes a number by `str`.
module _ (str_of : ℕ → String) where
  abbrev demo_task : ℕ → Coroutine String
  demo_task n = record {
    sleeps = 200 * n;
    ends = returned (String.◌++◌ "task-" (String.◌++◌ (str_of n) "-done"));
  }

  abbrev gathered : Outcome (List String) × ℕ → Answer
  gathered (returned ts, t) =
      (returned (("results", arr (items ts)) ∷ ("note", str "all 3 ran concurrently") ∷ []), t)
  gathered (raised e, t) = (raised e, t)

  unfoldable pub demo_gather : (cancel : Option ℕ) → Answer
  unfolding gather
  demo_gather cancel =
      cancelled_at cancel (gathered (gather (demo_task 1 ∷ demo_task 2 ∷ demo_task 3 ∷ [])))

abbrev good : Coroutine String
good = record { sleeps = 100; ends = returned "ok" }

abbrev bad : Coroutine String
bad = record { sleeps = 50; ends = raised (value_error "something went wrong") }

-- `str(r) if isinstance(r, Exception) else r`
abbrev shown : (text_of : Exn → String) → Outcome String → String
shown text_of (returned t) = t
shown text_of (raised e) = text_of e

unfoldable pub demo_gather_exception : (text_of : Exn → String) → (cancel : Option ℕ) → Answer
demo_gather_exception text_of cancel =
    let (outcomes, t) = gather_all (good ∷ bad ∷ []) in
    cancelled_at cancel (returned (("results", arr (items (map (shown text_of) outcomes))) ∷ []), t)

abbrev background_work : Coroutine String
background_work = record { sleeps = 100; ends = returned "background result" }

abbrev result_body : Outcome String → Outcome (Dict Json)
result_body (returned t) = returned (("result", str t) ∷ [])
result_body (raised e) = raised e

unfoldable pub demo_create_task : (cancel : Option ℕ) → Answer
demo_create_task cancel =
    cancelled_at cancel (result_body background_work.ends, await_task background_work 50)

-- A blocking function in a worker thread is awaited like a coroutine.
abbrev slow_blocking : Coroutine String
slow_blocking = record { sleeps = 300; ends = returned "blocking work done in thread" }

unfoldable pub demo_to_thread : (cancel : Option ℕ) → Answer
demo_to_thread cancel = cancelled_at cancel (result_body slow_blocking.ends, slow_blocking.sleeps)

unfoldable pub demo_sleep : (cancel : Option ℕ) → Answer
demo_sleep cancel =
    cancelled_at cancel
      (returned (("slept", str "0.1s — event loop was free the whole time") ∷ []), 100)
