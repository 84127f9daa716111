-- ===== src/AsyncDemo/Tests.antt =====
-- The bodies and the times of the demonstration routes.
use fastapi_project.Prelude.{ℕ, String, ◌≡◌, refl, none, some, [], ◌∷◌}
use fastapi_project.Python.{Exn, cancelled_error, returned, raised}
use fastapi_project.Python.Asyncio.{first_failure, gather}
use fastapi_project.Json.{str, arr, nil, cons}
use fastapi_project.AsyncDemo.{
  demo_gather, demo_gather_exception, demo_create_task, demo_to_thread, demo_sleep,
}

abbrev digit : ℕ → String
digit n = "n"

abbrev text_of : Exn → String
text_of e = "something went wrong"

demo_tests :
    ((demo_gather digit none).1 ≡ 600)
    × (demo_gather_exception text_of none ≡ (
      returned (("results", arr (cons (str "ok") (cons (str "something went wrong") nil))) ∷ []),
      100,
    ))
    × (demo_create_task none ≡ (returned (("result", str "background result") ∷ []), 100))
    × ((demo_to_thread none).1 ≡ 300)
    × ((demo_sleep none).1 ≡ 100)
    × (demo_sleep (some 50) ≡ (raised cancelled_error, 50))
unfolding demo_gather demo_gather_exception demo_create_task demo_to_thread demo_sleep first_failure
    gather
demo_tests = (refl, refl, refl, refl, refl, refl)
