-- ===== src/App/Routing/Tests.antt =====
-- The routes of the application, and the theorem at a concrete request.
use native.Mathlib.Decide.{ℕ_discrete}
use fastapi_project.Prelude.{◌≡◌, inl, inr, refl, some, [], ◌∷◌}
use fastapi_project.App.Routing.{
  http_get, literal, parameter, at_get_job_status, app_routes, match_path,
}
use fastapi_project.App.Routing.Unique.{found_route}
use fastapi_project.App.Routing.Samples.{router}

found_route_example :
    router.find_route app_routes http_get ("jobs" ∷ "7" ∷ [])
    ≡ some (
      record {
        method = http_get;
        path = literal "jobs" ∷ parameter ∷ [];
        endpoint = at_get_job_status;
      },
      "7" ∷ [],
    )
unfolding app_routes match_path ℕ_discrete
found_route_example =
    found_route router
      (record {
        method = http_get;
        path = literal "jobs" ∷ parameter ∷ [];
        endpoint = at_get_job_status;
      })
      http_get ("jobs" ∷ "7" ∷ []) ("7" ∷ [])
      (inr (inr (inr (inr (inr (inr (inr (inr (inl refl))))))))) (refl, refl)
