-- ===== src/Jobs/Timing.antt =====
-- fastapi_app/core/jobs.py: the two steps of `_async_job` run at the same time.
use Prim.Native.String
use fastapi_project.Prelude.{◌≡◌, refl, List, [], ◌∷◌}
use fastapi_project.Python.{returned}
use fastapi_project.Python.Int.{pos}
use fastapi_project.Python.Asyncio.{Coroutine, gather, gather-Returns, results}
use fastapi_project.Dict.{Dict}
use fastapi_project.Json.{Json, null, str, int, obj, fields}
use fastapi_project.Jobs.{Texts, async_result}

module _ (t : Texts) where
  abbrev pub step_fetch_data : Dict Json → Coroutine Json
  step_fetch_data payload = record {
    sleeps = 1000;
    ends = returned (str (String.◌++◌ "fetched:" (t.repr payload)));
  }

  abbrev pub step_compute : Dict Json → Coroutine Json
  step_compute payload = record {
    sleeps = 500;
    ends = returned (int (pos (t.repr_length payload)));
  }

  abbrev pub steps : Dict Json → List (Coroutine Json)
  steps payload = step_fetch_data payload ∷ step_compute payload ∷ []

  -- `result_a, result_b = …` and the dictionary of both.
  abbrev pub result_of : List Json → Json
  result_of (a ∷ b ∷ []) = obj (fields (("fetch", a) ∷ ("compute", b) ∷ []))
  result_of _ = null

  -- `gather` returns both results, in their order, after the longer of the two sleeps, and they are
  -- the result of the job.
  steps_gathered :
      (payload : Dict Json)
      → (gather (steps payload) ≡ (returned (results (steps payload)), 1000))
        × (result_of (results (steps payload)) ≡ async_result t payload)
  steps_gathered payload = (gather-Returns (steps payload) ((_, refl), ((_, refl), tt)), refl)
