-- ===== src/Jobs/Entries/Responses.antt =====
-- fastapi_app/models/job.py and fastapi_app/routers/jobs.py: what is stored fits the response model.
use fastapi_project.Prelude.{String, ◌≡◌, refl, ap, ◌∙◌, Option, none, some, List, [], ◌∷◌, map}
use mathlib.Core.Option
use fastapi_project.Python.{http_exception, Outcome, returned, raised, ◌>>=◌}
use fastapi_project.Dict
use fastapi_project.Dict.{Dict, map_values, get-map_values}
use fastapi_project.Jobs.{Job, JobsState, no_jobs, Texts}
use fastapi_project.Jobs.Completion.{Action, run}
use fastapi_project.Jobs.Routes.{Reply, one, many, to_response, get_job_status, list_jobs}
use fastapi_project.Jobs.Entries.{
  no_entries, run_entries, ResponseModel, validated, answer_entry, get_entry, all_valid,
  list_entries,
}
use fastapi_project.Jobs.Entries.View.{entry_of, store_of, run_entries-run}

-- What `get_job_status` of the records answers.
abbrev answer : Option Job → Outcome Reply
answer none = raised (http_exception 404 "Job not found")
answer (some j) = returned (one 200 (to_response j))

module _ (model : ResponseModel) where
  validated-entry_of : (j : Job) → validated model (entry_of j) ≡ returned (to_response j)
  unfolding Dict.get to_response
  validated-entry_of j =
      rw (model.validate_lem (entry_of j) (to_response j) refl refl refl refl refl, validated) refl

  all_valid-entry_of :
      (jobs : Dict Job)
      → all_valid model (Dict.values (map_values entry_of jobs))
        ≡ returned (map to_response (Dict.values jobs))
  unfolding all_valid
  all_valid-entry_of [] = refl
  all_valid-entry_of ((i, j) ∷ jobs) =
      rw (validated-entry_of j, all_valid-entry_of jobs, all_valid) refl

  answer_entry-entry_of :
      (o : Option Job)
      → (answer_entry model (Option.map entry_of o) >>= λ r. returned (one 200 r)) ≡ answer o
  unfolding answer_entry
  answer_entry-entry_of none = refl
  answer_entry-entry_of (some j) = ap (λ x. x >>= λ r. returned (one 200 r)) (validated-entry_of j)

  get_entry-store_of :
      (i : String) (s : JobsState)
      → (get_entry model i (store_of s) >>= λ r. returned (one 200 r)) ≡ get_job_status i s
  unfolding get_entry get_job_status
  get_entry-store_of i s =
      ap (λ o. answer_entry model o >>= λ r. returned (one 200 r))
        (get-map_values entry_of i s.job_status_store)
      ∙ answer_entry-entry_of (Dict.get i s.job_status_store)

  -- Every entry that the jobs write is of the response model: whatever jobs are submitted to an
  -- empty store, and however their segments run and their awaits end, GET /jobs/{job_id} and GET
  -- /jobs never fail in the validation of what they return; they answer with the values that the
  -- typed model of the jobs gives, and with 404 exactly where that has no such job.
  pub responses_valid :
      (t : Texts) (actions : List Action) (i : String)
      → let s = run_entries t actions no_entries in
        ((get_entry model i s >>= λ r. returned (one 200 r))
          ≡ get_job_status i (run t actions no_jobs))
        × ((list_entries model s >>= λ rs. returned (many 200 rs))
            ≡ list_jobs (run t actions no_jobs))
  unfolding list_entries list_jobs
  responses_valid t actions i =
      let s = run t actions no_jobs in
      rw (run_entries-run t actions no_jobs)
        (get_entry-store_of i s, rw (all_valid-entry_of s.job_status_store) refl)
