-- ===== src/Jobs/Routes.antt =====
-- fastapi_app/routers/jobs.py: the routes over the store, and the response model of
-- fastapi_app/models/job.py.
use fastapi_project.Prelude.{
  ℕ, String, ◌≡◌, refl, Bool, Option, none, some, List, map, ◌==◌, if◌then◌else◌, arith, ◌↔◌,
}
use fastapi_project.Python.{Outcome, returned, raised, http_exception, key_error}
use fastapi_project.Dict
use fastapi_project.Dict.{Dict, get-set, get-set_self}
use fastapi_project.Json.{Json}
use fastapi_project.Jobs.{
  JobStatus, pending, running, finished, failed, Job, JobsState, new_job, submit_job,
}

pub record JobRequest : Type 0 where
  pub payload : Dict Json
  pub sync : Bool

pub record JobStatusResponse : Type 0 where
  pub job_id : String
  pub status : String
  pub result : Json
  pub started_at : Option ℕ
  pub finished_at : Option ℕ

abbrev pub status_text : JobStatus → String
status_text pending = "pending"
status_text running = "running"
status_text finished = "done"
status_text failed = "failed"

unfoldable pub to_response : Job → JobStatusResponse
to_response j = record {
  job_id = j.job_id;
  status = status_text j.status;
  result = j.result;
  started_at = j.started_at;
  finished_at = j.finished_at;
}

pub data Reply : Type 0 where
  one : (status : ℕ) → JobStatusResponse → Reply
  many : (status : ℕ) → List JobStatusResponse → Reply

-- `submit_job` up to its return: the entry is read back from the store.
abbrev read_back : Option Job → Outcome Reply
read_back none = raised key_error
read_back (some j) = returned (one 202 (to_response j))

unfoldable pub post_job : String → JobRequest → JobsState → Outcome Reply × JobsState
unfolding submit_job
post_job job_id body s =
    let s' = submit_job job_id body.payload body.sync s in
    (read_back (Dict.get job_id s'.job_status_store), s')

unfoldable pub list_jobs : JobsState → Outcome Reply
list_jobs s = returned (many 200 (map to_response (Dict.values s.job_status_store)))

-- An entry is never an empty dictionary, so it counts as true.
unfoldable pub get_job_status : String → JobsState → Outcome Reply
get_job_status job_id s = elim (Dict.get job_id s.job_status_store) [
  | none ↦ raised (http_exception 404 "Job not found")
  | some j ↦ returned (one 200 (to_response j))
]

-- POST answers 202 with the pending job; GET of its identifier then answers 200 with the same
-- body, and GET of any other answers as before.
pub get_job_status-post_job :
    (job_id : String) (body : JobRequest) (s : JobsState)
    → let (out, s') = post_job job_id body s in
      (out ≡ returned (one 202 (to_response (new_job job_id))))
      × ((i : String)
          → get_job_status i s' ≡ (
              if job_id == i
              then returned (one 200 (to_response (new_job job_id)))
              else get_job_status i s))
unfolding post_job get_job_status
get_job_status-post_job job_id body s = (
  rw get-set_self refl,
  λ i. ground (arith, get-set job_id i (new_job job_id) s.job_status_store),
)

-- GET answers 404 exactly for an identifier that no job has.
pub get_job_status_iff :
    (job_id : String) (s : JobsState)
    → (get_job_status job_id s ≡ raised (http_exception 404 "Job not found"))
      ↔ (Dict.get job_id s.job_status_store ≡ none)
unfolding get_job_status
get_job_status_iff job_id s = ground arith
