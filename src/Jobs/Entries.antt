-- ===== src/Jobs/Entries.antt =====
-- fastapi_app/core/jobs.py and fastapi_app/routers/jobs.py: the dictionaries that stand in
-- `job_status_store`, written key by key as the code does. The other modules of Jobs have a record
-- in the place of such a dictionary.
pub mod View
pub mod Responses
mod Tests
use fastapi_project.Prelude.{
  ℕ, ◌≡◌, String, Bool, true, false, Option, none, some, List, [], ◌∷◌, if◌then◌else◌,
}
use fastapi_project.Python.{
  Exn, is_exception, other_error, http_exception, Outcome, returned, raised,
}
use fastapi_project.Dict
use fastapi_project.Dict.{Dict}
use fastapi_project.Json.{Json, null, str}
use fastapi_project.Jobs.{
  Phase, queued, gathering, broadcasting, handed, threaded, entering, blocking, over, cancels,
  ended, Task, Texts, Resume, async_result, sync_result, without_entry,
}
use fastapi_project.Jobs.Routes.{JobStatusResponse}
use fastapi_project.Jobs.Completion.{Action, submit, resume}

-- A value under a key of an entry: of JSON, or a datetime.
pub data Value : Type 0 where
  json : Json → Value
  time : ℕ → Value

abbrev pub Entry : Type 0
Entry = Dict Value

abbrev pub text : String → Value
text t = json (str t)

pub record Store : Type 0 where
  pub job_status_store : Dict Entry
  pub tasks : Dict Task

abbrev pub no_entries : Store
no_entries = record { job_status_store = []; tasks = [] }

-- The dictionary of `submit_job`.
abbrev pub new_entry : String → Entry
new_entry job_id =
    ("job_id", text job_id)
    ∷ ("status", text "pending")
    ∷ ("result", json null)
    ∷ ("started_at", json null)
    ∷ ("finished_at", json null)
    ∷ []

unfoldable pub submit_entry : String → Dict Json → Bool → Store → Store
submit_entry job_id payload sync s = record {
  job_status_store = Dict.set job_id (new_entry job_id) s.job_status_store;
  tasks = Dict.set job_id (record { payload = payload; sync = sync; phase = queued }) s.tasks;
}

-- `["status"] = "running"`
unfoldable pub enter_entry : Entry → Entry
enter_entry e = Dict.set "status" (text "running") e

-- `["started_at"] = …`
unfoldable pub begin_entry : ℕ → Entry → Entry
begin_entry now e = Dict.set "started_at" (time now) e

unfoldable pub start_entry : ℕ → Entry → Entry
unfolding enter_entry begin_entry
start_entry now e = begin_entry now (enter_entry e)

-- `.update(status=…, result=…, finished_at=…)`
unfoldable pub update_entry : String → Json → ℕ → Entry → Entry
update_entry status result now e =
    Dict.merge e
      (("status", text status) ∷ ("result", json result) ∷ ("finished_at", time now) ∷ [])

module _ (t : Texts) where
  unfoldable pub error_entry : Exn → ℕ → Entry → Phase × Entry
  unfolding update_entry
  error_entry e now entry =
      if is_exception e
      then (over (returned tt), update_entry "failed" (str (t.text_of e)) now entry)
      else (over (raised e), entry)

  unfoldable pub first_segment_entry : Bool → Resume → Entry → Phase × Entry
  unfolding start_entry
  first_segment_entry true r e = (handed, e)
  first_segment_entry false r e = (gathering, start_entry r.now e)

  unfoldable pub slept_entry : Option Exn → Task → Resume → Entry → Phase × Entry
  unfolding update_entry
  slept_entry a k r e = elim r.outcome [
    | returned _ ↦
        (over (ended a (returned tt)), update_entry "done" (sync_result t k.payload) r.now e)
    | raised x ↦
        if is_exception x
        then (over (ended a (returned tt)), update_entry "failed" (str (t.text_of x)) r.now e)
        else (over (ended a (raised x)), e)
  ]

  -- The segments of `_async_job` and `_blocking_job`.
  unfoldable pub segment_entry : Phase → Task → Resume → Entry → Phase × Entry
  unfolding first_segment_entry slept_entry update_entry error_entry enter_entry begin_entry
  segment_entry queued k r e = first_segment_entry k.sync r e
  segment_entry gathering k r e = elim r.outcome [
    | returned _ ↦ (broadcasting, update_entry "done" (async_result t k.payload) r.now e)
    | raised x ↦ error_entry x r.now e
  ]
  segment_entry broadcasting k r e = elim r.outcome [
    | returned _ ↦ (over (returned tt), e)
    | raised x ↦ error_entry x r.now e
  ]
  segment_entry handed k r e = elim (cancels r.outcome) [
    | none ↦ (threaded none, e)
    | some x ↦ (over (raised x), e)
  ]
  segment_entry (threaded none) k r e = elim (cancels r.outcome) [
    | none ↦ (entering none, enter_entry e)
    | some x ↦ (threaded (some x), e)
  ]
  segment_entry (threaded (some x)) k r e = (entering (some x), enter_entry e)
  segment_entry (entering none) k r e = elim (cancels r.outcome) [
    | none ↦ (blocking none, begin_entry r.now e)
    | some x ↦ (entering (some x), e)
  ]
  segment_entry (entering (some x)) k r e = (blocking (some x), begin_entry r.now e)
  segment_entry (blocking none) k r e =
      let woken = slept_entry none k r e in
      elim (cancels r.outcome) [ none ↦ woken | some x ↦ (blocking (some x), e) ]
  segment_entry (blocking (some x)) k r e = slept_entry (some x) k r e
  segment_entry (over out) k r e = (over out, e)

  unfoldable pub run_entry : String → Task → Option Entry → Resume → Store → Store
  unfolding segment_entry without_entry
  run_entry job_id k none r s = record s {
    tasks = Dict.set job_id (record k { phase = without_entry t k.sync k.phase r.outcome }) s.tasks;
  }
  run_entry job_id k (some e) r s =
      let (p, e') = segment_entry k.phase k r e in
      record {
        job_status_store = Dict.set job_id e' s.job_status_store;
        tasks = Dict.set job_id (record k { phase = p }) s.tasks;
      }

  unfoldable pub advance_entry : String → Resume → Store → Store
  unfolding run_entry
  advance_entry job_id r s = elim (Dict.get job_id s.tasks) [
    | none ↦ s
    | some k ↦ run_entry job_id k (Dict.get job_id s.job_status_store) r s
  ]

  unfoldable pub act_entry : Action → Store → Store
  unfolding submit_entry
  act_entry (submit job_id payload sync) s = submit_entry job_id payload sync s
  act_entry (resume job_id r) s = advance_entry job_id r s

  unfoldable pub run_entries : List Action → Store → Store
  run_entries [] s = s
  run_entries (a ∷ actions) s = run_entries actions (act_entry a s)

abbrev pub time_or_none : Option ℕ → Value
time_or_none none = json null
time_or_none (some n) = time n

-- FastAPI validates what a route returns by the response model. A dictionary that has values of the
-- declared types under the names of the fields is valid, and gives the model with these values.
pub record ResponseModel : Type 0 where
  pub validate : Entry → Option JobStatusResponse
  pub validate_lem :
      (e : Entry) (r : JobStatusResponse)
      → Dict.get "job_id" e ≡ some (text r.job_id)
      → Dict.get "status" e ≡ some (text r.status)
      → Dict.get "result" e ≡ some (json r.result)
      → Dict.get "started_at" e ≡ some (time_or_none r.started_at)
      → Dict.get "finished_at" e ≡ some (time_or_none r.finished_at)
      → validate e ≡ some r

-- Where the validation fails, FastAPI raises an error of its own.
module _ (model : ResponseModel) where
  open model use {validate}

  abbrev pub validated : Entry → Outcome JobStatusResponse
  validated e = elim (validate e) [
    | none ↦ raised (other_error "ResponseValidationError")
    | some r ↦ returned r
  ]

  abbrev not_empty : Entry → Bool
  not_empty [] = false
  not_empty (x ∷ e) = true

  -- `if not job` holds of a missing entry and of an empty one.
  unfoldable pub answer_entry : Option Entry → Outcome JobStatusResponse
  answer_entry none = raised (http_exception 404 "Job not found")
  answer_entry (some e) =
      if not_empty e then validated e else raised (http_exception 404 "Job not found")

  -- `get_job_status`
  unfoldable pub get_entry : String → Store → Outcome JobStatusResponse
  unfolding answer_entry
  get_entry job_id s = answer_entry (Dict.get job_id s.job_status_store)

  pub all_valid : List Entry → Outcome (List JobStatusResponse)
  all_valid [] = returned []
  all_valid (e ∷ es) =
      let rest = all_valid es in
      elim (validated e) [
        | raised x ↦ raised x
        | returned r ↦ elim rest [ raised x ↦ raised x | returned rs ↦ returned (r ∷ rs) ]
      ]

  -- `list_jobs`
  unfoldable pub list_entries : Store → Outcome (List JobStatusResponse)
  unfolding all_valid
  list_entries s = all_valid (Dict.values s.job_status_store)
