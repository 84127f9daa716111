-- ===== src/Jobs.antt =====
-- fastapi_app/core/jobs.py, fastapi_app/routers/jobs.py, fastapi_app/models/job.py: background
-- jobs. `job_status_store` is shared by the routes and by the tasks that run the jobs. A task is
-- described by the await at which it stands, and each of its segments between two awaits is one
-- step, so that the steps of different tasks interleave in any order. A worker thread interleaves at
-- each of its writes to the store; a call of `dict.update` is one write.
pub mod Lifecycle
pub mod Moves
pub mod Termination
pub mod Timing
pub mod Completion
pub mod Routes
pub mod Entries
mod Tests
use Prim.Native.String
use fastapi_project.Prelude.{
  ℕ, String, Bool, true, false, Option, none, some, List, [], ◌∷◌, if◌then◌else◌,
}
use fastapi_project.Python.{Exn, is_exception, key_error, Outcome, returned, raised, Await}
use fastapi_project.Python.Int.{pos}
use fastapi_project.Dict
use fastapi_project.Dict.{Dict}
use fastapi_project.Json.{Json, null, int, str, obj, fields}

pub data JobStatus : Type 0 where
  pending running finished failed : JobStatus

-- An entry of `job_status_store`; the source writes "done" for `finished`.
pub record Job : Type 0 where
  pub job_id : String
  pub status : JobStatus
  pub result : Json
  pub started_at : Option ℕ
  pub finished_at : Option ℕ

-- Where the code of a job stands. `dispatch_job` has not begun, or `_async_job` is in `asyncio.gather`
-- or in `broadcast_ws`; or `_blocking_job` waits for a thread, has one but has not written in it,
-- stands between its two first writes, or in `time.sleep`. With the last three stands the cancellation
-- that has ended the await of `asyncio.to_thread`, if there was one: the thread goes on. At the end
-- stands how the task ended.
pub data Phase : Type 0 where
  queued gathering broadcasting handed : Phase
  threaded entering blocking : Option Exn → Phase
  over : Outcome (Unit {0}) → Phase

pub record Task : Type 0 where
  pub payload : Dict Json
  pub sync : Bool
  pub phase : Phase

pub record JobsState : Type 0 where
  pub job_status_store : Dict Job
  pub tasks : Dict Task

abbrev pub no_jobs : JobsState
no_jobs = record { job_status_store = []; tasks = [] }

abbrev pub new_job : String → Job
new_job job_id = record {
  job_id = job_id;
  status = pending;
  result = null;
  started_at = none;
  finished_at = none;
}

-- `submit_job`: the entry, and the task that FastAPI runs after the response.
unfoldable pub submit_job : String → Dict Json → Bool → JobsState → JobsState
submit_job job_id payload sync s = record {
  job_status_store = Dict.set job_id (new_job job_id) s.job_status_store;
  tasks = Dict.set job_id (record { payload = payload; sync = sync; phase = queued }) s.tasks;
}

-- What the job's code takes from Python: `str(payload)`, its length, and `str(exc)`.
pub record Texts : Type 0 where
  pub repr : Dict Json → String
  pub repr_length : Dict Json → ℕ
  pub text_of : Exn → String

-- How a task or its thread goes on: the time that it reads, and how its await or its sleep ended. What
-- is no `Exception` is the cancellation of the await of a thread.
pub record Resume : Type 0 where
  pub now : ℕ
  pub outcome : Await

abbrev pub cancels : Await → Option Exn
cancels (returned _) = none
cancels (raised e) = if is_exception e then none else some e

-- How the task ends whose thread has ended: as the thread did, unless it was cancelled before.
abbrev pub ended : Option Exn → Outcome (Unit {0}) → Outcome (Unit {0})
ended none out = out
ended (some e) out = raised e

-- The two first writes, which are one step of the event loop, and two of a thread.
abbrev pub entered : Job → Job
entered j = record j { status = running }

abbrev pub begun : ℕ → Job → Job
begun now j = record j { started_at = some now }

abbrev pub started : ℕ → Job → Job
started now j = record j { status = running; started_at = some now }

abbrev pub completed : Json → ℕ → Job → Job
completed result now j = record j { status = finished; result = result; finished_at = some now }

abbrev pub crashed : String → ℕ → Job → Job
crashed text now j = record j { status = failed; result = str text; finished_at = some now }

module _ (t : Texts) where
  open t use {repr, repr_length, text_of}

  -- `{"fetch": result_a, "compute": result_b}`
  abbrev pub async_result : Dict Json → Json
  async_result payload = obj (
      fields (
        ("fetch", str (String.◌++◌ "fetched:" (repr payload)))
        ∷ ("compute", int (pos (repr_length payload)))
        ∷ []))

  abbrev pub sync_result : Dict Json → Json
  sync_result payload = str (String.◌++◌ "sync-processed:" (repr payload))

  -- `except Exception as exc`: what is no `Exception` ends the task and leaves the entry.
  on_error : Exn → ℕ → Job → Phase × Job
  on_error e now j =
      if is_exception e
      then (over (returned tt), crashed (text_of e) now j)
      else (over (raised e), j)

  first_segment : Bool → Resume → Job → Phase × Job
  first_segment true r j = (handed, j)
  first_segment false r j = (gathering, started r.now j)

  -- `_blocking_job` after its `time.sleep`: one `update`, whichever way that ended.
  slept : Option Exn → Task → Resume → Job → Phase × Job
  slept a k r j = elim r.outcome [
    | returned _ ↦ (over (ended a (returned tt)), completed (sync_result k.payload) r.now j)
    | raised e ↦
        if is_exception e
        then (over (ended a (returned tt)), crashed (text_of e) r.now j)
        else (over (ended a (raised e)), j)
  ]

  -- One segment of a job on its entry. `_async_job` stands in `gather` after the first segment, and
  -- in `broadcast_ws` after the second. `_blocking_job` has no broadcast; where its await is
  -- cancelled before it has a thread it never runs, and later it runs to its end. A cancellation
  -- after the last write, and before the await ends, is as one before that write.
  segment : Phase → Task → Resume → Job → Phase × Job
  unfolding on_error first_segment slept
  segment queued k r j = first_segment k.sync r j
  segment gathering k r j = elim r.outcome [
    | returned _ ↦ (broadcasting, completed (async_result k.payload) r.now j)
    | raised e ↦ on_error e r.now j
  ]
  segment broadcasting k r j = elim r.outcome [
    | returned _ ↦ (over (returned tt), j)
    | raised e ↦ on_error e r.now j
  ]
  segment handed k r j = elim (cancels r.outcome) [
    | none ↦ (threaded none, j)
    | some e ↦ (over (raised e), j)
  ]
  segment (threaded none) k r j = elim (cancels r.outcome) [
    | none ↦ (entering none, entered j)
    | some e ↦ (threaded (some e), j)
  ]
  segment (threaded (some e)) k r j = (entering (some e), entered j)
  segment (entering none) k r j = elim (cancels r.outcome) [
    | none ↦ (blocking none, begun r.now j)
    | some e ↦ (entering (some e), j)
  ]
  segment (entering (some e)) k r j = (blocking (some e), begun r.now j)
  segment (blocking none) k r j =
      let woken = slept none k r j in
      elim (cancels r.outcome) [ none ↦ woken | some e ↦ (blocking (some e), j) ]
  segment (blocking (some e)) k r j = slept (some e) k r j
  segment (over out) k r j = (over out, j)

  unfoldable pub advance_task : Task → Resume → Job → Task × Job
  unfolding segment
  advance_task k r j = let (p, j') = segment k.phase k r j in (record k { phase = p }, j')

  -- Without an entry every `job_status_store[job_id]` raises a KeyError, in the handler too.
  without_entry : Bool → Phase → Await → Phase
  without_entry true queued out = handed
  without_entry false queued out = over (raised key_error)
  without_entry sync gathering (returned _) = over (raised key_error)
  without_entry sync broadcasting (returned _) = over (returned tt)
  without_entry sync handed out = elim (cancels out) [
    | none ↦ threaded none
    | some e ↦ over (raised e)
  ]
  without_entry sync (threaded none) out = elim (cancels out) [
    | none ↦ over (raised key_error)
    | some e ↦ threaded (some e)
  ]
  without_entry sync (threaded (some e)) out = over (raised e)
  without_entry sync (entering none) out = elim (cancels out) [
    | none ↦ over (raised key_error)
    | some e ↦ entering (some e)
  ]
  without_entry sync (entering (some e)) out = over (raised e)
  without_entry sync (blocking none) out = elim (cancels out) [
    | none ↦ over (raised key_error)
    | some e ↦ blocking (some e)
  ]
  without_entry sync (blocking (some e)) out = over (raised e)
  without_entry sync (over was) out = over was
  without_entry sync _ (raised e) = over (raised (if is_exception e then key_error else e))

  run_segment : String → Task → Option Job → Resume → JobsState → JobsState
  unfolding advance_task without_entry
  run_segment job_id k none r s = record s {
    tasks = Dict.set job_id (record k { phase = without_entry k.sync k.phase r.outcome }) s.tasks;
  }
  run_segment job_id k (some j) r s =
      let (k', j') = advance_task k r j in
      record {
        job_status_store = Dict.set job_id j' s.job_status_store;
        tasks = Dict.set job_id k' s.tasks;
      }

  -- One step of the task of a job; there is nothing to run for another identifier.
  unfoldable pub advance : String → Resume → JobsState → JobsState
  unfolding run_segment
  advance job_id r s = elim (Dict.get job_id s.tasks) [
    | none ↦ s
    | some k ↦ run_segment job_id k (Dict.get job_id s.job_status_store) r s
  ]
