-- ===== src/Jobs/Entries/View.antt =====
-- fastapi_app/core/jobs.py: the dictionaries are the records, written out.
use fastapi_project.Prelude.{
  ℕ, String, ◌≡◌, refl, ap, ◌∙◌, Option, none, some, List, [], ◌∷◌, Bool-cases, Option-cases, inl,
  inr,
}
use fastapi_project.Python.{Exn, is_exception, returned, raised, Await}
use mathlib.Core.Option
use fastapi_project.Dict
use fastapi_project.Dict.{Dict, map_values, get-map_values, set-map_values}
use fastapi_project.Json.{Json, str}
use fastapi_project.Jobs.{
  new_job, JobStatus, Job, Phase, queued, gathering, broadcasting, handed, threaded, entering,
  blocking, over, started, cancels, first_segment, slept, Task, JobsState, submit_job, Texts,
  Resume, segment, on_error, run_segment, advance,
}
use fastapi_project.Jobs.Routes.{status_text}
use fastapi_project.Jobs.Completion.{Action, submit, resume, act, run}
use fastapi_project.Jobs.Entries.{
  json, time_or_none, Entry, Store, start_entry, enter_entry, begin_entry, first_segment_entry,
  slept_entry, update_entry, error_entry, segment_entry, run_entry, advance_entry, act_entry,
  run_entries,
}

-- The dictionary of a job.
abbrev pub entry_of : Job → Entry
entry_of j =
    ("job_id", json (str j.job_id))
    ∷ ("status", json (str (status_text j.status)))
    ∷ ("result", json j.result)
    ∷ ("started_at", time_or_none j.started_at)
    ∷ ("finished_at", time_or_none j.finished_at)
    ∷ []

abbrev pub store_of : JobsState → Store
store_of s = record { job_status_store = map_values entry_of s.job_status_store; tasks = s.tasks }

update_entry-entry_of :
    (status : JobStatus) (result : Json) (now : ℕ) (j : Job)
    → update_entry (status_text status) result now (entry_of j)
      ≡ entry_of (record j { status = status; result = result; finished_at = some now })
unfolding update_entry Dict.merge Dict.set
update_entry-entry_of status result now j = refl

start_entry-entry_of : (now : ℕ) (j : Job) → start_entry now (entry_of j) ≡ entry_of (started now j)
unfolding start_entry enter_entry begin_entry Dict.set
start_entry-entry_of now j = refl

abbrev on_view : Phase × Job → Phase × Entry
on_view (p, j) = (p, entry_of j)

module _ (t : Texts) where
  error_entry-on_error :
      (e : Exn) (now : ℕ) (j : Job)
      → error_entry t e now (entry_of j) ≡ on_view (on_error t e now j)
  unfolding error_entry on_error Dict.merge Dict.set
  error_entry-on_error e now j = elim (Bool-cases (is_exception e)) [
    | inl caught ↦ rw caught refl
    | inr other ↦ rw other refl
  ]

  slept_entry-slept :
      (a : Option Exn) (k : Task) (now : ℕ) (out : Await) (j : Job)
      → let r : Resume = record { now = now; outcome = out } in
        slept_entry t a k r (entry_of j) ≡ on_view (slept t a k r j)
  unfolding slept_entry slept Dict.merge Dict.set
  slept_entry-slept a k now (returned _) j = refl
  slept_entry-slept a k now (raised e) j = elim (Bool-cases (is_exception e)) [
    | inl caught ↦ rw caught refl
    | inr other ↦ rw other refl
  ]

  segment_at :
      (p : Phase) (k : Task) (now : ℕ) (out : Await) (j : Job)
      → let r : Resume = record { now = now; outcome = out } in
        segment_entry t p k r (entry_of j) ≡ on_view (segment t p k r j)
  unfolding segment_entry segment first_segment_entry first_segment start_entry enter_entry
      begin_entry Dict.set Dict.merge
  segment_at queued k now out j = elim (Bool-cases k.sync) [
    | inl thread ↦ rw (thread, segment_entry, segment) refl
    | inr coroutine ↦ rw (coroutine, segment_entry, segment) refl
  ]
  segment_at gathering k now (returned _) j = refl
  segment_at gathering k now (raised e) j = error_entry-on_error e now j
  segment_at broadcasting k now (returned _) j = refl
  segment_at broadcasting k now (raised e) j = error_entry-on_error e now j
  segment_at handed k now out j = elim (Option-cases (cancels out)) [
    | inl free ↦ rw (free, segment_entry, segment) refl
    | inr (e, cancelled) ↦ rw (cancelled, segment_entry, segment) refl
  ]
  segment_at (threaded none) k now out j = elim (Option-cases (cancels out)) [
    | inl free ↦ rw (free, segment_entry, segment) refl
    | inr (e, cancelled) ↦ rw (cancelled, segment_entry, segment) refl
  ]
  segment_at (threaded (some x)) k now out j = refl
  segment_at (entering none) k now out j = elim (Option-cases (cancels out)) [
    | inl free ↦ rw (free, segment_entry, segment) refl
    | inr (e, cancelled) ↦ rw (cancelled, segment_entry, segment) refl
  ]
  segment_at (entering (some x)) k now out j = refl
  segment_at (blocking none) k now out j = elim (Option-cases (cancels out)) [
    | inl free ↦ rw (free, segment_entry, segment) (slept_entry-slept none k now out j)
    | inr (e, cancelled) ↦ rw (cancelled, segment_entry, segment) refl
  ]
  segment_at (blocking (some x)) k now out j = slept_entry-slept (some x) k now out j
  segment_at (over was) k now out j = refl

  run_entry-run_segment :
      (job_id : String) (k : Task) (o : Option Job) (r : Resume) (s : JobsState)
      → run_entry t job_id k (Option.map entry_of o) r (store_of s)
        ≡ store_of (run_segment t job_id k o r s)
  unfolding run_entry run_segment
  run_entry-run_segment job_id k none r s = refl
  run_entry-run_segment job_id k (some j) r s =
      let j' : Job = (segment t k.phase k r j).1 in
      rw (segment_at k.phase k r.now r.outcome j) (
        ap
          (λ d. record {
            job_status_store = d;
            tasks = Dict.set job_id (record k { phase = (segment t k.phase k r j).0 }) s.tasks;
          })
          (set-map_values entry_of job_id j' s.job_status_store))

  advance_entry-advance :
      (job_id : String) (r : Resume) (s : JobsState)
      → advance_entry t job_id r (store_of s) ≡ store_of (advance t job_id r s)
  unfolding advance_entry advance
  advance_entry-advance job_id r s = elim (Option-cases (Dict.get job_id s.tasks)) [
    | inl gone ↦ rw (gone, advance_entry, advance) refl
    | inr (k, found) ↦
        rw (found, advance_entry, advance)
          (rw (get-map_values entry_of job_id s.job_status_store)
            (run_entry-run_segment job_id k (Dict.get job_id s.job_status_store) r s))
  ]

  act_entry-act : (a : Action) (s : JobsState) → act_entry t a (store_of s) ≡ store_of (act t a s)
  unfolding act_entry act submit_job
  act_entry-act (submit job_id payload sync) s =
      ap
        (λ d. record {
          job_status_store = d;
          tasks =
              Dict.set job_id (record { payload = payload; sync = sync; phase = queued }) s.tasks;
        })
        (set-map_values entry_of job_id (new_job job_id) s.job_status_store)
  act_entry-act (resume job_id r) s = advance_entry-advance job_id r s

  -- The dictionaries that the code writes key by key are those of the records: after any actions,
  -- from any store of such dictionaries.
  pub run_entries-run :
      (actions : List Action) (s : JobsState)
      → run_entries t actions (store_of s) ≡ store_of (run t actions s)
  unfolding run_entries run
  run_entries-run [] s = refl
  run_entries-run (a ∷ actions) s =
      ap (run_entries t actions) (act_entry-act a s) ∙ run_entries-run actions (act t a s)
