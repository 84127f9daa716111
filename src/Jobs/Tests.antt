-- ===== src/Jobs/Tests.antt =====
-- Jobs that run side by side, and the theorems at concrete inputs.
use fastapi_project.Jobs.Termination.{IsOver, run_ends}
use fastapi_project.Prelude.{ℕ, ◌≡◌, refl, true, false, List, [], ◌∷◌, arith}
use fastapi_project.Python.{value_error, cancelled_error, raised, done}
use fastapi_project.Dict
use fastapi_project.Dict.{Dict}
use fastapi_project.Jobs.{
  over, no_jobs, new_job, submit_job, Texts, Resume, async_result, sync_result, started, completed,
  advance_task, advance,
}
use fastapi_project.Jobs.Lifecycle.{World, start, Step, submits, resumes, here, next}
use fastapi_project.Jobs.Moves.{Moved, Step-Moved}
use fastapi_project.Jobs.Routes.{JobRequest, to_response, post_job, get_job_status}
use fastapi_project.Jobs.Completion.{
  Action, submit, resume, only, act, run, run_view, view, view-run,
}

jobs_defs : Unit {0}
unfolding submit_job advance post_job get_job_status to_response run act run_view advance_task
    Dict.get Dict.set
jobs_defs = tt

abbrev texts : Texts
texts = record { repr = λ d. "{}"; repr_length = λ d. 2; text_of = λ e. "error" }

abbrev at_time : ℕ → Resume
at_time now = record { now = now; outcome = done }

abbrev broken : ℕ → Resume
broken now = record { now = now; outcome = raised (value_error "x not in list") }

abbrev two_jobs : List Action
two_jobs =
    submit "a" [] false
    ∷ submit "b" [] true
    ∷ resume "a" (at_time 1)
    ∷ resume "b" (at_time 2)
    ∷ resume "b" (at_time 2)
    ∷ resume "a" (at_time 3)
    ∷ resume "b" (at_time 4)
    ∷ resume "b" (at_time 5)
    ∷ resume "a" (at_time 5)
    ∷ resume "b" (at_time 6)
    ∷ []

abbrev lost_broadcast : List Action
lost_broadcast =
    submit "a" [] false
    ∷ resume "a" (at_time 1)
    ∷ resume "a" (at_time 3)
    ∷ resume "a" (broken 5)
    ∷ []

two_jobs_outcome :
    Dict.values (run texts two_jobs no_jobs).job_status_store
    ≡ completed (async_result texts []) 3 (started 1 (new_job "a"))
      ∷ completed (sync_result texts []) 6 (started 5 (new_job "b"))
      ∷ []
unfolding jobs_defs
two_jobs_outcome = refl

view-run_example :
    view texts "b" (run texts two_jobs no_jobs)
    ≡ run_view texts (only "b" two_jobs) (view texts "b" no_jobs)
view-run_example = view-run texts "b" two_jobs no_jobs

abbrev submitted : World
submitted = record { jobs = submit_job "a" [] false no_jobs; clock = 0 }

abbrev begun : World
begun = record { jobs = advance texts "a" (at_time 1) submitted.jobs; clock = 1 }

submission : Step texts start submitted
unfolding Dict.get
submission = submits "a" [] false start refl

beginning : Step texts submitted begun
beginning = resumes "a" (at_time 1) submitted (omega arith)

Step-Moved_example :
    Moved (Dict.get "a" submitted.jobs.job_status_store) (Dict.get "a" begun.jobs.job_status_store)
Step-Moved_example = Step-Moved texts "a" (next here submission) beginning

abbrev request : JobRequest
request = record { payload = []; sync = true }

-- The shutdown cancels the await of the thread of "b" while it is asleep, and the thread goes on.
abbrev cancelled : ℕ → Resume
cancelled now = record { now = now; outcome = raised cancelled_error }

abbrev cancelled_thread : List Action
cancelled_thread =
    submit "b" [] true
    ∷ resume "b" (at_time 1)
    ∷ resume "b" (at_time 2)
    ∷ resume "b" (at_time 2)
    ∷ resume "b" (at_time 3)
    ∷ resume "b" (cancelled 4)
    ∷ resume "b" (at_time 5)
    ∷ []

cancelled_thread_outcome : run texts cancelled_thread no_jobs ≡ record {
  job_status_store = ("b", completed (sync_result texts []) 5 (started 3 (new_job "b"))) ∷ [];
  tasks = ("b", record { payload = []; sync = true; phase = over (raised cancelled_error) }) ∷ [];
}
unfolding jobs_defs
cancelled_thread_outcome = refl

-- Where it is cancelled before there is a thread, the job stays pending.
cancelled_early_outcome :
    Dict.values
      (run texts
        (submit "b" [] true
          ∷ resume "b" (at_time 1)
          ∷ resume "b" (cancelled 2)
          ∷ resume "b" (at_time 3)
          ∷ [])
        no_jobs).job_status_store
    ≡ new_job "b" ∷ []
unfolding jobs_defs
cancelled_early_outcome = refl

-- Job "a" is at its end after its three segments.
run_ends_example : IsOver (Dict.get "a" (run texts two_jobs no_jobs).tasks)
run_ends_example =
    run_ends texts "a" [] false two_jobs
      (resume "a" (at_time 1) ∷ resume "a" (at_time 3) ∷ resume "a" (at_time 5) ∷ []) no_jobs refl
      (tt, (tt, (tt, tt))) (omega arith)
