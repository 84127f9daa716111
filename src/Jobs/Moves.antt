-- ===== src/Jobs/Moves.antt =====
-- fastapi_app/core/jobs.py: how the status of a job can change in one step of the program.
use fastapi_project.Prelude.{
  ℕ, String, ◌≡◌, ◌⊎◌, inl, inr, refl, Bool, Option, none, some, arith, ◌==◌, eq_iff, Bool-cases,
  Option-cases,
}
use fastapi_project.Dict
use fastapi_project.Dict.{Dict, get-set}
use fastapi_project.Json.{Json}
use fastapi_project.Jobs.{
  JobStatus, pending, running, finished, failed, Job, Phase, queued, gathering, broadcasting,
  handed, threaded, entering, blocking, over, first_segment, slept, Task, JobsState, submit_job,
  Texts, Resume, segment, run_segment, advance,
}
use fastapi_project.Jobs.Lifecycle.{
  World, Step, submits, resumes, Reach, FitsAt, Fits, Reach-IsLinked, IsPending,
}

-- The edges of the diagram. The last one is taken where the broadcast of a finished job raises.
abbrev pub Move : JobStatus → JobStatus → Type 0
Move s u =
    (s ≡ u)
    ⊎ ((s ≡ pending) × (u ≡ running))
    ⊎ ((s ≡ running) × (u ≡ finished))
    ⊎ ((s ≡ running) × (u ≡ failed))
    ⊎ ((s ≡ finished) × (u ≡ failed))

-- What a step may do to the entry under one identifier: add it as a pending job, or move its
-- status along an edge. It is never removed, and `job_id` never changes.
abbrev pub Moved : Option Job → Option Job → Type 0
Moved none none = Unit
Moved none (some j) = IsPending j
Moved (some j) none = ⊥
Moved (some i) (some j) = Move i.status j.status × (i.job_id ≡ j.job_id)

Moved-refl : (o : Option Job) → Moved o o
Moved-refl none = tt
Moved-refl (some j) = (inl refl, refl)

module _ (t : Texts) where
  segment-Move :
      (p : Phase) (k : Task) (r : Resume) (j : Job) (c : ℕ)
      → FitsAt c j k.sync p
      → Move j.status (segment t p k r j).1.status × (j.job_id ≡ (segment t p k r j).1.job_id)
  unfolding segment first_segment slept
  segment-Move queued k r j c f = ground arith
  segment-Move gathering k r j c f = ground arith
  segment-Move broadcasting k r j c f = ground arith
  segment-Move handed k r j c f = ground arith
  segment-Move (threaded none) k r j c f = ground arith
  segment-Move (threaded (some e)) k r j c f = ground arith
  segment-Move (entering none) k r j c f = ground arith
  segment-Move (entering (some e)) k r j c f = ground arith
  segment-Move (blocking none) k r j c f = ground arith
  segment-Move (blocking (some e)) k r j c f = ground arith
  segment-Move (over out) k r j c f = (inl refl, refl)

  run_segment-Moved :
      (job_id i : String) (k : Task) (o : Option Job) (r : Resume) (c : ℕ) (s : JobsState)
      → Dict.get job_id s.job_status_store ≡ o
      → Fits c o (some k)
      → Moved
          (Dict.get i s.job_status_store)
          (Dict.get i (run_segment t job_id k o r s).job_status_store)
  unfolding run_segment
  run_segment-Moved job_id i k none r c s e f = elim f [ ]
  run_segment-Moved job_id i k (some j) r c s e f = rw get-set (elim (Bool-cases (job_id == i)) [
    | inl same ↦ rw (same, ← (eq_iff job_id i).0 same, e) (segment-Move k.phase k r j c f)
    | inr other ↦ rw other (Moved-refl _)
  ])

  advance-Moved :
      (job_id i : String) (r : Resume) (c : ℕ) (s : JobsState)
      → Fits c (Dict.get job_id s.job_status_store) (Dict.get job_id s.tasks)
      → Moved (Dict.get i s.job_status_store) (Dict.get i (advance t job_id r s).job_status_store)
  unfolding advance
  advance-Moved job_id i r c s f = elim (Option-cases (Dict.get job_id s.tasks)) [
    | inl idle ↦ rw (idle, advance) (Moved-refl _)
    | inr (k, found) ↦
        rw (found, advance) (run_segment-Moved job_id i k _ r c s refl (rw found at f))
  ]

  submit_job-Moved :
      (job_id i : String) (payload : Dict Json) (sync : Bool) (s : JobsState)
      → Dict.get job_id s.job_status_store ≡ none
      → Moved
          (Dict.get i s.job_status_store)
          (Dict.get i (submit_job job_id payload sync s).job_status_store)
  unfolding submit_job
  submit_job-Moved job_id i payload sync s fresh = rw get-set (elim (Bool-cases (job_id == i)) [
    | inl same ↦ rw (same, ← (eq_iff job_id i).0 same, fresh) (ground arith)
    | inr other ↦ rw other (Moved-refl _)
  ])

  -- From any reachable state a step of the program adds pending jobs and moves the status of the
  -- others along the edges pending to running to done or failed, or from done to failed; it removes
  -- no job and changes no job_id.
  pub Step-Moved :
      {v w : World} (i : String)
      → Reach t v
      → Step t v w
      → Moved (Dict.get i v.jobs.job_status_store) (Dict.get i w.jobs.job_status_store)
  Step-Moved i r (submits job_id payload sync w fresh) =
      submit_job-Moved job_id i payload sync w.jobs fresh
  Step-Moved i r (resumes job_id q w h) =
      advance-Moved job_id i q w.clock w.jobs (Reach-IsLinked t r job_id)
