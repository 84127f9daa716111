-- ===== src/Jobs/Lifecycle.antt =====
-- fastapi_app/core/jobs.py and fastapi_app/routers/jobs.py: every interleaving of submissions and
-- of steps of the tasks, and what holds of the store at each moment.
use fastapi_project.Prelude.{
  ℕ, String, ◌≤◌, ◌≡◌, ◌⊎◌, inl, inr, Bool, true, false, Option, none, some, arith, ◌==◌,
  Bool-cases, Option-cases,
}
use fastapi_project.Python.{Exn, is_exception, returned, raised}
use fastapi_project.Dict
use fastapi_project.Dict.{Dict, get-set}
use fastapi_project.Json.{Json, null}
use fastapi_project.Jobs.{
  pending, running, finished, failed, Job, Phase, queued, gathering, broadcasting, handed, threaded,
  entering, blocking, over, first_segment, slept, Task, JobsState, no_jobs, submit_job, Texts,
  Resume, segment, run_segment, advance,
}

-- The state and the latest time that was read.
pub record World : Type 0 where
  pub jobs : JobsState
  pub clock : ℕ

abbrev pub start : World
start = record { jobs = no_jobs; clock = 0 }

-- A submission takes an identifier that no job has, as `uuid4` gives it; a task reads a time that
-- is not before the latest one.
pub data Step (t : Texts) : World → World → Type 0 where
  submits :
      (job_id : String) (payload : Dict Json) (sync : Bool) (w : World)
      → Dict.get job_id w.jobs.job_status_store ≡ none
      → Step t w (record w { jobs = submit_job job_id payload sync w.jobs })
  resumes :
      (job_id : String) (r : Resume) (w : World)
      → w.clock ≤ r.now
      → Step t w (record { jobs = advance t job_id r w.jobs; clock = r.now })

pub data Reach (t : Texts) : World → Type 0 where
  here : Reach t start
  next : {v w : World} → Reach t v → Step t v w → Reach t w

-- The job has been started by `clock`.
abbrev pub Begun : ℕ → Option ℕ → Type 0
Begun clock none = ⊥
Begun clock (some s) = s ≤ clock

-- It has been started, and later finished, by `clock`.
abbrev pub Ended : ℕ → Option ℕ → Option ℕ → Type 0
Ended clock (some s) (some f) = (s ≤ f) × (f ≤ clock)
Ended clock _ _ = ⊥

pub record IsPending (j : Job) : Type 0 where
  pub status : j.status ≡ pending
  pub result : j.result ≡ null
  pub started_at : j.started_at ≡ none
  pub finished_at : j.finished_at ≡ none

pub record IsRunning (clock : ℕ) (j : Job) : Type 0 where
  pub status : j.status ≡ running
  pub result : j.result ≡ null
  pub started_at : Begun clock j.started_at
  pub finished_at : j.finished_at ≡ none

pub record IsDone (clock : ℕ) (j : Job) : Type 0 where
  pub status : j.status ≡ finished
  pub times : Ended clock j.started_at j.finished_at

pub record IsFailed (clock : ℕ) (j : Job) : Type 0 where
  pub status : j.status ≡ failed
  pub times : Ended clock j.started_at j.finished_at

-- The status is written, and the start is not.
pub record IsEntered (j : Job) : Type 0 where
  pub status : j.status ≡ running
  pub result : j.result ≡ null
  pub started_at : j.started_at ≡ none
  pub finished_at : j.finished_at ≡ none

-- What has ended an await while the job goes on is no `Exception`.
abbrev pub IsCancelled : Option Exn → Type 0
IsCancelled none = Unit
IsCancelled (some e) = is_exception e ≡ false

-- What the entry of a job is while its code stands at a phase. A task that is over has raised nothing,
-- or something that is no `Exception`, a cancellation: this leaves the entry of a coroutine as it was,
-- and that of a thread either before its first write or after its last; the third case is a thread
-- that something else than an `Exception` has ended in its sleep.
abbrev pub Left : Bool → ℕ → Job → Type 0
Left false clock j = IsRunning clock j ⊎ IsDone clock j
Left true clock j = IsPending j ⊎ (IsDone clock j ⊎ (IsFailed clock j ⊎ IsRunning clock j))

abbrev pub FitsAt : ℕ → Job → Bool → Phase → Type 0
FitsAt clock j sync queued = IsPending j
FitsAt clock j sync gathering = IsRunning clock j × (sync ≡ false)
FitsAt clock j sync broadcasting = IsDone clock j × (sync ≡ false)
FitsAt clock j sync handed = IsPending j × (sync ≡ true)
FitsAt clock j sync (threaded a) = IsPending j × (sync ≡ true) × IsCancelled a
FitsAt clock j sync (entering a) = IsEntered j × (sync ≡ true) × IsCancelled a
FitsAt clock j sync (blocking a) = IsRunning clock j × (sync ≡ true) × IsCancelled a
FitsAt clock j sync (over (returned _)) = IsDone clock j ⊎ IsFailed clock j
FitsAt clock j sync (over (raised e)) = (is_exception e ≡ false) × Left sync clock j

abbrev pub Fits : ℕ → Option Job → Option Task → Type 0
Fits clock none none = Unit
Fits clock (some j) (some k) = FitsAt clock j k.sync k.phase
Fits clock _ _ = ⊥

abbrev pub IsLinked : World → Type 0
IsLinked w =
    (job_id : String)
    → Fits w.clock (Dict.get job_id w.jobs.job_status_store) (Dict.get job_id w.jobs.tasks)

-- As time goes on, an entry fits as before.
later_Begun : (c d : ℕ) (s : Option ℕ) → c ≤ d → Begun c s → Begun d s
later_Begun c d none h b = b
later_Begun c d (some s) h b = omega arith

later_Ended : (c d : ℕ) (s f : Option ℕ) → c ≤ d → Ended c s f → Ended d s f
later_Ended c d s f h b = ground arith

later_FitsAt :
    (c d : ℕ) (j : Job) (sync : Bool) (p : Phase) → c ≤ d → FitsAt c j sync p → FitsAt d j sync p
later_FitsAt c d j sync p h f =
    ground (arith, later_Begun c d j.started_at h, later_Ended c d j.started_at j.finished_at h)

later_Fits : (c d : ℕ) (o : Option Job) (k : Option Task) → c ≤ d → Fits c o k → Fits d o k
later_Fits c d none none h f = f
later_Fits c d none (some k) h f = elim f [ ]
later_Fits c d (some j) none h f = elim f [ ]
later_Fits c d (some j) (some k) h f = later_FitsAt c d j k.sync k.phase h f

module _ (t : Texts) where
  segment-FitsAt :
      (p : Phase) (k : Task) (r : Resume) (j : Job) (c : ℕ)
      → c ≤ r.now
      → FitsAt c j k.sync p
      → let (p', j') = segment t p k r j in FitsAt r.now j' k.sync p'
  unfolding segment first_segment slept
  segment-FitsAt queued k r j c h f = ground arith
  segment-FitsAt gathering k r j c h f = ground arith
  segment-FitsAt broadcasting k r j c h f =
      ground (arith, later_FitsAt c r.now j k.sync broadcasting h f)
  segment-FitsAt handed k r j c h f = ground arith
  segment-FitsAt (threaded none) k r j c h f = ground arith
  segment-FitsAt (threaded (some e)) k r j c h f = ground arith
  segment-FitsAt (entering none) k r j c h f = ground arith
  segment-FitsAt (entering (some e)) k r j c h f = ground arith
  segment-FitsAt (blocking none) k r j c h f =
      ground (arith, later_FitsAt c r.now j k.sync (blocking none) h f)
  segment-FitsAt (blocking (some e)) k r j c h f =
      ground (arith, later_FitsAt c r.now j k.sync (blocking (some e)) h f)
  segment-FitsAt (over out) k r j c h f = later_FitsAt c r.now j k.sync (over out) h f

  -- A step of the task of one job, seen at any identifier.
  run_segment-Fits :
      (job_id i : String) (k : Task) (o : Option Job) (r : Resume) (c : ℕ) (s : JobsState)
      → c ≤ r.now
      → Fits c o (some k)
      → Fits c (Dict.get i s.job_status_store) (Dict.get i s.tasks)
      → let s' = run_segment t job_id k o r s in
        Fits r.now (Dict.get i s'.job_status_store) (Dict.get i s'.tasks)
  unfolding run_segment
  run_segment-Fits job_id i k none r c s h f g = elim f [ ]
  run_segment-Fits job_id i k (some j) r c s h f g =
      rw (get-set, get-set)
        (elim (Bool-cases (job_id == i)) [
          | inl same ↦ rw same (segment-FitsAt k.phase k r j c h f)
          | inr other ↦ rw other (later_Fits c r.now _ _ h g)
        ])

  advance-Fits :
      (job_id i : String) (r : Resume) (c : ℕ) (s : JobsState)
      → c ≤ r.now
      → Fits c (Dict.get job_id s.job_status_store) (Dict.get job_id s.tasks)
      → Fits c (Dict.get i s.job_status_store) (Dict.get i s.tasks)
      → let s' = advance t job_id r s in
        Fits r.now (Dict.get i s'.job_status_store) (Dict.get i s'.tasks)
  unfolding advance
  advance-Fits job_id i r c s h f g = elim (Option-cases (Dict.get job_id s.tasks)) [
    | inl idle ↦ rw (idle, advance) (later_Fits c r.now _ _ h g)
    | inr (k, found) ↦ rw (found, advance) (run_segment-Fits job_id i k _ r c s h (rw found at f) g)
  ]

  submit_job-Fits :
      (job_id i : String) (payload : Dict Json) (sync : Bool) (c : ℕ) (s : JobsState)
      → Fits c (Dict.get i s.job_status_store) (Dict.get i s.tasks)
      → let s' = submit_job job_id payload sync s in
        Fits c (Dict.get i s'.job_status_store) (Dict.get i s'.tasks)
  unfolding submit_job
  submit_job-Fits job_id i payload sync c s g =
      rw (get-set, get-set)
        (elim (Bool-cases (job_id == i)) [
          | inl same ↦ rw same (ground arith)
          | inr other ↦ rw other g
        ])

  Step-IsLinked : {v w : World} → Step t v w → IsLinked v → IsLinked w
  Step-IsLinked (submits job_id payload sync w fresh) l i =
      submit_job-Fits job_id i payload sync w.clock w.jobs (l i)
  Step-IsLinked (resumes job_id r w h) l i =
      advance-Fits job_id i r w.clock w.jobs h (l job_id) (l i)

  pub Reach-IsLinked : {w : World} → Reach t w → IsLinked w
  Reach-IsLinked here i = unfold Dict.get in tt
  Reach-IsLinked (next r s) i = Step-IsLinked s (Reach-IsLinked r) i
