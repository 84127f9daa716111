-- ===== src/Jobs/Completion.antt =====
-- fastapi_app/core/jobs.py: what becomes of one job, whatever the others do meanwhile.
use fastapi_project.Prelude.{
  String, ◌≡◌, refl, ap, ◌∙◌, inl, inr, Bool, true, false, Option, none, some, List, [], ◌∷◌, arith,
  ◌==◌, eq_iff, eq_refl, if◌then◌else◌, Bool-cases, Option-cases,
}
use fastapi_project.Python.{Exn, is_exception, raised, done}
use fastapi_project.Dict
use fastapi_project.Dict.{Dict, get-set}
use fastapi_project.Json.{Json}
use fastapi_project.Jobs.{
  Job, queued, Task, JobsState, new_job, submit_job, Texts, Resume, async_result, sync_result,
  started, completed, crashed, cancels, advance_task, run_segment, advance, without_entry,
}

pub data Action : Type 0 where
  submit : (job_id : String) → Dict Json → (sync : Bool) → Action
  resume : (job_id : String) → Resume → Action

abbrev id_of : Action → String
id_of (submit job_id payload sync) = job_id
id_of (resume job_id r) = job_id

-- The actions on one job, in their order.
abbrev pub only : String → List Action → List Action
only i [] = []
only i (a ∷ actions) = let rest = only i actions in if id_of a == i then a ∷ rest else rest

module _ (t : Texts) where
  unfoldable pub act : Action → JobsState → JobsState
  unfolding advance submit_job
  act (submit job_id payload sync) s = submit_job job_id payload sync s
  act (resume job_id r) s = advance t job_id r s

  unfoldable pub run : List Action → JobsState → JobsState
  run [] s = s
  run (a ∷ actions) s = run actions (act a s)

  -- The entry and the task under one identifier.
  abbrev pub View : Type 0
  View = Option Job × Option Task

  abbrev pub view : String → JobsState → View
  view i s = (Dict.get i s.job_status_store, Dict.get i s.tasks)

  -- The same actions on the view of their job.
  unfoldable pub act_view : Action → View → View
  unfolding without_entry
  act_view (submit job_id payload sync) v =
      (some (new_job job_id), some (record { payload = payload; sync = sync; phase = queued }))
  act_view (resume job_id r) (o, none) = (o, none)
  act_view (resume job_id r) (none, some k) =
      (none, some (record k { phase = without_entry t k.sync k.phase r.outcome }))
  act_view (resume job_id r) (some j, some k) =
      let (k', j') = advance_task t k r j in (some j', some k')

  unfoldable pub run_view : List Action → View → View
  unfolding act_view without_entry
  run_view [] v = v
  run_view (a ∷ actions) v = run_view actions (act_view a v)

  segment_other :
      (i job_id : String) (k : Task) (o : Option Job) (r : Resume) (s : JobsState)
      → (job_id == i) ≡ false
      → view i (run_segment t job_id k o r s) ≡ view i s
  unfolding run_segment
  segment_other i job_id k none r s h = simp get-set (ground arith)
  segment_other i job_id k (some j) r s h = simp get-set (ground arith)

  act_other :
      (i : String) (a : Action) (s : JobsState)
      → (id_of a == i) ≡ false
      → view i (act a s) ≡ view i s
  unfolding act
  act_other i (submit job_id payload sync) s h = simp get-set (ground arith)
  act_other i (resume job_id r) s h = elim (Option-cases (Dict.get job_id s.tasks)) [
    | inl idle ↦ rw (idle, act, advance)
    | inr (k, found) ↦
        rw (found, act, advance)
          (segment_other i job_id k (Dict.get job_id s.job_status_store) r s h)
  ]

  segment_same :
      (i : String) (k : Task) (o : Option Job) (r : Resume) (s : JobsState)
      → Dict.get i s.job_status_store ≡ o
      → view i (run_segment t i k o r s) ≡ act_view (resume i r) (o, some k)
  unfolding run_segment act_view
  segment_same i k none r s h = simp (get-set, eq_refl, h)
  segment_same i k (some j) r s h = simp (get-set, eq_refl)

  act_same :
      (i : String) (a : Action) (s : JobsState)
      → id_of a ≡ i
      → view i (act a s) ≡ act_view a (view i s)
  unfolding act act_view
  act_same i (submit job_id payload sync) s h = rw h (simp (get-set, eq_refl))
  act_same i (resume job_id r) s h = rw h (elim (Option-cases (Dict.get i s.tasks)) [
    | inl idle ↦ rw (idle, act, advance) (rw idle refl)
    | inr (k, found) ↦
        rw (found, act, advance) (segment_same i k (Dict.get i s.job_status_store) r s refl)
  ])

  -- Jobs do not disturb one another: after any actions, the entry and the task of a job are what
  -- its own actions alone make of them.
  pub view-run :
      (i : String) (actions : List Action) (s : JobsState)
      → view i (run actions s) ≡ run_view (only i actions) (view i s)
  unfolding run run_view
  view-run i [] s = refl
  view-run i (a ∷ actions) s = elim (Bool-cases (id_of a == i)) [
    | inl mine ↦ rw mine (
        view-run i actions (act a s)
        ∙ ap (run_view (only i actions)) (act_same i a s ((eq_iff (id_of a) i).0 mine)))
    | inr other ↦
        rw other
          (view-run i actions (act a s) ∙ ap (run_view (only i actions)) (act_other i a s other))
  ]

  module _ (i : String) (payload : Dict Json) (start : JobsState) (actions : List Action) where
    -- The outcome of the job is read off its own actions.
    entry_from :
        (own : List Action) (o : Option Job)
        → only i actions ≡ own
        → (run_view own (view i start)).0 ≡ o
        → Dict.get i (run actions start).job_status_store ≡ o
    entry_from own o mine result =
        ap (λ (v : View). v.0) (view-run i actions start) ∙ rw mine result

    -- A job that is submitted with sync=False, and whose awaits in gather and in the broadcast
    -- return, is done at last, with the results of its two steps and the times of its start and of
    -- the end of gather, whatever other jobs do meanwhile.
    pub async_completes :
        (r s u : Resume)
        → only i actions ≡ submit i payload false ∷ resume i r ∷ resume i s ∷ resume i u ∷ []
        → s.outcome ≡ done
        → u.outcome ≡ done
        → Dict.get i (run actions start).job_status_store
          ≡ some (completed (async_result t payload) s.now (started r.now (new_job i)))
    unfolding run_view advance_task
    async_completes r s u mine gathered sent = entry_from _ _ mine (ground arith)

    -- If the broadcast raises an `Exception`, the job that was done is failed at last, and its
    -- result is the text of that exception.
    pub broadcast_error_fails :
        (r s u : Resume) (e : Exn)
        → only i actions ≡ submit i payload false ∷ resume i r ∷ resume i s ∷ resume i u ∷ []
        → s.outcome ≡ done
        → u.outcome ≡ raised e
        → is_exception e ≡ true
        → Dict.get i (run actions start).job_status_store
          ≡ some (
              crashed
                (t.text_of e)
                u.now
                (completed (async_result t payload) s.now (started r.now (new_job i))))
    unfolding run_view advance_task
    broadcast_error_fails r s u e mine gathered lost caught = entry_from _ _ mine (ground arith)

    -- A job that is submitted with sync=True, and whose thread sleeps and writes to its end, is done
    -- at last, whatever other jobs do meanwhile.
    pub sync_completes :
        (p q u r s : Resume)
        → only i actions
          ≡ submit i payload true
            ∷ resume i p
            ∷ resume i q
            ∷ resume i u
            ∷ resume i r
            ∷ resume i s
            ∷ []
        → cancels q.outcome ≡ none
        → cancels u.outcome ≡ none
        → cancels r.outcome ≡ none
        → s.outcome ≡ done
        → Dict.get i (run actions start).job_status_store
          ≡ some (completed (sync_result t payload) s.now (started r.now (new_job i)))
    unfolding run_view advance_task
    sync_completes p q u r s mine free taken entry slept = entry_from _ _ mine (ground arith)
