-- ===== src/Jobs/Termination.antt =====
-- fastapi_app/core/jobs.py: a job ends after at most so many of its segments.
use fastapi_project.Prelude.{
  true, false, ℕ, String, ◌-◌, ◌≤◌, ◌≡◌, refl, ap, Bool, Option, none, some, List, [], ◌∷◌, arith,
  All, length,
}
use fastapi_project.Python.{Outcome}
use fastapi_project.Dict
use fastapi_project.Dict.{Dict}
use fastapi_project.Json.{Json}
use fastapi_project.Jobs.{
  Phase, queued, gathering, broadcasting, blocking, over, Task, JobsState, Texts, advance_task,
  handed, threaded, entering, segment, on_error, first_segment, slept, without_entry,
}
use fastapi_project.Jobs.Completion.{
  Action, submit, resume, only, run, View, view, act_view, run_view, view-run,
}

-- How many segments are still to come, at most: a thread has its begin, its two first writes and its end,
-- and the cancellation of the await is a segment of its own.
abbrev pub segments_left : Bool → Phase → ℕ
segments_left true queued = 6
segments_left false queued = 3
segments_left sync gathering = 2
segments_left sync broadcasting = 1
segments_left sync handed = 5
segments_left sync (threaded none) = 4
segments_left sync (threaded (some e)) = 3
segments_left sync (entering none) = 3
segments_left sync (entering (some e)) = 2
segments_left sync (blocking none) = 2
segments_left sync (blocking (some e)) = 1
segments_left sync (over out) = 0

abbrev pub IsResume : Action → Type 0
IsResume (submit job_id payload sync) = ⊥
IsResume (resume job_id r) = Unit {0}

-- The task that has ended, with what it raised.
abbrev pub IsOver : Option Task → Type 0
IsOver none = ⊥
IsOver (some k) = (out : Outcome (Unit {0})) × (k.phase ≡ over out)

no_segment_left :
    (sync : Bool) (p : Phase)
    → segments_left sync p ≤ 0
    → (out : Outcome (Unit {0})) × (p ≡ over out)
no_segment_left sync (over out) h = (out, refl)
no_segment_left true queued h = absurd (omega arith)
no_segment_left false queued h = absurd (omega arith)
no_segment_left sync gathering h = absurd (omega arith)
no_segment_left sync broadcasting h = absurd (omega arith)
no_segment_left sync handed h = absurd (omega arith)
no_segment_left sync (threaded none) h = absurd (omega arith)
no_segment_left sync (threaded (some e)) h = absurd (omega arith)
no_segment_left sync (entering none) h = absurd (omega arith)
no_segment_left sync (entering (some e)) h = absurd (omega arith)
no_segment_left sync (blocking none) h = absurd (omega arith)
no_segment_left sync (blocking (some e)) h = absurd (omega arith)

module _ (t : Texts) where
  abbrev Bounded : ℕ → View t → Type 0
  Bounded n (o, none) = ⊥
  Bounded n (o, some k) = segments_left k.sync k.phase ≤ n

  act_view-Bounded :
      (a : Action) (n : ℕ) (v : View t)
      → IsResume a
      → Bounded n v
      → Bounded (n - 1) (act_view t a v)
  unfolding act_view advance_task segment on_error first_segment slept without_entry
  act_view-Bounded a n v h b = ground arith

  run_view-Bounded :
      (actions : List Action) (n : ℕ) (v : View t)
      → All IsResume actions
      → Bounded n v
      → Bounded (n - length actions) (run_view t actions v)
  unfolding run_view
  run_view-Bounded [] n v h b = ground arith
  run_view-Bounded (a ∷ rest) n v h b =
      let fewer : n - length (a ∷ rest) ≡ n - 1 - length rest = omega arith in
      rw fewer (run_view-Bounded rest (n - 1) (act_view t a v) h.1 (act_view-Bounded a n v h.0 b))

  Bounded-IsOver : (v : View t) → Bounded 0 v → IsOver v.1
  Bounded-IsOver (o, none) b = b
  Bounded-IsOver (o, some k) b = no_segment_left k.sync k.phase b

  -- A submitted job is over, and its task with it, once three of its segments have run if it is a
  -- coroutine, and six if it has a thread, however its awaits end and whatever other jobs do
  -- meanwhile.
  pub run_ends :
      (i : String) (payload : Dict Json) (sync : Bool) (actions rest : List Action) (s : JobsState)
      → only i actions ≡ submit i payload sync ∷ rest
      → All IsResume rest
      → segments_left sync queued ≤ length rest
      → IsOver (Dict.get i (run t actions s).tasks)
  unfolding run_view act_view
  run_ends i payload sync actions rest s mine resumed enough =
      let e : segments_left sync queued - length rest ≡ 0 = omega arith in
      let started : View t = act_view t (submit i payload sync) (view t i s) in
      let b : Bounded 0 (run_view t rest started) =
        rw (← e)
          (run_view-Bounded rest (segments_left sync queued) started resumed (omega arith)) in
      rw (ap (λ (v : View t). v.1) (view-run t i actions s), mine)
        (Bounded-IsOver (run_view t rest started) b)
