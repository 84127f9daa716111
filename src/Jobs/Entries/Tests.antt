-- ===== src/Jobs/Entries/Tests.antt =====
-- A response model, and the dictionaries of two jobs.
use Prim.Native.String.{String}
use fastapi_project.Prelude.{ℕ, ◌≡◌, refl, Option, none, some, List, [], ◌∷◌, true, false}
use fastapi_project.Python.{value_error, returned, raised, done, ◌>>=◌}
use fastapi_project.Dict
use fastapi_project.Json.{Json, null, str}
use fastapi_project.Jobs.{no_jobs, Texts, Resume}
use fastapi_project.Jobs.Completion.{Action, submit, resume, run}
use fastapi_project.Jobs.Routes.{JobStatusResponse, one, many, get_job_status, list_jobs}
use fastapi_project.Jobs.Entries.{
  Value, json, time, Entry, text, time_or_none, no_entries, submit_entry, start_entry, enter_entry,
  begin_entry, first_segment_entry, slept_entry, update_entry, error_entry, segment_entry,
  run_entry, advance_entry, act_entry, run_entries, ResponseModel, get_entry, list_entries,
}
use fastapi_project.Jobs.Entries.Responses.{responses_valid}

abbrev dates : String → String → Json → Value → Value → Option JobStatusResponse
dates i s r (json null) (json null) =
    some (record { job_id = i; status = s; result = r; started_at = none; finished_at = none })
dates i s r (json null) (time b) =
    some (record { job_id = i; status = s; result = r; started_at = none; finished_at = some b })
dates i s r (time a) (json null) =
    some (record { job_id = i; status = s; result = r; started_at = some a; finished_at = none })
dates i s r (time a) (time b) =
    some (record { job_id = i; status = s; result = r; started_at = some a; finished_at = some b })
dates i s r _ _ = none

abbrev fields_of : (i s r a b : Option Value) → Option JobStatusResponse
fields_of (some (json (str i))) (some (json (str s))) (some (json r)) (some a) (some b) =
    dates i s r a b
fields_of _ _ _ _ _ = none

abbrev validate : Entry → Option JobStatusResponse
validate e =
    fields_of (Dict.get "job_id" e) (Dict.get "status" e) (Dict.get "result" e)
      (Dict.get "started_at" e) (Dict.get "finished_at" e)

dates_lem :
    (i s : String) (r : Json) (a b : Option ℕ)
    → dates i s r (time_or_none a) (time_or_none b)
      ≡ some (record { job_id = i; status = s; result = r; started_at = a; finished_at = b })
dates_lem i s r none none = refl
dates_lem i s r none (some b) = refl
dates_lem i s r (some a) none = refl
dates_lem i s r (some a) (some b) = refl

validate_lem :
    (e : Entry) (r : JobStatusResponse)
    → Dict.get "job_id" e ≡ some (text r.job_id)
    → Dict.get "status" e ≡ some (text r.status)
    → Dict.get "result" e ≡ some (json r.result)
    → Dict.get "started_at" e ≡ some (time_or_none r.started_at)
    → Dict.get "finished_at" e ≡ some (time_or_none r.finished_at)
    → validate e ≡ some r
validate_lem e r h1 h2 h3 h4 h5 =
    rw (h1, h2, h3, h4, h5) (dates_lem r.job_id r.status r.result r.started_at r.finished_at)

abbrev response_model : ResponseModel
response_model = record { validate = validate; validate_lem = validate_lem }

abbrev texts : Texts
texts = record { repr = λ d. "{}"; repr_length = λ d. 2; text_of = λ e. "error" }

abbrev at_time : ℕ → Resume
at_time n = record { now = n; outcome = done }

-- The thread of one job raises, and another is queued.
abbrev one_fails : List Action
one_fails =
    submit "a" [] true
    ∷ resume "a" (at_time 0)
    ∷ resume "a" (at_time 0)
    ∷ resume "a" (at_time 0)
    ∷ resume "a" (at_time 1)
    ∷ submit "b" [] false
    ∷ resume "a" (record { now = 3; outcome = raised (value_error "x") })
    ∷ []

responses_valid_example :
    ((get_entry response_model "a" (run_entries texts one_fails no_entries) >>= λ r.
    returned (one 200 r))
      ≡ get_job_status "a" (run texts one_fails no_jobs))
    × ((list_entries response_model (run_entries texts one_fails no_entries) >>= λ rs.
          returned (many 200 rs))
        ≡ list_jobs (run texts one_fails no_jobs))
responses_valid_example = responses_valid response_model texts one_fails "a"

failed_entry :
    Dict.get "a" (run_entries texts one_fails no_entries).job_status_store
    ≡ some (
        ("job_id", text "a")
        ∷ ("status", text "failed")
        ∷ ("result", text "error")
        ∷ ("started_at", time 1)
        ∷ ("finished_at", time 3)
        ∷ [])
unfolding run_entries act_entry submit_entry advance_entry run_entry segment_entry error_entry
    start_entry enter_entry begin_entry first_segment_entry slept_entry update_entry Dict.get
    Dict.set Dict.merge
failed_entry = refl
