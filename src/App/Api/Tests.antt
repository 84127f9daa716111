-- ===== src/App/Api/Tests.antt =====
-- Requests to the application, and the theorems at concrete inputs.
use native.Mathlib.Decide.{ℕ_discrete}
use mathlib.Core.Bool.{false≢true}
use fastapi_project.Prelude.{
  arith, ℕ, String, ◌≡◌, ◌≢◌, ◌⊎◌, inl, inr, refl, sym, ◌∙◌, true, false, false, Option, none, some,
  List, [], ◌∷◌, ◌==◌, eq_iff,
}
use fastapi_project.Python.{done, returned, raised, other_error}
use fastapi_project.Python.Int.{pos}
use fastapi_project.Store.{Send, broadcast_ws, collect, purge, interfere_all}
use fastapi_project.Store.Quiet.{IsQuiet, survivors}
use fastapi_project.Python.Lists.{remove}
use fastapi_project.Users.{
  TextOps, RawUser, UserCreate, valid, user_create, has_at, email_must_have_at,
  age_must_be_positive, to_response,
}
use fastapi_project.Users.Routes.{create_user, no_users, reply, one, entry}
use fastapi_project.Jobs.{no_jobs, Texts, Resume, async_result}
use fastapi_project.Jobs.Completion.{submit, resume, only}
use fastapi_project.Jobs.Routes.{JobRequest}
use fastapi_project.Jobs
use fastapi_project.App.Instances.{new_process}
use fastapi_project.App.Routing.{http_post, http_delete, app_routes, match_path}
use fastapi_project.App.Api.{
  call_endpoint, post_user, HttpRequest, Services, Api, users_reply, jobs_reply, handle_http,
  serve_http,
}
use fastapi_project.App.Api.Created.{post_users, get_users, created_stays}
use fastapi_project.App.Api.Work.{ApiStep, asks, works, api_run, job_actions}
use fastapi_project.App.Api.Expected.{IsExpected}
use fastapi_project.App.Api.Errors.{handle_http_raises}
use fastapi_project.App.Api.Finished.{get_jobs, finished_answers}
use fastapi_project.App.Routing.Samples.{router}

keeps : (s : String) → has_at s ≡ true → has_at s ≡ true
keeps s h = h

abbrev ops : TextOps
ops = record { strip = λ s. s; lower = λ s. s; lower_keeps_at = keeps }

-- A body is that of a user, or of a job.
abbrev user_of : RawUser ⊎ JobRequest → Option RawUser
user_of (inl raw) = some raw
user_of (inr body) = none

abbrev job_of : RawUser ⊎ JobRequest → Option JobRequest
job_of (inl raw) = none
job_of (inr body) = some body

abbrev env : Services (RawUser ⊎ JobRequest)
env = record {
  router = router;
  ops = ops;
  publish = λ event body. raised (other_error "broker");
  as_user = user_of;
  as_job = job_of;
  isoformat = λ t. "now";
  str_of = λ n. "1";
  text_of = λ e. "error";
  cancelled_after = λ now. none;
}

abbrev cat : RawUser
cat = record { name = "Cat"; email = "cat@x.org"; age = pos 20; role = none }

abbrev cat_body : UserCreate
cat_body = record { name = "Cat"; email = "cat@x.org"; age = pos 20; role = "viewer" }

cat_valid : user_create ops cat ≡ valid cat_body
unfolding user_create email_must_have_at age_must_be_positive has_at
cat_valid = refl

abbrev new_api : Api
new_api = record { users = no_users; jobs = no_jobs; process = new_process }

abbrev job : RawUser ⊎ JobRequest
job = inr (record { payload = []; sync = true })

-- A deletion of the user, and a job.
abbrev between : List (HttpRequest (RawUser ⊎ JobRequest))
between =
    record { method = http_delete; path = "users" ∷ "u" ∷ []; content = job; new_id = "x"; now = 6 }
    ∷ record { method = http_post; path = "jobs" ∷ "" ∷ []; content = job; new_id = "j"; now = 7 }
    ∷ []

differs : (t u : String) → (t == u) ≡ false → t ≢ u
differs t u h e = false≢true (sym h ∙ (eq_iff t u).1 e)

created_stays_example :
    (handle_http env
      (get_users env "u" job "y" 8)
      (serve_http env between (handle_http env (post_users env (inl cat) "u" 5) new_api).1)).0
    ≡ returned (users_reply (reply 200 (one (to_response (entry cat_body "u" 5)))))
created_stays_example =
    created_stays env (inl cat) cat cat_body "u" 5 between job "y" 8 new_api refl cat_valid
      (differs "viewer" "admin" refl) (differs "u" "" refl)
      (differs "x" "u" refl, (differs "j" "u" refl, tt))

abbrev texts : Texts
texts = record { repr = λ d. "{}"; repr_length = λ d. 2; text_of = λ e. "error" }

abbrev at_time : ℕ → Resume
at_time n = record { now = n; outcome = done }

abbrev submission : String → HttpRequest (RawUser ⊎ JobRequest)
submission job_id = record {
  method = http_post;
  path = "jobs" ∷ "" ∷ [];
  content = inr (record { payload = []; sync = false });
  new_id = job_id;
  now = 1;
}

-- Two jobs, and a user.
abbrev work : List (ApiStep (RawUser ⊎ JobRequest))
work =
    asks (submission "a")
    ∷ works "a" (at_time 2)
    ∷ asks (submission "b")
    ∷ asks (post_users env (inl cat) "u" 3)
    ∷ works "a" (at_time 4)
    ∷ works "b" (at_time 5)
    ∷ works "a" (at_time 6)
    ∷ []

own_work :
    only "a" (job_actions env texts work)
    ≡ submit "a" [] false
      ∷ resume "a" (at_time 2)
      ∷ resume "a" (at_time 4)
      ∷ resume "a" (at_time 6)
      ∷ []
unfolding app_routes match_path ℕ_discrete
own_work = refl

-- The first client has gone without a trace, and the second gets its text.
abbrev gone : Send
gone = record { outcome = raised (other_error "closed"); meanwhile = [] }

abbrev sent : Send
sent = record { outcome = done; meanwhile = [] }

broadcast_result : broadcast_ws (gone ∷ sent ∷ []) (1 ∷ 2 ∷ []) ≡ some (done, 2 ∷ [])
unfolding broadcast_ws collect purge remove interfere_all
broadcast_result = refl

gone-IsQuiet : IsQuiet gone
gone-IsQuiet = record { alone = refl; caught = λ e h. ground arith }

sent-IsQuiet : IsQuiet sent
sent-IsQuiet = record { alone = refl; caught = λ e h. cc }

finished_answers_example :
    ((handle_http env (get_jobs env texts "a" job "y" 9) (api_run env texts work new_api)).0
      ≡ returned (
          jobs_reply (
            Jobs.Routes.one 200 (record {
              job_id = "a";
              status = "done";
              result = async_result texts [];
              started_at = some 2;
              finished_at = some 4;
            }))))
    × (2 ∷ [] ≡ survivors (gone ∷ sent ∷ []) (1 ∷ 2 ∷ []))
finished_answers_example =
    finished_answers env texts "a" [] (at_time 2) (at_time 4) (at_time 6) work (gone ∷ sent ∷ [])
      (1 ∷ 2 ∷ []) (2 ∷ []) job "y" 9 new_api own_work refl broadcast_result
      (gone-IsQuiet, (sent-IsQuiet, tt)) (omega arith) (((λ h. absurd (omega arith)), tt), (tt, tt))
      (differs "a" "" refl)

broker_raises :
    (handle_http env (post_users env (inl cat) "u" 5) new_api).0 ≡ raised (other_error "broker")
unfolding handle_http call_endpoint post_user create_user user_create email_must_have_at
    age_must_be_positive has_at app_routes match_path ℕ_discrete
broker_raises = refl

handle_http_raises_example : IsExpected env (other_error "broker")
handle_http_raises_example =
    handle_http_raises env (post_users env (inl cat) "u" 5) new_api (other_error "broker")
      broker_raises
