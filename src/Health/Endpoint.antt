-- ===== src/Health/Endpoint.antt =====
-- fastapi_app/rmq/health.py: `to_dict`, the body of GET /health/rabbitmq, after any history.
use fastapi_project.Prelude.{ℕ, String, ◌≡◌, Option, none, some, List, arith}
use fastapi_project.Python.Int.{pos}
use fastapi_project.Dict
use fastapi_project.Json.{null, int, str, Json}
use fastapi_project.Health.{status_value, to_dict}
use fastapi_project.Health.History.{
  Event, after, after-Agrees, status_of, failures_of, last_alive_of,
}

abbrev time_shown : (ℕ → String) → Option ℕ → Json
time_shown isoformat none = null
time_shown isoformat (some t) = str (isoformat t)

-- The body shows the status, the number of failures and the time of the last sign of life that
-- the history of observations determines.
pub to_dict_history :
    (isoformat : ℕ → String) (es : List Event)
    → let body = to_dict isoformat (after es).health in
      (Dict.get "status" body ≡ some (str (status_value (status_of es))))
      × (Dict.get "consecutive_failures" body ≡ some (int (pos (failures_of es))))
      × (Dict.get "last_alive" body ≡ some (time_shown isoformat (last_alive_of es)))
unfolding to_dict Dict.get
to_dict_history isoformat es = ground (arith, after-Agrees es)
