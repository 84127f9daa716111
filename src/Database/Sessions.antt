-- ===== src/Database/Sessions.antt =====
-- fastapi_app/core/database.py and alembic/env.py: which sessions commit, and that they are closed.
use fastapi_project.Prelude.{◌≡◌, ◌↔◌, [], ◌∷◌, arith}
use fastapi_project.Python.{returned, raised, Await, done}
use fastapi_project.Database.{
  opened, used, committed, rolled_back, closed, disposed, get_db, do_run_migrations,
  run_migrations_online,
}

-- `get_db` commits exactly if the route returns, and closes its session at the end however route
-- and commit end; it returns exactly if the route, the commit and the close do.
pub get_db_lem :
    (route commit close : Await)
    → ((get_db route commit close).1
        ≡ opened
          ∷ used
          ∷ (elim route [ returned _ ↦ committed ∷ closed ∷ [] | raised e ↦ closed ∷ [] ]))
      × (((get_db route commit close).0 ≡ done)
          ↔ ((route ≡ done) × (commit ≡ done) × (close ≡ done)))
unfolding get_db
get_db_lem route commit close = ground arith

-- The migrations are committed if they return and rolled back otherwise, the connection that was
-- made is closed, and the engine is disposed of only if all of that returned.
pub run_migrations_online_lem :
    (connect migrations commit close dispose : Await)
    → connect ≡ done
    → (run_migrations_online connect migrations commit close dispose).1
      ≡ opened
        ∷ used
        ∷ (elim migrations [ returned _ ↦ committed | raised e ↦ rolled_back ])
        ∷ closed
        ∷ (elim (do_run_migrations migrations commit).0 [
          | returned _ ↦ elim close [ returned _ ↦ disposed ∷ [] | raised e ↦ [] ]
          | raised e ↦ []
        ])
unfolding run_migrations_online do_run_migrations
run_migrations_online_lem connect migrations commit close dispose h = ground arith
