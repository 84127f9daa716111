-- ===== src/Database.antt =====
-- fastapi_app/core/database.py: `get_db` around a route that uses its session, and alembic/env.py:
-- `run_migrations_online`. SQLAlchemy's calls enter by how they end.
pub mod Sessions
mod Tests
use fastapi_project.Prelude.{Bool, true, false, List, [], ◌∷◌, ◌++◌}
use fastapi_project.Python.{Exn, Outcome, returned, raised, Await, done}

-- What is done to a session or a connection, in order.
pub data DbEffect : Type 0 where
  opened used committed rolled_back closed disposed : DbEffect

-- A part of the code: how it ends, and what it did.
abbrev pub Part : Type 0
Part = Await × List DbEffect

abbrev then_do : Part → Part → Part
then_do (returned _, es) (out, fs) = (out, es ++ fs)
then_do (raised e, es) p = (raised e, es)

-- `async with`: the exit runs however the block ends, and its error replaces the block's.
abbrev with_exit : (exit : Await) → DbEffect → Part → Part
with_exit exit effect (out, es) =
    (elim exit [ returned _ ↦ out | raised e ↦ raised e ], es ++ effect ∷ [])

-- The exception of a route is raised at the `yield` of `get_db`.
unfoldable pub get_db : (route commit close : Await) → Part
get_db route commit close =
    let (out, es) = with_exit close closed (then_do (route, used ∷ []) (commit, committed ∷ [])) in
    (out, opened ∷ es)

-- `with context.begin_transaction()` commits what has returned, and rolls back what has raised.
abbrev end_transaction : (commit : Await) → Part → Part
end_transaction commit (returned _, es) = (commit, es ++ committed ∷ [])
end_transaction commit (raised e, es) = (raised e, es ++ rolled_back ∷ [])

unfoldable pub do_run_migrations : (migrations commit : Await) → Part
do_run_migrations migrations commit = end_transaction commit (migrations, used ∷ [])

unfoldable pub run_migrations_online : (connect migrations commit close dispose : Await) → Part
unfolding do_run_migrations
run_migrations_online connect migrations commit close dispose =
    then_do (connect, opened ∷ [])
      (then_do (with_exit close closed (do_run_migrations migrations commit))
        (dispose, disposed ∷ []))
