-- ===== src/Database/Tests.antt =====
-- A route that fails does not commit.
use fastapi_project.Prelude.{◌↔◌}
use fastapi_project.Python.{Await}
use fastapi_project.Database.Sessions.{get_db_lem}
use fastapi_project.Prelude.{◌≡◌, refl, [], ◌∷◌}
use fastapi_project.Python.{key_error, raised, done}
use fastapi_project.Database.{opened, used, closed, get_db}

failed_route : (get_db (raised key_error) done done).1 ≡ opened ∷ used ∷ closed ∷ []
unfolding get_db
failed_route = refl

get_db_lem_example :
    ((get_db (raised key_error) done done).1 ≡ opened ∷ used ∷ closed ∷ [])
    × (((get_db (raised key_error) done done).0 ≡ done) ↔ (
        (◌≡◌ {A = Await} (raised key_error) done)
        × (◌≡◌ {A = Await} done done)
        × (◌≡◌ {A = Await} done done)))
get_db_lem_example = get_db_lem (raised key_error) done done
