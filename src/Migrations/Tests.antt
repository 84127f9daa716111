-- ===== src/Migrations/Tests.antt =====
-- The migration makes what the classes map, and a database for the round trip.
use native.Mathlib.Decide.{ℕ_discrete}
use fastapi_project.Prelude.{◌≡◌, refl, String, List, [], ◌∷◌, ◌==◌, eq_refl, arith, if◌then◌else◌}
use fastapi_project.Python.{Outcome, returned, raised, other_error}
use fastapi_project.Migrations.{
  Table, Index, Operations, users_table, email_index, jobs_table, user_id_index, mapped_user,
  mapped_job, upgrade, downgrade,
}

tables_as_mapped :
    (mapped_user ≡ (users_table, email_index ∷ []))
    × (mapped_job ≡ (jobs_table, user_id_index ∷ []))
tables_as_mapped = (refl, refl)

-- A schema is what was created, latest first.
data Created : Type 0 where
  table : Table → Created
  index : Index → Created

abbrev drop_latest : String → List Created → Outcome (List Created)
drop_latest name (table t ∷ s) =
    if t.name == name then returned s else raised (other_error "no such table")
drop_latest name _ = raised (other_error "no such table")

abbrev drop_latest_index : String → String → List Created → Outcome (List Created)
drop_latest_index name table_name (index i ∷ s) =
    if i.name == name then returned s else raised (other_error "no such index")
drop_latest_index name table_name _ = raised (other_error "no such index")

drops_table :
    (t : Table) (s s' : List Created)
    → ◌≡◌ {A = Outcome (List Created)} (returned (table t ∷ s)) (returned s')
    → drop_latest t.name s' ≡ returned s
drops_table t s s' h = ground (arith, eq_refl t.name)

drops_index :
    (i : Index) (s s' : List Created)
    → ◌≡◌ {A = Outcome (List Created)} (returned (index i ∷ s)) (returned s')
    → drop_latest_index i.name i.table s' ≡ returned s
drops_index i s s' h = ground (arith, eq_refl i.name)

abbrev operations : Operations (List Created)
operations = record {
  create_table = λ t s. returned (table t ∷ s);
  create_index = λ i s. returned (index i ∷ s);
  drop_table = drop_latest;
  drop_index = drop_latest_index;
  drop_table-create_table = drops_table;
  drop_index-create_index = drops_index;
}

abbrev upgraded : List Created
upgraded = index user_id_index ∷ table jobs_table ∷ index email_index ∷ table users_table ∷ []

round_trip_test :
    (upgrade operations [] ≡ returned upgraded) × (downgrade operations upgraded ≡ returned [])
unfolding upgrade downgrade ℕ_discrete
round_trip_test = (refl, refl)
