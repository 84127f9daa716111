-- ===== src/Migrations/RoundTrip.antt =====
-- alembic/versions/89cc93b7e46d_initial.py: the downgrade undoes the upgrade.
use fastapi_project.Prelude.{◌≡◌, refl}
use fastapi_project.Python.{returned, >>=-returned}
use fastapi_project.Migrations.{
  Operations, users_table, email_index, jobs_table, user_id_index, upgrade, downgrade,
}

-- The downgrade of a schema that an upgrade has made gives the schema before the upgrade, if
-- dropping what was just created gives the schema before that.
downgrade-upgrade :
    {Schema : Type 0} (op : Operations Schema) (s s' : Schema)
    → upgrade op s ≡ returned s'
    → downgrade op s' ≡ returned s
unfolding upgrade downgrade
downgrade-upgrade op s s' h =
    let (a, made_users, h1) = >>=-returned _ _ h in
    let (b, made_email, h2) = >>=-returned _ _ h1 in
    let (c, made_jobs, made_user_id) = >>=-returned _ _ h2 in
    rw
      (
        op.drop_index-create_index user_id_index c s' made_user_id,
        op.drop_table-create_table jobs_table b c made_jobs,
        op.drop_index-create_index email_index a b made_email,
        op.drop_table-create_table users_table s a made_users,
      )
      refl
