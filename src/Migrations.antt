-- ===== src/Migrations.antt =====
-- alembic/versions/89cc93b7e46d_initial.py: the upgrade and the downgrade of the schema, and
-- fastapi_app/models/orm/: the tables that the application maps. What alembic's operations do to a
-- database is the argument `Operations`.
pub mod RoundTrip
mod Tests
use fastapi_project.Prelude.{ℕ, String, ◌≡◌, Bool, true, false, Option, none, some, List, [], ◌∷◌}
use fastapi_project.Python.{Outcome, returned, raised, ◌>>=◌}

pub data ColumnType : Type 0 where
  string : (length : ℕ) → ColumnType
  integer boolean date_time json : ColumnType

pub record Column : Type 0 where
  pub name : String
  pub type_ : ColumnType
  pub nullable : Bool

-- A foreign key names the column and the table and column that it refers to.
pub record Table : Type 0 where
  pub name : String
  pub columns : List Column
  pub primary_key : String
  pub foreign_keys : List (String × String × String)

pub record Index : Type 0 where
  pub name : String
  pub table : String
  pub columns : List String
  pub unique : Bool

-- Each operation works or raises, and dropping what was just created gives the schema before it.
pub record Operations (Schema : Type 0) : Type 0 where
  pub create_table : Table → Schema → Outcome Schema
  pub create_index : Index → Schema → Outcome Schema
  pub drop_table : (name : String) → Schema → Outcome Schema
  pub drop_index : (name table : String) → Schema → Outcome Schema
  pub drop_table-create_table :
      (t : Table) (s s' : Schema)
      → create_table t s ≡ returned s'
      → drop_table t.name s' ≡ returned s
  pub drop_index-create_index :
      (i : Index) (s s' : Schema)
      → create_index i s ≡ returned s'
      → drop_index i.name i.table s' ≡ returned s

abbrev column : String → ColumnType → Bool → Column
column name type_ nullable = record { name = name; type_ = type_; nullable = nullable }

abbrev pub users_table : Table
users_table = record {
  name = "users";
  columns =
      column "id" (string 36) false
      ∷ column "name" (string 100) false
      ∷ column "email" (string 255) false
      ∷ column "age" integer false
      ∷ column "role" (string 50) false
      ∷ column "created_at" date_time false
      ∷ [];
  primary_key = "id";
  foreign_keys = [];
}

abbrev pub email_index : Index
email_index = record {
  name = "ix_users_email";
  table = "users";
  columns = "email" ∷ [];
  unique = true;
}

abbrev pub jobs_table : Table
jobs_table = record {
  name = "jobs";
  columns =
      column "id" (string 36) false
      ∷ column "user_id" (string 36) false
      ∷ column "status" (string 20) false
      ∷ column "payload" json false
      ∷ column "result" json true
      ∷ column "sync" boolean false
      ∷ column "started_at" date_time true
      ∷ column "finished_at" date_time true
      ∷ column "created_at" date_time false
      ∷ [];
  primary_key = "id";
  foreign_keys = ("user_id", "users", "id") ∷ [];
}

abbrev pub user_id_index : Index
user_id_index = record {
  name = "ix_jobs_user_id";
  table = "jobs";
  columns = "user_id" ∷ [];
  unique = false;
}

module _ {Schema : Type 0} (op : Operations Schema) where
  open op use {create_table, create_index, drop_table, drop_index}

  unfoldable pub upgrade : Schema → Outcome Schema
  upgrade s = create_table users_table s >>= λ a. create_index email_index a >>= λ b.
      create_table jobs_table b >>= λ c. create_index user_id_index c

  unfoldable pub downgrade : Schema → Outcome Schema
  downgrade s = drop_index "ix_jobs_user_id" "jobs" s >>= λ a. drop_table "jobs" a >>= λ b.
      drop_index "ix_users_email" "users" b >>= λ c. drop_table "users" c

-- The names that SQLAlchemy gives to the index of a column with `index=True`.
abbrev column_index : (table column_name name : String) → Bool → Index
column_index table column_name name unique = record {
  name = name;
  table = table;
  columns = column_name ∷ [];
  unique = unique;
}

-- The classes as SQLAlchemy maps them: the table, and the indexes of its columns. A column admits
-- NULL if its annotation admits None; the defaults are Python's, and no part of the schema.
abbrev pub mapped_user : Table × List Index
mapped_user = (
  record {
    name = "users";
    columns =
        column "id" (string 36) false
        ∷ column "name" (string 100) false
        ∷ column "email" (string 255) false
        ∷ column "age" integer false
        ∷ column "role" (string 50) false
        ∷ column "created_at" date_time false
        ∷ [];
    primary_key = "id";
    foreign_keys = [];
  },
  column_index "users" "email" "ix_users_email" true ∷ [],
)

abbrev pub mapped_job : Table × List Index
mapped_job = (
  record {
    name = "jobs";
    columns =
        column "id" (string 36) false
        ∷ column "user_id" (string 36) false
        ∷ column "status" (string 20) false
        ∷ column "payload" json false
        ∷ column "result" json true
        ∷ column "sync" boolean false
        ∷ column "started_at" date_time true
        ∷ column "finished_at" date_time true
        ∷ column "created_at" date_time false
        ∷ [];
    primary_key = "id";
    foreign_keys = ("user_id", "users", "id") ∷ [];
  },
  column_index "jobs" "user_id" "ix_jobs_user_id" false ∷ [],
)
