-- ===== src/Replacement.antt =====
-- The new durable store: scripts/durable_recovery.py, `create_replacement`, `verify_target`.
pub mod Placed
pub mod Built
pub mod Completes
use Prim.Native.String.{◌++◌ as ◌<>◌}
use moon_mqtt_client.Base.{
  ℕ, String, Bool, false, ◌==◌, Option, some, List, [], ◌∷◌, str_eq, length,
}
use moon_mqtt_client.Base.Int.{pos}
use moon_mqtt_client.Sqlite.{Cell, integer, text, is_number}
use moon_mqtt_client.Durable.{
  Meta, SchemaObject, Database, durable_schema_version, expected_meta_columns,
  expected_outbox_columns,
}
use moon_mqtt_client.Paths.{FilePath}
use moon_mqtt_client.Exec.{pure, refuse, require, when, ◌>>=◌, ◌>>◌}
use moon_mqtt_client.World.{
  Env, durable, Act, call, sql, change, draw, fill, gets, mkstemp, tmp_max, fsync, existing_path,
  sqlite_connect, connect_sqlite, query, sha256_file,
}
use moon_mqtt_client.Inspect.{require_schema, singletons}

-- The schema of `META_SQL` and `OUTBOX_SQL`: two tables, and the indexes that SQLite makes for the
-- primary key and the two UNIQUE columns of the second.
abbrev new_objects : List SchemaObject
new_objects =
    record {
      object_type = "index";
      name = "sqlite_autoindex_durable_outbox_1";
      table_name = "durable_outbox";
    }
    ∷ record {
      object_type = "index";
      name = "sqlite_autoindex_durable_outbox_2";
      table_name = "durable_outbox";
    }
    ∷ record {
      object_type = "index";
      name = "sqlite_autoindex_durable_outbox_3";
      table_name = "durable_outbox";
    }
    ∷ record { object_type = "table"; name = "durable_meta"; table_name = "durable_meta" }
    ∷ record { object_type = "table"; name = "durable_outbox"; table_name = "durable_outbox" }
    ∷ []

-- The row `(1, 2, identity, 1, 0)`.
abbrev new_meta : String → Meta
new_meta identity = record {
  singleton = integer (pos 1);
  schema_version = integer (pos 2);
  identity = text identity;
  next_sequence = integer (pos 1);
  known_session = integer (pos 0);
}

-- What the committed transaction leaves. Six pages of SQLite's default size hold the schema, the
-- two tables and the three indexes.
unfoldable pub new_database : String → Database
new_database identity = record {
  integrity = "ok";
  user_version = durable_schema_version;
  objects = new_objects;
  meta_columns = expected_meta_columns;
  outbox_columns = expected_outbox_columns;
  page_size = 4096;
  page_count = 6;
  meta = new_meta identity ∷ [];
  outbox = [];
}

-- `st_dev` and `st_ino` of two results of `stat` agree.
abbrev pub same_inode : Option ℕ → Option ℕ → Bool
same_inode (some i) (some j) = i == j
same_inode _ _ = false

-- `row[0] == identity`
abbrev pub is_text : String → Cell → Bool
is_text s (text t) = str_eq t s
is_text s _ = false

module _ (env : Env) where
  -- The body of the inner `try`, and the checks after it. The seven calls are the two PRAGMAs, the
  -- two tables, the row, the version and the COMMIT.
  unfoldable pub build_replacement : FilePath → Option ℕ → ℕ → String → Act String
  unfolding new_database
  build_replacement path initial connection target_identity = do
    call env
    opened ← gets (λ w. w.entry path)
    require (same_inode opened initial) "replacement staging path changed after secure creation"
    sql env
    sql env
    sql env
    sql env
    sql env
    sql env
    sql env
    page ← draw
    change (λ w. fill connection (durable (new_database target_identity) page) w)
    require_schema env connection
    db ← query env connection
    require (length db.outbox == 0) "new replacement is not empty"
    call env
    final_metadata ← gets (λ w. w.entry path)
    require (same_inode final_metadata initial)
        "replacement staging path changed during construction"
    fsync env
    sha256_file env path

  unfoldable pub create_replacement : FilePath → String → Act (FilePath × String)
  create_replacement target target_identity = do
    path ← mkstemp env tmp_max target.dir ("." <> (target.name <> ".recovery-")) ".tmp"
    initial ← gets (λ w. w.entry path)
    call env
    call env
    connection ← sqlite_connect env path
    sha ← build_replacement path initial connection target_identity
    pure (path, sha)

  -- `row[1] != 0 or connection.execute("SELECT count(*) ...").fetchone()[0]`; the second statement runs
  -- only if the first test fails.
  unfoldable pub check_empty : ℕ → Meta → Act (Unit {0})
  check_empty connection row = do
    require (is_number (pos 0) row.known_session) "target is not the expected empty replacement"
    db ← query env connection
    require (length db.outbox == 0) "target is not the expected empty replacement"

  -- The checks on the metadata row, of which the first of several is read.
  unfoldable pub check_target : String → Bool → ℕ → List Meta → Act (Unit {0})
  check_target identity require_empty connection [] =
      refuse "target identity does not match the recovery request"
  check_target identity require_empty connection (row ∷ rows) = do
    require (is_text identity row.identity) "target identity does not match the recovery request"
    when require_empty (check_empty connection row)

  unfoldable pub verify_target : FilePath → String → Bool → Act (Unit {0})
  unfolding check_target check_empty
  verify_target path identity require_empty = do
    existing ← existing_path env path "target"
    connection ← connect_sqlite env existing
    require_schema env connection
    meta ← query env connection
    check_target identity require_empty connection (singletons meta.meta)
