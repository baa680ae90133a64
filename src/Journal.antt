-- ===== src/Journal.antt =====
-- The recovery journal: scripts/durable_recovery.py, `create_journal`, `open_journal`,
-- `validate_journal`, `refresh_journal`, `update_phase`.
pub mod Opened
pub mod Atomic
pub mod Completes
pub mod Entered
pub mod Created
pub mod RoundTrip
use Prim.Native.String.{◌++◌ as ◌<>◌}
use moon_mqtt_client.Base.{
  ℕ, String, Bool, true, false, ◌&&◌, List, [], ◌∷◌, Option, none, some, str_eq, strs_eq, ◌==◌,
  if◌then◌else◌,
}
use moon_mqtt_client.Base.Int.{int_eq}
use moon_mqtt_client.Json.{Json}
use moon_mqtt_client.Paths.{FilePath}
use moon_mqtt_client.Durable.{SchemaObject, Snapshot}
use moon_mqtt_client.Phase.{
  Phase, prepared, in_phases, JournalRow, journal_schema_version, expected_journal_columns,
}
use moon_mqtt_client.Bundle.{SourceFile}
use moon_mqtt_client.Request.{Request, journal_path}
use moon_mqtt_client.Identity.{durable_identity}
use moon_mqtt_client.Exec.{pure, refuse, require, or_raise, finally, except_raise, ◌>>=◌, ◌>>◌}
use moon_mqtt_client.World.{
  Env, Content, journal, Act, call, sql, change, draw, fill, gets, mkstemp, tmp_max, unlink, fsync,
  path_exists, existing_path, connect_sqlite, sqlite_connect, query_journal, pragma,
  publish_file_no_replace, sha256_file, type_error, as_journal,
}

-- `a == b` on bytes.
abbrev pub bytes_eq : List ℕ → List ℕ → Bool
bytes_eq [] [] = true
bytes_eq [] (y ∷ ys) = false
bytes_eq (x ∷ xs) [] = false
bytes_eq (x ∷ xs) (y ∷ ys) = x == y && bytes_eq xs ys

-- `objects == [("table", "recovery_journal")]`
abbrev is_journal_table : List SchemaObject → Bool
is_journal_table (o ∷ []) = str_eq o.object_type "table" && str_eq o.name "recovery_journal"
is_journal_table _ = false

-- The rows if there is one, with `singleton` 1.
abbrev only_row : List JournalRow → Option JournalRow
only_row (row ∷ []) = if row.singleton == 1 then some row else none
only_row _ = none

-- `SELECT * FROM recovery_journal WHERE singleton=1`, `fetchone()`
abbrev pub first_singleton : List JournalRow → Option JournalRow
first_singleton [] = none
first_singleton (row ∷ rows) = if row.singleton == 1 then some row else first_singleton rows

-- `coalesce(new, old)`
abbrev pub coalesce : {A : Type 0} → Option A → Option A → Option A
coalesce none old = old
coalesce (some a) old = some a

module _ (phase : Phase) (staged : Option FilePath) (sha : Option String) (time : String) where
  -- The UPDATE of one row.
  abbrev pub update_row : JournalRow → JournalRow
  update_row row = record row {
    phase = phase;
    staged_target = coalesce staged row.staged_target;
    staged_target_sha256 = coalesce sha row.staged_target_sha256;
    updated_at = time;
  }

  abbrev pub update_rows : List JournalRow → List JournalRow
  update_rows [] = []
  update_rows (row ∷ rows) = (if row.singleton == 1 then update_row row else row) ∷ update_rows rows

  -- What COMMIT writes to the journal's file.
  abbrev pub update_content : ℕ → Content → Content
  update_content page c = elim (as_journal c) [
    | none ↦ c
    | some db ↦ journal (record db { rows = update_rows db.rows }) page
  ]

abbrev journal_objects : List SchemaObject
journal_objects =
    record { object_type = "table"; name = "recovery_journal"; table_name = "recovery_journal" }
    ∷ []

-- The row that `create_journal` inserts.
unfoldable pub initial_row :
    (List ℕ → String) → (Json → List ℕ) → Request → String → Snapshot → SourceFile → JournalRow
initial_row sha dumps request archive_sha source_snapshot source_file =
    let decided_at = request.decision.decided_at in
    record {
      singleton = 1;
      schema_version = 1;
      operation_id = request.operation_id;
      request_json = dumps request.document;
      request_sha256 = sha (dumps request.document);
      archive_path = request.archive;
      archive_sha256 = archive_sha;
      source_snapshot_sha256 = source_snapshot.snapshot_sha256;
      source_device = source_file.device;
      source_inode = source_file.inode;
      old_identity = durable_identity request.broker request.old_session;
      target_identity = durable_identity request.broker request.new_session;
      retired_identity = "moon-mqtt-retired-v1|" <> (request.operation_id <> ("|" <> archive_sha));
      phase = prepared;
      staged_target = none;
      staged_target_sha256 = none;
      created_at = decided_at;
      updated_at = decided_at;
    }

module _ (env : Env) where
  -- The `try` block of `create_journal`. The six calls are the three PRAGMAs, the table, the row and the
  -- COMMIT.
  unfoldable pub journal_body : FilePath → FilePath → JournalRow → Act (Unit {0})
  journal_body staging final row = do
    connection ← sqlite_connect env staging
    sql env
    sql env
    sql env
    sql env
    sql env
    sql env
    page ← draw
    change (
        fill connection (
          journal
            (record {
              user_version = journal_schema_version;
              integrity = "ok";
              objects = journal_objects;
              columns = expected_journal_columns;
              rows = row ∷ [];
            })
            page))
    check ← query_journal env connection
    require (str_eq check.integrity "ok") "new recovery journal failed integrity_check"
    fsync env
    publish_file_no_replace env staging final
    call env

  unfoldable pub create_journal : Request → String → Snapshot → SourceFile → Act (Unit {0})
  unfolding initial_row journal_body
  create_journal request archive_sha source_snapshot source_file = do
    let final = journal_path request
    exists ← gets (path_exists final)
    require (if exists then false else true) "recovery journal already exists"
    staging ← mkstemp env tmp_max final.dir ("." <> (final.name <> ".")) ".tmp"
    call env
    let row = initial_row env.sha256 env.dumps request archive_sha source_snapshot source_file
    finally (journal_body staging final row) (unlink env staging)

  unfoldable pub validate_journal : ℕ → Act (JournalRow × Json)
  validate_journal connection = do
    version ← query_journal env connection
    require (int_eq version.user_version journal_schema_version)
        "unsupported recovery journal version"
    integrity ← query_journal env connection
    require (str_eq integrity.integrity "ok") "recovery journal failed integrity_check"
    objects ← query_journal env connection
    require (is_journal_table objects.objects) "recovery journal schema objects are invalid"
    columns ← query_journal env connection
    require (strs_eq columns.columns expected_journal_columns)
        "recovery journal columns are invalid"
    db ← query_journal env connection
    value ← or_raise (only_row db.rows) (refuse "recovery journal must contain exactly one row")
    require (in_phases value.phase) "unknown recovery phase"
    stored_request ←
        or_raise (env.loads value.request_json) (refuse "recovery journal request is invalid")
    require (bytes_eq (env.dumps stored_request) value.request_json)
        "recovery journal request is not canonical JSON"
    require (str_eq (env.sha256 value.request_json) value.request_sha256)
        "recovery journal request hash does not match"
    archive ← existing_path env value.archive_path "journal archive"
    archive_sha ← sha256_file env archive
    require (str_eq archive_sha value.archive_sha256) "journal archive hash does not match"
    pure (value, stored_request)

  unfoldable pub open_journal : Request → Act (ℕ × JournalRow)
  unfolding validate_journal
  open_journal request = do
    path ← existing_path env (journal_path request) "journal"
    connection ← connect_sqlite env path
    pragma env "recovery journal did not accept synchronous=EXTRA"
    (value, stored_request) ← validate_journal connection
    let request_bytes = env.dumps request.document
    require (bytes_eq value.request_json request_bytes)
        "request differs from the prepared recovery journal"
    require (str_eq value.request_sha256 (env.sha256 request_bytes))
        "journal request hash does not match"
    require (in_phases value.phase) "unknown recovery phase"
    pure (connection, value)

  -- `dict(None)` is a `TypeError`.
  unfoldable pub refresh_journal : ℕ → Act JournalRow
  refresh_journal connection = do
    db ← query_journal env connection
    or_raise (first_singleton db.rows) type_error

  -- The `try` block of `update_phase`.
  unfoldable pub commit_phase : ℕ → Phase → Option FilePath → Option String → Act (Unit {0})
  commit_phase connection phase staged_target staged_sha = do
    sql env
    time ← draw
    sql env
    page ← draw
    change (λ w.
        fill connection
          (update_content phase staged_target staged_sha (env.stamp time) page
            (w.content connection))
          w)

  unfoldable pub update_phase : ℕ → Phase → Option FilePath → Option String → Act JournalRow
  update_phase connection phase staged_target staged_sha = do
    require (in_phases phase) "invalid phase update"
    sql env
    except_raise (commit_phase connection phase staged_target staged_sha) (sql env)
    refresh_journal connection
