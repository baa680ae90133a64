-- ===== src/Commands/Main.antt =====
-- The other commands and the exit code: scripts/durable_recovery.py, `export_command`,
-- `status_command` and `main` after its arguments are parsed. A connection that a `finally` block closes
-- and a `ROLLBACK` whose failure is ignored change no file of the model.
use moon_mqtt_client.Base.{ℕ, String, not, Option, none, some, str_eq}
use moon_mqtt_client.Json.{Json}
use moon_mqtt_client.Durable.{Snapshot}
use moon_mqtt_client.Paths.{FilePath, path_eq, with_suffix}
use moon_mqtt_client.Phase.{Phase, JournalRow}
use moon_mqtt_client.Bundle.{SourceFile, Manifest}
use moon_mqtt_client.Exec.{
  Outcome, ok, refused, storage, sqlite, uncaught, killed, pure, require, sqlite_as, ◌>>=◌, ◌>>◌,
}
use moon_mqtt_client.World.{Env, Act, call, sql, gets, path_exists, existing_path, connect_sqlite}
use moon_mqtt_client.Inspect.{snapshot}
use moon_mqtt_client.Validation.{Located, existing_at, prospective_path}
use moon_mqtt_client.Archive.{Zip, verify_archive, build_archive}
use moon_mqtt_client.Journal.{validate_journal}
use moon_mqtt_client.Source.{source_file_eq, stat}
use moon_mqtt_client.Commands.{Report, inspect_command, resolve}

-- The dicts that `export_command`, the `verify` command and `status_command` return.
pub record Exported : Type 0 where
  pub archive : FilePath
  pub sha256 : String
  pub snapshot : Snapshot

pub record Verified : Type 0 where
  pub archive : FilePath
  pub sha256 : String
  pub manifest : Manifest

pub record Status : Type 0 where
  pub operation_id : String
  pub phase : Phase
  pub archive_path : FilePath
  pub archive_sha256 : String
  pub staged_target : Option FilePath
  pub staged_target_sha256 : Option String
  pub created_at : String
  pub updated_at : String

unfoldable pub status_of : JournalRow → Status
status_of row = record {
  operation_id = row.operation_id;
  phase = row.phase;
  archive_path = row.archive_path;
  archive_sha256 = row.archive_sha256;
  staged_target = row.staged_target;
  staged_target_sha256 = row.staged_target_sha256;
  created_at = row.created_at;
  updated_at = row.updated_at;
}

-- The subcommands with their paths; `resume` is `resolve`.
pub data Command : Type 0 where
  inspect : Located → Command
  export : Located → Located → Command
  verify : Located → Command
  resolve_or_resume : Located → Command
  status : Located → Command

pub data Output : Type 0 where
  inspected : Snapshot → Output
  exported : Exported → Output
  verified : Verified → Output
  resolved : Report → Output
  shown : Status → Output

module _ (env : Env) (zip : Zip) (tmpdir : String) where
  -- The `try` block of `export_command`.
  unfoldable pub export_snapshot : ℕ → FilePath → SourceFile → Act (Snapshot × String)
  export_snapshot connection path source_file = sqlite_as "cannot export durable source" (do
    sql env
    value ← snapshot env connection
    sha ← build_archive env zip connection value path "observation" none (some source_file)
    sql env
    verify_archive env zip tmpdir path (some "observation") none
    pure (value, sha))

  unfoldable pub export_command : Located → Located → Act Exported
  unfolding export_snapshot
  export_command source_raw archive_raw = do
    source_path ← existing_at env source_raw "source"
    path ← prospective_path env archive_raw "archive"
    there ← gets (path_exists path)
    require (not there) "refusing to replace existing archive"
    require (not (path_eq source_path path)) "source and archive paths must be distinct"
    connection ← connect_sqlite env source_path
    source_metadata ← stat env source_path
    (value, sha) ← export_snapshot connection path source_metadata
    pure (record { archive = path; sha256 = sha; snapshot = value })

  -- The `try` block of `status_command`.
  unfoldable pub read_status : ℕ → FilePath → Act Status
  unfolding status_of
  read_status connection source = sqlite_as "cannot read recovery journal" (do
    sql env
    (row, request) ← validate_journal env connection
    source_metadata ← stat env source
    let recorded : SourceFile = record { device = row.source_device; inode = row.source_inode }
    require (source_file_eq recorded source_metadata) "journal source file identity does not match"
    path ← existing_path env row.archive_path "journal archive"
    (manifest, sha) ← verify_archive env zip tmpdir path (some "resolution") (some request)
    require (str_eq sha row.archive_sha256) "journal archive bytes do not match"
    sql env
    pure (status_of row))

  unfoldable pub status_command : Located → Act Status
  unfolding read_status
  status_command source_raw = do
    source ← existing_at env source_raw "source"
    path ← existing_path env (with_suffix source ".recovery.sqlite3") "journal"
    connection ← connect_sqlite env path
    read_status connection source

  unfoldable pub verify_command : Located → Act Verified
  verify_command archive_raw = do
    path ← existing_at env archive_raw "archive"
    (manifest, sha) ← verify_archive env zip tmpdir path none none
    pure (record { archive = path; sha256 = sha; manifest = manifest })

  unfoldable pub run_command : (Json → Located) → Command → Act Output
  run_command locate (inspect source) = inspect_command env source >>= (λ r. pure (inspected r))
  run_command locate (export source path) = export_command source path >>= (λ r. pure (exported r))
  run_command locate (verify path) = verify_command path >>= (λ r. pure (verified r))
  run_command locate (resolve_or_resume path) = do
    request_path ← existing_at env path "request"
    report ← resolve env zip tmpdir locate request_path
    pure (resolved report)
  run_command locate (status source) = status_command source >>= (λ r. pure (shown r))

  -- `except RecoveryError` and `except (OSError, sqlite3.Error)`: both print and return 2.
  abbrev pub exit_code : Outcome ℕ → Outcome ℕ
  exit_code (ok n) = ok n
  exit_code (refused reason) = ok 2
  exit_code storage = ok 2
  exit_code sqlite = ok 2
  exit_code uncaught = uncaught
  exit_code killed = killed

  -- The last call is the write to the standard output.
  unfoldable pub main : (Json → Located) → Command → Act ℕ
  unfolding run_command
  main locate command w =
      let (r, w') = (run_command locate command >>= (λ output. call env >> pure 0)) w in
      (exit_code r, w')
