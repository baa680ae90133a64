-- ===== src/Commands.antt =====
-- The commands: scripts/durable_recovery.py, `observation_snapshot`, `inspect_command`,
-- `prepare_resolution` and `resolve`. Closing a connection changes no file of the model.
pub mod Main
pub mod Beside
pub mod Resolved
use moon_mqtt_client.Base.{
  ℕ, String, Bool, true, false, not, ◌&&◌, Option, none, some, str_eq, List,
}
use moon_mqtt_client.Json.{Json}
use moon_mqtt_client.Durable.{Snapshot}
use moon_mqtt_client.Durable.Equal.{snapshot_eq}
use moon_mqtt_client.Paths.{FilePath}
use moon_mqtt_client.Phase.{Phase}
use moon_mqtt_client.Bundle.{SourceFile}
use moon_mqtt_client.Request.{Request, journal_path}
use moon_mqtt_client.Identity.{durable_identity}
use moon_mqtt_client.Exec.{
  pure, refuse, require, or_raise, when, storage_as, sqlite_as, ◌>>=◌, ◌>>◌,
}
use moon_mqtt_client.World.{
  Env, Content, Act, call, sql, gets, follow, lexists, path_exists, existing_path, connect_sqlite,
  maybe_fail, raise_storage,
}
use moon_mqtt_client.Inspect.{snapshot}
use moon_mqtt_client.Validation.{Located, existing_at, validate_request}
use moon_mqtt_client.Archive.{Zip, verify_archive, build_archive}
use moon_mqtt_client.Journal.{create_journal, open_journal}
use moon_mqtt_client.Source.{source_file_eq, validate_decisions, stat, acquire_resolution_source}
use moon_mqtt_client.Resolution.{advance_resolution}

-- The dict that `resolve` returns.
pub record Report : Type 0 where
  pub operation_id : String
  pub phase : Phase
  pub source : FilePath
  pub archive : FilePath
  pub target : FilePath

abbrev bytes_of : Content → Option (List ℕ)
bytes_of (Content.bytes b) = some b
bytes_of _ = none

module _ (env : Env) where
  -- Between `BEGIN` and `COMMIT`, or `ROLLBACK`.
  unfoldable pub observation_snapshot : FilePath → Act Snapshot
  observation_snapshot path = do
    connection ← connect_sqlite env path
    sqlite_as "cannot inspect durable source"
        (do sql env; result ← snapshot env connection; sql env; pure result)

  unfoldable pub inspect_command : Located → Act Snapshot
  unfolding observation_snapshot
  inspect_command source_raw = existing_at env source_raw "source" >>= observation_snapshot

module _ (env : Env) (zip : Zip) (tmpdir : String) where
  -- The archive's hash: of an archive that is there, or of a new one.
  unfoldable pub prepare_archive : Request → ℕ → Snapshot → SourceFile → Bool → Act String
  prepare_archive request source source_snapshot source_file true = do
    (manifest, sha) ←
        verify_archive env zip tmpdir request.archive (some "resolution") (some request.document)
    require (snapshot_eq manifest.snapshot source_snapshot)
        "existing archive snapshot does not match source"
    require (source_file_eq manifest.source_file source_file)
        "existing archive belongs to a different source file"
    pure sha
  prepare_archive request source source_snapshot source_file false = do
    sha ←
        build_archive env zip source source_snapshot request.archive "resolution"
          (some request.document) (some source_file)
    verify_archive env zip tmpdir request.archive (some "resolution") (some request.document)
    maybe_fail env "after_archive_publish"
    pure sha

  unfoldable pub prepare_resolution : Request → ℕ → Snapshot → SourceFile → Act (Unit {0})
  prepare_resolution request source source_snapshot source_file = do
    require (str_eq source_snapshot.identity (durable_identity request.broker request.old_session))
        "source identity does not match old_session"
    validate_decisions request source_snapshot
    archived ← gets (path_exists request.archive)
    archive_sha ← prepare_archive request source source_snapshot source_file archived
    current_file ← stat env request.source
    require (source_file_eq current_file source_file)
        "source path changed before journal publication"
    create_journal env request archive_sha source_snapshot source_file
    maybe_fail env "after_journal_publish"

  -- `json.loads(request_path.read_text(encoding="utf-8"))`
  unfoldable pub read_request : FilePath → Act Json
  read_request path = storage_as "cannot read recovery request" (do
    call env
    found ← gets (λ w. follow w (w.entry path))
    i ← or_raise found raise_storage
    content ← gets (λ w. w.content i)
    request_bytes ← or_raise (bytes_of content) (refuse "cannot read recovery request")
    or_raise (env.loads request_bytes) (refuse "cannot read recovery request"))

  -- What follows `acquire_resolution_source`.
  unfoldable pub run_resolution : Request → ℕ → Snapshot → SourceFile → Act Report
  run_resolution request source source_snapshot source_file = do
    prepared ← gets (path_exists (journal_path request))
    when (not prepared) (prepare_resolution request source source_snapshot source_file)
    (journal_connection, journal) ← open_journal env request
    path ← existing_path env request.archive "archive"
    (manifest, archive_sha) ←
        verify_archive env zip tmpdir path (some "resolution") (some request.document)
    require (str_eq archive_sha journal.archive_sha256)
        "archive bytes differ from the prepared journal"
    result ←
        advance_resolution env request source journal_connection source_snapshot journal manifest
          source_file
    pure (record {
      operation_id = result.operation_id;
      phase = result.phase;
      source = request.source;
      archive = request.archive;
      target = request.target;
    })

  unfoldable pub resolve : (Json → Located) → FilePath → Act Report
  resolve locate request_path = do
    value ← read_request request_path
    request ← validate_request env locate value
    journal_there ← gets (lexists (journal_path request))
    target_there ← gets (lexists request.target)
    require (not (not journal_there && target_there))
        "target must be absent before a new recovery operation"
    (source, source_snapshot, source_file) ← acquire_resolution_source env request.source
    run_resolution request source source_snapshot source_file
