-- ===== src/Resolution.antt =====
-- The phases of a resolution: scripts/durable_recovery.py, `advance_resolution`, one definition for
-- each block that tests `journal["phase"]`.
pub mod Isolation
pub mod Order
pub mod Ordered
pub mod Steps
pub mod Cleanup
pub mod Staged
pub mod Publication
pub mod Resumed
pub mod Retirement
pub mod Completes
use Prim.Native.String.{◌++◌ as ◌<>◌}
use package.text.Mathlib.Text.{starts_with}
use moon_mqtt_client.Base.{ℕ, true, false, not, ◌&&◌, none, some, str_eq, if◌then◌else◌}
use moon_mqtt_client.Durable.{Snapshot}
use moon_mqtt_client.Paths.{FilePath}
use moon_mqtt_client.Phase.{
  Phase, prepared, source_retired, old_clean_requested, old_clean_confirmed, new_clean_requested,
  new_clean_confirmed, replacement_ready, replacement_published, complete, phase_eq, JournalRow,
}
use moon_mqtt_client.Bundle.{SourceFile, Manifest}
use moon_mqtt_client.Request.{Request}
use moon_mqtt_client.Exec.{pure, refuse, require, or_raise, when, ◌>>=◌, ◌>>◌}
use moon_mqtt_client.World.{
  Env, Act, gets, lexists, follow, link_file, unlink, fsync, existing_path, sha256_file, maybe_fail,
  type_error, str_is,
}
use moon_mqtt_client.Inspect.{snapshot}
use moon_mqtt_client.Journal.{update_phase}
use moon_mqtt_client.Broker.{clean_broker_session}
use moon_mqtt_client.Replacement.{create_replacement, verify_target, same_inode}
use moon_mqtt_client.Source.{reconcile_source, retire_source}

module _ (env : Env) (request : Request) (source connection : ℕ) where
  -- `update_phase(journal_connection, phase)`
  abbrev to_phase : Phase → Act JournalRow
  to_phase phase = update_phase env connection phase none none

  unfoldable pub retire_step : Snapshot → Manifest → SourceFile → JournalRow → Act JournalRow
  retire_step source_snapshot manifest source_file journal =
      if phase_eq journal.phase prepared
      then (do
        when (str_eq source_snapshot.identity journal.old_identity)
            (retire_source env source journal)
        journal' ← to_phase source_retired
        source_snapshot' ← snapshot env source
        reconcile_source journal' source_snapshot' manifest source_file
        pure journal')
      else pure journal

  -- `SourceRetired` to `NewCleanConfirmed`.
  unfoldable pub old_request_step : JournalRow → Act JournalRow
  old_request_step journal =
      if phase_eq journal.phase source_retired then to_phase old_clean_requested else pure journal

  unfoldable pub old_clean_step : JournalRow → Act JournalRow
  old_clean_step journal =
      if phase_eq journal.phase old_clean_requested
      then (do
        clean_broker_session env request request.old_session
        maybe_fail env "after_old_clean"
        to_phase old_clean_confirmed)
      else pure journal

  unfoldable pub new_request_step : JournalRow → Act JournalRow
  new_request_step journal =
      if phase_eq journal.phase old_clean_confirmed
      then to_phase new_clean_requested
      else pure journal

  unfoldable pub new_clean_step : JournalRow → Act JournalRow
  new_clean_step journal =
      if phase_eq journal.phase new_clean_requested
      then (do
        clean_broker_session env request request.new_session
        maybe_fail env "after_new_clean"
        to_phase new_clean_confirmed)
      else pure journal

  -- `create_replacement`, and the phase update that records the staging file.
  unfoldable pub stage_replacement : JournalRow → Act (FilePath × JournalRow)
  stage_replacement journal = do
    (stage, stage_sha) ← create_replacement env request.target journal.target_identity
    journal' ← update_phase env connection replacement_ready (some stage) (some stage_sha)
    pure (stage, journal')

  unfoldable pub ready_step : JournalRow → Act JournalRow
  ready_step journal =
      if phase_eq journal.phase new_clean_confirmed
      then (do
        target_exists ← gets (lexists request.target)
        require (not target_exists) "target exists before replacement publication"
        (stage, journal') ← stage_replacement journal
        maybe_fail env "after_replacement_ready"
        pure journal')
      else pure journal

  -- The target is there: it must be the staged file.
  unfoldable pub check_published : FilePath → JournalRow → Act (Unit {0})
  check_published recorded_stage journal = do
    verify_target env request.target journal.target_identity true
    sha ← sha256_file env request.target
    require (str_is sha journal.staged_target_sha256)
        "existing target is not this operation's staged replacement"
    staged ← gets (lexists recorded_stage)
    same ←
        gets
          (λ w. same_inode (follow w (w.entry recorded_stage)) (follow w (w.entry request.target)))
    require (if staged then same else true)
        "published target is not linked to the recorded staging file"

  -- The recorded staging file, made again if it is gone.
  unfoldable pub restage : FilePath → JournalRow → Act (FilePath × JournalRow)
  restage recorded_stage journal = do
    staged ← gets (lexists recorded_stage)
    if staged
        then existing_path env recorded_stage "replacement staging file"
          >>= (λ _. pure (recorded_stage, journal))
        else stage_replacement journal

  -- `except FileExistsError`: another process has put a file there.
  unfoldable pub check_raced : JournalRow → Act (Unit {0})
  check_raced journal = do
    verify_target env request.target journal.target_identity true
    sha ← sha256_file env request.target
    require (str_is sha journal.staged_target_sha256) "target publication raced with another file"

  -- The link itself, and what follows it.
  unfoldable pub link_target : FilePath → JournalRow → Act (Unit {0})
  link_target stage journal = do
    verify_target env stage journal.target_identity true
    sha ← sha256_file env stage
    require (str_is sha journal.staged_target_sha256) "replacement staging file hash changed"
    linked ← link_file env stage request.target
    when (not linked) (check_raced journal)
    fsync env
    maybe_fail env "after_target_publish"

  unfoldable pub publish_target : FilePath → JournalRow → Act FilePath
  publish_target recorded_stage journal = do
    (stage, journal') ← restage recorded_stage journal
    link_target stage journal'
    pure stage

  -- The `ReplacementReady` block after the staging path is checked.
  unfoldable pub publish_from : FilePath → JournalRow → Act JournalRow
  publish_from recorded_stage journal = do
    require
        (str_eq recorded_stage.dir request.target.dir
          && starts_with recorded_stage.name ("." <> (request.target.name <> ".recovery-")))
        "journal replacement staging path is invalid"
    target_exists ← gets (lexists request.target)
    stage ←
        if target_exists
        then check_published recorded_stage journal >>= (λ _. pure recorded_stage)
        else publish_target recorded_stage journal
    unlink env stage
    fsync env
    to_phase replacement_published

  unfoldable pub publish_step : JournalRow → Act JournalRow
  publish_step journal =
      if phase_eq journal.phase replacement_ready
      then (do
        recorded_stage ← or_raise journal.staged_target type_error
        publish_from recorded_stage journal)
      else pure journal

  unfoldable pub complete_step : JournalRow → Act JournalRow
  complete_step journal =
      if phase_eq journal.phase replacement_published
      then (do verify_target env request.target journal.target_identity false; to_phase complete)
      else pure journal

  unfoldable pub final_step : JournalRow → Act JournalRow
  final_step journal =
      if phase_eq journal.phase complete
      then (do verify_target env request.target journal.target_identity false; pure journal)
      else refuse "recovery stopped in unexpected phase"

  -- The cleanups of the broker's sessions.
  unfoldable pub clean_steps : JournalRow → Act JournalRow
  clean_steps journal = do
    j1 ← old_request_step journal
    j2 ← old_clean_step j1
    j3 ← new_request_step j2
    new_clean_step j3

  -- The replacement of the target.
  unfoldable pub target_steps : JournalRow → Act JournalRow
  target_steps journal = do
    j1 ← ready_step journal
    j2 ← publish_step j1
    j3 ← complete_step j2
    final_step j3

  unfoldable pub advance_resolution : Snapshot → JournalRow → Manifest → SourceFile → Act JournalRow
  advance_resolution source_snapshot journal manifest source_file = do
    reconcile_source journal source_snapshot manifest source_file
    archive_sha ← sha256_file env request.archive
    require (str_eq archive_sha journal.archive_sha256)
        "archive hash differs from the prepared journal"
    j1 ← retire_step source_snapshot manifest source_file journal
    j2 ← clean_steps j1
    target_steps j2
