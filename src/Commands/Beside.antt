-- ===== src/Commands/Beside.antt =====
-- What the commands of scripts/durable_recovery.py leave alone: only `resolve` writes something that was
-- there, and it only writes the source and the journal.
use moon_mqtt_client.Base.{ℕ, Bool, true, false, ◌≡◌, Option, String}
use moon_mqtt_client.Json.{Json}
use moon_mqtt_client.Paths.{FilePath}
use moon_mqtt_client.Durable.{Snapshot}
use moon_mqtt_client.Bundle.{SourceFile}
use moon_mqtt_client.Request.{Request}
use moon_mqtt_client.Exec.{◌>>◌, pure}
use moon_mqtt_client.Exec.Rules.{
  IsPreorder, Step, Step-weaken, Step-bind, Step-then, step_rules, Meets, Meets-bind, Meets-then,
  Meets-step, Meets-always, Meets-weaken,
}
use moon_mqtt_client.World.{Env, World, Act, call}
use moon_mqtt_client.World.Frame.{Quiet, Quiet-call, quiet_rules}
use moon_mqtt_client.World.Changes.{Frame, Frame-IsPreorder, Frame_of_Quiet}
use moon_mqtt_client.Validation.{
  Located, located, missing, no_directory, existing_at, prospective_path,
}
use moon_mqtt_client.Archive.{Zip, verify_archive, build_archive}
use moon_mqtt_client.Journal.{create_journal}
use moon_mqtt_client.Source.{validate_decisions}
use moon_mqtt_client.Reads.{Quiet-snapshot, Quiet-validate_journal, Quiet-stat}
use moon_mqtt_client.Effects.Temporary.{Spares, Intact, no_inode, no_name}
use moon_mqtt_client.Effects.Prepared.{
  create_journal-Spares, build_archive-Spares, verify_archive-Spares,
}
use moon_mqtt_client.Commands.{
  observation_snapshot, inspect_command, prepare_archive, prepare_resolution,
}
use moon_mqtt_client.Commands.Main.{
  Command, inspect, export, verify, resolve_or_resume, status, export_snapshot, export_command,
  read_status, status_command, verify_command, run_command, main,
}

-- What is spared from every world is kept.
Keeps_of_Spares : {A : Type 0} (m : Act A) → ((w0 : World) → Step (Spares w0) m) → Step Intact m
Keeps_of_Spares m km = record {
  at = λ w. ((km w).at w).spared ((Frame-IsPreorder no_inode no_name).same w);
}

pub order : IsPreorder Intact
order = Frame-IsPreorder no_inode no_name

pub quietly : {A : Type 0} (m : Act A) → Step Quiet m → Step Intact m
quietly m = Frame_of_Quiet no_inode no_name m

pub ruleset intact_rules = (step_rules, order, quietly, quiet_rules)

abbrev pub is_resolve : Command → Bool
is_resolve (resolve_or_resume path) = true
is_resolve _ = false

Quiet-existing_at :
    (env : Env) (l : Located) (label : String) → Step Quiet (existing_at env l label)
unfolding existing_at
Quiet-existing_at env (located p) label = search quiet_rules
Quiet-existing_at env missing label = search quiet_rules
Quiet-existing_at env no_directory label = search quiet_rules

Quiet-prospective_path :
    (env : Env) (l : Located) (label : String) → Step Quiet (prospective_path env l label)
unfolding prospective_path
Quiet-prospective_path env (located p) label = search quiet_rules
Quiet-prospective_path env missing label = search quiet_rules
Quiet-prospective_path env no_directory label = search quiet_rules

Quiet-validate_decisions : (r : Request) (s : Snapshot) → Step Quiet (validate_decisions r s)
unfolding validate_decisions
Quiet-validate_decisions r s = search quiet_rules depth 12

module _ (env : Env) where
  observe : (path : FilePath) → Step Quiet (observation_snapshot env path)
  unfolding observation_snapshot
  observe path = search (quiet_rules, Quiet-snapshot) depth 12

  inspected : (source : Located) → Step Quiet (inspect_command env source)
  unfolding inspect_command
  inspected source = search (quiet_rules, observe, Quiet-existing_at) depth 12

module _ (env : Env) (zip : Zip) (tmpdir : String) where
  pub archive_checked :
      (path : FilePath) (k : Option String) (r : Option Json)
      → Step Intact (verify_archive env zip tmpdir path k r)
  archive_checked path k r =
      Keeps_of_Spares _ λ w0. verify_archive-Spares env w0 zip tmpdir path k r

  archive_built :
      (source : ℕ) (value : Snapshot) (path : FilePath) (kind : String) (r : Option Json)
      (file : Option SourceFile)
      → Step Intact (build_archive env zip source value path kind r file)
  archive_built source value path kind r file =
      Keeps_of_Spares _ λ w0. build_archive-Spares env w0 zip source value path kind r file

  journal_created :
      (request : Request) (sha : String) (value : Snapshot) (file : SourceFile)
      → Step Intact (create_journal env request sha value file)
  journal_created request sha value file =
      Keeps_of_Spares _ λ w0. create_journal-Spares env w0 request sha value file

  archive_prepared :
      (request : Request) (source : ℕ) (value : Snapshot) (file : SourceFile) (there : Bool)
      → Step Intact (prepare_archive env zip tmpdir request source value file there)
  unfolding prepare_archive
  archive_prepared request source value file true = search (intact_rules, archive_checked) depth 12
  archive_prepared request source value file false =
      search (intact_rules, archive_checked, archive_built) depth 12

  pub prepared :
      (request : Request) (source : ℕ) (value : Snapshot) (file : SourceFile)
      → Step Intact (prepare_resolution env zip tmpdir request source value file)
  unfolding prepare_resolution
  prepared request source value file =
      search (intact_rules, archive_prepared, journal_created, Quiet-validate_decisions, Quiet-stat)
        depth 20

  snapshot_exported :
      (connection : ℕ) (path : FilePath) (file : SourceFile)
      → Step Intact (export_snapshot env zip tmpdir connection path file)
  unfolding export_snapshot
  snapshot_exported connection path file =
      search (intact_rules, archive_checked, archive_built, Quiet-snapshot) depth 12

  exported : (source path : Located) → Step Intact (export_command env zip tmpdir source path)
  unfolding export_command
  exported source path =
      search
        (intact_rules, snapshot_exported, Quiet-existing_at, Quiet-prospective_path, Quiet-stat)
        depth 25 fits 20000

  status_read : (i : ℕ) (source : FilePath) → Step Intact (read_status env zip tmpdir i source)
  unfolding read_status
  status_read i source =
      search (intact_rules, archive_checked, Quiet-validate_journal, Quiet-stat) depth 25

  shown : (source : Located) → Step Intact (status_command env zip tmpdir source)
  unfolding status_command
  shown source = search (intact_rules, status_read, Quiet-existing_at) depth 12

  checked : (path : Located) → Step Intact (verify_command env zip tmpdir path)
  unfolding verify_command
  checked path = search (intact_rules, archive_checked, Quiet-existing_at) depth 12

  -- The commands that resolve nothing.
  command_run :
      (locate : Json → Located) (command : Command)
      → is_resolve command ≡ false
      → Step Intact (run_command env zip tmpdir locate command)
  unfolding run_command
  command_run locate (inspect source) h = search (intact_rules, inspected)
  command_run locate (export source path) h = search (intact_rules, exported)
  command_run locate (verify path) h = search (intact_rules, checked)
  command_run locate (resolve_or_resume path) h = absurd cc
  command_run locate (status source) h = search (intact_rules, shown)

  Step-main :
      (locate : Json → Located) (command : Command)
      → Step Intact (run_command env zip tmpdir locate command)
      → Step Intact (main env zip tmpdir locate command)
  unfolding main
  Step-main locate command km = record {
    at = λ w.
        (Step-bind order (run_command env zip tmpdir locate command) (λ output. call env >> pure 0)
            km (λ output. search intact_rules)).at
          w;
  }

-- However `main` ends with the command inspect, export, verify or status, and whatever fails on the way,
-- every file that was there holds what it held and every directory entry that was there leads where it
-- led.
pub main-Frame :
    (env : Env) (zip : Zip) (tmpdir : String) (locate : Json → Located) (command : Command)
    (w : World)
    → is_resolve command ≡ false
    → Frame (λ i. false) (λ p. false) w (main env zip tmpdir locate command w).1
main-Frame env zip tmpdir locate command w h =
    (Step-main env zip tmpdir locate command (command_run env zip tmpdir locate command h)).at w
