-- ===== src/Reads.antt =====
-- The parts of scripts/durable_recovery.py that only read: they leave every file, every directory
-- entry and the history of the broker as they were.
use moon_mqtt_client.Base.{ℕ, String, Bool, List, [], ◌∷◌}
use moon_mqtt_client.Paths.{FilePath}
use moon_mqtt_client.Durable.{Row, Meta, Snapshot}
use moon_mqtt_client.Phase.{JournalRow}
use moon_mqtt_client.Bundle.{SourceFile, Manifest}
use moon_mqtt_client.Request.{Request}
use moon_mqtt_client.Exec.Rules.{Step}
use moon_mqtt_client.World.{Env}
use moon_mqtt_client.World.Frame.{Quiet, quiet_rules}
use moon_mqtt_client.Inspect.{read_rows, metadata, require_schema, snapshot}
use moon_mqtt_client.Journal.{refresh_journal, validate_journal, open_journal}
use moon_mqtt_client.Replacement.{check_target, check_empty, verify_target}
use moon_mqtt_client.Source.{reconcile_source, stat, acquire_resolution_source}
use moon_mqtt_client.Resolution.{check_published, check_raced}

Quiet-read_rows : (rows : List Row) (total : ℕ) → Step Quiet (read_rows rows total)
unfolding read_rows
Quiet-read_rows [] total = search quiet_rules
Quiet-read_rows (row ∷ rows) total =
    search (quiet_rules, λ (t : ℕ). Quiet-read_rows rows t) depth 12

Quiet-metadata : (ms : List Meta) → Step Quiet (metadata ms)
unfolding metadata
Quiet-metadata [] = search quiet_rules
Quiet-metadata (m ∷ []) = search quiet_rules depth 12
Quiet-metadata (m ∷ n ∷ ms) = search quiet_rules

pub Quiet-reconcile_source :
    (j : JournalRow) (s : Snapshot) (m : Manifest) (f : SourceFile)
    → Step Quiet (reconcile_source j s m f)
unfolding reconcile_source
Quiet-reconcile_source j s m f = search quiet_rules depth 12

module _ (env : Env) where
  pub Quiet-require_schema : (i : ℕ) → Step Quiet (require_schema env i)
  unfolding require_schema
  Quiet-require_schema i = search quiet_rules depth 20

  pub Quiet-snapshot : (i : ℕ) → Step Quiet (snapshot env i)
  unfolding snapshot
  Quiet-snapshot i =
      search (quiet_rules, Quiet-require_schema, Quiet-read_rows, Quiet-metadata) depth 25

  pub Quiet-refresh_journal : (i : ℕ) → Step Quiet (refresh_journal env i)
  unfolding refresh_journal
  Quiet-refresh_journal i = search quiet_rules depth 12

  pub Quiet-validate_journal : (i : ℕ) → Step Quiet (validate_journal env i)
  unfolding validate_journal
  Quiet-validate_journal i = search quiet_rules depth 40

  pub Quiet-open_journal : (r : Request) → Step Quiet (open_journal env r)
  unfolding open_journal
  Quiet-open_journal r = search (quiet_rules, Quiet-validate_journal) depth 40

  Quiet-check_empty : (i : ℕ) (m : Meta) → Step Quiet (check_empty env i m)
  unfolding check_empty
  Quiet-check_empty i m = search quiet_rules depth 12

  Quiet-check_target :
      (s : String) (b : Bool) (i : ℕ) (ms : List Meta) → Step Quiet (check_target env s b i ms)
  unfolding check_target
  Quiet-check_target s b i [] = search quiet_rules
  Quiet-check_target s b i (m ∷ ms) = search (quiet_rules, Quiet-check_empty) depth 12

  pub Quiet-verify_target :
      (p : FilePath) (s : String) (b : Bool) → Step Quiet (verify_target env p s b)
  unfolding verify_target
  Quiet-verify_target p s b =
      search (quiet_rules, Quiet-require_schema, Quiet-check_target) depth 20

  pub Quiet-stat : (p : FilePath) → Step Quiet (stat env p)
  unfolding stat
  Quiet-stat p = search quiet_rules depth 12

  pub Quiet-acquire_resolution_source :
      (p : FilePath) → Step Quiet (acquire_resolution_source env p)
  unfolding acquire_resolution_source
  Quiet-acquire_resolution_source p =
      search (quiet_rules, Quiet-stat, Quiet-require_schema, Quiet-snapshot) depth 40

  pub Quiet-check_published :
      (r : Request) (s c : ℕ) (p : FilePath) (j : JournalRow)
      → Step Quiet (check_published env r s c p j)
  unfolding check_published
  Quiet-check_published r s c p j = search (quiet_rules, Quiet-verify_target) depth 20

  pub Quiet-check_raced :
      (r : Request) (s c : ℕ) (j : JournalRow) → Step Quiet (check_raced env r s c j)
  unfolding check_raced
  Quiet-check_raced r s c j = search (quiet_rules, Quiet-verify_target) depth 20
