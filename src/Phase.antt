-- ===== src/Phase.antt =====
-- The phases of a resolution and the recovery journal that records them:
-- scripts/durable_recovery.py, `PHASES`, `JOURNAL_SQL`, `EXPECTED_JOURNAL_COLUMNS`.
use moon_mqtt_client.Base.{ℕ, String, Bool, true, false, List, [], ◌∷◌, Option}
use moon_mqtt_client.Base.Int.{ℤ, pos}
use moon_mqtt_client.Durable.{SchemaObject}
use moon_mqtt_client.Paths.{FilePath}

-- The text of the column `phase`; `unknown` is a text that is not in `PHASES`.
pub data Phase : Type 0 where
  prepared source_retired old_clean_requested old_clean_confirmed : Phase
  new_clean_requested new_clean_confirmed replacement_ready replacement_published : Phase
  complete : Phase
  unknown : String → Phase

-- `phase in PHASES`
abbrev pub in_phases : Phase → Bool
in_phases prepared = true
in_phases (unknown s) = false
in_phases _ = true

-- The position of a phase in `PHASES`.
abbrev pub rank : Phase → ℕ
rank prepared = 0
rank source_retired = 1
rank old_clean_requested = 2
rank old_clean_confirmed = 3
rank new_clean_requested = 4
rank new_clean_confirmed = 5
rank replacement_ready = 6
rank replacement_published = 7
rank complete = 8
rank (unknown s) = 0

-- `a == b` on phases, for `b` in `PHASES`.
abbrev pub phase_eq : Phase → Phase → Bool
phase_eq prepared prepared = true
phase_eq source_retired source_retired = true
phase_eq old_clean_requested old_clean_requested = true
phase_eq old_clean_confirmed old_clean_confirmed = true
phase_eq new_clean_requested new_clean_requested = true
phase_eq new_clean_confirmed new_clean_confirmed = true
phase_eq replacement_ready replacement_ready = true
phase_eq replacement_published replacement_published = true
phase_eq complete complete = true
phase_eq _ _ = false

-- A row of `recovery_journal`.
pub record JournalRow : Type 0 where
  pub singleton : ℕ
  pub schema_version : ℕ
  pub operation_id : String
  pub request_json : List ℕ
  pub request_sha256 : String
  pub archive_path : FilePath
  pub archive_sha256 : String
  pub source_snapshot_sha256 : String
  pub source_device : ℕ
  pub source_inode : ℕ
  pub old_identity : String
  pub target_identity : String
  pub retired_identity : String
  pub phase : Phase
  pub staged_target : Option FilePath
  pub staged_target_sha256 : Option String
  pub created_at : String
  pub updated_at : String

-- The journal's file. `objects` leaves out the names that begin with `sqlite_`.
pub record JournalDb : Type 0 where
  pub user_version : ℤ
  pub integrity : String
  pub objects : List SchemaObject
  pub columns : List String
  pub rows : List JournalRow

abbrev pub journal_schema_version : ℤ
journal_schema_version = pos 1

abbrev pub expected_journal_columns : List String
expected_journal_columns =
    "singleton" ∷ "schema_version" ∷ "operation_id" ∷ "request_json" ∷ "request_sha256"
    ∷ "archive_path" ∷ "archive_sha256" ∷ "source_snapshot_sha256" ∷ "source_device"
    ∷ "source_inode" ∷ "old_identity" ∷ "target_identity" ∷ "retired_identity" ∷ "phase"
    ∷ "staged_target" ∷ "staged_target_sha256" ∷ "created_at" ∷ "updated_at" ∷ []
