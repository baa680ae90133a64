-- ===== src/Bundle.antt =====
-- A recovery archive: a ZIP file with the members `source.sqlite3` and `manifest.json`.
-- scripts/durable_recovery.py, `archive_manifest`, `build_archive`, `verify_archive`.
use moon_mqtt_client.Base.{ℕ, String, Bool, List, Option}
use moon_mqtt_client.Durable.{Snapshot, Database}
use moon_mqtt_client.Json.{Json}

-- The dict with the keys `device` and `inode`.
pub record SourceFile : Type 0 where
  pub device : ℕ
  pub inode : ℕ

pub record Manifest : Type 0 where
  pub archive_format_version : ℕ
  pub kind : String
  pub snapshot : Snapshot
  pub source_file : SourceFile
  pub source_database_sha256 : String
  pub request : Option Json
  pub request_sha256 : Option String

-- What a member holds: the bytes of a database file, the text of a manifest (with whether that
-- text is its canonical rendering), or other bytes.
pub data Member : Type 0 where
  database : Database → ℕ → Member
  document : Manifest → Bool → Member
  raw : List ℕ → Member

pub record Entry : Type 0 where
  pub filename : String
  pub date_time : List ℕ
  pub compress_type : ℕ
  pub create_system : ℕ
  pub external_attr : ℕ
  pub extra : List ℕ
  pub comment : List ℕ
  pub compress_size : ℕ
  pub file_size : ℕ
  pub body : Member

pub record Bundle : Type 0 where
  pub size : ℕ
  pub end_record : List ℕ
  pub entries : List Entry
