-- ===== src/Tests/Fixture.antt =====
-- Test data: an environment in which every call works, a request, and a world with the source, the
-- archive and a journal of a resolution that is prepared.
use moon_mqtt_client.Base.{true, false, none, some, [], ◌∷◌, if◌then◌else◌, ◌==◌}
use moon_mqtt_client.Base.Int.{pos, finite}
use moon_mqtt_client.Sqlite.{null, integer, text, blob}
use moon_mqtt_client.Paths.{FilePath, path_eq}
use moon_mqtt_client.Durable.{Row, Database, Snapshot}
use moon_mqtt_client.Phase.{prepared, JournalRow, JournalDb, expected_journal_columns}
use moon_mqtt_client.Bundle.{SourceFile, Manifest, database, document, raw}
use moon_mqtt_client.Archive.{Zip}
use moon_mqtt_client.Request.{mqtt311, abandoned_unknown, Request}
use moon_mqtt_client.Replacement.{new_database}
use moon_mqtt_client.World.{World, Env, fine, returned, connack, blank, durable, journal, bytes}

abbrev pub env : Env
env = record {
  fault = λ n. fine;
  reply = λ n c. returned 0 (connack false false none);
  digest = λ c. "d";
  fingerprint = λ b i. "f";
  stamp = λ n. "later";
  temp = λ n. "x";
  getenv = λ s. none;
  accepts = λ n. true;
  sha256 = λ b. "h";
  dumps = λ j. [];
  loads = λ b. some moon_mqtt_client.Json.Json.null;
  device = λ s. 7;
}

abbrev pub source_path : FilePath
source_path = record { dir = "/data"; name = "old.sqlite3" }

abbrev pub archive_path : FilePath
archive_path = record { dir = "/data"; name = "old.mqttrec" }

abbrev pub journal_file : FilePath
journal_file = record { dir = "/data"; name = "old.sqlite3.recovery.sqlite3" }

abbrev pub target_path : FilePath
target_path = record { dir = "/data"; name = "new.sqlite3" }

abbrev pub request : Request
request = record {
  operation_id = "op";
  source = source_path;
  archive = archive_path;
  target = target_path;
  broker = record {
    host = "h";
    port = 1883;
    protocol = mqtt311;
    username = none;
    password_env = none;
    timeout_seconds = finite (pos 5) 0;
  };
  old_session = record { client_id = "a"; session_expiry_secs = 0 };
  new_session = record { client_id = "b"; session_expiry_secs = 0 };
  decision = record {
    operator = "me";
    decided_at = "now";
    rationale = "why";
    records = record { delivery_id = "m"; disposition = abandoned_unknown } ∷ [];
  };
  document = moon_mqtt_client.Json.Json.null;
}

abbrev pub outbox_row : Row
outbox_row = record {
  delivery_id = text "m";
  packet_id = null;
  sequence = integer (pos 1);
  topic = text "t";
  payload = blob (1 ∷ []);
  properties = blob [];
  message_expiry_at_ms = null;
  retain = integer (pos 0);
  expires_at_ms = null;
  attempts = integer (pos 0);
  ever_started = integer (pos 1);
  state = integer (pos 1);
  reason = null;
}

abbrev pub source_db : Database
source_db = record (new_database "old") { outbox = outbox_row ∷ [] }

abbrev pub source_snapshot : Snapshot
source_snapshot = record {
  body = record {
    schema_version = integer (pos 2);
    next_sequence = integer (pos 1);
    known_session = false;
    records =
        record {
          delivery_id = text "m";
          packet_id = null;
          sequence = integer (pos 1);
          topic = text "t";
          payload = 1 ∷ [];
          properties = [];
          message_expiry_at_ms = null;
          retain = false;
          expires_at_ms = null;
          attempts = integer (pos 0);
          ever_started = true;
          state = "Blocked";
          cause = null;
        }
        ∷ [];
  };
  identity = "old";
  snapshot_sha256 = "f";
}

abbrev pub source_file : SourceFile
source_file = record { device = 7; inode = 0 }

abbrev pub manifest : Manifest
manifest = record {
  archive_format_version = 1;
  kind = "resolution";
  snapshot = source_snapshot;
  source_file = source_file;
  source_database_sha256 = "d";
  request = none;
  request_sha256 = none;
}

abbrev pub prepared_row : JournalRow
prepared_row = record {
  singleton = 1;
  schema_version = 1;
  operation_id = "op";
  request_json = [];
  request_sha256 = "h";
  archive_path = archive_path;
  archive_sha256 = "d";
  source_snapshot_sha256 = "f";
  source_device = 7;
  source_inode = 0;
  old_identity = "old";
  target_identity = "new";
  retired_identity = "retired";
  phase = prepared;
  staged_target = none;
  staged_target_sha256 = none;
  created_at = "now";
  updated_at = "now";
}

abbrev pub journal_db : JournalDb
journal_db = record {
  user_version = pos 1;
  integrity = "ok";
  objects =
      record { object_type = "table"; name = "recovery_journal"; table_name = "recovery_journal" }
      ∷ [];
  columns = expected_journal_columns;
  rows = prepared_row ∷ [];
}

-- The source is inode 0, the archive inode 1, the journal inode 2.
abbrev pub world : World
world = record {
  entry = λ p.
      if path_eq p source_path
      then some 0
      else if path_eq p archive_path
      then some 1
      else if path_eq p journal_file
      then some 2
      else none;
  content = λ i.
      if i == 0
      then durable source_db 0
      else if i == 1
      then bytes []
      else if i == 2
      then journal journal_db 0
      else blank;
  fresh = 3;
  now = 0;
  exchanges = [];
}

abbrev pub zip : Zip
zip = record {
  size_of = λ m. 10;
  content_of =
      λ m. elim m [ database d n ↦ durable d n | document d c ↦ bytes [] | raw b ↦ bytes b ];
  pack = λ es. record {
    size = 200;
    end_record =
        80 ∷ 75 ∷ 5 ∷ 6 ∷ 0 ∷ 0 ∷ 0 ∷ 0 ∷ 2 ∷ 0 ∷ 2 ∷ 0 ∷ 9 ∷ 0 ∷ 0 ∷ 0 ∷ 9 ∷ 0 ∷ 0 ∷ 0 ∷ 0 ∷ 0
        ∷ [];
    entries = es;
  };
}
