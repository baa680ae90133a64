-- ===== src/Durable.antt =====
-- The durable store as scripts/durable_recovery.py reads it: the tables `durable_meta` and
-- `durable_outbox` of a SQLite file, its schema, and the snapshot that the tool makes of them.
pub mod Equal
use moon_mqtt_client.Base.{ℕ, String, Bool, List, [], ◌∷◌}
use moon_mqtt_client.Base.Int.{ℤ, pos}
use moon_mqtt_client.Sqlite.{Cell}

-- A row of `durable_outbox`.
pub record Row : Type 0 where
  pub delivery_id : Cell
  pub packet_id : Cell
  pub sequence : Cell
  pub topic : Cell
  pub payload : Cell
  pub properties : Cell
  pub message_expiry_at_ms : Cell
  pub retain : Cell
  pub expires_at_ms : Cell
  pub attempts : Cell
  pub ever_started : Cell
  pub state : Cell
  pub reason : Cell

-- A row of `durable_meta`.
pub record Meta : Type 0 where
  pub singleton : Cell
  pub schema_version : Cell
  pub identity : Cell
  pub next_sequence : Cell
  pub known_session : Cell

-- A row of `sqlite_master`: type, name and tbl_name.
pub record SchemaObject : Type 0 where
  pub object_type : String
  pub name : String
  pub table_name : String

-- What the statements of the tool read from a database file. `integrity` is the first row of
-- `PRAGMA integrity_check`.
pub record Database : Type 0 where
  pub integrity : String
  pub user_version : ℤ
  pub objects : List SchemaObject
  pub meta_columns : List String
  pub outbox_columns : List String
  pub page_size : ℕ
  pub page_count : ℕ
  pub meta : List Meta
  pub outbox : List Row

abbrev pub durable_schema_version : ℤ
durable_schema_version = pos 2

abbrev pub max_source_bytes : ℕ
max_source_bytes = 536870912

abbrev pub max_records : ℕ
max_records = 65535

abbrev pub expected_meta_columns : List String
expected_meta_columns =
    "singleton" ∷ "schema_version" ∷ "identity" ∷ "next_sequence" ∷ "known_session" ∷ []

abbrev pub expected_outbox_columns : List String
expected_outbox_columns =
    "delivery_id" ∷ "packet_id" ∷ "sequence" ∷ "topic" ∷ "payload" ∷ "properties"
    ∷ "message_expiry_at_ms" ∷ "retain" ∷ "expires_at_ms" ∷ "attempts" ∷ "ever_started" ∷ "state"
    ∷ "reason" ∷ []

-- An entry of `records` in a snapshot. The payload and the properties are the bytes whose Base64
-- text the tool writes.
pub record Record : Type 0 where
  pub delivery_id : Cell
  pub packet_id : Cell
  pub sequence : Cell
  pub topic : Cell
  pub payload : List ℕ
  pub properties : List ℕ
  pub message_expiry_at_ms : Cell
  pub retain : Bool
  pub expires_at_ms : Cell
  pub attempts : Cell
  pub ever_started : Bool
  pub state : String
  pub cause : Cell

-- What `snapshot_without_identity` keeps of a snapshot.
pub record Body : Type 0 where
  pub schema_version : Cell
  pub next_sequence : Cell
  pub known_session : Bool
  pub records : List Record

pub record Snapshot : Type 0 where
  pub body : Body
  pub identity : String
  pub snapshot_sha256 : String
