-- ===== src/Inspect.antt =====
-- Reading a durable store: scripts/durable_recovery.py, `require_schema`, `snapshot`,
-- `observation_snapshot`, `snapshot_without_identity`.
pub mod Limits
use package.text.Mathlib.Text.{starts_with}
use moon_mqtt_client.Base.{
  ℕ, ◌+◌, ◌*◌, String, Bool, true, false, not, ◌&&◌, ◌||◌, List, [], ◌∷◌, Option, none, some,
  str_eq, str_in, same_set, strs_eq, every, leb, length, if◌then◌else◌,
}
use moon_mqtt_client.Base.Int.{pos, int_eq}
use moon_mqtt_client.Sqlite.{Cell, integer, text, blob, is_number, is_bit, cell_le}
use moon_mqtt_client.Durable.{
  Row, Meta, SchemaObject, Record, Body, Snapshot, durable_schema_version, max_source_bytes,
  max_records, expected_meta_columns, expected_outbox_columns,
}
use moon_mqtt_client.Exec.{pure, refuse, require, or_raise, sqlite_as, ◌>>=◌, ◌>>◌}
use moon_mqtt_client.World.{Env, Act, query, type_error}

-- The names of the tables that SQLite does not keep for itself.
table_names : List SchemaObject → List String
table_names [] = []
table_names (o ∷ os) =
    if str_eq o.object_type "table" && not (starts_with o.name "sqlite_")
    then o.name ∷ table_names os
    else table_names os

-- `allowed`, for a list of tables.
is_allowed : List String → SchemaObject → Bool
is_allowed tables o =
    (str_eq o.object_type "table" && str_in o.name tables)
    || (str_eq o.object_type "index"
        && (starts_with o.name "sqlite_autoindex_" && str_in o.table_name tables))

-- The rows of `SELECT ... WHERE singleton=1`.
unfoldable pub singletons : List Meta → List Meta
singletons [] = []
singletons (m ∷ ms) = if is_number (pos 1) m.singleton then m ∷ singletons ms else singletons ms

-- `ORDER BY sequence`
insert_row : Row → List Row → List Row
insert_row r [] = r ∷ []
insert_row r (s ∷ rows) =
    if cell_le r.sequence s.sequence then r ∷ s ∷ rows else s ∷ insert_row r rows

order_by_sequence : List Row → List Row
unfolding insert_row
order_by_sequence [] = []
order_by_sequence (r ∷ rows) = insert_row r (order_by_sequence rows)

-- `payload, properties`, if both are `bytes`.
abbrev blobs : Cell → Cell → Option (List ℕ × List ℕ)
blobs (blob p) (blob q) = some (p, q)
blobs _ _ = none

record_of : Row → List ℕ → List ℕ → Record
record_of row payload properties = record {
  delivery_id = row.delivery_id;
  packet_id = row.packet_id;
  sequence = row.sequence;
  topic = row.topic;
  payload = payload;
  properties = properties;
  message_expiry_at_ms = row.message_expiry_at_ms;
  retain = is_number (pos 1) row.retain;
  expires_at_ms = row.expires_at_ms;
  attempts = row.attempts;
  ever_started = is_number (pos 1) row.ever_started;
  state = if is_number (pos 1) row.state then "Blocked" else "Pending";
  cause = row.reason;
}

-- The loop over the rows, from `total_blob_bytes` so far.
unfoldable pub read_rows : List Row → ℕ → Act (List Record)
unfolding record_of
read_rows [] total = pure []
read_rows (row ∷ rows) total = do
  (payload, properties) ←
      or_raise (blobs row.payload row.properties)
        (refuse "durable payload/properties must be SQLite BLOB values")
  let total' = total + length payload + length properties
  require (leb total' max_source_bytes) "durable payload evidence exceeds recovery limit"
  require (is_bit row.state && (is_bit row.retain && is_bit row.ever_started))
      "durable row contains an invalid boolean/state value"
  records ← read_rows rows total'
  pure (record_of row payload properties ∷ records)

abbrev as_text : Cell → Option String
as_text (text s) = some s
as_text _ = none

-- `isinstance(c, int) and c > 0`
abbrev is_positive : Cell → Bool
is_positive (integer (pos (ℕ.suc n))) = true
is_positive _ = false

-- Whether `json.dumps` takes the records: bytes are no JSON, and a `TypeError`.
abbrev is_json : Cell → Bool
is_json (blob b) = false
is_json _ = true

is_json_record : Record → Bool
is_json_record r =
    is_json r.delivery_id
    && (is_json r.packet_id
        && (is_json r.sequence
            && (is_json r.topic
                && (is_json r.message_expiry_at_ms
                    && (is_json r.expires_at_ms && (is_json r.attempts && is_json r.cause))))))

-- The one metadata row, whose identity is a text.
unfoldable pub metadata : List Meta → Act (Meta × String)
metadata (m ∷ []) = do
  identity ← or_raise (as_text m.identity) (refuse "durable metadata is invalid")
  require (is_number (pos 2) m.schema_version && not (str_eq identity ""))
      "durable metadata is invalid"
  require (is_positive m.next_sequence && is_bit m.known_session)
      "durable sequence/session metadata is invalid"
  pure (m, identity)
metadata _ = refuse "durable metadata row is missing or duplicated"

module _ (env : Env) where
  unfoldable pub require_schema : ℕ → Act (Unit {0})
  unfolding table_names is_allowed
  require_schema connection = sqlite_as "cannot validate durable schema" (do
    integrity ← query env connection
    require (str_eq integrity.integrity "ok") "SQLite integrity_check failed"
    version ← query env connection
    require (int_eq version.user_version durable_schema_version)
        "unsupported durable schema version"
    schema ← query env connection
    let tables = table_names schema.objects
    require (same_set tables ("durable_meta" ∷ "durable_outbox" ∷ [])) "unexpected durable tables"
    require (every (is_allowed tables) schema.objects) "unexpected durable schema object"
    meta ← query env connection
    outbox ← query env connection
    require
        (strs_eq meta.meta_columns expected_meta_columns
          && strs_eq outbox.outbox_columns expected_outbox_columns)
        "durable schema-2 columns do not match the approved layout")

  unfoldable pub snapshot : ℕ → Act Snapshot
  unfolding require_schema singletons order_by_sequence read_rows metadata is_json_record
  snapshot connection = do
    require_schema connection
    size ← query env connection
    count ← query env connection
    require (leb (size.page_size * count.page_count) max_source_bytes)
        "durable source exceeds the recovery size limit"
    meta ← query env connection
    (m, identity) ← metadata (singletons meta.meta)
    outbox ← query env connection
    let rows = order_by_sequence outbox.outbox
    require (leb (length rows) max_records) "durable record count exceeds recovery limit"
    records ← read_rows rows 0
    let body : Body = record {
      schema_version = m.schema_version;
      next_sequence = m.next_sequence;
      known_session = is_number (pos 1) m.known_session;
      records = records;
    }
    if every is_json_record records then pure tt else type_error
    pure (record {
      body = body;
      identity = identity;
      snapshot_sha256 = env.fingerprint body identity;
    })
