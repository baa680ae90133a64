-- ===== src/Validation.antt =====
-- The check of a request: scripts/durable_recovery.py, `validate_request` and the paths it names.
-- `locate` is what pathlib makes of `str(value)`: `expanduser` and `resolve` of the directory.
pub mod Texts
pub mod Values
pub mod Accepted
use Prim.Native.String.{◌++◌ as ◌<>◌}
use moon_mqtt_client.Base.{
  ℕ, ◌^◌, String, Bool, true, false, not, ◌&&◌, ◌||◌, List, [], ◌∷◌, Option, none, some, ltb, leb,
  ◌==◌, str_eq, str_in, same_set, str_subset, every, is_some, if◌then◌else◌,
}
use moon_mqtt_client.Base.Int.{ℤ, pos, negsuc, Float, finite}
use moon_mqtt_client.Json.{
  Json, null, bool, int, float, str, arr, obj, Items, nil, cons, Fields, get, put, keys,
}
use moon_mqtt_client.Paths.{FilePath, path_eq, with_suffix}
use moon_mqtt_client.Request.{
  Protocol, mqtt311, mqtt5, Disposition, confirmed_applied, confirmed_not_applied,
  abandoned_unknown, Broker, Session, DecisionRecord, Decision, Request,
}
use moon_mqtt_client.Exec.{pure, refuse, require, or_raise, ◌>>=◌, ◌>>◌}
use moon_mqtt_client.World.{
  Env, Act, World, call, gets, follow, path_exists, existing_path, raise_storage, type_error,
}
use Texts.{is_identifier, is_wire_text, is_filled, is_one, overflows, is_timeout, path_text}
use Values.{
  text_of, fields_of, own_fields, items_of, natural_of, get_or, text_at, is_true_at, is_default,
  top_fields, broker_fields, decision_fields, asserted_fields, paths_distinct, no_alias,
  protocol_of, optional_text, disposition_of,
}

-- The directory is there, is missing, or is no directory.
pub data Located : Type 0 where
  located : FilePath → Located
  missing no_directory : Located

-- A list or a dict in a test of membership is a `TypeError`.
unfoldable pub disposition : Json → Act Disposition
disposition (str s) = or_raise (disposition_of s) (refuse "unsupported operator disposition")
disposition (arr xs) = type_error
disposition (obj fs) = type_error
disposition _ = refuse "unsupported operator disposition"

-- The loop over `decision.records`, after the IDs in `seen`.
unfoldable pub decision_records : Items → List String → Act (List DecisionRecord)
unfolding disposition
decision_records nil seen = pure []
decision_records (cons item rest) seen = do
  record_fields ←
      or_raise (fields_of item) (refuse "each decision record needs delivery_id and disposition")
  require (same_set (keys record_fields) ("delivery_id" ∷ "disposition" ∷ []))
      "each decision record needs delivery_id and disposition"
  delivery_id ←
      or_raise (text_at "delivery_id" record_fields)
        (refuse "decision delivery IDs must be unique nonempty strings")
  require (not (str_eq delivery_id "") && not (str_in delivery_id seen))
      "decision delivery IDs must be unique nonempty strings"
  decided ← disposition (get_or null "disposition" record_fields)
  others ← decision_records rest (delivery_id ∷ seen)
  pure (record { delivery_id = delivery_id; disposition = decided } ∷ others)

unfoldable pub decision_of : Fields → Act Decision
unfolding decision_records is_filled
decision_of raw = do
  decision ←
      or_raise (fields_of (get_or null "decision" raw)) (refuse "operator decision is required")
  require (same_set (keys decision) decision_fields) "decision fields must be exactly"
  operator ← or_raise (text_at "operator" decision) (refuse "decision.operator is required")
  require (is_filled operator) "decision.operator is required"
  decided_at ← or_raise (text_at "decided_at" decision) (refuse "decision.decided_at is required")
  require (is_filled decided_at) "decision.decided_at is required"
  rationale ← or_raise (text_at "rationale" decision) (refuse "decision.rationale is required")
  require (is_filled rationale) "decision.rationale is required"
  require (every (λ k. is_true_at k decision) asserted_fields) "decision must be explicitly true"
  items ←
      or_raise (items_of (get_or null "records" decision))
        (refuse "decision.records must be a list")
  records ← decision_records items []
  pure (record {
    operator = operator;
    decided_at = decided_at;
    rationale = rationale;
    records = records;
  })

-- `broker["protocol"] == "mqtt311" and expiry != 0`, `broker["protocol"] == "mqtt5" and expiry == 0`
abbrev pub expiry_fits : Protocol → ℕ → Bool
expiry_fits mqtt311 expiry = expiry == 0
expiry_fits mqtt5 expiry = not (expiry == 0)

unfoldable pub session_of : Protocol → String → Fields → Act Session
unfolding is_wire_text
session_of protocol label raw = do
  session ← or_raise (fields_of (get_or null label raw)) (refuse (label <> " is required"))
  require (same_set (keys session) ("client_id" ∷ "session_expiry_secs" ∷ []))
      (label <> " fields must be client_id and session_expiry_secs")
  client_id ← or_raise (text_at "client_id" session) (refuse (label <> ".client_id is invalid"))
  require (not (str_eq client_id "") && is_wire_text client_id) (label <> ".client_id is invalid")
  expiry ←
      or_raise (natural_of (get_or null "session_expiry_secs" session))
        (refuse (label <> ".session_expiry_secs is invalid"))
  require (leb expiry 4294967295) (label <> ".session_expiry_secs is invalid")
  require (expiry_fits protocol expiry) (elim protocol [
    | mqtt311 ↦ "MQTT 3.1.1 durable identity requires expiry 0"
    | mqtt5 ↦ "MQTT 5 ResumeSession durable identity requires nonzero expiry"
  ])
  pure (record { client_id = client_id; session_expiry_secs = expiry })

-- `broker.get("timeout_seconds", 5)`
unfoldable pub timeout_of : Json → Act Float
timeout_of (int n) = do
  if overflows n then type_error else pure tt
  require (is_timeout (finite n 0)) "broker.timeout_seconds must be in (0, 60]"
  pure (finite n 0)
timeout_of (float x) = do require (is_timeout x) "broker.timeout_seconds must be in (0, 60]"; pure x
timeout_of _ = refuse "broker.timeout_seconds must be in (0, 60]"

module _ (env : Env) where
  unfoldable pub broker_of : Fields → Act Broker
  unfolding timeout_of is_wire_text is_identifier
  broker_of raw = do
    broker ←
        or_raise (fields_of (get_or null "broker" raw)) (refuse "broker configuration is required")
    require (str_subset (keys broker) broker_fields) "broker contains unsupported fields"
    host ← or_raise (text_at "host" broker) (refuse "broker host/port is invalid")
    require (not (str_eq host "") && is_wire_text host) "broker host/port is invalid"
    port ← or_raise (natural_of (get_or null "port" broker)) (refuse "broker host/port is invalid")
    require (ltb 0 port && ltb port 65536) "broker host/port is invalid"
    protocol ←
        or_raise (protocol_of (text_at "protocol" broker))
          (refuse "broker protocol must be mqtt311 or mqtt5")
    require (is_default "transport" "tcp" broker && is_default "tls" "plain" broker)
        "B1 CLI supports plain TCP only"
    username ←
        or_raise (optional_text is_wire_text (get_or null "username" broker))
          (refuse "broker username must be a string")
    password_env ←
        or_raise (optional_text is_identifier (get_or null "password_env" broker))
          (refuse "password_env has an invalid format")
    require (not (is_some password_env && not (is_some username))) "password_env requires username"
    timeout ← timeout_of (get_or (int (pos 5)) "timeout_seconds" broker)
    require (elim password_env [ none ↦ true | some name ↦ is_some (env.getenv name) ])
        "credential environment variable is missing"
    pure (record {
      host = host;
      port = port;
      protocol = protocol;
      username = username;
      password_env = password_env;
      timeout_seconds = timeout;
    })

  -- existing_path(raw, label)
  unfoldable pub existing_at : Located → String → Act FilePath
  existing_at (located p) label = existing_path env p label
  existing_at missing label = refuse (label <> " does not exist")
  existing_at no_directory label = raise_storage

  -- prospective_path(raw, label)
  unfoldable pub prospective_path : Located → String → Act FilePath
  prospective_path (located p) label = call env >> pure p
  prospective_path missing label = refuse (label <> " parent does not exist")
  prospective_path no_directory label = refuse (label <> " parent is not a directory")

  -- The four paths, of which the last is the journal's.
  unfoldable pub request_paths : (Json → Located) → Fields → Act (FilePath × FilePath × FilePath)
  unfolding existing_at prospective_path
  request_paths locate raw = do
    source ← existing_at (locate (get_or (str "") "source" raw)) "source"
    archive ← prospective_path (locate (get_or (str "") "archive" raw)) "archive"
    target ← prospective_path (locate (get_or (str "") "target" raw)) "target"
    journal ← prospective_path (located (with_suffix source ".recovery.sqlite3")) "journal"
    let paths = source ∷ archive ∷ target ∷ journal ∷ []
    require (paths_distinct paths) "source/archive/target/journal paths must be distinct"
    call env
    separate ← gets (no_alias paths)
    require separate "source/archive/target/journal paths must not alias"
    pure (source, archive, target)

  -- The result: the request with its paths resolved and the defaults written out.
  unfoldable pub document_of : FilePath → FilePath → FilePath → Fields → Json
  document_of source archive target raw =
      let broker = own_fields (get_or null "broker" raw) in
      obj (
        put "broker" (obj (put "tls" (str "plain") (put "transport" (str "tcp") broker))) (
          put "target" (str (path_text target))
            (put "archive" (str (path_text archive)) (put "source" (str (path_text source)) raw))))

  unfoldable pub validate_request : (Json → Located) → Json → Act Request
  unfolding document_of is_identifier
  validate_request locate value = do
    raw ← or_raise (fields_of value) (refuse "request version must be 1")
    require (is_one (get_or null "version" raw)) "request version must be 1"
    require (same_set (keys raw) top_fields) "request fields must be exactly"
    operation_id ←
        or_raise (text_at "operation_id" raw) (refuse "operation_id has an invalid format")
    require (is_identifier operation_id) "operation_id has an invalid format"
    (source, archive, target) ← request_paths locate raw
    broker ← broker_of raw
    old_session ← session_of broker.protocol "old_session" raw
    new_session ← session_of broker.protocol "new_session" raw
    require (not (str_eq old_session.client_id new_session.client_id))
        "old and new client IDs must be different"
    decision ← decision_of raw
    pure (record {
      operation_id = operation_id;
      source = source;
      archive = archive;
      target = target;
      broker = broker;
      old_session = old_session;
      new_session = new_session;
      decision = decision;
      document = document_of source archive target raw;
    })
