-- ===== src/Request.antt =====
-- A resolution request after `validate_request`: scripts/durable_recovery.py.
use moon_mqtt_client.Base.{ℕ, String, Option, List}
use moon_mqtt_client.Base.Int.{Float}
use moon_mqtt_client.Json.{Json}
use moon_mqtt_client.Paths.{FilePath, with_suffix}

pub data Protocol : Type 0 where
  mqtt311 mqtt5 : Protocol

-- `ALLOWED_DISPOSITIONS`
pub data Disposition : Type 0 where
  confirmed_applied confirmed_not_applied abandoned_unknown : Disposition

pub record Broker : Type 0 where
  pub host : String
  pub port : ℕ
  pub protocol : Protocol
  pub username : Option String
  pub password_env : Option String
  pub timeout_seconds : Float

pub record Session : Type 0 where
  pub client_id : String
  pub session_expiry_secs : ℕ

pub record DecisionRecord : Type 0 where
  pub delivery_id : String
  pub disposition : Disposition

pub record Decision : Type 0 where
  pub operator : String
  pub decided_at : String
  pub rationale : String
  pub records : List DecisionRecord

-- `document` is the whole validated request as a JSON value; the other fields are its parts that
-- the tool reads again.
pub record Request : Type 0 where
  pub operation_id : String
  pub source : FilePath
  pub archive : FilePath
  pub target : FilePath
  pub broker : Broker
  pub old_session : Session
  pub new_session : Session
  pub decision : Decision
  pub document : Json

-- journal_path(request)
unfoldable pub journal_path : Request → FilePath
journal_path request = with_suffix request.source ".recovery.sqlite3"
