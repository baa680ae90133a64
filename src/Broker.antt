-- ===== src/Broker.antt =====
-- Discarding a broker session: scripts/durable_recovery.py, `clean_broker_session`. The broker and
-- the library paho are the environment's `reply`.
pub mod Accepts
use moon_mqtt_client.Base.{ℕ, String, Bool, true, false, not, ◌==◌, Option, none, some, ◌∷◌}
use moon_mqtt_client.Request.{mqtt311, mqtt5, Request, Session}
use moon_mqtt_client.Exec.{ok, pure, refuse, require, or_raise, storage_as, ◌>>=◌, ◌>>◌}
use moon_mqtt_client.World.{
  Env, Act, Event, silent, dropped, connack, Reply, raised, returned, first_only, always,
  ConnectCall, call,
}

-- The arguments for a session, with the password that was looked up.
unfoldable pub connect_call : Request → Session → Option String → ConnectCall
connect_call request session password =
    let protocol = request.broker.protocol in
    record {
      host = request.broker.host;
      port = request.broker.port;
      client_id = session.client_id;
      protocol = protocol;
      clean_session = elim protocol [ mqtt311 ↦ some true | mqtt5 ↦ none ];
      clean_start = elim protocol [ mqtt311 ↦ first_only | mqtt5 ↦ always ];
      session_expiry_interval = elim protocol [ mqtt311 ↦ none | mqtt5 ↦ some 0 ];
      username = request.broker.username;
      password = password;
    }

-- `server_session_expiry not in (None, 0)`
abbrev pub keeps_session : Option ℕ → Bool
keeps_session none = false
keeps_session (some n) = not (n == 0)

-- What is done with the callbacks' result.
unfoldable pub check_event : Event → Act (Unit {0})
check_event silent = refuse "cleanup timed out waiting for CONNACK"
check_event dropped = refuse "cleanup CONNACK was not accepted"
check_event (connack failure session_present expiry) = do
  require (not failure) "cleanup CONNACK was not accepted"
  require (not session_present) "cleanup CONNACK illegally retained Session Present"
  require (not (keeps_session expiry)) "cleanup CONNACK returned a nonzero Session Expiry Interval"

unfoldable pub check_reply : Reply → Act (Unit {0})
unfolding check_event
check_reply raised = refuse "cleanup connection failed"
check_reply (returned return_code event) = do
  require (return_code == 0) "cleanup connect failed before CONNACK"
  check_event event

module _ (env : Env) where
  abbrev pub password_for : Option String → Option String → Act (Option String)
  password_for none env_name = pure none
  password_for (some username) none = pure none
  password_for (some username) (some env_name) = do
    password ← or_raise (env.getenv env_name) (refuse "credential environment variable is missing")
    pure (some password)

  -- The password, which is read again from the environment.
  unfoldable pub credentials : Request → Act (Option String)
  credentials request = password_for request.broker.username request.broker.password_env

  -- One connection to the broker, kept in the history.
  unfoldable pub exchange : ConnectCall → Act Reply
  exchange c w =
      let reply = env.reply w.now c in
      (ok reply, record w { exchanges = record { call = c; reply = reply } ∷ w.exchanges })

  unfoldable pub clean_broker_session : Request → Session → Act (Unit {0})
  unfolding credentials exchange check_reply
  clean_broker_session request session = do
    password ← credentials request
    storage_as "cleanup connection failed" (call env)
    reply ← exchange (connect_call request session password)
    check_reply reply
