-- ===== src/Broker/Accepts.antt =====
-- When the cleanup of a session returns: scripts/durable_recovery.py, `clean_broker_session`.
use moon_mqtt_client.Base.{
  suc, ◌∷◌, false, ◌≡◌, refl, sym, Option, none, some, String, ◌↔◌, ◌⊎◌, arith,
}
use moon_mqtt_client.Request.{Request, Session}
use moon_mqtt_client.Exec.{ok, require, storage_as, ◌>>=◌, ◌>>◌}
use moon_mqtt_client.World.{
  Env, World, fine, silent, dropped, connack, Reply, raised, returned, call,
}
use moon_mqtt_client.Broker.{
  connect_call, check_event, check_reply, credentials, exchange, clean_broker_session,
}

-- A CONNACK without failure and without a session, with no expiry or the expiry 0.
abbrev pub IsClean : Reply → Type 0
IsClean r =
    (r ≡ returned 0 (connack false false none)) ⊎ (r ≡ returned 0 (connack false false (some 0)))

check_reply_iff : (r : Reply) (w : World) → ((check_reply r w).0 ≡ ok tt) ↔ IsClean r
unfolding check_reply check_event require ◌>>◌ ◌>>=◌
check_reply_iff raised w = ground arith
check_reply_iff (returned n silent) w = ground arith
check_reply_iff (returned n dropped) w = ground arith
check_reply_iff (returned n (connack failure present none)) w = ground arith
check_reply_iff (returned n (connack failure present (some expiry))) w = ground arith

-- The exchange that the cleanup makes, once it has its credentials and the process goes on.
cleanup_step :
    (env : Env) (request : Request) (session : Session) (w : World) (password : Option String)
    → env.fault w.now ≡ fine
    → credentials env request w ≡ (ok password, w)
    → (r : Reply) × (v : World) × (r
        ≡ env.reply (suc w.now) (connect_call request session password))
      × (clean_broker_session env request session w ≡ check_reply r v)
unfolding clean_broker_session exchange call ◌>>◌ ◌>>=◌ storage_as
cleanup_step env request session w password up known =
    let sent = connect_call request session password in
    let r = env.reply (suc w.now) sent in
    let v : World = record w {
      now = suc w.now;
      exchanges = record { call = sent; reply = r } ∷ w.exchanges;
    } in
    (r, v, refl, rw known (rw up refl))

-- While the process goes on and with the password that the environment gives, `clean_broker_session`
-- returns just if the broker answers its one connection with a CONNACK that is no failure and has no
-- session, and whose expiry is missing or 0.
pub clean_broker_session-IsClean :
    (env : Env) (request : Request) (session : Session) (w : World) (password : Option String)
    → env.fault w.now ≡ fine
    → credentials env request w ≡ (ok password, w)
    → ((clean_broker_session env request session w).0 ≡ ok tt)
      ↔ IsClean (env.reply (suc w.now) (connect_call request session password))
clean_broker_session-IsClean env request session w password up known =
    let (r, v, answer, e) = cleanup_step env request session w password up known in
    rw (e, sym answer) (check_reply_iff r v)
