-- ===== src/Effects.antt =====
-- What the parts of scripts/durable_recovery.py that change something leave alone: the broker's
-- history only grows, a transaction writes the file of its connection, and a replacement is built in
-- a file of its own.
pub mod Staging
pub mod Temporary
pub mod Prepared
use Prim.Native.String.{◌++◌ as ◌<>◌}
use package.text.Mathlib.Text.{starts_with}
use moon_mqtt_client.Base.{
  ℕ, zero, suc, ◌≤◌, ◌<◌, ◌==◌, String, Bool, true, false, ◌≡◌, refl, Option, none, some, arith,
  exists, Bool-cases, inl, inr, if◌then◌else◌,
}
use moon_mqtt_client.Paths.{FilePath}
use moon_mqtt_client.Phase.{Phase, JournalRow}
use moon_mqtt_client.Request.{Request, Session}
use moon_mqtt_client.Exec.{◌>>=◌, ◌>>◌, pure}
use moon_mqtt_client.Exec.Rules.{
  IsPreorder, Step, step_rules, Meets, Meets-bind, Meets-then, Meets-step, Meets-assume,
  Meets-weaken, Meets-or_raise, Meets-require, Meets-pure, Step-of_meets,
}
use moon_mqtt_client.World.{
  Env, World, Act, Event, silent, dropped, connack, Reply, raised, returned, Content, blank,
  ConnectCall, Exchange, call, draw, gets, change, fill, create, follow, lexists, mkstemp,
  sqlite_connect, tmp_max, unlink, link_file, raise_storage, publish_file_no_replace,
}
use moon_mqtt_client.World.Frame.{
  Quiet, quiet_rules, Quiet-call, Quiet-draw, Quiet-gets, Quiet-sqlite_connect, Quiet-IsPreorder,
}
use moon_mqtt_client.World.Changes.{
  Frame, Frame-IsPreorder, Frame-Quiet, Frame-fill, Frame-create, Frame_of_Quiet, unlink-Frame,
  link_file-Frame,
}
use moon_mqtt_client.Broker.{
  exchange, credentials, password_for, check_event, check_reply, clean_broker_session,
}
use moon_mqtt_client.Journal.{commit_phase, update_phase, refresh_journal}
use moon_mqtt_client.Source.{retire_source}
use moon_mqtt_client.Replacement.{create_replacement}
use moon_mqtt_client.Reads.{Quiet-refresh_journal, Quiet-require_schema}

Quiet-check_event : (e : Event) → Step Quiet (check_event e)
unfolding check_event
Quiet-check_event silent = search quiet_rules
Quiet-check_event dropped = search quiet_rules
Quiet-check_event (connack f p e) = search quiet_rules depth 8

Quiet-check_reply : (r : Reply) → Step Quiet (check_reply r)
unfolding check_reply
Quiet-check_reply raised = search quiet_rules
Quiet-check_reply (returned n e) = search (quiet_rules, Quiet-check_event) depth 8

Quiet-password_for : (env : Env) (u p : Option String) → Step Quiet (password_for env u p)
Quiet-password_for env none p = search quiet_rules
Quiet-password_for env (some u) none = search quiet_rules
Quiet-password_for env (some u) (some p) = search quiet_rules depth 8

pub Quiet-credentials : (env : Env) (r : Request) → Step Quiet (credentials env r)
unfolding credentials
Quiet-credentials env r = Quiet-password_for env r.broker.username r.broker.password_env

module _ (env : Env) (writes : ℕ → Bool) (removes : FilePath → Bool) where
  pub o : IsPreorder (Frame writes removes)
  o = Frame-IsPreorder writes removes

  pub quiet : {A : Type 0} (m : Act A) → Step Quiet m → Step (Frame writes removes) m
  quiet m = Frame_of_Quiet writes removes m

  pub ruleset frame_rules = (step_rules, o)

  pub fill-Frame :
      (i : ℕ) (c : World → Content)
      → writes i ≡ true
      → Step (Frame writes removes) (change (λ w. fill i (c w) w))
  unfolding change
  fill-Frame i c named = record { at = λ w. Frame-fill writes removes i (c w) w named }

  pub exchange-Frame : (c : ConnectCall) → Step (Frame writes removes) (exchange env c)
  unfolding exchange
  exchange-Frame c = record {
    at = λ w. record {
      fresh_le = omega arith;
      content_kept = λ j h k. refl;
      entry_kept = λ q j h e. e;
      history = λ t h. ground arith;
    };
  }

  pub clean_broker_session-Frame :
      (r : Request) (s : Session) → Step (Frame writes removes) (clean_broker_session env r s)
  unfolding clean_broker_session
  clean_broker_session-Frame r s =
      search (frame_rules, quiet, quiet_rules, Quiet-credentials, Quiet-check_reply, exchange-Frame)
        depth 12

  pub update_phase-Frame :
      (i : ℕ) (p : Phase) (t : Option FilePath) (h : Option String)
      → writes i ≡ true
      → Step (Frame writes removes) (update_phase env i p t h)
  unfolding update_phase commit_phase
  update_phase-Frame i p t h named =
      search (frame_rules, quiet, quiet_rules, Quiet-refresh_journal, fill-Frame) depth 15

  pub retire_source-Frame :
      (i : ℕ) (j : JournalRow)
      → writes i ≡ true
      → Step (Frame writes removes) (retire_source env i j)
  unfolding retire_source
  retire_source-Frame i j named = search (frame_rules, quiet, quiet_rules, fill-Frame) depth 15
