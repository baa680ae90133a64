-- ===== src/Resolution/Completes/Stations.antt =====
-- Where a resolution may have been cut off: the states of the target, of the staging file and of the
-- journal's file, and that clock ticks and phase updates keep them.
use moon_mqtt_client.Base.{
  ℕ, ◌==◌, String, false, ◌≡◌, refl, Option, none, some, ◌⊎◌, inl, inr, arith, ==_refl,
}
use moon_mqtt_client.Paths.{FilePath}
use moon_mqtt_client.Phase.{replacement_ready, JournalRow}
use moon_mqtt_client.Request.{Request, Session}
use moon_mqtt_client.Exec.{ok}
use moon_mqtt_client.World.{Env, World, Content, durable, fill}
use moon_mqtt_client.World.Frame.{Quiet}
use moon_mqtt_client.Broker.{connect_call, credentials}
use moon_mqtt_client.Broker.Accepts.{IsClean}
use moon_mqtt_client.Effects.Staging.{IsStage}
use moon_mqtt_client.Replacement.{new_database}
use moon_mqtt_client.Replacement.Placed.{Placed}
use moon_mqtt_client.Replacement.Completes.{Clear, Staged}
use moon_mqtt_client.World.Calm.{calm}

-- No failpoint is set, the password is in the environment, and the broker discards both sessions.
pub record Cooperates (env : Env) (request : Request) : Type 0 where
  pub unset : env.getenv "MOON_MQTT_RECOVERY_FAILPOINT" ≡ none
  pub password : Option String
  pub known : (w : World) → credentials (calm env) request w ≡ (ok password, w)
  pub clean : (n : ℕ) (s : Session) → IsClean (env.reply n (connect_call request s password))

-- The hash of a new store.
abbrev pub new_digest : Env → String → ℕ → String
new_digest env identity page = env.digest (durable (new_database identity) page)

-- The new store is at the target; its staging file is another link to it or is gone.
pub record Linked (target : FilePath) (connection : ℕ) (p : FilePath) (identity : String)
    (i page : ℕ) (c : Content) (w : World) : Type 0 where
  pub placed : Placed target identity i page w
  pub staging : (w.entry p ≡ some i) ⊎ (w.entry p ≡ none)
  pub apart : (connection == i) ≡ false
  pub named : IsStage target p
  pub held : w.content connection ≡ c

-- The new store is at the target.
pub record Published (target : FilePath) (connection : ℕ) (identity : String) (i page : ℕ)
    (c : Content) (w : World) : Type 0 where
  pub placed : Placed target identity i page w
  pub apart : (connection == i) ≡ false
  pub held : w.content connection ≡ c

-- The journal's row names a staging file and its hash.
pub record Recorded (j : JournalRow) (p : FilePath) (identity sha : String) : Type 0 where
  pub phase : j.phase ≡ replacement_ready
  pub staged_target : j.staged_target ≡ some p
  pub staged_sha : j.staged_target_sha256 ≡ some sha
  pub identity_eq : j.target_identity ≡ identity

module _ (target : FilePath) (identity : String) (i page : ℕ) where
  Placed-Quiet :
      (w w' : World)
      → Quiet w w'
      → Placed target identity i page w
      → Placed target identity i page w'
  Placed-Quiet w w' q h = record {
    at_entry = rw q.entry_eq h.at_entry;
    at_content = rw q.content_eq h.at_content;
  }

  Placed-fill :
      (connection : ℕ) (c : Content) (w : World)
      → (connection == i) ≡ false
      → Placed target identity i page w
      → Placed target identity i page (fill connection c w)
  Placed-fill connection c w apart h = record {
    at_entry = h.at_entry;
    at_content = rw apart h.at_content;
  }

module _ (env : Env) (target : FilePath) (connection : ℕ) where
  pub Clear-keep :
      (c : Content) (w w' : World)
      → Quiet w w'
      → Clear env target connection c w
      → Clear env target connection c w'
  Clear-keep c w w' q h = record {
    vacant = rw q.entry_eq h.vacant;
    free = λ n. rw q.entry_eq (h.free n);
    in_use = omega (arith, h.in_use, q.fresh_eq);
    held = rw q.content_eq h.held;
  }

  pub Clear-refill :
      (c c' : Content) (w : World)
      → Clear env target connection c w
      → Clear env target connection c' (fill connection c' w)
  Clear-refill c c' w h = record {
    vacant = h.vacant;
    free = h.free;
    in_use = h.in_use;
    held = rw (==_refl connection) refl;
  }

module _ (target : FilePath) (connection : ℕ) (p : FilePath) (identity : String) (i page : ℕ) where
  abbrev pub StagedAs : Content → World → Type 0
  StagedAs c = Staged target connection c p identity i page

  pub Staged-keep : (c : Content) (w w' : World) → Quiet w w' → StagedAs c w → StagedAs c w'
  Staged-keep c w w' q h = record {
    placed = Placed-Quiet p identity i page w w' q h.placed;
    vacant = rw q.entry_eq h.vacant;
    apart = h.apart;
    named = h.named;
    held = rw q.content_eq h.held;
  }

  pub Staged-refill :
      (c c' : Content) (w : World) → StagedAs c w → StagedAs c' (fill connection c' w)
  Staged-refill c c' w h = record {
    placed = Placed-fill p identity i page connection c' w h.apart h.placed;
    vacant = h.vacant;
    apart = h.apart;
    named = h.named;
    held = rw (==_refl connection) refl;
  }

  pub Linked-keep :
      (c : Content) (w w' : World)
      → Quiet w w'
      → Linked target connection p identity i page c w
      → Linked target connection p identity i page c w'
  Linked-keep c w w' q h = record {
    placed = Placed-Quiet target identity i page w w' q h.placed;
    staging = elim h.staging [ inl e ↦ inl (rw q.entry_eq e) | inr e ↦ inr (rw q.entry_eq e) ];
    apart = h.apart;
    named = h.named;
    held = rw q.content_eq h.held;
  }

module _ (target : FilePath) (connection : ℕ) (identity : String) (i page : ℕ) where
  pub Published-keep :
      (c : Content) (w w' : World)
      → Quiet w w'
      → Published target connection identity i page c w
      → Published target connection identity i page c w'
  Published-keep c w w' q h = record {
    placed = Placed-Quiet target identity i page w w' q h.placed;
    apart = h.apart;
    held = rw q.content_eq h.held;
  }

  pub Published-refill :
      (c c' : Content) (w : World)
      → Published target connection identity i page c w
      → Published target connection identity i page c' (fill connection c' w)
  Published-refill c c' w h = record {
    placed = Placed-fill target identity i page connection c' w h.apart h.placed;
    apart = h.apart;
    held = rw (==_refl connection) refl;
  }
