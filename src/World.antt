-- ===== src/World.antt =====
-- The world that scripts/durable_recovery.py works in: directory entries and inodes, the answers of
-- the operating system, of SQLite and of the broker, and the calls that the tool makes of them.
pub mod Frame
pub mod Changes
pub mod Publish
pub mod Calm
use Prim.Native.String.{◌++◌ as ◌<>◌}
use moon_mqtt_client.Base.{
  ℕ, zero, suc, String, Bool, true, false, List, [], Option, none, some, ◌==◌, str_eq,
  if◌then◌else◌, is_some,
}
use moon_mqtt_client.Base.Int.{pos}
use moon_mqtt_client.Durable.{Database, Body}
use moon_mqtt_client.Phase.{JournalDb}
use moon_mqtt_client.Bundle.{Bundle}
use moon_mqtt_client.Json.{Json}
use moon_mqtt_client.Request.{Protocol}
use moon_mqtt_client.Paths.{FilePath, path_eq}
use moon_mqtt_client.Exec.{
  Exec, Outcome, ok, storage, sqlite, uncaught, killed, refuse, pure, require, or_raise, storage_as,
  sqlite_as, ◌>>=◌, ◌>>◌,
}

-- What an inode holds. The number beside a database stands for the bytes of its pages, which change
-- with every transaction and differ between files with equal rows. `link` is a symbolic link, with
-- the inode that it leads to.
pub data Content : Type 0 where
  blank : Content
  durable : Database → ℕ → Content
  journal : JournalDb → ℕ → Content
  archive : Bundle → Content
  bytes : List ℕ → Content
  directory : Content
  link : Option ℕ → Content

-- `clean_start` of `connect`: `MQTT_CLEAN_START_FIRST_ONLY` or `True`.
pub data CleanStart : Type 0 where
  first_only always : CleanStart

-- The arguments of `paho.Client(...)` and of its `connect` that the broker sees.
pub record ConnectCall : Type 0 where
  pub host : String
  pub port : ℕ
  pub client_id : String
  pub protocol : Protocol
  pub clean_session : Option Bool
  pub clean_start : CleanStart
  pub session_expiry_interval : Option ℕ
  pub username : Option String
  pub password : Option String

-- What the callbacks have set when the wait ends: nothing in time, `disconnect`, or the failure flag,
-- the Session Present flag and the Session Expiry Interval of a CONNACK.
pub data Event : Type 0 where
  silent dropped : Event
  connack : Bool → Bool → Option ℕ → Event

-- `connect` raises `OSError` or `ValueError`, or returns a code.
pub data Reply : Type 0 where
  raised : Reply
  returned : ℕ → Event → Reply

pub record Exchange : Type 0 where
  pub call : ConnectCall
  pub reply : Reply

-- What happens to a call of the operating system or of SQLite: it works, it raises, or the process
-- ends first. `planted` is a call before which another process has created the file that the call
-- would create.
pub data Fault : Type 0 where
  fine : Fault
  fails : Fault
  ends : Fault
  planted : Content → Fault

pub record World : Type 0 where
  pub entry : FilePath → Option ℕ
  pub content : ℕ → Content
  pub fresh : ℕ
  pub now : ℕ
  pub exchanges : List Exchange

-- What the program does not decide; the calls are counted by `now`. `accepts` tells whether SQLite
-- reports the setting that a PRAGMA asked for; `digest` is the SHA-256 of a file's bytes and
-- `fingerprint` that of a snapshot's canonical JSON; `dumps` is `canonical_json` and `loads` is
-- `json.loads`.
pub record Env : Type 0 where
  pub fault : ℕ → Fault
  pub reply : ℕ → ConnectCall → Reply
  pub digest : Content → String
  pub fingerprint : Body → String → String
  pub stamp : ℕ → String
  pub temp : ℕ → String
  pub getenv : String → Option String
  pub accepts : ℕ → Bool
  pub sha256 : List ℕ → String
  pub dumps : Json → List ℕ
  pub loads : List ℕ → Option Json
  pub device : String → ℕ

abbrev pub Act : Type 0 → Type 0
Act A = Exec World A

abbrev pub tick : World → World
tick w = record w { now = suc w.now }

-- A new directory entry, and what an inode holds from now on.
abbrev pub enter : FilePath → Option ℕ → World → World
enter p i w = record w { entry = λ q. if path_eq p q then i else w.entry q }

abbrev pub fill : ℕ → Content → World → World
fill i c w = record w { content = λ j. if i == j then c else w.content j }

abbrev pub create : FilePath → Content → World → World
create p c w = record (enter p (some w.fresh) (fill w.fresh c w)) { fresh = suc w.fresh }

-- The inode of a path after symbolic links.
abbrev pub follow : World → Option ℕ → Option ℕ
follow w none = none
follow w (some i) = elim (w.content i) [ link target ↦ target | _ ↦ some i ]

abbrev pub is_regular : Content → Bool
is_regular directory = false
is_regular (link t) = false
is_regular _ = true

-- `os.path.lexists(path)` and `path.exists()`
abbrev pub lexists : FilePath → World → Bool
lexists p w = is_some (w.entry p)

abbrev pub path_exists : FilePath → World → Bool
path_exists p w = is_some (follow w (w.entry p))

-- An empty file is an empty database to SQLite, and any SQLite file can be opened; its tables then
-- tell what it is.
abbrev pub empty_database : Database
empty_database = record {
  integrity = "ok";
  user_version = pos 0;
  objects = [];
  meta_columns = [];
  outbox_columns = [];
  page_size = 4096;
  page_count = 0;
  meta = [];
  outbox = [];
}

abbrev pub as_database : Content → Option Database
as_database blank = some empty_database
as_database (durable d n) = some d
as_database (journal j n) = some (record empty_database {
  integrity = j.integrity;
  user_version = j.user_version;
  objects = j.objects;
})
as_database (archive b) = none
as_database (bytes b) = none
as_database directory = none
as_database (link t) = none

abbrev pub gets : {A : Type 0} → (World → A) → Act A
gets f w = (ok (f w), w)

-- `os.TMP_MAX`, the names that `mkstemp` tries.
abbrev pub tmp_max : ℕ
tmp_max = 10000

abbrev pub raise_storage : {A : Type 0} → Act A
raise_storage w = (storage, w)

abbrev pub raise_sqlite : {A : Type 0} → Act A
raise_sqlite w = (sqlite, w)

unfoldable pub change : (World → World) → Act (Unit {0})
change f w = (ok tt, f w)

-- The next of the names, times and page images that the environment picks.
unfoldable pub draw : Act ℕ
draw w = (ok w.now, tick w)

-- A statement on a connection to a journal.
abbrev pub as_journal : Content → Option JournalDb
as_journal (journal j n) = some j
as_journal c = elim (as_database c) [
  | none ↦ none
  | some d ↦ some (record {
    user_version = d.user_version;
    integrity = d.integrity;
    objects = d.objects;
    columns = [];
    rows = [];
  })
]

-- An exception that is neither a `RecoveryError` nor an error of the storage.
abbrev pub type_error : {A : Type 0} → Act A
type_error w = (uncaught, w)

-- What another process may have put at `p` just before a call.
abbrev plant : Fault → FilePath → World → World
plant (planted c) p w = if lexists p w then w else create p c w
plant _ p w = w

abbrev linked : FilePath → FilePath → Option ℕ → Act Bool
linked source p none w = (storage, w)
linked source p (some i) w = if lexists p w then (ok false, w) else (ok true, enter p (some i) w)

-- `os._exit(91)`
abbrev pub exit : Act (Unit {0})
exit w = (killed, w)

-- `o == s`, for an `o` that may be `None`.
abbrev pub str_is : String → Option String → Bool
str_is s none = false
str_is s (some t) = str_eq s t

module _ (env : Env) where
  -- A call that fails raises the exception.
  abbrev outcome_of : Outcome (Unit {0}) → Fault → Act (Unit {0})
  outcome_of error fails w = (error, w)
  outcome_of error ends w = (killed, w)
  outcome_of error _ w = (ok tt, w)

  -- A call of the operating system, which may fail; then its effect.
  unfoldable pub call : Act (Unit {0})
  call w = outcome_of storage (env.fault w.now) (tick w)

  -- A call of SQLite.
  unfoldable pub sql : Act (Unit {0})
  sql w = outcome_of sqlite (env.fault w.now) (tick w)

  -- maybe_fail(name)
  unfoldable pub maybe_fail : String → Act (Unit {0})
  maybe_fail name =
      if str_is name (env.getenv "MOON_MQTT_RECOVERY_FAILPOINT") then exit else pure tt

  -- `path.unlink(missing_ok=True)`
  unfoldable pub unlink : FilePath → Act (Unit {0})
  unfolding call change
  unlink p = do call; change (enter p none)

  -- `fsync_directory(path)`, `fsync_file(path)` and other calls without effect on the model's files.
  abbrev pub fsync : Act (Unit {0})
  fsync = call

  -- `tempfile.mkstemp(prefix, suffix, dir)`: an empty file under a name that is not taken.
  unfoldable pub mkstemp : ℕ → String → String → String → Act FilePath
  unfolding call change draw
  mkstemp zero dir prefix suffix = raise_storage
  mkstemp (suc attempts) dir prefix suffix = do
    call
    n ← draw
    let p : FilePath = record { dir = dir; name = prefix <> (env.temp n <> suffix) }
    taken ← gets (lexists p)
    elim taken [
      | true ↦ mkstemp attempts dir prefix suffix
      | false ↦ change (create p blank) >>= (λ _. pure p)
    ]

  -- `os.link(source, p)`: `true`, or `false` for a `FileExistsError`.
  unfoldable pub link_file : FilePath → FilePath → Act Bool
  unfolding call
  link_file source p w =
      let planted_world = plant (env.fault w.now) p w in
      (call >>= (λ _ v. linked source p (v.entry source) v)) planted_world

  -- sha256_file(path)
  unfoldable pub sha256_file : FilePath → Act String
  unfolding call
  sha256_file p = do
    call
    found ← gets (λ w. follow w (w.entry p))
    i ← or_raise found raise_storage
    gets (λ w. env.digest (w.content i))

  -- existing_path(path, label), for a path whose directory is resolved.
  unfoldable pub existing_path : FilePath → String → Act FilePath
  unfolding call
  existing_path p label = do
    call
    found ← gets (λ w. w.entry p)
    i ← or_raise found (refuse (label <> " does not exist"))
    regular ← gets (λ w. is_regular (w.content i))
    require regular (label <> " must be a regular file, not a link/device")
    pure p

  -- connect_sqlite(path, mode): a connection is the inode that it has open.
  unfoldable pub connect_sqlite : FilePath → Act ℕ
  unfolding sql
  connect_sqlite p = do
    sqlite_as "cannot open SQLite" sql
    found ← gets (λ w. follow w (w.entry p))
    or_raise found (refuse "cannot open SQLite")

  -- `sqlite3.connect(path)`
  unfoldable pub sqlite_connect : FilePath → Act ℕ
  unfolding sql
  sqlite_connect p = do sql; found ← gets (λ w. follow w (w.entry p)); or_raise found raise_sqlite

  -- A statement on a connection to a durable store.
  unfoldable pub query : ℕ → Act Database
  unfolding sql
  query i = do sql; found ← gets (λ w. as_database (w.content i)); or_raise found raise_sqlite

  unfoldable pub query_journal : ℕ → Act JournalDb
  unfolding sql
  query_journal i = do
    sql
    found ← gets (λ w. as_journal (w.content i))
    or_raise found raise_sqlite

  -- A PRAGMA that sets a mode, and the check that SQLite reports it.
  unfoldable pub pragma : String → Act (Unit {0})
  unfolding sql draw
  pragma reason = do sql; n ← draw; require (env.accepts n) reason

  -- publish_file_no_replace(staging, destination)
  unfoldable pub publish_file_no_replace : FilePath → FilePath → Act (Unit {0})
  publish_file_no_replace staging destination = do
    created ← storage_as "cannot publish with create-new hard link" (link_file staging destination)
    require created "refusing to replace existing path"
    fsync
    unlink staging
    fsync
