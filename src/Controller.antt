-- ===== src/Controller.antt =====
-- The owner of the controller process: scripts/month-end-demo.py, `stop_owned`, `check` and `main`. What
-- the process table, git and the files say is `Machine`, by the number of the question.
pub mod Silent
pub mod Owned
use moon_mqtt_client.Base.{
  ℕ, zero, suc, Bool, true, false, not, ◌&&◌, ◌||◌, List, [], ◌∷◌, Option, none, some, String,
  str_eq, ◌==◌, every, if◌then◌else◌, length,
}
use moon_mqtt_client.Exec.{Exec, ok, storage, pure, refuse, require, or_raise, when, ◌>>=◌, ◌>>◌}

-- What `record` returns.
pub record Owner : Type 0 where
  pub pid : ℕ
  pub identity : Option String
  pub binary : String
  pub sha256 : String

-- `state["kind"]`, as the target of an action.
pub data Kind : Type 0 where
  original candidate : Kind

-- The state file.
pub record Registered : Type 0 where
  pub kind : Kind
  pub owner : Option Owner

-- The state file, and what has been done: the processes that were sent SIGTERM and the binaries that were
-- to be started.
pub record Desk : Type 0 where
  pub now : ℕ
  pub state : Registered
  pub signals : List ℕ
  pub started : List String

pub record Config : Type 0 where
  pub source_commit : String
  pub source_tree : String
  pub binary : String
  pub binary_sha256 : String
  pub library : String
  pub library_sha256 : String
  pub original_binary : String
  pub original_binary_sha256 : String

-- `process(pid)`, `digest(path)`, the pids of the two registered executables, `Popen` of a binary that
-- stays alive, the answer of `query`, and git's. `none` is an exception; for `ps`, no such process. The lock
-- and the configuration files are there, and a signal can be sent.
pub record Machine : Type 0 where
  pub ps : ℕ → ℕ → Option String
  pub digest : ℕ → String → Option String
  pub live : ℕ → Option (List ℕ)
  pub spawn : ℕ → String → Option ℕ
  pub answers : ℕ → Bool
  pub head : ℕ → Option String
  pub tree : ℕ → Option String
  pub is_dirty : ℕ → Bool

pub data Action : Type 0 where
  doctor query start stop restart : Action

abbrev pub Act : Type 0 → Type 0
Act A = Exec Desk A

-- A question to the machine.
unfoldable pub ask : {A : Type 0} → (ℕ → A) → Act A
ask answer d = (ok (answer d.now), record d { now = suc d.now })

abbrev pub raise_storage : {A : Type 0} → Act A
raise_storage d = (storage, d)

-- `os.kill(pid, signal.SIGTERM)`
unfoldable pub kill : ℕ → Act (Unit {0})
kill pid d = (ok tt, record d { signals = pid ∷ d.signals })

-- `statepath.write_text(...)`
unfoldable pub write_state : Registered → Act (Unit {0})
write_state state d = (ok tt, record d { state = state })

unfoldable pub launch : String → Act (Unit {0})
launch binary d = (ok tt, record d { started = binary ∷ d.started })

abbrev pub kind_eq : Kind → Kind → Bool
kind_eq original original = true
kind_eq original candidate = false
kind_eq candidate original = false
kind_eq candidate candidate = true

abbrev pub is_restart : Action → Bool
is_restart restart = true
is_restart _ = false

abbrev pub target_of : Action → Kind
target_of stop = original
target_of _ = candidate

-- `process(pid) == identity`
abbrev pub same_identity : Option String → Option String → Bool
same_identity none none = true
same_identity none (some s) = false
same_identity (some s) none = false
same_identity (some s) (some t) = str_eq s t

abbrev pub is_running : Option String → Bool
is_running none = false
is_running (some actual) = true

-- `bool(process(pid))`, where an empty row is false.
abbrev pub is_truthy : Option String → Bool
is_truthy none = false
is_truthy (some actual) = not (str_eq actual "")

-- `live == {pid}`, of a set that is not empty.
abbrev pub is_only : ℕ → List ℕ → Bool
is_only pid live = every (λ p. p == pid) live

module _ (machine : Machine) where
  unfoldable pub process : ℕ → Act (Option String)
  unfolding ask
  process pid = ask (λ n. machine.ps n pid)

  unfoldable pub digest_of : String → Act String
  unfolding ask
  digest_of path = ask (λ n. machine.digest n path) >>= (λ found. or_raise found raise_storage)

  -- The loop after the signal, of as many rounds.
  unfoldable pub wait_gone : ℕ → ℕ → Act (Unit {0})
  unfolding process
  wait_gone pid zero = refuse "Controller did not stop; no broad kill attempted"
  wait_gone pid (suc rounds) = do
    actual ← process pid
    if is_running actual then wait_gone pid rounds else pure tt

  -- What follows the first look.
  unfoldable pub terminate : Owner → Option String → Act (Unit {0})
  unfolding digest_of kill wait_gone
  terminate owner none = pure tt
  terminate owner (some actual) = do
    require (same_identity (some actual) owner.identity)
        "PID ownership changed; refusing to stop process"
    sha ← digest_of owner.binary
    require (str_eq sha owner.sha256) "PID ownership changed; refusing to stop process"
    kill owner.pid
    wait_gone owner.pid 100

  unfoldable pub stop_owned : Owner → Act (Unit {0})
  unfolding process terminate
  stop_owned owner = process owner.pid >>= terminate owner

  -- check(config)
  unfoldable pub check : Config → Act (Unit {0})
  unfolding ask digest_of
  check config = do
    commit ← ask machine.head
    head ← or_raise commit raise_storage
    require (str_eq head config.source_commit) "Source identity mismatch: source_commit"
    found ← ask machine.tree
    tree ← or_raise found raise_storage
    require (str_eq tree config.source_tree) "Source identity mismatch: source_tree"
    dirty ← ask machine.is_dirty
    require (not dirty) "Pinned workspace has uncommitted changes"
    binary ← digest_of config.binary
    require (str_eq binary config.binary_sha256) "binary hash mismatch"
    library ← digest_of config.library
    require (str_eq library config.library_sha256) "library hash mismatch"

  -- query(broker)
  unfoldable pub ask_device : Act (Unit {0})
  unfolding ask
  ask_device = do
    answered ← ask machine.answers
    require answered "No fresh device response; state unknown"

  -- The test of the processes that run against the registered owner.
  unfoldable pub check_live : Option Owner → List ℕ → Act (Unit {0})
  unfolding process
  check_live owner [] = pure tt
  check_live none (pid ∷ pids) = refuse "Unregistered controller owner; refusing handoff"
  check_live (some owner) (pid ∷ pids) = do
    require (is_only owner.pid (pid ∷ pids)) "Unregistered controller owner; refusing handoff"
    actual ← process owner.pid
    require (same_identity actual owner.identity) "Unregistered controller owner; refusing handoff"

  -- `owner and process(owner["pid"])`
  unfoldable pub owner_runs : Option Owner → Act Bool
  unfolding process
  owner_runs none = pure false
  owner_runs (some owner) = process owner.pid >>= (λ actual. pure (is_truthy actual))

  unfoldable pub stop_owner : Option Owner → Act (Unit {0})
  unfolding stop_owned
  stop_owner none = pure tt
  stop_owner (some owner) = stop_owned owner

  -- `spawn(config, broker, binary, log)`, with `record`.
  unfoldable pub spawn : String → Act Owner
  unfolding ask launch digest_of
  spawn binary = do
    launch binary
    found ← ask (λ n. machine.spawn n binary)
    pid ← or_raise found (refuse "Controller exited; inspect")
    actual ← ask (λ n. machine.ps n pid)
    sha ← digest_of binary
    pure (record { pid = pid; identity = actual; binary = binary; sha256 = sha })

  unfoldable pub check_original : Config → Kind → Act (Unit {0})
  unfolding digest_of
  check_original config candidate = pure tt
  check_original config original = do
    sha ← digest_of config.original_binary
    require (str_eq sha config.original_binary_sha256) "Original binary changed; refusing restore"

  abbrev pub binary_for : Config → Kind → String
  binary_for config original = config.original_binary
  binary_for config candidate = config.binary

  -- From the stop of the registered owner.
  unfoldable pub hand_over : Config → Option Owner → Kind → Act (Unit {0})
  unfolding stop_owner check_original spawn write_state ask_device
  hand_over config owner target = do
    stop_owner owner
    write_state (record { kind = target; owner = none })
    check_original config target
    new ← spawn (binary_for config target)
    write_state (record { kind = target; owner = some new })
    ask_device

  -- Under the lock.
  unfoldable pub control : Config → Action → Registered → Act (Unit {0})
  unfolding ask check_live owner_runs ask_device hand_over
  control config action state = do
    found ← ask machine.live
    live ← or_raise found raise_storage
    check_live state.owner live
    runs ← owner_runs state.owner
    if runs && (kind_eq state.kind (target_of action) && not (is_restart action))
        then ask_device
        else hand_over config state.owner (target_of action)

  unfoldable pub main : Config → Action → Act (Unit {0})
  unfolding check ask_device control
  main config doctor = check config
  main config query = check config >> ask_device
  main config action = do check config; state ← (λ d. (ok d.state, d)); control config action state
