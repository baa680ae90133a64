-- ===== src/Lib.antt =====
-- A model of the recovery tool for durable sessions, scripts/durable_recovery.py, and of five smaller
-- programs of the repository, and what holds of them.
--
-- A durable session of the MQTT client keeps its outbox in a SQLite file, the source. When its broker
-- session is to be abandoned, an operator writes a request (a JSON file) with a decision for every row;
-- the tool then archives the source, retires its identity, has the broker discard the old and the new
-- session, and publishes an empty store, the target. A second SQLite file, the recovery journal, holds
-- one row with the phase that has been reached, so that a run that was cut off can be resumed.
--
-- Parts:
--   * Exec: functions that change the world and may raise, as state passing with an outcome. Exec/Rules,
--     Exec/Returns and Exec/Gives have the rules for what such a function keeps, for what it returns and
--     that it returns.
--   * World: directory entries, inodes and what they hold, the exchanges with the broker; `Env` is what
--     the program does not decide. World/Frame and World/Changes say what a call leaves alone. It has
--     `sha256_file`, `publish_file_no_replace`, `existing_path`, `connect_sqlite` and `maybe_fail`.
--   * Sqlite, Json, Paths, Durable, Phase, Bundle, Request: the data. Json/Equal and Durable/Equal are
--     Python's `==` on it.
--   * Validation: `validate_request`.   * Identity: `durable_identity`.
--   * Inspect: `require_schema`, `snapshot`.   * Archive: `build_archive`, `verify_archive`.
--   * Journal: `create_journal`, `open_journal`, `validate_journal`, `update_phase`.
--   * Broker: `clean_broker_session`.   * Replacement: `create_replacement`, `verify_target`.
--   * Source: `acquire_resolution_source`, `validate_decisions`, `reconcile_source`, the retirement.
--   * Resolution: `advance_resolution`, one definition for each block that tests the phase.
--   * Commands: `observation_snapshot`, `prepare_resolution`, `resolve`. Commands/Main: `export_command`,
--     `status_command` and `main`, after its arguments are parsed.
--   * World/Calm, Journal/Entered, Journal/Created, Journal/Completes, Replacement/Completes and
--     Resolution/Completes: what returns in an environment in which every call works.
--   * Reads, Effects and the modules below Resolution: what the parts read, write and promise.
--   * Acceptance: `main` of scripts/acceptance.py; Acceptance/Source: its `source_identity`.
--   * Evidence: `classify_run` of examples/esp32/b2_evidence.py.
--   * Controller: `main` of scripts/month-end-demo.py.
--   * Consumer: `main` of scripts/prepare-ha-consumer.py.
--   * Demo/Proxy: `DropPubackProxy` of examples/mqtt_demo/demo.py, the direction that drops a PUBACK.
--     Demo/Proxy/Packets prints MQTT packets, and Demo/Proxy/Refined is the abstract link of them.
--   * Tests: runs on concrete data.
--
-- Every call of the operating system and of SQLite is a step that works, raises or ends the process, as
-- `Env.fault` says for its number; what was written before stays written. So a theorem about the world
-- after a run holds for every point at which the run can be cut off. A COMMIT is one step, as SQLite
-- promises. `planted` faults are files that another process puts in the way of `os.link`; other changes
-- by other processes during a run are not modelled. The broker and paho are `Env.reply`, the digests
-- `Env.digest` and `Env.fingerprint`, zipfile is the record `Zip`, and pathlib is the argument `locate`.
--
-- Bounds: `mkstemp` tries `tmp_max` names, which is `os.TMP_MAX`, and raises after them, as the library
-- does. Other loops are recursions on the lists that they read. `digits` has the number itself as fuel
-- for its decimal digits, of which there are fewer. The proxy's inner loop has the length of its buffer,
-- and `wait_gone` the 100 rounds of the code.
--
-- An error's message is kept without its variable parts. `OSError` is the outcome `storage`,
-- `sqlite3.Error` the outcome `sqlite`, and other exceptions `uncaught`. Paths have their directory
-- resolved. A file's bytes are the structure that SQLite or zipfile reads from them, with a number for
-- the pages that differ. Integers of SQLite are unbounded.
-- Not modelled: the parsing of arguments, file modes, the order in which SQLite and directories reach
-- the disk, other scripts, the MoonBit client.
pub mod Base
pub mod Exec
pub mod Sqlite
pub mod Json
pub mod Paths
pub mod Durable
pub mod Phase
pub mod Bundle
pub mod World
pub mod Inspect
pub mod Request
pub mod Validation
pub mod Identity
pub mod Archive
pub mod Journal
pub mod Broker
pub mod Replacement
pub mod Source
pub mod Resolution
pub mod Commands
pub mod Reads
pub mod Effects
pub mod Demo
pub mod Acceptance
pub mod Evidence
pub mod Consumer
pub mod Controller
mod Tests
