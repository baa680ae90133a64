-- ===== src/Tests/Scripts.antt =====
-- Runs of the acceptance and evidence scripts on concrete data.
use moon_mqtt_client.Base.{
  leb, false, ℕ, true, false, not, ◌&&◌, ◌≡◌, refl, [], ◌∷◌, none, some, inl, inr, str_in, String,
  Option, arith, if◌then◌else◌, str_eq,
}
use moon_mqtt_client.Base.Int.{pos}
use moon_mqtt_client.Exec.{◌>>=◌, ◌>>◌, require, or_raise}
use moon_mqtt_client.Acceptance.{
  Scenario, Arguments, Machine, Result, exited, passed, platform_not_applicable, finished, listed,
  driver_build, main, index_of, at_level, ids, choose, prepare, run_scenario, run_all,
  run_scenarios, run_selected, is_unchanged, all_good, driver_build, Identity,
}
use moon_mqtt_client.Acceptance.Covered.{has_good_row, row_ids, main-covered, main-listed}
use moon_mqtt_client.Controller.{
  Owner, Config, Desk, candidate, restart, ask, process, digest_of, wait_gone, terminate,
  stop_owned, check, ask_device, check_live, owner_runs, stop_owner, spawn, launch, kill,
  write_state, check_original, hand_over, control,
}
use moon_mqtt_client.Controller.Owned.{SentTo, main-SentTo}
use moon_mqtt_client.Evidence.{
  Item, Observation, Command, Classification, count, once, evidence_insufficient, classify_run,
  calibrated_of, matches, classify_commands, observation, outcome, executed, unrun, cases,
  command_cases,
}
use moon_mqtt_client.Evidence.Supported.{IsSupported, classify_run-IsSupported}

abbrev raw_protocol : Scenario
raw_protocol = record { id = "raw-protocol"; level = "core"; only_levels = none; platforms = none }

abbrev emqx : Scenario
emqx = record {
  id = "emqx";
  level = "integration";
  only_levels = none;
  platforms = some ("Linux" ∷ []);
}

abbrev scenarios : moon_mqtt_client.Acceptance.Manifest
scenarios = record {
  levels = "core" ∷ "integration" ∷ "release" ∷ [];
  scenarios = raw_protocol ∷ emqx ∷ [];
}

abbrev arguments : Arguments
arguments = record { level = "integration"; list_only = false; only = [] }

abbrev identity : Identity
identity = record { commit = "c"; files = [] }

abbrev machine : Machine
machine = record {
  system = "Darwin";
  source = some identity;
  source_end = some identity;
  attempt = λ n s. exited (pos 0);
}

abbrev result : Result
result = record {
  level = "integration";
  attempts =
      record { id = "protocol-driver-build"; attempt = 1; status = passed }
      ∷ record { id = "raw-protocol"; attempt = 1; status = passed }
      ∷ record { id = "emqx"; attempt = 1; status = platform_not_applicable }
      ∷ [];
  source_unchanged = true;
  successful = true;
  full_level = true;
}

finished_run : main machine scenarios arguments ≡ finished result
unfolding main index_of at_level run_selected ids choose prepare run_scenarios run_all run_scenario
    is_unchanged all_good
finished_run = refl

main-covered_example : has_good_row "emqx" result.attempts ≡ true
unfolding index_of
main-covered_example =
    main-covered machine scenarios arguments result emqx finished_run refl (inr (inl refl))
      (record {
        rank = 1;
        rank_eq = refl;
        limit = 1;
        limit_eq = refl;
        le = omega arith;
        here = refl;
      })
      refl

listed_run :
    main machine scenarios (record arguments { list_only = true })
    ≡ listed (driver_build ∷ raw_protocol ∷ emqx ∷ [])
unfolding main index_of at_level run_selected ids choose prepare
listed_run = refl

main-listed_example : row_ids result.attempts ≡ ids (driver_build ∷ raw_protocol ∷ emqx ∷ [])
main-listed_example =
    main-listed machine scenarios arguments result (driver_build ∷ raw_protocol ∷ emqx ∷ [])
      finished_run listed_run

abbrev hash_of : String → Option String
hash_of file = some "h"

abbrev item : Item
item = record { file = "f"; sha256 = "h" }

abbrev run : moon_mqtt_client.Evidence.Manifest
run = record {
  candidate = item;
  firmware = item;
  consumer = item;
  two_distinct_applies_resolved = true;
  raw_capture = some item;
}

abbrev seen : Observation
seen = record {
  id = "1";
  independent_observer = true;
  coverage_complete = true;
  raw_capture = some item;
  apply_count = some (count (pos 1));
}

abbrev commands : moon_mqtt_client.Base.List Command
commands = record { id = "1"; case = "baseline" } ∷ record { id = "2"; case = "expired" } ∷ []

abbrev classified : Classification
classified = record {
  commands =
      record { id = "1"; case = "baseline"; execution = once }
      ∷ record { id = "2"; case = "expired"; execution = evidence_insufficient }
      ∷ [];
  unrun_cases = unrun commands cases;
  b2_complete = false;
}

evidence_run : classify_run hash_of run (seen ∷ []) commands ≡ some classified
unfolding classify_run calibrated_of matches classify_commands observation outcome executed
evidence_run = refl

classify_run-IsSupported_example : IsSupported hash_of run (seen ∷ []) commands classified.commands
classify_run-IsSupported_example =
    classify_run-IsSupported hash_of run (seen ∷ []) commands classified evidence_run

abbrev controller : Owner
controller = record { pid = 7; identity = some "p"; binary = "/c"; sha256 = "h" }

-- The process 7 is gone after the tenth question; the new one is 8.
abbrev host : moon_mqtt_client.Controller.Machine
host = record {
  ps = λ n pid. if leb n 10 then some "p" else none;
  digest = λ n path. some "h";
  live = λ n. some (7 ∷ []);
  spawn = λ n binary. some 8;
  answers = λ n. true;
  head = λ n. some "c";
  tree = λ n. some "t";
  is_dirty = λ n. false;
}

abbrev config : Config
config = record {
  source_commit = "c";
  source_tree = "t";
  binary = "/c";
  binary_sha256 = "h";
  library = "/l";
  library_sha256 = "h";
  original_binary = "/o";
  original_binary_sha256 = "h";
}

abbrev desk : Desk
desk = record {
  now = 0;
  state = record { kind = candidate; owner = some controller };
  signals = [];
  started = [];
}

-- A restart stops the registered controller and starts the candidate.
restarted : (moon_mqtt_client.Controller.main host config restart desk).1.signals ≡ 7 ∷ []
unfolding moon_mqtt_client.Controller.main ask process digest_of wait_gone terminate stop_owned
    check ask_device check_live owner_runs stop_owner spawn launch kill write_state check_original
    hand_over control ◌>>=◌ ◌>>◌ require or_raise
restarted = refl

main-SentTo_example :
    SentTo host [] (some controller) (moon_mqtt_client.Controller.main host config restart desk).1
main-SentTo_example = main-SentTo host config restart desk
