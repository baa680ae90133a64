-- ===== src/Evidence.antt =====
-- The classification of field observations: examples/esp32/b2_evidence.py, `classify_run`. The JSON files
-- are read into records; `none` is an exception, of a missing file or key or of a failed assertion.
pub mod Supported
use moon_mqtt_client.Base.{
  ℕ, Bool, true, false, not, ◌&&◌, List, [], ◌∷◌, Option, none, some, String, str_eq, str_in, ◌==◌,
  if◌then◌else◌,
}
use moon_mqtt_client.Base.Int.{ℤ, pos, negsuc}

-- A file and the hash that was recorded for it.
pub record Item : Type 0 where
  pub file : String
  pub sha256 : String

-- `apply_count`, an `int` or something else.
pub data Count : Type 0 where
  count : ℤ → Count
  not_a_count : Count

-- A line of physical.jsonl. The two flags are `bool(row.get(...))`; the last two may be missing.
pub record Observation : Type 0 where
  pub id : String
  pub independent_observer : Bool
  pub coverage_complete : Bool
  pub raw_capture : Option Item
  pub apply_count : Option Count

-- A line of commands.jsonl.
pub record Command : Type 0 where
  pub id : String
  pub case : String

-- run.json. `two_distinct_applies_resolved` is whether it is `True`.
pub record Manifest : Type 0 where
  pub candidate : Item
  pub firmware : Item
  pub consumer : Item
  pub two_distinct_applies_resolved : Bool
  pub raw_capture : Option Item

pub data Execution : Type 0 where
  evidence_insufficient zero once multiple : Execution

pub record Row : Type 0 where
  pub id : String
  pub case : String
  pub execution : Execution

pub record Classification : Type 0 where
  pub commands : List Row
  pub unrun_cases : List String
  pub b2_complete : Bool

unfoldable pub cases : List String
cases =
    "baseline" ∷ "same-id-duplicate" ∷ "conflicting-id" ∷ "expired" ∷ "retained-replay"
    ∷ "device-offline" ∷ "broker-stop" ∷ "broker-kill" ∷ "controller-restart" ∷ "ha-restart"
    ∷ "session-expiry" ∷ "full-puback-delay" ∷ "before-admission-commit" ∷ "after-admission-commit"
    ∷ "after-possible-write-commit" ∷ "after-publish" ∷ "after-puback-before-delete"
    ∷ "after-delete-commit" ∷ []

abbrev pub execution_of : Count → Option Execution
execution_of not_a_count = none
execution_of (count (negsuc n)) = none
execution_of (count (pos n)) = some (if n == 0 then zero else if n == 1 then once else multiple)

-- `physical.get(id)`
unfoldable pub observation : String → List Observation → Option Observation
observation id [] = none
observation id (row ∷ rows) =
    let rest = observation id rows in if str_eq id row.id then some row else rest

abbrev pub command_cases : List Command → List String
command_cases [] = []
command_cases (c ∷ cs) = c.case ∷ command_cases cs

abbrev pub observation_ids : List Observation → List String
observation_ids [] = []
observation_ids (row ∷ rows) = row.id ∷ observation_ids rows

-- No ID is seen twice.
abbrev pub is_unambiguous : List Observation → Bool
is_unambiguous [] = true
is_unambiguous (row ∷ rows) = not (str_in row.id (observation_ids rows)) && is_unambiguous rows

-- The cases of the plan that no command has run.
unfoldable pub unrun : List Command → List String → List String
unrun commands [] = []
unrun commands (c ∷ cs) =
    let rest = unrun commands cs in if str_in c (command_cases commands) then rest else c ∷ rest

-- `hash_of` is the SHA-256 of the bytes of a file that can be read.
module _ (hash_of : String → Option String) where
  -- `file_identity(Path(item["file"]))["sha256"] == item["sha256"]`
  unfoldable pub matches : Item → Option Bool
  matches item = elim (hash_of item.file) [ none ↦ none | some h ↦ some (str_eq h item.sha256) ]

  -- An assertion that the item matches.
  abbrev pub holds : Option Bool → Bool
  holds none = false
  holds (some b) = b

  unfoldable pub calibrated_of : Manifest → Option Bool
  unfolding matches
  calibrated_of manifest =
      if manifest.two_distinct_applies_resolved
      then elim manifest.raw_capture [ none ↦ some false | some item ↦ matches item ]
      else some false

  -- What an observation that counts says.
  unfoldable pub executed : Observation → Option Execution
  unfolding matches
  executed row = elim row.raw_capture [
    | none ↦ none
    | some raw ↦
        if holds (matches raw)
        then elim row.apply_count [ none ↦ none | some c ↦ execution_of c ]
        else none
  ]

  unfoldable pub outcome : Bool → Option Observation → Option Execution
  unfolding executed
  outcome calibrated none = some evidence_insufficient
  outcome calibrated (some row) =
      if calibrated && (row.independent_observer && row.coverage_complete)
      then executed row
      else some evidence_insufficient

  unfoldable pub classify_commands : Bool → List Observation → List Command → Option (List Row)
  unfolding observation outcome
  classify_commands calibrated physical [] = some []
  classify_commands calibrated physical (c ∷ cs) =
      elim (outcome calibrated (observation c.id physical)) [
        | none ↦ none
        | some e ↦ elim (classify_commands calibrated physical cs) [
          | none ↦ none
          | some rows ↦ some (record { id = c.id; case = c.case; execution = e } ∷ rows)
        ]
      ]

  unfoldable pub classify_run : Manifest → List Observation → List Command → Option Classification
  unfolding calibrated_of classify_commands unrun
  classify_run manifest physical commands =
      if holds (matches manifest.candidate)
        && (holds (matches manifest.firmware)
            && (holds (matches manifest.consumer) && is_unambiguous physical))
      then elim (calibrated_of manifest) [
        | none ↦ none
        | some calibrated ↦ elim (classify_commands calibrated physical commands) [
          | none ↦ none
          | some rows ↦
              some (record {
                commands = rows;
                unrun_cases = unrun commands cases;
                b2_complete = false;
              })
        ]
      ]
      else none
