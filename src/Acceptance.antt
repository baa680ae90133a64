-- ===== src/Acceptance.antt =====
-- The acceptance run of a release: scripts/acceptance.py, `main` after its arguments are parsed. Git, the
-- file system and the scenarios' processes are the record `Machine`.
pub mod Covered
pub mod Source
use moon_mqtt_client.Base.{
  ℕ, suc, Bool, true, false, not, ◌&&◌, ◌||◌, List, [], ◌∷◌, Option, none, some, String, map,
  str_eq, str_in, str_subset, strs_eq, every, leb, if◌then◌else◌, is_some, length, ◌==◌,
}
use moon_mqtt_client.Base.Int.{ℤ, pos, int_eq}

-- An entry of tests/scenarios.json. One with `platforms` has a `platform_reason` too.
pub record Scenario : Type 0 where
  pub id : String
  pub level : String
  pub only_levels : Option (List String)
  pub platforms : Option (List String)

pub record Manifest : Type 0 where
  pub levels : List String
  pub scenarios : List Scenario

-- `level`, `--list` and `--only` of the command line.
pub record Arguments : Type 0 where
  pub level : String
  pub list_only : Bool
  pub only : List String

-- An entry of `files` in `source_identity()`, with its name.
pub record FileIdentity : Type 0 where
  pub name : String
  pub sha256 : String
  pub mode : String
  pub kind : String
  pub target : Option String

-- What `main` uses of `source_identity()`. The names come in order.
pub record Identity : Type 0 where
  pub commit : String
  pub files : List FileIdentity

-- The end of a scenario's process: its exit code, an exception that the loop catches, or one that it does
-- not catch.
pub data Attempt : Type 0 where
  exited : ℤ → Attempt
  raised escaped : Attempt

-- `source_identity()` before, or `none` where it raises; the same after, or `none` where the `try` block
-- after the loop raises; and what the scenarios do in turn.
pub record Machine : Type 0 where
  pub system : String
  pub source : Option Identity
  pub source_end : Option Identity
  pub attempt : ℕ → Scenario → Attempt

pub data Status : Type 0 where
  passed failed platform_not_applicable : Status

pub record Row : Type 0 where
  pub id : String
  pub attempt : ℕ
  pub status : Status

pub record Result : Type 0 where
  pub level : String
  pub attempts : List Row
  pub source_unchanged : Bool
  pub successful : Bool
  pub full_level : Bool

-- How `main` ends: `parser.error`, another exception, the list, or the result that it writes.
pub data Ended : Type 0 where
  usage : Ended
  exception : Ended
  listed : List Scenario → Ended
  finished : Result → Ended

-- `names.index(s)`
unfoldable pub index_of : String → List String → Option ℕ
index_of s [] = none
index_of s (name ∷ names) =
    let later = index_of s names in
    if str_eq s name then some 0 else elim later [ none ↦ none | some n ↦ some (suc n) ]

abbrev pub is_only_level : String → Option (List String) → Bool
is_only_level level none = true
is_only_level level (some levels) = str_in level levels

-- The scenarios of a level and of those below it; a level that is not in the list is a `ValueError`.
unfoldable pub at_level : Manifest → String → ℕ → List Scenario → Option (List Scenario)
unfolding index_of
at_level manifest name level [] = some []
at_level manifest name level (s ∷ ss) = elim (index_of s.level manifest.levels) [
  | none ↦ none
  | some n ↦ elim (at_level manifest name level ss) [
    | none ↦ none
    | some rest ↦ some (if leb n level && is_only_level name s.only_levels then s ∷ rest else rest)
  ]
]

unfoldable pub ids : List Scenario → List String
ids [] = []
ids (s ∷ ss) = s.id ∷ ids ss

-- `[s for s in scenarios if s["id"] in only]`
unfoldable pub choose : List String → List Scenario → List Scenario
choose only [] = []
choose only (s ∷ ss) = let rest = choose only ss in if str_in s.id only then s ∷ rest else rest

abbrev pub driver_build : Scenario
driver_build = record {
  id = "protocol-driver-build";
  level = "core";
  only_levels = none;
  platforms = none;
}

-- The build of the fault driver goes before the scenario that needs it.
unfoldable pub prepare : List Scenario → List Scenario
prepare [] = []
prepare (s ∷ ss) =
    let rest = prepare ss in
    if str_eq s.id "raw-protocol" then driver_build ∷ s ∷ rest else s ∷ rest

abbrev pub is_applicable : String → Option (List String) → Bool
is_applicable system none = true
is_applicable system (some platforms) = str_in system platforms

abbrev pub status_of_code : ℤ → Status
status_of_code code = if int_eq code (pos 0) then passed else failed

abbrev pub is_good : Status → Bool
is_good passed = true
is_good failed = false
is_good platform_not_applicable = true

abbrev pub option_eq : Option String → Option String → Bool
option_eq none none = true
option_eq none (some t) = false
option_eq (some s) none = false
option_eq (some s) (some t) = str_eq s t

abbrev pub file_eq : FileIdentity → FileIdentity → Bool
file_eq f g =
    str_eq f.name g.name
    && (str_eq f.sha256 g.sha256
        && (str_eq f.mode g.mode && (str_eq f.kind g.kind && option_eq f.target g.target)))

abbrev pub files_eq : List FileIdentity → List FileIdentity → Bool
files_eq [] [] = true
files_eq [] (g ∷ gs) = false
files_eq (f ∷ fs) [] = false
files_eq (f ∷ fs) (g ∷ gs) = file_eq f g && files_eq fs gs

-- The `try` block after the loop.
unfoldable pub is_unchanged : Identity → Option Identity → Bool
is_unchanged source none = false
is_unchanged source (some end) = str_eq source.commit end.commit && files_eq source.files end.files

unfoldable pub all_good : List Row → Bool
all_good [] = true
all_good (row ∷ rows) = is_good row.status && all_good rows

module _ (machine : Machine) where
  -- The body of the loop, for scenario number `n`.
  unfoldable pub run_scenario : ℕ → Scenario → Option Row
  run_scenario n s =
      if is_applicable machine.system s.platforms
      then elim (machine.attempt n s) [
        | exited code ↦ some (record { id = s.id; attempt = 1; status = status_of_code code })
        | raised ↦ some (record { id = s.id; attempt = 1; status = failed })
        | escaped ↦ none
      ]
      else some (record { id = s.id; attempt = 1; status = platform_not_applicable })

  unfoldable pub run_all : ℕ → List Scenario → Option (List Row)
  unfolding run_scenario
  run_all n [] = some []
  run_all n (s ∷ ss) = elim (run_scenario n s) [
    | none ↦ none
    | some row ↦ elim (run_all (suc n) ss) [ none ↦ none | some rows ↦ some (row ∷ rows) ]
  ]

  -- From the scenarios that are run.
  unfoldable pub run_scenarios : Arguments → List Scenario → Ended
  unfolding run_all is_unchanged all_good
  run_scenarios args scenarios = elim machine.source [
    | none ↦ exception
    | some source ↦ elim (run_all 0 scenarios) [
      | none ↦ exception
      | some rows ↦
          let unchanged = is_unchanged source machine.source_end in
          finished (record {
            level = args.level;
            attempts = rows;
            source_unchanged = unchanged;
            successful = unchanged && all_good rows;
            full_level = length args.only == 0;
          })
    ]
  ]

  -- Where the scenarios of the level are known.
  unfoldable pub run_selected : Arguments → List Scenario → Ended
  unfolding ids choose prepare run_scenarios
  run_selected args scenarios =
      let unknown = not (str_subset args.only (ids scenarios)) in
      let chosen = if length args.only == 0 then scenarios else choose args.only scenarios in
      let prepared = prepare chosen in
      if not (length args.only == 0) && unknown
      then usage
      else if args.list_only
      then listed prepared
      else run_scenarios args prepared

  unfoldable pub main : Manifest → Arguments → Ended
  unfolding index_of at_level run_selected
  main manifest args = elim (index_of args.level manifest.levels) [
    | none ↦ exception
    | some level ↦ elim (at_level manifest args.level level manifest.scenarios) [
      | none ↦ exception
      | some scenarios ↦ run_selected args scenarios
    ]
  ]

-- `SystemExit(1)` of `main`, and 2 of `parser.error`; a traceback exits with 1.
abbrev pub exit_code : Ended → ℕ
exit_code usage = 2
exit_code exception = 1
exit_code (listed scenarios) = 0
exit_code (finished result) = if result.successful then 0 else 1
