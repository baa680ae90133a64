-- ===== src/Acceptance/Source.antt =====
-- The identity of the sources that a release is made from: scripts/acceptance.py, `source_identity`. Git
-- and the file system are the record `Checkout`.
pub mod Sorted
pub mod Exact
use moon_mqtt_client.Base.{
  ℕ, Bool, true, false, not, List, [], ◌∷◌, Option, none, some, String, str_eq, ltb, ◌==◌, ◌||◌,
  ◌&&◌, if◌then◌else◌,
}
use moon_mqtt_client.Base.Text.{codes, encode}
use moon_mqtt_client.Acceptance.{FileIdentity, Identity}

-- A row of `git ls-files --stage -z`: the text after the tab, and the first word before it.
pub record StageRow : Type 0 where
  pub name : String
  pub mode : String

-- What is at a path of the repository: a symbolic link with its text, a regular file with whether it may
-- be executed and its bytes, or neither.
pub data Entry : Type 0 where
  symlink : String → Entry
  file : Bool → List ℕ → Entry
  other : Entry

-- The answers of git, `none` where it exits with an error: the index, the names of `git ls-files`,
-- `rev-parse` of the commit and of the tree, `status --porcelain`.
pub record Checkout : Type 0 where
  pub stage : Option (List StageRow)
  pub listed : Option (List String)
  pub commit : Option String
  pub tree : Option String
  pub status : Option String
  pub entry : String → Entry
  pub sha256 : List ℕ → String

-- What `source_identity` returns, less the platform and the version of Python.
pub record Source : Type 0 where
  pub identity : Identity
  pub tree : String
  pub dirty : Bool

-- Python's `<` on texts, by their code points.
abbrev pub codes_lt : List ℕ → List ℕ → Bool
codes_lt [] [] = false
codes_lt [] (d ∷ ds) = true
codes_lt (c ∷ cs) [] = false
codes_lt (c ∷ cs) (d ∷ ds) = ltb c d || (c == d && codes_lt cs ds)

abbrev pub text_lt : String → String → Bool
text_lt s t = codes_lt (codes s) (codes t)

-- `sorted(set(names))`, a name at a time.
unfoldable pub insert_name : String → List String → List String
insert_name s [] = s ∷ []
insert_name s (x ∷ xs) =
    let rest = insert_name s xs in
    if str_eq s x then x ∷ xs else if text_lt s x then s ∷ x ∷ xs else x ∷ rest

unfoldable pub sorted_set : List String → List String
unfolding insert_name
sorted_set [] = []
sorted_set (s ∷ names) = insert_name s (sorted_set names)

-- `index.get(name, mode)`, where a later row replaces an earlier one of the same name.
unfoldable pub mode_of : String → String → List StageRow → String
mode_of name mode [] = mode
mode_of name mode (row ∷ rows) = mode_of name (if str_eq row.name name then row.mode else mode) rows

-- The entry of `files` for a name, or an `AssertionError`.
unfoldable pub identify_entry : Checkout → List StageRow → String → Entry → Option FileIdentity
unfolding mode_of
identify_entry checkout index name (symlink target) =
    if str_eq (mode_of name "120000" index) "120000"
    then some (record {
      name = name;
      sha256 = checkout.sha256 (encode target);
      mode = "120000";
      kind = "symlink";
      target = some target;
    })
    else none
identify_entry checkout index name (file executable content) =
    let mode = if executable then "100755" else "100644" in
    if str_eq (mode_of name mode index) mode
    then some (record {
      name = name;
      sha256 = checkout.sha256 content;
      mode = mode;
      kind = "file";
      target = none;
    })
    else none
identify_entry checkout index name other = none

-- The loop over the names.
unfoldable pub identify_all : Checkout → List StageRow → List String → Option (List FileIdentity)
unfolding identify_entry
identify_all checkout index [] = some []
identify_all checkout index (name ∷ names) =
    let rest = identify_all checkout index names in
    if str_eq name ""
    then rest
    else elim (identify_entry checkout index name (checkout.entry name)) [
      | none ↦ none
      | some f ↦ elim rest [ none ↦ none | some fs ↦ some (f ∷ fs) ]
    ]

-- `git rev-parse` and `git status`, after the files.
unfoldable pub described : Checkout → List FileIdentity → Option Source
described checkout files = elim checkout.commit [
  | none ↦ none
  | some commit ↦ elim checkout.tree [
    | none ↦ none
    | some tree ↦ elim checkout.status [
      | none ↦ none
      | some status ↦ some (record {
        identity = record { commit = commit; files = files };
        tree = tree;
        dirty = not (str_eq status "");
      })
    ]
  ]
]

unfoldable pub source_identity : Checkout → Option Source
unfolding identify_all sorted_set described
source_identity checkout = elim checkout.stage [
  | none ↦ none
  | some index ↦ elim checkout.listed [
    | none ↦ none
    | some names ↦ elim (identify_all checkout index (sorted_set names)) [
      | none ↦ none
      | some files ↦ described checkout files
    ]
  ]
]
