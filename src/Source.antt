-- ===== src/Source.antt =====
-- Owning, checking and retiring the source: scripts/durable_recovery.py,
-- `acquire_resolution_source`, `validate_decisions`, `reconcile_source` and the first step of
-- `advance_resolution`.
pub mod Decisions
use moon_mqtt_client.Base.{
  ℕ, String, Bool, true, false, ◌&&◌, ◌||◌, ◌==◌, none, some, List, [], ◌∷◌, str_eq, if◌then◌else◌,
  every,
}
use moon_mqtt_client.Base.Int.{pos}
use moon_mqtt_client.Sqlite.{Cell, null, integer, real, text, blob, is_number}
use moon_mqtt_client.Durable.{Meta, Record, Snapshot}
use moon_mqtt_client.Durable.Equal.{body_eq}
use moon_mqtt_client.Paths.{FilePath}
use moon_mqtt_client.Phase.{JournalRow}
use moon_mqtt_client.Bundle.{SourceFile, Manifest}
use moon_mqtt_client.Request.{Request, DecisionRecord}
use moon_mqtt_client.Exec.{pure, refuse, require, or_raise, except_raise, sqlite_as, ◌>>=◌, ◌>>◌}
use moon_mqtt_client.World.{
  Env, Content, durable, Act, call, sql, change, draw, fill, gets, query, connect_sqlite, pragma,
  is_regular, maybe_fail, raise_storage, as_database, type_error,
}
use moon_mqtt_client.Inspect.{require_schema, snapshot}
use moon_mqtt_client.Replacement.{is_text}

abbrev pub source_file_eq : SourceFile → SourceFile → Bool
source_file_eq a b = a.device == b.device && a.inode == b.inode

-- The first check of `snapshot` is that `delivery_id` can be written as JSON, which a blob cannot.
abbrev delivery_ids : List Record → List Cell
delivery_ids [] = []
delivery_ids (r ∷ rs) = r.delivery_id ∷ delivery_ids rs

abbrev decided_ids : List DecisionRecord → List String
decided_ids [] = []
decided_ids (r ∷ rs) = r.delivery_id ∷ decided_ids rs

-- `cell in decided`, where only a text equals a text.
abbrev cell_in : Cell → List String → Bool
cell_in c [] = false
cell_in c (s ∷ ss) = is_text s c || cell_in c ss

abbrev cells_subset : List Cell → List String → Bool
cells_subset [] ss = true
cells_subset (c ∷ cs) ss = cell_in c ss && cells_subset cs ss

abbrev text_in : String → List Cell → Bool
text_in s [] = false
text_in s (c ∷ cs) = is_text s c || text_in s cs

abbrev texts_subset : List String → List Cell → Bool
texts_subset [] cs = true
texts_subset (s ∷ ss) cs = text_in s cs && texts_subset ss cs

-- `sorted(actual)` compares IDs, which is a `TypeError` for two of different kinds.
abbrev same_kind : Cell → Cell → Bool
same_kind null null = true
same_kind (text s) (text t) = true
same_kind (integer m) (integer n) = true
same_kind (integer m) (real y) = true
same_kind (real x) (integer n) = true
same_kind (real x) (real y) = true
same_kind (blob xs) (blob ys) = true
same_kind _ _ = false

abbrev pub is_sortable : List Cell → Bool
is_sortable [] = true
is_sortable (c ∷ cs) = every (same_kind c) cs

-- validate_decisions(request, snapshot)
unfoldable pub validate_decisions : Request → Snapshot → Act (Unit {0})
validate_decisions request snapshot_value =
    let actual = delivery_ids snapshot_value.body.records in
    let decided = decided_ids request.decision.records in
    if cells_subset actual decided && texts_subset decided actual
    then pure tt
    else if is_sortable actual
    then refuse "operator decisions must cover exactly the extant rows"
    else type_error

unfoldable pub reconcile_source : JournalRow → Snapshot → Manifest → SourceFile → Act (Unit {0})
reconcile_source journal current manifest source_file = do
  let expected_file : SourceFile = record {
    device = journal.source_device;
    inode = journal.source_inode;
  }
  require
      (source_file_eq source_file expected_file
        && source_file_eq manifest.source_file expected_file)
      "source file identity differs from the prepared operation"
  let archived = manifest.snapshot
  require (body_eq current.body archived.body)
      "source rows/metadata changed after the recovery archive"
  require
      (str_eq current.identity journal.old_identity
        || str_eq current.identity journal.retired_identity)
      "source identity is neither original nor this operation's tombstone"
  require (str_eq journal.source_snapshot_sha256 archived.snapshot_sha256)
      "journal source fingerprint does not match archive"

module _ (old retired : String) where
  -- `WHERE singleton=1 AND identity=?`
  abbrev is_retirable : Meta → Bool
  is_retirable m = is_number (pos 1) m.singleton && is_text old m.identity

  unfoldable pub retire_rows : List Meta → List Meta
  retire_rows [] = []
  retire_rows (m ∷ ms) =
      (if is_retirable m then record m { identity = text retired } else m) ∷ retire_rows ms

  -- `rowcount`
  unfoldable pub retirable : List Meta → ℕ
  retirable [] = 0
  retirable (m ∷ ms) = if is_retirable m then ℕ.suc (retirable ms) else retirable ms

  -- What COMMIT writes to the source's file.
  unfoldable pub retire_content : ℕ → Content → Content
  unfolding retire_rows
  retire_content page c = elim (as_database c) [
    | none ↦ c
    | some db ↦ durable (record db { meta = retire_rows db.meta }) page
  ]

module _ (env : Env) where
  -- The transaction that replaces the source's identity by the tombstone.
  unfoldable pub retire_source : ℕ → JournalRow → Act (Unit {0})
  unfolding retirable retire_content
  retire_source source journal = do
    sql env
    except_raise
        (do
          db ← query env source
          require (retirable journal.old_identity journal.retired_identity db.meta == 1)
              "source identity retirement did not update one row"
          sql env
          page ← draw
          change (λ w.
              fill source
                (retire_content journal.old_identity journal.retired_identity page
                  (w.content source))
                w))
        (sql env)
    maybe_fail env "after_source_retire"

  -- The regular file of a path, by `os.stat(path, follow_symlinks=False)`.
  unfoldable pub stat : FilePath → Act SourceFile
  stat path = do
    call env
    found ← gets (λ w. w.entry path)
    i ← or_raise found raise_storage
    pure (record { device = env.device path.dir; inode = i })

  unfoldable pub acquire_resolution_source : FilePath → Act (ℕ × Snapshot × SourceFile)
  unfolding stat
  acquire_resolution_source path = do
    before ← stat path
    regular ← gets (λ w. is_regular (w.content before.inode))
    require regular "durable source is not a regular file"
    connection ← connect_sqlite env path
    sqlite_as "cannot acquire exclusive source ownership" (do
      require_schema env connection
      pragma env "SQLite did not accept exclusive locking mode"
      sql env
      sql env
      pragma env "durable source journal_mode must be DELETE"
      pragma env "durable source did not accept synchronous=EXTRA")
    after ← stat path
    require (source_file_eq before after) "durable source path changed while acquiring ownership"
    value ← sqlite_as "cannot acquire exclusive source ownership" (snapshot env connection)
    pure (connection, value, after)
