-- ===== src/Archive.antt =====
-- Recovery archives: scripts/durable_recovery.py, `backup_database`, `archive_manifest`,
-- `build_archive`, `verify_archive`. What zipfile does is a parameter: the size and the contents of a
-- member, and the file that it writes for a list of members.
pub mod Built
use Prim.Native.String.{◌++◌ as ◌<>◌}
use moon_mqtt_client.Base.{
  ℕ, ◌+◌, ◌*◌, String, Bool, true, false, not, ◌&&◌, List, [], ◌∷◌, Option, none, some, ltb, leb,
  ◌==◌, str_eq, strs_eq, every, length, if◌then◌else◌,
}
use moon_mqtt_client.Durable.{Database, Snapshot, max_source_bytes}
use moon_mqtt_client.Durable.Equal.{snapshot_eq, bytes_eq}
use moon_mqtt_client.Json.{Json}
use moon_mqtt_client.Json.Equal.{json_eq}
use moon_mqtt_client.Paths.{FilePath}
use moon_mqtt_client.Bundle.{SourceFile, Manifest, Member, database, document, raw, Entry, Bundle}
use moon_mqtt_client.Exec.{
  pure, refuse, require, or_raise, when, finally, except_raise, storage_as, sqlite_as, ◌>>=◌, ◌>>◌,
}
use moon_mqtt_client.World.{
  Env, Content, World, durable, archive, Act, call, change, draw, fill, follow, gets, mkstemp,
  tmp_max, unlink, fsync, sha256_file, sqlite_connect, connect_sqlite, query, pragma,
  publish_file_no_replace, raise_storage,
}
use moon_mqtt_client.Inspect.{require_schema, snapshot}

abbrev pub archive_format_version : ℕ
archive_format_version = 1

abbrev pub max_manifest_bytes : ℕ
max_manifest_bytes = 134217728

abbrev pub max_archive_bytes : ℕ
max_archive_bytes = max_source_bytes + max_manifest_bytes + 1048576

-- 1980-01-01, midnight
abbrev pub zip_timestamp : List ℕ
zip_timestamp = 1980 ∷ 1 ∷ 1 ∷ 0 ∷ 0 ∷ 0 ∷ []

-- `0o600 << 16`
abbrev pub private_mode : ℕ
private_mode = 25165824

-- What the parser of a ZIP file and its writer do.
pub record Zip : Type 0 where
  pub size_of : Member → ℕ
  pub content_of : Member → Content
  pub pack : List Entry → Bundle

-- `end_record[:4] == b"PK\x05\x06" and end_record[-2:] == b"\x00\x00"`, of 22 bytes
abbrev pub ends_archive : List ℕ → Bool
ends_archive (p ∷ k ∷ five ∷ six ∷ rest) =
    bytes_eq (p ∷ k ∷ five ∷ six ∷ []) (80 ∷ 75 ∷ 5 ∷ 6 ∷ []) && last_two rest
  where
    last_two : List ℕ → Bool
    last_two [] = false
    last_two (a ∷ []) = false
    last_two (a ∷ b ∷ []) = a == 0 && b == 0
    last_two (a ∷ b ∷ c ∷ rest) = last_two (b ∷ c ∷ rest)
ends_archive _ = false

-- The metadata of a member is canonical.
unfoldable pub is_canonical_entry : Entry → Bool
is_canonical_entry e =
    bytes_eq e.date_time zip_timestamp
    && (e.compress_type == 0
        && (e.create_system == 3
            && (e.external_attr == private_mode
                && (length e.extra == 0
                    && (length e.comment == 0 && e.compress_size == e.file_size)))))

-- The two members of an archive.
abbrev pub two_entries : List Entry → Option (Entry × Entry)
two_entries (a ∷ b ∷ []) =
    if str_eq a.filename "source.sqlite3" && str_eq b.filename "manifest.json"
    then some (a, b)
    else none
two_entries _ = none

abbrev pub manifest_of : Member → Option (Manifest × Bool)
manifest_of (document m canonical) = some (m, canonical)
manifest_of _ = none

abbrev pub archive_of : Content → Option Bundle
archive_of (archive b) = some b
archive_of _ = none

-- `value == o`, for an `o` that may be missing.
abbrev pub is_json_value : Json → Option Json → Bool
is_json_value expected none = false
is_json_value expected (some value) = json_eq value expected

abbrev pub is_string : String → Option String → Bool
is_string s none = false
is_string s (some t) = str_eq s t

abbrev pub kind_fits : Option String → String → Bool
kind_fits none kind = true
kind_fits (some expected) kind = str_eq kind expected

module _ (env : Env) (zip : Zip) where
  -- `expected_request` against the manifest.
  unfoldable pub check_request : Option Json → Manifest → Act (Unit {0})
  check_request none manifest = pure tt
  check_request (some expected) manifest = do
    require (is_json_value expected manifest.request) "archive request does not match"
    require (is_string (env.sha256 (env.dumps expected)) manifest.request_sha256)
        "archive request hash does not match"

  -- The checks on the members, up to the hash of the database.
  unfoldable pub check_bundle : Option String → Option Json → Bundle → Act (Manifest × Content)
  unfolding check_request is_canonical_entry
  check_bundle expected_kind expected_request bundle = do
    if ltb (length bundle.end_record) 22 then raise_storage else pure tt
    require (length bundle.end_record == 22 && ends_archive bundle.end_record)
        "archive has a noncanonical or trailing ZIP end record"
    (source, info) ←
        or_raise (two_entries bundle.entries) (refuse "archive member list/order is not canonical")
    require (is_canonical_entry source && is_canonical_entry info)
        "archive member metadata is not canonical"
    require (leb source.file_size max_source_bytes && leb info.file_size max_manifest_bytes)
        "archive member exceeds recovery size limit"
    require (zip.size_of info.body == info.file_size) "archive manifest is truncated"
    (manifest, canonical) ← or_raise (manifest_of info.body) (refuse "invalid recovery archive")
    require canonical "archive manifest is not canonical JSON"
    require (manifest.archive_format_version == archive_format_version) "unsupported archive format"
    require (kind_fits expected_kind manifest.kind)
        "archive kind does not match the requested operation"
    check_request expected_request manifest
    require (zip.size_of source.body == source.file_size) "archived database is truncated"
    let database_bytes = zip.content_of source.body
    require (str_eq (env.digest database_bytes) manifest.source_database_sha256)
        "archived database hash does not match"
    pure (manifest, database_bytes)

  -- The archived database under a temporary name, and the check of the manifest's snapshot.
  unfoldable pub check_evidence : FilePath → Content → Manifest → Act (Unit {0})
  check_evidence temporary database_bytes manifest = do
    i ← storage_as "invalid recovery archive" (do
      call env
      call env
      call env
      found ← gets (λ w. w.entry temporary)
      i ← or_raise found raise_storage
      change (fill i database_bytes)
      fsync env
      pure i)
    connection ← connect_sqlite env temporary
    archived ← snapshot env connection
    require (snapshot_eq archived manifest.snapshot)
        "archive manifest does not match its SQLite evidence"

  -- `tmpdir` is the directory of `tempfile`.
  unfoldable pub verify_archive :
      String → FilePath → Option String → Option Json → Act (Manifest × String)
  unfolding check_bundle check_evidence
  verify_archive tmpdir path expected_kind expected_request = do
    call env
    found ← gets (λ w. follow w (w.entry path))
    i ← or_raise found raise_storage
    content ← gets (λ w. w.content i)
    bundle ← or_raise (archive_of content) (refuse "invalid recovery archive")
    require (leb bundle.size max_archive_bytes) "archive exceeds recovery size limit"
    (manifest, database_bytes) ←
        storage_as "invalid recovery archive"
          (call env >> check_bundle expected_kind expected_request bundle)
    temporary ←
        storage_as "invalid recovery archive"
          (mkstemp env tmp_max tmpdir "moon-mqtt-archive-" ".sqlite3")
    finally (check_evidence temporary database_bytes manifest)
        (storage_as "invalid recovery archive" (unlink env temporary))
    sha ← sha256_file env path
    pure (manifest, sha)

  -- backup_database(source, destination)
  unfoldable pub backup_database : ℕ → FilePath → Act (Unit {0})
  backup_database source destination = do
    connection ← sqlite_connect env destination
    sqlite_as "cannot create consistent SQLite backup" (do
      pragma env "SQLite backup encountered a busy/locked source"
      pragma env "SQLite backup exceeded its bounded deadline"
      db ← query env source
      page ← draw
      change (fill connection (durable db page))
      require_schema env connection)
    call env
    fsync env

  -- The dict of the manifest. `evidence_limit` is a constant text, and the snapshot has it too.
  abbrev pub manifest_for : Snapshot → String → Option Json → SourceFile → String → Manifest
  manifest_for snapshot_value kind request source_file sha = record {
    archive_format_version = archive_format_version;
    kind = kind;
    snapshot = snapshot_value;
    source_file = source_file;
    source_database_sha256 = sha;
    request = request;
    request_sha256 = elim request [
      | none ↦ none
      | some value ↦ some (env.sha256 (env.dumps value))
    ];
  }

  -- The database's copy, and the manifest.
  unfoldable pub archive_manifest :
      ℕ → Snapshot → String → Option Json → SourceFile → String → Act (Manifest × FilePath)
  unfolding backup_database
  archive_manifest source snapshot_value kind request source_file working_dir = do
    copy ← mkstemp env tmp_max working_dir ".recovery-source-" ".sqlite3"
    call env
    except_raise
        (do
          backup_database source copy
          sha ← sha256_file env copy
          pure (manifest_for snapshot_value kind request source_file sha, copy))
        (unlink env copy)

  -- A member as `build_archive` writes it.
  unfoldable pub new_entry : String → Member → Entry
  new_entry filename body = record {
    filename = filename;
    date_time = zip_timestamp;
    compress_type = 0;
    create_system = 3;
    external_attr = private_mode;
    extra = [];
    comment = [];
    compress_size = zip.size_of body;
    file_size = zip.size_of body;
    body = body;
  }

  unfoldable pub new_bundle : Member → Manifest → Bundle
  unfolding new_entry
  new_bundle copy manifest =
      zip.pack
        (new_entry "source.sqlite3" copy ∷ new_entry "manifest.json" (document manifest true) ∷ [])

  -- The bytes of the database's copy as a member.
  abbrev member_of : Content → Option Member
  member_of (durable db page) = some (database db page)
  member_of (moon_mqtt_client.World.Content.bytes b) = some (raw b)
  member_of _ = none

  -- The `try` block.
  unfoldable pub write_archive : FilePath → FilePath → FilePath → Manifest → Act String
  unfolding new_bundle
  write_archive copy staging path manifest = do
    call env
    found ← gets (λ w. follow w (w.entry copy))
    i ← or_raise found raise_storage
    content ← gets (λ w. w.content i)
    body ← or_raise (member_of content) raise_storage
    target ← gets (λ w. follow w (w.entry staging))
    j ← or_raise target raise_storage
    let bundle = new_bundle body manifest
    change (fill j (archive bundle))
    call env
    require (leb bundle.size max_archive_bytes) "archive exceeds recovery size limit"
    fsync env
    publish_file_no_replace env staging path
    call env
    sha256_file env path

  unfoldable pub build_archive :
      ℕ → Snapshot → FilePath → String → Option Json → Option SourceFile → Act String
  unfolding archive_manifest write_archive
  build_archive source snapshot_value path kind request source_file = do
    file ← or_raise source_file (refuse "source file identity is required for an archive")
    (manifest, copy) ← archive_manifest source snapshot_value kind request file path.dir
    if leb (zip.size_of (document manifest true)) max_manifest_bytes
        then pure tt
        else unlink env copy >> refuse "archive manifest exceeds recovery limit"
    staging ← mkstemp env tmp_max path.dir ("." <> (path.name <> ".")) ".tmp"
    call env
    call env
    finally (write_archive copy staging path manifest) (unlink env copy >> unlink env staging)
