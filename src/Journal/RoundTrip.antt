-- ===== src/Journal/RoundTrip.antt =====
-- A new journal can be opened: scripts/durable_recovery.py, `create_journal` and `open_journal`.
use Prim.Native.String.{◌++◌ as ◌<>◌}
use moon_mqtt_client.Identity.{durable_identity}
use moon_mqtt_client.Base.{
  none, ℕ, ==_refl, String, true, ◌≡◌, refl, List, [], ◌∷◌, some, str_eq_refl,
}
use moon_mqtt_client.Json.{Json}
use moon_mqtt_client.Paths.{FilePath}
use moon_mqtt_client.Durable.{Snapshot}
use moon_mqtt_client.Bundle.{SourceFile}
use moon_mqtt_client.Phase.{JournalRow, prepared}
use moon_mqtt_client.Request.{Request, journal_path}
use moon_mqtt_client.Exec.{ok, require, ◌>>=◌}
use moon_mqtt_client.Exec.Gives.{
  Gives, Gives-pure, Gives-bind, Gives-then, Gives-require, Gives-or_raise, Gives-sqlite_as,
  Meets-returns,
}
use moon_mqtt_client.World.{
  Env, World, Content, blank, journal, durable, archive, bytes, directory, link, draw, follow,
  is_regular, query_journal, connect_sqlite, pragma,
}
use moon_mqtt_client.World.Frame.{Quiet}
use moon_mqtt_client.World.Calm.{
  calm, Gives-sql, Gives-gets, Gives-existing_path, Gives-sha256_file, Meets-draw,
}
use moon_mqtt_client.Journal.{bytes_eq, initial_row, create_journal, validate_journal, open_journal}
use moon_mqtt_client.Journal.Created.{db_of, new_journal, queried, create_journal-Created}
use moon_mqtt_client.Journal.Entered.{Archived, Startable, Placed, Placed-Quiet}

-- What the row of a new journal says of the request, the archive and the source.
pub record IsNew (env : Env) (request : Request) (archive_sha : String) (s : Snapshot)
    (f : SourceFile) (row : JournalRow) : Type 0 where
  pub phase_eq : row.phase ≡ prepared
  pub version_eq : (row.singleton ≡ 1) × (row.schema_version ≡ 1)
  pub operation_eq : row.operation_id ≡ request.operation_id
  pub request_eq : row.request_json ≡ env.dumps request.document
  pub request_hash : row.request_sha256 ≡ env.sha256 row.request_json
  pub archive_eq : row.archive_path ≡ request.archive
  pub archive_hash : row.archive_sha256 ≡ archive_sha
  pub fingerprint_eq : row.source_snapshot_sha256 ≡ s.snapshot_sha256
  pub source_eq : (row.source_device ≡ f.device) × (row.source_inode ≡ f.inode)
  pub old_eq : row.old_identity ≡ durable_identity request.broker request.old_session
  pub target_eq : row.target_identity ≡ durable_identity request.broker request.new_session
  pub retired_eq :
      row.retired_identity
      ≡ "moon-mqtt-retired-v1|" <> (request.operation_id <> ("|" <> archive_sha))
  pub unstaged : (row.staged_target ≡ none) × (row.staged_target_sha256 ≡ none)
  pub created_eq : row.created_at ≡ request.decision.decided_at
  pub updated_eq : row.updated_at ≡ request.decision.decided_at

initial_row-IsNew :
    (env : Env) (request : Request) (archive_sha : String) (s : Snapshot) (f : SourceFile)
    → IsNew env request archive_sha s f (initial_row env.sha256 env.dumps request archive_sha s f)
unfolding initial_row
initial_row-IsNew env request archive_sha s f = record {
  phase_eq = refl;
  version_eq = (refl, refl);
  operation_eq = refl;
  request_eq = refl;
  request_hash = refl;
  archive_eq = refl;
  archive_hash = refl;
  fingerprint_eq = refl;
  source_eq = (refl, refl);
  old_eq = refl;
  target_eq = refl;
  retired_eq = refl;
  unstaged = (refl, refl);
  created_eq = refl;
  updated_eq = refl;
}

bytes_eq_refl : (xs : List ℕ) → bytes_eq xs xs ≡ true
bytes_eq_refl [] = refl
bytes_eq_refl (x ∷ xs) = rw (==_refl x) (bytes_eq_refl xs)

module _ (env : Env) (request : Request) (archive_sha : String) (a : ℕ) where
  followed : (w : World) → Archived env request archive_sha a w → follow w (some a) ≡ some a
  followed w h = go (w.content a) h.regular
    where
      go : (c : Content) → is_regular c ≡ true → (elim c [ link t ↦ t | _ ↦ some a ]) ≡ some a
      go (link t) e = absurd (cc)
      go directory e = refl
      go blank e = refl
      go (durable d n) e = refl
      go (journal j n) e = refl
      go (archive b) e = refl
      go (bytes b) e = refl

  -- Reading the row back.
  module _ (s : Snapshot) (f : SourceFile) (stored : Json) (p : FilePath) (i page : ℕ)
      (loads : env.loads (env.dumps request.document) ≡ some stored)
      (dumps : env.dumps stored ≡ env.dumps request.document)
      (accepts : (n : ℕ) → env.accepts n ≡ true) where
    abbrev row : JournalRow
    row = initial_row env.sha256 env.dumps request archive_sha s f

    abbrev Here : World → Type 0
    Here = Placed env request archive_sha a (new_journal row page) p i

    keep : (w w' : World) → Quiet w w' → Here w → Here w'
    keep = Placed-Quiet env request archive_sha a (new_journal row page) p i

    query_here : Gives Here (query_journal (calm env) i) (db_of row)
    query_here = queried env request archive_sha a row p i page Here keep (λ w h. h.is_content)

    pragma-accepted : (reason : String) → Gives Here (pragma (calm env) reason) tt
    unfolding pragma draw require ◌>>=◌
    pragma-accepted reason =
        Gives-then _ _ _ _ (Gives-sql env keep) (record {
          at = λ w h. rw (accepts w.now) (refl, (Meets-draw env keep {E = Here}).at w h);
        })

    validated : Gives Here (validate_journal (calm env) i) (row, stored)
    unfolding validate_journal initial_row
    validated = Gives-bind _ _ _ _ query_here (
        Gives-then _ _ _ _ (Gives-require _ _ refl) (
          Gives-bind _ _ _ _ query_here (
            Gives-then _ _ _ _ (Gives-require _ _ refl) (
              Gives-bind _ _ _ _ query_here (
                Gives-then _ _ _ _ (Gives-require _ _ refl) (
                  Gives-bind _ _ _ _ query_here (
                    Gives-then _ _ _ _ (Gives-require _ _ refl) (
                      Gives-bind _ _ _ _ query_here (
                        Gives-bind _ _ row _ (Gives-or_raise _ _ _ refl) (
                          Gives-then _ _ _ _ (Gives-require _ _ refl) (
                            Gives-bind _ _ stored _ (Gives-or_raise _ _ _ loads) (
                              Gives-then _ _ _ _
                                (Gives-require _ _
                                  (rw dumps (bytes_eq_refl (env.dumps request.document))))
                                (Gives-then _ _ _ _
                                  (Gives-require _ _
                                    (str_eq_refl (env.sha256 (env.dumps request.document))))
                                  (Gives-bind _ _ request.archive _
                                    (Gives-existing_path env keep request.archive a
                                      (λ w h. h.archived.at_entry) "journal archive"
                                      (λ w h. h.archived.regular))
                                    (Gives-bind _ _ archive_sha _
                                      (Gives-sha256_file env keep request.archive a
                                        (λ w h. h.archived.at_entry) (λ w h. followed w h.archived)
                                        archive_sha (λ w h. h.archived.digest))
                                      (Gives-then _ _ _ _
                                        (Gives-require _ _ (str_eq_refl archive_sha))
                                        (Gives-pure (row, stored))))))))))))))))))

    opened : Gives Here (open_journal (calm env) request) (i, row)
    unfolding open_journal connect_sqlite initial_row
    opened =
        Gives-bind _ _ (journal_path request) _
          (Gives-existing_path env keep (journal_path request) i (λ w h. h.at_entry) "journal"
            (λ w h. rw h.is_content refl))
          (Gives-bind _ _ i _
            (Gives-then _ _ _ _ (Gives-sqlite_as _ _ tt (Gives-sql env keep)) (
              Gives-bind _ _ (some i) _
                (Gives-gets env keep _ _ (λ w h. rw (h.at_entry, follow) (rw h.is_content refl)))
                (Gives-or_raise _ _ _ refl)))
            (Gives-then _ _ _ _ (pragma-accepted _) (
              Gives-bind _ _ (row, stored) _ validated
                (Gives-then _ _ _ _ (Gives-require _ _ (bytes_eq_refl (env.dumps request.document)))
                  (Gives-then _ _ _ _
                    (Gives-require _ _ (str_eq_refl (env.sha256 (env.dumps request.document))))
                    (Gives-then _ _ _ _ (Gives-require _ _ refl) (Gives-pure (i, row))))))))

-- In calls that work, where no journal is there, the names that `mkstemp` may draw are free and the
-- archive is a regular file with the hash, `create_journal` returns, and `open_journal` then returns a row
-- with the phase Prepared, the request's operation, canonical JSON and its hash, the archive and its hash,
-- the source's fingerprint and file, the old session's identity as the old one, the new session's as the
-- target's and the tombstone of the operation, no staging file and the time of the decision. It is so
-- where reading the request's canonical JSON and printing it again gives the same bytes and SQLite accepts
-- its settings.
pub create_journal-open_journal :
    (env : Env) (request : Request) (archive_sha : String) (a : ℕ) (s : Snapshot) (f : SourceFile)
    (stored : Json) (w : World)
    → Startable env request archive_sha a w
    → env.loads (env.dumps request.document) ≡ some stored
    → env.dumps stored ≡ env.dumps request.document
    → ((n : ℕ) → env.accepts n ≡ true)
    → (i : ℕ) × (row : JournalRow) × ((create_journal (calm env) request archive_sha s f w).0
        ≡ ok tt)
      × ((open_journal (calm env) request (create_journal (calm env) request archive_sha s f w).1).0
          ≡ ok (i, row))
      × IsNew env request archive_sha s f row
create_journal-open_journal env request archive_sha a s f stored w h loads dumps accepts =
    let (u, e, made) =
      Meets-returns (create_journal (calm env) request archive_sha s f)
        (create_journal-Created env request archive_sha a s f) w h in
    (
      made.i,
      initial_row env.sha256 env.dumps request archive_sha s f,
      e,
      ((opened env request archive_sha a s f stored made.p made.i made.page loads dumps accepts).at
          (create_journal (calm env) request archive_sha s f w).1 made.placed).0,
      initial_row-IsNew env request archive_sha s f,
    )
