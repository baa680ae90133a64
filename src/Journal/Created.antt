-- ===== src/Journal/Created.antt =====
-- A new journal is created in calls that work: scripts/durable_recovery.py, `create_journal`.
use Prim.Native.String.{◌++◌ as ◌<>◌}
use moon_mqtt_client.Base.{ℕ, ==_refl, String, false, ◌≡◌, refl, [], ◌∷◌, some}
use moon_mqtt_client.Paths.{FilePath}
use moon_mqtt_client.Durable.{Snapshot}
use moon_mqtt_client.Bundle.{SourceFile}
use moon_mqtt_client.Phase.{JournalRow, JournalDb, journal_schema_version, expected_journal_columns}
use moon_mqtt_client.Request.{Request, journal_path}
use moon_mqtt_client.Exec.Rules.{
  Meets, Meets-bind, Meets-then, Meets-weaken, Meets-finally_ok, Meets-given,
}
use moon_mqtt_client.Exec.Gives.{
  Gives, Gives-bind, Gives-then, Gives-require, Gives-or_raise, Meets-gives, Meets-gives_then,
  Meets-of_gives,
}
use moon_mqtt_client.World.{
  Env, World, Content, blank, journal, change, fill, follow, path_exists, query_journal, unlink,
}
use moon_mqtt_client.World.Frame.{Quiet}
use moon_mqtt_client.World.Calm.{
  calm, Gives-call, Gives-sql, Gives-gets, Gives-sqlite_connect, Meets-draw, Made-given,
  mkstemp-Made,
}
use moon_mqtt_client.Journal.{journal_objects, initial_row, journal_body, create_journal}
use moon_mqtt_client.Journal.Entered.{
  Startable, Startable-Quiet, New, New-Quiet, NewAt, create-New, Placed, Placed-Quiet,
  unlink-Placed, published,
}

-- The file of a new journal.
abbrev pub db_of : JournalRow → JournalDb
db_of row = record {
  user_version = journal_schema_version;
  integrity = "ok";
  objects = journal_objects;
  columns = expected_journal_columns;
  rows = row ∷ [];
}

abbrev pub new_journal : JournalRow → ℕ → Content
new_journal row page = journal (db_of row) page

module _ (env : Env) (request : Request) (archive_sha : String) (a : ℕ) where
  abbrev final : FilePath
  final = journal_path request

  module _ (row : JournalRow) (p : FilePath) (i : ℕ) where
    -- The COMMIT.
    filled :
        (page : ℕ) {E : World → Type 0}
        → Meets
            (New env request archive_sha a blank p i)
            (change (λ w. fill i (new_journal row page) w))
            (λ _. New env request archive_sha a (new_journal row page) p i)
            E
    unfolding change
    filled page = record {
      at = λ w h. record {
        archived = record {
          at_entry = h.archived.at_entry;
          regular = rw h.apart h.archived.regular;
          digest = rw h.apart h.archived.digest;
        };
        at_entry = h.at_entry;
        is_content = rw (==_refl i) refl;
        vacant = h.vacant;
        apart = h.apart;
        named = h.named;
      };
    }

    pub queried :
        (page : ℕ) (Q : World → Type 0)
        → ((w w' : World) → Quiet w w' → Q w → Q w')
        → ((w : World) → Q w → w.content i ≡ new_journal row page)
        → Gives Q (query_journal (calm env) i) (db_of row)
    unfolding query_journal
    queried page Q keep held = Gives-then _ _ _ _ (Gives-sql env keep) (
        Gives-bind _ _ (some (db_of row)) _ (Gives-gets env keep _ _ (λ w h. rw (held w h) refl))
          (Gives-or_raise _ _ _ refl))

    Done : World → Type 0
    Done w = (page : ℕ) × Placed env request archive_sha a (new_journal row page) p i w

    -- The `try` block of `create_journal`.
    body-Done :
        {E : World → Type 0}
        → Meets
            (New env request archive_sha a blank p i)
            (journal_body (calm env) p final row)
            (λ _. Done)
            E
    unfolding Done journal_body change
    body-Done =
        let still = New-Quiet env request archive_sha a blank p i in
        let step = Gives-sql env still in
        Meets-gives _ _ i
          (Gives-sqlite_connect env still p i (λ w h. h.at_entry)
            (λ w h. rw (h.is_content, follow) refl))
          (Meets-gives_then _ _ tt step (
            Meets-gives_then _ _ tt step (
              Meets-gives_then _ _ tt step (
                Meets-gives_then _ _ tt step (
                  Meets-gives_then _ _ tt step (
                    Meets-gives_then _ _ tt step (
                      Meets-bind (λ _. New env request archive_sha a blank p i) _ _
                        (Meets-draw env still)
                        λ page.
                          let c = new_journal row page in
                          let kept = New-Quiet env request archive_sha a c p i in
                          Meets-then (New env request archive_sha a c p i) _ _ (filled page) (
                            Meets-gives _ _ (db_of row)
                              (queried page (New env request archive_sha a c p i) kept
                                (λ w h. h.is_content))
                              (Meets-gives_then _ _ tt (Gives-require _ _ refl) (
                                Meets-gives_then _ _ tt (Gives-call env kept) (
                                  Meets-then (Placed env request archive_sha a c p i) _ _
                                    (published env request archive_sha a c p i)
                                    (Meets-of_gives _ tt
                                      (Gives-call env
                                        (Placed-Quiet env request archive_sha a c p i))
                                      (λ w h. (page, h))))))))))))))

  -- The journal is there.
  pub record Created (row : JournalRow) (w : World) : Type 0 where
    pub p : FilePath
    pub i : ℕ
    pub page : ℕ
    pub placed : Placed env request archive_sha a (new_journal row page) p i w

  unlinked :
      (row : JournalRow) (p : FilePath) (i : ℕ) {E : World → Type 0}
      → Meets (Done row p i) (unlink (calm env) p) (λ _. Created row) E
  unfolding Done
  unlinked row p i = Meets-given λ page.
      Meets-weaken _ (λ w h. h) (λ _ w h. record { p = p; i = i; page = page; placed = h })
        (unlink-Placed env request archive_sha a (new_journal row page) p i)

  pub create_journal-Created :
      (s : Snapshot) (f : SourceFile) {E : World → Type 0}
      → Meets
          (Startable env request archive_sha a)
          (create_journal (calm env) request archive_sha s f)
          (λ _. Created (initial_row env.sha256 env.dumps request archive_sha s f))
          E
  unfolding create_journal NewAt
  create_journal-Created s f =
      let row = initial_row env.sha256 env.dumps request archive_sha s f in
      Meets-gives _ _ false
        (Gives-gets env (Startable-Quiet env request archive_sha a) (path_exists final) false
          (λ w h. rw (h.vacant, follow) refl))
        (Meets-gives_then _ _ tt (Gives-require _ _ refl) (
          Meets-bind (NewAt env request archive_sha a) _ _
            (Meets-weaken _ (λ w h. h)
              (Made-given env (Startable-Quiet env request archive_sha a)
                (NewAt env request archive_sha a) _ _ _ (create-New env request archive_sha a))
              (mkstemp-Made env (Startable-Quiet env request archive_sha a) 9999 final.dir
                ("." <> (final.name <> ".")) ".tmp" (λ n w h. h.free n)))
            λ p. Meets-given λ i.
              Meets-gives_then _ _ tt
                (Gives-call env (New-Quiet env request archive_sha a blank p i))
                (Meets-finally_ok _ _ (body-Done row p i) (λ _. unlinked row p i))))
