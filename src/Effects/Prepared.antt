-- ===== src/Effects/Prepared.antt =====
-- Archives and journals are made beside what is there: scripts/durable_recovery.py, `build_archive`,
-- `verify_archive`, `create_journal` and the commands that end with them.
use moon_mqtt_client.Base.{ℕ, ◌≤◌, ◌≡◌, Option, none, some, String}
use moon_mqtt_client.Json.{Json}
use moon_mqtt_client.Paths.{FilePath}
use moon_mqtt_client.Durable.{Snapshot}
use moon_mqtt_client.Bundle.{SourceFile, Manifest, Bundle}
use moon_mqtt_client.Request.{Request}
use moon_mqtt_client.Exec.{◌>>=◌, ◌>>◌}
use moon_mqtt_client.Exec.Rules.{
  IsPreorder, Step, Step-then, Step-bind, Step-storage_as, step_rules, Meets, Meets-then,
  Meets-bind, Meets-pure, Meets-assume, Meets-weaken, Meets-except_raise,
}
use moon_mqtt_client.World.{
  Env, World, Act, Content, change, fill, sqlite_connect, unlink, link_file,
  publish_file_no_replace,
}
use moon_mqtt_client.World.Frame.{Quiet, Quiet-call, Quiet-gets, Quiet-sha256_file, quiet_rules}
use moon_mqtt_client.World.Changes.{link_file-Frame}
use moon_mqtt_client.Archive.{
  Zip, check_request, check_bundle, check_evidence, verify_archive, backup_database,
  archive_manifest, write_archive, build_archive,
}
use moon_mqtt_client.Journal.{create_journal}
use moon_mqtt_client.Reads.{Quiet-require_schema, Quiet-snapshot}
use moon_mqtt_client.Effects.Staging.{NewAt, NewAt-Step}
use moon_mqtt_client.Effects.Temporary.{
  Spares, spares, Spares_of_Frame, Spares_of_Quiet, fill-Spares, unlink-Spares, Uses,
  Spares-temporary, Spares-temporary_as, Uses-first_then, Intact, Meets-temporary, Meets_of_Spares,
  Spares_of_Meets, Uses-rest, Uses-finally, Uses-storage_as, Uses-then, Uses-bind, Uses-first,
  Uses-sqlite_connect, Uses-open, Uses-follow, no_inode, no_name,
}

module _ (env : Env) (w0 : World) where
  o : IsPreorder (Spares w0)
  o = spares env w0

  kept : {A : Type 0} (m : Act A) → Step Quiet m → Step (Spares w0) m
  kept m = Spares_of_Quiet env w0 m

  filled :
      (i : ℕ) (c : World → Content) → w0.fresh ≤ i → Step (Spares w0) (change (λ w. fill i (c w) w))
  filled = fill-Spares env w0

  unlinked : (p : FilePath) → w0.entry p ≡ none → Step (Spares w0) (unlink env p)
  unlinked = unlink-Spares env w0

  linked : (source p : FilePath) → Step (Spares w0) (link_file env source p)
  linked source p = Spares_of_Frame env w0 _ (link_file-Frame env no_inode no_name source p)

  ruleset spare_rules = (step_rules, o, kept, quiet_rules, filled, unlinked, linked)

  publish-Spares :
      (staging destination : FilePath)
      → w0.entry staging ≡ none
      → Step (Spares w0) (publish_file_no_replace env staging destination)
  unfolding publish_file_no_replace
  publish-Spares staging destination absent = search spare_rules depth 20

  module _ (dir prefix : String) (p : FilePath) where
    then_quietly :
        {A B : Type 0} (m : Act A) (n : Act B)
        → Step Quiet m
        → Uses env w0 dir prefix p n
        → Uses env w0 dir prefix p (m >> n)
    then_quietly = Uses-then env w0 dir prefix p

    bind_quietly :
        {A B : Type 0} (m : Act A) (f : A → Act B)
        → Step Quiet m
        → ((a : A) → Uses env w0 dir prefix p (f a))
        → Uses env w0 dir prefix p (m >>= f)
    bind_quietly = Uses-bind env w0 dir prefix p

    -- The new journal.
    connected :
        {A : Type 0} (f : ℕ → Act A)
        → ((c : ℕ) → w0.fresh ≤ c → Step (Spares w0) (f c))
        → Uses env w0 dir prefix p (sqlite_connect env p >>= f)
    connected = Uses-sqlite_connect env w0 dir prefix p

  module _ (zip : Zip) where
    backup_database-Uses :
        (dir prefix : String) (source : ℕ) (p : FilePath)
        → Uses env w0 dir prefix p (backup_database env zip source p)
    unfolding backup_database
    backup_database-Uses dir prefix source p =
        connected dir prefix p _ λ c later. search (spare_rules, Quiet-require_schema) depth 20

    Quiet-check_request : (r : Option Json) (m : Manifest) → Step Quiet (check_request env zip r m)
    unfolding check_request
    Quiet-check_request none m = search quiet_rules
    Quiet-check_request (some r) m = search quiet_rules depth 8

    Quiet-check_bundle :
        (k : Option String) (r : Option Json) (b : Bundle) → Step Quiet (check_bundle env zip k r b)
    unfolding check_bundle
    Quiet-check_bundle k r b = search (quiet_rules, Quiet-check_request) depth 30

    check_evidence-Uses :
        (dir prefix : String) (p : FilePath) (c : Content) (m : Manifest)
        → Uses env w0 dir prefix p (check_evidence env zip p c m)
    unfolding check_evidence
    check_evidence-Uses dir prefix p c m =
        Uses-first env w0 dir prefix p _ _
          (Uses-storage_as env w0 dir prefix p _ _ (
            then_quietly dir prefix p _ _ (Quiet-call env) (
              then_quietly dir prefix p _ _ (Quiet-call env) (
                then_quietly dir prefix p _ _ (Quiet-call env) (
                  Uses-open env w0 dir prefix p _
                    λ i later. Uses-rest env w0 dir prefix p _ (search spare_rules depth 12))))))
          λ i. search (spare_rules, Quiet-snapshot) depth 20

    pub verify_archive-Spares :
        (tmpdir : String) (path : FilePath) (k : Option String) (r : Option Json)
        → Step (Spares w0) (verify_archive env zip tmpdir path k r)
    unfolding verify_archive
    verify_archive-Spares tmpdir path k r = Step-then o _ _ (kept _ (Quiet-call env)) (
        Step-bind o _ _ (kept _ (Quiet-gets _)) λ found. Step-bind o _ _ (search spare_rules) λ i.
          Step-bind o _ _ (kept _ (Quiet-gets _)) λ content.
            Step-bind o _ _ (search spare_rules) λ bundle. Step-then o _ _ (search spare_rules) (
              Step-bind o _ _
                (Step-storage_as _ _ (
                  Step-then o _ _ (kept _ (Quiet-call env))
                    (kept _ (Quiet-check_bundle k r bundle))))
                λ x. Spares-temporary_as env w0 _ _ _ _ _ λ temporary absent.
                  Uses-first_then env w0 _ _ temporary _ _
                    (Uses-finally env w0 _ _ temporary _ _
                      (check_evidence-Uses _ _ temporary x.1 x.0) (search spare_rules))
                    (search spare_rules)))

    -- The copy's name was free.
    archive_manifest-Meets :
        (source : ℕ) (value : Snapshot) (kind : String) (r : Option Json) (file : SourceFile)
        (dir : String)
        → Meets {A = Manifest × FilePath}
            (Intact w0)
            (archive_manifest env zip source value kind r file dir)
            (λ x w. Intact w0 w × (w0.entry x.1 ≡ none))
            (Intact w0)
    unfolding archive_manifest
    archive_manifest-Meets source value kind r file dir =
        Meets-temporary env w0 dir _ _ _ λ copy absent.
          Meets-then (NewAt env no_inode no_name w0 dir _ copy) _ _
            (NewAt-Step env no_inode no_name w0 dir _ copy _ (Quiet-call env))
            (Meets-except_raise _ _
              (Meets-then (Intact w0) _ _ (backup_database-Uses dir _ source copy).meets (
                Meets-bind (λ _. Intact w0) _ _
                  (Meets_of_Spares env w0 _ (kept _ (Quiet-sha256_file env copy)))
                  λ sha. Meets-pure {A = Manifest × FilePath} _ (λ w h. (h, absent))))
              (Meets_of_Spares env w0 _ (unlinked copy absent)) (λ s h. h))

    write_archive-Uses :
        (dir prefix : String) (copy staging path : FilePath) (m : Manifest)
        → w0.entry staging ≡ none
        → Uses env w0 dir prefix staging (write_archive env zip copy staging path m)
    unfolding write_archive
    write_archive-Uses dir prefix copy staging path m absent =
        then_quietly dir prefix staging _ _ (Quiet-call env) (
          bind_quietly dir prefix staging _ _ (Quiet-gets _) λ found.
            bind_quietly dir prefix staging _ _ (search quiet_rules) λ i.
              bind_quietly dir prefix staging _ _ (Quiet-gets _) λ content.
                bind_quietly dir prefix staging _ _ (search quiet_rules) λ body.
                  Uses-follow env w0 dir prefix staging _ λ j later.
                    Uses-rest env w0 dir prefix staging _
                      (search (spare_rules, publish-Spares) depth 20))

    pub build_archive-Spares :
        (source : ℕ) (value : Snapshot) (path : FilePath) (kind : String) (r : Option Json)
        (file : Option SourceFile)
        → Step (Spares w0) (build_archive env zip source value path kind r file)
    unfolding build_archive
    build_archive-Spares source value path kind r file = Step-bind o _ _ (search spare_rules) λ own.
        Spares_of_Meets env w0 _ (
          Meets-bind (λ x w. Intact w0 w × (w0.entry x.1 ≡ none)) _ _
            (archive_manifest-Meets source value kind r own path.dir)
            λ x.
              Meets-assume (w0.entry x.1 ≡ none) _ (λ w h. h.1)
                λ copy_absent.
                  Meets-weaken _ (λ w h. h.0) (λ a w h. h)
                    (Meets_of_Spares env w0 _ (
                      Step-then o _ _ (search spare_rules depth 8) (
                        Spares-temporary env w0 path.dir _ _ _ λ staging absent.
                          then_quietly _ _ staging _ _ (Quiet-call env) (
                            then_quietly _ _ staging _ _ (Quiet-call env) (
                              Uses-finally env w0 _ _ staging _ _
                                (write_archive-Uses _ _ x.1 staging path x.0 absent)
                                (search spare_rules)))))))

  pub create_journal-Spares :
      (request : Request) (sha : String) (value : Snapshot) (file : SourceFile)
      → Step (Spares w0) (create_journal env request sha value file)
  unfolding create_journal
  create_journal-Spares request sha value file = Step-bind o _ _ (kept _ (Quiet-gets _)) λ exists.
      Step-then o _ _ (search spare_rules) (
        Spares-temporary env w0 _ _ _ _ λ staging absent.
          then_quietly _ _ staging _ _ (Quiet-call env) (
            Uses-finally env w0 _ _ staging _ _
              (connected _ _ staging _
                λ c later. search (spare_rules, publish-Spares) depth 25 fits 20000)
              (unlinked staging absent)))
