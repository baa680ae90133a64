-- ===== src/Resolution/Completes.antt =====
-- A resolution that was cut off is completed when it is run again in calls that work:
-- scripts/durable_recovery.py, `advance_resolution`.
pub mod Stations
pub mod States
pub mod Cleanups
pub mod Staging
pub mod Publication
pub mod Steps
use moon_mqtt_client.Base.{
  ℕ, suc, ◌≤◌, String, true, false, ◌≡◌, refl, sym, ap, subst, Option, none, some, ◌⊎◌, inl, inr,
  arith, str_eq_refl, if◌then◌else◌, ◌<◌,
}
use moon_mqtt_client.Paths.{FilePath}
use moon_mqtt_client.Durable.{Snapshot, Database}
use moon_mqtt_client.Bundle.{SourceFile, Manifest}
use moon_mqtt_client.Phase.{
  Phase, prepared, source_retired, old_clean_requested, old_clean_confirmed, new_clean_requested,
  new_clean_confirmed, replacement_ready, replacement_published, complete, phase_eq, rank,
  JournalRow,
}
use moon_mqtt_client.Request.{Request}
use moon_mqtt_client.Exec.{ok, pure, require, ◌>>=◌, ◌>>◌}
use moon_mqtt_client.Exec.Rules.{
  Post, Meets, Meets-bind, Meets-pure, Meets-if, Meets-known_if, Meets-weaken, Meets-assume,
}
use moon_mqtt_client.Exec.Gives.{
  Gives, Gives-or_raise, Gives-require, Meets-gives, Meets-gives_then, Meets-of_gives,
  Meets-returns,
}
use moon_mqtt_client.World.{Env, World, Act, Content, durable, lexists, sha256_file, maybe_fail}
use moon_mqtt_client.World.Frame.{Quiet-sha256_file}
use moon_mqtt_client.World.Calm.{calm, Gives-gets, Gives-maybe_fail}
use moon_mqtt_client.Source.{reconcile_source}
use moon_mqtt_client.Journal.Completes.{At, At-Quiet}
use moon_mqtt_client.Replacement.{new_database, verify_target}
use moon_mqtt_client.Replacement.Placed.{Placed}
use moon_mqtt_client.Resolution.{
  retire_step, old_request_step, old_clean_step, new_request_step, new_clean_step, clean_steps,
  ready_step, publish_step, complete_step, final_step, target_steps, advance_resolution,
}
use moon_mqtt_client.Resolution.Order.{phase_eq-rank, journal_at}
use Stations.{Cooperates, Clear-keep, Published-keep, Staged-keep}
use States.{
  IsResumable, IsResumable-rank, IsResumable-Quiet, early, publishing, published, completed,
  ClearAs, StagedIn, PublishedIn, Ready, Early, PublishedRow, IsPublishable, staged, Publishable,
}
use Cleanups.{clean_steps-Early, rank_after}
use Staging.{stage_replacement-Ready, Gives-verify_target}
use Publication.{publish_from-Publishable, published_update}
use Steps.{ready_step-Publishable, publish_step-Final, complete_step-Final, final_step-Final}

module _ (env : Env) (request : Request) (source connection : ℕ) (identity : String)
    (works : Cooperates env request) where
  abbrev EarlyAt : ℕ → JournalRow → World → Type 0
  EarlyAt = Early env request connection identity

  abbrev Final : Phase → JournalRow → World → Type 0
  Final = PublishedRow env request connection identity

  -- A step of a phase that is over.
  passes :
      (F : JournalRow → World → Type 0) (q : Phase) (j : JournalRow) (m : Act JournalRow)
      {E : World → Type 0}
      → ((w : World) → F j w → rank q < rank j.phase)
      → Meets (F j) (if phase_eq j.phase q then m else pure j) F E
  passes F q j m after =
      Meets-if _ _ _
        (λ (e : phase_eq j.phase q ≡ true).
          Meets-assume ⊥ _ (λ w h. omega (arith, phase_eq-rank j.phase q e, after w h))
            λ no. absurd no)
        (λ _. Meets-pure j (λ w h. h))

  clean_steps-passes :
      (F : JournalRow → World → Type 0) (j : JournalRow) {E : World → Type 0}
      → ((row : JournalRow) (w : World) → F row w → 6 ≤ rank row.phase)
      → Meets (F j) (clean_steps (calm env) request source connection j) F E
  unfolding clean_steps old_request_step old_clean_step new_request_step new_clean_step
  clean_steps-passes F j after =
      Meets-bind F _ _ (passes F source_retired j _ (λ w h. omega (arith, after j w h))) λ j1.
        Meets-bind F _ _ (passes F old_clean_requested j1 _ (λ w h. omega (arith, after j1 w h)))
          λ j2.
            Meets-bind F _ _
              (passes F old_clean_confirmed j2 _ (λ w h. omega (arith, after j2 w h)))
              λ j3. passes F new_clean_requested j3 _ (λ w h. omega (arith, after j3 w h))

  retire_step-passes :
      (F : JournalRow → World → Type 0) (s : Snapshot) (m : Manifest) (f : SourceFile)
      (j : JournalRow) {E : World → Type 0}
      → ((w : World) → F j w → 1 ≤ rank j.phase)
      → Meets (F j) (retire_step (calm env) request source connection s m f j) F E
  unfolding retire_step
  retire_step-passes F s m f j after = passes F prepared j _ (λ w h. omega (arith, after w h))

  Final-rank : (q : Phase) (j : JournalRow) (w : World) → Final q j w → rank j.phase ≡ rank q
  Final-rank q j w h = ap rank h.phase_is

  Publishable-rank :
      (j : JournalRow) (w : World)
      → Publishable env request connection identity j w
      → rank j.phase ≡ 6
  Publishable-rank j w h = ap rank h.phase_is

  -- What follows the cleanups, from each of the states.
  publish_steps :
      (j : JournalRow) {E : World → Type 0}
      → Meets
          (Publishable env request connection identity j)
          (publish_step (calm env) request source connection j >>= (λ j2.
            complete_step (calm env) request source connection j2
            >>= final_step (calm env) request source connection))
          (Final complete)
          E
  publish_steps j =
      Meets-bind (Final replacement_published) _ _
        (publish_step-Final env request source connection identity works j)
        λ j2.
          Meets-bind (Final complete) _ _
            (complete_step-Final env request source connection identity works j2)
            λ j3. final_step-Final env request source connection identity works j3

  target_steps-early :
      (j : JournalRow) {E : World → Type 0}
      → Meets (EarlyAt 5 j) (target_steps (calm env) request source connection j) (Final complete) E
  unfolding target_steps
  target_steps-early j =
      Meets-bind (Publishable env request connection identity) _ _
        (ready_step-Publishable env request source connection identity works j)
        λ j1. publish_steps j1

  target_steps-publishing :
      (j : JournalRow) {E : World → Type 0}
      → Meets
          (Publishable env request connection identity j)
          (target_steps (calm env) request source connection j)
          (Final complete)
          E
  unfolding target_steps ready_step
  target_steps-publishing j =
      let F = Publishable env request connection identity in
      Meets-bind F _ _
        (passes F new_clean_confirmed j _ (λ w h. omega (arith, Publishable-rank j w h)))
        λ j1. publish_steps j1

  target_steps-published :
      (q : Phase) (j : JournalRow) {E : World → Type 0}
      → 7 ≤ rank q
      → ((row : JournalRow)
          → Meets
              (Final q row)
              (complete_step (calm env) request source connection row)
              (Final complete)
              E)
      → Meets (Final q j) (target_steps (calm env) request source connection j) (Final complete) E
  unfolding target_steps ready_step publish_step
  target_steps-published q j seven completes =
      Meets-bind (Final q) _ _
        (passes (Final q) new_clean_confirmed j _ (λ w h. omega (arith, Final-rank q j w h)))
        λ j1.
          Meets-bind (Final q) _ _
            (passes (Final q) replacement_ready j1 _ (λ w h. omega (arith, Final-rank q j1 w h)))
            λ j2.
              Meets-bind (Final complete) _ _ (completes j2)
                λ j3. final_step-Final env request source connection identity works j3

  complete_step-passes :
      (j : JournalRow) {E : World → Type 0}
      → Meets
          (Final complete j)
          (complete_step (calm env) request source connection j)
          (Final complete)
          E
  unfolding complete_step
  complete_step-passes j =
      passes (Final complete) replacement_published j _
        (λ w h. omega (arith, Final-rank complete j w h))

  -- The cleanups and the publication, from each of the states.
  from_state :
      (j : JournalRow) {E : World → Type 0}
      → Meets
          (IsResumable env request connection identity j)
          (clean_steps (calm env) request source connection j
            >>= target_steps (calm env) request source connection)
          (Final complete)
          E
  from_state j = record {
    at = λ w h. elim h [
      | early k ↦
          (Meets-bind (EarlyAt 5) _ _
              (clean_steps-Early env request source connection identity works j)
              (λ j1. target_steps-early j1)).at
            w k
      | publishing k ↦
          (Meets-bind (Publishable env request connection identity) _ _
              (clean_steps-passes (Publishable env request connection identity) j
                (λ row v q. omega (arith, Publishable-rank row v q)))
              (λ j1. target_steps-publishing j1)).at
            w k
      | published k ↦
          (Meets-bind (Final replacement_published) _ _
              (clean_steps-passes (Final replacement_published) j
                (λ row v q. omega (arith, Final-rank replacement_published row v q)))
              (λ j1.
                target_steps-published replacement_published j1 (omega arith)
                  (λ row. complete_step-Final env request source connection identity works row))).at
            w k
      | completed k ↦
          (Meets-bind (Final complete) _ _
              (clean_steps-passes (Final complete) j
                (λ row v q. omega (arith, Final-rank complete row v q)))
              (λ j1.
                target_steps-published complete j1 (omega arith)
                  (λ row. complete_step-passes row))).at
            w k
    ];
  }

  archived :
      (j : JournalRow) {E : World → Type 0}
      → Meets
          (λ w.
            IsResumable env request connection identity j w
            × ((sha256_file (calm env) request.archive w).0 ≡ ok j.archive_sha256))
          (sha256_file (calm env) request.archive)
          (λ sha w. IsResumable env request connection identity j w × (sha ≡ j.archive_sha256))
          E
  archived j {E} = record {
    at = λ w h.
        subst
          (λ r.
            Post
              (λ sha v. IsResumable env request connection identity j v × (sha ≡ j.archive_sha256))
              E r (sha256_file (calm env) request.archive w).1)
          (sym h.1)
          (
            IsResumable-Quiet env request connection identity j w
                (sha256_file (calm env) request.archive w).1
                ((Quiet-sha256_file (calm env) request.archive).at w) h.0,
            refl,
          );
  }

  resumed :
      (s : Snapshot) (j : JournalRow) (m : Manifest) (f : SourceFile) {E : World → Type 0}
      → ((v : World) → reconcile_source j s m f v ≡ (ok tt, v))
      → Meets
          (λ w.
            IsResumable env request connection identity j w
            × ((sha256_file (calm env) request.archive w).0 ≡ ok j.archive_sha256))
          (advance_resolution (calm env) request source connection s j m f)
          (Final complete)
          E
  unfolding advance_resolution
  resumed s j m f reconciled =
      Meets-gives_then _ _ tt (record { at = λ w h. rw (reconciled w) (refl, h) })
        (Meets-bind
          (λ sha w. IsResumable env request connection identity j w × (sha ≡ j.archive_sha256)) _ _
          (archived j)
          λ sha.
            Meets-assume (sha ≡ j.archive_sha256) _ (λ w h. h.1)
              λ same.
                Meets-weaken _ (λ w h. h.0) (λ r w h. h)
                  (Meets-gives_then _ _ tt
                    (Gives-require _ _ (rw same (str_eq_refl j.archive_sha256)))
                    (Meets-bind (IsResumable env request connection identity) _ _
                      (retire_step-passes (IsResumable env request connection identity) s m f j
                        (IsResumable-rank env request connection identity j))
                      (λ j1. from_state j1))))

-- A run in calls that work, with no failpoint set, the password at hand and a broker that discards both
-- sessions, completes a resolution that was cut off at any phase after the source's retirement: from a
-- row before ReplacementReady while the target and the names of staging files are free, from a
-- recorded staging file that is there, linked to the target, already removed after the link, or gone
-- before it, and from a published target. If the source reconciles with the journal and the archive
-- has its hash, the run returns, its row is in the journal with the phase Complete, and the target is
-- a new, empty store with the target's identity.
pub advance_resolution-PublishedRow :
    (env : Env) (request : Request) (source connection : ℕ) (s : Snapshot) (j : JournalRow)
    (m : Manifest) (f : SourceFile) (w : World)
    → Cooperates env request
    → IsResumable env request connection j.target_identity j w
    → ((v : World) → reconcile_source j s m f v ≡ (ok tt, v))
    → (sha256_file (calm env) request.archive w).0 ≡ ok j.archive_sha256
    → (row : JournalRow) × ((advance_resolution (calm env) request source connection s j m f w).0
        ≡ ok row)
      × PublishedRow env request connection j.target_identity complete row
          (advance_resolution (calm env) request source connection s j m f w).1
advance_resolution-PublishedRow env request source connection s j m f w works h reconciled hashed =
    Meets-returns (advance_resolution (calm env) request source connection s j m f)
      (resumed env request source connection j.target_identity works s j m f reconciled) w
      (h, hashed)
