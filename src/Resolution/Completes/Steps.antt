-- ===== src/Resolution/Completes/Steps.antt =====
-- The steps of the publication, one by one, in calls that work: scripts/durable_recovery.py,
-- `advance_resolution`.
use moon_mqtt_client.Base.{ℕ, String, false, ◌≡◌, refl, arith}
use moon_mqtt_client.Paths.{FilePath}
use moon_mqtt_client.Phase.{
  Phase, new_clean_confirmed, replacement_ready, replacement_published, complete, phase_eq,
  JournalRow,
}
use moon_mqtt_client.Request.{Request}
use moon_mqtt_client.Exec.{pure, ◌>>◌}
use moon_mqtt_client.Exec.Rules.{
  Meets, Meets-bind, Meets-pure, Meets-if, Meets-known_if, Meets-weaken, Meets-assume,
}
use moon_mqtt_client.Exec.Gives.{
  Gives, Gives-or_raise, Gives-require, Meets-gives, Meets-gives_then,
}
use moon_mqtt_client.World.{Env, World, maybe_fail}
use moon_mqtt_client.World.Calm.{calm, Gives-gets, Gives-maybe_fail}
use moon_mqtt_client.Journal.Completes.{At, At-Quiet}
use moon_mqtt_client.Replacement.{verify_target}
use moon_mqtt_client.Resolution.{ready_step, publish_step, complete_step, final_step}
use moon_mqtt_client.Resolution.Completes.Stations.{
  Cooperates, Clear-keep, Published-keep, Staged-keep,
}
use moon_mqtt_client.Resolution.Completes.States.{
  PublishedIn, Ready, Early, PublishedRow, staged, Publishable,
}
use moon_mqtt_client.Resolution.Completes.Cleanups.{rank_after}
use moon_mqtt_client.Resolution.Completes.Staging.{stage_replacement-Ready, Gives-verify_target}
use moon_mqtt_client.Resolution.Completes.Publication.{publish_from-Publishable, published_update}

module _ (env : Env) (request : Request) (source connection : ℕ) (identity : String)
    (works : Cooperates env request) where
  abbrev EarlyAt : ℕ → JournalRow → World → Type 0
  EarlyAt = Early env request connection identity

  abbrev Final : Phase → JournalRow → World → Type 0
  Final = PublishedRow env request connection identity

  passed_on :
      (p : FilePath) (j : JournalRow) {E : World → Type 0}
      → Meets
          (Ready env request connection identity p j)
          (maybe_fail (calm env) "after_replacement_ready" >> pure j)
          (Publishable env request connection identity)
          E
  passed_on p j = record {
    at = λ w h.
        (Meets-gives_then _ _ tt
            (Gives-maybe_fail env
              (At-Quiet _ j (Staged-keep request.target connection p identity h.i h.page))
              "after_replacement_ready" works.unset)
            (Meets-pure j (λ v k. record {
              p = p;
              is_staged = h.recorded.staged_target;
              phase_is = h.recorded.phase;
              state = staged h.i h.page k h.recorded;
            }))).at
          w h.at_row;
  }

  pub ready_step-Publishable :
      (j : JournalRow) {E : World → Type 0}
      → Meets
          (EarlyAt 5 j)
          (ready_step (calm env) request source connection j)
          (Publishable env request connection identity)
          E
  unfolding ready_step
  ready_step-Publishable j =
      let still = At-Quiet _ j (Clear-keep env request.target connection) in
      Meets-if _ _ _
        (λ e.
          Meets-assume (j.target_identity ≡ identity) _ (λ w h. h.identity_eq)
            λ same.
              Meets-weaken _ (λ w h. h.at_row) (λ r w h. h)
                (Meets-gives _ _ false (Gives-gets env still _ _ (λ w h. rw h.here.vacant refl)) (
                  Meets-gives_then _ _ tt (Gives-require _ _ refl) (
                    Meets-bind (λ r. Ready env request connection identity r.0 r.1) _ _
                      (stage_replacement-Ready env request source connection identity j same)
                      λ r. passed_on r.0 r.1))))
        (λ (e : phase_eq j.phase new_clean_confirmed ≡ false).
          Meets-assume ⊥ _
            (λ w h.
              omega (arith, rank_after j.phase new_clean_confirmed (omega arith) h.from e, h.below))
            λ no. absurd no)

  pub publish_step-Final :
      (j : JournalRow) {E : World → Type 0}
      → Meets
          (Publishable env request connection identity j)
          (publish_step (calm env) request source connection j)
          (Final replacement_published)
          E
  unfolding publish_step
  publish_step-Final j =
      Meets-assume (j.phase ≡ replacement_ready) _ (λ w h. h.phase_is)
        λ e. Meets-known_if (phase_eq j.phase replacement_ready) _ _ (rw e refl) (record {
          at = λ w h.
              (Meets-gives _ _ h.p (Gives-or_raise _ _ _ h.is_staged)
                  (publish_from-Publishable env request source connection identity works h.p j)).at
                w h.state;
        })

  verified :
      (i page : ℕ) (j : JournalRow)
      → j.target_identity ≡ identity
      → Gives
          (At (PublishedIn env request connection identity i page) j)
          (verify_target (calm env) request.target j.target_identity false)
          tt
  verified i page j same =
      Gives-verify_target env request source connection identity _
        (At-Quiet _ j (Published-keep request.target connection identity i page)) request.target i
        page (λ w h. h.here.placed) _ false same

  pub complete_step-Final :
      (j : JournalRow) {E : World → Type 0}
      → Meets
          (Final replacement_published j)
          (complete_step (calm env) request source connection j)
          (Final complete)
          E
  unfolding complete_step
  complete_step-Final j =
      Meets-assume (j.phase ≡ replacement_published) _ (λ w h. h.phase_is)
        λ e. Meets-known_if (phase_eq j.phase replacement_published) _ _ (rw e refl) (record {
          at = λ w h.
              (Meets-gives_then _ _ tt (verified h.i h.page j h.identity_eq) (
                  published_update env request source connection identity works h.i h.page j
                    complete refl h.identity_eq)).at
                w h.at_row;
        })

  pub final_step-Final :
      (j : JournalRow) {E : World → Type 0}
      → Meets
          (Final complete j)
          (final_step (calm env) request source connection j)
          (Final complete)
          E
  unfolding final_step
  final_step-Final j =
      Meets-assume (j.phase ≡ complete) _ (λ w h. h.phase_is)
        λ e. Meets-known_if (phase_eq j.phase complete) _ _ (rw e refl) (record {
          at = λ w h.
              (Meets-gives_then _ _ tt (verified h.i h.page j h.identity_eq) (
                  Meets-pure j (λ v k. record {
                    i = h.i;
                    page = h.page;
                    at_row = k;
                    identity_eq = h.identity_eq;
                    phase_is = e;
                  }))).at
                w h.at_row;
        })
