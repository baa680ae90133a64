-- ===== src/Resolution/Cleanup.antt =====
-- The steps of `advance_resolution` one by one: each keeps the promises of the journal's phase.
use moon_mqtt_client.Base.{ℕ, suc, ◌≤◌, ◌==◌, String, true, false, ◌≡◌, refl, arith, none, ==_refl}
use moon_mqtt_client.Durable.{Snapshot}
use moon_mqtt_client.Bundle.{SourceFile, Manifest}
use moon_mqtt_client.Phase.{
  Phase, prepared, source_retired, old_clean_requested, old_clean_confirmed, new_clean_requested,
  new_clean_confirmed, phase_eq, rank, JournalRow,
}
use moon_mqtt_client.Request.{Request, Session}
use moon_mqtt_client.Exec.{◌>>◌, pure}
use moon_mqtt_client.Exec.Rules.{
  step_rules, Meets, Meets-bind, Meets-then, Meets-step, Meets-weaken, Meets-errors, Meets-pure,
  Meets-if,
}
use moon_mqtt_client.World.{Env, World, maybe_fail}
use moon_mqtt_client.World.Frame.{Quiet, Quiet-maybe_fail}
use moon_mqtt_client.World.Changes.{Frame-IsPreorder}
use moon_mqtt_client.Effects.{retire_source-Frame}
use moon_mqtt_client.Reads.{Quiet-snapshot, Quiet-reconcile_source}
use moon_mqtt_client.Journal.{update_phase}
use moon_mqtt_client.Broker.{clean_broker_session}
use moon_mqtt_client.Resolution.{
  retire_step, old_request_step, old_clean_step, new_request_step, new_clean_step, clean_steps,
}
use moon_mqtt_client.Resolution.Order.{phase_eq-rank, Discarded}
use moon_mqtt_client.Resolution.Ordered.{Ready, H-Quiet, update_phase-Holds}
use moon_mqtt_client.Resolution.Steps.{
  Hj, Ej, ends, frame, quiet, move, clean_broker_session-Discards,
}

module _ (env : Env) (request : Request) (source start connection : ℕ) where
  abbrev pub J : JournalRow → World → Type 0
  J = Hj env request start connection

  abbrev pub X : World → Type 0
  X = Ej env request start connection

  -- A step that does nothing in other phases.
  pub skip : (j : JournalRow) → Meets (J j) (pure j) J X
  skip j = Meets-pure j (λ w h. h)

  pub requested :
      (j : JournalRow) (p q : Phase)
      → phase_eq j.phase p ≡ true
      → rank p ≤ rank q
      → (3 ≤ rank q → 3 ≤ rank p)
      → (5 ≤ rank q → 5 ≤ rank p)
      → Meets (J j) (update_phase env connection q none none) J X
  requested j p q e le old new =
      Meets-weaken _ (λ w h. h) (λ row w h. h.0)
        (move env request start connection j p q none none e le old new)

  old_request_step-Holds :
      (j : JournalRow) → Meets (J j) (old_request_step env request source connection j) J X
  unfolding old_request_step
  old_request_step-Holds j =
      Meets-if _ _ _
        (λ e.
          requested j source_retired old_clean_requested e (omega arith) (omega arith)
            (omega arith))
        (λ _. skip j)

  new_request_step-Holds :
      (j : JournalRow) → Meets (J j) (new_request_step env request source connection j) J X
  unfolding new_request_step
  new_request_step-Holds j =
      Meets-if _ _ _
        (λ e.
          requested j old_clean_confirmed new_clean_requested e (omega arith) (omega arith)
            (omega arith))
        (λ _. skip j)

  both-Quiet :
      (j : JournalRow) (session : Session) (w w' : World)
      → Quiet w w'
      → J j w × Discarded session w
      → J j w' × Discarded session w'
  both-Quiet j session w w' q h =
      (H-Quiet env request start connection j w w' q h.0, rw q.exchanges_eq h.1)

  -- After the session is discarded, the failpoint and the phase update.
  confirm :
      (j : JournalRow) (session : Session) (name : String) (q : Phase)
      → ((w : World) → J j w → Discarded session w → Ready env request start connection j q w)
      → Meets
          (J j)
          (clean_broker_session env request session
            >> (maybe_fail env name >> update_phase env connection q none none))
          J
          X
  confirm j session name q ready =
      Meets-then (λ w. J j w × Discarded session w) _ _
        (clean_broker_session-Discards env request start connection j session)
        (Meets-then (λ w. J j w × Discarded session w) _ _
          (Meets-errors (λ w h. ends env request start connection j w h.0)
            (Meets-step (both-Quiet j session) (maybe_fail env name) (Quiet-maybe_fail env name)))
          (Meets-weaken _ (λ w h. ready w h.0 h.1) (λ row w h. h.0)
            (update_phase-Holds env request start connection j q none none)))

  Ready-clean :
      (j : JournalRow) (p q : Phase) (w : World)
      → phase_eq j.phase p ≡ true
      → rank q ≡ suc (rank p)
      → (3 ≤ rank q → Discarded request.old_session w)
      → (5 ≤ rank q → Discarded request.new_session w)
      → J j w
      → Ready env request start connection j q w
  Ready-clean j p q w e next old new h = record {
    holds = h;
    promised = record {
      forward = omega (arith, h.ordered.forward, phase_eq-rank j.phase p e);
      old_discarded = old;
      new_discarded = new;
    };
  }

  old_clean_step-Holds :
      (j : JournalRow) → Meets (J j) (old_clean_step env request source connection j) J X
  unfolding old_clean_step
  old_clean_step-Holds j =
      Meets-if _ _ _
        (λ e. confirm j request.old_session "after_old_clean" old_clean_confirmed (λ w h d.
          Ready-clean j old_clean_requested old_clean_confirmed w e refl (λ k. d)
            (λ k. absurd (omega arith)) h))
        (λ _. skip j)

  new_clean_step-Holds :
      (j : JournalRow) → Meets (J j) (new_clean_step env request source connection j) J X
  unfolding new_clean_step
  new_clean_step-Holds j =
      Meets-if _ _ _
        (λ e. confirm j request.new_session "after_new_clean" new_clean_confirmed (λ w h d.
          Ready-clean j new_clean_requested new_clean_confirmed w e refl
            (λ k.
              h.ordered.old_discarded (omega (arith, phase_eq-rank j.phase new_clean_requested e)))
            (λ k. d) h))
        (λ _. skip j)

  pub clean_steps-Holds :
      (j : JournalRow) → Meets (J j) (clean_steps env request source connection j) J X
  unfolding clean_steps
  clean_steps-Holds j = Meets-bind J _ _ (old_request_step-Holds j) λ j1.
      Meets-bind J _ _ (old_clean_step-Holds j1)
        λ j2. Meets-bind J _ _ (new_request_step-Holds j2) λ j3. new_clean_step-Holds j3

  pub retire_step-Holds :
      (s : Snapshot) (m : Manifest) (f : SourceFile) (j : JournalRow)
      → (connection == source) ≡ false
      → Meets (J j) (retire_step env request source connection s m f j) J X
  unfolding retire_step
  retire_step-Holds s m f j apart =
      Meets-if _ _ _
        (λ e.
          Meets-then (J j) _ _
            (frame env request start connection (λ i. i == source) (λ _. false) j _ apart
              (search (
                step_rules,
                Frame-IsPreorder (λ i. i == source) (λ _. false),
                retire_source-Frame env (λ i. i == source) (λ _. false) source j (==_refl source),
              )))
            (Meets-bind J _ _
              (requested j prepared source_retired e (omega arith) (omega arith) (omega arith))
              λ j'.
                Meets-bind (λ _. J j') _ _
                  (quiet env request start connection j' _ (Quiet-snapshot env source))
                  λ s'.
                    Meets-then (J j') _ _
                      (quiet env request start connection j' _ (Quiet-reconcile_source j' s' m f))
                      (skip j')))
        (λ _. skip j)
