-- ===== src/Resolution/Resumed.antt =====
-- Resuming a resolution that is complete: scripts/durable_recovery.py, `advance_resolution`.
use moon_mqtt_client.Base.{ℕ, ◌≡◌, refl, ◌∙◌, ap}
use moon_mqtt_client.Durable.{Snapshot}
use moon_mqtt_client.Bundle.{SourceFile, Manifest}
use moon_mqtt_client.Phase.{complete, JournalRow}
use moon_mqtt_client.Request.{Request}
use moon_mqtt_client.Exec.{pure, ◌>>=◌}
use moon_mqtt_client.Exec.Rules.{Step, step_rules}
use moon_mqtt_client.World.{Env, World, Act}
use moon_mqtt_client.World.Frame.{Quiet, quiet_rules, Quiet-IsPreorder}
use moon_mqtt_client.Reads.{Quiet-reconcile_source, Quiet-verify_target}
use moon_mqtt_client.Resolution.{
  retire_step, old_request_step, old_clean_step, new_request_step, new_clean_step, clean_steps,
  ready_step, publish_step, complete_step, final_step, target_steps, advance_resolution,
}

module _ (env : Env) (request : Request) (source connection : ℕ) (j : JournalRow)
    (h : j.phase ≡ complete) where
  retire_step-skips :
      (s : Snapshot) (m : Manifest) (f : SourceFile)
      → retire_step env request source connection s m f j ≡ pure j
  unfolding retire_step
  retire_step-skips s m f = rw h refl

  clean_steps-skips : clean_steps env request source connection j ≡ pure j
  unfolding clean_steps old_request_step old_clean_step new_request_step new_clean_step ◌>>=◌
  clean_steps-skips = rw h refl

  target_steps-skips :
      target_steps env request source connection j ≡ final_step env request source connection j
  unfolding target_steps ready_step publish_step complete_step ◌>>=◌
  target_steps-skips = rw h refl

  Quiet-final_step : Step Quiet (final_step env request source connection j)
  unfolding final_step
  Quiet-final_step =
      search (step_rules, Quiet-IsPreorder, quiet_rules, Quiet-verify_target) depth 10

  tail-skips :
      (s : Snapshot) (m : Manifest) (f : SourceFile)
      → (retire_step env request source connection s m f j >>= λ j1.
          clean_steps env request source connection j1 >>= λ j2.
          target_steps env request source connection j2)
        ≡ final_step env request source connection j
  unfolding ◌>>=◌
  tail-skips s m f =
      ap (λ x. x >>= rest) (retire_step-skips s m f)
      ∙ ap (λ x. x >>= target_steps env request source connection) clean_steps-skips
      ∙ target_steps-skips
    where
      rest : JournalRow → Act JournalRow
      rest j1 = clean_steps env request source connection j1 >>= λ j2.
          target_steps env request source connection j2

  advance-Quiet :
      (s : Snapshot) (m : Manifest) (f : SourceFile)
      → Step Quiet (advance_resolution env request source connection s j m f)
  unfolding advance_resolution
  advance-Quiet s m f = rw (tail-skips s m f) (
      search (step_rules, Quiet-IsPreorder, quiet_rules, Quiet-reconcile_source, Quiet-final_step)
        depth 12)

-- A run from a journal in the phase Complete changes no file and no directory entry and does not turn
-- to the broker, whatever fails and whether or not its checks succeed.
pub advance_resolution-Quiet :
    (env : Env) (request : Request) (source connection : ℕ) (s : Snapshot) (j : JournalRow)
    (m : Manifest) (f : SourceFile) (w : World)
    → j.phase ≡ complete
    → Quiet w (advance_resolution env request source connection s j m f w).1
advance_resolution-Quiet env request source connection s j m f w h =
    (advance-Quiet env request source connection j h s m f).at w
