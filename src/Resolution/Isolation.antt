-- ===== src/Resolution/Isolation.antt =====
-- What `advance_resolution` may touch: the source, the journal, and files of its own.
use Prim.Native.String.{◌++◌ as ◌<>◌}
use package.text.Mathlib.Text.{starts_with}
use moon_mqtt_client.Base.{
  ℕ, ◌==◌, String, Bool, true, false, ◌&&◌, ◌||◌, ◌≡◌, Option, none, some, arith, str_eq,
  str_eq_refl, if◌then◌else◌,
}
use moon_mqtt_client.Durable.{Snapshot}
use moon_mqtt_client.Paths.{FilePath}
use moon_mqtt_client.Phase.{
  Phase, JournalRow, source_retired, replacement_ready, replacement_published,
}
use moon_mqtt_client.Bundle.{SourceFile, Manifest}
use moon_mqtt_client.Request.{Request}
use moon_mqtt_client.Exec.{◌>>=◌, ◌>>◌, pure}
use moon_mqtt_client.Exec.Rules.{
  IsPreorder, Step, step_rules, Step-if, Step-then, Step-bind, Step-pure, Meets, Meets-bind,
  Meets-then, Meets-step, Meets-assume, Meets-weaken, Meets-require, Meets-pure, Meets-if,
  Step-of_meets,
}
use moon_mqtt_client.World.{Env, World, Act, lexists, unlink, call}
use moon_mqtt_client.World.Frame.{Quiet, quiet_rules, Quiet-gets, Quiet-existing_path}
use moon_mqtt_client.World.Changes.{Frame, Frame-IsPreorder, unlink-Frame, link_file-Frame}
use moon_mqtt_client.Effects.{
  quiet, clean_broker_session-Frame, update_phase-Frame, retire_source-Frame,
}
use moon_mqtt_client.Effects.Staging.{IsStage, create_replacement-IsStage}
use moon_mqtt_client.Reads.{
  Quiet-reconcile_source, Quiet-snapshot, Quiet-verify_target, Quiet-check_published,
  Quiet-check_raced,
}
use moon_mqtt_client.Replacement.{create_replacement}
use moon_mqtt_client.Journal.{update_phase}
use moon_mqtt_client.Resolution.{
  retire_step, old_request_step, old_clean_step, new_request_step, new_clean_step,
  stage_replacement, ready_step, check_published, restage, link_target, publish_target,
  publish_from, publish_step, complete_step, final_step, clean_steps, target_steps,
  advance_resolution,
}

-- The names that `create_replacement` gives to its files.
abbrev pub is_stage : FilePath → FilePath → Bool
is_stage target p =
    str_eq p.dir target.dir && starts_with p.name ("." <> (target.name <> ".recovery-"))

IsStage-is_stage : (target p : FilePath) → IsStage target p → is_stage target p ≡ true
IsStage-is_stage target p h = rw (h.0, h.1) (ground (arith, str_eq_refl target.dir))

module _ (env : Env) (request : Request) (source connection : ℕ) (writes : ℕ → Bool)
    (writes_journal : writes connection ≡ true) where
  abbrev removes : FilePath → Bool
  removes = is_stage request.target

  o : IsPreorder (Frame writes removes)
  o = Frame-IsPreorder writes removes

  kept : {A : Type 0} (m : Act A) → Step Quiet m → Step (Frame writes removes) m
  kept m = quiet env writes removes m

  phase-Frame :
      (p : Phase) (t : Option FilePath) (h : Option String)
      → Step (Frame writes removes) (update_phase env connection p t h)
  phase-Frame p t h = update_phase-Frame env writes removes connection p t h writes_journal

  retire_step-Frame :
      writes source ≡ true
      → (s : Snapshot) (m : Manifest) (f : SourceFile) (j : JournalRow)
      → Step (Frame writes removes) (retire_step env request source connection s m f j)
  unfolding retire_step
  retire_step-Frame writes_source s m f j =
      Step-if _ _ _
        (Step-then o _ _
          (search (step_rules, o, retire_source-Frame env writes removes source j writes_source))
          (Step-bind o _ _ (phase-Frame source_retired none none) λ j'.
            search (step_rules, o, kept, quiet_rules, Quiet-snapshot, Quiet-reconcile_source)))
        (Step-pure o j)

  pub clean_steps-Frame :
      (j : JournalRow) → Step (Frame writes removes) (clean_steps env request source connection j)
  unfolding clean_steps old_request_step old_clean_step new_request_step new_clean_step
  clean_steps-Frame j =
      search (step_rules, o, kept, quiet_rules, phase-Frame, clean_broker_session-Frame) depth 15

  create_replacement-Frame :
      (t : String) → Step (Frame writes removes) (create_replacement env request.target t)
  create_replacement-Frame t = Step-of_meets _ o.same λ w.
      Meets-weaken _ (λ v h. h) (λ r v h. h.0)
        (create_replacement-IsStage env writes removes w request.target t)

  stage_replacement-Frame :
      (j : JournalRow)
      → Step (Frame writes removes) (stage_replacement env request source connection j)
  unfolding stage_replacement
  stage_replacement-Frame j = search (step_rules, o, create_replacement-Frame, phase-Frame)

  ready_step-Frame :
      (j : JournalRow) → Step (Frame writes removes) (ready_step env request source connection j)
  unfolding ready_step
  ready_step-Frame j = search (step_rules, o, kept, quiet_rules, stage_replacement-Frame) depth 12

  complete_step-Frame :
      (j : JournalRow) → Step (Frame writes removes) (complete_step env request source connection j)
  unfolding complete_step
  complete_step-Frame j =
      search (step_rules, o, kept, quiet_rules, phase-Frame, Quiet-verify_target) depth 12

  final_step-Frame :
      (j : JournalRow) → Step (Frame writes removes) (final_step env request source connection j)
  unfolding final_step
  final_step-Frame j = search (step_rules, o, kept, quiet_rules, Quiet-verify_target) depth 12

  link_target-Frame :
      (p : FilePath) (j : JournalRow)
      → Step (Frame writes removes) (link_target env request source connection p j)
  unfolding link_target
  link_target-Frame p j =
      search
        (
          step_rules,
          o,
          kept,
          quiet_rules,
          Quiet-verify_target,
          Quiet-check_raced,
          link_file-Frame env writes removes,
        )
        depth 15

  module _ (w0 : World) where
    abbrev Since : World → Type 0
    Since = Frame writes removes w0

    since :
        {A : Type 0} (m : Act A) → Step (Frame writes removes) m → Meets Since m (λ _. Since) Since
    since m km = Meets-step (λ s t f h. o.next w0 s t h f) m km

    stage_replacement-is_stage :
        (j : JournalRow)
        → Meets Since
            (stage_replacement env request source connection j)
            (λ r w. Since w × (removes r.0 ≡ true))
            Since
    unfolding stage_replacement
    stage_replacement-is_stage j =
        Meets-bind (λ r w. Since w × IsStage request.target r.0) _ _
          (create_replacement-IsStage env writes removes w0 request.target j.target_identity)
          λ r.
            Meets-assume (IsStage request.target r.0) _ (λ w h. h.1)
              λ named.
                Meets-bind (λ _. Since) _ _
                  (Meets-weaken _ (λ w h. h.0) (λ _ w h. h)
                    (since _ (phase-Frame replacement_ready (some r.0) (some r.1))))
                  λ j'.
                    Meets-pure {A = FilePath × JournalRow} (r.0, j')
                      (λ w h. (h, IsStage-is_stage request.target r.0 named))

    -- The staging file is one that the run may remove.
    restage-is_stage :
        (stage : FilePath) (j : JournalRow)
        → removes stage ≡ true
        → Meets Since
            (restage env request source connection stage j)
            (λ r w. Since w × (removes r.0 ≡ true))
            Since
    unfolding restage
    restage-is_stage stage j named =
        Meets-bind (λ _. Since) _ _ (since _ (kept _ (Quiet-gets (lexists stage))))
          λ staged.
            Meets-if staged _ _
              (λ _.
                Meets-bind (λ _. Since) _ _ (since _ (kept _ (Quiet-existing_path env stage _)))
                  λ _. Meets-pure {A = FilePath × JournalRow} (stage, j) (λ w h. (h, named)))
              (λ _. stage_replacement-is_stage j)

    publish_target-is_stage :
        (stage : FilePath) (j : JournalRow)
        → removes stage ≡ true
        → Meets Since
            (publish_target env request source connection stage j)
            (λ r w. Since w × (removes r ≡ true))
            Since
    unfolding publish_target
    publish_target-is_stage stage j named =
        Meets-bind (λ r w. Since w × (removes r.0 ≡ true)) _ _ (restage-is_stage stage j named)
          λ r.
            Meets-assume (removes r.0 ≡ true) _ (λ w h. h.1)
              λ named'.
                Meets-weaken _ (λ w h. h.0) (λ p w h. h)
                  (Meets-then Since _ _ (since _ (link_target-Frame r.0 r.1))
                    (Meets-pure r.0 (λ w h. (h, named'))))

  unlinked : (p : FilePath) → removes p ≡ true → Step (Frame writes removes) (unlink env p)
  unlinked p named = unlink-Frame env writes removes p named

  publish_end-Frame :
      (p : FilePath)
      → removes p ≡ true
      → Step (Frame writes removes) (
          unlink env p >> (call env >> update_phase env connection replacement_published none none))
  publish_end-Frame p named =
      search (step_rules, o, unlinked, kept, quiet_rules, phase-Frame) depth 10

  -- The stage that is published, whether or not the target was there.
  chosen-is_stage :
      (w : World) (p : FilePath) (j : JournalRow) (exists : Bool)
      → removes p ≡ true
      → Meets
          (Frame writes removes w)
          (if exists
            then check_published env request source connection p j >>= (λ _. pure p)
            else publish_target env request source connection p j)
          (λ q v. Frame writes removes w v × (removes q ≡ true))
          (Frame writes removes w)
  chosen-is_stage w p j true named =
      Meets-bind (λ _. Frame writes removes w) _ _
        (since w _ (kept _ (Quiet-check_published env request source connection p j)))
        λ _. Meets-pure p (λ v h. (h, named))
  chosen-is_stage w p j false named = publish_target-is_stage w p j named

  publish_from-Frame :
      (p : FilePath) (j : JournalRow)
      → Step (Frame writes removes) (publish_from env request source connection p j)
  unfolding publish_from
  publish_from-Frame p j = Step-of_meets _ o.same λ w.
      Meets-then (λ v. Frame writes removes w v × (removes p ≡ true)) _ _
        (Meets-require _ _ (λ v h. h) (λ v named h. (h, named)))
        (Meets-assume (removes p ≡ true) _ (λ v h. h.1)
          λ named.
            Meets-weaken _ (λ v h. h.0) (λ r v h. h)
              (Meets-bind (λ _. Frame writes removes w) _ _
                (since w _ (kept _ (Quiet-gets (lexists request.target))))
                λ exists.
                  Meets-bind (λ q v. Frame writes removes w v × (removes q ≡ true)) _ _
                    (chosen-is_stage w p j exists named)
                    λ q.
                      Meets-assume (removes q ≡ true) _ (λ v h. h.1)
                        λ named'.
                          Meets-weaken _ (λ v h. h.0) (λ r v h. h)
                            (since w _ (publish_end-Frame q named'))))

  publish_step-Frame :
      (j : JournalRow) → Step (Frame writes removes) (publish_step env request source connection j)
  unfolding publish_step
  publish_step-Frame j = search (step_rules, o, kept, quiet_rules, publish_from-Frame) depth 8

  pub target_steps-Frame :
      (j : JournalRow) → Step (Frame writes removes) (target_steps env request source connection j)
  unfolding target_steps
  target_steps-Frame j =
      search
        (step_rules, o, ready_step-Frame, publish_step-Frame, complete_step-Frame, final_step-Frame)

  advance-Frame :
      writes source ≡ true
      → (s : Snapshot) (j : JournalRow) (m : Manifest) (f : SourceFile)
      → Step (Frame writes removes) (advance_resolution env request source connection s j m f)
  unfolding advance_resolution
  advance-Frame writes_source s j m f =
      search
        (
          step_rules,
          o,
          kept,
          quiet_rules,
          Quiet-reconcile_source,
          retire_step-Frame writes_source,
          clean_steps-Frame,
          target_steps-Frame,
        )
        depth 10

-- Whatever fails, whenever the process ends and whatever the broker answers, a run of
-- `advance_resolution` writes no inode that was in use but those of the source and of the journal; it
-- neither removes nor replaces a directory entry, but for those with the name of a staging file of
-- the target; and the history of exchanges with the broker only grows.
pub advance_resolution-Frame :
    (env : Env) (request : Request) (source connection : ℕ) (s : Snapshot) (j : JournalRow)
    (m : Manifest) (f : SourceFile) (w : World)
    → Frame
        (λ i. i == source || i == connection)
        (is_stage request.target)
        w
        (advance_resolution env request source connection s j m f w).1
advance_resolution-Frame env request source connection s j m f w =
    (advance-Frame env request source connection (λ i. i == source || i == connection)
        (ground arith) (ground arith) s j m f).at
      w
