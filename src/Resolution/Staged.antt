-- ===== src/Resolution/Staged.antt =====
-- The staging of the replacement and its link to the target keep the promises of the journal's phase.
use moon_mqtt_client.Base.{ℕ, ◌≤◌, String, Bool, true, false, ◌≡◌, refl, arith, some, ap}
use moon_mqtt_client.Paths.{FilePath}
use moon_mqtt_client.Phase.{
  Phase, new_clean_confirmed, replacement_ready, phase_eq, rank, JournalRow,
}
use moon_mqtt_client.Request.{Request}
use moon_mqtt_client.Exec.Rules.{
  IsPreorder, Step, step_rules, Meets, Meets-bind, Meets-then, Meets-assume, Meets-weaken,
  Meets-pure, Meets-if, Step-of_meets,
}
use moon_mqtt_client.World.{Env, World, Act, lexists}
use moon_mqtt_client.World.Frame.{
  Quiet, quiet_rules, Quiet-maybe_fail, Quiet-gets, Quiet-existing_path,
}
use moon_mqtt_client.World.Changes.{Frame, Frame-IsPreorder, Frame_of_Quiet, link_file-Frame}
use moon_mqtt_client.Effects.Staging.{create_replacement-IsStage}
use moon_mqtt_client.Reads.{Quiet-verify_target, Quiet-check_raced}
use moon_mqtt_client.Replacement.{create_replacement}
use moon_mqtt_client.Resolution.{
  stage_replacement, ready_step, restage, link_target, publish_target,
}
use moon_mqtt_client.Resolution.Order.{phase_eq-rank}
use moon_mqtt_client.Resolution.Steps.{frame, quiet, move}
use moon_mqtt_client.Resolution.Cleanup.{J, X, skip}

abbrev pub nothing : ℕ → Bool
nothing i = false

abbrev pub anything : FilePath → Bool
anything p = true

module _ (env : Env) (request : Request) (source start connection : ℕ) where
  -- The journal has a row whose phase has a rank.
  abbrev pub At : ℕ → World → Type 0
  At n w = (row : JournalRow) × J env request source start connection row w × (rank row.phase ≡ n)

  abbrev Jr : JournalRow → World → Type 0
  Jr = J env request source start connection

  abbrev Xr : World → Type 0
  Xr = X env request source start connection

  -- Steps that write no journal.
  pub apart :
      {A : Type 0} (j : JournalRow) (m : Act A)
      → Step (Frame nothing anything) m
      → Meets (Jr j) m (λ _. Jr j) Xr
  apart j m km = frame env request start connection nothing anything j m refl km

  still : {A : Type 0} (j : JournalRow) (m : Act A) → Step Quiet m → Meets (Jr j) m (λ _. Jr j) Xr
  still j m km = quiet env request start connection j m km

  o : IsPreorder (Frame nothing anything)
  o = Frame-IsPreorder nothing anything

  create_replacement-apart :
      (target : FilePath) (t : String)
      → Step (Frame nothing anything) (create_replacement env target t)
  create_replacement-apart target t = Step-of_meets _ o.same λ w.
      Meets-weaken _ (λ v h. h) (λ r v h. h.0)
        (create_replacement-IsStage env nothing anything w target t)

  -- The phase update that records a staging file.
  stage_replacement-Holds :
      (j : JournalRow) (p : Phase)
      → phase_eq j.phase p ≡ true
      → 5 ≤ rank p
      → rank p ≤ 6
      → Meets
          (Jr j)
          (stage_replacement env request source connection j)
          (λ r w. Jr r.1 w × (r.1.phase ≡ replacement_ready))
          Xr
  unfolding stage_replacement
  stage_replacement-Holds j p e five six =
      Meets-bind (λ _. Jr j) _ _
        (apart j _ (create_replacement-apart request.target j.target_identity))
        λ r.
          Meets-bind (λ row w. Jr row w × (row.phase ≡ replacement_ready)) _ _
            (move env request start connection j p replacement_ready (some r.0) (some r.1) e
              (omega arith) (omega arith) (omega arith))
            λ j'. Meets-pure {A = FilePath × JournalRow} (r.0, j') (λ w h. h)

  pub ready_step-Holds :
      (j : JournalRow) → Meets (Jr j) (ready_step env request source connection j) Jr Xr
  unfolding ready_step
  ready_step-Holds j =
      Meets-if _ _ _
        (λ e.
          Meets-bind (λ _. Jr j) _ _ (still j _ (Quiet-gets (lexists request.target)))
            λ b. Meets-then (Jr j) _ _ (still j _ (search quiet_rules)) (
              Meets-bind (λ r w. Jr r.1 w × (r.1.phase ≡ replacement_ready)) _ _
                (stage_replacement-Holds j new_clean_confirmed e (omega arith) (omega arith))
                λ r.
                  Meets-weaken _ (λ w h. h.0) (λ _ w h. h)
                    (Meets-then (Jr r.1) _ _
                      (still r.1 _ (Quiet-maybe_fail env "after_replacement_ready"))
                      (skip env request source start connection r.1))))
        (λ _. skip env request source start connection j)

  restage-At :
      (stage : FilePath) (j : JournalRow)
      → phase_eq j.phase replacement_ready ≡ true
      → Meets
          (Jr j)
          (restage env request source connection stage j)
          (λ r w. Jr r.1 w × (rank r.1.phase ≡ 6))
          Xr
  unfolding restage
  restage-At stage j e =
      Meets-bind (λ _. Jr j) _ _ (still j _ (Quiet-gets (lexists stage)))
        λ b.
          Meets-if b _ _
            (λ _.
              Meets-bind (λ _. Jr j) _ _ (still j _ (Quiet-existing_path env stage _))
                λ _.
                  Meets-pure {A = FilePath × JournalRow} (stage, j)
                    (λ w h. (h, phase_eq-rank j.phase replacement_ready e)))
            (λ _.
              Meets-weaken _ (λ w h. h) (λ r w h. (h.0, ap rank h.1))
                (stage_replacement-Holds j replacement_ready e (omega arith) (omega arith)))

  link_target-apart :
      (p : FilePath) (j : JournalRow)
      → Step (Frame nothing anything) (link_target env request source connection p j)
  unfolding link_target
  link_target-apart p j =
      search
        (
          step_rules,
          o,
          Frame_of_Quiet nothing anything,
          quiet_rules,
          Quiet-verify_target,
          Quiet-check_raced,
          link_file-Frame env nothing anything,
        )
        depth 15

  pub publish_target-At :
      (stage : FilePath) (j : JournalRow)
      → phase_eq j.phase replacement_ready ≡ true
      → Meets (Jr j) (publish_target env request source connection stage j) (λ _. At 6) Xr
  unfolding publish_target
  publish_target-At stage j e =
      Meets-bind (λ r w. Jr r.1 w × (rank r.1.phase ≡ 6)) _ _ (restage-At stage j e)
        λ r.
          Meets-assume (rank r.1.phase ≡ 6) _ (λ w h. h.1)
            λ six.
              Meets-weaken _ (λ w h. h.0) (λ p w h. h)
                (Meets-then (Jr r.1) _ _ (apart r.1 _ (link_target-apart r.0 r.1))
                  (Meets-pure r.0 (λ w h. (r.1, h, six))))
