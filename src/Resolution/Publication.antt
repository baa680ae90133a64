-- ===== src/Resolution/Publication.antt =====
-- The publication of the replacement keeps the promises of the journal's phase, and ends in
-- `Complete`.
use moon_mqtt_client.Base.{
  ℕ, ◌≤◌, ◌<◌, ◌==◌, Bool, true, false, ◌≡◌, refl, arith, none, some, if◌then◌else◌,
}
use moon_mqtt_client.Paths.{FilePath}
use moon_mqtt_client.Durable.{Snapshot}
use moon_mqtt_client.Bundle.{SourceFile, Manifest}
use moon_mqtt_client.Phase.{
  Phase, replacement_ready, replacement_published, complete, phase_eq, rank, JournalRow,
}
use moon_mqtt_client.Request.{Request}
use moon_mqtt_client.Exec.{ok, ◌>>=◌, ◌>>◌, pure}
use moon_mqtt_client.Exec.Rules.{
  Meets, Meets-bind, Meets-then, Meets-weaken, Meets-pure, Meets-if, Meets-refuse, Meets-always,
  Meets-ok,
}
use moon_mqtt_client.World.{Env, World, call, lexists, unlink}
use moon_mqtt_client.World.Frame.{
  quiet_rules, Quiet-call, Quiet-gets, Quiet-type_error, Quiet-sha256_file,
}
use moon_mqtt_client.World.Changes.{unlink-Frame}
use moon_mqtt_client.Reads.{Quiet-reconcile_source, Quiet-verify_target, Quiet-check_published}
use moon_mqtt_client.Journal.{update_phase}
use moon_mqtt_client.Resolution.{
  publish_target, publish_from, publish_step, complete_step, final_step, target_steps,
  advance_resolution, check_published,
}
use moon_mqtt_client.Resolution.Order.{
  Ordered, Holds, journal_at, Holds-Ends, phase_eq-rank, Discarded,
}
use moon_mqtt_client.Resolution.Ordered.{Ready, update_phase-Holds}
use moon_mqtt_client.Resolution.Steps.{ends, quiet}
use moon_mqtt_client.Resolution.Cleanup.{
  J, X, skip, requested, retire_step-Holds, clean_steps-Holds,
}
use moon_mqtt_client.Resolution.Staged.{
  nothing, anything, At, apart, ready_step-Holds, publish_target-At,
}

module _ (env : Env) (request : Request) (source start connection : ℕ) where
  abbrev Row : JournalRow → World → Type 0
  Row = J env request source start connection

  abbrev Ended : World → Type 0
  Ended = X env request source start connection

  -- The staging file has been linked, or was.
  abbrev Linked : World → Type 0
  Linked = At env request source start connection 6

  Ready-published :
      (row : JournalRow) (w : World)
      → rank row.phase ≡ 6
      → Row row w
      → Ready env request start connection row replacement_published w
  Ready-published row w six h = record {
    holds = h;
    promised = record {
      forward = omega (arith, h.ordered.forward);
      old_discarded = λ k. h.ordered.old_discarded (omega arith);
      new_discarded = λ k. h.ordered.new_discarded (omega arith);
    };
  }

  published_row :
      (p : FilePath) (row : JournalRow)
      → rank row.phase ≡ 6
      → Meets
          (Row row)
          (unlink env p
            >> (call env >> update_phase env connection replacement_published none none))
          Row
          Ended
  published_row p row six =
      Meets-then (Row row) _ _
        (apart env request source start connection row _ (unlink-Frame env nothing anything p refl))
        (Meets-then (Row row) _ _ (quiet env request start connection row _ (Quiet-call env)) (
          Meets-weaken _ (λ w h. Ready-published row w six h) (λ r w h. h.0)
            (update_phase-Holds env request start connection row replacement_published none none)))

  -- The phase update after the publication, from whatever row is there.
  published :
      (p : FilePath)
      → Meets
          (Linked)
          (unlink env p
            >> (call env >> update_phase env connection replacement_published none none))
          Row
          Ended
  published p = record { at = λ w h. (published_row p h.0 h.2).at w h.1 }

  chosen-At :
      (p : FilePath) (j : JournalRow) (exists : Bool)
      → phase_eq j.phase replacement_ready ≡ true
      → Meets
          (Row j)
          (if exists
            then check_published env request source connection p j >>= (λ _. pure p)
            else publish_target env request source connection p j)
          (λ _. Linked)
          Ended
  chosen-At p j true e =
      Meets-bind (λ _. Row j) _ _
        (quiet env request start connection j _
          (Quiet-check_published env request source connection p j))
        λ _. Meets-pure p (λ w h. (j, h, phase_eq-rank j.phase replacement_ready e))
  chosen-At p j false e = publish_target-At env request source start connection p j e

  publish_from-Holds :
      (p : FilePath) (j : JournalRow)
      → phase_eq j.phase replacement_ready ≡ true
      → Meets (Row j) (publish_from env request source connection p j) Row Ended
  unfolding publish_from
  publish_from-Holds p j e =
      Meets-then (Row j) _ _ (quiet env request start connection j _ (search quiet_rules)) (
        Meets-bind (λ _. Row j) _ _
          (quiet env request start connection j _ (Quiet-gets (lexists request.target)))
          λ exists. Meets-bind (λ _. Linked) _ _ (chosen-At p j exists e) published)

  publish_step-Holds :
      (j : JournalRow) → Meets (Row j) (publish_step env request source connection j) Row Ended
  unfolding publish_step
  publish_step-Holds j =
      Meets-if _ _ _
        (λ e.
          Meets-bind (λ _. Row j) _ _
            (quiet env request start connection j _ (search (quiet_rules, Quiet-type_error)))
            λ p. publish_from-Holds p j e)
        (λ _. skip env request source start connection j)

  complete_step-Holds :
      (j : JournalRow) → Meets (Row j) (complete_step env request source connection j) Row Ended
  unfolding complete_step
  complete_step-Holds j =
      Meets-if _ _ _
        (λ e.
          Meets-then (Row j) _ _
            (quiet env request start connection j _
              (Quiet-verify_target env request.target _ false))
            (requested env request source start connection j replacement_published complete e
              (omega arith) (omega arith) (omega arith)))
        (λ _. skip env request source start connection j)

  final_step-Holds :
      (j : JournalRow)
      → Meets
          (Row j)
          (final_step env request source connection j)
          (λ row w. Row row w × (rank row.phase ≡ 8))
          Ended
  unfolding final_step
  final_step-Holds j =
      Meets-if _ _ _
        (λ e.
          Meets-then (Row j) _ _
            (quiet env request start connection j _
              (Quiet-verify_target env request.target _ false))
            (Meets-pure j (λ w h. (h, phase_eq-rank j.phase complete e))))
        (λ _. Meets-refuse _ (λ w h. ends env request start connection j w h))

  target_steps-Holds :
      (j : JournalRow)
      → Meets
          (Row j)
          (target_steps env request source connection j)
          (λ row w. Row row w × (rank row.phase ≡ 8))
          Ended
  unfolding target_steps
  target_steps-Holds j =
      Meets-bind Row _ _ (ready_step-Holds env request source start connection j) λ j1.
        Meets-bind Row _ _ (publish_step-Holds j1)
          λ j2. Meets-bind Row _ _ (complete_step-Holds j2) final_step-Holds

  advance-Holds :
      (s : Snapshot) (j : JournalRow) (m : Manifest) (f : SourceFile)
      → (connection == source) ≡ false
      → Meets
          (Row j)
          (advance_resolution env request source connection s j m f)
          (λ row w. Row row w × (rank row.phase ≡ 8))
          Ended
  unfolding advance_resolution
  advance-Holds s j m f apart_from_source =
      Meets-then (Row j) _ _
        (quiet env request start connection j _ (Quiet-reconcile_source j s m f))
        (Meets-bind (λ _. Row j) _ _
          (quiet env request start connection j _ (Quiet-sha256_file env request.archive))
          λ sha.
            Meets-then (Row j) _ _ (quiet env request start connection j _ (search quiet_rules)) (
              Meets-bind Row _ _
                (retire_step-Holds env request source start connection s m f j apart_from_source)
                λ j1.
                  Meets-bind Row _ _ (clean_steps-Holds env request source start connection j1)
                    target_steps-Holds))

-- What a journal and a world are when a run begins.
pub record IsPrepared (request : Request) (source connection : ℕ) (j : JournalRow) (w : World)
    : Type 0 where
  pub at_journal : journal_at connection w ≡ some j
  pub old_discarded : 3 ≤ rank j.phase → Discarded request.old_session w
  pub new_discarded : 5 ≤ rank j.phase → Discarded request.new_session w
  pub in_use : connection < w.fresh
  pub apart : (connection == source) ≡ false

IsPrepared-Holds :
    (request : Request) (source connection : ℕ) (j : JournalRow) (w : World)
    → IsPrepared request source connection j w
    → Holds request (rank j.phase) connection j w
IsPrepared-Holds request source connection j w h = record {
  at_journal = h.at_journal;
  ordered = record {
    forward = omega arith;
    old_discarded = h.old_discarded;
    new_discarded = h.new_discarded;
  };
  in_use = h.in_use;
}

complete_of_rank : (p : Phase) → rank p ≡ 8 → p ≡ complete
complete_of_rank complete h = refl
complete_of_rank p h = absurd (omega arith)

-- A run of `advance_resolution` from a journal whose phase promises what has happened: however it
-- ends, and whatever fails on the way, the row that is then in the journal has a phase that is not
-- before the first one; from OldCleanConfirmed on the broker has accepted a connection that discards
-- the old session, and from NewCleanConfirmed on one that discards the new session.
pub advance_resolution-Ordered :
    (env : Env) (request : Request) (source connection : ℕ) (s : Snapshot) (j : JournalRow)
    (m : Manifest) (f : SourceFile) (w : World)
    → IsPrepared request source connection j w
    → Ordered request
        (rank j.phase)
        connection
        (advance_resolution env request source connection s j m f w).1
advance_resolution-Ordered env request source connection s j m f w h =
    Meets-always (advance_resolution env request source connection s j m f)
      (advance-Holds env request source (rank j.phase) connection s j m f h.apart)
      (λ row v k. Holds-Ends request (rank j.phase) connection row v k.0) w
      (IsPrepared-Holds request source connection j w h)

-- When such a run returns a row, the row is in the journal and its phase is the last one, Complete.
pub advance_resolution-Complete :
    (env : Env) (request : Request) (source connection : ℕ) (s : Snapshot) (j row : JournalRow)
    (m : Manifest) (f : SourceFile) (w : World)
    → IsPrepared request source connection j w
    → (advance_resolution env request source connection s j m f w).0 ≡ ok row
    → (journal_at connection (advance_resolution env request source connection s j m f w).1
        ≡ some row)
      × (row.phase ≡ complete)
advance_resolution-Complete env request source connection s j row m f w h returned =
    let (k, eight) =
      Meets-ok (advance_resolution env request source connection s j m f)
        (advance-Holds env request source (rank j.phase) connection s j m f h.apart) w
        (IsPrepared-Holds request source connection j w h) returned in
    (k.at_journal, complete_of_rank row.phase eight)
