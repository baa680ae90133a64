-- ===== src/Resolution/Completes/Cleanups.antt =====
-- The cleanups of the broker's sessions are done in calls that work, if the broker discards both
-- sessions: scripts/durable_recovery.py, `advance_resolution`.
use moon_mqtt_client.Base.{
  ℕ, suc, ◌≤◌, ◌==◌, ==_iff, Bool-cases, inl, inr, if◌then◌else◌, String, true, false, ◌≡◌, refl,
  none, arith,
}
use moon_mqtt_client.Phase.{
  Phase, source_retired, old_clean_requested, old_clean_confirmed, new_clean_requested,
  new_clean_confirmed, replacement_ready, replacement_published, complete, in_phases, phase_eq,
  rank, JournalRow,
}
use moon_mqtt_client.Request.{Request, Session}
use moon_mqtt_client.Exec.{pure, require, ◌>>=◌, ◌>>◌}
use moon_mqtt_client.Exec.Rules.{
  Meets, Meets-bind, Meets-then, Meets-pure, Meets-if, Meets-weaken, Meets-assume,
}
use moon_mqtt_client.Exec.Gives.{
  Gives, Gives-storage_as, Meets-gives, Meets-gives_then, Meets-of_gives,
}
use moon_mqtt_client.World.{Env, World, Act, Reply, maybe_fail}
use moon_mqtt_client.World.Frame.{Quiet}
use moon_mqtt_client.World.Calm.{calm, Gives-call, Gives-maybe_fail}
use moon_mqtt_client.Broker.{credentials, clean_broker_session, exchange, check_reply, check_event}
use moon_mqtt_client.Broker.Accepts.{IsClean}
use moon_mqtt_client.Journal.{update_phase}
use moon_mqtt_client.Journal.Completes.{At, At-Quiet, update_phase-At}
use moon_mqtt_client.Resolution.{
  old_request_step, old_clean_step, new_request_step, new_clean_step, clean_steps,
}
use moon_mqtt_client.Resolution.Completes.Stations.{Cooperates, Clear-keep, Clear-refill}
use moon_mqtt_client.Resolution.Completes.States.{ClearAs, Early}

phase_eq_of_rank : (p q : Phase) → 1 ≤ rank p → rank p ≡ rank q → phase_eq p q ≡ true
phase_eq_of_rank source_retired source_retired one e = refl
phase_eq_of_rank old_clean_requested old_clean_requested one e = refl
phase_eq_of_rank old_clean_confirmed old_clean_confirmed one e = refl
phase_eq_of_rank new_clean_requested new_clean_requested one e = refl
phase_eq_of_rank new_clean_confirmed new_clean_confirmed one e = refl
phase_eq_of_rank replacement_ready replacement_ready one e = refl
phase_eq_of_rank replacement_published replacement_published one e = refl
phase_eq_of_rank complete complete one e = refl
phase_eq_of_rank p q one e = absurd (omega arith)

-- A phase that is not the one of a rank is after it.
pub rank_after :
    (p q : Phase) → 1 ≤ rank q → rank q ≤ rank p → phase_eq p q ≡ false → suc (rank q) ≤ rank p
rank_after p q one le h = elim (Bool-cases (rank p == rank q)) [
  | inl e ↦
      absurd (ground (arith, phase_eq_of_rank p q (omega (arith)) ((==_iff (rank p) (rank q)).0 e)))
  | inr e ↦ ground arith
]

module _ (env : Env) (request : Request) (source connection : ℕ) (identity : String)
    (works : Cooperates env request) where
  moved :
      (j : JournalRow) (q : Phase) {E : World → Type 0}
      → in_phases q ≡ true
      → rank q ≤ 5
      → j.target_identity ≡ identity
      → Meets
          (At (ClearAs env request connection identity) j)
          (update_phase (calm env) connection q none none)
          (Early env request connection identity (rank q))
          E
  moved j q known five e =
      Meets-weaken _ (λ w k. k)
        (λ row w k. record {
          at_row = k.0;
          from = rw k.1.updated (omega arith);
          below = rw k.1.updated five;
          identity_eq = rw k.1.updated e;
        })
        (update_phase-At env connection (ClearAs env request connection identity)
          (Clear-keep env request.target connection) (λ c v k. k.held)
          (Clear-refill env request.target connection) j q none none known)

  keep :
      (j : JournalRow) (w w' : World)
      → Quiet w w'
      → At (ClearAs env request connection identity) j w
      → At (ClearAs env request connection identity) j w'
  keep j =
      At-Quiet (ClearAs env request connection identity) j
        (Clear-keep env request.target connection)

  Gives-credentials : (P : World → Type 0) → Gives P (credentials (calm env) request) works.password
  Gives-credentials P = record { at = λ w h. rw (works.known w) (refl, h) }

  Gives-check_reply : (P : World → Type 0) (r : Reply) → IsClean r → Gives P (check_reply r) tt
  unfolding check_reply check_event require ◌>>◌ ◌>>=◌
  Gives-check_reply P r (inl e) = rw e (record { at = λ w h. (refl, h) })
  Gives-check_reply P r (inr e) = rw e (record { at = λ w h. (refl, h) })

  cleaned :
      (j : JournalRow) (session : Session) {E : World → Type 0}
      → Meets
          (At (ClearAs env request connection identity) j)
          (clean_broker_session (calm env) request session)
          (λ _. At (ClearAs env request connection identity) j)
          E
  unfolding clean_broker_session exchange
  cleaned j session =
      Meets-gives _ _ works.password
        (Gives-credentials (At (ClearAs env request connection identity) j))
        (Meets-gives_then _ _ tt (Gives-storage_as _ _ tt (Gives-call env (keep j))) (
          Meets-bind (λ r w. At (ClearAs env request connection identity) j w × IsClean r) _ _
            (record {
              at = λ w h. (
                record {
                  content = h.content;
                  here = record {
                    vacant = h.here.vacant;
                    free = h.here.free;
                    in_use = h.here.in_use;
                    held = h.here.held;
                  };
                  is_row = h.is_row;
                },
                works.clean w.now session,
              );
            })
            λ r.
              Meets-assume (IsClean r) _ (λ w h. h.1)
                λ clean.
                  Meets-of_gives _ tt
                    (Gives-check_reply
                      (λ w. At (ClearAs env request connection identity) j w × IsClean r) r clean)
                    (λ w h. h.0)))

  -- A step of the cleanups, by its phase.
  step :
      (j : JournalRow) (p q : Phase) (m : Act JournalRow) {E : World → Type 0}
      → 1 ≤ rank p
      → rank q ≡ suc (rank p)
      → (j.target_identity ≡ identity
          → Meets
              (At (ClearAs env request connection identity) j)
              m
              (Early env request connection identity (rank q))
              E)
      → Meets
          (Early env request connection identity (rank p) j)
          (if phase_eq j.phase p then m else pure j)
          (Early env request connection identity (rank q))
          E
  step j p q m one next km =
      Meets-if _ _ _
        (λ e.
          Meets-assume (j.target_identity ≡ identity) _ (λ w h. h.identity_eq)
            λ same. Meets-weaken _ (λ w h. h.at_row) (λ row w k. k) (km same))
        (λ (e : phase_eq j.phase p ≡ false). Meets-pure j (λ w h. record {
          at_row = h.at_row;
          from = omega (arith, rank_after j.phase p one h.from e);
          below = h.below;
          identity_eq = h.identity_eq;
        }))

  confirmed :
      (j : JournalRow) (session : Session) (name : String) (q : Phase) {E : World → Type 0}
      → in_phases q ≡ true
      → rank q ≤ 5
      → j.target_identity ≡ identity
      → Meets
          (At (ClearAs env request connection identity) j)
          (clean_broker_session (calm env) request session
            >> (maybe_fail (calm env) name >> update_phase (calm env) connection q none none))
          (Early env request connection identity (rank q))
          E
  confirmed j session name q known five e =
      Meets-then (At (ClearAs env request connection identity) j) _ _ (cleaned j session) (
        Meets-gives_then _ _ tt (Gives-maybe_fail env (keep j) name works.unset)
          (moved j q known five e))

  pub clean_steps-Early :
      (j : JournalRow) {E : World → Type 0}
      → Meets
          (Early env request connection identity 1 j)
          (clean_steps (calm env) request source connection j)
          (Early env request connection identity 5)
          E
  unfolding clean_steps old_request_step old_clean_step new_request_step new_clean_step
  clean_steps-Early j =
      Meets-bind (Early env request connection identity 2) _ _
        (step j source_retired old_clean_requested _ (omega arith) refl
          (moved j old_clean_requested refl (omega arith)))
        λ j1.
          Meets-bind (Early env request connection identity 3) _ _
            (step j1 old_clean_requested old_clean_confirmed _ (omega arith) refl (
              confirmed j1 request.old_session "after_old_clean" old_clean_confirmed refl
                (omega arith)))
            λ j2.
              Meets-bind (Early env request connection identity 4) _ _
                (step j2 old_clean_confirmed new_clean_requested _ (omega arith) refl
                  (moved j2 new_clean_requested refl (omega arith)))
                λ j3. step j3 new_clean_requested new_clean_confirmed _ (omega arith) refl (
                  confirmed j3 request.new_session "after_new_clean" new_clean_confirmed refl
                    (omega arith))
