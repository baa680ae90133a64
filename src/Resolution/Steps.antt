-- ===== src/Resolution/Steps.antt =====
-- Every step of `advance_resolution` keeps the promises of the journal's phase.
use moon_mqtt_client.Base.{
  ℕ, ◌≤◌, ◌==◌, String, Bool, true, false, not, ◌||◌, ◌≡◌, refl, arith, Option, none, some, exists,
  str_eq_refl,
}
use moon_mqtt_client.Paths.{FilePath}
use moon_mqtt_client.Phase.{Phase, phase_eq, rank, JournalRow}
use moon_mqtt_client.Request.{Request, Session, Protocol, mqtt311, mqtt5}
use moon_mqtt_client.Exec.Rules.{
  Step, Meets, Meets-bind, Meets-then, Meets-step, Meets-assume, Meets-weaken, Meets-errors,
  Meets-require, Meets-refuse,
}
use moon_mqtt_client.World.{
  Env, World, Act, Event, silent, dropped, connack, Reply, raised, returned, CleanStart,
}
use moon_mqtt_client.World.Frame.{Quiet, quiet_rules, Quiet-call}
use moon_mqtt_client.World.Changes.{Frame}
use moon_mqtt_client.Effects.{Quiet-credentials}
use moon_mqtt_client.Journal.{update_phase}
use moon_mqtt_client.Broker.{connect_call, check_event, check_reply, exchange, clean_broker_session}
use moon_mqtt_client.Resolution.Order.{
  Holds-Frame, phase_eq-rank, Discarded, discards, is_accepted, is_clean_call,
}
use moon_mqtt_client.Resolution.Ordered.{H, E, H-E, H-Quiet, Ready, update_phase-Holds}

-- Both protocols ask for a clean session.
connect_call-is_clean :
    (r : Request) (s : Session) (password : Option String)
    → is_clean_call (connect_call r s password) ≡ true
unfolding connect_call
connect_call-is_clean r s password = go r.broker.protocol
  where
    go :
        (p : Protocol)
        → is_clean_call (record (connect_call r s password) {
          protocol = p;
          clean_session = elim p [ mqtt311 ↦ some true | mqtt5 ↦ none ];
          clean_start = elim p [ mqtt311 ↦ CleanStart.first_only | mqtt5 ↦ CleanStart.always ];
          session_expiry_interval = elim p [ mqtt311 ↦ none | mqtt5 ↦ some 0 ];
        })
          ≡ true
    go mqtt311 = refl
    go mqtt5 = refl

connect_call-client_id :
    (r : Request) (s : Session) (password : Option String)
    → (connect_call r s password).client_id ≡ s.client_id
unfolding connect_call
connect_call-client_id r s password = refl

-- An accepted answer to the call discards the session.
discards-exchange :
    (r : Request) (s : Session) (password : Option String) (reply : Reply)
    → is_accepted reply ≡ true
    → discards s.client_id (record { call = connect_call r s password; reply = reply }) ≡ true
discards-exchange r s password reply accepted =
    rw
      (
        connect_call-client_id r s password,
        str_eq_refl s.client_id,
        connect_call-is_clean r s password,
      )
      accepted

or_left : (a b : Bool) → a ≡ true → (a || b) ≡ true
or_left a b h = ground arith

-- The reply that passes the checks is accepted.
check_event-is_accepted :
    {P : World → Type 0} (e : Event) (n : ℕ)
    → (n == 0) ≡ true
    → Meets P (check_event e) (λ _ w. P w × (is_accepted (returned n e) ≡ true)) P
unfolding check_event
check_event-is_accepted silent n z = Meets-refuse _ (λ w h. h)
check_event-is_accepted dropped n z = Meets-refuse _ (λ w h. h)
check_event-is_accepted {P} (connack f p e) n z =
    Meets-then (λ w. P w × (not f ≡ true)) _ _ (Meets-require _ _ (λ w h. h) (λ w k h. (h, k)))
      (Meets-then (λ w. P w × (not f ≡ true) × (not p ≡ true)) _ _
        (Meets-require _ _ (λ w h. h.0) (λ w k h. (h.0, h.1, k)))
        (Meets-require _ _ (λ w h. h.0) (λ w k h. (h.0, ground arith))))

check_reply-is_accepted :
    {P : World → Type 0} (r : Reply)
    → Meets P (check_reply r) (λ _ w. P w × (is_accepted r ≡ true)) P
unfolding check_reply
check_reply-is_accepted raised = Meets-refuse _ (λ w h. h)
check_reply-is_accepted {P} (returned n e) =
    Meets-then (λ w. P w × ((n == 0) ≡ true)) _ _ (Meets-require _ _ (λ w h. h) (λ w k h. (h, k)))
      (Meets-assume ((n == 0) ≡ true) _ (λ w h. h.1)
        λ z. Meets-weaken _ (λ w h. h.0) (λ _ w h. h) (check_event-is_accepted e n z))

module _ (env : Env) (request : Request) (start connection : ℕ) where
  abbrev pub Hj : JournalRow → World → Type 0
  Hj = H env request start connection

  abbrev pub Ej : World → Type 0
  Ej = E env request start connection

  pub ends : (j : JournalRow) (w : World) → Hj j w → Ej w
  ends = H-E env request start connection

  -- What leaves the journal's file alone.
  pub frame :
      {A : Type 0} (writes : ℕ → Bool) (removes : FilePath → Bool) (j : JournalRow) (m : Act A)
      → writes connection ≡ false
      → Step (Frame writes removes) m
      → Meets (Hj j) m (λ _. Hj j) Ej
  frame writes removes j m kept km = Meets-errors (ends j) (
      Meets-step (λ w w' f h. Holds-Frame request start connection writes removes j w w' kept f h) m
        km)

  pub quiet :
      {A : Type 0} (j : JournalRow) (m : Act A) → Step Quiet m → Meets (Hj j) m (λ _. Hj j) Ej
  quiet j m km = Meets-errors (ends j) (Meets-step (H-Quiet env request start connection j) m km)

  -- A phase that promises no more than the one before.
  pub Ready-move :
      (j : JournalRow) (p q : Phase) (w : World)
      → phase_eq j.phase p ≡ true
      → rank p ≤ rank q
      → (3 ≤ rank q → 3 ≤ rank p)
      → (5 ≤ rank q → 5 ≤ rank p)
      → Hj j w
      → Ready env request start connection j q w
  Ready-move j p q w e le old new h = record {
    holds = h;
    promised = record {
      forward = omega (arith, h.ordered.forward, phase_eq-rank j.phase p e);
      old_discarded =
          λ k. h.ordered.old_discarded (omega (arith, old k, phase_eq-rank j.phase p e));
      new_discarded =
          λ k. h.ordered.new_discarded (omega (arith, new k, phase_eq-rank j.phase p e));
    };
  }

  pub move :
      (j : JournalRow) (p q : Phase) (t : Option FilePath) (h : Option String)
      → phase_eq j.phase p ≡ true
      → rank p ≤ rank q
      → (3 ≤ rank q → 3 ≤ rank p)
      → (5 ≤ rank q → 5 ≤ rank p)
      → Meets (Hj j) (update_phase env connection q t h) (λ row w. Hj row w × (row.phase ≡ q)) Ej
  move j p q t h e le old new =
      Meets-weaken _ (λ w k. Ready-move j p q w e le old new k) (λ row w k. k)
        (update_phase-Holds env request start connection j q t h)

  -- A session is discarded, or the step has raised.
  exchange-Discards :
      (j : JournalRow) (session : Session) (password : Option String)
      → Meets
          (Hj j)
          (exchange env (connect_call request session password))
          (λ r w. Hj j w × (is_accepted r ≡ true → Discarded session w))
          Ej
  unfolding exchange
  exchange-Discards j session password = record {
    at = λ w h. (
      record {
        at_journal = h.at_journal;
        ordered = record {
          forward = h.ordered.forward;
          old_discarded = λ k. ground (arith, h.ordered.old_discarded k);
          new_discarded = λ k. ground (arith, h.ordered.new_discarded k);
        };
        in_use = h.in_use;
      },
      λ accepted. or_left _ (exists (discards session.client_id) w.exchanges) (
          discards-exchange request session password
            (env.reply w.now (connect_call request session password)) accepted),
    );
  }

  pub clean_broker_session-Discards :
      (j : JournalRow) (session : Session)
      → Meets
          (Hj j)
          (clean_broker_session env request session)
          (λ _ w. Hj j w × Discarded session w)
          Ej
  unfolding clean_broker_session
  clean_broker_session-Discards j session =
      Meets-bind (λ _. Hj j) _ _ (quiet j _ (Quiet-credentials env request))
        λ password. Meets-then (Hj j) _ _ (quiet j _ (search (quiet_rules, Quiet-call))) (
          Meets-bind (λ r w. Hj j w × (is_accepted r ≡ true → Discarded session w)) _ _
            (exchange-Discards j session password)
            λ r.
              Meets-errors (λ w h. ends j w h.0)
                (Meets-weaken _ (λ w h. h) (λ _ w h. (h.0.0, h.0.1 h.1))
                  (check_reply-is_accepted r)))
