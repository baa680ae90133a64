-- ===== src/Controller/Owned.antt =====
-- The process that the controller script stops: scripts/month-end-demo.py, `main`.
use moon_mqtt_client.Base.{
  not, ◌&&◌, ℕ, true, ◌≡◌, refl, ◌∙◌, sym, ap, List, ◌∷◌, Option, none, some, String, str_eq_iff,
}
use moon_mqtt_client.Exec.{ok, ◌>>=◌, ◌>>◌}
use moon_mqtt_client.Exec.Rules.{
  IsPreorder, Step, Step-bind, Step-then, step_rules, Meets, Meets-bind, Meets-then, Meets-step,
  Meets-errors, Meets-weaken, Meets-require, Meets-assume, Meets-always, Meets-or_raise, Meets-pure,
  Meets-if,
}
use moon_mqtt_client.Controller.{
  Owner, Kind, Registered, Desk, Config, Machine, Action, doctor, query, start, stop, restart, Act,
  raise_storage, ask, kill, same_identity, process, digest_of, terminate, stop_owned, check,
  ask_device, stop_owner, hand_over, control, main, kind_eq, target_of, is_restart,
}
use moon_mqtt_client.Controller.Silent.{
  Silent, Silent-IsPreorder, silent_rules, Silent-write_state, Silent-wait_gone, Silent-check,
  Silent-ask_device, Silent-check_live, Silent-owner_runs, Silent-spawn, Silent-check_original,
}

-- The signal goes to the owner, of which `ps` has shown the recorded identity and whose binary had the
-- recorded hash.
pub record IsOwned (machine : Machine) (owner : Owner) : Type 0 where
  pub actual : String
  pub seen : ℕ
  pub seen_eq : machine.ps seen owner.pid ≡ some actual
  pub identity_eq : owner.identity ≡ some actual
  pub hashed : ℕ
  pub digest_eq : machine.digest hashed owner.binary ≡ some owner.sha256

-- No signal has been sent since, or one to the owner.
pub data SentTo (machine : Machine) (signals : List ℕ) : Option Owner → Desk → Type 0 where
  none_sent :
      {owner : Option Owner} {d : Desk} → d.signals ≡ signals → SentTo machine signals owner d
  one_sent :
      {owner : Owner} {d : Desk}
      → d.signals ≡ owner.pid ∷ signals
      → IsOwned machine owner
      → SentTo machine signals (some owner) d

same_identity-eq :
    (actual : String) (o : Option String) → same_identity (some actual) o ≡ true → o ≡ some actual
same_identity-eq actual none h = absurd cc
same_identity-eq actual (some s) h = ap some (sym ((str_eq_iff actual s).0 h))

module _ (machine : Machine) (signals : List ℕ) where
  Unsent : Desk → Type 0
  Unsent d = d.signals ≡ signals

  unsent :
      {A : Type 0} {E : Desk → Type 0} (m : Act A)
      → ((d : Desk) → Unsent d → E d)
      → Step Silent m
      → Meets Unsent m (λ _. Unsent) E
  unfolding Unsent
  unsent m e km = Meets-errors e (Meets-step (λ s t q h. q.signals_eq ∙ h) m km)

  SentTo-Silent :
      (owner : Option Owner) (d d' : Desk)
      → Silent d d'
      → SentTo machine signals owner d
      → SentTo machine signals owner d'
  SentTo-Silent owner d d' q (none_sent h) = none_sent (q.signals_eq ∙ h)
  SentTo-Silent _ d d' q (one_sent h owned) = one_sent (q.signals_eq ∙ h) owned

  sent :
      {A : Type 0} (owner : Option Owner) (m : Act A)
      → Step Silent m
      → Meets
          (SentTo machine signals owner)
          m
          (λ _. SentTo machine signals owner)
          (SentTo machine signals owner)
  sent owner m km = Meets-step (SentTo-Silent owner) m km

  process-seen :
      (owner : Owner)
      → Meets Unsent
          (process machine owner.pid)
          (λ a d. Unsent d × ((n : ℕ) × (machine.ps n owner.pid ≡ a)))
          (SentTo machine signals (some owner))
  unfolding process ask Unsent
  process-seen owner = record { at = λ d h. (h, (d.now, refl)) }

  digest_of-hashed :
      (owner : Owner)
      → Meets Unsent
          (digest_of machine owner.binary)
          (λ sha d. Unsent d × ((n : ℕ) × (machine.digest n owner.binary ≡ some sha)))
          (SentTo machine signals (some owner))
  unfolding digest_of ask Unsent
  digest_of-hashed owner =
      Meets-bind (λ a d. Unsent d × ((n : ℕ) × (machine.digest n owner.binary ≡ a))) _ _
        (record { at = λ d h. (h, (d.now, refl)) })
        λ a.
          Meets-or_raise a raise_storage (record { at = λ d h. none_sent h.0 })
            λ sha d e h. (h.0, (h.1.0, h.1.1 ∙ e))

  terminate-SentTo :
      (owner : Owner) (found : Option String) (n : ℕ)
      → machine.ps n owner.pid ≡ found
      → Meets Unsent
          (terminate machine owner found)
          (λ _. SentTo machine signals (some owner))
          (SentTo machine signals (some owner))
  unfolding terminate kill Unsent
  terminate-SentTo owner none n e = Meets-pure tt (λ d h. none_sent h)
  terminate-SentTo owner (some actual) n e =
      Meets-then (λ d. Unsent d × (same_identity (some actual) owner.identity ≡ true)) _ _
        (Meets-require _ _ (λ d h. none_sent h) (λ d same h. (h, same)))
        (Meets-assume (same_identity (some actual) owner.identity ≡ true) _ (λ d h. h.1)
          λ same.
            Meets-weaken _ (λ d h. h.0) (λ r d h. h)
              (Meets-bind
                (λ sha d. Unsent d × ((u : ℕ) × (machine.digest u owner.binary ≡ some sha))) _ _
                (digest_of-hashed owner)
                λ sha.
                  Meets-then
                    (λ d.
                      Unsent d × ((u : ℕ) × (machine.digest u owner.binary ≡ some owner.sha256)))
                    _ _
                    (Meets-require _ _ (λ d h. none_sent h.0)
                      (λ d equal h.
                        (h.0, (h.1.0, h.1.1 ∙ ap some ((str_eq_iff sha owner.sha256).0 equal)))))
                    (Meets-then (SentTo machine signals (some owner)) _ _
                      (record {
                        at = λ d h. one_sent (ap (λ l. owner.pid ∷ l) h.0) (record {
                          actual = actual;
                          seen = n;
                          seen_eq = e;
                          identity_eq = same_identity-eq actual owner.identity same;
                          hashed = h.1.0;
                          digest_eq = h.1.1;
                        });
                      })
                      (sent (some owner) _ (Silent-wait_gone machine owner.pid 100)))))

  stop_owner-SentTo :
      (owner : Option Owner)
      → Meets Unsent
          (stop_owner machine owner)
          (λ _. SentTo machine signals owner)
          (SentTo machine signals owner)
  unfolding stop_owner stop_owned Unsent
  stop_owner-SentTo none = Meets-pure tt (λ d h. none_sent h)
  stop_owner-SentTo (some owner) =
      Meets-bind (λ a d. Unsent d × ((n : ℕ) × (machine.ps n owner.pid ≡ a))) _ _
        (process-seen owner)
        λ found.
          Meets-assume ((n : ℕ) × (machine.ps n owner.pid ≡ found)) _ (λ d h. h.1)
            λ seen.
              Meets-weaken _ (λ d h. h.0) (λ r d h. h) (terminate-SentTo owner found seen.0 seen.1)

  hand_over-SentTo :
      (config : Config) (owner : Option Owner) (target : Kind)
      → Meets Unsent
          (hand_over machine config owner target)
          (λ _. SentTo machine signals owner)
          (SentTo machine signals owner)
  unfolding hand_over
  hand_over-SentTo config owner target =
      Meets-then (SentTo machine signals owner) _ _ (stop_owner-SentTo owner) (
        sent owner _ (
          Step-then Silent-IsPreorder _ _ (Silent-write_state _) (
            Step-then Silent-IsPreorder _ _ (Silent-check_original machine config target) (
              Step-bind Silent-IsPreorder _ _ (Silent-spawn machine _) λ new.
                Step-then Silent-IsPreorder _ _ (Silent-write_state _)
                  (Silent-ask_device machine)))))

  ended :
      {A : Type 0} (owner : Option Owner) (m : Act A)
      → Step Silent m
      → Meets Unsent m (λ _. SentTo machine signals owner) (SentTo machine signals owner)
  unfolding Unsent
  ended owner m km = Meets-weaken m (λ d h. none_sent h) (λ a d h. h) (sent owner m km)

  control-SentTo :
      (config : Config) (action : Action) (state : Registered)
      → Meets Unsent
          (control machine config action state)
          (λ _. SentTo machine signals state.owner)
          (SentTo machine signals state.owner)
  unfolding control Unsent
  control-SentTo config action state =
      Meets-bind (λ _. Unsent) _ _ (unsent _ (λ d h. none_sent h) (search silent_rules))
        λ found.
          Meets-bind (λ _. Unsent) _ _ (unsent _ (λ d h. none_sent h) (search silent_rules))
            λ live.
              Meets-then Unsent _ _
                (unsent _ (λ d h. none_sent h) (Silent-check_live machine state.owner live))
                (Meets-bind (λ _. Unsent) _ _
                  (unsent _ (λ d h. none_sent h) (Silent-owner_runs machine state.owner))
                  λ runs.
                    Meets-if
                      (runs && (kind_eq state.kind (target_of action) && not (is_restart action)))
                      (ask_device machine) (hand_over machine config state.owner (target_of action))
                      (λ e. ended state.owner _ (Silent-ask_device machine))
                      (λ e. hand_over-SentTo config state.owner (target_of action)))

-- Neither a signal nor the state file.
pub record Still (d d' : Desk) : Type 0 where
  pub signals_eq : d'.signals ≡ d.signals
  pub state_eq : d'.state ≡ d.state

Still-IsPreorder : IsPreorder Still
Still-IsPreorder = record {
  same = λ d. record { signals_eq = refl; state_eq = refl };
  next = λ s t u p q. record {
    signals_eq = q.signals_eq ∙ p.signals_eq;
    state_eq = q.state_eq ∙ p.state_eq;
  };
}

Still-ask : {A : Type 0} (answer : ℕ → A) → Step Still (ask answer)
unfolding ask
Still-ask answer = record { at = λ d. record { signals_eq = refl; state_eq = refl } }

Still-storage : {A : Type 0} → Step Still (raise_storage {A = A})
Still-storage = record { at = λ d. record { signals_eq = refl; state_eq = refl } }

ruleset still_rules = (step_rules, Still-IsPreorder, Still-ask, Still-storage)

module _ (machine : Machine) where
  Still-digest_of : (path : String) → Step Still (digest_of machine path)
  unfolding digest_of
  Still-digest_of path = search still_rules depth 8

  Still-check : (config : Config) → Step Still (check machine config)
  unfolding check
  Still-check config = search (still_rules, Still-digest_of) depth 25

  module _ (d0 : Desk) where
    Before : Desk → Type 0
    Before d = (d.signals ≡ d0.signals) × (d.state ≡ d0.state)

    checked :
        (config : Config)
        → Meets Before
            (check machine config)
            (λ _. Before)
            (SentTo machine d0.signals d0.state.owner)
    unfolding Before
    checked config =
        Meets-errors (λ d h. none_sent h.0)
          (Meets-step (λ s t q h. (q.signals_eq ∙ h.0, q.state_eq ∙ h.1)) _ (Still-check config))

    controlled :
        (config : Config) (action : Action)
        → Meets Before
            (check machine config
              >> ((λ (d : Desk). (ok d.state, d)) >>= control machine config action))
            (λ _. SentTo machine d0.signals d0.state.owner)
            (SentTo machine d0.signals d0.state.owner)
    unfolding Before Unsent
    controlled config action = Meets-then Before _ _ (checked config) (
        Meets-bind (λ state d. (d.signals ≡ d0.signals) × (state ≡ d0.state)) _ _
          (record { at = λ d h. h })
          λ state.
            Meets-assume (state ≡ d0.state) _ (λ d h. h.1)
              λ same.
                Meets-weaken _ (λ d h. h.0) (λ r d h. h)
                  (rw (sym same) (control-SentTo machine d0.signals config action state)))

    main-Meets :
        (config : Config) (action : Action)
        → Meets Before
            (main machine config action)
            (λ _. SentTo machine d0.signals d0.state.owner)
            (SentTo machine d0.signals d0.state.owner)
    unfolding main Before Unsent
    main-Meets config doctor =
        Meets-weaken _ (λ d h. h.0) (λ r d h. h)
          (ended machine d0.signals d0.state.owner _ (Silent-check machine config))
    main-Meets config query =
        Meets-weaken _ (λ d h. h.0) (λ r d h. h)
          (ended machine d0.signals d0.state.owner _ (
            Step-then Silent-IsPreorder _ _ (Silent-check machine config)
              (Silent-ask_device machine)))
    main-Meets config start = controlled config start
    main-Meets config stop = controlled config stop
    main-Meets config restart = controlled config restart

-- However `main` ends, it has sent at most one signal, and only to the owner that the state file registered:
-- a process that `ps` showed with the recorded identity, and whose binary had the recorded hash.
pub main-SentTo :
    (machine : Machine) (config : Config) (action : Action) (d : Desk)
    → SentTo machine d.signals d.state.owner (main machine config action d).1
unfolding Before
main-SentTo machine config action d =
    Meets-always _ (main-Meets machine d config action) (λ r t h. h) d (refl, refl)
