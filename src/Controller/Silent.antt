-- ===== src/Controller/Silent.antt =====
-- The parts of scripts/month-end-demo.py that send no signal.
use moon_mqtt_client.Base.{ℕ, zero, suc, ◌≡◌, refl, ◌∙◌, List, [], ◌∷◌, Option, none, some, String}
use moon_mqtt_client.Exec.Rules.{
  IsPreorder, Step, Step-bind, Step-then, Step-if, Step-pure, step_rules, Meets, Meets-bind,
  Meets-then, Meets-step, Meets-errors, Meets-weaken, Meets-require, Meets-assume, Meets-always,
  Meets-or_raise, Meets-pure, Meets-if,
}
use moon_mqtt_client.Controller.{
  Owner, Kind, original, candidate, Registered, Desk, Config, Machine, raise_storage, ask,
  write_state, launch, process, digest_of, wait_gone, check, ask_device, check_live, owner_runs,
  spawn, check_original,
}

-- No signal is sent.
pub record Silent (d d' : Desk) : Type 0 where
  pub signals_eq : d'.signals ≡ d.signals

pub Silent-IsPreorder : IsPreorder Silent
Silent-IsPreorder = record {
  same = λ d. record { signals_eq = refl };
  next = λ s t u p q. record { signals_eq = q.signals_eq ∙ p.signals_eq };
}

pub Silent-ask : {A : Type 0} (answer : ℕ → A) → Step Silent (ask answer)
unfolding ask
Silent-ask answer = record { at = λ d. record { signals_eq = refl } }

pub Silent-write_state : (state : Registered) → Step Silent (write_state state)
unfolding write_state
Silent-write_state state = record { at = λ d. record { signals_eq = refl } }

pub Silent-launch : (binary : String) → Step Silent (launch binary)
unfolding launch
Silent-launch binary = record { at = λ d. record { signals_eq = refl } }

pub Silent-storage : {A : Type 0} → Step Silent (raise_storage {A = A})
Silent-storage = record { at = λ d. record { signals_eq = refl } }

pub ruleset silent_rules =
    (step_rules, Silent-IsPreorder, Silent-ask, Silent-write_state, Silent-launch, Silent-storage)

module _ (machine : Machine) where
  pub Silent-process : (pid : ℕ) → Step Silent (process machine pid)
  unfolding process
  Silent-process pid = search silent_rules

  pub Silent-digest_of : (path : String) → Step Silent (digest_of machine path)
  unfolding digest_of
  Silent-digest_of path = search silent_rules depth 8

  pub Silent-wait_gone : (pid rounds : ℕ) → Step Silent (wait_gone machine pid rounds)
  unfolding wait_gone
  Silent-wait_gone pid zero = search silent_rules
  Silent-wait_gone pid (suc rounds) =
      Step-bind Silent-IsPreorder _ _ (Silent-process pid)
        λ actual. Step-if _ _ _ (Silent-wait_gone pid rounds) (Step-pure Silent-IsPreorder tt)

  pub Silent-check : (config : Config) → Step Silent (check machine config)
  unfolding check
  Silent-check config = search (silent_rules, Silent-digest_of) depth 25

  pub Silent-ask_device : Step Silent (ask_device machine)
  unfolding ask_device
  Silent-ask_device = search silent_rules depth 8

  pub Silent-check_live :
      (owner : Option Owner) (live : List ℕ) → Step Silent (check_live machine owner live)
  unfolding check_live
  Silent-check_live none [] = search silent_rules
  Silent-check_live (some owner) [] = search silent_rules
  Silent-check_live none (pid ∷ pids) = search silent_rules
  Silent-check_live (some owner) (pid ∷ pids) = search silent_rules depth 8

  pub Silent-owner_runs : (owner : Option Owner) → Step Silent (owner_runs machine owner)
  unfolding owner_runs
  Silent-owner_runs none = search silent_rules
  Silent-owner_runs (some owner) = search silent_rules depth 8

  pub Silent-spawn : (binary : String) → Step Silent (spawn machine binary)
  unfolding spawn
  Silent-spawn binary = search (silent_rules, Silent-digest_of) depth 12

  pub Silent-check_original :
      (config : Config) (kind : Kind) → Step Silent (check_original machine config kind)
  unfolding check_original
  Silent-check_original config original = search (silent_rules, Silent-digest_of) depth 8
  Silent-check_original config candidate = search silent_rules
