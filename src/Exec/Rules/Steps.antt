-- ===== src/Exec/Rules/Steps.antt =====
-- `Step R m`: the states before and after the action `m` of Exec.antt are related by `R`, however it ends.
-- One rule for each way to build an action.
use moon_mqtt_client.Base.{Option, none, some, String, Bool, true, false, if◌then◌else◌}
use moon_mqtt_client.Exec.{
  ok, refused, storage, sqlite, uncaught, killed, Exec, pure, refuse, continue, ◌>>=◌, ◌>>◌,
  require, or_raise, when, finally, except_raise, storage_as, sqlite_as, cleaned_up, rescued,
}

pub record IsPreorder {ℓ} {S : Type ℓ} (R : S → S → Type ℓ) : Type ℓ where
  pub same : (s : S) → R s s
  pub next : (s t u : S) → R s t → R t u → R s u

pub record Step {ℓ} {S A : Type ℓ} (R : S → S → Type ℓ) (m : Exec S A) : Type ℓ where
  pub at : (s : S) → R s (m s).1

module _ {ℓ} {S A : Type ℓ} {R : S → S → Type ℓ} (o : IsPreorder R) where
  pub Step-pure : (a : A) → Step R (pure {S = S} a)
  Step-pure a = record { at = λ s. o.same s }

  pub Step-refuse : (reason : String) → Step R (refuse {S = S} {A = A} reason)
  Step-refuse reason = record { at = λ s. o.same s }

  pub Step-finally :
      (m : Exec S A) (c : Exec S (Unit {ℓ})) → Step R m → Step R c → Step R (finally m c)
  unfolding finally
  Step-finally m c km kc = record {
    at = λ s.
        let (r, t) = m s in
        elim r as (λ r. R s (cleaned_up r c t).1) [
          | ok a ↦ o.next s t (c t).1 (km.at s) (kc.at t)
          | refused e ↦ o.next s t (c t).1 (km.at s) (kc.at t)
          | storage ↦ o.next s t (c t).1 (km.at s) (kc.at t)
          | sqlite ↦ o.next s t (c t).1 (km.at s) (kc.at t)
          | uncaught ↦ o.next s t (c t).1 (km.at s) (kc.at t)
          | killed ↦ km.at s
        ];
  }

  pub Step-except_raise :
      (m : Exec S A) (c : Exec S (Unit {ℓ})) → Step R m → Step R c → Step R (except_raise m c)
  unfolding except_raise
  Step-except_raise m c km kc = record {
    at = λ s.
        let (r, t) = m s in
        elim r as (λ r. R s (rescued r c t).1) [
          | ok a ↦ km.at s
          | refused e ↦ o.next s t (c t).1 (km.at s) (kc.at t)
          | storage ↦ o.next s t (c t).1 (km.at s) (kc.at t)
          | sqlite ↦ o.next s t (c t).1 (km.at s) (kc.at t)
          | uncaught ↦ o.next s t (c t).1 (km.at s) (kc.at t)
          | killed ↦ km.at s
        ];
  }

module _ {ℓ} {S A : Type ℓ} {R : S → S → Type ℓ} where
  pub Step-storage_as : (reason : String) (m : Exec S A) → Step R m → Step R (storage_as reason m)
  unfolding storage_as
  Step-storage_as reason m km = record { at = λ s. km.at s }

  pub Step-sqlite_as : (reason : String) (m : Exec S A) → Step R m → Step R (sqlite_as reason m)
  unfolding sqlite_as
  Step-sqlite_as reason m km = record { at = λ s. km.at s }

  pub Step-if : (b : Bool) (m n : Exec S A) → Step R m → Step R n → Step R (if b then m else n)
  Step-if true m n km kn = km
  Step-if false m n km kn = kn

module _ {ℓ} {S : Type ℓ} {R : S → S → Type ℓ} (o : IsPreorder R) where
  pub Step-require : (b : Bool) (reason : String) → Step R (require {S = S} b reason)
  unfolding require
  Step-require true reason = record { at = λ s. o.same s }
  Step-require false reason = record { at = λ s. o.same s }

  pub Step-when : (b : Bool) (m : Exec S (Unit {ℓ})) → Step R m → Step R (when b m)
  unfolding when
  Step-when true m km = km
  Step-when false m km = record { at = λ s. o.same s }

module _ {ℓ} {S A B : Type ℓ} {R : S → S → Type ℓ} (o : IsPreorder R) where
  pub Step-bind :
      (m : Exec S A) (f : A → Exec S B) → Step R m → ((a : A) → Step R (f a)) → Step R (m >>= f)
  unfolding ◌>>=◌
  Step-bind m f km kf = record {
    at = λ s.
        let (r, t) = m s in
        elim r as (λ r. R s (continue r f t).1) [
          | ok a ↦ o.next s t (f a t).1 (km.at s) ((kf a).at t)
          | refused e ↦ km.at s
          | storage ↦ km.at s
          | sqlite ↦ km.at s
          | uncaught ↦ km.at s
          | killed ↦ km.at s
        ];
  }

  pub Step-then : (m : Exec S A) (n : Exec S B) → Step R m → Step R n → Step R (m >> n)
  unfolding ◌>>◌
  Step-then m n km kn = Step-bind m (λ _. n) km (λ _. kn)

module _ {ℓ} {S A : Type ℓ} {R : S → S → Type ℓ} (o : IsPreorder R) where
  pub Step-or_raise : (a : Option A) (m : Exec S A) → Step R m → Step R (or_raise a m)
  unfolding or_raise
  Step-or_raise none m km = km
  Step-or_raise (some a) m km = Step-pure o a

-- A wider relation.
module _ {ℓ} {S A : Type ℓ} {R T : S → S → Type ℓ} where
  pub Step-weaken : ((s t : S) → R s t → T s t) → (m : Exec S A) → Step R m → Step T m
  Step-weaken h m km = record { at = λ s. h s (m s).1 (km.at s) }

pub ruleset step_rules = (
  Step-pure, Step-refuse, Step-finally, Step-except_raise, Step-storage_as, Step-sqlite_as, Step-if,
  Step-require, Step-when, Step-bind, Step-then, Step-or_raise,
)
