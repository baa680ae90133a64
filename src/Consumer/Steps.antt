-- ===== src/Consumer/Steps.antt =====
-- What the steps of scripts/prepare-ha-consumer.py find: the directories above the output, files.
use moon_mqtt_client.Base.{
  ℕ, Bool, true, false, not, ◌&&◌, ◌≡◌, refl, String, List, [], ◌∷◌, Option, none, some, arith,
  Bool-cases, inl, inr,
}
use moon_mqtt_client.Exec.{Outcome, ok, storage, require, ◌>>=◌, ◌>>◌}
use moon_mqtt_client.Exec.Rules.{
  Post, Meets, Meets-bind, Meets-then, Meets-step, Meets-assume, Meets-require, Meets-weaken,
  Meets-pure, Meets-refuse, Meets-if,
}
use moon_mqtt_client.Consumer.{Workspace, Host, Act, reject_moon_work_ancestor, read, io}

-- No file moon.work is in the directory or above it.
abbrev pub NoWork : (List String → Bool) → List String → Type 0
NoWork has_work [] = has_work [] ≡ false
NoWork has_work (name ∷ ancestor) = (has_work (name ∷ ancestor) ≡ false) × NoWork has_work ancestor

abbrev pub Any : Workspace → Type 0
Any w = Unit {0}

anything : {A : Type 0} (m : Act A) → Meets Any m (λ _. Any) Any
anything m = Meets-step {R = λ s t. Unit {0}} (λ s t r h. tt) m (record { at = λ s. tt })

module _ {A B : Type 0} {Q : B → Workspace → Type 0} where
  pub after :
      (m : Act A) (f : A → Act B) → ((a : A) → Meets Any (f a) Q Any) → Meets Any (m >>= f) Q Any
  after m f kf = Meets-bind (λ _. Any) m f (anything m) kf

  pub after_then : (m : Act A) (n : Act B) → Meets Any n Q Any → Meets Any (m >> n) Q Any
  after_then m n kn = Meets-then Any m n (anything m) kn

module _ {P : Workspace → Type 0} {B : Type 0} {Q : B → Workspace → Type 0} where
  pub checked :
      (b : Bool) (reason : String) (n : Act B)
      → (b ≡ true → Meets P n Q Any)
      → Meets P (require b reason >> n) Q Any
  checked b reason n kn =
      Meets-then (λ w. P w × (b ≡ true)) _ n (Meets-require b reason (λ w h. tt) (λ w e h. (h, e)))
        (Meets-assume (b ≡ true) n (λ w h. h.1)
          λ e. Meets-weaken n (λ w h. h.0) (λ b w h. h) (kn e))

pub and_left : (a b : Bool) → (a && b) ≡ true → a ≡ true
and_left a b h = ground arith

pub and_right : (a b : Bool) → (a && b) ≡ true → b ≡ true
and_right a b h = ground arith

pub negated : {b : Bool} → not b ≡ true → b ≡ false
negated h = ground arith

pub reject-NoWork :
    (has_work : List String → Bool) (path : List String)
    → Meets Any (reject_moon_work_ancestor has_work path) (λ _ w. NoWork has_work path) Any
unfolding reject_moon_work_ancestor
reject-NoWork has_work [] =
    Meets-if _ _ _ (λ _. Meets-refuse _ (λ w h. h)) (λ e. Meets-pure tt (λ w h. e))
reject-NoWork has_work (name ∷ ancestor) =
    Meets-if _ _ _ (λ _. Meets-refuse _ (λ w h. h))
      (λ e. Meets-weaken _ (λ w h. h) (λ _ w h. (e, h)) (reject-NoWork has_work ancestor))

pub read-found :
    (P : Workspace → Type 0) (p : String) → Meets P (read p) (λ c w. P w × (w.file p ≡ some c)) Any
unfolding read
read-found P p = record { at = λ w h. go w h (w.file p) refl }
  where
    go :
        (w : Workspace)
        → P w
        → (o : Option (List ℕ)) → w.file p ≡ o
        → Post
            (λ c v. P v × (v.file p ≡ some c))
            Any
            (elim o as (λ _. Outcome (List ℕ) × Workspace) [
              | none ↦ (storage, w)
              | some c ↦ (ok c, w)
            ]).0
            (elim o as (λ _. Outcome (List ℕ) × Workspace) [
              | none ↦ (storage, w)
              | some c ↦ (ok c, w)
            ]).1
    go w h none e = tt
    go w h (some c) e = (h, e)

module _ (host : Host) where
  pub io-keeps : (P : Workspace → Type 0) (n : ℕ) → Meets P (io host n) (λ _. P) Any
  unfolding io
  io-keeps P n = record {
    at = λ w h. elim (Bool-cases (host.works n)) [ inl e ↦ rw e h | inr e ↦ rw e tt ];
  }
