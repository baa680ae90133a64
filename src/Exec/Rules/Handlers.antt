-- ===== src/Exec/Rules/Handlers.antt =====
-- `Meets` for actions with a handler or a cleanup: `except_raise` and `finally` of Exec.antt.
use moon_mqtt_client.Base.{String}
use moon_mqtt_client.Exec.{
  Outcome, ok, refused, storage, sqlite, uncaught, killed, Exec, finally, except_raise, cleaned_up,
  rescued, settle,
}
use moon_mqtt_client.Exec.Rules.Triples.{Post, Meets}

module _ {ℓ} {S A : Type ℓ} (E : S → Type ℓ) (Q : A → S → Type ℓ) where
  settle-refused :
      (reason : String) (x : Outcome (Unit {ℓ})) (t : S)
      → Post (λ _. E) E x t
      → Post Q E (settle (refused reason) x) t
  settle-refused reason (ok a) t h = h
  settle-refused reason (refused e) t h = h
  settle-refused reason storage t h = h
  settle-refused reason sqlite t h = h
  settle-refused reason uncaught t h = h
  settle-refused reason killed t h = h

  settle-storage :
      (x : Outcome (Unit {ℓ})) (t : S) → Post (λ _. E) E x t → Post Q E (settle storage x) t
  settle-storage (ok a) t h = h
  settle-storage (refused e) t h = h
  settle-storage storage t h = h
  settle-storage sqlite t h = h
  settle-storage uncaught t h = h
  settle-storage killed t h = h

  settle-sqlite :
      (x : Outcome (Unit {ℓ})) (t : S) → Post (λ _. E) E x t → Post Q E (settle sqlite x) t
  settle-sqlite (ok a) t h = h
  settle-sqlite (refused e) t h = h
  settle-sqlite storage t h = h
  settle-sqlite sqlite t h = h
  settle-sqlite uncaught t h = h
  settle-sqlite killed t h = h

  settle-uncaught :
      (x : Outcome (Unit {ℓ})) (t : S) → Post (λ _. E) E x t → Post Q E (settle uncaught x) t
  settle-uncaught (ok a) t h = h
  settle-uncaught (refused e) t h = h
  settle-uncaught storage t h = h
  settle-uncaught sqlite t h = h
  settle-uncaught uncaught t h = h
  settle-uncaught killed t h = h

module _ {ℓ} {S A : Type ℓ} {P D E : S → Type ℓ} {Q : A → S → Type ℓ} where
  -- The handler runs where the body has raised, in a state with `D`.
  pub Meets-except_raise :
      (m : Exec S A) (c : Exec S (Unit {ℓ}))
      → Meets P m Q D
      → Meets D c (λ _. E) E
      → ((s : S) → D s → E s)
      → Meets P (except_raise m c) Q E
  unfolding except_raise
  Meets-except_raise m c km kc de = record { at = λ s h. go (m s).0 (m s).1 (km.at s h) }
    where
      go : (r : Outcome A) (t : S) → Post Q D r t → Post Q E (rescued r c t).0 (rescued r c t).1
      go (ok a) t h = h
      go (refused e) t h = settle-refused E Q e (c t).0 (c t).1 (kc.at t h)
      go storage t h = settle-storage E Q (c t).0 (c t).1 (kc.at t h)
      go sqlite t h = settle-sqlite E Q (c t).0 (c t).1 (kc.at t h)
      go uncaught t h = settle-uncaught E Q (c t).0 (c t).1 (kc.at t h)
      go killed t h = de t h

  -- The cleanup runs on every end but that of the process.
  pub Meets-finally :
      {Q' : A → S → Type ℓ} (m : Exec S A) (c : Exec S (Unit {ℓ}))
      → Meets P m Q' D
      → Meets D c (λ _. E) E
      → ((s : S) → D s → E s)
      → ((a : A) (s : S) → Q' a s → D s)
      → ((a : A) (s : S) → E s → Q a s)
      → Meets P (finally m c) Q E
  unfolding finally
  Meets-finally {Q'} m c km kc de qd eq = record { at = λ s h. go (m s).0 (m s).1 (km.at s h) }
    where
      kept :
          (a : A) (x : Outcome (Unit {ℓ})) (t : S)
          → Post (λ _. E) E x t
          → Post Q E (settle (ok a) x) t
      kept a (ok b) t h = eq a t h
      kept a (refused e) t h = h
      kept a storage t h = h
      kept a sqlite t h = h
      kept a uncaught t h = h
      kept a killed t h = h

      go :
          (r : Outcome A) (t : S)
          → Post Q' D r t
          → Post Q E (cleaned_up r c t).0 (cleaned_up r c t).1
      go (ok a) t h = kept a (c t).0 (c t).1 (kc.at t (qd a t h))
      go (refused e) t h = settle-refused E Q e (c t).0 (c t).1 (kc.at t h)
      go storage t h = settle-storage E Q (c t).0 (c t).1 (kc.at t h)
      go sqlite t h = settle-sqlite E Q (c t).0 (c t).1 (kc.at t h)
      go uncaught t h = settle-uncaught E Q (c t).0 (c t).1 (kc.at t h)
      go killed t h = de t h

module _ {S A : Type 0} {P E : S → Type 0} {M Q : A → S → Type 0} where
  -- A body that returns, and a cleanup that returns.
  pub Meets-finally_ok :
      (m : Exec S A) (c : Exec S (Unit {0}))
      → Meets P m M (λ s. ⊥)
      → ((a : A) → Meets (M a) c (λ _. Q a) E)
      → Meets P (finally m c) Q E
  unfolding finally
  Meets-finally_ok m c km kc = record { at = λ s h. go (m s).0 (m s).1 (km.at s h) }
    where
      kept :
          (a : A) (x : Outcome (Unit {0})) (t : S)
          → Post (λ _. Q a) E x t
          → Post Q E (settle (ok a) x) t
      kept a (ok b) t h = h
      kept a (refused e) t h = h
      kept a storage t h = h
      kept a sqlite t h = h
      kept a uncaught t h = h
      kept a killed t h = h

      go :
          (r : Outcome A) (t : S)
          → Post M (λ s. ⊥) r t
          → Post Q E (cleaned_up r c t).0 (cleaned_up r c t).1
      go (ok a) t h = kept a (c t).0 (c t).1 ((kc a).at t h)
      go (refused e) t h = absurd h
      go storage t h = absurd h
      go sqlite t h = absurd h
      go uncaught t h = absurd h
      go killed t h = absurd h
