-- ===== src/Exec/Gives.antt =====
-- Functions that return: `Gives P m v` says that `m`, from a state with `P`, returns `v` and keeps `P`.
-- One rule for each way to build a function of Exec.antt.
use moon_mqtt_client.Base.{String, Bool, true, false, ◌≡◌, refl, Option, some, subst, sym}
use moon_mqtt_client.Exec.{
  Outcome, ok, refused, storage, sqlite, uncaught, killed, Exec, pure, continue, ◌>>=◌, ◌>>◌,
  or_raise, require, when, storage_as, sqlite_as,
}
use moon_mqtt_client.Exec.Rules.{Post, Meets}

pub record Gives {ℓ} {S A : Type ℓ} (P : S → Type ℓ) (m : Exec S A) (v : A) : Type ℓ where
  pub at : (s : S) → P s → ((m s).0 ≡ ok v) × P (m s).1

module _ {ℓ} {S A : Type ℓ} {P : S → Type ℓ} where
  pub Gives-pure : (v : A) → Gives P (pure v) v
  Gives-pure v = record { at = λ s h. (refl, h) }

  pub Gives-or_raise : (o : Option A) (v : A) (m : Exec S A) → o ≡ some v → Gives P (or_raise o m) v
  unfolding or_raise
  Gives-or_raise o v m e = rw e (record { at = λ s h. (refl, h) })

  pub Gives-storage_as :
      (reason : String) (m : Exec S A) (v : A) → Gives P m v → Gives P (storage_as reason m) v
  unfolding storage_as
  Gives-storage_as reason m v km = record { at = λ s h. let (e, k) = km.at s h in (rw e refl, k) }

  pub Gives-sqlite_as :
      (reason : String) (m : Exec S A) (v : A) → Gives P m v → Gives P (sqlite_as reason m) v
  unfolding sqlite_as
  Gives-sqlite_as reason m v km = record { at = λ s h. let (e, k) = km.at s h in (rw e refl, k) }

-- An action that returns, before a rule for what follows.
module _ {ℓ} {S A B : Type ℓ} {P : S → Type ℓ} {Q : B → S → Type ℓ} {E : S → Type ℓ} where
  pub Meets-gives :
      (m : Exec S A) (f : A → Exec S B) (v : A)
      → Gives P m v
      → Meets P (f v) Q E
      → Meets P (m >>= f) Q E
  unfolding ◌>>=◌
  Meets-gives m f v km kf = record {
    at = λ s h.
        let (e, k) = km.at s h in
        subst (λ r. Post Q E (continue r f (m s).1).0 (continue r f (m s).1).1) (sym e)
          (kf.at (m s).1 k);
  }

  pub Meets-gives_then :
      (m : Exec S A) (n : Exec S B) (v : A) → Gives P m v → Meets P n Q E → Meets P (m >> n) Q E
  unfolding ◌>>◌
  Meets-gives_then m n v km kn = Meets-gives m (λ _. n) v km kn

module _ {S A : Type 0} {P : S → Type 0} {Q : A → S → Type 0} where
  -- No end but a return.
  pub Meets-returns :
      (m : Exec S A)
      → Meets P m Q (λ s. ⊥)
      → (s : S) → P s
      → (a : A) × ((m s).0 ≡ ok a) × Q a (m s).1
  Meets-returns m km s h = go (m s).0 (km.at s h)
    where
      go : (r : Outcome A) → Post Q (λ s. ⊥) r (m s).1 → (a : A) × (r ≡ ok a) × Q a (m s).1
      go (ok a) k = (a, refl, k)
      go (refused e) k = elim k [ ]
      go storage k = elim k [ ]
      go sqlite k = elim k [ ]
      go uncaught k = elim k [ ]
      go killed k = elim k [ ]

module _ {ℓ} {S A : Type ℓ} {P : S → Type ℓ} {Q : A → S → Type ℓ} {E : S → Type ℓ} where
  pub Meets-of_gives :
      (m : Exec S A) (v : A) → Gives P m v → ((s : S) → P s → Q v s) → Meets P m Q E
  Meets-of_gives m v km h = record {
    at = λ s p. let (e, k) = km.at s p in subst (λ r. Post Q E r (m s).1) (sym e) (h (m s).1 k);
  }

module _ {ℓ} {S : Type ℓ} {P : S → Type ℓ} where
  pub Gives-require : (b : Bool) (reason : String) → b ≡ true → Gives P (require b reason) tt
  unfolding require
  Gives-require b reason e = rw e (record { at = λ s h. (refl, h) })

  pub Gives-when : (b : Bool) (m : Exec S (Unit {ℓ})) → Gives P m tt → Gives P (when b m) tt
  unfolding when
  Gives-when true m km = km
  Gives-when false m km = record { at = λ s h. (refl, h) }

module _ {ℓ} {S A B : Type ℓ} {P : S → Type ℓ} where
  pub Gives-bind :
      (m : Exec S A) (f : A → Exec S B) (v : A) (u : B)
      → Gives P m v
      → Gives P (f v) u
      → Gives P (m >>= f) u
  unfolding ◌>>=◌
  Gives-bind m f v u km kf = record {
    at = λ s h.
        let (e, k) = km.at s h in
        subst (λ r. ((continue r f (m s).1).0 ≡ ok u) × P (continue r f (m s).1).1) (sym e)
          (kf.at (m s).1 k);
  }

  pub Gives-then :
      (m : Exec S A) (n : Exec S B) (v : A) (u : B) → Gives P m v → Gives P n u → Gives P (m >> n) u
  unfolding ◌>>◌
  Gives-then m n v u km kn = Gives-bind m (λ _. n) v u km kn
