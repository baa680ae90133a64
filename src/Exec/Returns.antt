-- ===== src/Exec/Returns.antt =====
-- What is true of a value that a function returns, from whatever state it started: one rule for each
-- way to build a function of Exec.antt.
use moon_mqtt_client.Base.{
  String, Bool, true, false, ◌≡◌, refl, Option, none, some, if◌then◌else◌, subst,
}
use moon_mqtt_client.Exec.{
  Outcome, ok, refused, storage, sqlite, uncaught, killed, Exec, pure, refuse, ◌>>=◌, ◌>>◌,
  continue, or_raise, require, storage_as, sqlite_as, convert, convert_sqlite,
}

pub record Returns {ℓ} {S A : Type ℓ} (m : Exec S A) (Q : A → Type ℓ) : Type ℓ where
  pub at : (s : S) (a : A) → (m s).0 ≡ ok a → Q a

-- The value of an outcome.
abbrev pub Of {ℓ} : {A : Type ℓ} → (A → Type ℓ) → Outcome A → Type ℓ
Of {A} Q r = (a : A) → r ≡ ok a → Q a

ok-injective {ℓ} : {A : Type ℓ} (a b : A) → ok a ≡ ok b → a ≡ b
ok-injective a b h = cc

module _ {ℓ} {S A : Type ℓ} {Q : A → Type ℓ} where
  pub Returns-pure : (a : A) → Q a → Returns {S = S} (pure a) Q
  Returns-pure a h = record { at = λ s b e. subst Q (ok-injective a b e) h }

  pub Returns-refuse : (reason : String) → Returns {S = S} (refuse reason) Q
  Returns-refuse reason = record { at = λ s b e. absurd (cc) }

  pub Returns-if :
      (b : Bool) (m n : Exec S A)
      → (b ≡ true → Returns m Q)
      → (b ≡ false → Returns n Q)
      → Returns (if b then m else n) Q
  Returns-if true m n km kn = km refl
  Returns-if false m n km kn = kn refl

  pub Returns-or_raise :
      (o : Option A) (m : Exec S A)
      → Returns m Q
      → ((a : A) → o ≡ some a → Q a)
      → Returns (or_raise o m) Q
  unfolding or_raise
  Returns-or_raise none m km h = km
  Returns-or_raise (some a) m km h = Returns-pure a (h a refl)

  pub Returns-storage_as :
      (reason : String) (m : Exec S A) → Returns m Q → Returns (storage_as reason m) Q
  unfolding storage_as
  Returns-storage_as reason m km = record { at = λ s. go (m s).0 (km.at s) }
    where
      go : (r : Outcome A) → Of Q r → Of Q (convert reason r)
      go (ok a) h = h
      go (refused e) h = h
      go storage h = λ a e. absurd cc
      go sqlite h = h
      go uncaught h = h
      go killed h = h

  pub Returns-sqlite_as :
      (reason : String) (m : Exec S A) → Returns m Q → Returns (sqlite_as reason m) Q
  unfolding sqlite_as
  Returns-sqlite_as reason m km = record { at = λ s. go (m s).0 (km.at s) }
    where
      go : (r : Outcome A) → Of Q r → Of Q (convert_sqlite reason r)
      go (ok a) h = h
      go (refused e) h = h
      go storage h = h
      go sqlite h = λ a e. absurd cc
      go uncaught h = h
      go killed h = h

  pub Returns-weaken :
      {Q' : A → Type ℓ} (m : Exec S A) → ((a : A) → Q a → Q' a) → Returns m Q → Returns m Q'
  Returns-weaken m h km = record { at = λ s a e. h a (km.at s a e) }

module _ {ℓ} {S A B : Type ℓ} {Q : B → Type ℓ} where
  pub Returns-bind :
      (M : A → Type ℓ) (m : Exec S A) (f : A → Exec S B)
      → Returns m M
      → ((a : A) → M a → Returns (f a) Q)
      → Returns (m >>= f) Q
  unfolding ◌>>=◌
  Returns-bind M m f km kf = record { at = λ s. go (m s).0 (m s).1 (km.at s) }
    where
      go : (r : Outcome A) (t : S) → Of M r → Of Q (continue r f t).0
      go (ok a) t h = (kf a (h a refl)).at t
      go (refused e) t h = λ b e. absurd cc
      go storage t h = λ b e. absurd cc
      go sqlite t h = λ b e. absurd cc
      go uncaught t h = λ b e. absurd cc
      go killed t h = λ b e. absurd cc

  -- Where the value does not matter.
  pub Returns-after :
      (m : Exec S A) (f : A → Exec S B) → ((a : A) → Returns (f a) Q) → Returns (m >>= f) Q
  Returns-after m f kf = Returns-bind (λ _. Unit) m f (record { at = λ s a e. tt }) (λ a _. kf a)

  pub Returns-skip : (m : Exec S A) (n : Exec S B) → Returns n Q → Returns (m >> n) Q
  unfolding ◌>>◌
  Returns-skip m n kn = Returns-after m (λ _. n) (λ _. kn)

module _ {ℓ} {S B : Type ℓ} {Q : B → Type ℓ} where
  -- A check, and what follows where it holds.
  pub Returns-require :
      (b : Bool) (reason : String) (n : Exec S B)
      → (b ≡ true → Returns n Q)
      → Returns (require b reason >> n) Q
  unfolding require ◌>>◌ ◌>>=◌
  Returns-require true reason n kn = record { at = λ s. (kn refl).at s }
  Returns-require false reason n kn = record { at = λ s b e. absurd cc }
