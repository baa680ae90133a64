-- ===== src/Exec/Rules/Triples.antt =====
-- `Meets P m Q E`: from a state with `P`, the action `m` of Exec.antt returns with `Q`, or ends in another
-- way with `E`. One rule for each way to build an action.
use moon_mqtt_client.Base.{
  subst, Option, none, some, String, Bool, true, false, ◌≡◌, refl, if◌then◌else◌,
}
use moon_mqtt_client.Exec.{
  Outcome, ok, refused, storage, sqlite, uncaught, killed, Exec, pure, refuse, continue, ◌>>=◌,
  ◌>>◌, require, or_raise, storage_as, convert,
}
use moon_mqtt_client.Exec.Rules.Steps.{Step}

-- What holds after an action.
abbrev pub Post {ℓ} : {S A : Type ℓ} → (A → S → Type ℓ) → (S → Type ℓ) → Outcome A → S → Type ℓ
Post Q E (ok a) s = Q a s
Post Q E (refused e) s = E s
Post Q E storage s = E s
Post Q E sqlite s = E s
Post Q E uncaught s = E s
Post Q E killed s = E s

pub record Meets {ℓ} {S A : Type ℓ} (P : S → Type ℓ) (m : Exec S A) (Q : A → S → Type ℓ)
    (E : S → Type ℓ) : Type ℓ where
  pub at : (s : S) → P s → Post Q E (m s).0 (m s).1

module _ {ℓ} {S A : Type ℓ} {P : S → Type ℓ} {Q : A → S → Type ℓ} {E : S → Type ℓ} where
  pub Meets-pure : (a : A) → ((s : S) → P s → Q a s) → Meets P (pure a) Q E
  Meets-pure a h = record { at = h }

  pub Meets-refuse : (reason : String) → ((s : S) → P s → E s) → Meets P (refuse reason) Q E
  Meets-refuse reason h = record { at = h }

  pub Meets-if :
      (b : Bool) (m n : Exec S A)
      → (b ≡ true → Meets P m Q E)
      → (b ≡ false → Meets P n Q E)
      → Meets P (if b then m else n) Q E
  Meets-if true m n km kn = km refl
  Meets-if false m n km kn = kn refl

  pub Meets-known_if :
      (b : Bool) (m n : Exec S A) → b ≡ true → Meets P m Q E → Meets P (if b then m else n) Q E
  Meets-known_if b m n h km = rw h km

module _ {ℓ} {S A B : Type ℓ} {P : S → Type ℓ} {Q : B → S → Type ℓ} {E : S → Type ℓ} where
  pub Meets-bind :
      (M : A → S → Type ℓ) (m : Exec S A) (f : A → Exec S B)
      → Meets P m M E
      → ((a : A) → Meets (M a) (f a) Q E)
      → Meets P (m >>= f) Q E
  unfolding ◌>>=◌
  Meets-bind M m f km kf = record { at = λ s h. go (m s).0 (m s).1 (km.at s h) }
    where
      go : (r : Outcome A) (t : S) → Post M E r t → Post Q E (continue r f t).0 (continue r f t).1
      go (ok a) t h = (kf a).at t h
      go (refused e) t h = h
      go storage t h = h
      go sqlite t h = h
      go uncaught t h = h
      go killed t h = h

  pub Meets-then :
      (M : S → Type ℓ) (m : Exec S A) (n : Exec S B)
      → Meets P m (λ _. M) E
      → Meets M n Q E
      → Meets P (m >> n) Q E
  unfolding ◌>>◌
  Meets-then M m n km kn = Meets-bind (λ _. M) m (λ _. n) km (λ _. kn)

module _ {ℓ} {S A : Type ℓ} {P : S → Type ℓ} {Q : A → S → Type ℓ} {E : S → Type ℓ} where
  -- A fact that does not depend on the state.
  pub Meets-assume {κ} :
      (F : Type κ) (m : Exec S A) → ((s : S) → P s → F) → (F → Meets P m Q E) → Meets P m Q E
  Meets-assume F m fact km = record { at = λ s h. (km (fact s h)).at s h }

  -- Stronger assumptions, weaker conclusions.
  pub Meets-weaken :
      {P' : S → Type ℓ} {Q' : A → S → Type ℓ} (m : Exec S A)
      → ((s : S) → P' s → P s)
      → ((a : A) (s : S) → Q a s → Q' a s)
      → Meets P m Q E
      → Meets P' m Q' E
  Meets-weaken {Q'} m hp hq km = record { at = λ s h. go (m s).0 (m s).1 (km.at s (hp s h)) }
    where
      go : (r : Outcome A) (t : S) → Post Q E r t → Post Q' E r t
      go (ok a) t h = hq a t h
      go (refused e) t h = h
      go storage t h = h
      go sqlite t h = h
      go uncaught t h = h
      go killed t h = h

  -- Weaker conclusions on the other ends.
  pub Meets-errors :
      {E' : S → Type ℓ} {m : Exec S A} → ((s : S) → E' s → E s) → Meets P m Q E' → Meets P m Q E
  Meets-errors {E'} {m} he km = record { at = λ s h. go (m s).0 (m s).1 (km.at s h) }
    where
      go : (r : Outcome A) (t : S) → Post Q E' r t → Post Q E r t
      go (ok a) t h = h
      go (refused e) t h = he t h
      go storage t h = he t h
      go sqlite t h = he t h
      go uncaught t h = he t h
      go killed t h = he t h

  -- The value of an option that is there.
  pub Meets-or_raise :
      (o : Option A) (m : Exec S A)
      → Meets P m Q E
      → ((a : A) (s : S) → o ≡ some a → P s → Q a s)
      → Meets P (or_raise o m) Q E
  unfolding or_raise
  Meets-or_raise none m km h = km
  Meets-or_raise (some a) m km h = record { at = λ s p. h a s refl p }

module _ {ℓ} {S A : Type ℓ} {Q : A → S → Type ℓ} {E : S → Type ℓ} where
  -- Something that the state is known to have.
  pub Meets-given :
      {V : Type ℓ} {F : V → S → Type ℓ} {m : Exec S A}
      → ((v : V) → Meets (F v) m Q E)
      → Meets (λ s. (v : V) × F v s) m Q E
  Meets-given km = record { at = λ s h. (km h.0).at s h.1 }

module _ {ℓ} {S A : Type ℓ} {P : S → Type ℓ} {R : S → S → Type ℓ} where
  -- What a step keeps.
  pub Meets-step :
      ((s t : S) → R s t → P s → P t) → (m : Exec S A) → Step R m → Meets P m (λ _. P) P
  Meets-step keep m km = record { at = λ s h. go (m s).0 (m s).1 (keep s (m s).1 (km.at s) h) }
    where
      go : (r : Outcome A) (t : S) → P t → Post (λ _. P) P r t
      go (ok a) t h = h
      go (refused e) t h = h
      go storage t h = h
      go sqlite t h = h
      go uncaught t h = h
      go killed t h = h

module _ {ℓ} {S A : Type ℓ} {R : S → S → Type ℓ} where
  -- The other way: what holds after every end, from each state.
  pub Step-of_meets :
      (m : Exec S A) → ((s : S) → R s s) → ((s : S) → Meets (R s) m (λ _. R s) (R s)) → Step R m
  Step-of_meets m start km = record { at = λ s. go s (m s).0 (m s).1 ((km s).at s (start s)) }
    where
      go : (s : S) (r : Outcome A) (t : S) → Post (λ _. R s) (R s) r t → R s t
      go s (ok a) t h = h
      go s (refused e) t h = h
      go s storage t h = h
      go s sqlite t h = h
      go s uncaught t h = h
      go s killed t h = h

module _ {ℓ} {S : Type ℓ} {P : S → Type ℓ} {Q : Unit {ℓ} → S → Type ℓ} {E : S → Type ℓ} where
  pub Meets-require :
      (b : Bool) (reason : String)
      → ((s : S) → P s → E s)
      → ((s : S) → b ≡ true → P s → Q tt s)
      → Meets P (require b reason) Q E
  unfolding require
  Meets-require true reason he h = record { at = λ s p. h s refl p }
  Meets-require false reason he h = record { at = he }

module _ {ℓ} {S A : Type ℓ} {P : S → Type ℓ} {Q : A → S → Type ℓ} {E : S → Type ℓ} where
  pub Meets-storage_as :
      (reason : String) (m : Exec S A) → Meets P m Q E → Meets P (storage_as reason m) Q E
  unfolding storage_as
  Meets-storage_as reason m km = record { at = λ s h. go (m s).0 (m s).1 (km.at s h) }
    where
      go : (r : Outcome A) (t : S) → Post Q E r t → Post Q E (convert reason r) t
      go (ok a) t h = h
      go (refused e) t h = h
      go storage t h = h
      go sqlite t h = h
      go uncaught t h = h
      go killed t h = h

  -- What holds however the action ends.
  pub Meets-always :
      (m : Exec S A) → Meets P m Q E → ((a : A) (s : S) → Q a s → E s) → (s : S) → P s → E (m s).1
  Meets-always m km weak s h = go (m s).0 (m s).1 (km.at s h)
    where
      go : (r : Outcome A) (t : S) → Post Q E r t → E t
      go (ok a) t h = weak a t h
      go (refused e) t h = h
      go storage t h = h
      go sqlite t h = h
      go uncaught t h = h
      go killed t h = h

  -- What holds where it returns.
  pub Meets-ok :
      (m : Exec S A) {a : A} → Meets P m Q E → (s : S) → P s → (m s).0 ≡ ok a → Q a (m s).1
  Meets-ok m km s h e = subst (λ r. Post Q E r (m s).1) e (km.at s h)
