-- ===== src/Exec.antt =====
-- Python functions that change the world and may raise. What was written before a raise stays
-- written, so the state comes back beside every outcome.
pub mod Rules
pub mod Returns
pub mod Gives
use moon_mqtt_client.Base.{String, Bool, true, false, Option, none, some}

-- How a call ends: a value, a `RecoveryError` with the fixed part of its message, an `OSError`, a
-- `sqlite3.Error`, another exception (a `TypeError`, a `KeyError`), or the end of the
-- process (`os._exit`, a signal).
pub data Outcome {ℓ} (A : Type ℓ) : Type ℓ where
  ok : A → Outcome A
  refused : String → Outcome A
  storage : Outcome A
  sqlite : Outcome A
  uncaught : Outcome A
  killed : Outcome A

abbrev pub Exec {ℓ} : Type ℓ → Type ℓ → Type ℓ
Exec S A = S → Outcome A × S

module _ {ℓ} {S A : Type ℓ} where
  abbrev pub pure : A → Exec S A
  pure a s = (ok a, s)

  -- `raise RecoveryError(reason)`
  abbrev pub refuse : String → Exec S A
  refuse reason s = (refused reason, s)

module _ {ℓ} {S A B : Type ℓ} where
  abbrev pub continue : Outcome A → (A → Exec S B) → Exec S B
  continue (ok a) f s = f a s
  continue (refused reason) f s = (refused reason, s)
  continue storage f s = (storage, s)
  continue sqlite f s = (sqlite, s)
  continue uncaught f s = (uncaught, s)
  continue killed f s = (killed, s)

  infixl 10 ◌>>=◌ ◌>>◌
  unfoldable pub ◌>>=◌ : Exec S A → (A → Exec S B) → Exec S B
  ◌>>=◌ m f s = let (r, s') = m s in continue r f s'

  unfoldable pub ◌>>◌ : Exec S A → Exec S B → Exec S B
  unfolding ◌>>=◌
  m >> n = m >>= λ _. n

-- `if o is None: m`, where `m` raises, and the value of `o` after it.
unfoldable pub or_raise {ℓ} : {S A : Type ℓ} → Option A → Exec S A → Exec S A
or_raise none m = m
or_raise (some a) m = pure a

-- `if not test: raise RecoveryError(reason)`
unfoldable pub require {ℓ} : {S : Type ℓ} → Bool → String → Exec S (Unit {ℓ})
require true reason = pure tt
require false reason = refuse reason

-- `if test: body`
unfoldable pub when {ℓ} : {S : Type ℓ} → Bool → Exec S (Unit {ℓ}) → Exec S (Unit {ℓ})
when true m = m
when false m = pure tt

module _ {ℓ} {A : Type ℓ} where
  -- What a `finally` block makes of the outcome of the `try` block and of its own.
  abbrev pub settle : Outcome A → Outcome (Unit {ℓ}) → Outcome A
  settle r (ok _) = r
  settle r (refused reason) = refused reason
  settle r storage = storage
  settle r sqlite = sqlite
  settle r uncaught = uncaught
  settle r killed = killed

  abbrev pub convert : String → Outcome A → Outcome A
  convert reason storage = refused reason
  convert reason sqlite = sqlite
  convert reason (ok a) = ok a
  convert reason (refused r) = refused r
  convert reason uncaught = uncaught
  convert reason killed = killed

  abbrev pub convert_sqlite : String → Outcome A → Outcome A
  convert_sqlite reason storage = storage
  convert_sqlite reason sqlite = refused reason
  convert_sqlite reason (ok a) = ok a
  convert_sqlite reason (refused r) = refused r
  convert_sqlite reason uncaught = uncaught
  convert_sqlite reason killed = killed

module _ {ℓ} {S A : Type ℓ} where
  abbrev pub cleaned_up : Outcome A → Exec S (Unit {ℓ}) → Exec S A
  cleaned_up killed cleanup s = (killed, s)
  cleaned_up (ok a) cleanup s = let (c, s') = cleanup s in (settle (ok a) c, s')
  cleaned_up (refused e) cleanup s = let (c, s') = cleanup s in (settle (refused e) c, s')
  cleaned_up storage cleanup s = let (c, s') = cleanup s in (settle storage c, s')
  cleaned_up sqlite cleanup s = let (c, s') = cleanup s in (settle sqlite c, s')
  cleaned_up uncaught cleanup s = let (c, s') = cleanup s in (settle uncaught c, s')

  -- `try: m finally: cleanup`. A process that has ended runs no `finally` block.
  unfoldable pub finally : Exec S A → Exec S (Unit {ℓ}) → Exec S A
  finally m cleanup s = let (r, s') = m s in cleaned_up r cleanup s'

  abbrev pub rescued : Outcome A → Exec S (Unit {ℓ}) → Exec S A
  rescued (ok a) handler s = (ok a, s)
  rescued killed handler s = (killed, s)
  rescued (refused e) handler s = let (c, s') = handler s in (settle (refused e) c, s')
  rescued storage handler s = let (c, s') = handler s in (settle storage c, s')
  rescued sqlite handler s = let (c, s') = handler s in (settle sqlite c, s')
  rescued uncaught handler s = let (c, s') = handler s in (settle uncaught c, s')

  -- `try: m except Exception: handler; raise`
  unfoldable pub except_raise : Exec S A → Exec S (Unit {ℓ}) → Exec S A
  except_raise m handler s = let (r, s') = m s in rescued r handler s'

  -- `try: m except OSError as error: raise RecoveryError(reason) from error`
  unfoldable pub storage_as : String → Exec S A → Exec S A
  storage_as reason m s = let (r, s') = m s in (convert reason r, s')

  -- `try: m except sqlite3.Error as error: raise RecoveryError(reason) from error`
  unfoldable pub sqlite_as : String → Exec S A → Exec S A
  sqlite_as reason m s = let (r, s') = m s in (convert_sqlite reason r, s')
