-- ===== src/World/Calm.antt =====
-- The calls of World.antt in an environment in which every call works: what they return, from a state
-- that is kept when nothing but the clock moves.
use Prim.Native.String.{◌++◌ as ◌<>◌}
use moon_mqtt_client.Base.{ℕ, suc, String, true, false, ◌≡◌, refl, sym, ap, subst, none, some}
use moon_mqtt_client.Paths.{FilePath}
use moon_mqtt_client.Exec.{ok, ◌>>=◌}
use moon_mqtt_client.Exec.Rules.{Step, Meets, Meets-bind, Meets-pure}
use moon_mqtt_client.Exec.Gives.{
  Gives, Gives-pure, Gives-or_raise, Gives-require, Gives-bind, Gives-then, Meets-gives,
  Meets-gives_then,
}
use moon_mqtt_client.World.{
  Env, World, Act, fine, follow, call, sql, gets, draw, tick, maybe_fail, is_regular, existing_path,
  sqlite_connect, sha256_file, mkstemp, change, create, blank, lexists, link_file, enter,
}
use moon_mqtt_client.World.Frame.{Quiet}

-- From now on every call works.
abbrev pub calm : Env → Env
calm env = record env { fault = λ n. fine }

-- The name of a draw.
abbrev pub drawn_path : Env → String → String → String → ℕ → FilePath
drawn_path env dir prefix suffix n = record { dir = dir; name = prefix <> (env.temp n <> suffix) }

Quiet-tick : (w : World) → Quiet w (tick w)
Quiet-tick w = record { entry_eq = refl; content_eq = refl; fresh_eq = refl; exchanges_eq = refl }

-- A link to a name that is free.
pub link_file_lem :
    (env : Env) (p q : FilePath) (i : ℕ) (w : World)
    → w.entry p ≡ some i
    → w.entry q ≡ none
    → link_file (calm env) p q w ≡ (ok true, enter q (some i) (tick w))
unfolding link_file call ◌>>=◌
link_file_lem env p q i w at_entry vacant = rw (at_entry, vacant) refl

module _ (env : Env) {P : World → Type 0} (keep : (w w' : World) → Quiet w w' → P w → P w') where
  pub Gives-call : Gives P (call (calm env)) tt
  unfolding call
  Gives-call = record { at = λ w h. (refl, keep w (tick w) (Quiet-tick w) h) }

  pub Gives-sql : Gives P (sql (calm env)) tt
  unfolding sql
  Gives-sql = record { at = λ w h. (refl, keep w (tick w) (Quiet-tick w) h) }

  pub Meets-draw : {E : World → Type 0} → Meets P draw (λ _. P) E
  unfolding draw
  Meets-draw = record { at = λ w h. keep w (tick w) (Quiet-tick w) h }

  -- An action that only reads returns what it returns from a weaker state.
  pub Gives-within :
      {A : Type 0} {H : World → Type 0} (m : Act A) (v : A)
      → ((w : World) → P w → H w)
      → Step Quiet m
      → Gives H m v
      → Gives P m v
  Gives-within m v weak km gives = record {
    at = λ w h. ((gives.at w (weak w h)).0, keep w (m w).1 (km.at w) h);
  }

  pub Gives-gets :
      {A : Type 0} (f : World → A) (v : A) → ((w : World) → P w → f w ≡ v) → Gives P (gets f) v
  Gives-gets f v known = record { at = λ w h. (ap ok (known w h), h) }

  pub Gives-maybe_fail :
      (name : String)
      → env.getenv "MOON_MQTT_RECOVERY_FAILPOINT" ≡ none
      → Gives P (maybe_fail (calm env) name) tt
  unfolding maybe_fail
  Gives-maybe_fail name unset = rw unset (Gives-pure tt)

  module _ (p : FilePath) (i : ℕ) (entered : (w : World) → P w → w.entry p ≡ some i) where
    pub Gives-existing_path :
        (label : String)
        → ((w : World) → P w → is_regular (w.content i) ≡ true)
        → Gives P (existing_path (calm env) p label) p
    unfolding existing_path
    Gives-existing_path label regular = Gives-then _ _ _ _ Gives-call (
        Gives-bind _ _ (some i) _ (Gives-gets _ _ entered) (
          Gives-bind _ _ i _ (Gives-or_raise _ _ _ refl) (
            Gives-bind _ _ true _ (Gives-gets _ _ regular)
              (Gives-then _ _ _ _ (Gives-require _ _ refl) (Gives-pure p)))))

    module _ (followed : (w : World) → P w → follow w (some i) ≡ some i) where
      pub Gives-sqlite_connect : Gives P (sqlite_connect (calm env) p) i
      unfolding sqlite_connect
      Gives-sqlite_connect = Gives-then _ _ _ _ Gives-sql (
          Gives-bind _ _ (some i) _ (Gives-gets _ _ (λ w h. rw (entered w h) (followed w h)))
            (Gives-or_raise _ _ _ refl))

      pub Gives-sha256_file :
          (sha : String)
          → ((w : World) → P w → env.digest (w.content i) ≡ sha)
          → Gives P (sha256_file (calm env) p) sha
      unfolding sha256_file
      Gives-sha256_file sha known = Gives-then _ _ _ _ Gives-call (
          Gives-bind _ _ (some i) _ (Gives-gets _ _ (λ w h. rw (entered w h) (followed w h)))
            (Gives-bind _ _ i _ (Gives-or_raise _ _ _ refl) (Gives-gets _ _ known)))

  -- A new file: the state before it, and the name that was drawn.
  pub record Made (dir prefix suffix : String) (p : FilePath) (w : World) : Type 0 where
    pub before : World
    pub was : P before
    pub drawn : ℕ
    pub is_path : p ≡ drawn_path env dir prefix suffix drawn
    pub is_new : w ≡ create p blank before

  -- What is so of the path that was drawn is so of the new file.
  pub Made-given :
      (F : FilePath → World → Type 0) (dir prefix suffix : String)
      → ((n : ℕ) (v : World)
          → P v
          → F
              (drawn_path env dir prefix suffix n)
              (create (drawn_path env dir prefix suffix n) blank v))
      → (p : FilePath) (w : World) → Made dir prefix suffix p w
      → F p w
  Made-given F dir prefix suffix h p w m =
      subst (λ v. F p v) (sym m.is_new)
        (subst (λ q. F q (create q blank m.before)) (sym m.is_path) (h m.drawn m.before m.was))

  -- `mkstemp` takes the first name that it draws.
  pub mkstemp-Made :
      (attempts : ℕ) (dir prefix suffix : String) {E : World → Type 0}
      → ((n : ℕ) (w : World) → P w → w.entry (drawn_path env dir prefix suffix n) ≡ none)
      → Meets P (mkstemp (calm env) (suc attempts) dir prefix suffix) (Made dir prefix suffix) E
  unfolding mkstemp change
  mkstemp-Made attempts dir prefix suffix free = Meets-gives_then _ _ tt Gives-call (
      Meets-bind (λ n. P) _ _ Meets-draw
        λ n.
          let p = drawn_path env dir prefix suffix n in
          Meets-gives (gets (lexists p)) _ false (Gives-gets _ false (λ w h. rw (free n w h) refl))
            (Meets-bind (λ _. Made dir prefix suffix p) (change (create p blank)) _
              (record {
                at =
                    λ w h. record { before = w; was = h; drawn = n; is_path = refl; is_new = refl };
              })
              (λ _. Meets-pure _ (λ w h. h))))
