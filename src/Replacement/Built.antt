-- ===== src/Replacement/Built.antt =====
-- What `create_replacement` of scripts/durable_recovery.py builds is what `verify_target` accepts.
use Prim.Native.String.{◌++◌ as ◌<>◌}
use moon_mqtt_client.Base.{
  some_injective, ==_refl, ℕ, true, String, ◌≡◌, refl, ◌∙◌, sym, ap, Option, some, arith,
}
use moon_mqtt_client.Paths.{FilePath}
use moon_mqtt_client.Exec.{ok, ◌>>=◌, ◌>>◌}
use moon_mqtt_client.World.{
  Env, World, durable, follow, sha256_file, Act, change, fill, raise_storage, raise_sqlite,
  sqlite_connect, tmp_max,
}
use moon_mqtt_client.Exec.Rules.{
  Step, Meets, Meets-bind, Meets-then, Meets-errors, Meets-or_raise, Meets-pure, Meets-ok,
}
use moon_mqtt_client.World.Changes.{Frame, Frame-IsPreorder}
use moon_mqtt_client.World.Frame.{Quiet, Quiet-call, Quiet-sql, Quiet-gets, quiet_rules, kept}
use moon_mqtt_client.Effects.Staging.{NewAt, NewAt-Step, NewAt-Quiet, mkstemp-NewAt}
use moon_mqtt_client.Reads.{Quiet-require_schema}
use moon_mqtt_client.Replacement.{
  new_database, verify_target, create_replacement, build_replacement,
}
use moon_mqtt_client.World.Calm.{calm}
use moon_mqtt_client.Replacement.Placed.{Placed, whole, hashed}

-- What a state keeps when nothing but the clock moves.
module _ (env : Env) {P : World → Type 0} (keep : (w w' : World) → Quiet w w' → P w → P w')
    {B : Type 0} {Q : B → World → Type 0} where
  skip :
      {A : Type 0} (m : Act A) (n : Act B)
      → Step Quiet m
      → Meets P n Q (λ w. Unit {0})
      → Meets P (m >> n) Q (λ w. Unit {0})
  skip m n km kn = Meets-then P m n (Meets-errors (λ w h. tt) (kept env keep m km)) kn

  skip_bind :
      {A : Type 0} (m : Act A) (f : A → Act B)
      → Step Quiet m
      → ((a : A) → Meets P (f a) Q (λ w. Unit {0}))
      → Meets P (m >>= f) Q (λ w. Unit {0})
  skip_bind m f km kf = Meets-bind (λ _. P) m f (Meets-errors (λ w h. tt) (kept env keep m km)) kf

module _ (env : Env) (p : FilePath) (identity : String) where
  Entered : ℕ → World → Type 0
  Entered i w = w.entry p ≡ some i

  Entered-keep : (i : ℕ) (w w' : World) → Quiet w w' → Entered i w → Entered i w'
  unfolding Entered
  Entered-keep i w w' q h = rw q.entry_eq h

  Placed-keep :
      (i page : ℕ) (w w' : World)
      → Quiet w w'
      → Placed p identity i page w
      → Placed p identity i page w'
  Placed-keep i page w w' q h = record {
    at_entry = rw q.entry_eq h.at_entry;
    at_content = rw q.content_eq h.at_content;
  }

  -- The new store with its hash.
  pub record Built (sha : String) (w : World) : Type 0 where
    pub inode : ℕ
    pub page : ℕ
    pub placed : Placed p identity inode page w
    pub digest : sha ≡ env.digest (durable (new_database identity) page)

  sha-Built :
      (i page : ℕ) → Meets (Placed p identity i page) (sha256_file env p) Built (λ w. Unit {0})
  unfolding sha256_file
  sha-Built i page = skip env (Placed-keep i page) _ _ (Quiet-call env) (
      Meets-bind (λ found w. Placed p identity i page w × (found ≡ some i)) _ _
        (record { at = λ w h. (h, rw (h.at_entry, follow) (rw h.at_content refl)) })
        λ found.
          Meets-bind (λ c w. Placed p identity i page w × (c ≡ i)) _ _
            (Meets-or_raise found raise_storage (record { at = λ w h. tt })
              λ c w e h. (h.0, some_injective (sym e ∙ h.1)))
            λ c. record {
              at = λ w h. record {
                inode = i;
                page = page;
                placed = h.0;
                digest = rw (h.1, h.0.at_content) refl;
              };
            })

  fill-Placed :
      {B : Type 0} {Q : B → World → Type 0} (i page : ℕ) (n : Act B)
      → Meets (Placed p identity i page) n Q (λ w. Unit {0})
      → Meets
          (Entered i)
          (change (λ w. fill i (durable (new_database identity) page) w) >> n)
          Q
          (λ w. Unit {0})
  unfolding change Entered
  fill-Placed i page n kn =
      Meets-then (Placed p identity i page) _ n
        (record { at = λ w h. record { at_entry = h; at_content = ground (arith, ==_refl i) } }) kn

  module _ (i page : ℕ) {B : Type 0} {Q : B → World → Type 0} where
    Placed-then :
        {A : Type 0} (m : Act A) (n : Act B)
        → Step Quiet m
        → Meets (Placed p identity i page) n Q (λ w. Unit {0})
        → Meets (Placed p identity i page) (m >> n) Q (λ w. Unit {0})
    Placed-then = skip env (Placed-keep i page)

    Placed-bind :
        {A : Type 0} (m : Act A) (f : A → Act B)
        → Step Quiet m
        → ((a : A) → Meets (Placed p identity i page) (f a) Q (λ w. Unit {0}))
        → Meets (Placed p identity i page) (m >>= f) Q (λ w. Unit {0})
    Placed-bind = skip_bind env (Placed-keep i page)

  module _ (i : ℕ) {B : Type 0} {Q : B → World → Type 0} where
    Entered-then :
        {A : Type 0} (m : Act A) (n : Act B)
        → Step Quiet m
        → Meets (Entered i) n Q (λ w. Unit {0})
        → Meets (Entered i) (m >> n) Q (λ w. Unit {0})
    Entered-then = skip env (Entered-keep i)

    Entered-bind :
        {A : Type 0} (m : Act A) (f : A → Act B)
        → Step Quiet m
        → ((a : A) → Meets (Entered i) (f a) Q (λ w. Unit {0}))
        → Meets (Entered i) (m >>= f) Q (λ w. Unit {0})
    Entered-bind = skip_bind env (Entered-keep i)

  build-Built :
      (i : ℕ) (initial : Option ℕ)
      → Meets (Entered i) (build_replacement env p initial i identity) Built (λ w. Unit {0})
  unfolding build_replacement
  build-Built i initial =
      search
        (
          Entered-then, Entered-bind, fill-Placed, Placed-then, Placed-bind, sha-Built, quiet_rules,
          Quiet-require_schema,
        )
        depth 30 fits 20000

module _ (env : Env) (target : FilePath) (identity : String) (w0 : World) where
  New : FilePath → World → Type 0
  New = NewAt env (λ i. true) (λ p. true) w0 target.dir ("." <> (target.name <> ".recovery-"))

  entered :
      (p : FilePath)
      → Meets (New p) (sqlite_connect env p) (λ c w. w.entry p ≡ some c) (λ w. Unit {0})
  unfolding sqlite_connect New
  entered p =
      Meets-then (New p) _ _
        (Meets-errors (λ w h. tt) (NewAt-Step env _ _ w0 _ _ p _ (Quiet-sql env)))
        (Meets-bind (λ found w. New p w × (found ≡ follow w (w.entry p))) _ _
          (record { at = λ w h. (h, refl) })
          λ found.
            Meets-or_raise found raise_sqlite (record { at = λ w h. tt })
              λ c w e h. ground (arith, e, h.1, h.0.1.at_entry, h.0.1.is_blank))

  New-keep : (p : FilePath) (w w' : World) → Quiet w w' → New p w → New p w'
  unfolding New
  New-keep p w w' q h = NewAt-Quiet env _ _ w0 _ _ p w w' q h

  New-then :
      {A B : Type 0} {Q : B → World → Type 0} (p : FilePath) (m : Act A) (n : Act B)
      → Step Quiet m
      → Meets (New p) n Q (λ w. Unit {0})
      → Meets (New p) (m >> n) Q (λ w. Unit {0})
  New-then p = skip env (New-keep p)

  New-bind :
      {A B : Type 0} {Q : B → World → Type 0} (p : FilePath) (m : Act A) (f : A → Act B)
      → Step Quiet m
      → ((a : A) → Meets (New p) (f a) Q (λ w. Unit {0}))
      → Meets (New p) (m >>= f) Q (λ w. Unit {0})
  New-bind p = skip_bind env (New-keep p)

  built :
      (p : FilePath) (c : ℕ) (initial : Option ℕ)
      → Meets
          (λ w. w.entry p ≡ some c)
          (build_replacement env p initial c identity)
          (Built env p identity)
          (λ w. Unit {0})
  unfolding Entered
  built p c initial = build-Built env p identity c initial

  created :
      Meets {A = FilePath × String}
        (λ w. Frame (λ i. true) (λ p. true) w0 w)
        (create_replacement env target identity)
        (λ r w. Built env r.0 identity r.1 w)
        (λ w. Unit {0})
  unfolding create_replacement New
  created =
      Meets-bind New _ _
        (Meets-errors (λ w h. tt) (mkstemp-NewAt env _ _ w0 tmp_max target.dir _ ".tmp"))
        λ p. New-bind p _ _ (Quiet-gets _) λ initial. New-then p _ _ (Quiet-call env) (
          New-then p _ _ (Quiet-call env) (
            Meets-bind (λ c w. w.entry p ≡ some c) _ _ (entered p)
              λ c.
                Meets-bind (λ sha w. Built env p identity sha w) _ _ (built p c initial)
                  λ sha. Meets-pure {A = FilePath × String} (p, sha) (λ w h. h)))

-- When `create_replacement` has returned a staging file and a hash, whatever the calls before did, then in
-- calls that work `verify_target` accepts that file as an empty store with the identity, and the file's
-- hash is the one that was returned.
pub create_replacement-verify_target :
    (env : Env) (target : FilePath) (identity : String) (w : World) (p : FilePath) (sha : String)
    → (create_replacement env target identity w).0 ≡ ok (p, sha)
    → ((verify_target (calm env) p identity true (create_replacement env target identity w).1).0
        ≡ ok tt)
      × ((sha256_file (calm env) p (create_replacement env target identity w).1).0 ≡ ok sha)
create_replacement-verify_target env target identity w p sha e =
    let b =
      Meets-ok (create_replacement env target identity) (created env target identity w) w
        ((Frame-IsPreorder (λ i. true) (λ q. true)).same w) e in
    let w' = (create_replacement env target identity w).1 in
    (
      ((whole env p identity b.inode b.page true).at w' b.placed).0,
      ((hashed env p identity b.inode b.page).at w' b.placed).0 ∙ ap ok (sym b.digest),
    )
