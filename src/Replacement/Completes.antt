-- ===== src/Replacement/Completes.antt =====
-- A replacement is built in calls that work, if the names that `mkstemp` may draw are free:
-- scripts/durable_recovery.py, `create_replacement`.
use Prim.Native.String.{◌++◌ as ◌<>◌, len}
use package.text.Mathlib.TextPositions.{len-append, starts_with-append}
use package.text.Mathlib.TextEquality.{starts_with_iff}
use moon_mqtt_client.Base.{
  ℕ, ◌<◌, ◌==◌, String, false, ◌≡◌, refl, ap, none, some, arith, ==_refl, length, Bool-cases, inl,
  inr,
}
use moon_mqtt_client.Paths.{FilePath, path_eq, path_eq→eq, path_eq_refl}
use moon_mqtt_client.Exec.{require, pure, ◌>>=◌, ◌>>◌}
use moon_mqtt_client.Exec.Rules.{
  Step, Meets, Meets-bind, Meets-then, Meets-pure, Meets-weaken, Meets-given,
}
use moon_mqtt_client.Exec.Gives.{
  Gives, Gives-require, Meets-of_gives, Meets-gives, Meets-gives_then,
}
use moon_mqtt_client.World.{
  Env, World, Act, Content, blank, durable, mkstemp, tmp_max, create, fill, change, gets, query,
  call, sha256_file, follow, sqlite_connect,
}
use moon_mqtt_client.World.Frame.{Quiet, Quiet-query}
use moon_mqtt_client.World.Calm.{
  calm, Gives-call, Gives-sql, Gives-gets, Gives-within, Gives-sqlite_connect, Meets-draw,
  Made-given, mkstemp-Made,
}
use moon_mqtt_client.Effects.Staging.{IsStage}
use moon_mqtt_client.Reads.{Quiet-require_schema}
use moon_mqtt_client.Inspect.{require_schema}
use moon_mqtt_client.Replacement.{same_inode, new_database, build_replacement, create_replacement}
use moon_mqtt_client.Replacement.Placed.{Placed, queried, schema, hashed}
use moon_mqtt_client.World.Frame.{Quiet-sha256_file}

-- The staging file of a draw.
abbrev pub stage_path : FilePath → String → FilePath
stage_path target drawn = record {
  dir = target.dir;
  name = ("." <> (target.name <> ".recovery-")) <> (drawn <> ".tmp");
}

stage_path-IsStage : (target : FilePath) (drawn : String) → IsStage target (stage_path target drawn)
stage_path-IsStage target drawn =
    (refl, starts_with-append ("." <> (target.name <> ".recovery-")) (drawn <> ".tmp"))

-- The name of a staging file is longer than the target's.
pub IsStage-apart : (target p : FilePath) → IsStage target p → path_eq p target ≡ false
IsStage-apart target p named = elim (Bool-cases (path_eq p target)) [
  | inl e ↦
      let (rest, prefix) =
        (starts_with_iff p.name ("." <> (target.name <> ".recovery-"))).0 named.1 in
      absurd (
        omega (
          arith,
          ap (λ (q : FilePath). len q.name) (path_eq→eq p target e),
          ap len prefix,
          len-append ("." <> (target.name <> ".recovery-")) rest,
          len-append "." (target.name <> ".recovery-"),
          len-append target.name ".recovery-",
        ))
  | inr e ↦ e
]

-- Neither the target nor a staging file of it is there, and `connection` is a file in use that holds `c`.
pub record Clear (env : Env) (target : FilePath) (connection : ℕ) (c : Content) (w : World)
    : Type 0 where
  pub vacant : w.entry target ≡ none
  pub free : (n : ℕ) → w.entry (stage_path target (env.temp n)) ≡ none
  pub in_use : connection < w.fresh
  pub held : w.content connection ≡ c

-- A new store is at a staging path `p`, and the target is not there.
pub record Staged (target : FilePath) (connection : ℕ) (c : Content) (p : FilePath)
    (identity : String) (i page : ℕ) (w : World) : Type 0 where
  pub placed : Placed p identity i page w
  pub vacant : w.entry target ≡ none
  pub apart : (connection == i) ≡ false
  pub named : IsStage target p
  pub held : w.content connection ≡ c

module _ (env : Env) (target : FilePath) (connection : ℕ) (c : Content) where
  Clear-Quiet :
      (w w' : World)
      → Quiet w w'
      → Clear env target connection c w
      → Clear env target connection c w'
  Clear-Quiet w w' q h = record {
    vacant = rw q.entry_eq h.vacant;
    free = λ n. rw q.entry_eq (h.free n);
    in_use = omega (arith, h.in_use, q.fresh_eq);
    held = rw q.content_eq h.held;
  }

  -- The staging file is there and holds `content`.
  record Fresh (content : Content) (p : FilePath) (i : ℕ) (w : World) : Type 0 where
    at_entry : w.entry p ≡ some i
    is_content : w.content i ≡ content
    vacant : w.entry target ≡ none
    apart : (connection == i) ≡ false
    named : IsStage target p
    held : w.content connection ≡ c

  Fresh-Quiet :
      (content : Content) (p : FilePath) (i : ℕ) (w w' : World)
      → Quiet w w'
      → Fresh content p i w
      → Fresh content p i w'
  Fresh-Quiet content p i w w' q h = record {
    at_entry = rw q.entry_eq h.at_entry;
    is_content = rw q.content_eq h.is_content;
    vacant = rw q.entry_eq h.vacant;
    apart = h.apart;
    named = h.named;
    held = rw q.content_eq h.held;
  }

  abbrev FreshAt : FilePath → World → Type 0
  FreshAt p w = (i : ℕ) × Fresh blank p i w

  create-Fresh :
      (n : ℕ) (w : World)
      → Clear env target connection c w
      → FreshAt (stage_path target (env.temp n)) (create (stage_path target (env.temp n)) blank w)
  create-Fresh n w h = (
    w.fresh,
    record {
      at_entry = rw (path_eq_refl (stage_path target (env.temp n))) refl;
      is_content = rw (==_refl w.fresh) refl;
      vacant =
          rw
            (IsStage-apart target (stage_path target (env.temp n))
              (stage_path-IsStage target (env.temp n)))
            h.vacant;
      apart = ground (arith, h.in_use);
      named = stage_path-IsStage target (env.temp n);
      held = ground (arith, h.in_use, h.held);
    },
  )

  mkstemp-Fresh :
      {E : World → Type 0}
      → Meets
          (Clear env target connection c)
          (mkstemp (calm env) tmp_max target.dir ("." <> (target.name <> ".recovery-")) ".tmp")
          FreshAt
          E
  mkstemp-Fresh =
      Meets-weaken _ (λ w h. h) (Made-given env Clear-Quiet FreshAt _ _ _ create-Fresh)
        (mkstemp-Made env Clear-Quiet 9999 target.dir ("." <> (target.name <> ".recovery-")) ".tmp"
          (λ n w h. h.free n))

  Fresh-Placed :
      (identity : String) (page : ℕ) (p : FilePath) (i : ℕ) (w : World)
      → Fresh (durable (new_database identity) page) p i w
      → Placed p identity i page w
  Fresh-Placed identity page p i w h = record { at_entry = h.at_entry; at_content = h.is_content }

  -- The store with its hash.
  abbrev pub Built : String → FilePath × String → World → Type 0
  Built identity r w =
      (i : ℕ) × (page : ℕ) × Staged target connection c r.0 identity i page w
      × (r.1 ≡ env.digest (durable (new_database identity) page))

  module _ (identity : String) (p : FilePath) (i page : ℕ) where
    abbrev Written : World → Type 0
    Written = Fresh (durable (new_database identity) page) p i

    keep : (w w' : World) → Quiet w w' → Written w → Written w'
    keep = Fresh-Quiet (durable (new_database identity) page) p i

    within :
        {A : Type 0} (m : Act A) (v : A)
        → Step Quiet m
        → Gives (Placed p identity i page) m v
        → Gives Written m v
    within m v km gives = Gives-within env keep m v (Fresh-Placed identity page p i) km gives

    written :
        {E : World → Type 0}
        → Meets
            (Fresh blank p i)
            (change (λ w. fill i (durable (new_database identity) page) w))
            (λ _. Written)
            E
    unfolding change
    written = record {
      at = λ w h. record {
        at_entry = h.at_entry;
        is_content = rw (==_refl i) refl;
        vacant = h.vacant;
        apart = h.apart;
        named = h.named;
        held = ground (arith, h.apart, h.held);
      };
    }

    Written-Built :
        (w : World)
        → Written w
        → Built identity (p, env.digest (durable (new_database identity) page)) w
    Written-Built w h = (
      i,
      page,
      record {
        placed = Fresh-Placed identity page p i w h;
        vacant = h.vacant;
        apart = h.apart;
        named = h.named;
        held = h.held;
      },
      refl,
    )

    hash :
        Gives Written (sha256_file (calm env) p) (env.digest (durable (new_database identity) page))
    hash = within _ _ (Quiet-sha256_file (calm env) p) (hashed env p identity i page)

    -- The checks after the COMMIT.
    checked :
        {E : World → Type 0}
        → Meets Written
            (require_schema (calm env) i
              >> (query (calm env) i >>= (λ db.
                  require (length db.outbox == 0) "new replacement is not empty"
                  >> (call (calm env)
                      >> (gets (λ w. w.entry p) >>= (λ final_metadata.
                          require
                            (same_inode final_metadata (some i))
                            "replacement staging path changed during construction"
                          >> (call (calm env) >> sha256_file (calm env) p)))))))
            (λ sha. Built identity (p, sha))
            E
    unfolding new_database
    checked =
        Meets-gives_then _ _ tt
          (within _ _ (Quiet-require_schema (calm env) i) (schema env p identity i page))
          (Meets-gives _ _ (new_database identity)
            (within _ _ (Quiet-query (calm env) i) (queried env p identity i page))
            (Meets-gives_then _ _ tt (Gives-require _ _ refl) (
              Meets-gives_then _ _ tt (Gives-call env keep) (
                Meets-gives _ _ (some i) (Gives-gets env keep _ _ (λ w h. h.at_entry)) (
                  Meets-gives_then _ _ tt (Gives-require _ _ (==_refl i)) (
                    Meets-gives_then _ _ tt (Gives-call env keep)
                      (Meets-of_gives _ _ hash Written-Built)))))))

  build_replacement-Built :
      (identity : String) (p : FilePath) (i : ℕ) {E : World → Type 0}
      → Meets
          (Fresh blank p i)
          (build_replacement (calm env) p (some i) i identity)
          (λ sha. Built identity (p, sha))
          E
  unfolding build_replacement change new_database
  build_replacement-Built identity p i =
      let still = Fresh-Quiet blank p i in
      let step = Gives-sql env still in
      Meets-gives_then _ _ tt (Gives-call env still) (
        Meets-gives _ _ (some i) (Gives-gets env still _ _ (λ w h. h.at_entry)) (
          Meets-gives_then _ _ tt (Gives-require _ _ (==_refl i)) (
            Meets-gives_then _ _ tt step (
              Meets-gives_then _ _ tt step (
                Meets-gives_then _ _ tt step (
                  Meets-gives_then _ _ tt step (
                    Meets-gives_then _ _ tt step (
                      Meets-gives_then _ _ tt step (
                        Meets-gives_then _ _ tt step (
                          Meets-bind (λ _. Fresh blank p i) _ _ (Meets-draw env still)
                            λ page.
                              Meets-then (Written identity p i page) _ _ (written identity p i page)
                                (checked identity p i page)))))))))))

  opened :
      (identity : String) (p : FilePath) (i : ℕ) {E : World → Type 0}
      → Meets
          (Fresh blank p i)
          (gets (λ w. w.entry p) >>= (λ initial.
            call (calm env)
            >> (call (calm env)
                >> (sqlite_connect (calm env) p >>= (λ connection'.
                    build_replacement (calm env) p initial connection' identity
                    >>= (λ sha. pure {A = FilePath × String} (p, sha)))))))
          (Built identity)
          E
  opened identity p i =
      let still = Fresh-Quiet blank p i in
      Meets-gives _ _ (some i) (Gives-gets env still _ _ (λ w h. h.at_entry)) (
        Meets-gives_then _ _ tt (Gives-call env still) (
          Meets-gives_then _ _ tt (Gives-call env still) (
            Meets-gives _ _ i
              (Gives-sqlite_connect env still p i (λ w h. h.at_entry)
                (λ w h. rw (h.is_content, follow) refl))
              (Meets-bind (λ sha. Built identity (p, sha)) _ _
                (build_replacement-Built identity p i)
                λ sha. Meets-pure {A = FilePath × String} (p, sha) (λ w h. h)))))

  pub create_replacement-Built :
      (identity : String) {E : World → Type 0}
      → Meets
          (Clear env target connection c)
          (create_replacement (calm env) target identity)
          (Built identity)
          E
  unfolding create_replacement
  create_replacement-Built identity =
      Meets-bind FreshAt _ _ mkstemp-Fresh λ p. Meets-given λ i. opened identity p i
