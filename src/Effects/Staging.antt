-- ===== src/Effects/Staging.antt =====
-- The files that a run makes for itself: `mkstemp` gives a name that was free and an inode that no
-- file had, and `create_replacement` writes nothing else.
use Prim.Native.String.{◌++◌ as ◌<>◌}
use package.text.Mathlib.Text.{starts_with}
use package.text.Mathlib.TextPositions.{starts_with-append}
use moon_mqtt_client.Base.{
  none, inl, inr, Option-cases, sym, ◌||◌, ℕ, zero, suc, ◌≤◌, ◌==◌, String, Bool, true, false, ◌≡◌,
  refl, ◌∙◌, Option, some, arith,
}
use moon_mqtt_client.Paths.{FilePath, path_eq_refl}
use moon_mqtt_client.Exec.{◌>>=◌, pure}
use moon_mqtt_client.Exec.Rules.{
  IsPreorder, Step, step_rules, Meets, Meets-errors, Meets-bind, Meets-then, Meets-step,
  Meets-assume, Meets-weaken, Meets-or_raise, Meets-pure,
}
use moon_mqtt_client.World.{
  Env, World, Act, blank, call, draw, gets, create, follow, lexists, mkstemp, sqlite_connect,
  tmp_max, raise_sqlite, sql,
}
use moon_mqtt_client.World.Frame.{Quiet, quiet_rules, Quiet-call, Quiet-sql, Quiet-draw, Quiet-gets}
use moon_mqtt_client.World.Changes.{Frame, Frame-IsPreorder, Frame-Quiet, Frame-create}
use moon_mqtt_client.Replacement.{create_replacement, build_replacement}
use moon_mqtt_client.Effects.{quiet, fill-Frame}
use moon_mqtt_client.Reads.{Quiet-require_schema}

-- A file that `mkstemp` has made since `w0`, under a name that was free then unless it may be removed.
pub record IsNew (removes : FilePath → Bool) (w0 : World) (dir prefix : String) (p : FilePath)
    (w : World) : Type 0 where
  pub inode : ℕ
  pub at_entry : w.entry p ≡ some inode
  pub later : w0.fresh ≤ inode
  pub is_blank : w.content inode ≡ blank
  pub in_dir : p.dir ≡ dir
  pub named : starts_with p.name prefix ≡ true
  pub absent : removes p ≡ false → w0.entry p ≡ none

module _ (env : Env) (writes : ℕ → Bool) (removes : FilePath → Bool) (w0 : World) where
  abbrev pub Since : World → Type 0
  Since = Frame writes removes w0

  abbrev pub NewAt : String → String → FilePath → World → Type 0
  NewAt dir prefix p w = Since w × IsNew removes w0 dir prefix p w

  o : IsPreorder (Frame writes removes)
  o = Frame-IsPreorder writes removes

  pub Since-Quiet : (s t : World) → Quiet s t → Since s → Since t
  Since-Quiet s t q h = o.next w0 s t h (Frame-Quiet writes removes s t q)

  pub NewAt-Quiet :
      (dir prefix : String) (p : FilePath) (s t : World)
      → Quiet s t
      → NewAt dir prefix p s
      → NewAt dir prefix p t
  NewAt-Quiet dir prefix p s t q (h, n) = (
    Since-Quiet s t q h,
    record {
      inode = n.inode;
      at_entry = rw q.entry_eq n.at_entry;
      later = n.later;
      is_blank = rw q.content_eq n.is_blank;
      in_dir = n.in_dir;
      named = n.named;
      absent = n.absent;
    },
  )

  -- A name that is free now was free then.
  free_before :
      (p : FilePath) (w : World)
      → lexists p w ≡ false
      → Since w
      → removes p ≡ false
      → w0.entry p ≡ none
  free_before p w free h k = elim (Option-cases (w0.entry p)) [
    | inl e ↦ e
    | inr (i, e) ↦ ground (arith, h.entry_kept p i k e)
  ]

  create-NewAt :
      (dir prefix rest : String) (w : World)
      → lexists (record { dir = dir; name = prefix <> rest }) w ≡ false
      → Since w
      → NewAt dir prefix
          (record { dir = dir; name = prefix <> rest })
          (create (record { dir = dir; name = prefix <> rest }) blank w)
  create-NewAt dir prefix rest w free h = (
    o.next w0 w _ h (Frame-create writes removes _ _ w free),
    record {
      inode = w.fresh;
      at_entry = rw path_eq_refl;
      later = h.fresh_le;
      is_blank = ground arith;
      in_dir = refl;
      named = starts_with-append prefix rest;
      absent = λ k. free_before (record { dir = dir; name = prefix <> rest }) w free h k;
    },
  )

  -- A quiet action keeps a new file.
  pub NewAt-Step :
      {A : Type 0} (dir prefix : String) (p : FilePath) (m : Act A)
      → Step Quiet m
      → Meets (NewAt dir prefix p) m (λ _. NewAt dir prefix p) Since
  NewAt-Step dir prefix p m km =
      Meets-errors (λ w h. h.0) (Meets-step (NewAt-Quiet dir prefix p) m km)

  pub Since-Step : {A : Type 0} (m : Act A) → Step Quiet m → Meets Since m (λ _. Since) Since
  Since-Step m km = Meets-step Since-Quiet m km

  pub mkstemp-NewAt :
      (attempts : ℕ) (dir prefix suffix : String)
      → Meets Since (mkstemp env attempts dir prefix suffix) (NewAt dir prefix) Since
  unfolding mkstemp
  mkstemp-NewAt zero dir prefix suffix = record { at = λ s h. h }
  mkstemp-NewAt (suc attempts) dir prefix suffix =
      Meets-then Since _ _ (Since-Step (call env) (Quiet-call env)) (
        Meets-bind (λ _. Since) _ _ (Since-Step draw Quiet-draw)
          λ n.
            let p : FilePath = record { dir = dir; name = prefix <> (env.temp n <> suffix) } in
            Meets-bind (λ taken w. Since w × (lexists p w ≡ taken)) _ _
              (record { at = λ w h. (h, refl) })
              (elim [
                | true ↦
                    Meets-weaken _ (λ w h. h.0) (λ q w h. h)
                      (mkstemp-NewAt attempts dir prefix suffix)
                | false ↦
                    Meets-bind (λ _. NewAt dir prefix p) _ _
                      (record {
                        at = λ w h. create-NewAt dir prefix (env.temp n <> suffix) w h.1 h.0;
                      })
                      (λ _. Meets-pure p (λ w h. h))
              ]))

  pub later_of_follow :
      (dir prefix : String) (p : FilePath) (w : World)
      → NewAt dir prefix p w
      → (c : ℕ) → follow w (w.entry p) ≡ some c
      → w0.fresh ≤ c
  later_of_follow dir prefix p w (h, n) c e = ground (arith, n.later, n.at_entry, n.is_blank)

  -- The connection that SQLite opens on a new file is to its inode.
  pub sqlite_connect-later :
      (dir prefix : String) (p : FilePath)
      → Meets
          (NewAt dir prefix p)
          (sqlite_connect env p)
          (λ c w. NewAt dir prefix p w × (w0.fresh ≤ c))
          Since
  unfolding sqlite_connect
  sqlite_connect-later dir prefix p =
      Meets-then (NewAt dir prefix p) _ _ (NewAt-Step dir prefix p (sql env) (Quiet-sql env)) (
        Meets-bind (λ found w. NewAt dir prefix p w × (found ≡ follow w (w.entry p))) _ _
          (record { at = λ w h. (h, refl) })
          λ found.
            Meets-or_raise found raise_sqlite (record { at = λ w h. h.0.0 })
              λ c w e h. (h.0, later_of_follow dir prefix p w h.0 c (sym h.1 ∙ e)))

  -- A part that writes only an inode that is new since `w0`.
  later-Step :
      {A : Type 0} (c : ℕ) (m : Act A)
      → w0.fresh ≤ c
      → Step (Frame (λ i. writes i || i == c) removes) m
      → Meets Since m (λ _. Since) Since
  later-Step c m later km =
      Meets-step
        (λ s t f h. record {
          fresh_le = omega (arith, h.fresh_le, f.fresh_le);
          content_kept = λ i lt k.
              f.content_kept i (omega (arith, h.fresh_le)) (ground arith) ∙ h.content_kept i lt k;
          entry_kept = λ p i k e. f.entry_kept p i k (h.entry_kept p i k e);
          history = λ t e. f.history t (h.history t e);
        })
        m km

-- A name that `create_replacement` gives.
abbrev pub IsStage : FilePath → FilePath → Type 0
IsStage target p =
    (p.dir ≡ target.dir) × (starts_with p.name ("." <> (target.name <> ".recovery-")) ≡ true)

module _ (env : Env) (writes : ℕ → Bool) (removes : FilePath → Bool) where
  build_replacement-Frame :
      (p : FilePath) (initial : Option ℕ) (c : ℕ) (identity : String)
      → writes c ≡ true
      → Step (Frame writes removes) (build_replacement env p initial c identity)
  unfolding build_replacement
  build_replacement-Frame p initial c identity named =
      search
        (
          step_rules,
          Frame-IsPreorder writes removes,
          quiet env writes removes,
          quiet_rules,
          fill-Frame env writes removes,
          Quiet-require_schema,
        )
        depth 30

module _ (env : Env) (writes : ℕ → Bool) (removes : FilePath → Bool) (w0 : World) where
  -- The rest, from a connection to the new file.
  staged :
      (target : FilePath) (identity : String) (p : FilePath) (initial : Option ℕ) (c : ℕ)
      → w0.fresh ≤ c
      → IsStage target p
      → Meets {A = FilePath × String}
          (Frame writes removes w0)
          (build_replacement env p initial c identity
            >>= (λ sha. pure {A = FilePath × String} (p, sha)))
          (λ r w. Frame writes removes w0 w × IsStage target r.0)
          (Frame writes removes w0)
  staged target identity p initial c later named =
      Meets-bind (λ _. Frame writes removes w0) _ _
        (later-Step env writes removes w0 c _ later (
          build_replacement-Frame env (λ i. writes i || i == c) removes p initial c identity
            (ground arith)))
        λ sha. Meets-pure {A = FilePath × String} (p, sha) (λ w h. (h, named))

  pub create_replacement-IsStage :
      (target : FilePath) (identity : String)
      → Meets
          (Frame writes removes w0)
          (create_replacement env target identity)
          (λ r w. Frame writes removes w0 w × IsStage target r.0)
          (Frame writes removes w0)
  unfolding create_replacement
  create_replacement-IsStage target identity =
      let prefix : String = "." <> (target.name <> ".recovery-") in
      Meets-bind (NewAt env writes removes w0 target.dir prefix) _ _
        (mkstemp-NewAt env writes removes w0 tmp_max target.dir prefix ".tmp")
        λ p.
          Meets-bind (λ _. NewAt env writes removes w0 target.dir prefix p) _ _
            (NewAt-Step env writes removes w0 target.dir prefix p (gets (λ w. w.entry p))
              (Quiet-gets (λ w. w.entry p)))
            λ initial.
              Meets-then (NewAt env writes removes w0 target.dir prefix p) _ _
                (NewAt-Step env writes removes w0 target.dir prefix p (call env) (Quiet-call env))
                (Meets-then (NewAt env writes removes w0 target.dir prefix p) _ _
                  (NewAt-Step env writes removes w0 target.dir prefix p (call env) (Quiet-call env))
                  (Meets-bind
                    (λ c w. NewAt env writes removes w0 target.dir prefix p w × (w0.fresh ≤ c)) _ _
                    (sqlite_connect-later env writes removes w0 target.dir prefix p)
                    λ c.
                      Meets-assume ((w0.fresh ≤ c) × IsStage target p) _
                        (λ w h. (h.1, (h.0.1.in_dir, h.0.1.named)))
                        λ facts.
                          Meets-weaken _ (λ w h. h.0.0) (λ r w h. h)
                            (staged target identity p initial c facts.0 facts.1)))
