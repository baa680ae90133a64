-- ===== src/Effects/Temporary.antt =====
-- What the preparation of a recovery leaves alone: files of its own under names that were free are
-- created, written and removed again, and everything that was there stays. It is about
-- scripts/durable_recovery.py, `backup_database`, `build_archive`, `verify_archive` and `create_journal`.
use moon_mqtt_client.Base.{
  ℕ, ◌≤◌, Bool, false, ◌≡◌, refl, ◌∙◌, sym, Option, none, some, String, arith,
}
use moon_mqtt_client.Paths.{FilePath, path_eq→eq}
use moon_mqtt_client.Exec.{◌>>=◌, ◌>>◌, finally, except_raise, storage_as, or_raise}
use moon_mqtt_client.Exec.Rules.{
  IsPreorder, Step, Step-then, Meets, Meets-step, Meets-bind, Meets-then, Meets-or_raise,
  Meets-assume, Meets-weaken, Meets-always, Meets-finally, Meets-except_raise, Meets-storage_as,
}
use moon_mqtt_client.World.{
  Env, World, Act, Content, change, fill, enter, follow, gets, unlink, mkstemp, sqlite_connect,
  tmp_max, raise_storage,
}
use moon_mqtt_client.World.Frame.{Quiet, Quiet-call}
use moon_mqtt_client.World.Changes.{Frame, Frame-IsPreorder, Frame-Quiet}
use moon_mqtt_client.Effects.Staging.{
  NewAt, mkstemp-NewAt, NewAt-Step, sqlite_connect-later, later_of_follow,
}

abbrev pub no_inode : ℕ → Bool
no_inode i = false

abbrev pub no_name : FilePath → Bool
no_name p = false

-- Everything that was in `w0` is as it was; the broker's history only grows.
abbrev pub Intact : World → World → Type 0
Intact w0 w = Frame no_inode no_name w0 w

-- A step after which everything of `w0` is intact if it was before.
pub record Spares (w0 s t : World) : Type 0 where
  pub spared : Frame no_inode no_name w0 s → Frame no_inode no_name w0 t

module _ (env : Env) (w0 : World) where
  pub spares : IsPreorder (Spares w0)
  spares = record {
    same = λ s. record { spared = λ h. h };
    next = λ s t u a b. record { spared = λ h. b.spared (a.spared h) };
  }

  pub Spares_of_Frame :
      {A : Type 0} (m : Act A) → Step (Frame no_inode no_name) m → Step (Spares w0) m
  Spares_of_Frame m km = record {
    at = λ s. record {
      spared = λ h. (Frame-IsPreorder no_inode no_name).next w0 s (m s).1 h (km.at s);
    };
  }

  pub Spares_of_Quiet : {A : Type 0} (m : Act A) → Step Quiet m → Step (Spares w0) m
  Spares_of_Quiet m km = record {
    at = λ s. record {
      spared = λ h.
          (Frame-IsPreorder no_inode no_name).next w0 s (m s).1 h
            (Frame-Quiet no_inode no_name s (m s).1 (km.at s));
    };
  }

  pub fill-Spares :
      (i : ℕ) (c : World → Content) → w0.fresh ≤ i → Step (Spares w0) (change (λ w. fill i (c w) w))
  unfolding change
  fill-Spares i c later = record {
    at = λ s. record {
      spared = λ h. record {
        fresh_le = h.fresh_le;
        content_kept = λ j lt k. ground (arith, h.content_kept j lt k);
        entry_kept = h.entry_kept;
        history = h.history;
      };
    };
  }

  remove-Spares : (p : FilePath) → w0.entry p ≡ none → Step (Spares w0) (change (enter p none))
  unfolding change
  remove-Spares p absent = record {
    at = λ s. record {
      spared = λ h. record {
        fresh_le = h.fresh_le;
        content_kept = h.content_kept;
        entry_kept = λ q i k e. ground (arith, path_eq→eq p q, h.entry_kept q i k e);
        history = h.history;
      };
    };
  }

  pub unlink-Spares : (p : FilePath) → w0.entry p ≡ none → Step (Spares w0) (unlink env p)
  unfolding unlink
  unlink-Spares p absent =
      Step-then spares _ _ (Spares_of_Quiet _ (Quiet-call env)) (remove-Spares p absent)

  -- The world of a step, and of an action that starts with a new file.
  pub Meets_of_Spares :
      {A : Type 0} (m : Act A)
      → Step (Spares w0) m
      → Meets (Intact w0) m (λ _. Intact w0) (Intact w0)
  Meets_of_Spares m km = Meets-step (λ s t f h. f.spared h) m km

  pub Spares_of_Meets :
      {A : Type 0} (m : Act A)
      → Meets (Intact w0) m (λ _. Intact w0) (Intact w0)
      → Step (Spares w0) m
  Spares_of_Meets m km = record {
    at = λ s. record { spared = λ h. Meets-always m km (λ a t k. k) s h };
  }

  -- From a file `p` that `mkstemp` has just made, everything of `w0` stays intact.
  pub record Uses {A : Type 0} (dir prefix : String) (p : FilePath) (m : Act A) : Type 0 where
    pub meets :
        Meets
          (NewAt env no_inode no_name w0 dir prefix p)
          m
          (λ _. Frame no_inode no_name w0)
          (Frame no_inode no_name w0)

  pub Meets-temporary :
      {A : Type 0} {Q : A → World → Type 0} (dir prefix suffix : String) (f : FilePath → Act A)
      → ((p : FilePath)
          → w0.entry p ≡ none
          → Meets (NewAt env no_inode no_name w0 dir prefix p) (f p) Q (Intact w0))
      → Meets (Intact w0) (mkstemp env tmp_max dir prefix suffix >>= f) Q (Intact w0)
  Meets-temporary dir prefix suffix f uses =
      Meets-bind (NewAt env no_inode no_name w0 dir prefix) _ _
        (mkstemp-NewAt env no_inode no_name w0 tmp_max dir prefix suffix)
        λ p. Meets-assume (w0.entry p ≡ none) _ (λ w h. h.1.absent refl) λ absent. uses p absent

  pub Spares-temporary :
      {A : Type 0} (dir prefix suffix : String) (f : FilePath → Act A)
      → ((p : FilePath) → w0.entry p ≡ none → Uses dir prefix p (f p))
      → Step (Spares w0) (mkstemp env tmp_max dir prefix suffix >>= f)
  Spares-temporary dir prefix suffix f uses =
      Spares_of_Meets _ (Meets-temporary dir prefix suffix f (λ p absent. (uses p absent).meets))

  -- The same where an `OSError` of `mkstemp` is turned into a `RecoveryError`.
  pub Spares-temporary_as :
      {A : Type 0} (reason dir prefix suffix : String) (f : FilePath → Act A)
      → ((p : FilePath) → w0.entry p ≡ none → Uses dir prefix p (f p))
      → Step (Spares w0) (storage_as reason (mkstemp env tmp_max dir prefix suffix) >>= f)
  Spares-temporary_as reason dir prefix suffix f uses = Spares_of_Meets _ (
      Meets-bind (NewAt env no_inode no_name w0 dir prefix) _ _
        (Meets-storage_as reason _
          (mkstemp-NewAt env no_inode no_name w0 tmp_max dir prefix suffix))
        λ p.
          Meets-assume (w0.entry p ≡ none) _ (λ w h. h.1.absent refl)
            λ absent. (uses p absent).meets)

module _ (env : Env) (w0 : World) (dir prefix : String) (p : FilePath) where
  abbrev New : World → Type 0
  New = NewAt env no_inode no_name w0 dir prefix p

  module _ {A : Type 0} where
    abbrev Used : Act A → Type 0
    Used m = Uses env w0 dir prefix p m

    pub Uses-rest : (m : Act A) → Step (Spares w0) m → Used m
    Uses-rest m km = record {
      meets = Meets-weaken m (λ w h. h.0) (λ a w h. h) (Meets_of_Spares env w0 m km);
    }

    pub Uses-finally :
        (m : Act A) (c : Act (Unit {0})) → Used m → Step (Spares w0) c → Used (finally m c)
    Uses-finally m c km kc = record {
      meets =
          Meets-finally m c km.meets (Meets_of_Spares env w0 c kc) (λ s h. h) (λ a s h. h)
            (λ a s h. h);
    }

    pub Uses-except_raise :
        (m : Act A) (c : Act (Unit {0})) → Used m → Step (Spares w0) c → Used (except_raise m c)
    Uses-except_raise m c km kc = record {
      meets = Meets-except_raise m c km.meets (Meets_of_Spares env w0 c kc) (λ s h. h);
    }

    pub Uses-storage_as : (reason : String) (m : Act A) → Used m → Used (storage_as reason m)
    Uses-storage_as reason m km = record { meets = Meets-storage_as reason m km.meets }

  module _ {A B : Type 0} where
    pub Uses-then :
        (m : Act A) (n : Act B)
        → Step Quiet m
        → Uses env w0 dir prefix p n
        → Uses env w0 dir prefix p (m >> n)
    Uses-then m n km kn = record {
      meets = Meets-then New m n (NewAt-Step env no_inode no_name w0 dir prefix p m km) kn.meets;
    }

    pub Uses-bind :
        (m : Act A) (f : A → Act B)
        → Step Quiet m
        → ((a : A) → Uses env w0 dir prefix p (f a))
        → Uses env w0 dir prefix p (m >>= f)
    Uses-bind m f km kf = record {
      meets =
          Meets-bind (λ _. New) m f (NewAt-Step env no_inode no_name w0 dir prefix p m km)
            λ a. (kf a).meets;
    }

    -- Used first, and then only what was there matters.
    pub Uses-first :
        (m : Act A) (f : A → Act B)
        → Uses env w0 dir prefix p m
        → ((a : A) → Step (Spares w0) (f a))
        → Uses env w0 dir prefix p (m >>= f)
    Uses-first m f km kf = record {
      meets =
          Meets-bind (λ _. Frame no_inode no_name w0) m f km.meets
            λ a. Meets_of_Spares env w0 (f a) (kf a);
    }

    pub Uses-first_then :
        (m : Act A) (n : Act B)
        → Uses env w0 dir prefix p m
        → Step (Spares w0) n
        → Uses env w0 dir prefix p (m >> n)
    Uses-first_then m n km kn = record {
      meets = Meets-then (Frame no_inode no_name w0) m n km.meets (Meets_of_Spares env w0 n kn);
    }

  module _ {A : Type 0} where
    pub Uses-sqlite_connect :
        (f : ℕ → Act A)
        → ((c : ℕ) → w0.fresh ≤ c → Step (Spares w0) (f c))
        → Uses env w0 dir prefix p (sqlite_connect env p >>= f)
    Uses-sqlite_connect f kf = record {
      meets =
          Meets-bind (λ c w. New w × (w0.fresh ≤ c)) _ _
            (sqlite_connect-later env no_inode no_name w0 dir prefix p)
            λ c.
              Meets-assume (w0.fresh ≤ c) _ (λ w h. h.1)
                λ later.
                  Meets-weaken (f c) (λ w h. h.0.0) (λ a w h. h)
                    (Meets_of_Spares env w0 (f c) (kf c later));
    }

    module _ (f : ℕ → Act A) (kf : (c : ℕ) → w0.fresh ≤ c → Uses env w0 dir prefix p (f c)) where
      -- The inode that is read from an expression on the world.
      Uses-read :
          (read : World → Option ℕ)
          → ((w : World) → New w → (c : ℕ) → read w ≡ some c → w0.fresh ≤ c)
          → Uses env w0 dir prefix p (gets read >>= (λ found. or_raise found raise_storage >>= f))
      Uses-read read later = record {
        meets =
            Meets-bind (λ found w. New w × (found ≡ read w)) _ _ (record { at = λ w h. (h, refl) })
              λ found.
                Meets-bind (λ c w. New w × (w0.fresh ≤ c)) _ _
                  (Meets-or_raise found raise_storage (record { at = λ w h. h.0.0 })
                    λ c w e h. (h.0, later w h.0 c (sym h.1 ∙ e)))
                  λ c.
                    Meets-assume (w0.fresh ≤ c) _ (λ w h. h.1)
                      λ fresh. Meets-weaken (f c) (λ w h. h.0) (λ a w h. h) (kf c fresh).meets;
      }

      pub Uses-open :
          Uses env w0 dir prefix p
            (gets (λ w. w.entry p) >>= (λ found. or_raise found raise_storage >>= f))
      Uses-open = Uses-read (λ w. w.entry p) (λ w h c e. ground (arith, h.1.later, h.1.at_entry))

      pub Uses-follow :
          Uses env w0 dir prefix p
            (gets (λ w. follow w (w.entry p)) >>= (λ found. or_raise found raise_storage >>= f))
      Uses-follow =
          Uses-read (λ w. follow w (w.entry p))
            (later_of_follow env no_inode no_name w0 dir prefix p)
