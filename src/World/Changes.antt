-- ===== src/World/Changes.antt =====
-- `Frame`: what an action that creates files, writes some inodes and removes some names leaves
-- alone, for the calls of World.antt that change something.
use moon_mqtt_client.Base.{
  ℕ, ◌≤◌, ◌<◌, Bool, true, false, ◌≡◌, refl, Option, none, some, arith, exists, subst, Bool-cases,
  inl, inr,
}
use moon_mqtt_client.Paths.{FilePath, path_eq→eq}
use moon_mqtt_client.Exec.Rules.{IsPreorder, Step, Step-bind, Step-then, Step-weaken}
use moon_mqtt_client.World.{
  Env, World, Act, Content, Exchange, Fault, planted, call, change, unlink, link_file, enter, fill,
  create, plant, linked, lexists,
}
use moon_mqtt_client.World.Frame.{Quiet, Quiet-call}

module _ (writes : ℕ → Bool) (removes : FilePath → Bool) where
  pub record Frame (w w' : World) : Type 0 where
    pub fresh_le : w.fresh ≤ w'.fresh
    pub content_kept : (i : ℕ) → i < w.fresh → writes i ≡ false → w'.content i ≡ w.content i
    pub entry_kept :
        (p : FilePath) (i : ℕ) → removes p ≡ false → w.entry p ≡ some i → w'.entry p ≡ some i
    pub history : (t : Exchange → Bool) → exists t w.exchanges ≡ true → exists t w'.exchanges ≡ true

  pub Frame-IsPreorder : IsPreorder Frame
  Frame-IsPreorder = record {
    same = λ w. record {
      fresh_le = omega arith;
      content_kept = λ i h k. refl;
      entry_kept = λ p i h e. e;
      history = λ t h. h;
    };
    next = λ s t u a b. record {
      fresh_le = omega (arith, a.fresh_le, b.fresh_le);
      content_kept = λ i h k.
          subst (λ x. u.content i ≡ x) (a.content_kept i h k)
            (b.content_kept i (omega (arith, a.fresh_le)) k);
      entry_kept = λ p i h e. b.entry_kept p i h (a.entry_kept p i h e);
      history = λ f h. b.history f (a.history f h);
    };
  }

  pub Frame-Quiet : (w w' : World) → Quiet w w' → Frame w w'
  Frame-Quiet w w' q = record {
    fresh_le = omega (arith, q.fresh_eq);
    content_kept = λ i h k. λ n. q.content_eq n i;
    entry_kept = λ p i h e. rw q.entry_eq e;
    history = λ f h. rw q.exchanges_eq h;
  }

  Frame-enter :
      (p : FilePath) (i : ℕ) (w : World) → lexists p w ≡ false → Frame w (enter p (some i) w)
  Frame-enter p i w free = record {
    fresh_le = omega arith;
    content_kept = λ j h k. refl;
    entry_kept = λ q j h e. ground (arith, path_eq→eq p q);
    history = λ f h. h;
  }

  pub Frame-remove : (p : FilePath) (w : World) → removes p ≡ true → Frame w (enter p none w)
  Frame-remove p w named = record {
    fresh_le = omega arith;
    content_kept = λ j h k. refl;
    entry_kept = λ q j h e. ground (arith, path_eq→eq p q);
    history = λ f h. h;
  }

  pub Frame-fill : (i : ℕ) (c : Content) (w : World) → writes i ≡ true → Frame w (fill i c w)
  Frame-fill i c w named = record {
    fresh_le = omega arith;
    content_kept = λ j h k. ground arith;
    entry_kept = λ q j h e. e;
    history = λ f h. h;
  }

  pub Frame-create :
      (p : FilePath) (c : Content) (w : World) → lexists p w ≡ false → Frame w (create p c w)
  Frame-create p c w free = record {
    fresh_le = omega arith;
    content_kept = λ j h k. ground arith;
    entry_kept = λ q j h e. ground (arith, path_eq→eq p q);
    history = λ f h. h;
  }

  Frame-plant : (f : Fault) (p : FilePath) (w : World) → Frame w (plant f p w)
  Frame-plant (planted c) p w = elim (Bool-cases (lexists p w)) [
    | inl taken ↦ rw taken (Frame-IsPreorder.same w)
    | inr free ↦ rw free (Frame-create p c w free)
  ]
  Frame-plant _ p w = Frame-IsPreorder.same w

  Frame-linked : (source p : FilePath) (i : Option ℕ) (w : World) → Frame w (linked source p i w).1
  Frame-linked source p none w = Frame-IsPreorder.same w
  Frame-linked source p (some i) w = elim (Bool-cases (lexists p w)) [
    | inl taken ↦ rw taken (Frame-IsPreorder.same w)
    | inr free ↦ rw free (Frame-enter p i w free)
  ]

  module _ {A : Type 0} where
    pub Frame_of_Quiet : (m : Act A) → Step Quiet m → Step Frame m
    Frame_of_Quiet m = Step-weaken Frame-Quiet m

module _ (env : Env) (writes : ℕ → Bool) (removes : FilePath → Bool) where
  o : IsPreorder (Frame writes removes)
  o = Frame-IsPreorder writes removes

  quiet : {A : Type 0} (m : Act A) → Step Quiet m → Step (Frame writes removes) m
  quiet m = Frame_of_Quiet writes removes m

  pub unlink-Frame : (p : FilePath) → removes p ≡ true → Step (Frame writes removes) (unlink env p)
  unfolding unlink
  unlink-Frame p named =
      Step-then o (call env) (change (enter p none)) (quiet (call env) (Quiet-call env))
        (record { at = λ w. Frame-remove writes removes p w named })

  pub link_file-Frame : (source p : FilePath) → Step (Frame writes removes) (link_file env source p)
  unfolding link_file
  link_file-Frame source p = record {
    at = λ w.
        let w' = plant (env.fault w.now) p w in
        o.next w w' _ (Frame-plant writes removes (env.fault w.now) p w) (
          (Step-bind o (call env) (λ _ v. linked source p (v.entry source) v)
              (quiet (call env) (Quiet-call env))
              (λ _. record {
                at = λ v. Frame-linked writes removes source p (v.entry source) v;
              })).at
            w');
  }
