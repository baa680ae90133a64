-- ===== src/Journal/Entered.antt =====
-- The directory entries while a journal is created: scripts/durable_recovery.py, `create_journal`.
use Prim.Native.String.{◌++◌ as ◌<>◌, len}
use package.text.Mathlib.TextPositions.{len-append}
use moon_mqtt_client.Base.{
  ℕ, ◌<◌, ◌==◌, ==_refl, String, true, false, ◌≡◌, refl, sym, ap, subst, none, some, arith,
  Bool-cases, inl, inr,
}
use moon_mqtt_client.Paths.{FilePath, path_eq, path_eq→eq, path_eq_refl}
use moon_mqtt_client.Request.{Request, journal_path}
use moon_mqtt_client.Exec.Rules.{
  Post, Meets, Meets-bind, Meets-then, Meets-weaken, Meets-storage_as, Meets-assume,
}
use moon_mqtt_client.Exec.Gives.{Gives-require, Meets-gives_then, Meets-of_gives}
use moon_mqtt_client.World.{
  Env, World, Content, blank, change, create, is_regular, publish_file_no_replace, link_file,
  unlink,
}
use moon_mqtt_client.World.Frame.{Quiet}
use moon_mqtt_client.World.Calm.{calm, drawn_path, link_file_lem, Gives-call}

-- The archive is a regular file with the hash, at the inode `a`.
pub record Archived (env : Env) (request : Request) (archive_sha : String) (a : ℕ) (w : World)
    : Type 0 where
  pub at_entry : w.entry request.archive ≡ some a
  pub regular : is_regular (w.content a) ≡ true
  pub digest : env.digest (w.content a) ≡ archive_sha

-- There is no journal, and the names that `mkstemp` may draw are free.
pub record Startable (env : Env) (request : Request) (archive_sha : String) (a : ℕ) (w : World)
    : Type 0 where
  pub archived : Archived env request archive_sha a w
  pub in_use : a < w.fresh
  pub vacant : w.entry (journal_path request) ≡ none
  pub free :
      (n : ℕ)
      → w.entry (
          drawn_path env
            (journal_path request).dir
            ("." <> ((journal_path request).name <> "."))
            ".tmp"
            n)
        ≡ none

module _ (env : Env) (request : Request) (archive_sha : String) (a : ℕ) where
  abbrev final : FilePath
  final = journal_path request

  abbrev A : World → Type 0
  A = Archived env request archive_sha a

  abbrev P : World → Type 0
  P = Startable env request archive_sha a

  Archived-Quiet : (w w' : World) → Quiet w w' → A w → A w'
  Archived-Quiet w w' q h = record {
    at_entry = rw q.entry_eq h.at_entry;
    regular = rw q.content_eq h.regular;
    digest = rw q.content_eq h.digest;
  }

  pub Startable-Quiet : (w w' : World) → Quiet w w' → P w → P w'
  Startable-Quiet w w' q h = record {
    archived = Archived-Quiet w w' q h.archived;
    in_use = omega (arith, h.in_use, q.fresh_eq);
    vacant = rw q.entry_eq h.vacant;
    free = λ n. rw q.entry_eq (h.free n);
  }

  -- The staging file `p`, with the inode `i`, holds `c`.
  pub record New (c : Content) (p : FilePath) (i : ℕ) (w : World) : Type 0 where
    pub archived : A w
    pub at_entry : w.entry p ≡ some i
    pub is_content : w.content i ≡ c
    pub vacant : w.entry final ≡ none
    pub apart : (i == a) ≡ false
    pub named : path_eq p final ≡ false

  pub New-Quiet :
      (c : Content) (p : FilePath) (i : ℕ) (w w' : World) → Quiet w w' → New c p i w → New c p i w'
  New-Quiet c p i w w' q h = record {
    archived = Archived-Quiet w w' q h.archived;
    at_entry = rw q.entry_eq h.at_entry;
    is_content = rw q.content_eq h.is_content;
    vacant = rw q.entry_eq h.vacant;
    apart = h.apart;
    named = h.named;
  }

  -- The journal is at its name; the staging file's name may be there too.
  pub record Placed (c : Content) (p : FilePath) (i : ℕ) (w : World) : Type 0 where
    pub archived : A w
    pub at_entry : w.entry final ≡ some i
    pub is_content : w.content i ≡ c
    pub named : path_eq p final ≡ false
    pub away : path_eq p request.archive ≡ false

  pub Placed-Quiet :
      (c : Content) (p : FilePath) (i : ℕ) (w w' : World)
      → Quiet w w'
      → Placed c p i w
      → Placed c p i w'
  Placed-Quiet c p i w w' q h = record {
    archived = Archived-Quiet w w' q h.archived;
    at_entry = rw q.entry_eq h.at_entry;
    is_content = rw q.content_eq h.is_content;
    named = h.named;
    away = h.away;
  }

  -- A drawn name is longer than the journal's.
  drawn-apart :
      (n : ℕ)
      → path_eq (drawn_path env final.dir ("." <> (final.name <> ".")) ".tmp" n) final ≡ false
  drawn-apart n =
      let p = drawn_path env final.dir ("." <> (final.name <> ".")) ".tmp" n in
      elim (Bool-cases (path_eq p final)) [
        | inl e ↦ absurd (
            omega (
              arith,
              ap (λ (q : FilePath). len q.name) (path_eq→eq p final e),
              len-append ("." <> (final.name <> ".")) (env.temp n <> ".tmp"),
              len-append "." (final.name <> "."),
              len-append final.name ".",
            ))
        | inr e ↦ e
      ]

  unfoldable pub NewAt : FilePath → World → Type 0
  NewAt p w = (i : ℕ) × New blank p i w

  pub create-New :
      (n : ℕ) (w : World)
      → P w
      → NewAt
          (drawn_path env final.dir ("." <> (final.name <> ".")) ".tmp" n)
          (create (drawn_path env final.dir ("." <> (final.name <> ".")) ".tmp" n) blank w)
  unfolding NewAt
  create-New n w h =
      let p = drawn_path env final.dir ("." <> (final.name <> ".")) ".tmp" n in
      (
        w.fresh,
        record {
          archived = record {
            at_entry = ground (arith, h.archived.at_entry, h.free n, path_eq→eq p request.archive);
            regular = ground (arith, h.archived.regular, h.in_use);
            digest = ground (arith, h.archived.digest, h.in_use);
          };
          at_entry = rw (path_eq_refl p) refl;
          is_content = rw (==_refl w.fresh) refl;
          vacant = rw (drawn-apart n) h.vacant;
          apart = ground (arith, h.in_use);
          named = drawn-apart n;
        },
      )

  away_of :
      (c : Content) (p : FilePath) (i : ℕ) (w : World)
      → New c p i w
      → path_eq p request.archive ≡ false
  away_of c p i w h = elim (Bool-cases (path_eq p request.archive)) [
    | inl e ↦
        absurd
          (ground (arith, path_eq→eq p request.archive e, h.at_entry, h.archived.at_entry, h.apart))
    | inr e ↦ e
  ]

  link_file-Placed :
      (c : Content) (p : FilePath) (i : ℕ) {E : World → Type 0}
      → Meets (New c p i) (link_file (calm env) p final) (λ b w. Placed c p i w × (b ≡ true)) E
  link_file-Placed c p i {E} = record {
    at = λ w h.
        subst (λ r. Post (λ b v. Placed c p i v × (b ≡ true)) E r.0 r.1)
          (sym (link_file_lem env p final i w h.at_entry h.vacant))
          (
            record {
              archived = record {
                at_entry =
                    ground (arith, h.archived.at_entry, h.vacant, path_eq→eq final request.archive);
                regular = h.archived.regular;
                digest = h.archived.digest;
              };
              at_entry = rw (path_eq_refl final) refl;
              is_content = h.is_content;
              named = h.named;
              away = away_of c p i w h;
            },
            refl,
          );
  }

  pub unlink-Placed :
      (c : Content) (p : FilePath) (i : ℕ) {E : World → Type 0}
      → Meets (Placed c p i) (unlink (calm env) p) (λ _. Placed c p i) E
  unfolding unlink change
  unlink-Placed c p i = Meets-gives_then _ _ tt (Gives-call env (Placed-Quiet c p i)) (record {
    at = λ w h. record {
      archived = record {
        at_entry = rw h.away h.archived.at_entry;
        regular = h.archived.regular;
        digest = h.archived.digest;
      };
      at_entry = rw h.named h.at_entry;
      is_content = h.is_content;
      named = h.named;
      away = h.away;
    };
  })

  pub published :
      (c : Content) (p : FilePath) (i : ℕ) {E : World → Type 0}
      → Meets (New c p i) (publish_file_no_replace (calm env) p final) (λ _. Placed c p i) E
  unfolding publish_file_no_replace
  published c p i =
      let still = Gives-call env (Placed-Quiet c p i) in
      Meets-bind (λ b w. Placed c p i w × (b ≡ true)) _ _
        (Meets-storage_as _ _ (link_file-Placed c p i))
        λ b.
          Meets-assume (b ≡ true) _ (λ w h. h.1)
            λ e.
              Meets-weaken _ (λ w h. h.0) (λ _ w h. h)
                (Meets-gives_then _ _ tt (Gives-require _ _ e) (
                  Meets-gives_then _ _ tt still (
                    Meets-then (Placed c p i) _ _ (unlink-Placed c p i)
                      (Meets-of_gives _ tt still (λ w h. h)))))
